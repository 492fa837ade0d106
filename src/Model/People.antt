-- ===== src/Model/People.antt =====
-- Members of the household (`User`, and `DemoUser` of demo/ledger.ts).
use nanacoin.Prelude.{ℕ, Bool, true, false, Text}
use nanacoin.Model.Accounts.{AccountId}

pub data Role : Type 0 where
  nana user : Role

pub data UserStatus : Type 0 where
  active disabled : UserStatus

abbrev pub is_nana : Role → Bool
is_nana Role.nana = true
is_nana Role.user = false

abbrev pub is_active : UserStatus → Bool
is_active UserStatus.active = true
is_active UserStatus.disabled = false

-- `id` is the number of `user-n`.
pub record User : Type 0 where
  pub id : ℕ
  pub username : Text
  pub display_name : Text
  pub role : Role
  pub status : UserStatus
  pub account : AccountId
  pub created_at : ℕ
  pub bio : Text
  pub password : Text

-- Who did something: a member, or the server itself (`'system'`).
pub data Actor : Type 0 where
  by_user : ℕ → Actor
  system : Actor
