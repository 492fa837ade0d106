-- ===== src/Ledger/Guards.antt =====
-- The guards that the methods of `DemoLedger` share (`requireNana`, `requireActive`,
-- `requireAmount`, `requireUserAccount`).
use nanacoin.Prelude.{
  ℕ, ◌+◌, ◌-◌, ◌^◌, Bool, true, false, ◌||◌, not, Option, none, some, ℤ, pos, pos_part, neg_part,
  leb, leb_ℤ, ltb_ℤ,
}
pub use nanacoin.Money.{max_money}
use nanacoin.Exec.{Exec, Fault, Code, throw_if, ◌>>=◌, ◌>>◌}
use nanacoin.Model.{AccountId, same_account, User, is_nana, is_active}
use nanacoin.Ledger.State.{Ledger, user_by_account}

-- `Number.MAX_SAFE_INTEGER`
abbrev pub max_safe_integer : ℕ
max_safe_integer = 2 ^ 53 - 1

abbrev pub is_safe_integer : ℤ → Bool
is_safe_integer n = leb (pos_part n + neg_part n) max_safe_integer

unfoldable pub require_nana : User → Exec Ledger (Unit {0})
unfolding throw_if
require_nana u = throw_if (λ _. not (is_nana u.role)) (Fault.demo 403 Code.forbidden)

unfoldable pub require_active : User → Exec Ledger (Unit {0})
unfolding throw_if
require_active u = throw_if (λ _. not (is_active u.status)) (Fault.demo 403 Code.disabled)

unfoldable pub require_amount : ℤ → Exec Ledger (Unit {0})
unfolding ◌>>=◌
require_amount n = do
  throw_if (λ _. not (is_safe_integer n) || leb_ℤ n (pos 0)) (Fault.demo 400 Code.bad_request)
  throw_if (λ _. ltb_ℤ (pos max_money) n) (Fault.demo 400 Code.bad_request)

abbrev pub is_missing {ℓ} : {A : Type ℓ} → Option A → Bool
is_missing none = true
is_missing (some a) = false

-- Whether an account has an owner who is disabled.
abbrev pub is_disabled : Option User → Bool
is_disabled none = false
is_disabled (some u) = not (is_active u.status)

unfoldable pub require_user_account : AccountId → Exec Ledger (Unit {0})
unfolding ◌>>=◌ user_by_account
require_user_account account = do
  throw_if (λ _. same_account account AccountId.system_issuance)
      (Fault.demo 400 Code.system_account)
  throw_if (λ s. is_missing (user_by_account s account)) (Fault.demo 404 Code.not_found)
  throw_if (λ s. is_disabled (user_by_account s account)) (Fault.demo 403 Code.disabled)
