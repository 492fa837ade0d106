-- ===== src/Model/Accounts.antt =====
-- Account names. The source builds them as texts; each form of text is a constructor here:
-- `account:system-issuance`, `account:usd-issuance`, `account:nickle-reserve`, `lotto-pool-n`,
-- `account-user-n`, an account with `-usd` behind it, and any other text that a caller may send.
use nanacoin.Prelude.{ℕ, Bool, true, false, ◌≡◌, ◌↔◌, arith, ◌==◌}

pub data AccountId : Type 0 where
  system_issuance usd_issuance nickle_reserve : AccountId
  lotto_pool : ℕ → AccountId
  member : ℕ → AccountId
  usd : AccountId → AccountId
  foreign : ℕ → AccountId

-- `===` on account names
abbrev pub same_account : AccountId → AccountId → Bool
same_account AccountId.system_issuance AccountId.system_issuance = true
same_account AccountId.usd_issuance AccountId.usd_issuance = true
same_account AccountId.nickle_reserve AccountId.nickle_reserve = true
same_account (AccountId.lotto_pool m) (AccountId.lotto_pool n) = m == n
same_account (AccountId.member m) (AccountId.member n) = m == n
same_account (AccountId.usd a) (AccountId.usd b) = same_account a b
same_account (AccountId.foreign m) (AccountId.foreign n) = m == n
same_account _ _ = false

pub same_account_iff : (a b : AccountId) → (same_account a b ≡ true) ↔ (a ≡ b)
same_account_iff (AccountId.usd a) (AccountId.usd b) = ground (arith, same_account_iff a b)
same_account_iff AccountId.system_issuance b = ground arith
same_account_iff a b = ground arith

-- `DemoLedger.isUSD`
abbrev pub is_usd : AccountId → Bool
is_usd AccountId.usd_issuance = true
is_usd (AccountId.usd a) = true
is_usd _ = false
