-- ===== src/Ledger/Transfers.antt =====
-- Moving, issuing and retiring coins (`transfer`, `issue`, `retire`).
use nanacoin.Prelude.{
  ℕ, Bool, false, ◌&&◌, ◌||◌, if◌then◌else◌, Option, none, some, List, [], ◌∷◌, ℤ, pos, neg, eqb_ℤ,
  ltb, Text, trim, is_empty, byte_length,
}
use nanacoin.Exec.{Exec, Fault, Code, throw_if, ◌>>=◌, ◌>>◌}
use nanacoin.Model.{
  AccountId, same_account, User, Actor, is_nana, Transaction, TransactionKind, Posting, Memo,
  EconomicKind, EconomicUnit, is_labor,
}
use nanacoin.Ledger.State.{Ledger, user_by_account}
use nanacoin.Ledger.Delivery.{Options, no_options}
use nanacoin.Ledger.Append.{append}
use nanacoin.Ledger.Guards.{require_active, require_nana, require_amount, require_user_account}

-- `[{account: from, name: '', amount: -amount}, {account: to, name: '', amount}]`
abbrev pub two_postings : AccountId → AccountId → ℤ → List Posting
two_postings from to amount =
    record { account = from; name = []; amount = neg amount }
    ∷ record { account = to; name = []; amount = amount }
    ∷ []

-- The `economic` argument of `transfer`.
pub record Economic : Type 0 where
  pub economic_kind : EconomicKind
  pub thing : Option Text
  pub quantity_milli : ℕ
  pub unit : EconomicUnit

abbrev pub economic_options : Option Economic → Options
economic_options none = no_options
economic_options (some e) = record no_options {
  economic_kind = some e.economic_kind;
  thing = e.thing;
  quantity_milli = some e.quantity_milli;
  unit = some e.unit;
}

-- Whether the owner of an account is Nana.
abbrev pub owned_by_nana : Ledger → AccountId → Bool
owned_by_nana s account = elim (user_by_account s account) [
  | none ↦ false
  | some u ↦ is_nana u.role
]

abbrev pub is_bad_message : Text → Bool
is_bad_message memo = is_empty (trim memo) || ltb 96 (byte_length memo)

-- `amount === 0` sends a message, any other amount has to be payable.
unfoldable pub require_payable : ℤ → Text → Exec Ledger (Unit {0})
unfolding throw_if require_amount
require_payable amount memo =
    if eqb_ℤ amount (pos 0)
    then throw_if (λ _. is_bad_message memo) (Fault.demo 400 Code.invalid_input)
    else require_amount amount

unfoldable pub transfer : User → AccountId → ℤ → Text → Option Economic → Exec Ledger Transaction
unfolding ◌>>=◌ require_active require_payable require_user_account
transfer actor to amount memo economic = do
  require_active actor
  require_payable amount memo
  throw_if (λ _. same_account to actor.account) (Fault.demo 400 Code.self_deal)
  require_user_account to
  throw_if (λ s. is_labor (economic_options economic).economic_kind && owned_by_nana s to)
      (Fault.demo 403 Code.forbidden)
  append (if eqb_ℤ amount (pos 0) then TransactionKind.message else TransactionKind.transfer)
      (Actor.by_user actor.id) (Memo.words memo) (two_postings actor.account to amount)
      (economic_options economic)

unfoldable pub issue : User → AccountId → ℤ → Text → Exec Ledger Transaction
unfolding ◌>>=◌ require_nana require_amount require_user_account
issue actor to amount reason = do
  require_nana actor
  require_amount amount
  require_user_account to
  append TransactionKind.issue (Actor.by_user actor.id) (Memo.words reason)
      (two_postings AccountId.system_issuance to amount) no_options

unfoldable pub retire : User → AccountId → ℤ → Text → Exec Ledger Transaction
unfolding ◌>>=◌ require_nana require_amount require_user_account
retire actor from amount reason = do
  require_nana actor
  require_amount amount
  require_user_account from
  append TransactionKind.retire (Actor.by_user actor.id) (Memo.words reason)
      (two_postings from AccountId.system_issuance amount) no_options
