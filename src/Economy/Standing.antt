-- ===== src/Economy/Standing.antt =====
-- Someone's standing as the public ledger shows it (`publicReport` of
-- nanacoin_ui/src/app/people/public-report.ts). The labels of rows are left out, and so are the
-- partners, whose order is that of the platform's language.
use nanacoin.Prelude.{
  ℕ, ◌+◌, ◌≡◌, ◌∙◌, max, min, Bool, true, false, if◌then◌else◌, Option, none, some, or_else, List,
  [], ◌∷◌, ℤ, pos, ◌+ℤ◌, ◌-ℤ◌, ltb_ℤ, eqb_ℤ, eqb_ℤ_iff, int_laws, sum_by, Bool-cases, inl, inr,
}
use nanacoin.Model.{AccountId, Transaction, TransactionKind, is_message, EconomicKind}
use nanacoin.Economy.Series.{account_delta}

-- The keys of `ROWS`
pub data Category : Type 0 where
  labor good gift loan_principal interest issue retire other : Category

pub record Row : Type 0 where
  pub received : ℤ
  pub paid : ℤ

pub record Standing : Type 0 where
  pub count : ℕ
  pub first : Option ℕ
  pub last : Option ℕ
  pub received : ℤ
  pub paid : ℤ
  pub rows : Category → Option Row

abbrev economic_category : Option EconomicKind → Category
economic_category (some EconomicKind.labor) = Category.labor
economic_category (some EconomicKind.good) = Category.good
economic_category (some EconomicKind.gift) = Category.gift
economic_category (some EconomicKind.loan_principal) = Category.loan_principal
economic_category (some EconomicKind.interest) = Category.interest
economic_category _ = Category.other

-- `category(t)`
abbrev pub category : Transaction → Category
category t = elim t.kind [
  | TransactionKind.issue ↦ Category.issue
  | TransactionKind.retire ↦ Category.retire
  | _ ↦ economic_category t.economic_kind
]

abbrev same_category : Category → Category → Bool
same_category Category.labor Category.labor = true
same_category Category.good Category.good = true
same_category Category.gift Category.gift = true
same_category Category.loan_principal Category.loan_principal = true
same_category Category.interest Category.interest = true
same_category Category.issue Category.issue = true
same_category Category.retire Category.retire = true
same_category Category.other Category.other = true
same_category _ _ = false

abbrev pub no_standing : Standing
no_standing = record {
  count = 0;
  first = none;
  last = none;
  received = pos 0;
  paid = pos 0;
  rows = λ c. none;
}

-- `if (delta > 0) received += delta; else paid -= delta`
abbrev pub add_to_row : ℤ → Row → Row
add_to_row delta r =
    if ltb_ℤ (pos 0) delta
    then record r { received = r.received +ℤ delta }
    else record r { paid = r.paid -ℤ delta }

abbrev pub set_row : Category → Row → (Category → Option Row) → Category → Option Row
set_row key row rows c = if same_category key c then some row else rows c

abbrev pub totals_of : Standing → Row
totals_of s = record { received = s.received; paid = s.paid }

-- A transaction that is counted
unfoldable pub count_standing : Transaction → ℤ → Standing → Standing
count_standing t delta s =
    let key = category t in
    let row = or_else (s.rows key) record { received = pos 0; paid = pos 0 } in
    let totals = add_to_row delta (totals_of s) in
    record {
      count = s.count + 1;
      first = some (min (or_else s.first t.created_at) t.created_at);
      last = some (max (or_else s.last t.created_at) t.created_at);
      received = totals.received;
      paid = totals.paid;
      rows = set_row key (add_to_row delta row) s.rows;
    }

-- One round of the loop
unfoldable pub next_standing : AccountId → Transaction → Standing → Standing
unfolding account_delta count_standing
next_standing account t s =
    if is_message t.kind
    then s
    else if eqb_ℤ (account_delta account t) (pos 0)
    then s
    else count_standing t (account_delta account t) s

unfoldable pub standing_from : AccountId → List Transaction → Standing → Standing
unfolding next_standing
standing_from account [] s = s
standing_from account (t ∷ ts) s = standing_from account ts (next_standing account t s)

-- `publicReport(account, transactions)`
unfoldable pub public_report : AccountId → List Transaction → Standing
unfolding standing_from
public_report account txns = standing_from account txns no_standing

-- What a transaction that is no message adds to an account
unfoldable pub shown_delta : AccountId → Transaction → ℤ
unfolding account_delta
shown_delta account t = if is_message t.kind then pos 0 else account_delta account t

count_standing-net :
    (t : Transaction) (delta : ℤ) (s : Standing)
    → (count_standing t delta s).received -ℤ (count_standing t delta s).paid
      ≡ s.received -ℤ s.paid +ℤ delta
unfolding count_standing
count_standing-net t delta s = elim (Bool-cases (ltb_ℤ (pos 0) delta)) [
  | inl e ↦ rw e (omega int_laws)
  | inr e ↦ rw e (omega int_laws)
]

next_standing-net :
    (a : AccountId) (t : Transaction) (s : Standing)
    → (next_standing a t s).received -ℤ (next_standing a t s).paid
      ≡ s.received -ℤ s.paid +ℤ shown_delta a t
unfolding next_standing shown_delta
next_standing-net a t s = elim (Bool-cases (is_message t.kind)) [
  | inl e ↦ rw e (omega int_laws)
  | inr e ↦ elim (Bool-cases (eqb_ℤ (account_delta a t) (pos 0))) [
    | inl z ↦ rw (e, z, (eqb_ℤ_iff (account_delta a t) (pos 0)).0 z) (omega int_laws)
    | inr z ↦ rw (e, z) (count_standing-net t (account_delta a t) s)
  ]
]

standing_from-net :
    (a : AccountId) (ts : List Transaction) (s : Standing)
    → (standing_from a ts s).received -ℤ (standing_from a ts s).paid
      ≡ s.received -ℤ s.paid +ℤ sum_by (shown_delta a) ts
unfolding standing_from sum_by
standing_from-net a [] s = omega int_laws
standing_from-net a (t ∷ ts) s =
    rw (standing_from-net a ts (next_standing a t s), next_standing-net a t s) (omega int_laws)

from_zero : (x : ℤ) → pos 0 -ℤ pos 0 +ℤ x ≡ x
from_zero x = omega int_laws

-- What somebody's public report says was received, less what it says was paid, is the sum of what
-- the transactions add to the account, messages aside.
pub public_report-net :
    (account : AccountId) (txns : List Transaction)
    → (public_report account txns).received -ℤ (public_report account txns).paid
      ≡ sum_by (shown_delta account) txns
unfolding public_report
public_report-net account txns = standing_from-net account txns no_standing ∙ from_zero _
