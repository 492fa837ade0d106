-- ===== src/Ledger/Vouchers.antt =====
-- A voucher is redeemed once.
use nanacoin.Prelude.{
  ◌≡◌, refl, sym, ap, ◌∙◌, false, ◌⊎◌, inl, inr, Bool-cases, none, some, List, [], ◌∷◌, All, ℤ,
  Text, same_text, same_text_iff, ◌==◌,
}
use nanacoin.Prelude.Maps.{Dict, lookup, erase}
use nanacoin.Exec.{Result, modify, pure, ◌>>=◌, ◌>>◌}
use nanacoin.Exec.Atomic.{
  IsRefused, IsDone, Atomic, Atomic-check, Atomic-throw_if, Atomic-gets, Atomic-found, Atomic-last,
}
use nanacoin.Model.{
  AccountId, User, Actor, Transaction, TransactionKind, Memo, Reference, Voucher, Posting,
}
use nanacoin.Ledger.State.{Ledger, balance_of}
use nanacoin.Ledger.Delivery.{Options, no_options}
use nanacoin.Ledger.Append.{append}
use nanacoin.Ledger.Book.{append-cases}
use nanacoin.Ledger.Outcome.{require_active-Checks}
use nanacoin.Ledger.Balances.{IsCurrent}
use nanacoin.Ledger.Transfers.{two_postings}
use nanacoin.Ledger.Nickles.{redeem_nickle, digest_nickle}
use nanacoin.Ledger.Moves.{IsMove, append-pays}

-- No digest twice
abbrev pub Distinct : Dict Text Voucher → Type 0
Distinct [] = Unit
Distinct ((k, v) ∷ d) = All (λ (e : Text × Voucher). same_text e.0 k ≡ false) d × Distinct d

absent :
    (k : Text) (d : Dict Text Voucher)
    → All (λ (e : Text × Voucher). same_text e.0 k ≡ false) d
    → lookup same_text k d ≡ none
absent k [] h = refl
absent k ((j, v) ∷ d) (h, hs) = rw h (absent k d hs)

same_key :
    (j k : Text) (d : Dict Text Voucher)
    → j ≡ k
    → All (λ (e : Text × Voucher). same_text e.0 j ≡ false) d
    → lookup same_text k d ≡ none
same_key j k d e h = ap (λ i. lookup same_text i d) (sym e) ∙ absent j d h

lookup-erase :
    (k : Text) (d : Dict Text Voucher)
    → Distinct d
    → lookup same_text k (erase same_text k d) ≡ none
lookup-erase k [] h = refl
lookup-erase k ((j, v) ∷ d) (h, hs) = elim (Bool-cases (same_text j k)) [
  | inl e ↦ rw e (same_key j k d ((same_text_iff j k).0 e) h)
  | inr e ↦ rw (e, e) (lookup-erase k d hs)
]

All-erase :
    (P : Text × Voucher → Type 0) (k : Text) (d : Dict Text Voucher)
    → All P d
    → All P (erase same_text k d)
All-erase P k [] h = tt
All-erase P k ((j, v) ∷ d) (h, hs) = elim (Bool-cases (same_text j k)) [
  | inl e ↦ rw e hs
  | inr e ↦ rw e (h, All-erase P k d hs)
]

erase-Distinct : (k : Text) (d : Dict Text Voucher) → Distinct d → Distinct (erase same_text k d)
erase-Distinct k [] h = tt
erase-Distinct k ((j, v) ∷ d) (h, hs) = elim (Bool-cases (same_text j k)) [
  | inl e ↦ rw e hs
  | inr e ↦ rw e (All-erase _ k d h, erase-Distinct k d hs)
]

-- The voucher was another member's, its amount moved from the reserve to the actor, and it is gone.
pub record IsRedeemed (actor : User) (token : Text) (s : Ledger) (r : Result Transaction × Ledger)
    : Type 0 where
  pub voucher : Voucher
  pub stored : lookup same_text (digest_nickle token) s.nickles ≡ some voucher
  pub foreign : (voucher.issuer == actor.id) ≡ false
  pub paid : IsMove AccountId.nickle_reserve actor.account voucher.amount s r.1
  pub gone : lookup same_text (digest_nickle token) r.1.nickles ≡ none
  pub distinct : Distinct r.1.nickles

append-nickles :
    (k : TransactionKind) (a : Actor) (m : Memo) (ps : List Posting) (opts : Options) (s : Ledger)
    → (append k a m ps opts s).1.nickles ≡ s.nickles
append-nickles k a m ps opts s = elim (append-cases k a m ps opts s) [
  | inl same ↦ ap (λ (z : Ledger). z.nickles) same
  | inr added ↦ added.extends.frame.nickles
]

-- What a payment out of the reserve leaves.
abbrev Paid : AccountId → ℤ → Ledger → Ledger → Type 0
Paid to n s s' = IsMove AccountId.nickle_reserve to n s s' × (s'.nickles ≡ s.nickles)

module _ (actor : User) (token : Text) (s : Ledger) (current : IsCurrent s)
    (distinct : Distinct s.nickles) where
  pay_voucher :
      (n : ℤ) (m : Memo) (opts : Options)
      → opts.reverses ≡ none
      → opts.allow_overdraft ≡ false
      → (let r =
            append TransactionKind.transfer
              (Actor.by_user actor.id)
              m
              (two_postings AccountId.nickle_reserve actor.account n)
              opts
              s in
          IsRefused s r ⊎ (IsDone r.0 × Paid actor.account n s r.1))
  pay_voucher n m opts fresh strict =
      elim (append-pays TransactionKind.transfer (Actor.by_user actor.id) m AccountId.nickle_reserve
        actor.account n opts s current fresh strict).ends [
          | inl refused ↦ inl refused
          | inr (done, (_, moved)) ↦ inr (done, (moved, append-nickles _ _ _ _ opts s))
        ]

  redeemed :
      (v : Voucher)
      → lookup same_text (digest_nickle token) s.nickles ≡ some v
      → (v.issuer == actor.id) ≡ false
      → (t : Transaction) (s' : Ledger) → Paid actor.account v.amount s s'
      → IsRedeemed actor token s (
          (modify (λ z. record z { nickles = erase same_text (digest_nickle token) z.nickles })
              >> pure t)
            s')
  unfolding ◌>>=◌ balance_of
  redeemed v stored foreign t s' (moved, same) = record {
    voucher = v;
    stored = stored;
    foreign = foreign;
    paid = moved;
    gone = rw same (lookup-erase (digest_nickle token) s.nickles distinct);
    distinct = rw same (erase-Distinct (digest_nickle token) s.nickles distinct);
  }

  -- The payment and what follows
  settle-Atomic :
      (v : Voucher)
      → lookup same_text (digest_nickle token) s.nickles ≡ some v
      → (v.issuer == actor.id) ≡ false
      → Atomic (IsRedeemed actor token s) s (
          append TransactionKind.transfer
            (Actor.by_user actor.id)
            (Memo.redeem_nickle v.serial)
            (two_postings AccountId.nickle_reserve actor.account v.amount)
            (record no_options { reference = some (Reference.nickle v.serial) })
          >>= λ t.
              modify (λ z. record z { nickles = erase same_text (digest_nickle token) z.nickles })
              >> pure t)
  settle-Atomic v stored foreign =
      Atomic-last (IsRedeemed actor token s) s _ (Paid actor.account v.amount s) _
        (pay_voucher v.amount (Memo.redeem_nickle v.serial)
          (record no_options { reference = some (Reference.nickle v.serial) }) refl refl)
        (redeemed v stored foreign)

  redeem_nickle-Atomic : Atomic (IsRedeemed actor token s) s (redeem_nickle actor token)
  unfolding redeem_nickle
  redeem_nickle-Atomic =
      search
        (
          Atomic-check, Atomic-throw_if, Atomic-gets, Atomic-found, require_active-Checks,
          settle-Atomic,
        )
        depth 20

  -- A redemption is refused and nothing changes, or a voucher of another member was stored under
  -- the token's digest, exactly its amount moves from the reserve to the actor, and nothing is
  -- stored under the digest any more. The units of today have to be those of the epoch, and no
  -- digest may be stored twice, which is so again afterwards.
  pub redeem_nickle-IsRedeemed :
      IsRefused s (redeem_nickle actor token s)
      ⊎ IsRedeemed actor token s (redeem_nickle actor token s)
  redeem_nickle-IsRedeemed = redeem_nickle-Atomic.ends
