-- ===== src/Ledger/Reform/Exact.antt =====
-- A reform is refused, or it multiplies every coin balance by its power of ten.
use nanacoin.Prelude.{
  ℕ, ◌^◌, ◌≡◌, refl, sym, ap, subst, ◌∙◌, true, false, not, ◌&&◌, Bool-cases, ◌⊎◌, inl, inr,
  if◌then◌else◌, All, pos, pos_part, ◌*ℕ◌, ltb_ℤ,
}
use nanacoin.Exec.{Exec, Result, ok, err, Fault, lift, gets, throw_if, modify, ◌>>=◌, ◌>>◌}
use nanacoin.Exec.Atomic.{IsRefused, Atomic, Atomic-gets, Atomic-throw_if}
use nanacoin.Model.{AccountId, is_usd, User}
use nanacoin.Ledger.State.{Ledger, balance_of}
use nanacoin.Ledger.Reform.{
  ReformInput, ReformResult, Amounts, conversions, write_reform, exponent_in, result_of, reform,
}
use nanacoin.Ledger.Reform.Balances.{IsDated, All-shifted, balance_in-scaled}

abbrev after : ReformInput → Amounts → Ledger → Ledger
after input amounts s =
    if input.preview
    then s
    else write_reform (pos_part (exponent_in input s)) input.decimals amounts s

-- The end of a reform whose conversions have all succeeded.
pub record IsWritten (input : ReformInput) (s : Ledger) (r : Result ReformResult × Ledger)
    : Type 0 where
  pub amounts : Amounts
  pub converted : conversions (exponent_in input s) input.power s ≡ ok amounts
  pub ledger : r.1 ≡ after input amounts s

module _ (actor : User) (input : ReformInput) (s : Ledger) where
  -- What a reform does with its amounts.
  write_step : Amounts → Exec Ledger ReformResult
  write_step amounts =
      throw_if (λ _. not input.preview && ltb_ℤ (exponent_in input s) (pos 0)) Fault.outside
      >> (modify (λ z.
            if input.preview
            then z
            else write_reform (pos_part (exponent_in input s)) input.decimals amounts z)
          >> gets (result_of input amounts.circulation))

  ok_first :
      (amounts : Amounts)
      → Atomic (IsWritten input s) s (write_step amounts)
      → Atomic (IsWritten input s) s (lift (ok amounts) >>= write_step)
  unfolding ◌>>=◌
  ok_first amounts h = record { ends = h.ends }

  write_step-Atomic :
      (amounts : Amounts)
      → conversions (exponent_in input s) input.power s ≡ ok amounts
      → Atomic (IsWritten input s) s (write_step amounts)
  unfolding write_step ◌>>=◌
  write_step-Atomic amounts h = record {
    ends = elim (Bool-cases (not input.preview && ltb_ℤ (exponent_in input s) (pos 0))) [
      | inl e ↦ rw e (inl (Fault.outside, refl))
      | inr e ↦ rw e (inr record { amounts = amounts; converted = h; ledger = refl })
    ];
  }

  writes-Atomic :
      (c : Result Amounts)
      → conversions (exponent_in input s) input.power s ≡ c
      → Atomic (IsWritten input s) s (lift c >>= write_step)
  unfolding ◌>>=◌
  writes-Atomic (err e) h = record { ends = inl (e, refl) }
  writes-Atomic (ok amounts) h = ok_first amounts (write_step-Atomic amounts h)

  last-Atomic :
      Atomic
        (IsWritten input s)
        s
        (lift (conversions (exponent_in input s) input.power s) >>= write_step)
  last-Atomic = writes-Atomic _ refl

  reform-Atomic : Atomic (IsWritten input s) s (reform actor input)
  unfolding reform write_step
  reform-Atomic = search (Atomic-throw_if, Atomic-gets, last-Atomic) depth 12

-- The balances behind a reform that raises by `n` powers of ten.
pub record IsConverted (input : ReformInput) (n : ℕ) (s s' : Ledger) : Type 0 where
  pub previewed : input.preview ≡ true → s' ≡ s
  pub coins :
      (a : AccountId)
      → is_usd a ≡ false
      → input.preview ≡ false
      → balance_of s' a ≡ balance_of s a *ℕ 10 ^ n
  pub dollars : s'.usd_balances ≡ s.usd_balances
  pub book : s'.transactions ≡ s.transactions
  pub dated : All (IsDated s'.epoch_exponents) s'.transactions

true_not_false : ¬ (true ≡ false)
true_not_false h = cc

written-IsConverted :
    (input : ReformInput) (n : ℕ) (s : Ledger) (amounts : Amounts)
    → exponent_in input s ≡ pos n
    → All (IsDated s.epoch_exponents) s.transactions
    → IsConverted input n s (after input amounts s)
unfolding write_reform balance_of
written-IsConverted input n s amounts raised dated =
    let written = write_reform (pos_part (exponent_in input s)) input.decimals amounts s in
    elim (Bool-cases input.preview) [
      | inl e ↦ subst (IsConverted input n s) (ap (λ b. if b then s else written) (sym e)) record {
        previewed = λ _. refl;
        coins = λ a coin no. absurd (true_not_false (sym e ∙ no));
        dollars = refl;
        book = refl;
        dated = dated;
      }
      | inr e ↦ subst (IsConverted input n s) (ap (λ b. if b then s else written) (sym e)) record {
        previewed = λ p. absurd (true_not_false (sym p ∙ e));
        coins = λ a coin no.
            balance_in-scaled (pos_part (exponent_in input s)) a coin s.epoch_exponents
              s.transactions dated
            ∙ ap (λ z. balance_of s a *ℕ 10 ^ pos_part z) raised;
        dollars = refl;
        book = refl;
        dated = All-shifted (pos_part (exponent_in input s)) s.epoch_exponents s.transactions dated;
      }
    ]

module _ (actor : User) (input : ReformInput) (n : ℕ) (s : Ledger)
    (raised : exponent_in input s ≡ pos n)
    (dated : All (IsDated s.epoch_exponents) s.transactions) where
  -- Where its decimals and its power ask for ten to the power `n` and every transaction is of an
  -- epoch of the ledger, a reform is refused and nothing changes, or it changes nothing because it
  -- is a preview, or it multiplies the balance of every coin account by ten to the power `n`; the
  -- dollars and the book stay as they are, and every transaction is again of an epoch of the
  -- ledger.
  pub reform-IsConverted :
      IsRefused s (reform actor input s) ⊎ IsConverted input n s (reform actor input s).1
  reform-IsConverted = elim (reform-Atomic actor input s).ends [
    | inl refused ↦ inl refused
    | inr done ↦ inr (
        subst (IsConverted input n s) (sym done.ledger)
          (written-IsConverted input n s done.amounts raised dated))
  ]
