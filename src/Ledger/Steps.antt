-- ===== src/Ledger/Steps.antt =====
-- Delivery records as a state machine (`setFulfillment` of nanacoin_ui/src/app/demo/ledger.ts).
use nanacoin.Prelude.{
  ℕ, zero, suc, ◌+◌, ◌-◌, ◌≤◌, ◌≡◌, refl, ap, Bool, true, false, not, ◌||◌, ◌⊎◌, some, none, Option,
  List, ◌≢◌, ◌++◌, find, Bool-cases, inl, subst, sym, ◌∙◌, if◌then◌else◌, [], ◌∷◌, length, drop,
  take_last, arith, Text, inr, update,
}
use nanacoin.Exec.{pure, gets, modify, ◌>>◌, Exec, Result, ok, ◌>>=◌}
use nanacoin.Exec.Atomic.{
  Atomic, IsRefused, Atomic-check, Atomic-throw_if, Atomic-found, Atomic-gets,
}
use nanacoin.Model.{
  User, Transaction, TransactionId, same_txn, same_txn_iff, Fulfillment, FulfillmentStatus,
  FulfillmentAction, Update, UpdateId, Party, PartyName,
}
use nanacoin.Ledger.State.{Ledger, find_transaction, has_id, now}
use nanacoin.Ledger.Sold.{tick-transactions}
use nanacoin.Ledger.Delivery.{push_update, on_fulfillment}
use nanacoin.Ledger.Deliveries.{
  is_action, is_ready, next_status, is_bad_reason, may_act, delivery_of, set_fulfillment,
}
use nanacoin.Ledger.Outcome.{require_active-Checks}

-- The steps that a delivery may take after it has started.
pub data DeliveryStep : FulfillmentStatus → FulfillmentStatus → Type 0 where
  complete : DeliveryStep FulfillmentStatus.todo FulfillmentStatus.done
  dispute_open : DeliveryStep FulfillmentStatus.todo FulfillmentStatus.disputed
  dispute_done : DeliveryStep FulfillmentStatus.done FulfillmentStatus.disputed
  withdraw : DeliveryStep FulfillmentStatus.disputed FulfillmentStatus.done

ready-DeliveryStep :
    (a : FulfillmentAction) (st : FulfillmentStatus)
    → is_action a ≡ true
    → is_ready a st ≡ true
    → DeliveryStep st (next_status a)
ready-DeliveryStep FulfillmentAction.complete FulfillmentStatus.todo x y = DeliveryStep.complete
ready-DeliveryStep FulfillmentAction.complete FulfillmentStatus.done x y = cc
ready-DeliveryStep FulfillmentAction.complete FulfillmentStatus.disputed x y = cc
ready-DeliveryStep FulfillmentAction.complete FulfillmentStatus.reversed x y = cc
ready-DeliveryStep FulfillmentAction.dispute FulfillmentStatus.todo x y = DeliveryStep.dispute_open
ready-DeliveryStep FulfillmentAction.dispute FulfillmentStatus.done x y = DeliveryStep.dispute_done
ready-DeliveryStep FulfillmentAction.dispute FulfillmentStatus.disputed x y = cc
ready-DeliveryStep FulfillmentAction.dispute FulfillmentStatus.reversed x y = cc
ready-DeliveryStep FulfillmentAction.withdraw_dispute FulfillmentStatus.disputed x y =
    DeliveryStep.withdraw
ready-DeliveryStep FulfillmentAction.withdraw_dispute FulfillmentStatus.todo x y = cc
ready-DeliveryStep FulfillmentAction.withdraw_dispute FulfillmentStatus.done x y = cc
ready-DeliveryStep FulfillmentAction.withdraw_dispute FulfillmentStatus.reversed x y = cc
ready-DeliveryStep FulfillmentAction.other st x y = cc

length-drop : {A : Type 0} (n : ℕ) (xs : List A) → length (drop n xs) ≡ length xs - n
length-drop zero xs = omega arith
length-drop (suc n) [] = omega arith
length-drop (suc n) (x ∷ xs) = omega (arith, length-drop n xs)

length-take_last : {A : Type 0} (n : ℕ) (xs : List A) → length (take_last n xs) ≤ n
length-take_last n xs = omega (arith, length-drop (length xs - n) xs)

-- What an accepted action leaves: the transaction's delivery record has taken a step from what it
-- was, by somebody who may take it, with the last entries kept and the new one behind them, and no
-- other transaction has changed.
pub record IsStep (u : User) (a : FulfillmentAction) (id : TransactionId) (s : Ledger)
    (r : Result Fulfillment × Ledger) : Type 0 where
  pub before : Fulfillment
  pub after : Fulfillment
  pub found : delivery_of (find_transaction s id) ≡ some before
  pub result : r.0 ≡ ok after
  pub stored : delivery_of (find_transaction r.1 id) ≡ some after
  pub others :
      (other : TransactionId) → other ≢ id → find_transaction r.1 other ≡ find_transaction s other
  pub allowed : may_act u a before ≡ true
  pub step : DeliveryStep before.status after.status
  pub entry : Update
  pub recorded : after.updates ≡ take_last 4 (before.updates ++ entry ∷ [])
  pub dated : (entry.status ≡ after.status) × (entry.actor ≡ Party.account u.account)
  pub short : length after.updates ≤ 4

on_fulfillment-id :
    (g : Fulfillment → Fulfillment) (t : Transaction) → (on_fulfillment g t).id ≡ t.id
on_fulfillment-id g t =
    elim t.fulfillment
      as (λ o.
        (elim o as (λ _. Transaction) [
          | none ↦ t
          | some f ↦ record t { fulfillment = some (g f) }
        ]).id
        ≡ t.id) [ none ↦ refl | some f ↦ refl ]

on_fulfillment-some :
    (g : Fulfillment → Fulfillment) (t : Transaction) (f : Fulfillment)
    → t.fulfillment ≡ some f
    → on_fulfillment g t ≡ record t { fulfillment = some (g f) }
on_fulfillment-some g t f e =
    ap
      (λ o. elim o as (λ _. Transaction) [
        | none ↦ t
        | some x ↦ record t { fulfillment = some (g x) }
      ])
      e

-- A write to the delivery record of the transaction that is found under the id
module _ (id : TransactionId) (g : Fulfillment → Fulfillment) where
  found-here :
      (t : Transaction) (ts : List Transaction) (f : Fulfillment)
      → has_id id t ≡ true
      → t.fulfillment ≡ some f
      → delivery_of (find (has_id id) (on_fulfillment g t ∷ ts)) ≡ some (g f)
  found-here t ts f h e =
      subst (λ u. delivery_of (find (has_id id) (u ∷ ts)) ≡ some (g f))
        (sym (on_fulfillment-some g t f e)) (rw h refl)

  at_test :
      (b c : Bool) (t : Transaction) (o : Option Transaction) (f : Fulfillment)
      → b ≡ c
      → delivery_of (if b then some t else o) ≡ some f
      → delivery_of (if c then some t else o) ≡ some f
  at_test b c t o f e h = subst (λ x. delivery_of (if x then some t else o) ≡ some f) e h

  passed :
      (t : Transaction) (other : TransactionId) (ts : List Transaction)
      → same_txn t.id other ≡ false
      → find (has_id other) (t ∷ ts) ≡ find (has_id other) ts
  passed t other ts h = rw h refl

  another :
      (t : Transaction) (other : TransactionId)
      → has_id id t ≡ true
      → other ≢ id
      → same_txn t.id other ≡ false
  another t other h ne = elim (Bool-cases (same_txn t.id other)) [
    | inl e ↦ absurd (ne (sym ((same_txn_iff t.id other).0 e) ∙ (same_txn_iff t.id id).0 h))
    | inr e ↦ e
  ]

  update-found :
      (ts : List Transaction) (f : Fulfillment)
      → delivery_of (find (has_id id) ts) ≡ some f
      → delivery_of (find (has_id id) (update (has_id id) (on_fulfillment g) ts)) ≡ some (g f)
  update-found [] f h = absurd (cc h)
  update-found (t ∷ ts) f h = elim (Bool-cases (has_id id t)) [
    | inl e ↦ rw e (found-here t ts f e (at_test _ true t (find (has_id id) ts) f e h))
    | inr e ↦ rw e (rw e (update-found ts f (at_test _ false t (find (has_id id) ts) f e h)))
  ]

  update-other :
      (other : TransactionId) (ts : List Transaction)
      → other ≢ id
      → find (has_id other) (update (has_id id) (on_fulfillment g) ts) ≡ find (has_id other) ts
  update-other other [] h = refl
  update-other other (t ∷ ts) h = elim (Bool-cases (has_id id t)) [
    | inl e ↦ rw e (
        passed (on_fulfillment g t) other ts (
          subst (λ i. same_txn i other ≡ false) (sym (on_fulfillment-id g t)) (another t other e h))
        ∙ sym (passed t other ts (another t other e h)))
    | inr e ↦ rw e (ground (arith, update-other other ts h))
  ]

from_not : (b : Bool) → not b ≡ false → b ≡ true
from_not b h = ground arith

first_off : (b c : Bool) → (not b || c) ≡ false → b ≡ true
first_off b c h = ground arith

module _ (u : User) (id : TransactionId) (a : FulfillmentAction) (reason : Text) (s : Ledger) where
  -- What `setFulfillment` does behind its guards.
  finish : Fulfillment → Exec Ledger Fulfillment
  unfolding ◌>>=◌
  finish f = do
    modify (λ s. record s { revision = s.revision + 1 })
    number ← gets (λ s. s.revision)
    at ← now
    let entry : Update = record {
      id = UpdateId.fulfillment number;
      at = at;
      actor = Party.account u.account;
      actor_name = PartyName.display u.display_name;
      status = next_status a;
      reason = reason;
    }
    modify (λ s. record s {
      transactions = update (has_id id) (on_fulfillment (push_update entry)) s.transactions;
    })
    pure (push_update entry f)

  finish-Atomic :
      (f : Fulfillment)
      → delivery_of (find_transaction s id) ≡ some f
      → (not (is_action a) || is_bad_reason a reason) ≡ false
      → not (may_act u a f) ≡ false
      → not (is_ready a f.status) ≡ false
      → Atomic (IsStep u a id s) s (finish f)
  unfolding finish ◌>>=◌ now find_transaction
  finish-Atomic f found known allowed ready = record {
    ends = inr (record {
      before = f;
      after = _;
      found = found;
      result = refl;
      stored = rw (tick-transactions _) (update-found id _ s.transactions f found);
      others = λ other ne. rw (tick-transactions _) (update-other id _ other s.transactions ne);
      entry = _;
      recorded = refl;
      dated = (refl, refl);
      allowed = from_not (may_act u a f) allowed;
      step =
          ready-DeliveryStep a f.status (first_off (is_action a) (is_bad_reason a reason) known)
            (from_not (is_ready a f.status) ready);
      short = search length-take_last;
    });
  }

  set_fulfillment-Atomic : Atomic (IsStep u a id s) s (set_fulfillment u id a reason)
  unfolding set_fulfillment finish
  set_fulfillment-Atomic =
      search
        (
          Atomic-check, Atomic-gets, Atomic-found, Atomic-throw_if, require_active-Checks,
          finish-Atomic,
        )
        depth 20

  -- An action on a delivery is refused and nothing changes, or the delivery record that is stored
  -- under the id takes one allowed step, by somebody who may take it, the actor's entry is the last
  -- of its at most four entries, and every other transaction stays as it is.
  pub set_fulfillment-steps :
      IsRefused s (set_fulfillment u id a reason s)
      ⊎ IsStep u a id s (set_fulfillment u id a reason s)
  set_fulfillment-steps = set_fulfillment-Atomic.ends
