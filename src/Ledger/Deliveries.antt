-- ===== src/Ledger/Deliveries.antt =====
-- What the parties of a sale say of its delivery (`setFulfillment`, `fulfillments`).
use nanacoin.Prelude.{
  ◌+◌, Bool, true, false, ◌&&◌, ◌||◌, not, if◌then◌else◌, Option, none, some, List, [], ◌∷◌, update,
  ltb, Text, trim, is_empty, byte_length, has_control,
}
use nanacoin.Exec.{Exec, Fault, Code, pure, lift, gets, throw_if, modify, or_raise, ◌>>=◌, ◌>>◌}
use nanacoin.Model.{
  same_account, User, is_nana, Party, PartyName, Transaction, TransactionId, Fulfillment,
  FulfillmentStatus, FulfillmentAction, Update, UpdateId,
}
use nanacoin.Ledger.State.{Ledger, find_transaction, has_id, now}
use nanacoin.Ledger.Delivery.{push_update, on_fulfillment}
use nanacoin.Ledger.Guards.{require_active}

abbrev pub is_complete : FulfillmentAction → Bool
is_complete FulfillmentAction.complete = true
is_complete _ = false

abbrev pub is_dispute : FulfillmentAction → Bool
is_dispute FulfillmentAction.dispute = true
is_dispute _ = false

abbrev pub is_action : FulfillmentAction → Bool
is_action FulfillmentAction.other = false
is_action _ = true

abbrev pub is_todo : FulfillmentStatus → Bool
is_todo FulfillmentStatus.todo = true
is_todo _ = false

abbrev pub is_done : FulfillmentStatus → Bool
is_done FulfillmentStatus.done = true
is_done _ = false

abbrev pub is_disputed : FulfillmentStatus → Bool
is_disputed FulfillmentStatus.disputed = true
is_disputed _ = false

-- The status that each action asks for.
abbrev pub is_ready : FulfillmentAction → FulfillmentStatus → Bool
is_ready action status =
    if is_complete action
    then is_todo status
    else if is_dispute action
    then is_todo status || is_done status
    else is_disputed status

abbrev pub next_status : FulfillmentAction → FulfillmentStatus
next_status action =
    if is_dispute action then FulfillmentStatus.disputed else FulfillmentStatus.done

abbrev pub is_bad_reason : FulfillmentAction → Text → Bool
is_bad_reason action reason =
    has_control reason
    || (ltb 96 (byte_length reason) || (is_dispute action && is_empty (trim reason)))

-- The recipient may do anything, the provider may only say that it is done.
abbrev pub may_act : User → FulfillmentAction → Fulfillment → Bool
may_act actor action f =
    same_account actor.account f.recipient
    || (is_complete action && same_account actor.account f.provider)

abbrev pub delivery_of : Option Transaction → Option Fulfillment
delivery_of none = none
delivery_of (some t) = t.fulfillment

unfoldable pub set_fulfillment :
    User → TransactionId → FulfillmentAction → Text → Exec Ledger Fulfillment
unfolding ◌>>=◌
set_fulfillment actor id action reason = do
  require_active actor
  found ← gets (λ s. delivery_of (find_transaction s id))
  f ← lift (or_raise found (Fault.demo 404 Code.not_found))
  throw_if (λ _. not (is_action action) || is_bad_reason action reason)
      (Fault.demo 400 Code.invalid_input)
  throw_if (λ _. not (may_act actor action f)) (Fault.demo 403 Code.forbidden)
  throw_if (λ _. not (is_ready action f.status)) (Fault.demo 409 Code.conflict)
  modify (λ s. record s { revision = s.revision + 1 })
  number ← gets (λ s. s.revision)
  at ← now
  let entry : Update = record {
    id = UpdateId.fulfillment number;
    at = at;
    actor = Party.account actor.account;
    actor_name = PartyName.display actor.display_name;
    status = next_status action;
    reason = reason;
  }
  modify (λ s. record s {
    transactions = update (has_id id) (on_fulfillment (push_update entry)) s.transactions;
  })
  pure (push_update entry f)

-- Whether a member may see a delivery record.
abbrev pub sees : User → Fulfillment → Bool
sees actor f =
    is_nana actor.role
    || (same_account f.provider actor.account || same_account f.recipient actor.account)

visible_deliveries : User → List Transaction → List Fulfillment
visible_deliveries actor [] = []
visible_deliveries actor (t ∷ ts) = elim t.fulfillment [
  | none ↦ visible_deliveries actor ts
  | some f ↦ if sees actor f then f ∷ visible_deliveries actor ts else visible_deliveries actor ts
]

unfoldable pub fulfillments : User → Exec Ledger (List Fulfillment)
unfolding ◌>>=◌ visible_deliveries
fulfillments actor = do require_active actor; gets (λ s. visible_deliveries actor s.transactions)
