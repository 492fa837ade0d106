-- ===== src/Ledger/Requests.antt =====
-- The requests that reach the ledger (nanacoin_ui/src/app/demo/demo-backend.ts, `handle`), as one
-- type, and a run of any requests by any members, between which time passes. A request that throws leaves what it had
-- written and the run goes on.
use nanacoin.Prelude.{
  ℕ, ◌+◌, ◌-◌, ◌*◌, ◌^◌, if◌then◌else◌, Bool, true, false, not, Option, List, [], ◌∷◌, ℤ, pos, Text,
  codes,
}
use nanacoin.Exec.{Exec, Result, ok, err, Fault, Code, pure, gets, throw_if, modify, ◌>>=◌, ◌>>◌}
use nanacoin.Model.{
  AccountId, User, UserStatus, Role, is_nana, TransactionId, QuoteSide, FulfillmentAction,
}
use nanacoin.Ledger.State.{Ledger, start_live}
use nanacoin.Ledger.Transfers
use nanacoin.Ledger.Transfers.{Economic}
use nanacoin.Ledger.Nickles
use nanacoin.Ledger.Exchange
use nanacoin.Ledger.Refunds
use nanacoin.Ledger.Market
use nanacoin.Ledger.Market.{ListingInput}
use nanacoin.Ledger.Offers
use nanacoin.Ledger.Members
use nanacoin.Ledger.Members.{text_or}
use nanacoin.Ledger.Deliveries
use nanacoin.Ledger.Loans
use nanacoin.Ledger.Loans.{LoanOfferInput}
use nanacoin.Ledger.Repayments
use nanacoin.Ledger.Commerce.{CommerceAction}
use nanacoin.Ledger.Art

-- The routes that change the ledger, but for reforms and lottos. The random bytes of a voucher come
-- with its request.
pub data Request : Type 0 where
  provision : Text → Text → Text → Text → Request
  add_user : Text → Text → Text → Bool → Request
  set_status : ℕ → UserStatus → Request
  set_bio : ℕ → Text → Request
  set_password : ℕ → Text → Request
  transfer : AccountId → ℤ → Text → Option Economic → Request
  issue : AccountId → ℤ → Text → Request
  retire : AccountId → ℤ → Text → Request
  issue_usd : AccountId → ℤ → Text → Request
  create_nickle : ℤ → Bool → List ℕ → Request
  redeem_nickle : Text → Request
  post_quote : QuoteSide → ℤ → ℤ → Request
  take_quote : ℕ → Request
  cancel_quote : ℕ → Request
  reverse : TransactionId → Text → Request
  refund : TransactionId → ℤ → Text → Request
  set_fulfillment : TransactionId → FulfillmentAction → Text → Request
  create_listing : ListingInput → Request
  cancel_listing : ℕ → Request
  purchase : ℕ → Request
  make_offer : ℕ → ℤ → Text → Request
  accept_offer : ℕ → Request
  decline_offer : ℕ → Request
  withdraw_offer : ℕ → Request
  offer_loan : LoanOfferInput → Request
  request_loan : LoanOfferInput → Request
  answer_loan : ℕ → LoanOfferInput → Request
  accept_loan : ℕ → Request
  close_loan : ℕ → Request
  repay_loan : ℕ → ℤ → Request
  commerce : CommerceAction → Request
  -- no request: seconds that pass on the wall clock, and the start of the live clock
  wait : ℕ → Request
  go_live : Request

-- `POST /users`: only Nana adds members, with a password of their own or the usual one, and may
-- give them 20 coins to start with.
unfoldable pub add_member : User → Text → Text → Text → Bool → Exec Ledger User
unfolding ◌>>=◌
add_member me username display_name password grant = do
  throw_if (λ _. not (is_nana me.role)) (Fault.demo 403 Code.forbidden)
  created ← Members.add_user username display_name (text_or password (codes "demo")) Role.user
  decimals ← gets (λ s. s.decimals)
  if grant
      then Transfers.issue me created.account (pos (20 * 10 ^ decimals))
          (codes "Starting allocation")
        >> pure created
      else pure created

-- A method of lending, at `Math.floor(Date.now() / 1000)`.
unfoldable pub at_now : {A : Type 0} → (ℕ → Exec Ledger A) → Exec Ledger (Unit {0})
unfolding ◌>>=◌
at_now m = do t ← gets (λ s. s.wall_clock); m t; pure tt

-- `catch (error)` around a command: what is not a `DemoError` becomes one.
abbrev pub recode : {A : Type 0} → Result A → Result A
recode (ok a) = ok a
recode (err (Fault.demo status code)) = err (Fault.demo status code)
recode (err _) = err (Fault.demo 400 Code.invalid_input)

unfoldable pub or_invalid : {A : Type 0} → Exec Ledger A → Exec Ledger A
or_invalid m s = (recode (m s).0, (m s).1)

-- What a request of a signed-in member does; its reply is left out.
unfoldable pub handle : User → Request → Exec Ledger (Unit {0})
unfolding ◌>>=◌ at_now or_invalid
handle me (Request.provision n d p h) = Members.provision n d p h >> pure tt
handle me (Request.add_user n d p g) = add_member me n d p g >> pure tt
handle me (Request.set_status id st) = Members.set_user_status me id st >> pure tt
handle me (Request.set_bio id b) = Members.set_user_bio me id b >> pure tt
handle me (Request.set_password id p) = Members.set_user_password me id p >> pure tt
handle me (Request.transfer to n m e) = Transfers.transfer me to n m e >> pure tt
handle me (Request.issue to n m) = Transfers.issue me to n m >> pure tt
handle me (Request.retire from n m) = Transfers.retire me from n m >> pure tt
handle me (Request.issue_usd to n m) = Exchange.issue_usd me to n m >> pure tt
handle me (Request.create_nickle n fresh random) =
    Nickles.create_nickle me n fresh random >> pure tt
handle me (Request.redeem_nickle token) = Nickles.redeem_nickle me token >> pure tt
handle me (Request.post_quote side rate n) = Exchange.post_quote me side rate n >> pure tt
handle me (Request.take_quote id) = Exchange.take_quote me id >> pure tt
handle me (Request.cancel_quote id) = Exchange.cancel_quote me id >> pure tt
handle me (Request.reverse id m) = Refunds.reverse_payment me id m >> pure tt
handle me (Request.refund id n m) = Refunds.refund me id n m >> pure tt
handle me (Request.set_fulfillment id a r) = Deliveries.set_fulfillment me id a r >> pure tt
handle me (Request.create_listing input) = Market.create_listing me input >> pure tt
handle me (Request.cancel_listing id) = Market.cancel_listing me id >> pure tt
handle me (Request.purchase id) = Market.buy_listing me id >> pure tt
handle me (Request.make_offer id n m) = Offers.make_offer me id n m >> pure tt
handle me (Request.accept_offer id) = Offers.accept_offer me id >> pure tt
handle me (Request.decline_offer id) = Offers.decline_offer me id >> pure tt
handle me (Request.withdraw_offer id) = Offers.withdraw_offer me id >> pure tt
handle me (Request.offer_loan input) = at_now (λ t. Loans.offer_loan me input t false)
handle me (Request.request_loan input) = at_now (λ t. Loans.offer_loan me input t true)
handle me (Request.answer_loan id input) = at_now (λ t. Repayments.answer_loan me input t id)
handle me (Request.accept_loan id) = at_now (λ t. Repayments.accept_loan me id t)
handle me (Request.close_loan id) = at_now (λ t. Repayments.close_loan me id t)
handle me (Request.repay_loan id n) = at_now (λ t. Repayments.repay_loan me id n t)
handle me (Request.commerce action) = or_invalid (Art.command me action) >> pure tt
handle me (Request.wait seconds) = modify (λ s. record s { wall_clock = s.wall_clock + seconds })
handle me Request.go_live = modify start_live

-- Requests one after the other, whether or not they throw.
unfoldable pub run : List (User × Request) → Ledger → Ledger
run [] s = s
run ((me, r) ∷ rs) s = run rs (handle me r s).1

-- The fields of `new DemoLedger()` at a moment of the wall clock, later than 400 days: its own clock
-- starts 400 days before.
abbrev pub initial : ℕ → Ledger
initial moment = record {
  decimals = 4;
  money_epoch = 0;
  revision = 0;
  live_clock = false;
  clock = moment - 400 * 86400;
  wall_clock = moment;
  epoch_exponents = 0 ∷ [];
  users = [];
  listings = [];
  offers = [];
  quotes = [];
  transactions = [];
  usd_balances = [];
  next_txn = 1;
  next_id = 1;
  nickles = [];
  next_nickle = 1;
  refund_amounts = [];
  household = codes "The Demo House";
  provisioned = false;
  commerce = record { requests = []; artworks = [] };
  lotto = [];
  lending = record { loans = []; next_loan = 1; blocked = [] };
}
