-- ===== src/Ledger/Lottos.antt =====
-- Lottos (`DemoLotto` of nanacoin_ui/src/app/demo/lotto.ts) on the ledger that hosts them: the
-- creation of a draw and the sale of tickets.
pub mod Payouts
pub mod Fair
pub mod Scaled
pub mod Pools
pub mod Balance
use nanacoin.Prelude.{
  ℕ, ◌+◌, ◌*◌, ◌/◌, Bool, true, false, ◌&&◌, ◌||◌, not, if◌then◌else◌, Option, none, some, or_else,
  List, [], ◌∷◌, ◌++◌, length, find, update, map, reversed, ℤ, pos, pos_part, neg, ◌+ℤ◌, ◌*ℕ◌,
  ltb_ℤ, leb_ℤ, ltb, leb, ◌==◌, Text, is_empty, trim, codes, code_units,
}
use nanacoin.Prelude.Maps.{Dict, lookup, insert}
use nanacoin.Exec.{Exec, Fault, pure, lift, gets, throw_if, modify, or_raise, ◌>>=◌, ◌>>◌}
use nanacoin.Model.{
  AccountId, same_account, User, is_nana, is_active, Actor, TransactionKind, Memo, Reference,
  EconomicKind, Posting, LottoKind, LottoStatus, LottoTerms, Draw,
}
use nanacoin.Ledger.State.{Ledger, balance_of, display_name_of}
use nanacoin.Ledger.Delivery.{no_options}
use nanacoin.Ledger.Append.{append}
use nanacoin.Ledger.Guards.{is_safe_integer, max_safe_integer}
use nanacoin.Money.Digits.{number_text}

abbrev pub month : ℕ
month = 30 * 86400

-- The texts that account names stand for. No operation of a lotto names a caller's other text.
abbrev pub account_text : AccountId → Text
account_text AccountId.system_issuance = codes "account:system-issuance"
account_text AccountId.usd_issuance = codes "account:usd-issuance"
account_text AccountId.nickle_reserve = codes "account:nickle-reserve"
account_text (AccountId.lotto_pool n) = codes "lotto-pool-" ++ number_text n
account_text (AccountId.member n) = codes "account-user-" ++ number_text n
account_text (AccountId.usd a) = account_text a ++ codes "-usd"
account_text (AccountId.foreign n) = []

-- `host.name(account)`
abbrev pub holder_name : Ledger → AccountId → Text
holder_name s a = or_else (display_name_of s a) (account_text a)

abbrev pub is_interest : Memo → Bool
is_interest Memo.lotto_interest = true
is_interest _ = false

-- `host.post(id, memo, postings)`
unfoldable pub post_lotto : ℕ → Memo → List Posting → Exec Ledger (Unit {0})
unfolding ◌>>=◌
post_lotto id memo postings =
    append TransactionKind.transfer Actor.system memo postings record no_options {
      reference = some (Reference.lotto id);
      economic_kind = some (if is_interest memo then EconomicKind.interest else EconomicKind.other);
    }
    >> pure tt

abbrev is_simple : LottoKind → Bool
is_simple LottoKind.simple = true
is_simple _ = false

abbrev is_known_kind : LottoKind → Bool
is_known_kind LottoKind.other = false
is_known_kind _ = true

abbrev bad_terms : LottoTerms → ℕ → Bool
bad_terms terms now =
    not (is_known_kind terms.kind)
    || (is_empty (trim terms.title)
        || (ltb 80 (code_units terms.title)
            || (not (leb terms.ticket_price max_safe_integer)
                || (terms.ticket_price == 0
                    || (not (leb terms.closes_at max_safe_integer)
                        || (leb terms.closes_at now
                            || (ltb 10000 terms.rate_bps
                                || (is_simple terms.kind && not (terms.rate_bps == 0)))))))))

abbrev pub new_draw : ℕ → AccountId → LottoTerms → Draw
new_draw id house terms = record {
  id = id;
  terms = terms;
  house = house;
  pool = 0;
  interest = 0;
  tickets = 0;
  winner = none;
  winner_name = none;
  due_at = terms.closes_at + (if is_simple terms.kind then 0 else month);
  status = LottoStatus.open_lotto;
  entries = [];
}

abbrev pub add_draw : Draw → Ledger → Ledger
add_draw d s = record s { lotto = s.lotto ++ d ∷ [] }

unfoldable pub require_active_member : User → Exec Ledger (Unit {0})
unfolding throw_if
require_active_member u = throw_if (λ _. not (is_active u.status)) Fault.plain

-- `create(actor, terms, now)`
unfoldable pub create : User → LottoTerms → ℕ → Exec Ledger Draw
unfolding ◌>>=◌ require_active_member trim
create actor terms now = do
  require_active_member actor
  throw_if (λ _. not (is_nana actor.role)) Fault.plain
  throw_if (λ _. bad_terms terms now) Fault.plain
  d ← gets (λ s. new_draw (length s.lotto + 1) actor.account terms)
  modify (add_draw d)
  pure d

abbrev pub has_draw_id : ℕ → Draw → Bool
has_draw_id id d = d.id == id

unfoldable pub update_draw : ℕ → (Draw → Draw) → Ledger → Ledger
update_draw id f s = record s { lotto = update (has_draw_id id) f s.lotto }

abbrev pub is_open_lotto : LottoStatus → Bool
is_open_lotto LottoStatus.open_lotto = true
is_open_lotto _ = false

abbrev pub is_settled : LottoStatus → Bool
is_settled LottoStatus.settled = true
is_settled _ = false

-- `d.entries.get(account) ?? 0`
abbrev pub tickets_of : AccountId → Draw → ℕ
tickets_of a d = or_else (lookup same_account a d.entries) 0

-- `Number(BigInt(pool) * BigInt(rate_bps) / 10000n)`
abbrev pub interest_on : ℕ → LottoTerms → ℕ
interest_on pool terms = pool * terms.rate_bps / 10000

-- The draw behind the sale of `count` tickets to an account.
abbrev pub sold_to : AccountId → ℕ → Draw → Draw
sold_to a count d =
    let pool = count * d.terms.ticket_price + d.pool in
    record d {
      entries = insert same_account a (tickets_of a d + count) d.entries;
      pool = pool;
      interest = interest_on pool d.terms;
      tickets = d.tickets + count;
    }

abbrev pub ticket_postings : AccountId → ℕ → ℤ → List Posting
ticket_postings buyer id cost =
    record { account = buyer; name = []; amount = neg cost }
    ∷ record { account = AccountId.lotto_pool id; name = codes "Lotto pool"; amount = cost }
    ∷ []

-- Whether no open draw of that number takes tickets at that time.
abbrev pub is_closed : Option Draw → ℕ → Bool
is_closed none now = true
is_closed (some d) now = not (is_open_lotto d.status) || leb d.terms.closes_at now

-- A count that is no number of tickets, or costs more than the buyer has.
abbrev pub is_bad_count : Ledger → AccountId → ℤ → Draw → Bool
is_bad_count s buyer count d =
    let cost = count *ℕ d.terms.ticket_price in
    ltb_ℤ count (pos 1)
    || (ltb_ℤ (pos 4294967295) (count +ℤ pos d.tickets)
        || (not (is_safe_integer (cost +ℤ pos d.pool)) || ltb_ℤ (balance_of s buyer) cost))

abbrev pub is_over_limit : ℕ → Draw → Bool
is_over_limit count d =
    let pool = count * d.terms.ticket_price + d.pool in
    ltb max_safe_integer (pool + interest_on pool d.terms)

-- `buy(actor, id, count, now)` of a draw that is there and open
unfoldable pub buy_tickets_of : User → Draw → ℤ → Exec Ledger (Unit {0})
unfolding ◌>>=◌
buy_tickets_of actor d count = do
  throw_if (λ _. same_account actor.account d.house) Fault.plain
  throw_if (λ s. is_bad_count s actor.account count d) Fault.plain
  throw_if (λ _. is_over_limit (pos_part count) d) Fault.plain
  post_lotto d.id Memo.lotto_tickets
      (ticket_postings actor.account d.id (count *ℕ d.terms.ticket_price))
  modify (update_draw d.id (sold_to actor.account (pos_part count)))

-- `buy(actor, id, count, now)`
unfoldable pub buy_tickets : User → ℕ → ℤ → ℕ → Exec Ledger (Unit {0})
unfolding ◌>>=◌ require_active_member
buy_tickets actor id count now = do
  require_active_member actor
  found ← gets (λ s. find (has_draw_id id) s.lotto)
  throw_if (λ _. is_closed found now) Fault.plain
  d ← lift (or_raise found Fault.plain)
  buy_tickets_of actor d count

-- A row of `book(actor)`: the draw, and how many tickets the actor holds.
abbrev pub row_for : AccountId → Draw → Draw × ℕ
row_for a d = (d, tickets_of a d)

-- `book(actor)`, newest first
unfoldable pub lotto_book : User → Ledger → List (Draw × ℕ)
lotto_book actor s = reversed (map (row_for actor.account) s.lotto)
