-- ===== src/Lib.antt =====
-- A verification library for the NanaCoin web client (nanacoin_ui/src/app): the household ledger
-- that its demo mode runs in the browser, with the digest it uses for vouchers; the reading and
-- printing of amounts; the accounts signed in to a tab; Nana's market-making plan; and the central
-- bank's report and two of its series.
--
-- The parts and how they interact. A request of a signed-in member (demo/demo-backend.ts, `handle`)
-- calls one method of `DemoLedger` (demo/ledger.ts). A method checks its guards and then records at
-- most one coin transaction through `append`, the one door through which coins move; dollars are
-- moved by `issueUSD` and `takeQuote`, which push a transaction of their own. A balance is a fold
-- over all postings, in today's units.
--
--   Prelude           numbers, lists, texts and maps, as JavaScript has them
--   Exec              methods that may throw: state passing with a result, their invariants (Keeps),
--                     methods that are all or nothing (Atomic), and how the others end (Ends)
--   Model             api/models.ts, and what demo/lending.ts, demo/lotto.ts and demo/commerce.ts
--                     store: the data types
--   Sha256            api/sha256.ts: the digest, and its text form (`digestNickle`)
--   Ledger/State      the fields of `DemoLedger`, balances, the clock
--   Ledger/Delivery, Ledger/Append    `append`: the checks, the delivery record, the push, the notes
--   Ledger/Guards     `requireNana`, `requireActive`, `requireAmount`, `requireUserAccount`
--   Ledger/Transfers, Ledger/Nickles, Ledger/Exchange, Ledger/Refunds, Ledger/Market,
--   Ledger/Offers, Ledger/Members, Ledger/Deliveries    the methods
--   Ledger/Loans, Ledger/Loans/Interest, Ledger/Repayments, Ledger/LoanTicks    demo/lending.ts
--   Ledger/Commerce, Ledger/Art    demo/commerce.ts
--   Ledger/Lottos     demo/lotto.ts: the sale of tickets; Lottos/Payouts the settlement,
--                     Lottos/Scaled the reform, and Lottos/Fair, Lottos/Pools and Lottos/Balance
--                     what is proved of it
--   Ledger/Conversion, Ledger/Reform    `reform` of demo/ledger.ts and of the files beside it;
--                     Reform/Balances and Reform/Exact what it does to balances
--   Ledger/Requests   the requests that change the ledger, and runs of them
--   Ledger/Book, Ledger/Balances, Ledger/Core, Ledger/Outcome    what one `append` does
--   Ledger/Preserved  one proof for every method that an invariant of the money is kept
--   Ledger/Views, Ledger/Pages    the views: `status`, `history`, `ledgerPage`, `allListings` and
--                     more
--   Ledger/Balanced, Ledger/Solvent, Ledger/History, Ledger/Moves, Ledger/Sold, Ledger/Steps,
--   Ledger/Quotes, Ledger/LoanExact, Ledger/Paid, Ledger/Settled, Ledger/Shown, Ledger/Readers,
--   Ledger/Seen, Ledger/Catalog, Ledger/Vouchers    the theorems
--   Money             api/money.ts: `parseMoney`, `moneyText`; Money/Service is `class Money`, and
--                     Money/Digits, Money/Reads, Money/Fractions, Money/RoundTrip lead to the
--                     round trip
--   Accounts          api/accounts.ts; Accounts/Held what is true of the accounts held
--   MarketMaker       nana/market-maker-plan.ts: inputs and steps; MarketMaker/Steps and
--                     MarketMaker/Plan the sections of `planMarket`, MarketMaker/Prices and
--                     MarketMaker/Safe what a plan without errors promises
--   Economy           Economy/CentralBank is economy/central-bank.ts, and Economy/Books what its
--                     flows add up to; Economy/Series is economy/series.ts, and Economy/Anchored
--                     where its series end; Economy/Standing is people/public-report.ts
--   modules named Tests    concrete runs
--
-- How the code is read. An amount of money is an integer and a time a natural number of seconds;
-- the safe-integer tests are written out where the source has them. Names of accounts,
-- transactions, updates and references are data types with a constructor for each form of text the
-- source builds. A text is a list of code points, lower case is that of ASCII. An error keeps its
-- status and code and leaves out its message. A `Map` is an association list in insertion order. A
-- write through a reference is a write to the first element with the same id. Random bytes and the
-- wall clock are arguments. A method returns the member as stored and not as `view` shows it. A
-- reform that lowers the power of ten is modelled up to its preview, and its writes are marked as
-- not modelled (`outside`): `currentPostings` then divides in floating point. A raised power is a
-- product of integers that the reform has bounded, which is exact. The digest throws at messages of
-- 2 ^ 31 - 72 bytes and more, where its signed shifts wrap; a voucher's token is never that long.
--
-- There is no fuel: every loop runs over a list or a number that it makes smaller. The loop that
-- rejects random numbers runs over the list of the numbers to come; where they end before it does,
-- the model says so with a mark of its own (`unfinished`). What `Intl` prints for a locale, the
-- calendar, the storage of the tab and JSON are the platform's, and arguments.
--
-- A run is of requests, between which the wall clock moves on and the live clock may start; the regular check of loans and lottos (`tickLoans`), lottos and reforms are
-- modelled and are no part of a run; calls of the lotto have runs of their own. A loan's amounts are
-- natural numbers: its terms have been checked to be positive.
--
-- Not modelled: the register of bots and their keys; the names in the views; the other reports on the economy; the pages, charts and
-- services of the web client, its HTTP transport and the plotting of series, which are input and
-- output; and the servers in other languages, which are programs of their own.
pub mod Prelude
pub mod Exec
pub mod Money
pub mod Model
pub mod Sha256
pub mod Ledger
pub mod Economy
pub mod Accounts
pub mod MarketMaker
