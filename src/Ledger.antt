-- ===== src/Ledger.antt =====
-- The in-memory ledger of the demo (nanacoin_ui/src/app/demo/ledger.ts), method by method.
pub mod State
pub mod Delivery
pub mod Append
pub mod Guards
pub mod Transfers
pub mod Nickles
pub mod Exchange
pub mod Refunds
pub mod Market
pub mod Offers
pub mod Members
pub mod Deliveries
pub mod Book
pub mod Balances
pub mod Requests
pub mod Core
pub mod Preserved
pub mod Balanced
pub mod Solvent
pub mod History
pub mod Moves
pub mod Outcome
pub mod Vouchers
pub mod Sold
mod Tests
mod LoanTests
mod LottoTests
mod VoucherTests
pub mod ReformTests
mod StepTests
mod ShownTests
pub mod Loans
pub mod Repayments
pub mod LoanTicks
pub mod LoanExact
pub mod Paid
pub mod Settled
pub mod Lottos
pub mod Conversion
pub mod Reform
pub mod Commerce
pub mod Art
pub mod Steps
pub mod Quotes
pub mod Views
pub mod Shown
pub mod Readers
pub mod Seen
pub mod Catalog
pub mod Pages
