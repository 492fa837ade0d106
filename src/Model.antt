-- ===== src/Model.antt =====
-- The wire types (nanacoin_ui/src/app/api/models.ts) that the demo ledger keeps.
mod Accounts
mod People
mod Transactions
mod Market
mod Lending
mod Lotto
mod Commerce
pub use Accounts.*
pub use People.*
pub use Transactions.*
pub use Market.*
pub use Lending.*
pub use Lotto.*
pub use Commerce.*
