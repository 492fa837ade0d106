-- ===== src/Ledger/Preserved.antt =====
-- What a method has to do to keep an invariant of the money: a predicate on the book, the epoch's
-- exponents and the epoch. A section over such a predicate proves once, for every method, that it
-- is kept, if the two ways of adding a transaction keep it.
mod Coins
mod Sales
mod Credit
mod Gifts
mod Runs
pub use Runs.*
