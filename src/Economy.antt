-- ===== src/Economy.antt =====
-- The reports on the household's economy (nanacoin_ui/src/app/economy): pure functions of the
-- transactions that the client has fetched.
pub mod CentralBank
pub mod Books
pub mod Series
pub mod Anchored
pub mod Standing
mod Tests
