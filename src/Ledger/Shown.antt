-- ===== src/Ledger/Shown.antt =====
-- What the views of the ledger give away, and in which order.
use nanacoin.Prelude.{◌≡◌, true}
use nanacoin.Model.{AccountId, Transaction}
use nanacoin.Ledger.State.{Ledger}
use nanacoin.Ledger.Views.{Cursor, is_shown}

-- A transaction that a page of an account's history may show.
abbrev pub IsShown : AccountId → Cursor → Transaction → Type 0
IsShown a c t = is_shown a c t ≡ true
