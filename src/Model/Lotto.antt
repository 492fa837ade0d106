-- ===== src/Model/Lotto.antt =====
-- A lotto as nanacoin_ui/src/app/demo/lotto.ts keeps it.
use nanacoin.Prelude.{ℕ, List, Option, Text}
use nanacoin.Model.Accounts.{AccountId}

pub data LottoKind : Type 0 where
  simple delayed savings other : LottoKind

pub data LottoStatus : Type 0 where
  open_lotto waiting settled : LottoStatus

pub record LottoTerms : Type 0 where
  pub kind : LottoKind
  pub title : Text
  pub ticket_price : ℕ
  pub closes_at : ℕ
  pub rate_bps : ℕ

-- `interface Draw`: the view, and who holds how many tickets.
pub record Draw : Type 0 where
  pub id : ℕ
  pub terms : LottoTerms
  pub house : AccountId
  pub pool : ℕ
  pub interest : ℕ
  pub tickets : ℕ
  pub winner : Option AccountId
  pub winner_name : Option Text
  pub due_at : ℕ
  pub status : LottoStatus
  pub entries : List (AccountId × ℕ)
