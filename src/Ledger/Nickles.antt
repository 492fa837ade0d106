-- ===== src/Ledger/Nickles.antt =====
-- Bearer vouchers (`createNickle`, `redeemNickle`). The 32 random bytes are an argument.
use nanacoin.Prelude.{
  ℕ, or_else, [], ◌+◌, Bool, ◌&&◌, ◌||◌, not, if◌then◌else◌, some, is_some, List, ◌++◌, length,
  take, drop, all, ℤ, leb, ◌==◌, Text, codes, same_text,
}
use nanacoin.Prelude.Maps.{lookup, insert, erase}
use nanacoin.Exec.{Exec, Fault, Code, pure, lift, gets, throw_if, modify, or_raise, ◌>>=◌, ◌>>◌}
use nanacoin.Model.{AccountId, User, Actor, Transaction, TransactionKind, Memo, Reference}
use nanacoin.Sha256.{sha256, hex}
use nanacoin.Ledger.State.{Ledger}
use nanacoin.Ledger.Delivery.{no_options}
use nanacoin.Ledger.Append.{append}
use nanacoin.Ledger.Guards.{require_active, require_nana, require_amount}
use nanacoin.Ledger.Transfers.{two_postings}

-- `digestNickle(token)`; no token has the 2 GiB at which a digest throws.
unfoldable pub digest_nickle : Text → Text
unfolding sha256 hex
digest_nickle token = hex (or_else (sha256 token) [])

abbrev pub token_prefix : Text
token_prefix = codes "DEMO-NN-"

abbrev is_hex : ℕ → Bool
is_hex c = (leb b'a' c && leb c b'f') || (leb b'0' c && leb c b'9')

-- `/^DEMO-NN-[a-f0-9]{64}$/.test(token)`
unfoldable pub is_token : Text → Bool
is_token token =
    same_text (take 8 token) token_prefix
    && (length (drop 8 token) == 64 && all is_hex (drop 8 token))

pub record NickleResult : Type 0 where
  pub token : Text
  pub amount : ℤ
  pub serial : ℕ

unfoldable pub create_nickle : User → ℤ → Bool → List ℕ → Exec Ledger NickleResult
unfolding ◌>>=◌ require_active require_amount require_nana digest_nickle
create_nickle actor amount fresh_money random = do
  require_active actor
  require_amount amount
  if fresh_money then require_nana actor else pure tt
  throw_if (λ s. leb 128 (length s.nickles)) (Fault.demo 409 Code.capacity)
  let token = token_prefix ++ hex random
  let digest = digest_nickle token
  throw_if (λ s. is_some (lookup same_text digest s.nickles)) (Fault.demo 409 Code.collision)
  serial ← gets (λ s. s.next_nickle)
  append (if fresh_money then TransactionKind.issue else TransactionKind.transfer)
      (Actor.by_user actor.id) (Memo.create_nickle serial)
      (two_postings (if fresh_money then AccountId.system_issuance else actor.account)
        AccountId.nickle_reserve amount)
      (record no_options { reference = some (Reference.nickle serial) })
  modify (λ s. record s {
    nickles =
        insert same_text digest (record { amount = amount; serial = serial; issuer = actor.id })
          s.nickles;
    next_nickle = s.next_nickle + 1;
  })
  pure (record { token = token; amount = amount; serial = serial })

unfoldable pub redeem_nickle : User → Text → Exec Ledger Transaction
unfolding ◌>>=◌ require_active is_token digest_nickle
redeem_nickle actor token = do
  require_active actor
  throw_if (λ _. not (is_token token)) (Fault.demo 400 Code.invalid_voucher)
  let digest = digest_nickle token
  found ← gets (λ s. lookup same_text digest s.nickles)
  voucher ← lift (or_raise found (Fault.demo 400 Code.invalid_voucher))
  throw_if (λ _. voucher.issuer == actor.id) (Fault.demo 403 Code.self_redemption)
  transaction ←
      append TransactionKind.transfer (Actor.by_user actor.id) (Memo.redeem_nickle voucher.serial)
        (two_postings AccountId.nickle_reserve actor.account voucher.amount)
        (record no_options { reference = some (Reference.nickle voucher.serial) })
  modify (λ s. record s { nickles = erase same_text digest s.nickles })
  pure transaction
