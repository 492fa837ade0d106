-- ===== src/Money/Service.antt =====
-- `class Money` of nanacoin_ui/src/app/api/money.ts: the currency that the client was told of, and
-- whether it changed size while the page was open.
use nanacoin.Prelude.{
  ℕ, ◌≤◌, Bool, true, false, ◌≡◌, ◌≢◌, refl, arith, ◌||◌, ◌&&◌, not, ltb, ◌==◌, if◌then◌else◌,
  Option, none, some, List, [], ◌∷◌, Text, same_text, same_text_iff, ℤ, pos, or_else,
}
use nanacoin.Money.{Locale, Reading, parse_money, money_text}

-- `source` is the server that the last update came from.
pub record Money : Type 0 where
  pub decimals : ℕ
  pub epoch : ℕ
  pub changed : Bool
  pub source : Text

abbrev pub new_money : Money
new_money = record { decimals = 4; epoch = 0; changed = false; source = [] }

-- `update(decimals, epoch, source)`; `none` where it throws. An epoch that is no safe integer is
-- no number here.
unfoldable pub update : ℕ → ℕ → Text → Money → Option Money
update decimals epoch source money =
    let same = same_text money.source source in
    let told = money.changed || (same && not (epoch == money.epoch)) in
    let changed = if same then told else false in
    if ltb 8 decimals
    then none
    else some record { decimals = decimals; epoch = epoch; changed = changed; source = source }

-- The replies of one server, each with the decimals and the epoch that it states; one that throws
-- leaves the object as it is.
unfoldable pub follow : Text → List (ℕ × ℕ) → Money → Money
follow source [] money = money
follow source ((decimals, epoch) ∷ replies) money =
    follow source replies (or_else (update decimals epoch source money) money)

pub data Input : Type 0 where
  read : Reading → Input
  changed_size : Input

-- `parse(value)`
unfoldable pub parse : Locale → Text → Money → Input
parse locale value money =
    if money.changed
    then Input.changed_size
    else Input.read (parse_money locale money.decimals value)

-- `format(value)` and `input(value)`
unfoldable pub format : Locale → Option ℤ → Money → Text
format locale value money = money_text locale (or_else value (pos 0)) money.decimals true

unfoldable pub input : Locale → ℤ → Money → Text
input locale value money = money_text locale value money.decimals false

-- The decimals are at most eight, as `parse_money` asks.
pub record Told (source : Text) (money : Money) : Type 0 where
  pub from : money.source ≡ source
  pub told : money.changed ≡ true

same_text_refl : (s : Text) → same_text s s ≡ true
same_text_refl s = (same_text_iff s s).1 refl

kept :
    (b : Bool) (source : Text) (money next : Money)
    → Told source money
    → Told source next
    → Told source (or_else (if b then none else some next) money)
kept true source money next h k = h
kept false source money next h k = k

update-Told :
    (source : Text) (decimals epoch : ℕ) (money : Money)
    → Told source money
    → Told source (or_else (update decimals epoch source money) money)
unfolding update
update-Told source decimals epoch money h =
    kept (ltb 8 decimals) source money _ h
      record { from = refl; told = rw (h.told, h.from, same_text_refl source) refl }

follow-Told :
    (source : Text) (replies : List (ℕ × ℕ)) (money : Money)
    → Told source money
    → Told source (follow source replies money)
unfolding follow
follow-Told source [] money h = h
follow-Told source ((d, e) ∷ replies) money h =
    follow-Told source replies _ (update-Told source d e money h)

update-tells :
    (source : Text) (decimals epoch : ℕ) (money : Money)
    → money.source ≡ source
    → epoch ≢ money.epoch
    → decimals ≤ 8
    → Told source (or_else (update decimals epoch source money) money)
unfolding update
update-tells source decimals epoch money same differs h =
    rw (same, same_text_refl source) record { from = ground arith; told = ground arith }

-- Once a server that the client already follows has stated another epoch, with at most eight
-- decimals, whatever is typed is refused, after any further replies of that server.
pub parse-after_change :
    (locale : Locale) (typed source : Text) (decimals epoch : ℕ) (replies : List (ℕ × ℕ))
    (money : Money)
    → money.source ≡ source
    → epoch ≢ money.epoch
    → decimals ≤ 8
    → parse locale typed (follow source ((decimals, epoch) ∷ replies) money) ≡ Input.changed_size
unfolding parse follow
parse-after_change locale typed source decimals epoch replies money same differs h =
    let t =
      follow-Told source replies _ (update-tells source decimals epoch money same differs h) in
    rw t.told refl
