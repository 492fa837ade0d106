-- ===== src/Prelude/Words.antt =====
-- Texts as lists of Unicode code points, and what the program asks of them.
use Prim.Native.Nat.{ℕ, zero, suc, ◌+◌, ◌-◌, ◌/◌}
use Prim.Native.Char.{code}
use Prim.Native.String.{String}
use mathlib.Core.Path.{◌≡◌, refl}
use mathlib.Core.Logic.{◌↔◌}
use mathlib.Core.Bool.{Bool, true, false, ◌&&◌, ◌||◌}
use mathlib.Core.List.{List, [], ◌∷◌, map}
use native.Mathlib.Omega.{arith}
use nanacoin.Prelude.Tests.{ltb, leb, ◌==◌, if◌then◌else◌}
use nanacoin.Prelude.Lists.{All, reversed, reversed-reversed, All-reversed, any}

abbrev pub Text : Type 0
Text = List ℕ

abbrev pub codes : String → Text
codes String.[] = []
codes (String.◌∷◌ c s) = code c ∷ codes s

abbrev pub is_empty : Text → Bool
is_empty [] = true
is_empty (c ∷ s) = false

abbrev pub same_text : Text → Text → Bool
same_text [] [] = true
same_text (a ∷ s) (b ∷ t) = a == b && same_text s t
same_text _ _ = false

pub same_text_iff : (s t : Text) → (same_text s t ≡ true) ↔ (s ≡ t)
same_text_iff [] [] = ground arith
same_text_iff [] (b ∷ t) = ground arith
same_text_iff (a ∷ s) [] = ground arith
same_text_iff (a ∷ s) (b ∷ t) = ground (arith, same_text_iff s t)

-- `toLowerCase` on ASCII letters; other code points stay as they are.
abbrev lower_char : ℕ → ℕ
lower_char c = if leb b'A' c && leb c b'Z' then c + 32 else c

unfoldable pub to_lower : Text → Text
to_lower = map lower_char

-- The white space that `trim` removes.
abbrev is_space : ℕ → Bool
is_space c =
    (leb 9 c && leb c 13)
    || c == 32
    || c == 0xa0
    || c == 0x1680
    || (leb 0x2000 c && leb c 0x200a)
    || c == 0x2028
    || c == 0x2029
    || c == 0x202f
    || c == 0x205f
    || c == 0x3000
    || c == 0xfeff

abbrev trim_start : Text → Text
trim_start [] = []
trim_start (c ∷ s) = if is_space c then trim_start s else c ∷ s

unfoldable pub trim : Text → Text
trim s = reversed (trim_start (reversed (trim_start s)))

abbrev pub Solid : ℕ → Type 0
Solid c = is_space c ≡ false

trim_start-Solid : (s : Text) → All Solid s → trim_start s ≡ s
trim_start-Solid [] h = refl
trim_start-Solid (c ∷ s) (h, hs) = ground arith

-- A text without white space is what `trim` leaves of it.
pub trim-Solid : (s : Text) → All Solid s → trim s ≡ s
unfolding trim
trim-Solid s h =
    rw
      (
        trim_start-Solid s h,
        trim_start-Solid (reversed s) (All-reversed Solid s h),
        reversed-reversed s,
      )
      refl

-- `s.length`, in UTF-16 code units
abbrev pub code_units : Text → ℕ
code_units [] = 0
code_units (c ∷ s) = (if ltb c 0x10000 then 1 else 2) + code_units s

-- The first of the two units of a character beyond 0xffff
abbrev high_unit : ℕ → ℕ
high_unit c = if ltb c 0x10000 then c else 0xd800 + (c - 0x10000) / 0x400

-- `s.slice(0, n)`, which may cut a pair of units in two
unfoldable pub take_units : ℕ → Text → Text
take_units zero s = []
take_units (suc n) [] = []
take_units (suc zero) (c ∷ s) = high_unit c ∷ []
take_units (suc (suc n)) (c ∷ s) =
    let alone = take_units (suc n) s in
    let paired = take_units n s in c ∷ (if ltb c 0x10000 then alone else paired)

-- The number of bytes that `TextEncoder` gives one code point.
abbrev char_bytes : ℕ → ℕ
char_bytes c = if ltb c 0x80 then 1 else if ltb c 0x800 then 2 else if ltb c 0x10000 then 3 else 4

unfoldable pub byte_length : Text → ℕ
byte_length [] = 0
byte_length (c ∷ s) = char_bytes c + byte_length s

-- `/[\x00-\x1f\x7f]/.test(s)`
unfoldable pub has_control : Text → Bool
has_control = any (λ c. ltb c 32 || c == 127)
