-- ===== src/Sha256/Shape.antt =====
-- The shape of the padded message (nanacoin_ui/src/app/api/sha256.ts).
use nanacoin.Prelude.{
  ℕ, zero, suc, ◌+◌, ◌-◌, ◌*◌, ◌/◌, ◌%◌, ◌<◌, ◌≤◌, ◌≡◌, refl, some, List, [], ◌∷◌, ◌++◌, length,
  length-append, arith, ap, ◌∙◌,
}
use mathlib.Core.Option
use nanacoin.Sha256.{word, bytes_of_word, zeros, padded_word, padded_length, pad_to, pad}

length-zeros : (n : ℕ) → length (zeros n) ≡ n
unfolding zeros
length-zeros zero = refl
length-zeros (suc n) = omega (arith, length-zeros n)

length-bytes_of_word : (x : ℕ) → length (bytes_of_word x) ≡ 4
unfolding bytes_of_word
length-bytes_of_word x = refl

-- The longest message that can be padded has 2 ^ 31 - 73 bytes.
abbrev pub padding_limit : ℕ
padding_limit = 0x80000000 - 72

padded_word-short : (n : ℕ) → n < padding_limit → padded_word n ≡ ((n + 8) / 64 + 1) * 64
padded_word-short n h = ground arith

padded_length-short : (n : ℕ) → n < padding_limit → padded_length n ≡ some (((n + 8) / 64 + 1) * 64)
unfolding padded_length
padded_length-short n h = rw (padded_word-short n h) (ground arith)

length-parts :
    (a b c d : List ℕ)
    → length (a ++ (0x80 ∷ []) ++ b ++ c ++ d) ≡ length a + 1 + length b + length c + length d
length-parts a b c d = omega (
  arith,
  length-append (a ++ (0x80 ∷ []) ++ b ++ c) d,
  length-append (a ++ (0x80 ∷ []) ++ b) c,
  length-append (a ++ (0x80 ∷ [])) b,
  length-append a (0x80 ∷ []),
)

parts_sum : (n m z h l : ℕ) → n + 9 ≤ m → z ≡ m - n - 9 → h ≡ 4 → l ≡ 4 → n + 1 + z + h + l ≡ m
parts_sum n m z h l fits ez eh el = omega arith

length-pad_to : (input : List ℕ) (m : ℕ) → length input + 9 ≤ m → length (pad_to input m) ≡ m
unfolding pad_to
length-pad_to input m fits =
    let n = length input in
    length-parts input (zeros (m - n - 9)) (bytes_of_word (n * 8 / word))
      (bytes_of_word (n * 8 % word))
    ∙ parts_sum n m _ _ _ fits (length-zeros (m - n - 9)) (length-bytes_of_word (n * 8 / word))
        (length-bytes_of_word (n * 8 % word))

-- A message of up to 2 ^ 31 - 73 bytes is padded without a throw: the padded message fills whole
-- blocks of 64 bytes, has room for the message and nine bytes more, and wastes less than a block.
pub length-pad :
    (input : List ℕ)
    → length input < padding_limit
    → (message : List ℕ) × (pad input ≡ some message)
      × (length message % 64 ≡ 0)
      × (length input + 9 ≤ length message)
      × (length message < length input + 73)
unfolding pad
length-pad input short =
    let padded = ((length input + 8) / 64 + 1) * 64 in
    (
      pad_to input padded,
      ap (Option.map (pad_to input)) (padded_length-short (length input) short),
      omega (arith, length-pad_to input padded (omega arith)),
      omega (arith, length-pad_to input padded (omega arith)),
      omega (arith, length-pad_to input padded (omega arith)),
    )
