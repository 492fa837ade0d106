-- ===== src/Sha256/Tests.antt =====
-- Known answers of nanacoin_ui/src/app/api/sha256.spec.ts.
use nanacoin.Prelude.{◌≡◌, refl, codes, length, ◌+◌, ◌%◌, ◌≤◌, ◌<◌, some, none, List, ℕ, arith}
use mathlib.Core.Option
use nanacoin.Sha256.{sha256, hex, pad, padded_length}
use nanacoin.Sha256.Shape.{length-pad}

sha256_abc :
    Option.map hex (sha256 (codes "abc"))
    ≡ some (codes "ba7816bf8f01cfea414140de5dae2223b00361a396177a9cb410ff61f20015ad")
unfolding sha256 hex
sha256_abc = refl

sha256_empty :
    Option.map hex (sha256 (codes ""))
    ≡ some (codes "e3b0c44298fc1c149afbf4c8996fb92427ae41e4649b934ca495991b7852b855")
unfolding sha256 hex
sha256_empty = refl

-- One byte more than can be padded: the length is negative.
too_long : padded_length 0x7fffffb8 ≡ none
unfolding padded_length
too_long = refl

length-pad_example :
    (message : List ℕ) × (pad (codes "abc") ≡ some message)
    × (length message % 64 ≡ 0)
    × (length (codes "abc") + 9 ≤ length message)
    × (length message < length (codes "abc") + 73)
length-pad_example = length-pad (codes "abc") (omega arith)
