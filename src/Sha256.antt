-- ===== src/Sha256.antt =====
-- SHA-256 in plain 32-bit arithmetic (nanacoin_ui/src/app/api/sha256.ts). Bytes and words are
-- natural numbers; a word stays below 2 ^ 32 by the `% word` where the source writes `>>> 0`.
-- The source's signed intermediate results differ from these by multiples of 2 ^ 32 only, but for
-- the length of the padding, whose shifts are signed here too.
-- `digestSha256` prefers the platform's own digest, which is not modelled.
pub mod Shape
mod Tests
use mathlib.Core.Option
use Prim.Native.Nat.{bit_and, bit_or, bit_xor}
use nanacoin.Prelude.{
  ℕ, zero, suc, ◌+◌, ◌-◌, ◌*◌, ◌/◌, ◌%◌, ◌^◌, List, [], ◌∷◌, ◌++◌, length, get_or, take, drop,
  codes, Text, Option, none, some, if◌then◌else◌, ltb, leb, ◌&&◌,
}

abbrev pub word : ℕ
word = 0x100000000

abbrev round_constants : List ℕ
round_constants =
    0x428a2f98 ∷ 0x71374491 ∷ 0xb5c0fbcf ∷ 0xe9b5dba5 ∷ 0x3956c25b ∷ 0x59f111f1 ∷ 0x923f82a4
    ∷ 0xab1c5ed5 ∷ 0xd807aa98 ∷ 0x12835b01 ∷ 0x243185be ∷ 0x550c7dc3 ∷ 0x72be5d74 ∷ 0x80deb1fe
    ∷ 0x9bdc06a7 ∷ 0xc19bf174 ∷ 0xe49b69c1 ∷ 0xefbe4786 ∷ 0x0fc19dc6 ∷ 0x240ca1cc ∷ 0x2de92c6f
    ∷ 0x4a7484aa ∷ 0x5cb0a9dc ∷ 0x76f988da ∷ 0x983e5152 ∷ 0xa831c66d ∷ 0xb00327c8 ∷ 0xbf597fc7
    ∷ 0xc6e00bf3 ∷ 0xd5a79147 ∷ 0x06ca6351 ∷ 0x14292967 ∷ 0x27b70a85 ∷ 0x2e1b2138 ∷ 0x4d2c6dfc
    ∷ 0x53380d13 ∷ 0x650a7354 ∷ 0x766a0abb ∷ 0x81c2c92e ∷ 0x92722c85 ∷ 0xa2bfe8a1 ∷ 0xa81a664b
    ∷ 0xc24b8b70 ∷ 0xc76c51a3 ∷ 0xd192e819 ∷ 0xd6990624 ∷ 0xf40e3585 ∷ 0x106aa070 ∷ 0x19a4c116
    ∷ 0x1e376c08 ∷ 0x2748774c ∷ 0x34b0bcb5 ∷ 0x391c0cb3 ∷ 0x4ed8aa4a ∷ 0x5b9cca4f ∷ 0x682e6ff3
    ∷ 0x748f82ee ∷ 0x78a5636f ∷ 0x84c87814 ∷ 0x8cc70208 ∷ 0x90befffa ∷ 0xa4506ceb ∷ 0xbef9a3f7
    ∷ 0xc67178f2 ∷ []

abbrev pub initial_hash : List ℕ
initial_hash =
    0x6a09e667 ∷ 0xbb67ae85 ∷ 0x3c6ef372 ∷ 0xa54ff53a ∷ 0x510e527f ∷ 0x9b05688c ∷ 0x1f83d9ab
    ∷ 0x5be0cd19 ∷ []

-- `x >>> n` and `(x >>> n) | (x << (32 - n))`
abbrev shift_right : ℕ → ℕ → ℕ
shift_right x n = x / 2 ^ n

rotr : ℕ → ℕ → ℕ
rotr x n = bit_or (shift_right x n) ((x * 2 ^ (32 - n)) % word)

-- A number as 32 bits, most significant byte first (`setUint32(…, false)`).
pub bytes_of_word : ℕ → List ℕ
bytes_of_word x = (x / 0x1000000 % 256) ∷ (x / 0x10000 % 256) ∷ (x / 0x100 % 256) ∷ (x % 256) ∷ []

word_of_bytes : List ℕ → ℕ
word_of_bytes (a ∷ b ∷ c ∷ d ∷ _) = a * 0x1000000 + b * 0x10000 + c * 0x100 + d
word_of_bytes _ = 0

pub zeros : ℕ → List ℕ
zeros zero = []
zeros (suc n) = 0 ∷ zeros n

-- `x >> 6` on the signed 32 bits of a word
abbrev pub signed_shift : ℕ → ℕ
signed_shift x = if ltb x 0x80000000 then x / 64 else x / 64 + (word - 0x4000000)

-- `(((n + 8) >> 6) + 1) << 6`, as the word of its signed 32 bits
abbrev pub padded_word : ℕ → ℕ
padded_word n = (signed_shift ((n + 8) % word) + 1) * 64 % word

-- The length of the padded message. `new Uint8Array` throws where the signed number is negative, and
-- `set` where the message does not fit.
pub padded_length : ℕ → Option ℕ
padded_length n =
    if ltb (padded_word n) 0x80000000 && leb n (padded_word n) then some (padded_word n) else none

-- The message, a 1 bit, zeros, and the length in bits in the last eight bytes.
pub pad_to : List ℕ → ℕ → List ℕ
unfolding zeros bytes_of_word
pad_to input padded =
    let n = length input in
    input
    ++ (0x80 ∷ [])
    ++ zeros (padded - n - 9)
    ++ bytes_of_word (n * 8 / word)
    ++ bytes_of_word (n * 8 % word)

pub pad : List ℕ → Option (List ℕ)
unfolding padded_length pad_to
pad input = Option.map (pad_to input) (padded_length (length input))

-- The first 16 words of the schedule, read from a block.
read_words : ℕ → List ℕ → List ℕ
unfolding word_of_bytes
read_words zero block = []
read_words (suc n) block = word_of_bytes block ∷ read_words n (drop 4 block)

-- `for (let i = 16; i < 64; i++) w[i] = …`, on the rounds left.
extend : ℕ → List ℕ → List ℕ
unfolding rotr
extend zero w = w
extend (suc n) w =
    let i = length w in
    let w15 = get_or w (i - 15) 0 in
    let w2 = get_or w (i - 2) 0 in
    let s0 = bit_xor (bit_xor (rotr w15 7) (rotr w15 18)) (shift_right w15 3) in
    let s1 = bit_xor (bit_xor (rotr w2 17) (rotr w2 19)) (shift_right w2 10) in
    extend n (w ++ ((get_or w (i - 16) 0 + s0 + get_or w (i - 7) 0 + s1) % word) ∷ [])

pub record Registers : Type 0 where
  a : ℕ
  b : ℕ
  c : ℕ
  d : ℕ
  e : ℕ
  f : ℕ
  g : ℕ
  h : ℕ

-- One of the 64 rounds, with its constant and its word of the schedule.
round : ℕ → ℕ → Registers → Registers
unfolding rotr
round k w r =
    let s1 = bit_xor (bit_xor (rotr r.e 6) (rotr r.e 11)) (rotr r.e 25) in
    let ch = bit_xor (bit_and r.e r.f) (bit_and (word - 1 - r.e) r.g) in
    let temp1 = (r.h + s1 + ch + k + w) % word in
    let s0 = bit_xor (bit_xor (rotr r.a 2) (rotr r.a 13)) (rotr r.a 22) in
    let maj = bit_xor (bit_xor (bit_and r.a r.b) (bit_and r.a r.c)) (bit_and r.b r.c) in
    let temp2 = (s0 + maj) % word in
    record {
      a = (temp1 + temp2) % word;
      b = r.a;
      c = r.b;
      d = r.c;
      e = (r.d + temp1) % word;
      f = r.e;
      g = r.f;
      h = r.g;
    }

rounds : List ℕ → List ℕ → Registers → Registers
unfolding round
rounds (k ∷ ks) (w ∷ ws) r = rounds ks ws (round k w r)
rounds _ _ r = r

registers : List ℕ → Registers
registers hash = record {
  a = get_or hash 0 0;
  b = get_or hash 1 0;
  c = get_or hash 2 0;
  d = get_or hash 3 0;
  e = get_or hash 4 0;
  f = get_or hash 5 0;
  g = get_or hash 6 0;
  h = get_or hash 7 0;
}

-- One block of 64 bytes: the schedule, the rounds, and the addition to the hash.
pub compress : List ℕ → List ℕ → List ℕ
unfolding read_words extend rounds registers
compress hash block =
    let r = rounds round_constants (extend 48 (read_words 16 block)) (registers hash) in
    ((get_or hash 0 0 + r.a) % word)
    ∷ ((get_or hash 1 0 + r.b) % word)
    ∷ ((get_or hash 2 0 + r.c) % word)
    ∷ ((get_or hash 3 0 + r.d) % word)
    ∷ ((get_or hash 4 0 + r.e) % word)
    ∷ ((get_or hash 5 0 + r.f) % word)
    ∷ ((get_or hash 6 0 + r.g) % word)
    ∷ ((get_or hash 7 0 + r.h) % word)
    ∷ []

-- The loop over the blocks, on the number of blocks left.
pub blocks : ℕ → List ℕ → List ℕ → List ℕ
unfolding compress
blocks zero message hash = hash
blocks (suc n) message hash = blocks n (drop 64 message) (compress hash (take 64 message))

pub output : List ℕ → List ℕ
unfolding bytes_of_word
output [] = []
output (x ∷ xs) = bytes_of_word x ++ output xs

pub digest_of : List ℕ → List ℕ
unfolding blocks output
digest_of message = output (blocks (length message / 64) message initial_hash)

-- No digest where the padding throws
unfoldable pub sha256 : List ℕ → Option (List ℕ)
unfolding pad digest_of
sha256 input = Option.map digest_of (pad input)

abbrev hex_digit : ℕ → ℕ
hex_digit d = get_or (codes "0123456789abcdef") d 0

-- `Array.from(bytes, b => b.toString(16).padStart(2, '0')).join('')`
unfoldable pub hex : List ℕ → Text
hex [] = []
hex (b ∷ bs) = hex_digit (b / 16) ∷ hex_digit (b % 16) ∷ hex bs
