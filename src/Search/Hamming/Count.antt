-- ===== src/Search/Hamming/Count.antt =====
-- The stages of `count_one` on the bytes of a word.
pub mod Sums
use mlsimgsearch.Prelude.{
  leb, ◌==◌, ℕ, zero, suc, ◌+◌, ◌-◌, ◌*◌, ◌/◌, ◌%◌, ◌≤◌, ◌<◌, bit_and, ◌≡◌, refl, true, ◌&&◌, arith,
}
use mlsimgsearch.Prelude.Words.{
  bit_and_byte, bit_and-zero, bit_and-le, and_cong, all_below, all_below_sound,
}
use mlsimgsearch.Search.Hamming.{word_mod, count_one}

-- How many of the `n` lowest binary digits are ones.
unfoldable pub ones : ℕ → ℕ → ℕ
ones zero x = 0
ones (suc n) x = x % 2 + ones n (x / 2)

-- The byte `c`, `n` times over.
abbrev pub rep : ℕ → ℕ → ℕ
rep c zero = 0
rep c (suc n) = c + 256 * rep c n

-- One stage of the count on `n` bytes, and on one.
pub pairs : ℕ → ℕ → ℕ
pairs n x = x - bit_and (x / 2) (rep 0x55 n)

abbrev pub pairs_byte : ℕ → ℕ
pairs_byte b = b - bit_and (b / 2) 0x55

pub nibbles : ℕ → ℕ → ℕ
nibbles n x = bit_and x (rep 0x33 n) + bit_and (x / 4) (rep 0x33 n)

abbrev pub nibbles_byte : ℕ → ℕ
nibbles_byte b = bit_and b 0x33 + bit_and (b / 4) 0x33

pub bytes : ℕ → ℕ → ℕ
bytes n x = bit_and (x + x / 16) (rep 0x0f n)

-- What the stages do to a byte.
mask_tables :
    all_below 256 (λ c.
      bit_and c 0x55 == bit_and (c % 128) 0x55
      && bit_and c 0x33 == bit_and (c % 64) 0x33
      && bit_and c 0x0f == c % 16
      && bit_and c 0x7f == c % 128)
    ≡ true
unfolding all_below
mask_tables = refl

byte_table :
    all_below 256 (λ b.
      let d = nibbles_byte (pairs_byte b) in
      leb (d % 16) 4 && leb (d / 16) 4 && d % 16 + d / 16 == ones 8 b)
    ≡ true
unfolding all_below ones
byte_table = refl

pub masks :
    (c : ℕ)
    → c < 256
    → (bit_and c 0x55 ≡ bit_and (c % 128) 0x55)
      × (bit_and c 0x33 ≡ bit_and (c % 64) 0x33)
      × (bit_and c 0x0f ≡ c % 16)
      × (bit_and c 0x7f ≡ c % 128)
masks c h = ground (arith, all_below_sound 256 _ c mask_tables h)

pub byte_facts :
    (b : ℕ)
    → b < 256
    → let d = nibbles_byte (pairs_byte b) in
      (d % 16 ≤ 4) × (d / 16 ≤ 4) × (d % 16 + d / 16 ≡ ones 8 b)
byte_facts b h = ground (arith, all_below_sound 256 _ b byte_table h)

pub split_byte : (x : ℕ) → x ≡ x % 256 + 256 * (x / 256)
split_byte x = omega arith

-- Each stage works on the lowest byte and the rest apart.
pub pairs_step :
    (n b y : ℕ) → b < 256 → pairs (suc n) (b + 256 * y) ≡ pairs_byte b + 256 * pairs n y
unfolding pairs
pairs_step n b y h = omega (
  arith,
  and_cong ((b + 256 * y) / 2) (b / 2 + 128 * (y % 2) + 256 * (y / 2)) (rep 0x55 (suc n))
      (0x55 + 256 * rep 0x55 n) (omega arith) refl,
  bit_and_byte (b / 2 + 128 * (y % 2)) (y / 2) 0x55 (rep 0x55 n) (omega arith) (omega arith),
  (masks (b / 2 + 128 * (y % 2)) (omega arith)).0,
  and_cong ((b / 2 + 128 * (y % 2)) % 128) (b / 2) 0x55 0x55 (omega arith) refl,
  bit_and-le (b / 2) 0x55,
  bit_and-le (y / 2) (rep 0x55 n),
)

pub nibbles_step :
    (n b y : ℕ) → b < 256 → nibbles (suc n) (b + 256 * y) ≡ nibbles_byte b + 256 * nibbles n y
unfolding nibbles
nibbles_step n b y h = omega (
  arith,
  bit_and_byte b y 0x33 (rep 0x33 n) (omega arith) (omega arith),
  and_cong ((b + 256 * y) / 4) (b / 4 + 64 * (y % 4) + 256 * (y / 4)) (rep 0x33 (suc n))
      (0x33 + 256 * rep 0x33 n) (omega arith) refl,
  bit_and_byte (b / 4 + 64 * (y % 4)) (y / 4) 0x33 (rep 0x33 n) (omega arith) (omega arith),
  (masks (b / 4 + 64 * (y % 4)) (omega arith)).1,
  and_cong ((b / 4 + 64 * (y % 4)) % 64) (b / 4) 0x33 0x33 (omega arith) refl,
)

pub bytes_step :
    (n d w : ℕ)
    → d % 16 ≤ 4
    → d / 16 ≤ 4
    → w % 16 ≤ 4
    → bytes (suc n) (d + 256 * w) ≡ d % 16 + d / 16 + 256 * bytes n w
unfolding bytes
bytes_step n d w h k l = omega (
  arith,
  and_cong (d + 256 * w + (d + 256 * w) / 16) (d + d / 16 + 16 * (w % 16) + 256 * (w + w / 16))
      (rep 0x0f (suc n)) (0x0f + 256 * rep 0x0f n) (omega arith) refl,
  bit_and_byte (d + d / 16 + 16 * (w % 16)) (w + w / 16) 0x0f (rep 0x0f n) (omega arith)
      (omega arith),
  (masks (d + d / 16 + 16 * (w % 16)) (omega arith)).2,
)
