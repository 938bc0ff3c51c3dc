-- ===== src/Search/Hamming/Count/Sums.antt =====
-- `count_one` counts the ones of a word: its stages, and the sums of the counts of its bytes.
use mlsimgsearch.Prelude.{
  ℕ, zero, suc, ◌+◌, ◌-◌, ◌*◌, ◌/◌, ◌%◌, ◌^◌, ◌≤◌, ◌<◌, bit_and, ◌≡◌, refl, sym, ap, ◌∙◌, arith,
}
use mlsimgsearch.Prelude.Words.{bit_and_byte, bit_and-zero, bit_and-le, and_cong}
use mlsimgsearch.Search.Hamming.{word_mod, count_one}
use mlsimgsearch.Search.Hamming.Count.{
  ones, rep, pairs, pairs_byte, nibbles, nibbles_byte, bytes, masks, byte_facts, split_byte,
  pairs_step, nibbles_step, bytes_step,
}

-- The counts of the lowest `n` bytes, each in its byte.
counts : ℕ → ℕ → ℕ
counts zero x = 0
counts (suc n) x = ones 8 (x % 256) + 256 * counts n (x / 256)

fields : ℕ → ℕ → ℕ
fields n x = nibbles n (pairs n x)

fields_step :
    (n x : ℕ) → fields (suc n) x ≡ nibbles_byte (pairs_byte (x % 256)) + 256 * fields n (x / 256)
unfolding fields
fields_step n x =
    ap (λ t. nibbles (suc n) (pairs (suc n) t)) (split_byte x)
    ∙ ap (nibbles (suc n)) (pairs_step n (x % 256) (x / 256) (omega arith))
    ∙ nibbles_step n (pairs_byte (x % 256)) (pairs n (x / 256)) (omega arith)

fields-le : (n x : ℕ) → fields n x ≤ rep 0x44 n
fields-le zero x =
    unfold fields nibbles in omega (arith, bit_and-zero (pairs 0 x), bit_and-zero (pairs 0 x / 4))
fields-le (suc n) x =
    omega (arith, fields_step n x, fields-le n (x / 256), byte_facts (x % 256) (omega arith))

fields_low : (n x : ℕ) → fields n x % 16 ≤ 4
fields_low zero x = omega (arith, fields-le 0 x)
fields_low (suc n) x = omega (arith, fields_step n x, byte_facts (x % 256) (omega arith))

bytes-fields : (n x : ℕ) → bytes n (fields n x) ≡ counts n x
unfolding counts
bytes-fields zero x = unfold bytes in bit_and-zero _
bytes-fields (suc n) x =
    let b = byte_facts (x % 256) (omega arith) in
    ap (bytes (suc n)) (fields_step n x)
    ∙ bytes_step n (nibbles_byte (pairs_byte (x % 256))) (fields n (x / 256)) b.0 b.1
        (fields_low n (x / 256))
    ∙ omega (arith, b.2, bytes-fields n (x / 256))

ones-le : (n x : ℕ) → ones n x ≤ n
unfolding ones
ones-le zero x = omega arith
ones-le (suc n) x = omega (arith, ones-le n (x / 2))

ones_zero : (x : ℕ) → ones 0 x ≡ 0
unfolding ones
ones_zero x = refl

ones_byte :
    (n x : ℕ)
    → ones (suc (suc (suc (suc (suc (suc (suc (suc n)))))))) x ≡ ones 8 (x % 256) + ones n (x / 256)
unfolding ones
ones_byte n x =
    omega
      (arith, ap (ones n) (let e : x / 2 / 2 / 2 / 2 / 2 / 2 / 2 / 2 ≡ x / 256 = omega arith in e))

-- The last stages add the eight bytes up in the lowest one.
fold_bytes : ℕ → ℕ
fold_bytes bytes =
    let halves = (bytes + bytes / 2 ^ 8) % word_mod in
    let quarters = (halves + halves / 2 ^ 16) % word_mod in
    let total = (quarters + quarters / 2 ^ 32) % word_mod in bit_and total 0x7f

low_seven : (t : ℕ) → bit_and t 0x7f ≡ t % 128
low_seven t = omega (
  arith,
  and_cong t (t % 256 + 256 * (t / 256)) 0x7f (0x7f + 256 * 0) (omega arith) refl,
  bit_and_byte (t % 256) (t / 256) 0x7f 0 (omega arith) (omega arith),
  bit_and-zero (t / 256),
  (masks (t % 256) (omega arith)).3,
)

-- A word by its bytes, lowest first.
abbrev word : ℕ → ℕ → ℕ → ℕ → ℕ → ℕ → ℕ → ℕ → ℕ
word p0 p1 p2 p3 p4 p5 p6 p7 =
    p0
    + 256
      * (p1 + 256 * (p2 + 256 * (p3 + 256 * (p4 + 256 * (p5 + 256 * (p6 + 256 * (p7 + 256 * 0)))))))

fold_halves :
    (p0 p1 p2 p3 p4 p5 p6 p7 : ℕ)
    → p0 ≤ 8
    → p1 ≤ 8
    → p2 ≤ 8
    → p3 ≤ 8
    → p4 ≤ 8
    → p5 ≤ 8
    → p6 ≤ 8
    → p7 ≤ 8
    → let v = word p0 p1 p2 p3 p4 p5 p6 p7 in
      (v + v / 2 ^ 8) % word_mod
      ≡ word (p0 + p1) (p1 + p2) (p2 + p3) (p3 + p4) (p4 + p5) (p5 + p6) (p6 + p7) p7
fold_halves p0 p1 p2 p3 p4 p5 p6 p7 h0 h1 h2 h3 h4 h5 h6 h7 = omega arith

fold_quarters :
    (p0 p1 p2 p3 p4 p5 p6 p7 : ℕ)
    → p0 ≤ 16
    → p1 ≤ 16
    → p2 ≤ 16
    → p3 ≤ 16
    → p4 ≤ 16
    → p5 ≤ 16
    → p6 ≤ 16
    → p7 ≤ 16
    → let v = word p0 p1 p2 p3 p4 p5 p6 p7 in
      (v + v / 2 ^ 16) % word_mod
      ≡ word (p0 + p2) (p1 + p3) (p2 + p4) (p3 + p5) (p4 + p6) (p5 + p7) p6 p7
fold_quarters p0 p1 p2 p3 p4 p5 p6 p7 h0 h1 h2 h3 h4 h5 h6 h7 = omega arith

fold_total :
    (p0 p1 p2 p3 p4 p5 p6 p7 : ℕ)
    → p0 ≤ 32
    → p1 ≤ 32
    → p2 ≤ 32
    → p3 ≤ 32
    → p4 ≤ 32
    → p5 ≤ 32
    → p6 ≤ 32
    → p7 ≤ 32
    → let v = word p0 p1 p2 p3 p4 p5 p6 p7 in (v + v / 2 ^ 32) % word_mod % 128 ≡ p0 + p4
fold_total p0 p1 p2 p3 p4 p5 p6 p7 h0 h1 h2 h3 h4 h5 h6 h7 = omega arith

fold_bytes_lem :
    (p0 p1 p2 p3 p4 p5 p6 p7 : ℕ)
    → p0 ≤ 8
    → p1 ≤ 8
    → p2 ≤ 8
    → p3 ≤ 8
    → p4 ≤ 8
    → p5 ≤ 8
    → p6 ≤ 8
    → p7 ≤ 8
    → fold_bytes (word p0 p1 p2 p3 p4 p5 p6 p7)
      ≡ p0 + (p1 + (p2 + (p3 + (p4 + (p5 + (p6 + (p7 + 0)))))))
unfolding fold_bytes
fold_bytes_lem p0 p1 p2 p3 p4 p5 p6 p7 h0 h1 h2 h3 h4 h5 h6 h7 =
    let e1 = fold_halves p0 p1 p2 p3 p4 p5 p6 p7 h0 h1 h2 h3 h4 h5 h6 h7 in
    let e2 =
      fold_quarters (p0 + p1) (p1 + p2) (p2 + p3) (p3 + p4) (p4 + p5) (p5 + p6) (p6 + p7) p7
        (omega arith) (omega arith) (omega arith) (omega arith) (omega arith) (omega arith)
        (omega arith) (omega arith) in
    let e3 =
      fold_total (p0 + p1 + (p2 + p3)) (p1 + p2 + (p3 + p4)) (p2 + p3 + (p4 + p5))
        (p3 + p4 + (p5 + p6)) (p4 + p5 + (p6 + p7)) (p5 + p6 + p7) (p6 + p7) p7 (omega arith)
        (omega arith) (omega arith) (omega arith) (omega arith) (omega arith) (omega arith)
        (omega arith) in
    rw (e1, e2, low_seven) (e3 ∙ omega arith)

byte_at : ℕ → ℕ → ℕ
byte_at zero x = ones 8 (x % 256)
byte_at (suc k) x = byte_at k (x / 256)

byte_at-le : (k x : ℕ) → byte_at k x ≤ 8
unfolding byte_at
byte_at-le zero x = ones-le 8 (x % 256)
byte_at-le (suc k) x = byte_at-le k (x / 256)

sum_bytes : ℕ → ℕ → ℕ
sum_bytes zero x = 0
sum_bytes (suc k) x = ones 8 (x % 256) + sum_bytes k (x / 256)

ones-sum_bytes : (x : ℕ) → ones 64 x ≡ sum_bytes 8 x
unfolding sum_bytes
ones-sum_bytes x = omega (
  arith,
  ones_byte 56 x,
  ones_byte 48 (x / 256),
  ones_byte 40 (x / 256 / 256),
  ones_byte 32 (x / 256 / 256 / 256),
  ones_byte 24 (x / 256 / 256 / 256 / 256),
  ones_byte 16 (x / 256 / 256 / 256 / 256 / 256),
  ones_byte 8 (x / 256 / 256 / 256 / 256 / 256 / 256),
  ones_byte 0 (x / 256 / 256 / 256 / 256 / 256 / 256 / 256),
  ones_zero (x / 256 / 256 / 256 / 256 / 256 / 256 / 256 / 256),
)

fold-counts : (x : ℕ) → fold_bytes (counts 8 x) ≡ ones 64 x
unfolding counts sum_bytes byte_at
fold-counts x =
    fold_bytes_lem (byte_at 0 x) (byte_at 1 x) (byte_at 2 x) (byte_at 3 x) (byte_at 4 x)
      (byte_at 5 x) (byte_at 6 x) (byte_at 7 x) (byte_at-le 0 x) (byte_at-le 1 x) (byte_at-le 2 x)
      (byte_at-le 3 x) (byte_at-le 4 x) (byte_at-le 5 x) (byte_at-le 6 x) (byte_at-le 7 x)
    ∙ sym (ones-sum_bytes x)

-- The stages of the code are those above, since nothing wraps.
pairs_code :
    (x : ℕ)
    → x < word_mod
    → (x + word_mod - bit_and (x / 2 ^ 1) 0x5555555555555555) % word_mod ≡ pairs 8 x
unfolding pairs
pairs_code x h = omega (arith, bit_and-le (x / 2) (rep 0x55 8))

fields_masked :
    (x : ℕ)
    → bit_and (pairs 8 x) 0x3333333333333333 + bit_and (pairs 8 x / 4) 0x3333333333333333
      ≡ fields 8 x
unfolding fields nibbles
fields_masked x = refl

nibbles_code :
    (x : ℕ)
    → (bit_and (pairs 8 x) 0x3333333333333333 + bit_and (pairs 8 x / 2 ^ 2) 0x3333333333333333)
        % word_mod
      ≡ fields 8 x
nibbles_code x = omega (arith, fields_masked x, fields-le 8 x)

bytes_code :
    (x : ℕ) → bit_and ((fields 8 x + fields 8 x / 2 ^ 4) % word_mod) 0x0f0f0f0f0f0f0f0f ≡ counts 8 x
bytes_code x =
    ap (λ t. bit_and t 0x0f0f0f0f0f0f0f0f)
      (let e : (fields 8 x + fields 8 x / 2 ^ 4) % word_mod ≡ fields 8 x + fields 8 x / 16 =
          omega (arith, fields-le 8 x) in
        e)
    ∙ (unfold bytes in bytes-fields 8 x)

-- `count_one` is the number of ones of a 64-bit word.
pub count_one-ones : (x : ℕ) → x < word_mod → count_one x ≡ ones 64 x
unfolding count_one
count_one-ones x h =
    rw (pairs_code x h, nibbles_code x, bytes_code x) (unfold fold_bytes in fold-counts x)
