-- ===== src/Search/Hamming.antt =====
-- image_search/bof_core/src/hamming_embedding_descriptor.cc: binary signatures of descriptors and
-- their comparison. An `unsigned long` is a number below 2 ^ 64, a `char` its byte, and an array of
-- words the list of its elements.
pub mod Count
pub mod Text
pub mod Distance
use mlsimgsearch.Prelude.{
  ltb, leb, ◌==◌, if◌then◌else◌, length, take, drop, ℕ, zero, suc, ◌+◌, ◌-◌, ◌*◌, ◌/◌, ◌%◌, ◌^◌,
  bit_and, bit_xor, Bool, true, false, ◌||◌, Option, none, some, List, [], ◌∷◌,
}

abbrev pub word_mod : ℕ
word_mod = 2 ^ 64

-- The population count by parallel sums: fields of two bits, four bits, bytes, then all eight.
unfoldable pub count_one : ℕ → ℕ
count_one x =
    let pairs = (x + word_mod - bit_and (x / 2 ^ 1) 0x5555555555555555) % word_mod in
    let nibbles =
      (bit_and pairs 0x3333333333333333 + bit_and (pairs / 2 ^ 2) 0x3333333333333333) % word_mod in
    let bytes = bit_and ((nibbles + nibbles / 2 ^ 4) % word_mod) 0x0f0f0f0f0f0f0f0f in
    let halves = (bytes + bytes / 2 ^ 8) % word_mod in
    let quarters = (halves + halves / 2 ^ 16) % word_mod in
    let total = (quarters + quarters / 2 ^ 32) % word_mod in bit_and total 0x7f

-- What the coder adds for a bit, by its place in the hexadecimal digit.
unfoldable pub rat : ℕ → ℕ
rat zero = 8
rat (suc zero) = 4
rat (suc (suc zero)) = 2
rat (suc (suc (suc k))) = 1

unfoldable pub hex_char : ℕ → ℕ
hex_char h = if leb 10 h then b'A' + h - 10 else b'0' + h

-- The second loop of `HammingCoder`: bit `j` is the test `median_mat_p[j] > he_v[j]`.
unfoldable pub coder_loop : List Bool → ℕ → ℕ → List ℕ
coder_loop [] h count = []
coder_loop (bit ∷ bits) h count =
    let h' = if bit then h + rat count else h in
    elim (count + 1 == 4) [
      | true ↦ hex_char h' ∷ coder_loop bits 0 0
      | false ↦ coder_loop bits h' (count + 1)
    ]

-- What `HammingCoder` does with floats.
pub record Floats : Type 1 where
  pub F : Type 0
  pub zero_f : F
  pub add_f : F → F → F
  pub mul_f : F → F → F
  pub gt_f : F → F → Bool

module _ (fl : Floats) where
  open fl use {F, zero_f, add_f, mul_f, gt_f}

  -- `sum += p[j] * one_descriptor_p[j]` over the columns.
  unfoldable pub project : List F → List F → F → F
  project [] ds sum = sum
  project (p ∷ ps) [] sum = sum
  project (p ∷ ps) (d ∷ ds) sum = project ps ds (add_f sum (mul_f p d))

  unfoldable pub code_bits : List (List F) → List F → List F → List Bool
  unfolding project
  code_bits [] medians ds = []
  code_bits (row ∷ rows) [] ds = []
  code_bits (row ∷ rows) (m ∷ medians) ds =
      gt_f m (project row ds zero_f) ∷ code_bits rows medians ds

  -- `rows` and `medians` hold `he_length_` entries.
  unfoldable pub hamming_coder : List (List F) → List F → List F → List ℕ
  unfolding code_bits coder_loop
  hamming_coder rows medians ds = coder_loop (code_bits rows medians ds) 0 0

-- A `char` is signed: from 128 on it is negative, and it is converted to `unsigned long`.
unfoldable pub digit_value : ℕ → ℕ
digit_value c =
    let wide = if ltb c 128 then c else c + word_mod - 256 in
    if leb 128 c || leb c b'9'
    then (wide + word_mod - b'0') % word_mod
    else (wide + word_mod - b'A' + 10) % word_mod

-- `off_value[l]`
unfoldable pub off_value : ℕ → ℕ
off_value zero = 1
off_value (suc l) = off_value l * 2 ^ 4 % word_mod

-- The inner loop over the sixteen characters of one word.
unfoldable pub word_of_chars : ℕ → ℕ → List ℕ → ℕ
word_of_chars acc l [] = acc
word_of_chars acc l (c ∷ cs) =
    word_of_chars ((acc + digit_value c * off_value l % word_mod) % word_mod) (suc l) cs

-- The outer loop: word `j` is made of the characters from `16 * j` on.
unfoldable pub words_of_chars : ℕ → List ℕ → List ℕ
words_of_chars zero he = []
words_of_chars (suc n) he = word_of_chars 0 0 (take 16 he) ∷ words_of_chars n (drop 16 he)

-- `none` is the return value -1: the caller's array is there already.
unfoldable pub he_string2int : Bool → List ℕ → Option (List ℕ)
he_string2int allocated he = if allocated then none else some (words_of_chars (length he / 16) he)

unfoldable pub near : ℕ → ℕ → ℕ → Bool
near threshold a b = leb (count_one (bit_xor a b)) threshold

unfoldable pub distance_row : ℕ → ℕ → List ℕ → ℕ → ℕ
distance_row threshold a [] similar = similar
distance_row threshold a (b ∷ he2) similar =
    distance_row threshold a he2 (if near threshold a b then similar + 1 else similar)

unfoldable pub distance_rows : ℕ → List ℕ → List ℕ → ℕ → ℕ
distance_rows threshold [] he2 similar = similar
distance_rows threshold (a ∷ he1) he2 similar =
    distance_rows threshold he1 he2 (distance_row threshold a he2 similar)

-- `none` is the return value -1, at which `similar_num` keeps its value. `similar_num` is an `int`,
-- here by its pattern; to count past the greatest one is not defined, and taken to wrap around.
unfoldable pub he_distance : ℕ → List ℕ → List ℕ → Option ℕ
he_distance threshold he1 he2 =
    if length he1 == 0 || length he2 == 0
    then none
    else some (distance_rows threshold he1 he2 0 % 0x1_0000_0000)
