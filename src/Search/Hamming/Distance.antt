-- ===== src/Search/Hamming/Distance.antt =====
-- `HeDistance` counts the pairs of signatures that differ in at most `he_threshold_` bits.
use mlsimgsearch.Prelude.{
  ltb, leb, ◌==◌, if◌then◌else◌, length, All, ℕ, zero, suc, ◌+◌, ◌*◌, ◌/◌, ◌%◌, ◌<◌, bit_xor, ◌≡◌,
  refl, sym, ap, ◌∙◌, Bool, true, false, ◌&&◌, some, List, [], ◌∷◌, map, arith,
}
use mlsimgsearch.Prelude.Words.{all_below, all_below_sound}
use mlsimgsearch.Prelude.Xor.{bit_xor_nibble}
use mlsimgsearch.Search.Hamming.{
  word_mod, count_one, near, distance_row, distance_rows, he_distance,
}
use mlsimgsearch.Search.Hamming.Count.{ones}
use mlsimgsearch.Search.Hamming.Count.Sums.{count_one-ones}
use mlsimgsearch.Search.Hamming.Text.{
  bit_value, nibble, nibbles, length-nibbles, Digits, nibbles-Digits, word_of, word_of-lt, width,
  signature_width, IsSignature, signature_word,
}

abbrev pub bit_differs : Bool → Bool → ℕ
bit_differs true true = 0
bit_differs true false = 1
bit_differs false true = 1
bit_differs false false = 0

-- In how many places two rows of bits differ.
unfoldable pub hamming : List Bool → List Bool → ℕ
hamming [] bs = 0
hamming (a ∷ as') [] = 0
hamming (a ∷ as') (b ∷ bs) = bit_differs a b + hamming as' bs

-- The exclusive or of two words, digit by digit.
xor_digits : List ℕ → List ℕ → List ℕ
xor_digits [] ms = []
xor_digits (n ∷ ns) [] = []
xor_digits (n ∷ ns) (m ∷ ms) = bit_xor n m ∷ xor_digits ns ms

abbrev differ_at : ℕ → ℕ → ℕ → ℕ
differ_at n m i = if n / i % 2 == m / i % 2 then 0 else 1

abbrev digit_differ : ℕ → ℕ → ℕ
digit_differ n m = differ_at n m 8 + (differ_at n m 4 + (differ_at n m 2 + differ_at n m 1))

xor_table :
    all_below 256 (λ t.
      let x = bit_xor (t / 16) (t % 16) in ltb x 16 && ones 4 x == digit_differ (t / 16) (t % 16))
    ≡ true
unfolding all_below ones
xor_table = refl

xor_row :
    (t : ℕ)
    → t < 256
    → (bit_xor (t / 16) (t % 16) < 16)
      × (ones 4 (bit_xor (t / 16) (t % 16)) ≡ digit_differ (t / 16) (t % 16))
xor_row t h = ground (arith, all_below_sound 256 _ t xor_table h)

xor_digit :
    (n m : ℕ) → n < 16 → m < 16 → (bit_xor n m < 16) × (ones 4 (bit_xor n m) ≡ digit_differ n m)
xor_digit n m h k =
    let hi : (16 * n + m) / 16 ≡ n = omega arith in
    let lo : (16 * n + m) % 16 ≡ m = omega arith in
    rw (hi, lo) at (xor_row (16 * n + m) (omega arith))

bit_xor-word_of :
    (ns ms : List ℕ)
    → length ns ≡ length ms
    → Digits ns
    → Digits ms
    → bit_xor (word_of ns) (word_of ms) ≡ word_of (xor_digits ns ms)
unfolding word_of xor_digits
bit_xor-word_of [] [] e d c = refl
bit_xor-word_of [] (m ∷ ms) e d c = absurd (omega arith)
bit_xor-word_of (n ∷ ns) [] e d c = absurd (omega arith)
bit_xor-word_of (n ∷ ns) (m ∷ ms) e d c = omega (
  arith,
  bit_xor_nibble n (word_of ns) m (word_of ms) d.0 c.0,
  bit_xor-word_of ns ms (omega arith) d.1 c.1,
)

xor_digits-Digits : (ns ms : List ℕ) → Digits ns → Digits ms → Digits (xor_digits ns ms)
unfolding xor_digits
xor_digits-Digits [] ms d c = tt
xor_digits-Digits (n ∷ ns) [] d c = tt
xor_digits-Digits (n ∷ ns) (m ∷ ms) d c =
    ((xor_digit n m d.0 c.0).0, xor_digits-Digits ns ms d.1 c.1)

width-xor_digits : (ns ms : List ℕ) → length ns ≡ length ms → width (xor_digits ns ms) ≡ width ns
unfolding xor_digits width
width-xor_digits [] ms e = refl
width-xor_digits (n ∷ ns) [] e = absurd (omega arith)
width-xor_digits (n ∷ ns) (m ∷ ms) e = ap (λ w. 16 * w) (width-xor_digits ns ms (omega arith))

-- Four binary digits for each digit.
abbrev fours : List ℕ → ℕ
fours [] = 0
fours (n ∷ ns) = suc (suc (suc (suc (fours ns))))

abbrev digits_differ : List ℕ → List ℕ → ℕ
digits_differ [] ms = 0
digits_differ (n ∷ ns) [] = 0
digits_differ (n ∷ ns) (m ∷ ms) = digit_differ n m + digits_differ ns ms

ones_nibble :
    (k r a : ℕ) → r < 16 → ones (suc (suc (suc (suc k)))) (r + 16 * a) ≡ ones 4 r + ones k a
unfolding ones
ones_nibble k r a h =
    let rest : (r + 16 * a) / 2 / 2 / 2 / 2 ≡ a = omega arith in omega (arith, ap (ones k) rest)

ones-xor_digits :
    (ns ms : List ℕ)
    → length ns ≡ length ms
    → Digits ns
    → Digits ms
    → ones (fours ns) (word_of (xor_digits ns ms)) ≡ digits_differ ns ms
unfolding xor_digits word_of
ones-xor_digits [] ms e d c = unfold ones in refl
ones-xor_digits (n ∷ ns) [] e d c = absurd (omega arith)
ones-xor_digits (n ∷ ns) (m ∷ ms) e d c =
    let x = xor_digit n m d.0 c.0 in
    omega (
      arith,
      ones_nibble (fours ns) (bit_xor n m) (word_of (xor_digits ns ms)) x.0,
      x.1,
      ones-xor_digits ns ms (omega arith) d.1 c.1,
    )

nibble_bits :
    (a b c d : Bool)
    → let n = nibble a b c d in
      (n / 8 % 2 ≡ bit_value a)
      × (n / 4 % 2 ≡ bit_value b)
      × (n / 2 % 2 ≡ bit_value c)
      × (n / 1 % 2 ≡ bit_value d)
nibble_bits a b c d = ground arith

same_bit : (a b : Bool) → (if bit_value a == bit_value b then 0 else 1) ≡ bit_differs a b
same_bit true true = refl
same_bit true false = refl
same_bit false true = refl
same_bit false false = refl

digit_differ-nibble :
    (a b c d a' b' c' d' : Bool)
    → digit_differ (nibble a b c d) (nibble a' b' c' d')
      ≡ bit_differs a a' + (bit_differs b b' + (bit_differs c c' + bit_differs d d'))
digit_differ-nibble a b c d a' b' c' d' =
    let n = nibble_bits a b c d in
    let m = nibble_bits a' b' c' d' in
    rw (
      n.0,
      n.1,
      n.2,
      n.3,
      m.0,
      m.1,
      m.2,
      m.3,
      same_bit a a',
      same_bit b b',
      same_bit c c',
      same_bit d d',
    )

digits_differ-hamming :
    (k : ℕ) (as' bs : List Bool)
    → length as' ≡ 4 * k
    → length bs ≡ 4 * k
    → digits_differ (nibbles as') (nibbles bs) ≡ hamming as' bs
unfolding hamming
digits_differ-hamming zero [] bs e f = refl
digits_differ-hamming (suc k) (a ∷ b ∷ c ∷ d ∷ as') (a' ∷ b' ∷ c' ∷ d' ∷ bs) e f = omega (
  arith,
  digit_differ-nibble a b c d a' b' c' d',
  digits_differ-hamming k as' bs (omega arith) (omega arith),
)
digits_differ-hamming _ _ _ e f = absurd (omega arith)

fours-length : (ns : List ℕ) → fours ns ≡ 4 * length ns
fours-length [] = omega arith
fours-length (n ∷ ns) = omega (arith, fours-length ns)

-- `count_one` of the exclusive or of two signatures' words is their Hamming distance.
pub count_one-hamming :
    (a b : List Bool)
    → IsSignature a
    → IsSignature b
    → count_one (bit_xor (signature_word a) (signature_word b)) ≡ hamming a b
count_one-hamming a b e f =
    let ns = nibbles a in
    let ms = nibbles b in
    let d = nibbles-Digits a in
    let c = nibbles-Digits b in
    let same : length ns ≡ length ms =
      omega (arith, length-nibbles 16 a e, length-nibbles 16 b f) in
    let x : bit_xor (word_of ns) (word_of ms) ≡ word_of (xor_digits ns ms) =
      bit_xor-word_of ns ms same d c in
    let small : word_of (xor_digits ns ms) < word_mod = omega (
      arith,
      word_of-lt (xor_digits ns ms) (xor_digits-Digits ns ms d c),
      width-xor_digits ns ms same,
      signature_width a e,
    ) in
    let bits : fours ns ≡ 64 = omega (arith, fours-length ns, length-nibbles 16 a e) in
    rw x (
      count_one-ones (word_of (xor_digits ns ms)) small
      ∙ ap (λ k. ones k (word_of (xor_digits ns ms))) (sym bits)
      ∙ ones-xor_digits ns ms same d c
      ∙ digits_differ-hamming 16 a b e f)

-- How many of the pairs of two rows of signatures differ in at most `threshold` bits.
unfoldable pub near_pairs_row : ℕ → List Bool → List (List Bool) → ℕ
near_pairs_row threshold a [] = 0
near_pairs_row threshold a (b ∷ bs) =
    (if leb (hamming a b) threshold then 1 else 0) + near_pairs_row threshold a bs

unfoldable pub near_pairs : ℕ → List (List Bool) → List (List Bool) → ℕ
near_pairs threshold [] bs = 0
near_pairs threshold (a ∷ as') bs = near_pairs_row threshold a bs + near_pairs threshold as' bs

distance_row-near :
    (t : ℕ) (a : List Bool) (bs : List (List Bool)) (s : ℕ)
    → IsSignature a
    → All IsSignature bs
    → distance_row t (signature_word a) (map signature_word bs) s ≡ s + near_pairs_row t a bs
unfolding distance_row near near_pairs_row
distance_row-near t a [] s e f = omega arith
distance_row-near t a (b ∷ bs) s e (f, fs) =
    ap
      (λ (d : ℕ).
        distance_row t (signature_word a) (map signature_word bs) (if leb d t then s + 1 else s))
      (count_one-hamming a b e f)
    ∙ distance_row-near t a bs (if leb (hamming a b) t then s + 1 else s) e fs
    ∙ ground arith

distance_rows-near :
    (t : ℕ) (as' bs : List (List Bool)) (s : ℕ)
    → All IsSignature as'
    → All IsSignature bs
    → distance_rows t (map signature_word as') (map signature_word bs) s ≡ s + near_pairs t as' bs
unfolding distance_rows near_pairs
distance_rows-near t [] bs s e f = omega arith
distance_rows-near t (a ∷ as') bs s (e, es) f =
    distance_rows-near t as' bs (distance_row t (signature_word a) (map signature_word bs) s) es f
    ∙ omega (arith, distance_row-near t a bs s e f)

-- The distance of two rows of signatures by their words is the number of pairs that differ in at
-- most `threshold` bits, when an `int` holds that number.
pub he_distance-near_pairs :
    (threshold : ℕ) (a b : List Bool) (as' bs : List (List Bool))
    → All IsSignature (a ∷ as')
    → All IsSignature (b ∷ bs)
    → near_pairs threshold (a ∷ as') (b ∷ bs) < 0x8000_0000
    → he_distance threshold (map signature_word (a ∷ as')) (map signature_word (b ∷ bs))
      ≡ some (near_pairs threshold (a ∷ as') (b ∷ bs))
unfolding he_distance
he_distance-near_pairs threshold a b as' bs e f small =
    let count =
      distance_rows threshold (map signature_word (a ∷ as')) (map signature_word (b ∷ bs)) 0 in
    let exact : count % 0x1_0000_0000 ≡ near_pairs threshold (a ∷ as') (b ∷ bs) =
      omega (arith, distance_rows-near threshold (a ∷ as') (b ∷ bs) 0 e f, small) in
    ground (arith, exact)
