-- ===== src/Search/Hamming/Text.antt =====
-- The hexadecimal text of a signature: `HammingCoder` writes it, `HeString2Int` reads it back.
use mlsimgsearch.Prelude.{
  ◌==◌, if◌then◌else◌, length, length-append, take, drop, replicate, length-map, take-append_left,
  drop-append_left, All, concat, ℕ, zero, suc, ◌+◌, ◌*◌, ◌/◌, ◌%◌, ◌≤◌, ◌<◌, ◌≡◌, refl, ap, ap₂,
  ◌∙◌, subst, Bool, true, false, some, List, [], ◌∷◌, ◌++◌, map, arith,
}
use native.Mathlib.Nat.{mul_comm, mul-le-mul_left}
use mlsimgsearch.Prelude.Words.{all_below, all_below_sound}
use mlsimgsearch.Search.Hamming.{
  word_mod, rat, hex_char, coder_loop, digit_value, off_value, word_of_chars, words_of_chars,
  he_string2int,
}

abbrev pub bit_value : Bool → ℕ
bit_value b = if b then 1 else 0

-- The half byte of four bits, the first one highest.
abbrev pub nibble : Bool → Bool → Bool → Bool → ℕ
nibble a b c d = 8 * bit_value a + 4 * bit_value b + 2 * bit_value c + bit_value d

-- The half bytes of a row of bits; a rest of fewer than four is left out.
abbrev pub nibbles : List Bool → List ℕ
nibbles (a ∷ b ∷ c ∷ d ∷ bits) = nibble a b c d ∷ nibbles bits
nibbles _ = []

-- The number with these digits to the base 16, the first one lowest.
unfoldable pub word_of : List ℕ → ℕ
word_of [] = 0
word_of (n ∷ ns) = n + 16 * word_of ns

coder_step :
    (a b c d : Bool) (bits : List Bool)
    → coder_loop (a ∷ b ∷ c ∷ d ∷ bits) 0 0 ≡ hex_char (nibble a b c d) ∷ coder_loop bits 0 0
unfolding coder_loop rat
coder_step a b c d bits = ap (λ h. hex_char h ∷ coder_loop bits 0 0) (ground arith)

pub coder-hex : (bits : List Bool) → coder_loop bits 0 0 ≡ map hex_char (nibbles bits)
unfolding coder_loop
coder-hex (a ∷ b ∷ c ∷ d ∷ bits) =
    coder_step a b c d bits ∙ ap (◌∷◌ (hex_char (nibble a b c d))) (coder-hex bits)
coder-hex [] = refl
coder-hex _ = refl

digit_table : all_below 16 (λ n. digit_value (hex_char n) == n) ≡ true
unfolding all_below digit_value hex_char
digit_table = refl

digit_value-hex_char : (n : ℕ) → n < 16 → digit_value (hex_char n) ≡ n
digit_value-hex_char n h = ground (arith, all_below_sound 16 _ n digit_table h)

-- Every digit is below 16.
abbrev pub Digits : List ℕ → Type 0
Digits [] = Unit {0}
Digits (n ∷ ns) = (n < 16) × Digits ns

pub nibbles-Digits : (bits : List Bool) → Digits (nibbles bits)
nibbles-Digits (a ∷ b ∷ c ∷ d ∷ bits) = (ground arith, nibbles-Digits bits)
nibbles-Digits [] = tt
nibbles-Digits _ = tt

-- 16 to the number of digits.
unfoldable pub width : List ℕ → ℕ
width [] = 1
width (n ∷ ns) = 16 * width ns

pub word_of-lt : (ns : List ℕ) → Digits ns → word_of ns < width ns
unfolding word_of width
word_of-lt [] d = omega arith
word_of-lt (n ∷ ns) d = omega (arith, word_of-lt ns d.1)

width-pos : (ns : List ℕ) → 1 ≤ width ns
unfolding width
width-pos [] = omega arith
width-pos (n ∷ ns) = omega (arith, width-pos ns)

add_digit :
    (acc o n : ℕ)
    → n < 16
    → acc < o
    → o * 16 ≤ word_mod
    → ((acc + n * o % word_mod) % word_mod ≡ acc + o * n) × (acc + o * n < o * 16)
add_digit acc o n hn h p =
    let below : o * n ≤ o * 15 = grind arith in
    (omega (arith, below, mul_comm n o), omega (arith, below))

off_value-suc : (l : ℕ) → off_value l * 16 < word_mod → off_value (suc l) ≡ off_value l * 16
unfolding off_value
off_value-suc l h = omega arith

char_step :
    (acc l n : ℕ) (cs : List ℕ)
    → n < 16
    → acc < off_value l
    → off_value l * 16 ≤ word_mod
    → word_of_chars acc l (hex_char n ∷ cs) ≡ word_of_chars (acc + off_value l * n) (suc l) cs
unfolding word_of_chars
char_step acc l n cs hn h p =
    rw (digit_value-hex_char n hn, (add_digit acc (off_value l) n hn h p).0) refl

-- The loop adds digit by digit, and nothing wraps as long as the digits fit the word.
word_of_chars-hex :
    (acc l : ℕ) (ns : List ℕ)
    → Digits ns
    → acc < off_value l
    → off_value l * width ns ≤ word_mod
    → word_of_chars acc l (map hex_char ns) ≡ acc + off_value l * word_of ns
word_of_chars-hex acc l [] d h p = unfold word_of_chars word_of in omega arith
word_of_chars-hex acc l (n ∷ []) d h p =
    char_step acc l n [] d.0 h (unfold width in omega arith)
    ∙ (unfold word_of_chars word_of in omega arith)
word_of_chars-hex acc l (n ∷ m ∷ ns) d h p =
    let o = off_value l in
    let wide : o * 256 ≤ word_mod =
      unfold width in omega (arith, mul-le-mul_left (o * 256) (width-pos ns)) in
    let next = off_value-suc l (omega arith) in
    char_step acc l n (map hex_char (m ∷ ns)) d.0 h (omega arith)
    ∙ word_of_chars-hex (acc + o * n) (suc l) (m ∷ ns) d.1
        (omega (arith, next, add_digit acc o n d.0 h (omega arith)))
        (rw next (unfold width in omega arith))
    ∙ rw next (unfold word_of in omega arith)

-- A text of half bytes, sixteen to a word.
pub word_of_chars-nibbles :
    (ns : List ℕ)
    → Digits ns
    → width ns ≤ word_mod
    → word_of_chars 0 0 (map hex_char ns) ≡ word_of ns
unfolding off_value
word_of_chars-nibbles ns d h = word_of_chars-hex 0 0 ns d (omega arith) (omega arith) ∙ omega arith

width_of_length : (k : ℕ) (ns : List ℕ) → length ns ≡ k → width ns ≡ width (replicate k 0)
unfolding width
width_of_length zero [] e = refl
width_of_length zero (n ∷ ns) e = absurd (omega arith)
width_of_length (suc k) [] e = absurd (omega arith)
width_of_length (suc k) (n ∷ ns) e = ap (λ w. 16 * w) (width_of_length k ns (omega arith))

pub length-nibbles : (k : ℕ) (bits : List Bool) → length bits ≡ 4 * k → length (nibbles bits) ≡ k
length-nibbles zero [] e = refl
length-nibbles (suc k) (a ∷ b ∷ c ∷ d ∷ bits) e = ap suc (length-nibbles k bits (omega arith))
length-nibbles _ _ e = omega arith

-- A signature of 64 bits, as `HammingCoder` makes it with its default length.
abbrev pub IsSignature : List Bool → Type 0
IsSignature sig = length sig ≡ 64

abbrev pub signature_word : List Bool → ℕ
signature_word sig = word_of (nibbles sig)

pub signature_width : (sig : List Bool) → IsSignature sig → width (nibbles sig) ≡ word_mod
signature_width sig e =
    width_of_length 16 (nibbles sig) (length-nibbles 16 sig e) ∙ (unfold width in refl)

length-coder : (sig : List Bool) → IsSignature sig → length (coder_loop sig 0 0) ≡ 16
length-coder sig e =
    ap length (coder-hex sig) ∙ length-map (nibbles sig) hex_char ∙ length-nibbles 16 sig e

abbrev pub signature_text : List Bool → List ℕ
signature_text sig = coder_loop sig 0 0

pub words-signatures :
    (sigs : List (List Bool))
    → All IsSignature sigs
    → words_of_chars (length sigs) (concat (map signature_text sigs)) ≡ map signature_word sigs
unfolding words_of_chars
words-signatures [] h = refl
words-signatures (sig ∷ sigs) (e, h) =
    let text = signature_text sig in
    let rest = concat (map signature_text sigs) in
    let first : take 16 (text ++ rest) ≡ text =
      subst (λ n. take n (text ++ rest) ≡ text) (length-coder sig e) (take-append_left text rest) in
    let others : drop 16 (text ++ rest) ≡ rest =
      subst (λ n. drop n (text ++ rest) ≡ rest) (length-coder sig e) (drop-append_left text rest) in
    ap₂ ◌∷◌
      (ap (word_of_chars 0 0) (first ∙ coder-hex sig)
        ∙ word_of_chars-nibbles (nibbles sig) (nibbles-Digits sig)
            (omega (arith, signature_width sig e)))
      (ap (words_of_chars (length sigs)) others ∙ words-signatures sigs h)

pub length-texts :
    (sigs : List (List Bool))
    → All IsSignature sigs
    → length (concat (map signature_text sigs)) ≡ 16 * length sigs
length-texts [] h = refl
length-texts (sig ∷ sigs) (e, h) = omega (
  arith,
  length-append (signature_text sig) (concat (map signature_text sigs)),
  length-coder sig e,
  length-texts sigs h,
)

-- What the coder wrote for a row of signatures is read back as their words, in order.
pub he_string2int-coder :
    (sigs : List (List Bool))
    → All IsSignature sigs
    → he_string2int false (concat (map signature_text sigs)) ≡ some (map signature_word sigs)
unfolding he_string2int
he_string2int-coder sigs h =
    let texts = concat (map signature_text sigs) in
    let count : length texts / 16 ≡ length sigs = omega (arith, length-texts sigs h) in
    rw count (ap some (words-signatures sigs h))
