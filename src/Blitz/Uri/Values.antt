-- ===== src/Blitz/Uri/Values.antt =====
-- ParseValue decodes what was percent-encoded.
use mlsimgsearch.Prelude.{
  ltb, if◌then◌else◌, ==_iff, ne→==, if_cases, All, ok, ℕ, ◌+◌, ◌-◌, ◌/◌, ◌%◌, ◌<◌, ◌≡◌, refl, ap,
  ap₂, ◌∙◌, ◌≢◌, Bool, true, false, List, [], ◌∷◌, arith,
}
use mlsimgsearch.Prelude.Int.{pos}
use mlsimgsearch.Blitz.Uri.{hex_val, hex_byte, with_byte, parse_value}

-- A digit of a number below 16, with small or capital letters.
abbrev pub hex_digit : Bool → ℕ → ℕ
hex_digit capital d =
    if ltb d 10 then b'0' + d else if capital then b'A' + d - 10 else b'a' + d - 10

-- A byte is written as it is, or by two digits.
abbrev pub encode_byte : Bool → (ℕ → Bool) → ℕ → List ℕ → List ℕ
encode_byte capital plain v rest =
    if plain v
    then v ∷ rest
    else b'%' ∷ hex_digit capital (v / 16) ∷ hex_digit capital (v % 16) ∷ rest

abbrev pub encode : Bool → (ℕ → Bool) → List ℕ → List ℕ → List ℕ
encode capital plain [] rest = rest
encode capital plain (v ∷ bytes) rest =
    encode_byte capital plain v (encode capital plain bytes rest)

-- A value ends with the text or at an `&`.
abbrev pub EndsValue : List ℕ → Type 0
EndsValue [] = Unit
EndsValue (c ∷ s) = c ≡ b'&'

hex_val-hex_digit : (capital : Bool) (d : ℕ) → d < 16 → hex_val (hex_digit capital d) ≡ pos d
unfolding hex_val
hex_val-hex_digit true d h = ground arith
hex_val-hex_digit false d h = ground arith

hex_byte_digits :
    (capital : Bool) (v : ℕ)
    → v < 256
    → hex_byte (hex_val (hex_digit capital (v / 16))) (hex_val (hex_digit capital (v % 16))) ≡ ok v
unfolding hex_byte
hex_byte_digits capital v h =
    ap₂ hex_byte (hex_val-hex_digit capital (v / 16) (omega arith))
      (hex_val-hex_digit capital (v % 16) (omega arith))
    ∙ ap ok (omega arith)

-- One character that is neither `&` nor `%`.
parse_value_literal :
    (c : ℕ) (s : List ℕ) → c ≢ b'&' → c ≢ b'%' → parse_value (c ∷ s) ≡ with_byte c (parse_value s)
unfolding parse_value
parse_value_literal c [] h k = rw (ne→== c b'&' h, ne→== c b'%' k) refl
parse_value_literal c (a ∷ []) h k = rw (ne→== c b'&' h, ne→== c b'%' k) refl
parse_value_literal c (a ∷ b ∷ s) h k = rw (ne→== c b'&' h, ne→== c b'%' k) refl

parse_value_coded :
    (a b v : ℕ) (s : List ℕ)
    → hex_byte (hex_val a) (hex_val b) ≡ ok v
    → parse_value (b'%' ∷ a ∷ b ∷ s) ≡ with_byte v (parse_value s)
unfolding parse_value
parse_value_coded a b v s e = rw e refl

parse_value_end : (rest : List ℕ) → EndsValue rest → parse_value rest ≡ ok ([], rest)
unfolding parse_value
parse_value_end [] h = refl
parse_value_end (c ∷ []) h = rw ((==_iff c b'&').1 h) refl
parse_value_end (c ∷ a ∷ []) h = rw ((==_iff c b'&').1 h) refl
parse_value_end (c ∷ a ∷ b ∷ s) h = rw ((==_iff c b'&').1 h) refl

pub parse_value-encode :
    (capital : Bool) (plain : ℕ → Bool) (bytes rest : List ℕ)
    → plain b'&' ≡ false
    → plain b'%' ≡ false
    → All (λ v. v < 256) bytes
    → EndsValue rest
    → parse_value (encode capital plain bytes rest) ≡ ok (bytes, rest)
parse_value-encode capital plain [] rest amp per small ends = parse_value_end rest ends
parse_value-encode capital plain (v ∷ bytes) rest amp per (h, hs) ends =
    let tail = parse_value-encode capital plain bytes rest amp per hs ends in
    let text = encode capital plain bytes rest in
    if_cases (λ t. parse_value t ≡ ok (v ∷ bytes, rest)) (plain v)
      (λ is_plain.
        parse_value_literal v text (λ same. cc (is_plain, amp, ap plain same))
          (λ same. cc (is_plain, per, ap plain same))
        ∙ ap (with_byte v) tail)
      (λ coded.
        parse_value_coded (hex_digit capital (v / 16)) (hex_digit capital (v % 16)) v text
          (hex_byte_digits capital v h)
        ∙ ap (with_byte v) tail)
