-- ===== src/Blitz/HttpResp/Headers.antt =====
-- Header fields that are looked up, and decimal numbers that are read.
use mlsimgsearch.Prelude.{
  lt→ltb, ==_iff, le→leb, ne→==, Bool-cases, if_cases, All, ok, ℕ, ◌+◌, ◌-◌, ◌*◌, ◌<◌, ◌≡◌, refl,
  ap, ◌∙◌, inl, inr, true, false, none, some, List, [], ◌∷◌, ◌++◌, arith,
}
use mlsimgsearch.Prelude.Int.{pos}
use mlsimgsearch.Blitz.Uri.{same_text}
use mlsimgsearch.Blitz.HttpReq.{set_header}
use mlsimgsearch.Blitz.HttpReq.Lines.{set_headers}
use mlsimgsearch.Blitz.BufferWriter.Decimal.{IsDigit, read_digits}
use mlsimgsearch.Blitz.HttpChunks.{is_blank, is_digit, digits_value, atoi}
use mlsimgsearch.Blitz.HttpResp.{get_header}

same_text_refl : (s : List ℕ) → same_text s s ≡ true
same_text_refl [] = refl
same_text_refl (c ∷ s) = rw ((==_iff c c).1 refl) (same_text_refl s)

get_header-set_header :
    (name value : List ℕ) (headers : List (List ℕ × List ℕ))
    → get_header name (set_header name value headers) ≡ some value
unfolding get_header set_header
get_header-set_header name value [] = rw (same_text_refl name) refl
get_header-set_header name value ((other, old) ∷ headers) =
    elim (Bool-cases (same_text name other)) [
      | inl e ↦ rw (e, e) refl
      | inr e ↦ rw (e, e) (get_header-set_header name value headers)
    ]

set_headers-append :
    (given more headers : List (List ℕ × List ℕ))
    → set_headers (given ++ more) headers ≡ set_headers more (set_headers given headers)
set_headers-append [] more headers = refl
set_headers-append ((name, value) ∷ given) more headers =
    set_headers-append given more (set_header name value headers)

-- The last field that is stored is found.
pub get_header_last :
    (given : List (List ℕ × List ℕ)) (name value : List ℕ)
    → get_header name (set_headers (given ++ (name, value) ∷ []) []) ≡ some value
get_header_last given name value =
    ap (get_header name) (set_headers-append given ((name, value) ∷ []) [])
    ∙ get_header-set_header name value (set_headers given [])

-- No field has the name.
abbrev pub Differ : List ℕ → List (List ℕ × List ℕ) → Type 0
Differ name [] = Unit
Differ name ((other, value) ∷ headers) = (same_text name other ≡ false) × Differ name headers

set_header-Differ :
    (name other value : List ℕ) (headers : List (List ℕ × List ℕ))
    → same_text name other ≡ false
    → Differ name headers
    → Differ name (set_header other value headers)
unfolding set_header
set_header-Differ name other value [] h hs = (h, tt)
set_header-Differ name other value ((o, old) ∷ headers) h (k, ks) =
    if_cases (Differ name) (same_text other o) (λ _. (k, ks))
      (λ _. (k, set_header-Differ name other value headers h ks))

pub set_headers-Differ :
    (name : List ℕ) (given headers : List (List ℕ × List ℕ))
    → Differ name given
    → Differ name headers
    → Differ name (set_headers given headers)
set_headers-Differ name [] headers hs ks = ks
set_headers-Differ name ((other, value) ∷ given) headers (h, hs) ks =
    set_headers-Differ name given (set_header other value headers) hs
      (set_header-Differ name other value headers h ks)

pub Differ-append :
    (name : List ℕ) (xs ys : List (List ℕ × List ℕ))
    → Differ name xs
    → Differ name ys
    → Differ name (xs ++ ys)
Differ-append name [] ys hs ks = ks
Differ-append name ((other, value) ∷ xs) ys (h, hs) ks = (h, Differ-append name xs ys hs ks)

pub get_header-none :
    (name : List ℕ) (headers : List (List ℕ × List ℕ))
    → Differ name headers
    → get_header name headers ≡ none
unfolding get_header
get_header-none name [] hs = refl
get_header-none name ((other, value) ∷ headers) (h, hs) = rw h (get_header-none name headers hs)

is_digit_lem : (c : ℕ) → IsDigit c → is_digit c ≡ true
is_digit_lem c (h, k) = rw (le→leb _ _ h, le→leb _ _ k) refl

digits_value-read_digits :
    (n : ℕ) (digits : List ℕ) (c : ℕ) (rest : List ℕ)
    → All IsDigit digits
    → is_digit c ≡ false
    → digits_value n (digits ++ c ∷ rest) ≡ ok (read_digits n digits)
unfolding digits_value read_digits
digits_value-read_digits n [] c rest hs e = rw e refl
digits_value-read_digits n (d ∷ digits) c rest (h, hs) e =
    rw (is_digit_lem d h) (digits_value-read_digits (10 * n + (d - b'0')) digits c rest hs e)

not_blank : (c : ℕ) → IsDigit c → is_blank c ≡ false
not_blank c (h, k) = ground arith

-- `atoi` reads the digits in front of another character.
pub atoi_digits :
    (d : ℕ) (digits : List ℕ) (c : ℕ) (rest : List ℕ)
    → All IsDigit (d ∷ digits)
    → is_digit c ≡ false
    → read_digits 0 (d ∷ digits) < 0x8000_0000
    → atoi ((d ∷ digits) ++ c ∷ rest) ≡ ok (pos (read_digits 0 (d ∷ digits)))
unfolding atoi
atoi_digits d digits c rest (h, hs) e small =
    let blank : is_blank d ≡ false = not_blank d h in
    rw
      (
        blank,
        ne→== d b'-' (λ z. omega (arith, z, h.0)),
        ne→== d b'+' (λ z. omega (arith, z, h.0)),
        digits_value-read_digits 0 (d ∷ digits) c rest (h, hs) e,
        lt→ltb _ _ small,
      )
      refl
