-- ===== src/Blitz/HttpReq/Lines.antt =====
-- SearchEOL finds the lines of a header, and ParseHeader reads them.
use mlsimgsearch.Prelude.{
  ◌==◌, ne→==, length, length-append, take, drop, take-append_left, drop-append_left, Outcome, ok,
  ℕ, zero, suc, ◌+◌, ◌-◌, ◌<◌, ◌≡◌, refl, sym, ap, ap₂, ◌∙◌, false, some, List, [], ◌∷◌, ◌++◌,
  append_assoc, arith,
}
use mlsimgsearch.Blitz.Uri.{search_char}
use mlsimgsearch.Blitz.Uri.Params.{Avoids, split_at_stop, split_at_none}
use mlsimgsearch.Blitz.HttpReq.{
  HttpMessage, HttpReqDecoder, k_body, cr, lf, search_eol, has_prefix, set_header,
  content_length_name, store_header, read_field, end_header, header_round, parse_header,
}

search_eol_past :
    (p c : ℕ) (s : List ℕ) → (c == cr) ≡ false → search_eol p (c ∷ s) ≡ search_eol (suc p) s
unfolding search_eol
search_eol_past p c [] h = rw h refl
search_eol_past p c (d ∷ s) h = rw h refl

pub search_eol_line :
    (p : ℕ) (line rest : List ℕ)
    → Avoids cr line
    → search_eol p (line ++ cr ∷ lf ∷ rest) ≡ (some (p + length line), p + length line + 2)
unfolding search_eol
search_eol_line p [] rest hs = ap₂ (λ a b. (some a, b)) (omega arith) (omega arith)
search_eol_line p (c ∷ line) rest (h, hs) =
    search_eol_past p c (line ++ cr ∷ lf ∷ rest) h
    ∙ search_eol_line (suc p) line rest hs
    ∙ ap₂ (λ a b. (some a, b)) (omega arith) (omega arith)

-- What stands between two positions.
pub slice :
    (before line rest : List ℕ) (start size : ℕ)
    → start ≡ length before
    → size ≡ length line
    → take size (drop start (before ++ (line ++ rest))) ≡ line
slice before line rest start size e e' =
    ap₂ (λ a b. take a (drop b (before ++ (line ++ rest)))) e' e
    ∙ ap (take (length line)) (drop-append_left before (line ++ rest))
    ∙ take-append_left line rest

-- A round of the loop at a line.
pub parse_header_line :
    (fuel : ℕ) (d : HttpReqDecoder) (before line rest : List ℕ)
    → Avoids cr line
    → d.header_ ≡ before ++ (line ++ cr ∷ lf ∷ rest)
    → d.parse_pos ≡ length before
    → parse_header (suc fuel) d
      ≡ header_round
          (parse_header fuel)
          d
          (some (length before + length line), length before + length line + 2)
unfolding parse_header
parse_header_line fuel d before line rest hs e p = ap (header_round (parse_header fuel) d) (
    ap₂ (λ q h. search_eol q (drop q h)) p e
    ∙ ap (search_eol (length before)) (drop-append_left before (line ++ cr ∷ lf ∷ rest))
    ∙ search_eol_line (length before) line rest hs)

-- Where the decoder stands after a line.
abbrev pub past_line : HttpReqDecoder → ℕ → HttpReqDecoder
past_line d next = record d { line_start = next; parse_pos = next }

header_round_field :
    (go : HttpReqDecoder → Outcome (ℕ × HttpReqDecoder)) (d : HttpReqDecoder) (line : List ℕ)
    (line_end next : ℕ) (message : HttpMessage)
    → take (line_end - d.line_start) (drop d.line_start d.header_) ≡ line
    → 0 < length line
    → read_field line d.message ≡ ok message
    → header_round go d (some line_end, next) ≡ go (record (past_line d next) { message = message })
unfolding header_round
header_round_field go d line line_end next message e h r =
    rw (e, ne→== (length line) 0 (λ z. omega (arith, z)), r) refl

header_round_end :
    (go : HttpReqDecoder → Outcome (ℕ × HttpReqDecoder)) (d : HttpReqDecoder) (line_end next : ℕ)
    → take (line_end - d.line_start) (drop d.line_start d.header_) ≡ []
    → header_round go d (some line_end, next) ≡ end_header (past_line d next)
unfolding header_round
header_round_end go d line_end next e = rw e refl

end_header_empty :
    (d : HttpReqDecoder)
    → d.message.content ≡ []
    → end_header d ≡ ok (1, record d { status = k_body })
unfolding end_header
end_header_empty d e = rw (ap (λ (t : List ℕ). length t) e) refl

-- A header field: no CR and no NUL, no colon in its name, and it is not the content length.
pub record Field (name value : List ℕ) : Type 0 where
  pub name_cr : Avoids cr name
  pub value_cr : Avoids cr value
  pub name_nul : Avoids 0 name
  pub value_nul : Avoids 0 value
  pub name_colon : Avoids b':' name
  pub other : has_prefix content_length_name name ≡ false

abbrev pub field_line : List ℕ → List ℕ → List ℕ
field_line name value = name ++ b':' ∷ b' ' ∷ value

pub Avoids-append : (c : ℕ) (xs ys : List ℕ) → Avoids c xs → Avoids c ys → Avoids c (xs ++ ys)
Avoids-append c [] ys hs ks = ks
Avoids-append c (x ∷ xs) ys (h, hs) ks = (h, Avoids-append c xs ys hs ks)

read_field_line :
    (name value : List ℕ) (message : HttpMessage)
    → Field name value
    → read_field (field_line name value) message
      ≡ ok (record message { headers = set_header name value message.headers })
unfolding read_field search_char store_header
read_field_line name value message field =
    rw
      (
        split_at_none (λ c. c == 0) (field_line name value)
            (Avoids-append 0 name (b':' ∷ b' ' ∷ value) field.name_nul
              (refl, (refl, field.value_nul))),
        split_at_stop (λ c. c == b':') name b':' (b' ' ∷ value) field.name_colon refl,
        field.other,
        ne→== (suc (suc (length value))) 0 (λ e. omega (arith, e)),
      )
      refl

-- The header fields, the empty line, and what follows the header.
abbrev pub print_headers : List (List ℕ × List ℕ) → List ℕ → List ℕ
print_headers [] rest = cr ∷ lf ∷ rest
print_headers ((name, value) ∷ headers) rest =
    field_line name value ++ cr ∷ lf ∷ print_headers headers rest

abbrev pub Fields : List (List ℕ × List ℕ) → Type 0
Fields [] = Unit
Fields ((name, value) ∷ headers) = Field name value × Fields headers

abbrev pub set_headers : List (List ℕ × List ℕ) → List (List ℕ × List ℕ) → List (List ℕ × List ℕ)
set_headers [] headers = headers
set_headers ((name, value) ∷ given) headers = set_headers given (set_header name value headers)

-- `ParseHeader` at the start of a line reads all fields up to the empty line.
pub parse_header-Fields :
    (given : List (List ℕ × List ℕ)) (fuel : ℕ) (d : HttpReqDecoder) (before rest : List ℕ)
    → Fields given
    → length given < fuel
    → d.header_ ≡ before ++ print_headers given rest
    → d.parse_pos ≡ length before
    → d.line_start ≡ length before
    → d.message.content ≡ []
    → (d' : HttpReqDecoder) × (parse_header fuel d ≡ ok (1, d'))
      × (d'.message ≡ record d.message { headers = set_headers given d.message.headers })
      × (d'.max_header_size ≡ d.max_header_size)
parse_header-Fields given zero d before rest fs l h p q c = absurd (omega arith)
parse_header-Fields [] (suc fuel) d before rest fs l h p q c =
    let next : ℕ = length before + 0 + 2 in
    (
      record (past_line d next) { status = k_body },
      parse_header_line fuel d before [] rest tt h p
          ∙ header_round_end (parse_header fuel) d (length before + 0) next (
              ap (λ n. take (length before + 0 - n) (drop n d.header_)) q
              ∙ ap (λ k. take k (drop (length before) d.header_))
                  {x = length before + 0 - length before} {y = 0} (omega arith))
          ∙ end_header_empty (past_line d next) c,
      refl,
      refl,
    )
parse_header-Fields ((name, value) ∷ given) (suc fuel) d before rest (f, fs) l h p q c =
    let line : List ℕ = field_line name value in
    let after : List ℕ = print_headers given rest in
    let next : ℕ = length before + length line + 2 in
    let message = record d.message { headers = set_header name value d.message.headers } in
    let whole : before ++ (line ++ cr ∷ lf ∷ after) ≡ (before ++ line ++ cr ∷ lf ∷ []) ++ after =
      sym (
        append_assoc (before ++ line) (cr ∷ lf ∷ []) after
        ∙ append_assoc before line (cr ∷ lf ∷ after)) in
    let size : length (before ++ line ++ cr ∷ lf ∷ []) ≡ next =
      omega (arith, length-append (before ++ line) (cr ∷ lf ∷ []), length-append before line) in
    let (d', e, m, x) =
      parse_header-Fields given fuel (record (past_line d next) { message = message })
        (before ++ line ++ cr ∷ lf ∷ []) rest fs (omega arith) (h ∙ whole) (sym size) (sym size)
        c in
    (
      d',
      parse_header_line fuel d before line after
            (Avoids-append cr name (b':' ∷ b' ' ∷ value) f.name_cr (refl, (refl, f.value_cr))) h p
          ∙ header_round_field (parse_header fuel) d line (length before + length line) next message
              (ap₂ (λ n t. take (length before + length line - n) (drop n t)) q h
                ∙ slice before line (cr ∷ lf ∷ after) (length before)
                    (length before + length line - length before) refl (omega arith))
              (omega (arith, length-append name (b':' ∷ b' ' ∷ value)))
              (read_field_line name value d.message f)
          ∙ e,
      m,
      x,
    )
