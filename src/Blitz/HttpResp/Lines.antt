-- ===== src/Blitz/HttpResp/Lines.antt =====
-- ParseHeader of HttpRespDecoder reads the lines of the header.
use mlsimgsearch.Prelude.{
  ◌==◌, ne→==, length, length-append, take, drop, drop-append_left, Outcome, ok, ℕ, zero, suc, ◌+◌,
  ◌-◌, ◌<◌, ◌≡◌, refl, sym, ap, ap₂, ◌∙◌, some, List, [], ◌∷◌, ◌++◌, append_assoc, arith,
}
use mlsimgsearch.Blitz.Uri.{search_char}
use mlsimgsearch.Blitz.Uri.Params.{Avoids, split_at_stop, split_at_none}
use mlsimgsearch.Blitz.HttpReq.{cr, lf, search_eol}
use mlsimgsearch.Blitz.HttpReq.Lines.{
  search_eol_line, slice, field_line, Avoids-append, print_headers, set_headers,
}
use mlsimgsearch.Blitz.HttpResponse.{HttpResponse}
use mlsimgsearch.Blitz.HttpChunks.{HttpRespDecoder}
use mlsimgsearch.Blitz.HttpResp.{end_header, read_field, header_round, parse_header}

-- A header field: no CR and no NUL, and no colon in its name.
pub record Field (name value : List ℕ) : Type 0 where
  pub name_cr : Avoids cr name
  pub value_cr : Avoids cr value
  pub name_nul : Avoids 0 name
  pub value_nul : Avoids 0 value
  pub name_colon : Avoids b':' name

abbrev pub Fields : List (List ℕ × List ℕ) → Type 0
Fields [] = Unit
Fields ((name, value) ∷ headers) = Field name value × Fields headers

parse_header_line :
    (fuel : ℕ) (d : HttpRespDecoder) (before line rest : List ℕ)
    → Avoids cr line
    → d.buf_ ≡ before ++ (line ++ cr ∷ lf ∷ rest)
    → d.parse_pos ≡ length before
    → parse_header (suc fuel) d
      ≡ header_round
          (parse_header fuel)
          d
          (some (length before + length line), length before + length line + 2)
unfolding parse_header
parse_header_line fuel d before line rest hs e p = ap (header_round (parse_header fuel) d) (
    ap₂ (λ q h. search_eol q (drop q h)) p e
    ∙ ap (search_eol (length before)) (drop-append_left before (line ++ cr ∷ lf ∷ rest))
    ∙ search_eol_line (length before) line rest hs)

-- The decoder behind a line, with a response.
abbrev pub behind : HttpRespDecoder → ℕ → HttpResponse → HttpRespDecoder
behind d next response = record d { response = response; line_start = next; parse_pos = next }

-- The response with more header fields.
abbrev pub with_headers : List (List ℕ × List ℕ) → HttpResponse → HttpResponse
with_headers given r = record r { headers = set_headers given r.headers }

round_field :
    (go : HttpRespDecoder → Outcome (ℕ × HttpRespDecoder)) (d : HttpRespDecoder) (line : List ℕ)
    (line_end next : ℕ) (response : HttpResponse)
    → take (line_end - d.line_start) (drop d.line_start d.buf_) ≡ line
    → 0 < length line
    → read_field line d.response ≡ ok response
    → header_round go d (some line_end, next) ≡ go (behind d next response)
unfolding header_round
round_field go d line line_end next response e h r =
    rw (e, ne→== (length line) 0 (λ z. omega (arith, z)), r) refl

round_end :
    (go : HttpRespDecoder → Outcome (ℕ × HttpRespDecoder)) (d : HttpRespDecoder) (line_end next : ℕ)
    → take (line_end - d.line_start) (drop d.line_start d.buf_) ≡ []
    → header_round go d (some line_end, next) ≡ end_header (behind d next d.response)
unfolding header_round
round_end go d line_end next e = rw e refl

read_field_line :
    (name value : List ℕ) (response : HttpResponse)
    → Field name value
    → read_field (field_line name value) response ≡ ok (with_headers ((name, value) ∷ []) response)
unfolding read_field search_char
read_field_line name value response field =
    rw
      (
        split_at_none (λ c. c == 0) (field_line name value)
            (Avoids-append 0 name (b':' ∷ b' ' ∷ value) field.name_nul
              (refl, (refl, field.value_nul))),
        split_at_stop (λ c. c == b':') name b':' (b' ' ∷ value) field.name_colon refl,
        ne→== (suc (suc (length value))) 0 (λ e. omega (arith, e)),
      )
      refl

-- `ParseHeader` at the start of a line reads all fields, and comes to the end of the header with
-- what follows the empty line in front of it.
pub parse_header-Fields :
    (given : List (List ℕ × List ℕ)) (fuel : ℕ) (d : HttpRespDecoder) (before rest : List ℕ)
    → Fields given
    → length given < fuel
    → d.buf_ ≡ before ++ print_headers given rest
    → d.parse_pos ≡ length before
    → d.line_start ≡ length before
    → (next : ℕ) × (drop next d.buf_ ≡ rest)
      × (parse_header fuel d ≡ end_header (behind d next (with_headers given d.response)))
parse_header-Fields given zero d before rest fs l h p q = absurd (omega arith)
parse_header-Fields [] (suc fuel) d before rest fs l h p q =
    let next : ℕ = length before + 0 + 2 in
    let size : next ≡ length (before ++ cr ∷ lf ∷ []) =
      omega (arith, length-append before (cr ∷ lf ∷ [])) in
    (
      next,
      ap₂ drop size (h ∙ sym (append_assoc before (cr ∷ lf ∷ []) rest))
          ∙ drop-append_left (before ++ cr ∷ lf ∷ []) rest,
      parse_header_line fuel d before [] rest tt h p
          ∙ round_end (parse_header fuel) d (length before + 0) next (
              ap (λ n. take (length before + 0 - n) (drop n d.buf_)) q
              ∙ ap (λ k. take k (drop (length before) d.buf_))
                  {x = length before + 0 - length before} {y = 0} (omega arith)),
    )
parse_header-Fields ((name, value) ∷ given) (suc fuel) d before rest (f, fs) l h p q =
    let line : List ℕ = field_line name value in
    let after : List ℕ = print_headers given rest in
    let next : ℕ = length before + length line + 2 in
    let response = with_headers ((name, value) ∷ []) d.response in
    let whole : before ++ (line ++ cr ∷ lf ∷ after) ≡ (before ++ line ++ cr ∷ lf ∷ []) ++ after =
      sym (
        append_assoc (before ++ line) (cr ∷ lf ∷ []) after
        ∙ append_assoc before line (cr ∷ lf ∷ after)) in
    let size : length (before ++ line ++ cr ∷ lf ∷ []) ≡ next =
      omega (arith, length-append (before ++ line) (cr ∷ lf ∷ []), length-append before line) in
    let (last, left, e) =
      parse_header-Fields given fuel (behind d next response) (before ++ line ++ cr ∷ lf ∷ []) rest
        fs (omega arith) (h ∙ whole) (sym size) (sym size) in
    (
      last,
      left,
      parse_header_line fuel d before line after
            (Avoids-append cr name (b':' ∷ b' ' ∷ value) f.name_cr (refl, (refl, f.value_cr))) h p
          ∙ round_field (parse_header fuel) d line (length before + length line) next response
              (ap₂ (λ n t. take (length before + length line - n) (drop n t)) q h
                ∙ slice before line (cr ∷ lf ∷ after) (length before)
                    (length before + length line - length before) refl (omega arith))
              (omega (arith, length-append name (b':' ∷ b' ' ∷ value)))
              (read_field_line name value d.response f)
          ∙ e,
    )
