-- ===== src/Blitz/HttpReq/FirstLine.antt =====
-- ParseFirstLine at the start of a request, and what Feed makes of its result.
use mlsimgsearch.Prelude.{
  ltb, ◌==◌, if◌then◌else◌, lt→ltb, le→leb, ne→==, length, set, length-append, get_or, drop,
  Outcome, ok, ℕ, suc, ◌+◌, ◌-◌, ◌≤◌, ◌<◌, ◌≡◌, refl, sym, ap, ap₂, ◌∙◌, Bool, true, false, some,
  List, [], ◌∷◌, ◌++◌, append_assoc, arith,
}
use mlsimgsearch.Prelude.Int.{pos}
use mlsimgsearch.Blitz.Uri.{search_char, HttpRequest, parse_uri}
use mlsimgsearch.Blitz.Uri.Params.{Avoids, split_at_stop}
use mlsimgsearch.Blitz.HttpReq.{
  HttpMessage, HttpReqDecoder, new_message, k_first_line, cr, lf, search_eol, c_string, read_method,
  first_line, parse_header, parse_first_line, conclude, feed,
}
use mlsimgsearch.Blitz.HttpReq.Lines.{search_eol_line, print_headers, field_line}

abbrev pub fresh : ℕ → HttpReqDecoder
fresh size = record {
  message = new_message;
  status = k_first_line;
  header_ = [];
  line_start = 0;
  parse_pos = 0;
  body = [];
  body_length = 0;
  max_header_size = size;
}

abbrev pub verb : Bool → List ℕ
verb false = b'G' ∷ b'E' ∷ b'T' ∷ b' ' ∷ []
verb true = b'P' ∷ b'O' ∷ b'S' ∷ b'T' ∷ b' ' ∷ []

abbrev pub method_code : Bool → ℕ
method_code false = 1
method_code true = 2

read_method-verb :
    (post : Bool) (s : List ℕ)
    → (read_method (verb post ++ s) ≡ ok (method_code post, length (verb post)))
      × (drop (length (verb post)) (verb post ++ s) ≡ s)
unfolding read_method
read_method-verb false s = (refl, refl)
read_method-verb true s = (refl, refl)

c_string_line : (line rest : List ℕ) → Avoids 0 line → c_string (line ++ 0 ∷ rest) ≡ ok line
c_string_line [] rest hs = refl
c_string_line (c ∷ line) rest (h, hs) = rw (h, c_string_line line rest hs) refl

pub set-append :
    (line : List ℕ) (c v : ℕ) (rest : List ℕ)
    → set (line ++ c ∷ rest) (length line) v ≡ line ++ v ∷ rest
set-append [] c v rest = refl
set-append (x ∷ line) c v rest = ap (◌∷◌ x) (set-append line c v rest)

get_or-append :
    (front : List ℕ) (c d : ℕ) (rest : List ℕ) → get_or (front ++ c ∷ rest) (length front) d ≡ c
get_or-append [] c d rest = refl
get_or-append (x ∷ front) c d rest = get_or-append front c d rest

pub length-print_headers :
    (given : List (List ℕ × List ℕ)) (rest : List ℕ)
    → length given ≤ length (print_headers given rest)
length-print_headers [] rest = omega arith
length-print_headers ((name, value) ∷ given) rest = omega (
  arith,
  length-append (field_line name value) (cr ∷ lf ∷ print_headers given rest),
  length-print_headers given rest,
)

-- The message after the first line.
abbrev pub opened : HttpMessage → HttpRequest → ℕ → ℕ → HttpMessage
opened message request method minor = record message {
  request = request;
  method = method;
  version_minor = minor;
}

abbrev pub minor_of : ℕ → ℕ
minor_of c = if c == b'0' then 0 else 1

first_line_run :
    (d : HttpReqDecoder) (line_end next method start last : ℕ)
    (header_ line target version : List ℕ) (request : HttpRequest)
    → d.line_start + line_end < d.max_header_size
    → set d.header_ (d.line_start + line_end) 0 ≡ header_
    → c_string (drop d.line_start header_) ≡ ok line
    → read_method (drop d.line_start header_) ≡ ok (method, start)
    → search_char b' ' (drop start line) ≡ (target, b' ' ∷ version)
    → parse_uri d.message.request target ≡ ok request
    → get_or header_ (line_end - 1) 0 ≡ last
    → first_line d (some line_end, next)
      ≡ parse_header (suc (length header_)) (record d {
        message = opened d.message request method (minor_of last);
        header_ = header_;
        line_start = next;
        parse_pos = next;
      })
unfolding first_line
first_line_run d line_end next method start last header_ line target version request h e1 e2 e3 e4
      e5 e6 =
    rw
      (lt→ltb _ _ h, e1, e3, e2, e4, ne→== (suc (length version)) 0 (λ e. omega (arith, e)), e5, e6)
      refl

pub conclude_done :
    (before d : HttpReqDecoder) (message : HttpMessage)
    → d.message ≡ message
    → message.content ≡ []
    → conclude before (ok (1, d)) ≡ ok (pos 0, some message, fresh d.max_header_size)
unfolding conclude
conclude_done before d message e c =
    ap
      (λ (m : HttpMessage). ok (
        pos 0,
        some (if ltb 0 (length m.content) then record m { content = d.body } else m),
        fresh d.max_header_size,
      ))
      e
    ∙ rw (ap (λ (t : List ℕ). length t) c) refl

pub feed_run :
    (size : ℕ) (text : List ℕ) (o : Outcome (ℕ × HttpReqDecoder))
    → length text ≤ size
    → parse_first_line (record (fresh size) { header_ = text }) ≡ o
    → feed (fresh size) text ≡ conclude (record (fresh size) { header_ = text }) o
unfolding feed
feed_run size text o h e =
    rw (le→leb _ _ h) (ap (conclude (record (fresh size) { header_ = text })) e)

abbrev pub request_line : Bool → List ℕ → List ℕ → ℕ → List ℕ
request_line post target version last = verb post ++ (target ++ b' ' ∷ (version ++ last ∷ []))

search_eol_first :
    (d : HttpReqDecoder) (line rest : List ℕ)
    → Avoids cr line
    → d.header_ ≡ line ++ cr ∷ lf ∷ rest
    → d.parse_pos ≡ 0
    → parse_first_line d ≡ first_line d (some (0 + length line), 0 + length line + 2)
unfolding parse_first_line
search_eol_first d line rest hs e p =
    ap (first_line d) (ap₂ (λ q h. search_eol q (drop q h)) p e ∙ search_eol_line 0 line rest hs)

-- The last character of the request line, which gives the version.
last_of_line :
    (post : Bool) (target version rest : List ℕ) (last : ℕ)
    → get_or
        (request_line post target version last ++ rest)
        (0 + length (request_line post target version last) - 1)
        0
      ≡ last
last_of_line post target version rest last =
    let front : List ℕ = verb post ++ (target ++ b' ' ∷ version) in
    let same : request_line post target version last ≡ front ++ last ∷ [] =
      ap (◌++◌ (verb post)) (sym (append_assoc target (b' ' ∷ version) (last ∷ [])))
      ∙ sym (append_assoc (verb post) (target ++ b' ' ∷ version) (last ∷ [])) in
    let size : 0 + length (request_line post target version last) - 1 ≡ length front =
      omega (arith, ap (λ (t : List ℕ). length t) same, length-append front (last ∷ [])) in
    ap₂ (λ t n. get_or (t ++ rest) n 0) same size
    ∙ ap (λ t. get_or t (length front) 0) (append_assoc front (last ∷ []) rest)
    ∙ get_or-append front last 0 rest

-- The decoder after the first line.
abbrev pub past_first : ℕ → Bool → List ℕ → ℕ → List ℕ → HttpRequest → HttpReqDecoder
past_first size post line last after request = record (fresh size) {
  message = opened new_message request (method_code post) (minor_of last);
  header_ = line ++ 0 ∷ lf ∷ after;
  line_start = 0 + length line + 2;
  parse_pos = 0 + length line + 2;
}

pub parse_first_line_run :
    (size : ℕ) (post : Bool) (target version : List ℕ) (last : ℕ) (after : List ℕ)
    (request : HttpRequest)
    → Avoids cr (request_line post target version last)
    → Avoids 0 (request_line post target version last)
    → Avoids b' ' target
    → parse_uri new_message.request target ≡ ok request
    → length (request_line post target version last ++ cr ∷ lf ∷ after) ≤ size
    → parse_first_line
        (record (fresh size) { header_ = request_line post target version last ++ cr ∷ lf ∷ after })
      ≡ parse_header
          (suc (length (request_line post target version last ++ 0 ∷ lf ∷ after)))
          (past_first size post (request_line post target version last) last after request)
unfolding search_char
parse_first_line_run size post target version last after request ac az ab er fits =
    let line : List ℕ = request_line post target version last in
    let d = record (fresh size) { header_ = line ++ cr ∷ lf ∷ after } in
    let text : List ℕ = target ++ b' ' ∷ (version ++ last ∷ []) in
    let line_end : ℕ = 0 + length line in
    search_eol_first d line after ac refl refl
    ∙ first_line_run d line_end (0 + length line + 2) (method_code post) (length (verb post)) last
        (line ++ 0 ∷ lf ∷ after) line target (version ++ last ∷ []) request
        (omega (arith, fits, length-append line (cr ∷ lf ∷ after)))
        (ap (λ n. set (line ++ cr ∷ lf ∷ after) n 0) {x = 0 + line_end} {y = length line}
            (omega arith)
          ∙ set-append line cr 0 (lf ∷ after))
        (c_string_line line (lf ∷ after) az)
        (ap read_method (append_assoc (verb post) text (0 ∷ lf ∷ after))
          ∙ (read_method-verb post (text ++ 0 ∷ lf ∷ after)).0)
        (ap (search_char b' ') (read_method-verb post text).1
          ∙ split_at_stop (λ c. c == b' ') target b' ' (version ++ last ∷ []) ab refl)
        er (last_of_line post target version (0 ∷ lf ∷ after) last)
