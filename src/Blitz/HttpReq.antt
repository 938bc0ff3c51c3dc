-- ===== src/Blitz/HttpReq.antt =====
-- libsrc/blitz2/src/http/http_common.cc, lines 225 to 368, and Feed of
-- libsrc/blitz2/include/blitz2/http/http_common.h: HttpReqDecoder.
pub mod Lines
pub mod FirstLine
pub mod Whole
pub mod Split
use mlsimgsearch.Prelude.{
  ltb, leb, ◌==◌, if◌then◌else◌, length, set, get_or, take, drop, Outcome, ◌>>=◌, ◌>>◌, must,
  unless, ok, err, fault, ℕ, zero, suc, ◌+◌, ◌-◌, Bool, true, false, not, ◌&&◌, ◌||◌, Option, none,
  some, List, [], ◌∷◌, ◌++◌, map,
}
use mlsimgsearch.Prelude.Int.{ℤ, pos, negsuc}
use mlsimgsearch.Blitz.Uri.{split_at, same_text, search_char, HttpRequest, parse_uri}

-- The parts of a request that are not in its URI. `method` is 1 for GET and 2 for POST.
pub record HttpMessage : Type 0 where
  pub request : HttpRequest
  pub method : ℕ
  pub version_minor : ℕ
  pub headers : List (List ℕ × List ℕ)
  pub content : List ℕ

abbrev pub new_message : HttpMessage
new_message = record {
  request = record { path = []; anchor = []; params = [] };
  method = 0;
  version_minor = 1;
  headers = [];
  content = [];
}

-- `header_` is what the buffer holds, up to `header_length_`; `body` and `body_read_` likewise.
-- `line_end_` is set by each search before it is read, so it is a result of the search here.
pub record HttpReqDecoder : Type 0 where
  pub message : HttpMessage
  pub status : ℕ
  pub header_ : List ℕ
  pub line_start : ℕ
  pub parse_pos : ℕ
  pub body : List ℕ
  pub body_length : ℕ
  pub max_header_size : ℕ

-- `kFirstLine`, `kHeader` and `kBody`.
abbrev pub k_first_line : ℕ
k_first_line = 1

abbrev pub k_header : ℕ
k_header = 2

abbrev pub k_body : ℕ
k_body = 3

-- The carriage return and the newline.
abbrev pub cr : ℕ
cr = 13

abbrev pub lf : ℕ
lf = 10

-- `SearchEOL` from `parse_pos_` on: `line_end_` if a line was found, and `parse_pos_`.
unfoldable pub search_eol : ℕ → List ℕ → Option ℕ × ℕ
search_eol p [] = (none, p)
search_eol p (c ∷ []) = if c == cr then (none, p) else (none, suc p)
search_eol p (c ∷ d ∷ s) =
    let later = search_eol (suc p) (d ∷ s) in
    let skipped = search_eol (suc (suc p)) s in
    if c == cr then if d == lf then (some p, suc (suc p)) else skipped else later

unfoldable pub reset : HttpReqDecoder → HttpReqDecoder
reset d = record d {
  message = new_message;
  status = k_first_line;
  header_ = [];
  line_start = 0;
  parse_pos = 0;
  body = [];
  body_length = 0;
}

abbrev pub to_lower : ℕ → ℕ
to_lower c = if leb b'A' c && leb c b'Z' then c + 32 else c

-- `strncasecmp` with a prefix in small letters and its length.
unfoldable pub has_prefix : List ℕ → List ℕ → Bool
has_prefix prefix text = same_text (map to_lower (take (length prefix) text)) prefix

unfoldable pub set_header : List ℕ → List ℕ → List (List ℕ × List ℕ) → List (List ℕ × List ℕ)
set_header name value [] = (name, value) ∷ []
set_header name value ((other, old) ∷ headers) =
    if same_text name other
    then (other, value) ∷ headers
    else (other, old) ∷ set_header name value headers

abbrev pub content_length_name : List ℕ
content_length_name =
    b'c' ∷ b'o' ∷ b'n' ∷ b't' ∷ b'e' ∷ b'n' ∷ b't' ∷ b'-' ∷ b'l' ∷ b'e' ∷ b'n' ∷ b'g' ∷ b't' ∷ b'h'
    ∷ []

abbrev pub skip_space : List ℕ → List ℕ
skip_space [] = []
skip_space (c ∷ s) = if c == b' ' then s else c ∷ s

unfoldable pub store_header : List ℕ → List ℕ → HttpMessage → HttpMessage
unfolding has_prefix set_header
store_header name value message =
    if has_prefix content_length_name name
    then message
    else record message { headers = set_header name (skip_space value) message.headers }

-- The name and the value of a line, `err 1` without a colon. The NUL that is written to the end of
-- the line, or one that was there before, ends the text.
unfoldable pub read_field : List ℕ → HttpMessage → Outcome HttpMessage
unfolding search_char store_header
read_field line message =
    let parts = search_char b':' (search_char 0 line).0 in
    if length parts.1 == 0 then err 1 else ok (store_header parts.0 (drop 1 parts.1) message)

unfoldable pub read_body : HttpReqDecoder → Outcome (ℕ × HttpReqDecoder)
read_body d =
    if length d.body == d.body_length
    then ok (1, d)
    else if ltb d.body_length (length d.body)
    then err 1
    else ok (0, d)

-- The end of the header. More data than the body is long would overrun its buffer.
unfoldable pub end_header : HttpReqDecoder → Outcome (ℕ × HttpReqDecoder)
unfolding read_body
end_header d =
    let size = length d.message.content in
    let left = drop d.parse_pos d.header_ in
    let d' = record d { status = k_body } in
    if ltb 0 size
    then must (leb (length left) size) >> read_body (record d' { body = left; body_length = size })
    else ok (1, d')

-- A round of the loop of `ParseHeader` after the search; `go` is the next round.
unfoldable pub header_round :
    (HttpReqDecoder → Outcome (ℕ × HttpReqDecoder))
    → HttpReqDecoder
    → Option ℕ × ℕ
    → Outcome (ℕ × HttpReqDecoder)
unfolding end_header
header_round go d (none, next) = ok (0, record d { parse_pos = next })
header_round go d (some line_end, next) =
    let line = take (line_end - d.line_start) (drop d.line_start d.header_) in
    let d' = record d { line_start = next; parse_pos = next } in
    if length line == 0
    then end_header d'
    else (read_field line d.message >>= λ message. go (record d' { message = message }))

-- `ParseHeader`, with fuel for its rounds; `err 0` means that it ran out, `err 1` is -1.
unfoldable pub parse_header : ℕ → HttpReqDecoder → Outcome (ℕ × HttpReqDecoder)
unfolding header_round
parse_header zero d = err 0
parse_header (suc fuel) d =
    header_round (parse_header fuel) d (search_eol d.parse_pos (drop d.parse_pos d.header_))

-- A text up to its NUL; without one the code reads memory that was never set.
abbrev pub c_string : List ℕ → Outcome (List ℕ)
c_string [] = fault
c_string (c ∷ s) = if c == 0 then ok [] else (c_string s >>= λ rest. ok (c ∷ rest))

-- `strncasecmp` of a text with the first part of a prefix that is in small letters: the characters
-- up to one that differs, such as a NUL, are read.
unfoldable pub begins_with : List ℕ → List ℕ → Outcome Bool
begins_with [] text = ok true
begins_with (p ∷ prefix) [] = fault
begins_with (p ∷ prefix) (c ∷ text) =
    let further = begins_with prefix text in if to_lower c == p then further else ok false

-- The method, and the place where the URI starts.
unfoldable pub read_method : List ℕ → Outcome (ℕ × ℕ)
unfolding begins_with
read_method text = do
  get ← begins_with (b'g' ∷ b'e' ∷ b't' ∷ b' ' ∷ []) text
  let post = begins_with (b'p' ∷ b'o' ∷ b's' ∷ b't' ∷ b' ' ∷ []) text
  if get then ok (1, 4) else (post >>= λ p. if p then ok (2, 5) else err 1)

-- The NUL is written at `line_end_` from the start of the line, not of the buffer.
unfoldable pub first_line : HttpReqDecoder → Option ℕ × ℕ → Outcome (ℕ × HttpReqDecoder)
unfolding read_method search_char
first_line d (none, next) = ok (0, record d { parse_pos = next })
first_line d (some line_end, next) = do
  must (ltb (d.line_start + line_end) d.max_header_size)
  let header_ = set d.header_ (d.line_start + line_end) 0
  (method, uri_start) ← read_method (drop d.line_start header_)
  line ← c_string (drop d.line_start header_)
  let parts = search_char b' ' (drop uri_start line)
  unless (not (length parts.1 == 0)) 1
  request ← parse_uri d.message.request parts.0
  let minor = if get_or header_ (line_end - 1) 0 == b'0' then 0 else 1
  let message = record d.message { request = request; method = method; version_minor = minor }
  parse_header (suc (length header_))
      (record d { message = message; header_ = header_; line_start = next; parse_pos = next })

unfoldable pub parse_first_line : HttpReqDecoder → Outcome (ℕ × HttpReqDecoder)
unfolding first_line search_eol
parse_first_line d = first_line d (search_eol d.parse_pos (drop d.parse_pos d.header_))

-- `GetBuffer`: where the next read goes in the buffer of the header or of the body, and how much
-- it may be. In the body the code takes what is still to be read for what was read.
unfoldable pub get_buffer : HttpReqDecoder → Outcome (ℕ × ℕ)
get_buffer d =
    if (d.status == k_first_line) || (d.status == k_header)
    then unless (ltb (length d.header_) d.max_header_size) 1
      >> ok (length d.header_, d.max_header_size - length d.header_)
    else if d.status == k_body
    then ok (d.body_length - length d.body, d.body_length - length d.body)
    else err 1

-- What `Feed` does with the result: its own result, the request that it reports, the decoder.
unfoldable pub conclude :
    HttpReqDecoder
    → Outcome (ℕ × HttpReqDecoder)
    → Outcome (ℤ × Option HttpMessage × HttpReqDecoder)
unfolding reset
conclude before fault = fault
conclude before (err code) = ok (negsuc 0, none, reset before)
conclude before (ok (zero, d)) = ok (pos 0, none, d)
conclude before (ok (suc n, d)) =
    let message =
      if ltb 0 (length d.message.content)
      then record d.message { content = d.body }
      else d.message in
    ok (pos 0, some message, reset d)

-- `Feed` of what was read into the buffer that `GetBuffer` gave.
unfoldable pub feed : HttpReqDecoder → List ℕ → Outcome (ℤ × Option HttpMessage × HttpReqDecoder)
unfolding conclude parse_first_line
feed d read =
    let d1 = record d { header_ = d.header_ ++ read } in
    let d2 = record d { body = d.body ++ read } in
    let room = must (leb (length d1.header_) d.max_header_size) in
    if d.status == k_first_line
    then room >> conclude d1 (parse_first_line d1)
    else if d.status == k_header
    then room >> conclude d1 (parse_header (suc (length d1.header_)) d1)
    else if d.status == k_body
    then conclude d2 (read_body d2)
    else ok (negsuc 0, none, reset d)
