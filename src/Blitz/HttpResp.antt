-- ===== src/Blitz/HttpResp.antt =====
-- libsrc/blitz2/src/http/http_common.cc, lines 467 to 621: Feed of HttpRespDecoder, and how it reads
-- the header. `GetBuffer` is called before each `Feed`, so there are a buffer and a response.
pub mod Lines
pub mod Headers
pub mod FirstLine
pub mod Whole
use mlsimgsearch.Prelude.{
  ltb, leb, ◌==◌, if◌then◌else◌, length, set, get_or, take, drop, Outcome, ◌>>=◌, ◌>>◌, must,
  unless, ok, err, fault, ℕ, zero, suc, ◌+◌, ◌-◌, Bool, false, ◌||◌, Option, none, some, List, [],
  ◌∷◌, ◌++◌,
}
use mlsimgsearch.Prelude.Int.{ℤ, pos, negsuc}
use mlsimgsearch.Blitz.Uri.{same_text, search_char}
use mlsimgsearch.Blitz.HttpReq.{search_eol, has_prefix, set_header, skip_space}
use mlsimgsearch.Blitz.Memcached.{codes}
use mlsimgsearch.Blitz.HttpResponse.{HttpResponse}
use mlsimgsearch.Blitz.HttpChunks.{
  HttpRespDecoder, k_first_line, k_header, k_body, k_chunk_size, k_chunk_data, k_chunk_trailer,
  reset, atoi, or_none, read_chunk_data, chunks, read_chunk_size,
}

-- `GetHeader`
unfoldable pub get_header : List ℕ → List (List ℕ × List ℕ) → Option (List ℕ)
get_header name [] = none
get_header name ((other, value) ∷ headers) =
    if same_text name other then some value else get_header name headers

-- `ReadBody`
unfoldable pub read_body : HttpRespDecoder → List ℕ → Outcome (ℕ × HttpRespDecoder)
read_body d body =
    if length body == d.body_length
    then ok (1, record d { body = some body })
    else if ltb d.body_length (length body)
    then err 1
    else ok (0, record d { body = some body })

abbrev pub or_missing : Option (List ℕ) → Outcome ℤ
or_missing none = fault
or_missing (some text) = atoi (text ++ 0 ∷ [])

-- The end of the header of a message that is not in chunks, by its length. More data than the body
-- is long fails an assertion.
unfoldable pub with_length : HttpRespDecoder → ℤ → Outcome (ℕ × HttpRespDecoder)
unfolding read_body
with_length d (negsuc n) = ok (1, d)
with_length d (pos zero) = ok (1, d)
with_length d (pos (suc n)) = do
  let left = drop d.parse_pos d.buf_
  must (leb (length left) (suc n))
  read_body (record d { body_length = suc n; status = k_body }) left

-- The fuel for the characters of the buffer.
abbrev pub enough : HttpRespDecoder → ℕ
enough d = suc (length d.buf_)

abbrev pub is_chunked : Option (List ℕ) → Bool
is_chunked none = false
is_chunked (some value) = same_text value (codes "chunked")

-- The end of the header.
unfoldable pub end_header : HttpRespDecoder → Outcome (ℕ × HttpRespDecoder)
unfolding get_header read_chunk_size with_length atoi
end_header d =
    let chunked = is_chunked (get_header (codes "Transfer-Encoding") d.response.headers) in
    let by_length =
      or_missing (get_header (codes "Content-Length") d.response.headers) >>= with_length d in
    if chunked then read_chunk_size (enough d) (record d { status = k_chunk_size }) else by_length

-- A line of the header. The NUL that is written to the end of the line, or one that was there
-- before, ends the text.
unfoldable pub read_field : List ℕ → HttpResponse → Outcome HttpResponse
unfolding search_char set_header
read_field line response =
    let parts = search_char b':' (search_char 0 line).0 in
    if length parts.1 == 0
    then err 1
    else ok (record response {
      headers = set_header parts.0 (skip_space (drop 1 parts.1)) response.headers;
    })

-- A round of the loop of `ParseHeader` after the search; `go` is the next round.
unfoldable pub header_round :
    (HttpRespDecoder → Outcome (ℕ × HttpRespDecoder))
    → HttpRespDecoder
    → Option ℕ × ℕ
    → Outcome (ℕ × HttpRespDecoder)
unfolding end_header read_field
header_round go d (none, next) = ok (0, record d { parse_pos = next })
header_round go d (some line_end, next) =
    let line = take (line_end - d.line_start) (drop d.line_start d.buf_) in
    let d' = record d { line_start = next; parse_pos = next } in
    if length line == 0
    then end_header d'
    else (read_field line d.response >>= λ response. go (record d' { response = response }))

-- `ParseHeader`, with fuel for its rounds; `err 0` means that it ran out, `err 1` is -1.
unfoldable pub parse_header : ℕ → HttpRespDecoder → Outcome (ℕ × HttpRespDecoder)
unfolding header_round
parse_header zero d = err 0
parse_header (suc fuel) d =
    header_round (parse_header fuel) d (search_eol d.parse_pos (drop d.parse_pos d.buf_))

-- The version that the character behind `HTTP/1.` tells.
abbrev pub minor_of : ℕ → Outcome ℕ
minor_of c = if c == b'1' then ok 1 else if c == b'0' then ok 0 else err 1

-- `ParseFirstLine` behind its search. The NUL is written at `line_end_` from the start of the line,
-- not of the buffer; `atoi` reads on behind it.
unfoldable pub first_line : HttpRespDecoder → Option ℕ × ℕ → Outcome (ℕ × HttpRespDecoder)
unfolding has_prefix parse_header
first_line d (none, next) = ok (0, record d { parse_pos = next })
first_line d (some line_end, next) = do
  must (ltb (d.line_start + line_end) d.buf_capacity)
  let buf_ = set d.buf_ (d.line_start + line_end) 0
  let line = drop d.line_start buf_
  unless (has_prefix (codes "http/1.") line) 1
  minor ← minor_of (get_or line 7 0)
  code ← atoi (drop 9 line)
  parse_header (suc (length buf_)) (record d {
    response = record d.response { version_minor = minor; code = code };
    buf_ = buf_;
    line_start = next;
    parse_pos = next;
  })

unfoldable pub parse_first_line : HttpRespDecoder → Outcome (ℕ × HttpRespDecoder)
unfolding first_line
parse_first_line d = first_line d (search_eol d.parse_pos (drop d.parse_pos d.buf_))

-- What `Feed` does with the result: its own result, the response that it reports, the decoder. A
-- body that has been read is given to the response.
unfoldable pub conclude :
    HttpRespDecoder
    → Outcome (ℕ × HttpRespDecoder)
    → Outcome (ℤ × Option HttpResponse × HttpRespDecoder)
unfolding reset
conclude before fault = fault
conclude before (err code) = ok (negsuc 0, none, reset before)
conclude before (ok (zero, d)) = ok (pos 0, none, d)
conclude before (ok (suc n, d)) =
    let body = or_none d.body in
    if ltb 0 (length body)
    then ok (pos 0, some (record d.response { content = body }), reset (record d { body = none }))
    else ok (pos 0, some d.response, reset d)

-- `Feed` of what was read into the buffer that `GetBuffer` gave.
unfoldable pub feed : HttpRespDecoder → List ℕ → Outcome (ℤ × Option HttpResponse × HttpRespDecoder)
unfolding conclude parse_first_line
feed d read =
    let d1 = record d { buf_ = d.buf_ ++ read } in
    let body = or_none d.body ++ read in
    let chunk = read_chunk_data d1 in
    if d.status == k_body
    then must (leb (length body) d.body_length) >> conclude d (read_body d body)
    else must (leb (length d1.buf_) d.buf_capacity)
      >> conclude d1 (
          if d.status == k_first_line
          then parse_first_line d1
          else if d.status == k_header
          then parse_header (enough d1) d1
          else if d.status == k_chunk_size
          then read_chunk_size (enough d1) d1
          else if d.status == k_chunk_data || d.status == k_chunk_trailer
          then chunks (read_chunk_size (enough d1)) chunk
          else err 1)
