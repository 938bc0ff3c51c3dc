-- ===== src/Blitz/HttpChunks.antt =====
-- libsrc/blitz2/src/http/http_common.cc, lines 622 to 724: the state of HttpRespDecoder, and how it
-- reads a body in chunks. Its SearchEOL is that of HttpReqDecoder.
use mlsimgsearch.Prelude.{
  ltb, leb, ◌==◌, if◌then◌else◌, length, get_elem?, take, drop, Outcome, ◌>>=◌, or_fault, ok, err,
  fault, ℕ, zero, suc, ◌+◌, ◌-◌, ◌*◌, ◌%◌, min, ◌⊎◌, inl, inr, Bool, true, false, ◌&&◌, ◌||◌,
  Option, none, some, List, [], ◌∷◌, ◌++◌,
}
use mlsimgsearch.Prelude.Int.{ℤ, pos, negsuc}
use mlsimgsearch.Search.Searcher.{eqb_ℤ}
use mlsimgsearch.Blitz.HttpReq.{search_eol}
use mlsimgsearch.Blitz.HttpResponse.{HttpResponse, new_response}

-- `kFirstLine` to `kChunkTrailer`.
abbrev pub k_first_line : ℕ
k_first_line = 1

abbrev pub k_header : ℕ
k_header = 2

abbrev pub k_body : ℕ
k_body = 3

abbrev pub k_chunk_size : ℕ
k_chunk_size = 4

abbrev pub k_chunk_data : ℕ
k_chunk_data = 5

abbrev pub k_chunk_trailer : ℕ
k_chunk_trailer = 6

-- `buf_` is what the buffer holds, up to `buf_length_`; `body` are the first `body_read_` bytes of
-- `body_`, if it is not NULL.
pub record HttpRespDecoder : Type 0 where
  pub response : HttpResponse
  pub status : ℕ
  pub body : Option (List ℕ)
  pub body_length : ℕ
  pub buf_capacity : ℕ
  pub buf_ : List ℕ
  pub line_start : ℕ
  pub parse_pos : ℕ
  pub chunk_size : ℤ
  pub chunk_left : ℤ

abbrev pub none_read : Option (List ℕ) → Option (List ℕ)
none_read none = none
none_read (some body) = some []

-- `Reset`, and a new response.
unfoldable pub reset : HttpRespDecoder → HttpRespDecoder
reset d = record {
  response = new_response;
  status = k_first_line;
  body = none_read d.body;
  body_length = 0;
  buf_capacity = d.buf_capacity;
  buf_ = [];
  line_start = 0;
  parse_pos = 0;
  chunk_size = pos 0;
  chunk_left = pos 0;
}

abbrev pub is_blank : ℕ → Bool
is_blank c = c == b' ' || (leb 9 c && leb c 13)

abbrev pub is_digit : ℕ → Bool
is_digit c = leb b'0' c && leb c b'9'

-- The digits in front of another character. Without one the code reads what was never set.
unfoldable pub digits_value : ℕ → List ℕ → Outcome ℕ
digits_value n [] = fault
digits_value n (c ∷ s) =
    let more = digits_value (10 * n + (c - b'0')) s in if is_digit c then more else ok n

-- A number that an `int` cannot hold is not defined.
abbrev pub as_int : Outcome ℕ → Outcome ℤ
as_int fault = fault
as_int (err code) = err code
as_int (ok n) = if ltb n 0x8000_0000 then ok (pos n) else fault

abbrev pub as_negative : Outcome ℕ → Outcome ℤ
as_negative fault = fault
as_negative (err code) = err code
as_negative (ok n) =
    if n == 0 then ok (pos 0) else if leb n 0x8000_0000 then ok (negsuc (n - 1)) else fault

-- `atoi`
unfoldable pub atoi : List ℕ → Outcome ℤ
unfolding digits_value
atoi [] = fault
atoi (c ∷ s) =
    let later = atoi s in
    if is_blank c
    then later
    else if c == b'-'
    then as_negative (digits_value 0 s)
    else if c == b'+'
    then as_int (digits_value 0 s)
    else as_int (digits_value 0 (c ∷ s))

-- The value of a hexadecimal digit.
unfoldable pub hex_digit : ℕ → Option ℕ
hex_digit c =
    if is_digit c
    then some (c - b'0')
    else if leb b'a' c && leb c b'f'
    then some (c - b'a' + 10)
    else if leb b'A' c && leb c b'F'
    then some (c - b'A' + 10)
    else none

unfoldable pub hex_value : ℕ → List ℕ → Outcome ℕ
unfolding hex_digit
hex_value n [] = fault
hex_value n (c ∷ s) = elim (hex_digit c) [ some d ↦ hex_value (16 * n + d) s | none ↦ ok n ]

abbrev is_some : Option ℕ → Bool
is_some none = false
is_some (some n) = true

-- The number behind a sign. A 0 with an x and a digit behind it is passed over.
unfoldable pub hex_number : List ℕ → Outcome ℕ
unfolding hex_value
hex_number [] = fault
hex_number (c ∷ []) = hex_value 0 (c ∷ [])
hex_number (c ∷ x ∷ []) = hex_value 0 (c ∷ x ∷ [])
hex_number (c ∷ x ∷ d ∷ s) =
    if c == b'0' && (x == b'x' || x == b'X') && is_some (hex_digit d)
    then hex_value 0 (d ∷ s)
    else hex_value 0 (c ∷ x ∷ d ∷ s)

-- The `int` of a `long`.
abbrev pub int_of_pattern : ℕ → ℤ
int_of_pattern n = if ltb n 0x8000_0000 then pos n else negsuc (0xFFFF_FFFF - n)

-- A number that a `long` cannot hold becomes the greatest or the least one.
abbrev pub chunk_int : Bool → Outcome ℕ → Outcome ℤ
chunk_int negative fault = fault
chunk_int negative (err code) = err code
chunk_int false (ok n) = ok (int_of_pattern (min n 0x7FFF_FFFF_FFFF_FFFF % 0x1_0000_0000))
chunk_int true (ok n) =
    ok (int_of_pattern ((0x8000_0000_0000_0000 - min n 0x8000_0000_0000_0000) % 0x1_0000_0000))

-- `strtol` to the base 16, as an `int`.
unfoldable pub strtol16 : List ℕ → Outcome ℤ
unfolding hex_number
strtol16 [] = fault
strtol16 (c ∷ s) =
    let later = strtol16 s in
    if is_blank c
    then later
    else if c == b'-'
    then chunk_int true (hex_number s)
    else if c == b'+'
    then chunk_int false (hex_number s)
    else chunk_int false (hex_number (c ∷ s))

abbrev pub or_none : Option (List ℕ) → List ℕ
or_none none = []
or_none (some body) = body

-- `AppendBody`
unfoldable pub append_body : List ℕ → HttpRespDecoder → HttpRespDecoder
append_body bytes d = elim d.body [
  | none ↦ record d { body = some bytes; body_length = length bytes * 4 }
  | some body ↦
      let larger = d.body_length + length bytes + 4096 in
      record d {
        body = some (body ++ bytes);
        body_length =
            if ltb d.body_length (length body + length bytes) then larger else d.body_length;
      }
]

-- What a step of the reading of chunks comes to: what it returns, or the size of the next chunk.
abbrev pub ChunkStep : Type 0
ChunkStep = Outcome ((ℕ ⊎ Unit {0}) × HttpRespDecoder)

-- The last character of the buffer, in front of which the buffer is emptied. An empty buffer is
-- read before its start.
unfoldable pub keep_last : HttpRespDecoder → ChunkStep
keep_last d = do
  last ← or_fault (get_elem? d.buf_ (length d.buf_ - 1))
  ok (inl 0, record d { buf_ = last ∷ []; parse_pos = 0; line_start = 0 })

-- `ReadChunkTrailer` up to its call of `ReadChunkSize`.
unfoldable pub read_chunk_trailer : HttpRespDecoder → ChunkStep
unfolding keep_last
read_chunk_trailer d =
    let left = length d.buf_ - d.parse_pos in
    let next = d.parse_pos + 2 in
    let last_chunk : ChunkStep = if ltb 2 left then err 1 else ok (inl 1, d) in
    if leb 2 left
    then (if eqb_ℤ d.chunk_size (pos 0)
        then last_chunk
        else ok (inr tt, record d { parse_pos = next; line_start = next; status = k_chunk_size }))
    else keep_last d

-- `ReadChunkData` up to the call of `ReadChunkSize`. A negative number of bytes cannot be copied.
unfoldable pub chunk_data : HttpRespDecoder → ℤ → ChunkStep
unfolding append_body read_chunk_trailer
chunk_data d (negsuc n) = fault
chunk_data d (pos wanted) =
    let left = drop d.parse_pos d.buf_ in
    let all = record (append_body (take wanted left) d) {
      parse_pos = d.parse_pos + wanted;
      chunk_left = pos 0;
      status = k_chunk_trailer;
    } in
    let part = record (append_body left d) {
      chunk_left = pos (wanted - length left);
      parse_pos = 0;
      buf_ = [];
      line_start = 0;
    } in
    if leb wanted (length left) then read_chunk_trailer all else ok (inl 0, part)

unfoldable pub read_chunk_data : HttpRespDecoder → ChunkStep
unfolding chunk_data
read_chunk_data d = chunk_data d d.chunk_left

-- `ReadChunkSize` behind its search, up to the next call of itself.
unfoldable pub chunk_size_round : HttpRespDecoder → Option ℕ × ℕ → ChunkStep
unfolding strtol16 read_chunk_data
chunk_size_round d (none, next) = ok (inl 0, record d { parse_pos = next })
chunk_size_round d (some line_end, next) = do
  size ← strtol16 (drop d.line_start d.buf_)
  read_chunk_data
      (record d { parse_pos = next; chunk_size = size; chunk_left = size; status = k_chunk_data })

-- The rounds, with fuel: each passes over the two characters of a line end, so that one more than
-- the characters of the buffer is enough. `err 0` means that the fuel ran out.
unfoldable pub chunks :
    (HttpRespDecoder → Outcome (ℕ × HttpRespDecoder)) → ChunkStep → Outcome (ℕ × HttpRespDecoder)
chunks go fault = fault
chunks go (err code) = err code
chunks go (ok (inl n, d)) = ok (n, d)
chunks go (ok (inr tt, d)) = go d

unfoldable pub read_chunk_size : ℕ → HttpRespDecoder → Outcome (ℕ × HttpRespDecoder)
unfolding chunks chunk_size_round
read_chunk_size zero d = err 0
read_chunk_size (suc fuel) d =
    chunks (read_chunk_size fuel)
      (chunk_size_round d (search_eol d.parse_pos (drop d.parse_pos d.buf_)))
