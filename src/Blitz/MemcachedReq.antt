-- ===== src/Blitz/MemcachedReq.antt =====
-- libsrc/blitz2/include/blitz2/memcached/memcached_req.h: MemcachedReqDecoder. `recved_data_len_` is
-- `buffer_data_len_` throughout, and `data_offset_` is not read. `lexical_cast` is a parameter.
pub mod Pieces
pub mod Split
use mlsimgsearch.Prelude.{
  ltb, leb, ◌==◌, if◌then◌else◌, length, get_or, take, drop, Outcome, ok, fault, ℕ, ◌+◌, ◌-◌, Bool,
  true, false, not, ◌||◌, Option, none, some, List, [], ◌∷◌, ◌++◌,
}
use mlsimgsearch.Blitz.Memcached.{
  InitParam, cr, search_eol, tokenizer_command, begins, Fed, done, refused, thrown, out_of_bounds,
  u32, byte_at, report_then,
}

-- `noreply_` is not set when the line has no sixth token.
pub record MemcachedSetReq : Type 0 where
  pub key : List ℕ
  pub flags : ℕ
  pub exptime : ℕ
  pub bytes : ℕ
  pub total : ℕ
  pub noreply : Option Bool

-- A request that is reported: the key and the line of a get, and a set with the bytes from its
-- value on.
pub data MemcachedReq : Type 0 where
  get_req : List ℕ → List ℕ → MemcachedReq
  set_req : MemcachedSetReq → List ℕ → MemcachedReq

-- `data_` are the first `buffer_data_len_` bytes of the buffer.
pub record MemcachedReqDecoder : Type 0 where
  pub capacity : ℕ
  pub data_ : List ℕ
  pub parsed_data_len : ℕ
  pub req_total_len : ℕ
  pub first_line_len : ℕ
  pub msg : Option MemcachedSetReq

-- `Init`, and `Reset` once the buffer has been given away.
unfoldable pub reset : InitParam → MemcachedReqDecoder
reset p = record {
  capacity = p.buf_start_len;
  data_ = [];
  parsed_data_len = 0;
  req_total_len = 0;
  first_line_len = 0;
  msg = none;
}

-- `GetBuffer`: how many bytes there is room for.
unfoldable pub get_buffer : MemcachedReqDecoder → ℕ
get_buffer d = d.capacity - length d.data_

abbrev pub k_max_token_count : ℕ
k_max_token_count = 8

-- What `Feed` returns, and the decoder.
abbrev pub Result : Type 0
Result = Fed MemcachedReq × MemcachedReqDecoder

-- `ProcessSet` of the request that `msg_` is.
unfoldable pub process_set : InitParam → MemcachedReqDecoder → MemcachedSetReq → Result
unfolding reset
process_set p d req =
    let room = if ltb d.capacity d.req_total_len then d.req_total_len else d.capacity in
    if length d.data_ == d.req_total_len
    then (done (some (set_req req (drop d.first_line_len d.data_))), reset p)
    else if ltb (length d.data_) d.req_total_len
    then (done none, record d { capacity = room })
    else (refused, d)

-- `ProcessGetFirstLine`
unfoldable pub process_get_first_line : InitParam → MemcachedReqDecoder → List (List ℕ) → Result
unfolding reset
process_get_first_line p d tokens =
    let line = take d.first_line_len d.data_ in
    let count = length tokens in
    let reported : Result = (done (some (get_req (get_or tokens 1 []) line)), reset p) in
    if not (d.first_line_len == length d.data_)
    then (refused, d)
    else if count == 2 || count == 3
    then reported
    else (refused, d)

abbrev pub noreply_text : List ℕ
noreply_text = b'n' ∷ b'o' ∷ b'r' ∷ b'e' ∷ b'p' ∷ b'l' ∷ b'y' ∷ []

-- The sixth token: whether the request is refused, and what `noreply_` is set to.
unfoldable pub read_noreply : List (List ℕ) → Bool × Option Bool
unfolding begins
read_noreply tokens =
    if length tokens == 6
    then (if begins noreply_text (get_or tokens 5 []) then (true, none) else (false, some true))
    else (false, none)

-- `Feed` without a line end; `end` is the byte that is compared with CR.
unfoldable pub no_line_end : MemcachedReqDecoder → Option ℕ → Result
no_line_end d none = (out_of_bounds, d)
no_line_end d (some end_) =
    let parsed = if end_ == cr then length d.data_ - 1 else length d.data_ in
    let d' : MemcachedReqDecoder = record d { parsed_data_len = parsed } in
    if leb d.capacity (length d.data_) then (refused, d') else (done none, d')

module _ (lexical_cast : List ℕ → Option ℕ) (p : InitParam) where
  -- `ProcessSetFirstLine` behind the number of bytes and the check of the sixth token.
  unfoldable pub make_set_req :
      MemcachedReqDecoder → List (List ℕ) → ℕ → Option Bool → Option ℕ → Option ℕ → Result
  unfolding process_set
  make_set_req d tokens bytes noreply none exptime = (thrown, d)
  make_set_req d tokens bytes noreply (some flags) none = (thrown, d)
  make_set_req d tokens bytes noreply (some flags) (some exptime) =
      let req : MemcachedSetReq = record {
        key = get_or tokens 1 [];
        flags = flags;
        exptime = exptime;
        bytes = bytes;
        total = d.req_total_len;
        noreply = noreply;
      } in
      process_set p (record d { msg = some req }) req

  unfoldable pub with_bytes : MemcachedReqDecoder → List (List ℕ) → Option ℕ → Result
  unfolding make_set_req read_noreply
  with_bytes d tokens none = (thrown, d)
  with_bytes d tokens (some bytes) =
      let d' : MemcachedReqDecoder = record d {
        req_total_len = u32 (bytes + 2 + d.first_line_len);
      } in
      let made =
        make_set_req d' tokens bytes (read_noreply tokens).1 (lexical_cast (get_or tokens 2 []))
          (lexical_cast (get_or tokens 3 [])) in
      if ltb p.buf_max_len d'.req_total_len
      then (refused, d')
      else if (read_noreply tokens).0
      then (refused, d')
      else made

  -- `ProcessSetFirstLine`
  unfoldable pub process_set_first_line : MemcachedReqDecoder → List (List ℕ) → Result
  unfolding with_bytes
  process_set_first_line d tokens =
      let count = length tokens in
      if count == 5 || count == 6
      then with_bytes d tokens (lexical_cast (get_or tokens 4 []))
      else (refused, d)

  -- `ProcessFirstLine` by the tokens. Too many of them count as 2 ^ 32 - 1, which no request has.
  unfoldable pub by_command : MemcachedReqDecoder → Option (List (List ℕ)) → Result
  unfolding process_get_first_line process_set_first_line begins
  by_command d none = (refused, d)
  by_command d (some tokens) =
      let command = get_or tokens 0 [] in
      if begins (b'g' ∷ b'e' ∷ b't' ∷ []) command
      then process_get_first_line p d tokens
      else if begins (b's' ∷ b'e' ∷ b't' ∷ []) command
      then process_set_first_line d tokens
      else (refused, d)

  -- `ProcessFirstLine`. The line ends with CR LF, so no byte behind it is read.
  unfoldable pub process_first_line : MemcachedReqDecoder → Result
  unfolding by_command
  process_first_line d =
      by_command d (tokenizer_command 0 (take d.first_line_len d.data_) k_max_token_count)

  -- `Feed` while there is no request: `n` bytes are new.
  unfoldable pub feed_line : ℕ → ℕ → MemcachedReqDecoder → Option ℕ → Result
  unfolding process_first_line no_line_end
  feed_line behind n d none =
      no_line_end d (byte_at behind d.capacity d.data_ (d.parsed_data_len + n))
  feed_line behind n d (some eol) =
      process_first_line (record d { first_line_len = d.parsed_data_len + eol + 2 })

  -- `Feed` by `msg_`.
  unfoldable pub feed_by : ℕ → ℕ → MemcachedReqDecoder → Option MemcachedSetReq → Result
  unfolding feed_line process_set
  feed_by behind n d none = feed_line behind n d (search_eol (drop d.parsed_data_len d.data_))
  feed_by behind n d (some req) = process_set p d req

  -- `Feed` of bytes that were read to the place that `GetBuffer` gave. Behind the bytes in the
  -- buffer stands `behind`.
  unfoldable pub feed : ℕ → MemcachedReqDecoder → List ℕ → Result
  unfolding feed_by
  feed behind d [] = (done none, d)
  feed behind d (c ∷ piece) =
      feed_by behind (length (c ∷ piece)) (record d { data_ = d.data_ ++ c ∷ piece }) d.msg

  -- Pieces that arrive one after the other, each read to the place that `GetBuffer` gives, until
  -- one is not taken: the requests, and the decoder.
  unfoldable pub feed_all :
      ℕ → MemcachedReqDecoder → List (List ℕ) → Outcome (List MemcachedReq × MemcachedReqDecoder)
  unfolding feed get_buffer
  feed_all behind d [] = ok ([], d)
  feed_all behind d (piece ∷ pieces) =
      let others = feed_all behind (feed behind d piece).1 pieces in
      if ltb (get_buffer d) (length piece)
      then fault
      else report_then (feed behind d piece).0 others
