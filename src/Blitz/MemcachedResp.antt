-- ===== src/Blitz/MemcachedResp.antt =====
-- libsrc/blitz2/include/blitz2/memcached/memcached_resp.h: MemcachedRespDecoder. `lexical_cast` is a
-- parameter. `data_offset_` is not read.
pub mod Pieces
use mlsimgsearch.Prelude.{
  ltb, leb, ◌==◌, if◌then◌else◌, length, get_or, take, drop, Outcome, ok, fault, ℕ, suc, ◌+◌, ◌-◌,
  Option, none, some, List, [], ◌∷◌, ◌++◌,
}
use mlsimgsearch.Blitz.Memcached.{
  InitParam, cr, codes, search_eol, tokenizer_command, begins, Fed, done, refused, thrown,
  out_of_bounds, u32, byte_at, report_then,
}

-- `MemcachedResp::EType`, of the replies that are reported.
pub data EType : Type 0 where
  type_busy : EType
  type_badclass : EType
  type_client_error : EType
  type_deleted : EType
  type_end : EType
  type_error : EType
  type_exists : EType
  type_nospare : EType
  type_notfull : EType
  type_not_found : EType
  type_not_stored : EType
  type_ok : EType
  type_same : EType
  type_stored : EType
  type_server_error : EType
  type_touched : EType
  type_unsafe : EType
  type_value : EType
  type_version : EType

-- A reply, and its message: the stretches of buffers that it is made of.
pub record MemcachedResp : Type 0 where
  pub type : EType
  pub msg : List (List ℕ)

-- `data_` are the first `buffer_data_len_` bytes of the buffer.
pub record MemcachedRespDecoder : Type 0 where
  pub capacity : ℕ
  pub data_ : List ℕ
  pub recved_data_len : ℕ
  pub parsed_data_len : ℕ
  pub req_total_len : ℕ
  pub first_line_len : ℕ
  pub msg : Option MemcachedResp

-- `Init`, and `Reset` once the buffer has been given away.
unfoldable pub reset : InitParam → MemcachedRespDecoder
reset p = record {
  capacity = p.buf_start_len;
  data_ = [];
  recved_data_len = 0;
  parsed_data_len = 0;
  req_total_len = 0;
  first_line_len = 0;
  msg = none;
}

-- `GetBuffer`: how many bytes there is room for.
unfoldable pub get_buffer : MemcachedRespDecoder → ℕ
get_buffer d = d.capacity - length d.data_

abbrev pub k_max_token_count : ℕ
k_max_token_count = 7

abbrev pub Result : Type 0
Result = Fed MemcachedResp × MemcachedRespDecoder

-- The types by their names, in the order in which the code compares them. VALUE is not among those
-- with a single line, and stands behind ERROR.
abbrev pub single_lines : List (List ℕ × EType)
single_lines =
    (codes "STORED", type_stored)
    ∷ (codes "END", type_end)
    ∷ (codes "SERVER_ERROR", type_server_error)
    ∷ (codes "CLIENT_ERROR", type_client_error)
    ∷ (codes "SAME", type_same)
    ∷ (codes "NOT_STORED", type_not_stored)
    ∷ (codes "NOSPARE", type_nospare)
    ∷ (codes "NOTFULL", type_notfull)
    ∷ (codes "EXISTS", type_exists)
    ∷ (codes "NOT_FOUND", type_not_found)
    ∷ (codes "DELETED", type_deleted)
    ∷ (codes "TOUCHED", type_touched)
    ∷ (codes "BADCLASS", type_badclass)
    ∷ (codes "BUSY", type_busy)
    ∷ (codes "OK", type_ok)
    ∷ (codes "UNSAFE", type_unsafe)
    ∷ (codes "VERSION", type_version)
    ∷ []

-- The first name that the line begins with. STAT, and a line that begins with none, is refused.
unfoldable pub find_type : List (List ℕ × EType) → List ℕ → Option EType
unfolding begins
find_type [] text = none
find_type ((name, type) ∷ names) text = if begins name text then some type else find_type names text

module _ (p : InitParam) where
  -- `ProcessSingleFirstLine`
  unfoldable pub process_single_first_line : MemcachedRespDecoder → Option EType → Result
  unfolding reset
  process_single_first_line d none = (refused, d)
  process_single_first_line d (some type) =
      let resp : MemcachedResp = record { type = type; msg = take d.first_line_len d.data_ ∷ [] } in
      if d.first_line_len == d.recved_data_len then (done (some resp), reset p) else (refused, d)

  -- `ProcessGet` of the reply that `msg_` is. Where the whole reply has no room in the buffer, the
  -- bytes that are there go to the message, and a new buffer is made for the rest.
  unfoldable pub process_get : MemcachedRespDecoder → MemcachedResp → Result
  unfolding reset
  process_get d resp =
      let resp' : MemcachedResp = record resp { msg = resp.msg ++ d.data_ ∷ [] } in
      if d.recved_data_len == d.req_total_len
      then (done (some resp'), reset p)
      else if ltb d.recved_data_len d.req_total_len
      then (if ltb d.capacity d.req_total_len
          then (
            done none,
            record d {
              capacity = d.req_total_len - d.recved_data_len;
              data_ = [];
              msg = some resp';
            },
          )
          else (done none, d))
      else (refused, d)

abbrev pub first_of : Option (List (List ℕ)) → List ℕ
first_of none = []
first_of (some tokens) = get_or tokens 0 []

-- The first token of a line, whether or not there is room for all.
unfoldable pub first_token : List ℕ → List ℕ
first_token line = first_of (tokenizer_command 0 line (suc (length line)))

-- `Feed` without a line end; `end` is the byte that is compared with CR.
unfoldable pub no_line_end : MemcachedRespDecoder → Option ℕ → Result
no_line_end d none = (out_of_bounds, d)
no_line_end d (some end_) =
    let parsed = if end_ == cr then length d.data_ - 1 else length d.data_ in
    let d' : MemcachedRespDecoder = record d { parsed_data_len = parsed } in
    if leb d.capacity d.recved_data_len then (refused, d') else (done none, d')

module _ (lexical_cast : List ℕ → Option ℕ) (p : InitParam) where
  -- `ProcessGetFirstLine` behind the number of bytes.
  unfoldable pub with_bytes : MemcachedRespDecoder → Option ℕ → Result
  unfolding process_get
  with_bytes d none = (thrown, d)
  with_bytes d (some bytes) =
      let resp : MemcachedResp = record { type = type_value; msg = [] } in
      let d' : MemcachedRespDecoder = record d {
        req_total_len = u32 (d.first_line_len + bytes + 2 + 5);
      } in
      let got = process_get p (record d' { msg = some resp }) resp in
      if ltb p.buf_max_len d'.req_total_len then (refused, d') else got

  -- `ProcessGetFirstLine`
  unfoldable pub process_get_first_line : MemcachedRespDecoder → List (List ℕ) → Result
  unfolding with_bytes
  process_get_first_line d tokens =
      if length tokens == 4 then with_bytes d (lexical_cast (get_or tokens 3 [])) else (refused, d)

  -- `ProcessFirstLine` by the tokens. `count` tokens are too many where the tokenizer returns -1;
  -- `first` is the first one, which is set nevertheless.
  unfoldable pub by_name : MemcachedRespDecoder → List ℕ → Option (List (List ℕ)) → Result
  unfolding process_single_first_line process_get_first_line find_type begins
  by_name d first none =
      let single = process_single_first_line p d (find_type single_lines first) in
      if begins (codes "ERROR") first
      then process_single_first_line p d (some type_error)
      else if begins (codes "VALUE") first
      then (refused, d)
      else single
  by_name d first (some tokens) =
      let single = process_single_first_line p d (find_type single_lines first) in
      if begins (codes "ERROR") first
      then process_single_first_line p d (some type_error)
      else if begins (codes "VALUE") first
      then process_get_first_line d tokens
      else single

  -- `ProcessFirstLine`. The line ends with CR LF, so no byte behind it is read.
  unfoldable pub process_first_line : MemcachedRespDecoder → Result
  unfolding by_name first_token
  process_first_line d =
      let line = take d.first_line_len d.data_ in
      by_name d (first_token line) (tokenizer_command 0 line k_max_token_count)

  -- `Feed` while there is no reply: `n` bytes are new.
  unfoldable pub feed_line : ℕ → ℕ → MemcachedRespDecoder → Option ℕ → Result
  unfolding process_first_line no_line_end
  feed_line behind n d none =
      no_line_end d (byte_at behind d.capacity d.data_ (d.parsed_data_len + n))
  feed_line behind n d (some eol) =
      process_first_line (record d { first_line_len = d.parsed_data_len + eol + 2 })

  -- `Feed` by `msg_`.
  unfoldable pub feed_by : ℕ → ℕ → MemcachedRespDecoder → Option MemcachedResp → Result
  unfolding feed_line process_get
  feed_by behind n d none = feed_line behind n d (search_eol (drop d.parsed_data_len d.data_))
  feed_by behind n d (some resp) = process_get p d resp

  -- `Feed` of bytes that were read to the place that `GetBuffer` gave. Behind the bytes in the
  -- buffer stands `behind`.
  unfoldable pub feed : ℕ → MemcachedRespDecoder → List ℕ → Result
  unfolding feed_by
  feed behind d [] = (done none, d)
  feed behind d (c ∷ piece) =
      let n = length (c ∷ piece) in
      let d' : MemcachedRespDecoder = record d {
        data_ = d.data_ ++ c ∷ piece;
        recved_data_len = d.recved_data_len + n;
      } in
      feed_by behind n d' d.msg

  -- Pieces that arrive one after the other, each read to the place that `GetBuffer` gives, until
  -- one is not taken: the replies, and the decoder.
  unfoldable pub feed_all :
      ℕ → MemcachedRespDecoder → List (List ℕ) → Outcome (List MemcachedResp × MemcachedRespDecoder)
  unfolding feed get_buffer
  feed_all behind d [] = ok ([], d)
  feed_all behind d (piece ∷ pieces) =
      let others = feed_all behind (feed behind d piece).1 pieces in
      if ltb (get_buffer d) (length piece)
      then fault
      else report_then (feed behind d piece).0 others
