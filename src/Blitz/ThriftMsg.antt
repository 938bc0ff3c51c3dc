-- ===== src/Blitz/ThriftMsg.antt =====
-- libsrc/blitz2/include/blitz2/thrift/thrift_msg.h: the transports of a thrift message in memory, on
-- a machine that stores the lowest byte first. The allocation of a buffer succeeds.
pub mod Frame
use mlsimgsearch.Prelude.{
  ltb, leb, if◌then◌else◌, length, take, drop, Outcome, ◌>>=◌, ◌>>◌, or_fault, must, ok, err, fault,
  ℕ, ◌+◌, ◌*◌, ◌/◌, Option, none, some, List, [], ◌∷◌, ◌++◌,
}
use mlsimgsearch.Search.Serializer.Bytes.{to_le, read_le}
use mlsimgsearch.Blitz.Memcached.{u32}
use mlsimgsearch.Blitz.BufferWriter.{ntohl}
use mlsimgsearch.Blitz.FixHeadMsg.{Params}

-- The four bytes in front of the data are the first part of `buffer_`, which is NULL at first.
pub record ThriftMemoryOutTransport : Type 0 where
  pub head : Option (List ℕ)
  pub data_ : List ℕ
  pub length_ : ℕ

abbrev pub new_transport : ThriftMemoryOutTransport
new_transport = record { head = none; data_ = []; length_ = 0 }

-- `Extend`. The new buffer has four bytes that are not set; the data is copied behind them.
unfoldable pub extend : List ℕ → ℕ → ThriftMemoryOutTransport → ThriftMemoryOutTransport
extend unset len t =
    let total_len = u32 (length t.data_ + len + 4) in
    record t { head = some unset; length_ = u32 ((total_len / 4096 + 1) * 4096) }

-- `memcpy` behind the data.
unfoldable pub append : List ℕ → ThriftMemoryOutTransport → Outcome ThriftMemoryOutTransport
append bytes t = do
  must (leb (length t.data_ + 4 + length bytes) t.length_)
  ok (record t { data_ = t.data_ ++ bytes })

-- `write_virt`
unfoldable pub write_virt :
    List ℕ → List ℕ → ThriftMemoryOutTransport → Outcome ThriftMemoryOutTransport
unfolding extend append
write_virt unset bytes t =
    if ltb (u32 (length t.data_ + 4 + length bytes)) t.length_
    then append bytes t
    else append bytes (extend unset (length bytes) t)

-- `flush`, which stores the length of the data.
unfoldable pub flush : ThriftMemoryOutTransport → Outcome ThriftMemoryOutTransport
flush t = do
  head ← or_fault t.head
  ok (record t { head = some (to_le 4 (ntohl (length t.data_))) })

-- `Detach` of a buffer that is there: its bytes, and the transport.
unfoldable pub detach : ThriftMemoryOutTransport → Outcome (List ℕ × ThriftMemoryOutTransport)
detach t = do head ← or_fault t.head; ok (head ++ t.data_, new_transport)

-- The writes of a message one after the other.
unfoldable pub write_pieces :
    List ℕ → List (List ℕ) → ThriftMemoryOutTransport → Outcome ThriftMemoryOutTransport
unfolding write_virt
write_pieces unset [] t = ok t
write_pieces unset (piece ∷ pieces) t = do
  t' ← write_virt unset piece t
  write_pieces unset pieces t'

-- `CreateOutmsgFromThriftStruct` with the writes that a structure makes.
unfoldable pub create_outmsg : List ℕ → List (List ℕ) → Outcome (List ℕ)
unfolding write_pieces flush detach
create_outmsg unset pieces = do
  t ← write_pieces unset pieces new_transport
  t' ← flush t
  (bytes, after) ← detach t'
  ok bytes

abbrev pub body_len_of : Outcome (ℕ × List ℕ) → Option ℕ
body_len_of (ok (n, rest)) = some (ntohl n)
body_len_of (err code) = none
body_len_of fault = none

-- `ThriftFramedMsgGetBodyLen` on four bytes.
unfoldable pub get_body_len : List ℕ → Option ℕ
get_body_len head = body_len_of (read_le 4 head)

-- `ThriftFramedMsgDecoder`
abbrev pub thrift_params : ℕ → ℕ → Params
thrift_params start_len max_len = record {
  head_len = 4;
  buf_start_len = start_len;
  buf_max_len = max_len;
  get_body_len = get_body_len;
}

-- `data_` with what is left from `pos_` on.
abbrev pub ThriftMemoryInTransport : Type 0
ThriftMemoryInTransport = List ℕ

-- `read_virt`
unfoldable pub read_virt : ℕ → ThriftMemoryInTransport → List ℕ × ThriftMemoryInTransport
read_virt len left = if leb len (length left) then (take len left, drop len left) else (left, [])

-- `readAll_virt`. `err 1` is the exception.
unfoldable pub read_all_virt :
    ℕ → ThriftMemoryInTransport → Outcome (List ℕ × ThriftMemoryInTransport)
read_all_virt len left = if leb len (length left) then ok (take len left, drop len left) else err 1
