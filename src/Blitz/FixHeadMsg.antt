-- ===== src/Blitz/FixHeadMsg.antt =====
-- libsrc/blitz2/include/blitz2/fix_head_msg.h: messages that are a head of fixed length and a body
-- whose length the head tells. A `uint32_t` is a number below 2 ^ 32.
pub mod Messages
use mlsimgsearch.Prelude.{
  ltb, leb, ◌==◌, if◌then◌else◌, length, Outcome, ◌>>=◌, ◌>>◌, must, ok, err, ℕ, ◌+◌, ◌-◌, ◌%◌,
  Option, none, some, List, [], ◌∷◌, ◌++◌,
}

-- `kHeadLen`, `InitParam`, and `TGetBodyLenFunctor` on the bytes of the head, which may refuse.
pub record Params : Type 0 where
  pub head_len : ℕ
  pub buf_start_len : ℕ
  pub buf_max_len : ℕ
  pub get_body_len : List ℕ → Option ℕ

-- `data_` are the first `data_len_` bytes of the buffer.
pub record FixHeadMsgDecoder : Type 0 where
  pub buffer_len : ℕ
  pub data_ : List ℕ
  pub msg_len : ℕ

-- A new decoder after `Init`, and what `Feed` sets when it has reported a message.
unfoldable pub empty_decoder : Params → FixHeadMsgDecoder
empty_decoder p = record { buffer_len = p.buf_start_len; data_ = []; msg_len = 0 }

-- What `Feed` returns and what it reports: `done` is 0, `no_data` is 1, and -1, -2 and -3.
pub data Fed : Type 0 where
  done : Option (List ℕ) → Fed
  no_data : Fed
  bad_head : Fed
  too_long : Fed
  too_much : Fed

-- `GetBuffer`: how many bytes it asks for behind the data, whether or not the buffer has them.
unfoldable pub get_buffer : Params → FixHeadMsgDecoder → Outcome ℕ
get_buffer p d =
    if ltb (length d.data_) p.head_len
    then ok (p.head_len - length d.data_)
    else if ltb (length d.data_) d.msg_len
    then ok (d.msg_len - length d.data_)
    else err 1

-- The head is there: its message length, for which the buffer is made to have room.
unfoldable pub start_body : Params → FixHeadMsgDecoder → List ℕ → Fed × FixHeadMsgDecoder
start_body p d bytes = elim (p.get_body_len bytes) [
  | none ↦ (bad_head, record { buffer_len = d.buffer_len; data_ = bytes; msg_len = d.msg_len })
  | some body_len ↦
      let msg_len = (body_len + p.head_len) % 0x1_0000_0000 in
      let room = if ltb d.buffer_len msg_len then msg_len else d.buffer_len in
      if ltb p.buf_max_len msg_len
      then (too_long, record { buffer_len = d.buffer_len; data_ = bytes; msg_len = msg_len })
      else (done none, record { buffer_len = room; data_ = bytes; msg_len = msg_len })
]

-- `Feed` of bytes that were read to the place that `GetBuffer` gave, within the buffer.
unfoldable pub feed : Params → FixHeadMsgDecoder → List ℕ → Fed × FixHeadMsgDecoder
unfolding start_body empty_decoder
feed p d [] = (no_data, d)
feed p d (b ∷ more) =
    let bytes = d.data_ ++ b ∷ more in
    let next : FixHeadMsgDecoder = record {
      buffer_len = d.buffer_len;
      data_ = bytes;
      msg_len = d.msg_len;
    } in
    if length bytes == p.head_len
    then start_body p d bytes
    else if length bytes == d.msg_len
    then (done (some bytes), empty_decoder p)
    else if ltb d.msg_len (length bytes)
    then (too_much, next)
    else (done none, next)

-- Pieces that arrive one after the other, until one is refused: the messages, and the last state. A
-- piece that does not fit behind the data is written behind the buffer.
unfoldable pub feed_all :
    Params → FixHeadMsgDecoder → List (List ℕ) → Outcome (List (List ℕ) × FixHeadMsgDecoder)
unfolding feed
feed_all p d [] = ok ([], d)
feed_all p d (piece ∷ pieces) =
    let (fed, d') = feed p d piece in
    let others = feed_all p d' pieces in
    must (leb (length d.data_ + length piece) d.buffer_len) >> elim fed [
      | done msg ↦ elim msg [
        | none ↦ others
        | some m ↦ others >>= λ (msgs, last). ok (m ∷ msgs, last)
      ]
      | no_data ↦ others
      | bad_head ↦ err 1
      | too_long ↦ err 2
      | too_much ↦ err 3
    ]
