-- ===== src/Blitz/FixHeadMsg/Messages.antt =====
-- Messages come out of the stream as they were sent.
use mlsimgsearch.Prelude.{
  ltb, if◌then◌else◌, le→leb, length, length-append, concat, Outcome, ◌>>=◌, ok, ℕ, ◌+◌, ◌%◌, ◌≤◌,
  ◌<◌, ◌≡◌, sym, ap, ◌∙◌, none, some, List, [], ◌∷◌, ◌++◌, append-nil, append_assoc, arith,
}
use mlsimgsearch.Blitz.FixHeadMsg.{
  Params, FixHeadMsgDecoder, empty_decoder, done, too_much, start_body, feed, feed_all,
}

-- A body in pieces, none of them empty.
abbrev pub Pieces : List (List ℕ) → Type 0
Pieces [] = Unit {0}
Pieces (p ∷ ps) = (0 < length p) × Pieces ps

-- A message before the others.
abbrev pub then_message :
    List ℕ
    → Outcome (List (List ℕ) × FixHeadMsgDecoder)
    → Outcome (List (List ℕ) × FixHeadMsgDecoder)
then_message msg o = o >>= λ (msgs, last). ok (msg ∷ msgs, last)

module _ (p : Params) where
  -- A decoder that is `todo` bytes before the end of its message's body.
  abbrev Reading : FixHeadMsgDecoder → ℕ → Type 0
  Reading d todo = (p.head_len ≤ length d.data_) × (d.msg_len ≡ length d.data_ + todo)

  abbrev next_state : FixHeadMsgDecoder → List ℕ → FixHeadMsgDecoder
  next_state d piece = record {
    buffer_len = d.buffer_len;
    data_ = d.data_ ++ piece;
    msg_len = d.msg_len;
  }

  feed_more :
      (d : FixHeadMsgDecoder) (piece : List ℕ) (todo : ℕ)
      → Reading d todo
      → 0 < length piece
      → length piece < todo
      → feed p d piece ≡ (done none, next_state d piece)
  unfolding feed
  feed_more d [] todo (h, m) l lt = absurd (omega arith)
  feed_more d (b ∷ more) todo (h, m) l lt = ground (arith, length-append d.data_ (b ∷ more))

  feed_last :
      (d : FixHeadMsgDecoder) (piece : List ℕ) (todo : ℕ)
      → Reading d todo
      → 0 < length piece
      → length piece ≡ todo
      → feed p d piece ≡ (done (some (d.data_ ++ piece)), empty_decoder p)
  unfolding feed
  feed_last d [] todo (h, m) l e = absurd (omega arith)
  feed_last d (b ∷ more) todo (h, m) l e = ground (arith, length-append d.data_ (b ∷ more))

  feed_all_more :
      (d d' : FixHeadMsgDecoder) (piece : List ℕ) (rest : List (List ℕ))
      → length d.data_ + length piece ≤ d.buffer_len
      → feed p d piece ≡ (done none, d')
      → feed_all p d (piece ∷ rest) ≡ feed_all p d' rest
  unfolding feed_all
  feed_all_more d d' piece rest h e = ground (arith, le→leb _ _ h, e)

  feed_all_last :
      (d d' : FixHeadMsgDecoder) (piece msg : List ℕ) (rest : List (List ℕ))
      → length d.data_ + length piece ≤ d.buffer_len
      → feed p d piece ≡ (done (some msg), d')
      → feed_all p d (piece ∷ rest) ≡ then_message msg (feed_all p d' rest)
  unfolding feed_all
  feed_all_last d d' piece msg rest h e = ground (arith, le→leb _ _ h, e)

  feed_all_body :
      (d : FixHeadMsgDecoder) (piece : List ℕ) (pieces rest : List (List ℕ))
      → Reading d (length (piece ++ concat pieces))
      → d.msg_len ≤ d.buffer_len
      → Pieces (piece ∷ pieces)
      → feed_all p d ((piece ∷ pieces) ++ rest)
        ≡ then_message (d.data_ ++ (piece ++ concat pieces)) (feed_all p (empty_decoder p) rest)
  feed_all_body d piece [] rest r room (l, ls) =
      let e = append-nil piece in
      feed_all_last d (empty_decoder p) piece (d.data_ ++ piece) rest
        (omega (arith, r.1, room, ap length e))
        (feed_last d piece (length (piece ++ [])) r l (ap length (sym e)))
      ∙ ap (λ body. then_message (d.data_ ++ body) (feed_all p (empty_decoder p) rest)) (sym e)
  feed_all_body d piece (piece' ∷ pieces) rest (h, m) room (l, ls) =
      let len = length-append piece (piece' ++ concat pieces) in
      let len' = length-append piece' (concat pieces) in
      let now = length-append d.data_ piece in
      feed_all_more d (next_state d piece) piece ((piece' ∷ pieces) ++ rest)
        (omega (arith, m, room, len))
        (feed_more d piece (length (piece ++ (piece' ++ concat pieces))) (h, m) l
          (omega (arith, len, len', ls.0)))
      ∙ feed_all_body (next_state d piece) piece' pieces rest
          (omega (arith, now), omega (arith, now, len)) room ls
      ∙ ap (λ msg. then_message msg (feed_all p (empty_decoder p) rest))
          (append_assoc d.data_ piece (piece' ++ concat pieces))

  abbrev after_head : List ℕ → ℕ → FixHeadMsgDecoder
  after_head head msg_len = record {
    buffer_len = if ltb p.buf_start_len msg_len then msg_len else p.buf_start_len;
    data_ = head;
    msg_len = msg_len;
  }

  room_for : (n : ℕ) → n ≤ (if ltb p.buf_start_len n then n else p.buf_start_len)
  room_for n = ground arith

  feed_head :
      (head : List ℕ) (n : ℕ)
      → 0 < length head
      → length head ≡ p.head_len
      → p.get_body_len head ≡ some n
      → n + p.head_len ≤ p.buf_max_len
      → p.buf_max_len < 0x1_0000_0000
      → feed p (empty_decoder p) head ≡ (done none, after_head head (n + p.head_len))
  unfolding feed empty_decoder start_body
  feed_head [] n l len body fits small = absurd (omega arith)
  feed_head (b ∷ more) n l len body fits small =
      let same : (n + p.head_len) % 0x1_0000_0000 ≡ n + p.head_len = omega arith in
      ground (arith, body, same)

  -- A message whose head comes in one piece and whose body is not empty is reported as it was sent,
  -- in whatever pieces the body arrives, each of them within the buffer, and the decoder starts again
  -- behind it, when the buffer of a new decoder has room for a head and the message is within the
  -- limit `buf_max_len`.
  pub feed_all_message :
      (head piece : List ℕ) (pieces rest : List (List ℕ))
      → 0 < length head
      → length head ≡ p.head_len
      → p.get_body_len head ≡ some (length (piece ++ concat pieces))
      → length (piece ++ concat pieces) + p.head_len ≤ p.buf_max_len
      → p.buf_max_len < 0x1_0000_0000
      → p.head_len ≤ p.buf_start_len
      → Pieces (piece ∷ pieces)
      → feed_all p (empty_decoder p) (head ∷ (piece ∷ pieces) ++ rest)
        ≡ then_message (head ++ (piece ++ concat pieces)) (feed_all p (empty_decoder p) rest)
  unfolding empty_decoder
  feed_all_message head piece pieces rest pos_ len body fits small start ls =
      let n = length (piece ++ concat pieces) in
      let d = after_head head (n + p.head_len) in
      feed_all_more (empty_decoder p) d head ((piece ∷ pieces) ++ rest) (omega (arith, len, start))
        (feed_head head n pos_ len body fits small)
      ∙ feed_all_body d piece pieces rest (omega arith, omega arith) (room_for (n + p.head_len)) ls

  -- A head that arrives in two pieces is refused: its first piece is taken for more than the message.
  pub feed_part_of_head :
      (piece : List ℕ)
      → 0 < length piece
      → length piece < p.head_len
      → (feed p (empty_decoder p) piece).0 ≡ too_much
  unfolding feed empty_decoder
  feed_part_of_head [] l lt = absurd (omega arith)
  feed_part_of_head (b ∷ more) l lt = ground arith
