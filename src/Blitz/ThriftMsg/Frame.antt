-- ===== src/Blitz/ThriftMsg/Frame.antt =====
-- A message that is written in memory is framed as the decoder of frames expects it.
use mlsimgsearch.Prelude.{
  ltb, ltb→lt, le→leb, if_cases, length, length-append, take, drop, take-append_left,
  drop-append_left, concat, Outcome, ok, ℕ, ◌+◌, ◌≤◌, ◌<◌, ◌≡◌, refl, sym, ap, ap₂, ◌∙◌, ◌⊎◌, inl,
  inr, some, List, [], ◌∷◌, ◌++◌, append-nil, append_assoc, arith,
}
use mlsimgsearch.Search.Serializer.Bytes.{to_le, read_le-to_le}
use mlsimgsearch.Blitz.Memcached.{u32}
use mlsimgsearch.Blitz.BufferWriter.{ntohl}
use mlsimgsearch.Blitz.BufferWriter.Bytes.{to_be, length-to_be, to_le-ntohl}
use mlsimgsearch.Blitz.FixHeadMsg.{empty_decoder, feed_all}
use mlsimgsearch.Blitz.FixHeadMsg.Messages.{Pieces, then_message, feed_all_message}
use mlsimgsearch.Blitz.ThriftMsg.{
  ThriftMemoryOutTransport, new_transport, extend, append, write_virt, flush, detach, write_pieces,
  create_outmsg, get_body_len, thrift_params, read_all_virt,
}

-- A transport with room has a buffer.
abbrev HasBuffer : ThriftMemoryOutTransport → Type 0
HasBuffer t = (t.length_ ≡ 0) ⊎ ((head : List ℕ) × (t.head ≡ some head))

-- The data has been written, and there is a buffer.
abbrev Wrote : List ℕ → Outcome ThriftMemoryOutTransport → Type 0
Wrote data_ o =
    (t : ThriftMemoryOutTransport) × (head : List ℕ) × (o ≡ ok t)
    × (t.data_ ≡ data_)
    × (t.head ≡ some head)

append_lem :
    (bytes head : List ℕ) (t : ThriftMemoryOutTransport)
    → length t.data_ + 4 + length bytes ≤ t.length_
    → t.head ≡ some head
    → Wrote (t.data_ ++ bytes) (append bytes t)
unfolding append
append_lem bytes head t h e =
    (record t { data_ = t.data_ ++ bytes }, head, rw (le→leb _ _ h) refl, refl, e)

extend_room :
    (unset : List ℕ) (len : ℕ) (t : ThriftMemoryOutTransport)
    → length t.data_ + len + 4 + 4096 < 0x1_0000_0000
    → length t.data_ + 4 + len ≤ (extend unset len t).length_
unfolding extend
extend_room unset len t h = omega arith

extend_data :
    (unset : List ℕ) (len : ℕ) (t : ThriftMemoryOutTransport)
    → ((extend unset len t).data_ ≡ t.data_) × ((extend unset len t).head ≡ some unset)
unfolding extend
extend_data unset len t = (refl, refl)

has_room :
    (t : ThriftMemoryOutTransport) (n : ℕ)
    → HasBuffer t
    → n < t.length_
    → (head : List ℕ) × (t.head ≡ some head)
has_room t n (inl e) lt = absurd (omega arith)
has_room t n (inr b) lt = b

write_virt_lem :
    (unset bytes : List ℕ) (t : ThriftMemoryOutTransport)
    → length t.data_ + length bytes + 4 + 4096 < 0x1_0000_0000
    → HasBuffer t
    → Wrote (t.data_ ++ bytes) (write_virt unset bytes t)
unfolding write_virt
write_virt_lem unset bytes t h b =
    let n = length t.data_ + 4 + length bytes in
    if_cases (Wrote (t.data_ ++ bytes)) (ltb (u32 n) t.length_)
      (λ lt.
        let fits : n < t.length_ = omega (arith, ltb→lt _ _ lt) in
        let (head, e) = has_room t n b fits in append_lem bytes head t (omega arith) e)
      (λ _.
        append_lem bytes unset (extend unset (length bytes) t)
          (extend_room unset (length bytes) t h) (extend_data unset (length bytes) t).1)

write_pieces_lem :
    (unset : List ℕ) (pieces : List (List ℕ)) (t : ThriftMemoryOutTransport) (head : List ℕ)
    → length t.data_ + length (concat pieces) + 4 + 4096 < 0x1_0000_0000
    → t.head ≡ some head
    → Wrote (t.data_ ++ concat pieces) (write_pieces unset pieces t)
unfolding write_pieces
write_pieces_lem unset [] t head h e = (t, head, refl, sym (append-nil t.data_), e)
write_pieces_lem unset (piece ∷ pieces) t head h e =
    let all = length-append piece (concat pieces) in
    let (t1, head1, e1, d1, b1) =
      write_virt_lem unset piece t (omega (arith, all)) (inr (head, e)) in
    let (t2, head2, e2, d2, b2) =
      write_pieces_lem unset pieces t1 head1
        (omega (arith, all, ap length d1, length-append t.data_ piece)) b1 in
    (
      t2,
      head2,
      rw e1 e2,
      d2 ∙ ap (λ d. d ++ concat pieces) d1 ∙ append_assoc t.data_ piece (concat pieces),
      b2,
    )

-- The frame of a message: its length in four bytes, the highest first, and the message.
abbrev pub framed : List ℕ → List ℕ
framed body = to_be 4 (length body) ++ body

pub create_outmsg_lem :
    (unset piece : List ℕ) (pieces : List (List ℕ))
    → length (piece ++ concat pieces) + 4 + 4096 < 0x1_0000_0000
    → create_outmsg unset (piece ∷ pieces) ≡ ok (framed (piece ++ concat pieces))
unfolding create_outmsg write_pieces flush detach
create_outmsg_lem unset piece pieces h =
    let all = length-append piece (concat pieces) in
    let (t1, head1, e1, d1, b1) =
      write_virt_lem unset piece new_transport (omega (arith, all)) (inl refl) in
    let (t2, head2, e2, d2, b2) =
      write_pieces_lem unset pieces t1 head1 (omega (arith, all, ap length d1)) b1 in
    let body = d2 ∙ ap (λ d. d ++ concat pieces) d1 in
    let n : length (piece ++ concat pieces) < 0x1_0000_0000 = omega arith in
    rw (e1, e2, b2, body)
      (ap (λ head. ok (head ++ (piece ++ concat pieces)))
        (to_le-ntohl (length (piece ++ concat pieces)) n))

ntohl_twice : (n : ℕ) → n < 0x1_0000_0000 → ntohl (ntohl n) ≡ n
ntohl_twice n h = omega arith

get_body_len-to_be : (n : ℕ) → n < 0x1_0000_0000 → get_body_len (to_be 4 n) ≡ some n
unfolding get_body_len
get_body_len-to_be n h =
    let small : ntohl n < 0x1_0000_0000 = omega arith in
    let bytes : to_be 4 n ≡ to_le 4 (ntohl n) ++ [] =
      sym (to_le-ntohl n h) ∙ sym (append-nil (to_le 4 (ntohl n))) in
    rw (bytes, read_le-to_le 4 (ntohl n) [] small) (ap some (ntohl_twice n h))

-- A list is split in one way after so many elements.
same_start :
    (xs ys us vs : List ℕ) → length xs ≡ length us → xs ++ ys ≡ us ++ vs → (xs ≡ us) × (ys ≡ vs)
same_start xs ys us vs len e = (
  sym (take-append_left xs ys) ∙ ap₂ (λ n s. take n s) len e ∙ take-append_left us vs,
  sym (drop-append_left xs ys) ∙ ap₂ (λ n s. drop n s) len e ∙ drop-append_left us vs,
)

-- What is written for a structure, in one piece or more, not empty and more than 4100 bytes below
-- 2 ^ 32, is framed: the message is its bytes with their length in front. It arrives as one message
-- when its first four bytes come together, in whatever pieces the others come, each within the
-- buffer: it is reported whole, and the decoder goes on with what follows. The buffer of a new
-- decoder has room for the four bytes, and the message is within the limit of the decoder.
pub feed_all-create_outmsg :
    (start_len max_len : ℕ) (unset piece : List ℕ) (pieces : List (List ℕ)) (head part : List ℕ)
    (parts rest : List (List ℕ))
    → length (piece ++ concat pieces) + 4 + 4096 < 0x1_0000_0000
    → head ++ (part ++ concat parts) ≡ framed (piece ++ concat pieces)
    → length head ≡ 4
    → Pieces (part ∷ parts)
    → length (piece ++ concat pieces) + 4 ≤ max_len
    → max_len < 0x1_0000_0000
    → 4 ≤ start_len
    → (create_outmsg unset (piece ∷ pieces) ≡ ok (head ++ (part ++ concat parts)))
      × (feed_all
            (thrift_params start_len max_len)
            (empty_decoder (thrift_params start_len max_len))
            (head ∷ (part ∷ parts) ++ rest)
          ≡ then_message (framed (piece ++ concat pieces)) (
              feed_all
                (thrift_params start_len max_len)
                (empty_decoder (thrift_params start_len max_len))
                rest))
feed_all-create_outmsg start_len max_len unset piece pieces head part parts rest h bytes four ps
      fits lt start =
    let p = thrift_params start_len max_len in
    let body = piece ++ concat pieces in
    let (front, behind) =
      same_start head (part ++ concat parts) (to_be 4 (length body)) body
        (four ∙ sym (length-to_be 4 (length body))) bytes in
    let n = ap length behind in
    let len : get_body_len head ≡ some (length (part ++ concat parts)) =
      ap get_body_len front ∙ get_body_len-to_be (length body) (omega arith) ∙ ap some (sym n) in
    (
      create_outmsg_lem unset piece pieces h ∙ ap ok (sym bytes),
      feed_all_message p head part parts rest (omega (arith, four)) four len
            (omega (arith, n, fits)) lt start ps
          ∙ ap (λ msg. then_message msg (feed_all p (empty_decoder p) rest)) bytes,
    )

-- What is left of a message in memory is what was asked for, and it is all there.
pub read_all_virt-append :
    (bytes left : List ℕ) → read_all_virt (length bytes) (bytes ++ left) ≡ ok (bytes, left)
unfolding read_all_virt
read_all_virt-append bytes left =
    rw (le→leb (length bytes) (length (bytes ++ left)) (omega (arith, length-append bytes left)))
      (ap₂ (λ a b. ok (a, b)) (take-append_left bytes left) (drop-append_left bytes left))
