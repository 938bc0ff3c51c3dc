-- ===== src/Blitz/MemcachedResp/Pieces.antt =====
-- The reply to a get is decoded from whatever pieces it arrives in, also when its bytes do not all
-- fit one buffer.
use mlsimgsearch.Prelude.{
  ltb, ◌==◌, ltb→lt, lt→ltb, ==_iff, ne→==, Bool-cases, length, length-append, take,
  take-append_left, All, concat, Outcome, ok, ℕ, suc, ◌+◌, ◌-◌, ◌≤◌, ◌<◌, ◌≡◌, refl, sym, ap, ◌∙◌,
  inl, inr, true, false, Option, none, some, List, [], ◌∷◌, ◌++◌, append-nil, append_assoc, arith,
  ℕ_discrete,
}
use mlsimgsearch.Blitz.Memcached.{
  InitParam, codes, u32, report_then, search_eol, tokenizer_command, begins,
}
use mlsimgsearch.Blitz.Memcached.Tokens.{IsWord, line, tokenizer_command-line, search_eol-line}
use mlsimgsearch.Blitz.MemcachedResp.{
  type_value, MemcachedResp, MemcachedRespDecoder, reset, get_buffer, process_get, with_bytes,
  process_get_first_line, by_name, first_of, first_token, process_first_line, feed_line, feed_by,
  feed, feed_all, k_max_token_count,
}

nil_of : (xs : List ℕ) → length xs ≡ 0 → xs ≡ []
nil_of [] h = refl
nil_of (x ∷ xs) h = absurd (omega (arith, h))

concat-snoc : (xss : List (List ℕ)) (xs : List ℕ) → concat (xss ++ xs ∷ []) ≡ concat xss ++ xs
concat-snoc [] xs = append-nil xs
concat-snoc (ys ∷ xss) xs =
    ap (λ s. ys ++ s) (concat-snoc xss xs) ∙ sym (append_assoc ys (concat xss) xs)

abbrev pub value_of : List (List ℕ) → MemcachedResp
value_of msg = record { type = type_value; msg = msg }

-- The first line has been read.
abbrev waiting : ℕ → ℕ → ℕ → List ℕ → ℕ → List (List ℕ) → MemcachedRespDecoder
waiting line_len total capacity data_ recved msg = record {
  capacity = capacity;
  data_ = data_;
  recved_data_len = recved;
  parsed_data_len = 0;
  req_total_len = total;
  first_line_len = line_len;
  msg = some (value_of msg);
}

module _ (lexical_cast : List ℕ → Option ℕ) (p : InitParam) (behind : ℕ) where
  -- Nothing arrives any more.
  feed_all_nil :
      (d : MemcachedRespDecoder) (pieces : List (List ℕ))
      → length (concat pieces) ≡ 0
      → feed_all lexical_cast p behind d pieces ≡ ok ([], d)
  unfolding feed_all feed
  feed_all_nil d [] h = refl
  feed_all_nil d ([] ∷ pieces) h = elim (Bool-cases (ltb (get_buffer d) 0)) [
    | inl t ↦ absurd (omega (arith, ltb→lt (get_buffer d) 0 t))
    | inr f ↦ rw f (feed_all_nil d pieces h)
  ]
  feed_all_nil d ((c ∷ piece) ∷ pieces) h = absurd (omega (arith, h))

  -- One reply of these bytes is reported, and the decoder starts again.
  abbrev pub Reported : List ℕ → Outcome (List MemcachedResp × MemcachedRespDecoder) → Type 0
  Reported whole o =
      (msg : List (List ℕ)) × (o ≡ ok (value_of msg ∷ [], reset p)) × (concat msg ≡ whole)

  module _ (line_len total : ℕ) where
    -- `ProcessGet` when more is to come, and when all has come.
    settle :
        (capacity recved : ℕ) (data_ : List ℕ) (msg pieces : List (List ℕ))
        → recved + length (concat pieces) ≡ total
        → length data_ ≤ recved
        → ((capacity' : ℕ) (data' : List ℕ) (msg' : List (List ℕ))
            → length data' ≤ recved
            → length data' + length (concat pieces) ≤ capacity'
            → 0 < length (concat pieces)
            → Reported (concat msg' ++ (data' ++ concat pieces)) (
                feed_all lexical_cast p behind
                  (waiting line_len total capacity' data' recved msg')
                  pieces))
        → Reported (concat msg ++ (data_ ++ concat pieces)) (
            report_then
              (process_get p (waiting line_len total capacity data_ recved msg) (value_of msg)).0
              (feed_all lexical_cast p behind
                (process_get p (waiting line_len total capacity data_ recved msg) (value_of msg)).1
                pieces))
    unfolding process_get
    settle capacity recved data_ msg pieces len fits more =
        elim (ℕ_discrete (length (concat pieces)) 0) [
          | yes none_left ↦
              let all : (recved == total) ≡ true = (==_iff _ _).1 (omega (arith, len, none_left)) in
              (
                msg ++ data_ ∷ [],
                rw (all, feed_all_nil (reset p) pieces none_left) refl,
                concat-snoc msg data_
                    ∙ ap (λ s. concat msg ++ s)
                        (sym (
                          ap (λ s. data_ ++ s) (nil_of (concat pieces) none_left)
                          ∙ append-nil data_)),
              )
          | no some_left ↦
              let part : (recved == total) ≡ false =
                ne→== _ _ (λ e. some_left (omega (arith, len, e))) in
              let less : ltb recved total ≡ true = lt→ltb _ _ (omega (arith, len, some_left)) in
              elim (Bool-cases (ltb capacity total)) [
                | inl small ↦
                    let (msg', e, same) =
                      more (total - recved) [] (msg ++ data_ ∷ []) (omega arith)
                        (omega (arith, len)) (omega (arith, some_left)) in
                    (
                      msg',
                      rw (part, less, small) e,
                      same
                          ∙ ap (λ s. s ++ concat pieces) (concat-snoc msg data_)
                          ∙ append_assoc (concat msg) data_ (concat pieces),
                    )
                | inr large ↦
                    let (msg', e, same) =
                      more capacity data_ msg fits (ground (arith, len))
                        (omega (arith, some_left)) in
                    (msg', rw (part, less, large) e, same)
              ]
        ]

    feed_rest :
        (capacity recved : ℕ) (data_ : List ℕ) (msg pieces : List (List ℕ))
        → recved + length (concat pieces) ≡ total
        → length data_ ≤ recved
        → length data_ + length (concat pieces) ≤ capacity
        → 0 < length (concat pieces)
        → Reported (concat msg ++ (data_ ++ concat pieces)) (
            feed_all lexical_cast p behind
              (waiting line_len total capacity data_ recved msg)
              pieces)
    unfolding feed_all feed feed_by get_buffer
    feed_rest capacity recved data_ msg [] len fits room h = absurd (omega arith)
    feed_rest capacity recved data_ msg ([] ∷ pieces) len fits room h =
        elim (Bool-cases (ltb (capacity - length data_) 0)) [
          | inl t ↦ absurd (omega (arith, ltb→lt _ _ t))
          | inr f ↦ rw f (feed_rest capacity recved data_ msg pieces len fits room h)
        ]
    feed_rest capacity recved data_ msg ((c ∷ piece) ∷ pieces) len fits room h =
        let all = length-append (c ∷ piece) (concat pieces) in
        let now = length-append data_ (c ∷ piece) in
        let fits_now : ltb (capacity - length data_) (length (c ∷ piece)) ≡ false =
          ground (arith, all) in
        let recved' = recved + length (c ∷ piece) in
        let len' : recved' + length (concat pieces) ≡ total = omega (arith, len, all) in
        let (msg', e, same) =
          settle capacity recved' (data_ ++ c ∷ piece) msg pieces len' (omega (arith, now))
            (λ capacity' data' msg'' fits' room' h'.
              feed_rest capacity' recved' data' msg'' pieces len' fits' room' h') in
        (
          msg',
          rw fits_now e,
          same ∙ ap (λ s. concat msg ++ s) (append_assoc data_ (c ∷ piece) (concat pieces)),
        )

abbrev value_text : List ℕ
value_text = codes "VALUE"

-- `VALUE <key> <flags> <bytes>` and the line end.
unfoldable pub value_line : List ℕ → List ℕ → List ℕ → List ℕ
value_line key flags bytes = line value_text (key ∷ flags ∷ bytes ∷ [])

value-IsWord : IsWord value_text
value-IsWord = ((refl, refl), ((refl, refl), ((refl, refl), ((refl, refl), ((refl, refl), tt)))))

-- The decoder when the first line has been found.
abbrev found_line : InitParam → ℕ → List ℕ → MemcachedRespDecoder
found_line p line_len data_ = record {
  capacity = p.buf_start_len;
  data_ = data_;
  recved_data_len = 0 + length data_;
  parsed_data_len = 0;
  req_total_len = 0;
  first_line_len = line_len;
  msg = none;
}

feed_first :
    (lexical_cast : List ℕ → Option ℕ) (p : InitParam) (behind : ℕ) (whole first : List ℕ) (n : ℕ)
    (tokens : List (List ℕ))
    → 0 < length whole
    → search_eol whole ≡ some n
    → first_token (take (0 + n + 2) whole) ≡ first
    → tokenizer_command 0 (take (0 + n + 2) whole) k_max_token_count ≡ some tokens
    → feed lexical_cast p behind (reset p) whole
      ≡ by_name lexical_cast p (found_line p (0 + n + 2) whole) first (some tokens)
unfolding feed feed_by feed_line process_first_line reset
feed_first lexical_cast p behind [] first n tokens h found token cut = absurd (omega arith)
feed_first lexical_cast p behind (c ∷ whole) first n tokens h found token cut =
    rw (found, token, cut) refl

module _ (lexical_cast : List ℕ → Option ℕ) (p : InitParam) (behind : ℕ)
    (key flags_text bytes_text : List ℕ) (bytes : ℕ) where
  -- The texts are words, and the last one stands for the number of bytes.
  pub record IsValueLine : Type 0 where
    pub key_word : IsWord key
    pub flags_word : IsWord flags_text
    pub bytes_word : IsWord bytes_text
    pub bytes_cast : lexical_cast bytes_text ≡ some bytes

  abbrev pub the_line : List ℕ
  the_line = value_line key flags_text bytes_text

  -- The length of the whole reply: the line, the value with its line end, and END.
  abbrev pub total_of : ℕ
  total_of = length the_line + bytes + 2 + 5

  abbrev words : List (List ℕ)
  words = key ∷ flags_text ∷ bytes_text ∷ []

  abbrev tokens : List (List ℕ)
  tokens = value_text ∷ words

  by_name_value :
      (data_ : List ℕ)
      → IsValueLine
      → total_of ≤ p.buf_max_len
      → p.buf_max_len < 0x1_0000_0000
      → by_name lexical_cast p (found_line p (length the_line) data_) value_text (some tokens)
        ≡ process_get p
            (waiting (length the_line) total_of p.buf_start_len data_ (0 + length data_) [])
            (value_of [])
  unfolding by_name begins process_get_first_line with_bytes
  by_name_value data_ v fits small =
      let same : u32 total_of ≡ total_of = omega arith in
      let room : ltb p.buf_max_len total_of ≡ false = ground arith in
      rw (v.bytes_cast, same, room) refl

  first_token_value : IsValueLine → first_token the_line ≡ value_text
  unfolding first_token value_line line
  first_token_value v =
      let others : All IsWord words = (v.key_word, (v.flags_word, (v.bytes_word, tt))) in
      ap first_of (
        tokenizer_command-line 0 (suc (length the_line)) value_text words (omega arith) value-IsWord
          others)

  first_piece :
      (part : List ℕ)
      → IsValueLine
      → total_of ≤ p.buf_max_len
      → p.buf_max_len < 0x1_0000_0000
      → feed lexical_cast p behind (reset p) (the_line ++ part)
        ≡ process_get p
            (waiting
              (length the_line)
              total_of
              p.buf_start_len
              (the_line ++ part)
              (0 + length (the_line ++ part))
              [])
            (value_of [])
  unfolding value_line
  first_piece part v fits small =
      let others : All IsWord words = (v.key_word, (v.flags_word, (v.bytes_word, tt))) in
      let (n, found, len) = search_eol-line value_text words part value-IsWord others in
      let whole : 0 + n + 2 ≡ length the_line = omega (arith, len) in
      let cut : take (0 + n + 2) (the_line ++ part) ≡ the_line =
        ap (λ k. take k (the_line ++ part)) whole ∙ take-append_left the_line part in
      feed_first lexical_cast p behind (the_line ++ part) value_text n tokens
        (omega (arith, length-append the_line part, len)) found
        (ap first_token cut ∙ first_token_value v)
        (ap (λ l. tokenizer_command 0 l k_max_token_count) cut
          ∙ tokenizer_command-line 0 k_max_token_count value_text words (omega arith) value-IsWord
              others)
      ∙ ap
          (λ k. by_name lexical_cast p (found_line p k (the_line ++ part)) value_text (some tokens))
          whole
      ∙ by_name_value (the_line ++ part) v fits small

  room_for :
      (piece : List ℕ)
      → length piece ≤ p.buf_start_len
      → ltb (get_buffer (reset p)) (length piece) ≡ false
  unfolding get_buffer reset
  room_for piece h = ground arith

  -- Let the line of a reply to a get be made of words, the last of which is cast to the number of
  -- bytes, and the whole reply fit the limit of the buffer. However what follows the line, the value
  -- with its line end and five more bytes, is split behind the first piece, which holds the line and
  -- fits the first buffer, there is room for every piece, one reply is reported that is made of
  -- stretches which together are all bytes received, and the decoder starts again.
  pub feed_all_value :
      (rest part : List ℕ) (pieces : List (List ℕ))
      → IsValueLine
      → length rest ≡ bytes + 2 + 5
      → part ++ concat pieces ≡ rest
      → length (the_line ++ part) ≤ p.buf_start_len
      → total_of ≤ p.buf_max_len
      → p.buf_max_len < 0x1_0000_0000
      → (msg : List (List ℕ)) × (feed_all lexical_cast p behind
            (reset p)
            ((the_line ++ part) ∷ pieces)
          ≡ ok (value_of msg ∷ [], reset p))
        × (concat msg ≡ the_line ++ rest)
  unfolding feed_all
  feed_all_value rest part pieces v len parts first fits small =
      let line_part = the_line ++ part in
      let room : ltb (get_buffer (reset p)) (length line_part) ≡ false = room_for line_part first in
      let whole : 0 + length line_part + length (concat pieces) ≡ total_of = omega (
        arith,
        length-append the_line part,
        length-append part (concat pieces),
        ap length parts,
        len,
      ) in
      let (msg, e, same) =
        settle lexical_cast p behind (length the_line) total_of p.buf_start_len
          (0 + length line_part) line_part [] pieces whole (omega arith)
          (λ capacity' data' msg' fits' room' h'.
            feed_rest lexical_cast p behind (length the_line) total_of capacity'
              (0 + length line_part) data' msg' pieces whole fits' room' h') in
      (
        msg,
        rw (room, first_piece part v fits small) e,
        same ∙ append_assoc the_line part (concat pieces) ∙ ap (λ s. the_line ++ s) parts,
      )
