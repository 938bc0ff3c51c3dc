-- ===== src/Blitz/MemcachedReq/Pieces.antt =====
-- A set request is decoded from whatever pieces its value arrives in.
use mlsimgsearch.Prelude.{
  ltb, ◌==◌, if◌then◌else◌, ltb→lt, lt→ltb, ==_iff, ne→==, Bool-cases, length, length-append, take,
  drop, take-append_left, drop-append_left, All, concat, Outcome, ok, ℕ, ◌+◌, ◌-◌, ◌≤◌, ◌<◌, ◌≡◌,
  refl, ap, ◌∙◌, inl, inr, true, false, Option, none, some, List, [], ◌∷◌, ◌++◌, append-nil,
  append_assoc, arith, ℕ_discrete,
}
use mlsimgsearch.Blitz.Memcached.{
  InitParam, cr, lf, u32, report_then, search_eol, tokenizer_command, begins,
}
use mlsimgsearch.Blitz.Memcached.Tokens.{IsWord, line, tokenizer_command-line, search_eol-line}
use mlsimgsearch.Blitz.MemcachedReq.{
  MemcachedSetReq, MemcachedReq, set_req, MemcachedReqDecoder, reset, get_buffer, process_set,
  read_noreply, make_set_req, with_bytes, process_set_first_line, by_command, process_first_line,
  feed_line, feed_by, feed, feed_all, k_max_token_count,
}

concat_nil : (pieces : List (List ℕ)) → length (concat pieces) ≡ 0 → concat pieces ≡ []
concat_nil pieces h = nil_of (concat pieces) h
  where
    nil_of : (xs : List ℕ) → length xs ≡ 0 → xs ≡ []
    nil_of [] h = refl
    nil_of (x ∷ xs) h = absurd (omega (arith, h))

module _ (lexical_cast : List ℕ → Option ℕ) (p : InitParam) (behind : ℕ) where
  -- Nothing arrives any more.
  feed_all_nil :
      (d : MemcachedReqDecoder) (pieces : List (List ℕ))
      → length (concat pieces) ≡ 0
      → feed_all lexical_cast p behind d pieces ≡ ok ([], d)
  unfolding feed_all feed
  feed_all_nil d [] h = refl
  feed_all_nil d ([] ∷ pieces) h = elim (Bool-cases (ltb (get_buffer d) 0)) [
    | inl t ↦ absurd (omega (arith, ltb→lt (get_buffer d) 0 t))
    | inr f ↦ rw f (feed_all_nil d pieces h)
  ]
  feed_all_nil d ((c ∷ piece) ∷ pieces) h = absurd (omega (arith, h))

  module _ (req : MemcachedSetReq) (line_len total : ℕ) where
    -- The first line has been read.
    abbrev waiting : ℕ → List ℕ → MemcachedReqDecoder
    waiting capacity data_ = record {
      capacity = capacity;
      data_ = data_;
      parsed_data_len = 0;
      req_total_len = total;
      first_line_len = line_len;
      msg = some req;
    }

    abbrev reported : List ℕ → Outcome (List MemcachedReq × MemcachedReqDecoder)
    reported data_ = ok (set_req req (drop line_len data_) ∷ [], reset p)

    -- `ProcessSet` when more is to come, and when all has come.
    settle :
        (capacity : ℕ) (data_ : List ℕ) (pieces : List (List ℕ))
        → length data_ + length (concat pieces) ≡ total
        → ((capacity' : ℕ)
            → total ≤ capacity'
            → 0 < length (concat pieces)
            → feed_all lexical_cast p behind (waiting capacity' data_) pieces
              ≡ reported (data_ ++ concat pieces))
        → report_then
            (process_set p (waiting capacity data_) req).0
            (feed_all lexical_cast p behind (process_set p (waiting capacity data_) req).1 pieces)
          ≡ reported (data_ ++ concat pieces)
    unfolding process_set
    settle capacity data_ pieces len more = elim (ℕ_discrete (length (concat pieces)) 0) [
      | yes none_left ↦
          let all : (length data_ == total) ≡ true =
            (==_iff _ _).1 (omega (arith, len, none_left)) in
          let whole : data_ ++ concat pieces ≡ data_ =
            ap (λ s. data_ ++ s) (concat_nil pieces none_left) ∙ append-nil data_ in
          rw (all, feed_all_nil (reset p) pieces none_left, whole) refl
      | no some_left ↦
          let part : (length data_ == total) ≡ false =
            ne→== _ _ (λ e. some_left (omega (arith, len, e))) in
          let less : ltb (length data_) total ≡ true = lt→ltb _ _ (omega (arith, len, some_left)) in
          let room = if ltb capacity total then total else capacity in
          let enough : total ≤ room = ground arith in
          rw (part, less) (more room enough (omega (arith, some_left)))
    ]

    feed_rest :
        (capacity : ℕ) (data_ : List ℕ) (pieces : List (List ℕ))
        → length data_ + length (concat pieces) ≡ total
        → total ≤ capacity
        → 0 < length (concat pieces)
        → feed_all lexical_cast p behind (waiting capacity data_) pieces
          ≡ reported (data_ ++ concat pieces)
    unfolding feed_all feed feed_by get_buffer
    feed_rest capacity data_ [] len fits h = absurd (omega arith)
    feed_rest capacity data_ ([] ∷ pieces) len fits h =
        elim (Bool-cases (ltb (capacity - length data_) 0)) [
          | inl t ↦ absurd (omega (arith, ltb→lt _ _ t))
          | inr f ↦ rw f (feed_rest capacity data_ pieces len fits h)
        ]
    feed_rest capacity data_ ((c ∷ piece) ∷ pieces) len fits h =
        let all = length-append (c ∷ piece) (concat pieces) in
        let now = length-append data_ (c ∷ piece) in
        let fits_now : ltb (capacity - length data_) (length (c ∷ piece)) ≡ false =
          ground (arith, all) in
        let len' : length (data_ ++ c ∷ piece) + length (concat pieces) ≡ total =
          omega (arith, len, all, now) in
        rw (fits_now) (
          settle capacity (data_ ++ c ∷ piece) pieces len'
            (λ capacity' fits' h'. feed_rest capacity' (data_ ++ c ∷ piece) pieces len' fits' h')
          ∙ ap reported (append_assoc data_ (c ∷ piece) (concat pieces)))

abbrev set_text : List ℕ
set_text = b's' ∷ b'e' ∷ b't' ∷ []

set-IsWord : IsWord set_text
set-IsWord = ((refl, refl), ((refl, refl), ((refl, refl), tt)))

-- The decoder when the first line has been found.
abbrev found_line : InitParam → ℕ → List ℕ → MemcachedReqDecoder
found_line p line_len data_ = record {
  capacity = p.buf_start_len;
  data_ = data_;
  parsed_data_len = 0;
  req_total_len = 0;
  first_line_len = line_len;
  msg = none;
}

feed_first :
    (lexical_cast : List ℕ → Option ℕ) (p : InitParam) (behind : ℕ) (whole : List ℕ) (n : ℕ)
    (tokens : List (List ℕ))
    → 0 < length whole
    → search_eol whole ≡ some n
    → tokenizer_command 0 (take (0 + n + 2) whole) k_max_token_count ≡ some tokens
    → feed lexical_cast p behind (reset p) whole
      ≡ by_command lexical_cast p (found_line p (0 + n + 2) whole) (some tokens)
unfolding feed feed_by feed_line process_first_line reset
feed_first lexical_cast p behind [] n tokens h found cut = absurd (omega arith)
feed_first lexical_cast p behind (c ∷ whole) n tokens h found cut = rw (found, cut) refl

-- `set <key> <flags> <exptime> <bytes>` and the line end.
unfoldable pub set_line : List ℕ → List ℕ → List ℕ → List ℕ → List ℕ
set_line key flags exptime bytes = line set_text (key ∷ flags ∷ exptime ∷ bytes ∷ [])

module _ (lexical_cast : List ℕ → Option ℕ) (p : InitParam) (behind : ℕ)
    (key flags_text exptime_text bytes_text : List ℕ) (flags exptime bytes : ℕ) where
  -- The texts are words, and the last three stand for numbers.
  pub record IsSetLine : Type 0 where
    pub key_word : IsWord key
    pub flags_word : IsWord flags_text
    pub exptime_word : IsWord exptime_text
    pub bytes_word : IsWord bytes_text
    pub flags_cast : lexical_cast flags_text ≡ some flags
    pub exptime_cast : lexical_cast exptime_text ≡ some exptime
    pub bytes_cast : lexical_cast bytes_text ≡ some bytes

  abbrev pub the_line : List ℕ
  the_line = set_line key flags_text exptime_text bytes_text

  -- The length of the whole request.
  abbrev pub total_of : ℕ
  total_of = bytes + 2 + length the_line

  abbrev pub request_of : MemcachedSetReq
  request_of = record {
    key = key;
    flags = flags;
    exptime = exptime;
    bytes = bytes;
    total = total_of;
    noreply = none;
  }

  abbrev words : List (List ℕ)
  words = key ∷ flags_text ∷ exptime_text ∷ bytes_text ∷ []

  abbrev tokens : List (List ℕ)
  tokens = set_text ∷ words

  by_command_set :
      (data_ : List ℕ)
      → IsSetLine
      → total_of ≤ p.buf_max_len
      → p.buf_max_len < 0x1_0000_0000
      → by_command lexical_cast p (found_line p (length the_line) data_) (some tokens)
        ≡ process_set p
            (waiting lexical_cast p behind request_of
              (length the_line)
              total_of
              p.buf_start_len
              data_)
            request_of
  unfolding by_command begins process_set_first_line with_bytes read_noreply make_set_req
  by_command_set data_ v fits small =
      let same : u32 total_of ≡ total_of = omega arith in
      let room : ltb p.buf_max_len total_of ≡ false = ground arith in
      rw (v.bytes_cast, v.flags_cast, v.exptime_cast, same, room) refl

  first_piece :
      (part : List ℕ)
      → IsSetLine
      → total_of ≤ p.buf_max_len
      → p.buf_max_len < 0x1_0000_0000
      → feed lexical_cast p behind (reset p) (the_line ++ part)
        ≡ process_set p
            (waiting lexical_cast p behind request_of
              (length the_line)
              total_of
              p.buf_start_len
              (the_line ++ part))
            request_of
  unfolding set_line
  first_piece part v fits small =
      let others : All IsWord words =
        (v.key_word, (v.flags_word, (v.exptime_word, (v.bytes_word, tt)))) in
      let (n, found, len) = search_eol-line set_text words part set-IsWord others in
      let whole : 0 + n + 2 ≡ length the_line = omega (arith, len) in
      let cut : tokenizer_command 0 (take (0 + n + 2) (the_line ++ part)) k_max_token_count
          ≡ some tokens =
        ap (λ k. tokenizer_command 0 (take k (the_line ++ part)) k_max_token_count) whole
        ∙ ap (λ l. tokenizer_command 0 l k_max_token_count) (take-append_left the_line part)
        ∙ tokenizer_command-line 0 k_max_token_count set_text words (omega arith) set-IsWord
            others in
      feed_first lexical_cast p behind (the_line ++ part) n tokens
        (omega (arith, length-append the_line part, len)) found cut
      ∙ ap (λ k. by_command lexical_cast p (found_line p k (the_line ++ part)) (some tokens)) whole
      ∙ by_command_set (the_line ++ part) v fits small

  room_for :
      (piece : List ℕ)
      → length piece ≤ p.buf_start_len
      → ltb (get_buffer (reset p)) (length piece) ≡ false
  unfolding get_buffer reset
  room_for piece h = ground arith

  -- Let the line of a set request be made of words, of which the numbers are cast as they should,
  -- and the whole request fit the limit of the buffer. However the value and its line end are split
  -- behind the first piece, which holds the line and fits the buffer, there is room for every piece,
  -- one request is reported with its numbers and its value, and the decoder starts again.
  pub feed_all_set :
      (value part : List ℕ) (pieces : List (List ℕ))
      → IsSetLine
      → length value ≡ bytes
      → part ++ concat pieces ≡ value ++ cr ∷ lf ∷ []
      → length (the_line ++ part) ≤ p.buf_start_len
      → total_of ≤ p.buf_max_len
      → p.buf_max_len < 0x1_0000_0000
      → feed_all lexical_cast p behind (reset p) ((the_line ++ part) ∷ pieces)
        ≡ ok (set_req request_of (value ++ cr ∷ lf ∷ []) ∷ [], reset p)
  unfolding feed_all
  feed_all_set value part pieces v len parts first fits small =
      let room : ltb (get_buffer (reset p)) (length (the_line ++ part)) ≡ false =
        room_for (the_line ++ part) first in
      let whole : length (the_line ++ part) + length (concat pieces) ≡ total_of = omega (
        arith,
        length-append the_line part,
        length-append part (concat pieces),
        ap length parts,
        length-append value (cr ∷ lf ∷ []),
        len,
      ) in
      rw (room, first_piece part v fits small)
        (settle lexical_cast p behind request_of (length the_line) total_of p.buf_start_len
            (the_line ++ part) pieces whole
            (λ capacity' fits' h'.
              feed_rest lexical_cast p behind request_of (length the_line) total_of capacity'
                (the_line ++ part) pieces whole fits' h')
          ∙ ap (λ s. ok (set_req request_of s ∷ [], reset p))
              (ap (drop (length the_line)) (append_assoc the_line part (concat pieces))
                ∙ drop-append_left the_line (part ++ concat pieces)
                ∙ parts))
