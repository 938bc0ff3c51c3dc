-- ===== src/Blitz/MemcachedReq/Split.antt =====
-- A first line whose CR and LF arrive in two pieces is not found.
use mlsimgsearch.Prelude.{
  ltb, leb, ◌==◌, lt→ltb, length, get_elem?, length-append, drop, drop-append_left, All, ok, ℕ,
  zero, suc, ◌+◌, ◌≤◌, ◌<◌, ◌≡◌, refl, ap, ◌∙◌, ◌⊎◌, inl, inr, true, false, Option, none, List, [],
  ◌∷◌, ◌++◌, arith,
}
use mlsimgsearch.Blitz.Memcached.{InitParam, cr, lf, done, past_one, search_eol, byte_at}
use mlsimgsearch.Blitz.MemcachedReq.{
  MemcachedReqDecoder, reset, get_buffer, no_line_end, feed_line, feed_by, feed, feed_all,
}

-- No LF follows.
abbrev pub NoLf : List ℕ → Type 0
NoLf = All (λ c. (c == lf) ≡ false)

no_eol : (c : ℕ) (s : List ℕ) → NoLf s → search_eol (c ∷ s) ≡ none
unfolding search_eol
no_eol c [] h = refl
no_eol c (d ∷ s) (h, hs) = rw h (ap past_one (no_eol d s hs))

end_of_list : (xs : List ℕ) (i : ℕ) → length xs ≤ i → get_elem? xs i ≡ none
end_of_list [] i h = refl
end_of_list (x ∷ xs) zero h = absurd (omega arith)
end_of_list (x ∷ xs) (suc i) h = end_of_list xs i (omega arith)

NoLf-cr : (text : List ℕ) → NoLf text → NoLf (text ++ cr ∷ [])
NoLf-cr [] h = (refl, tt)
NoLf-cr (c ∷ text) (h, hs) = (h, NoLf-cr text hs)

module _ (lexical_cast : List ℕ → Option ℕ) (p : InitParam) (behind : ℕ) where
  -- Bytes without a line end have been read.
  abbrev pub unfinished : List ℕ → MemcachedReqDecoder
  unfinished data_ = record {
    capacity = p.buf_start_len;
    data_ = data_;
    parsed_data_len = length data_;
    req_total_len = 0;
    first_line_len = 0;
    msg = none;
  }

  quiet :
      (data_ piece : List ℕ)
      → 0 < length piece
      → NoLf piece ⊎ ((rest : List ℕ) × (piece ≡ lf ∷ rest) × NoLf rest)
      → (behind == cr) ≡ false
      → length data_ + length piece < p.buf_start_len
      → feed lexical_cast p behind (unfinished data_) piece
        ≡ (done none, unfinished (data_ ++ piece))
  unfolding feed feed_by feed_line no_line_end byte_at
  quiet data_ [] h s b room = absurd (omega arith)
  quiet data_ (c ∷ piece) h s b room =
      let len = length-append data_ (c ∷ piece) in
      let new : drop (length data_) (data_ ++ c ∷ piece) ≡ c ∷ piece =
        drop-append_left data_ (c ∷ piece) in
      let no_line : search_eol (c ∷ piece) ≡ none = elim s [
        | inl no_lf ↦ no_eol c piece no_lf.1
        | inr (rest, e, no_lf) ↦ ap search_eol e ∙ no_eol lf rest no_lf
      ] in
      let past : get_elem? (data_ ++ c ∷ piece) (length data_ + length (c ∷ piece)) ≡ none =
        end_of_list (data_ ++ c ∷ piece) (length data_ + length (c ∷ piece)) (omega (arith, len)) in
      let within : ltb (length data_ + length (c ∷ piece)) p.buf_start_len ≡ true =
        lt→ltb _ _ room in
      let more : leb p.buf_start_len (length (data_ ++ c ∷ piece)) ≡ false = ground (arith, len) in
      rw (new, no_line, past, within, b, more) refl

  room_for :
      (data_ piece : List ℕ)
      → length data_ + length piece < p.buf_start_len
      → ltb (get_buffer (unfinished data_)) (length piece) ≡ false
  unfolding get_buffer
  room_for data_ piece h = ground arith

  -- When the first line, with no LF in it, is split between its CR and its LF, what follows has no
  -- LF either, the buffer is larger than both, and the byte behind the first piece is no CR, then
  -- both pieces are taken and no request is reported: the line end is passed over.
  pub feed_all_missed :
      (text rest : List ℕ)
      → NoLf text
      → NoLf rest
      → (behind == cr) ≡ false
      → length (text ++ cr ∷ []) + length (lf ∷ rest) < p.buf_start_len
      → feed_all lexical_cast p behind (reset p) ((text ++ cr ∷ []) ∷ (lf ∷ rest) ∷ [])
        ≡ ok ([], unfinished ((text ++ cr ∷ []) ++ lf ∷ rest))
  unfolding feed_all reset
  feed_all_missed text rest no_lf no_lf' b room =
      let first = text ++ cr ∷ [] in
      let len = length-append text (cr ∷ []) in
      rw
        (
          room_for [] first (omega arith),
          quiet [] first (omega (arith, len)) (inl (NoLf-cr text no_lf)) b (omega arith),
          room_for first (lf ∷ rest) room,
          quiet first (lf ∷ rest) (omega arith) (inr (rest, refl, no_lf')) b room,
        )
        refl
