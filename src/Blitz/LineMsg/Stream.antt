-- ===== src/Blitz/LineMsg/Stream.antt =====
-- The lines of a stream do not depend on the pieces in which it arrives.
use mlsimgsearch.Prelude.{
  ◌==◌, Bool-cases, if_cases, concat, ℕ, ◌≡◌, refl, sym, subst, ◌⊎◌, inl, inr, false, List, [], ◌∷◌,
  ◌++◌, append-nil, append_assoc, arith,
}
use mlsimgsearch.Blitz.LineMsg.{LineMsgDecoder, scan, is_empty, empty_lines, feed}

-- No byte is lost, and none is added.
pub concat-scan :
    (line bytes : List ℕ) → concat (scan line bytes).0 ++ (scan line bytes).1 ≡ line ++ bytes
unfolding scan
concat-scan line [] = rw (append-nil line) refl
concat-scan line (c ∷ bytes) =
    if_cases (λ (r : List (List ℕ) × List ℕ). concat r.0 ++ r.1 ≡ line ++ c ∷ bytes) (c == b'\n')
      (λ _.
        rw
          (
            append_assoc (line ++ c ∷ []) (concat (scan [] bytes).0) (scan [] bytes).1,
            concat-scan [] bytes,
            append_assoc line (c ∷ []) bytes,
          )
          refl)
      (λ _. rw (concat-scan (line ++ c ∷ []) bytes, append_assoc line (c ∷ []) bytes) refl)

-- A stream in two pieces: the second goes on with what the first has left.
pub scan-append :
    (line xs ys : List ℕ)
    → scan line (xs ++ ys)
      ≡ ((scan line xs).0 ++ (scan (scan line xs).1 ys).0, (scan (scan line xs).1 ys).1)
unfolding scan
scan-append line [] ys = refl
scan-append line (c ∷ xs) ys = elim (Bool-cases (c == b'\n')) [
  | inl t ↦ rw (t, scan-append [] xs ys) refl
  | inr f ↦ rw (f, scan-append (line ++ c ∷ []) xs ys) refl
]

lines_cases : (lines : List (List ℕ)) → (lines ≡ []) ⊎ (empty_lines lines ≡ false)
lines_cases [] = inl refl
lines_cases (l ∷ ls) = inr refl

feed_lines :
    (unset : List ℕ) (d : LineMsgDecoder) (bytes : List ℕ)
    → (feed unset d bytes).0 ≡ (scan d.prefix bytes).0
unfolding feed
feed_lines unset d bytes = elim (lines_cases (scan d.prefix bytes).0) [
  | inl none_yet ↦ rw (none_yet) refl
  | inr some_line ↦ ground (arith, some_line)
]

feed_rest :
    (unset : List ℕ) (d : LineMsgDecoder) (bytes : List ℕ)
    → is_empty (scan d.prefix bytes).1 ≡ false
    → (feed unset d bytes).1.prefix ≡ (scan d.prefix bytes).1
unfolding feed
feed_rest unset d bytes h = elim (lines_cases (scan d.prefix bytes).0) [
  | inl none_yet ↦
      let whole : d.prefix ++ bytes ≡ (scan d.prefix bytes).1 = sym (
        subst (λ ls. concat ls ++ (scan d.prefix bytes).1 ≡ d.prefix ++ bytes) none_yet
          (concat-scan d.prefix bytes)) in
      rw (none_yet) whole
  | inr some_line ↦ ground (arith, some_line, h)
]

-- When the first piece of a stream does not end with a line, feeding it in two pieces reports the
-- lines that feeding it at once reports, in order.
pub feed-append :
    (unset : List ℕ) (d : LineMsgDecoder) (xs ys : List ℕ)
    → is_empty (scan d.prefix xs).1 ≡ false
    → (feed unset d (xs ++ ys)).0 ≡ (feed unset d xs).0 ++ (feed unset (feed unset d xs).1 ys).0
feed-append unset d xs ys h =
    rw
      (
        feed_lines unset d (xs ++ ys),
        feed_lines unset d xs,
        feed_lines unset (feed unset d xs).1 ys,
        feed_rest unset d xs h,
        scan-append d.prefix xs ys,
      )
      refl
