-- ===== src/Blitz/HttpReq/Split.antt =====
-- Feed of a request whose header comes after its first line: `status_` stays at the first line.
use mlsimgsearch.Prelude.{
  ◌==◌, lt→ltb, le→leb, Bool-cases, length, set, length-append, drop, drop-append_left, Outcome, ok,
  err, ℕ, zero, suc, ◌+◌, ◌*◌, ◌≤◌, ◌<◌, ◌≡◌, refl, sym, ap, ◌∙◌, inl, inr, Bool, true, false, none,
  some, List, [], ◌∷◌, ◌++◌, append-nil, arith,
}
use mlsimgsearch.Prelude.Int.{pos, negsuc}
use mlsimgsearch.Blitz.Uri.{HttpRequest, parse_uri}
use mlsimgsearch.Blitz.Uri.Params.{Avoids}
use mlsimgsearch.Blitz.HttpReq.{
  HttpReqDecoder, new_message, k_first_line, cr, lf, search_eol, begins_with, read_method,
  has_prefix, to_lower, first_line, parse_header, header_round, parse_first_line, conclude, feed,
}
use mlsimgsearch.Blitz.HttpReq.Lines.{search_eol_line}
use mlsimgsearch.Blitz.HttpReq.FirstLine.{
  fresh, request_line, past_first, parse_first_line_run, feed_run,
}

set_past : (a b : List ℕ) (i v n : ℕ) → n ≡ length a + i → set (a ++ b) n v ≡ a ++ set b i v
set_past [] b i v n e = ap (λ k. set b k v) {x = n} {y = i} (omega arith)
set_past (x ∷ a) b i v zero e = absurd (omega arith)
set_past (x ∷ a) b i v (suc n) e = ap (◌∷◌ x) (set_past a b i v n (omega arith))

abbrev pub get_verb : List ℕ
get_verb = b'g' ∷ b'e' ∷ b't' ∷ b' ' ∷ []

abbrev pub post_verb : List ℕ
post_verb = b'p' ∷ b'o' ∷ b's' ∷ b't' ∷ b' ' ∷ []

-- Enough text is compared in full.
begins_with-append :
    (prefix text t : List ℕ)
    → length prefix ≤ length text
    → begins_with prefix (text ++ t) ≡ ok (has_prefix prefix text)
unfolding begins_with has_prefix
begins_with-append [] text t h = refl
begins_with-append (p ∷ prefix) [] t h = absurd (omega arith)
begins_with-append (p ∷ prefix) (c ∷ text) t h = elim (Bool-cases (to_lower c == p)) [
  | inl e ↦ rw e (begins_with-append prefix text t (omega arith))
  | inr e ↦ rw e refl
]

read_method_other :
    (text t : List ℕ)
    → 5 ≤ length text
    → has_prefix get_verb text ≡ false
    → has_prefix post_verb text ≡ false
    → read_method (text ++ t) ≡ err 1
unfolding read_method
read_method_other text t l g p =
    rw
      (
        begins_with-append get_verb text t (omega arith) ∙ ap ok g,
        begins_with-append post_verb text t (omega arith) ∙ ap ok p,
      )
      refl

-- A later line taken for a first line is no request line.
first_line_other :
    (d : HttpReqDecoder) (line_end next : ℕ) (text tail : List ℕ)
    → 5 ≤ length text
    → has_prefix get_verb text ≡ false
    → has_prefix post_verb text ≡ false
    → d.line_start + line_end < d.max_header_size
    → drop d.line_start (set d.header_ (d.line_start + line_end) 0) ≡ text ++ tail
    → first_line d (some line_end, next) ≡ err 1
unfolding first_line
first_line_other d line_end next text tail l g p inside e =
    rw (lt→ltb _ _ inside, e, read_method_other text tail l g p) refl

parse_header_nothing :
    (fuel : ℕ) (d : HttpReqDecoder)
    → drop d.parse_pos d.header_ ≡ []
    → parse_header (suc fuel) d ≡ ok (0, d)
unfolding parse_header header_round search_eol
parse_header_nothing fuel d e = rw e refl

feed_first_line :
    (d : HttpReqDecoder) (read : List ℕ) (o : Outcome (ℕ × HttpReqDecoder))
    → (d.status == k_first_line) ≡ true
    → length (d.header_ ++ read) ≤ d.max_header_size
    → parse_first_line (record d { header_ = d.header_ ++ read }) ≡ o
    → feed d read ≡ conclude (record d { header_ = d.header_ ++ read }) o
unfolding feed
feed_first_line d read o s h e =
    rw (s, le→leb _ _ h) (ap (conclude (record d { header_ = d.header_ ++ read })) e)

-- When the request line arrives alone, Feed waits, and the decoder still expects a first line: if
-- the next read starts with a line of five characters or more that does not start with a method, and
-- that has no CR, Feed returns -1, the request is not reported, and the decoder is as new. The buffer
-- has room for the request line twice, where the code writes a NUL, and for all that is read.
pub feed_split :
    (size : ℕ) (post : Bool) (target version : List ℕ) (last : ℕ) (request : HttpRequest)
    (line more : List ℕ)
    → Avoids cr (request_line post target version last)
    → Avoids 0 (request_line post target version last)
    → Avoids b' ' target
    → parse_uri new_message.request target ≡ ok request
    → Avoids cr line
    → 5 ≤ length line
    → has_prefix get_verb line ≡ false
    → has_prefix post_verb line ≡ false
    → length (request_line post target version last ++ cr ∷ lf ∷ (line ++ cr ∷ lf ∷ more)) ≤ size
    → 2 * length (request_line post target version last) + 4 + length line < size
    → (d : HttpReqDecoder) × (feed
          (fresh size)
          (request_line post target version last ++ cr ∷ lf ∷ [])
        ≡ ok (pos 0, none, d))
      × (feed d (line ++ cr ∷ lf ∷ more) ≡ ok (negsuc 0, none, fresh size))
unfolding parse_first_line conclude
feed_split size post target version last request line more ac az ab er lc long g p fits twice =
    let first : List ℕ = request_line post target version last in
    let d = past_first size post first last [] request in
    let n : ℕ = 0 + length first + 2 in
    let start : List ℕ = first ++ 0 ∷ lf ∷ [] in
    let at_start : n ≡ length start = omega (arith, length-append first (0 ∷ lf ∷ [])) in
    let read : List ℕ = line ++ cr ∷ lf ∷ more in
    let d2 = record d { header_ = start ++ read } in
    let behind : List ℕ = cr ∷ lf ∷ more in
    let e : ℕ = n + length line in
    let seen : search_eol n (drop n (start ++ read)) ≡ (some e, e + 2) =
      ap (search_eol n) (ap (λ k. drop k (start ++ read)) at_start ∙ drop-append_left start read)
      ∙ search_eol_line n line more lc in
    let wiped : drop n (set (start ++ read) (n + e) 0) ≡ line ++ set behind n 0 =
      ap (drop n) (set_past start read e 0 (n + e) (omega arith))
      ∙ ap (λ k. drop k (start ++ set read e 0)) at_start
      ∙ drop-append_left start (set read e 0)
      ∙ set_past line behind n 0 e (omega arith) in
    let nothing : drop n start ≡ [] =
      ap (λ k. drop k start) at_start
      ∙ ap (drop (length start)) (sym (append-nil start))
      ∙ drop-append_left start [] in
    let room : length (start ++ read) ≤ size = omega (
      arith,
      fits,
      length-append start read,
      length-append first (0 ∷ lf ∷ []),
      length-append first (cr ∷ lf ∷ read),
    ) in
    let room_first : length (first ++ cr ∷ lf ∷ []) ≤ size =
      omega
        (arith, fits, length-append first (cr ∷ lf ∷ []), length-append first (cr ∷ lf ∷ read)) in
    (
      d,
      feed_run size (first ++ cr ∷ lf ∷ []) (ok (0, d)) room_first (
          parse_first_line_run size post target version last [] request ac az ab er room_first
          ∙ parse_header_nothing (length (first ++ 0 ∷ lf ∷ [])) d nothing),
      feed_first_line d read (err 1) refl room (
          ap (first_line d2) seen
          ∙ first_line_other d2 e (e + 2) line (set behind n 0) long g p (omega (arith, twice))
              wiped),
    )
