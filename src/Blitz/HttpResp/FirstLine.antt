-- ===== src/Blitz/HttpResp/FirstLine.antt =====
-- ParseFirstLine of HttpRespDecoder at the start of a response, and the end of its header.
use mlsimgsearch.Prelude.{
  lt→ltb, ==_iff, le→leb, length, set, drop, All, Outcome, ok, ℕ, suc, ◌+◌, ◌≤◌, ◌<◌, ◌≡◌, refl, ap,
  ◌∙◌, none, some, List, [], ◌∷◌, ◌++◌, arith,
}
use mlsimgsearch.Prelude.Int.{ℤ, pos}
use mlsimgsearch.Blitz.Memcached.{codes}
use mlsimgsearch.Blitz.Uri.Params.{Avoids}
use mlsimgsearch.Blitz.HttpReq.{cr, lf, has_prefix}
use mlsimgsearch.Blitz.HttpReq.Lines.{search_eol_line}
use mlsimgsearch.Blitz.HttpReq.FirstLine.{set-append}
use mlsimgsearch.Blitz.BufferWriter.Decimal.{IsDigit, read_digits}
use mlsimgsearch.Blitz.HttpResponse.{new_response}
use mlsimgsearch.Blitz.HttpChunks.{HttpRespDecoder, k_first_line, k_body, atoi}
use mlsimgsearch.Blitz.HttpResp.{
  get_header, read_body, with_length, end_header, parse_header, minor_of, first_line,
  parse_first_line, conclude, feed,
}
use mlsimgsearch.Blitz.HttpResp.Headers.{atoi_digits}

-- A decoder as new, with a buffer.
abbrev pub fresh : ℕ → HttpRespDecoder
fresh size = record {
  response = new_response;
  status = k_first_line;
  body = none;
  body_length = 0;
  buf_capacity = size;
  buf_ = [];
  line_start = 0;
  parse_pos = 0;
  chunk_size = pos 0;
  chunk_left = pos 0;
}

-- The first line: the version and what follows it.
abbrev pub status_line : ℕ → List ℕ → List ℕ
status_line last text = codes "HTTP/1." ++ last ∷ b' ' ∷ text

-- The decoder behind the first line.
abbrev pub past_first : ℕ → ℕ → List ℕ → List ℕ → ℕ → ℤ → HttpRespDecoder
past_first size last text after minor code = record (fresh size) {
  response = record new_response { version_minor = minor; code = code };
  buf_ = status_line last text ++ 0 ∷ lf ∷ after;
  line_start = 0 + length (status_line last text) + 2;
  parse_pos = 0 + length (status_line last text) + 2;
}

first_line_run :
    (d : HttpRespDecoder) (line_end next last minor : ℕ) (buf_ text : List ℕ) (code : ℤ)
    → d.line_start + line_end < d.buf_capacity
    → set d.buf_ (d.line_start + line_end) 0 ≡ buf_
    → drop d.line_start buf_ ≡ status_line last text
    → minor_of last ≡ ok minor
    → atoi text ≡ ok code
    → first_line d (some line_end, next)
      ≡ parse_header (suc (length buf_)) (record d {
        response = record d.response { version_minor = minor; code = code };
        buf_ = buf_;
        line_start = next;
        parse_pos = next;
      })
unfolding first_line has_prefix
first_line_run d line_end next last minor buf_ text code fits e1 e2 m c =
    rw (lt→ltb _ _ fits, e1, e2, m, c) refl

pub parse_first_line_run :
    (size last minor : ℕ) (text after : List ℕ) (code : ℤ)
    → Avoids cr (status_line last text)
    → length (status_line last text) < size
    → minor_of last ≡ ok minor
    → atoi (text ++ 0 ∷ lf ∷ after) ≡ ok code
    → parse_first_line (record (fresh size) { buf_ = status_line last text ++ cr ∷ lf ∷ after })
      ≡ parse_header
          (suc (length (status_line last text ++ 0 ∷ lf ∷ after)))
          (past_first size last text after minor code)
unfolding parse_first_line
parse_first_line_run size last minor text after code ac fits m c =
    ap (first_line (record (fresh size) { buf_ = status_line last text ++ cr ∷ lf ∷ after }))
      (search_eol_line 0 (status_line last text) after ac)
    ∙ first_line_run (record (fresh size) { buf_ = status_line last text ++ cr ∷ lf ∷ after })
        (0 + length (status_line last text)) (0 + length (status_line last text) + 2) last minor
        (status_line last text ++ 0 ∷ lf ∷ after) (text ++ 0 ∷ lf ∷ after) code
        (omega (arith, fits))
        (ap (λ n. set (status_line last text ++ cr ∷ lf ∷ after) n 0)
            {x = 0 + (0 + length (status_line last text))} {y = length (status_line last text)}
            (omega arith)
          ∙ set-append (status_line last text) cr 0 (lf ∷ after))
        refl m c

-- At the end of the header the whole body is there.
pub end_header_whole :
    (d : HttpRespDecoder) (b : ℕ) (body digits : List ℕ) (k : ℕ)
    → drop d.parse_pos d.buf_ ≡ b ∷ body
    → get_header (codes "Transfer-Encoding") d.response.headers ≡ none
    → get_header (codes "Content-Length") d.response.headers ≡ some (k ∷ digits)
    → All IsDigit (k ∷ digits)
    → read_digits 0 (k ∷ digits) ≡ length (b ∷ body)
    → length (b ∷ body) < 0x8000_0000
    → end_header d
      ≡ ok
          (1, record d { body_length = length (b ∷ body); status = k_body; body = some (b ∷ body) })
unfolding end_header with_length read_body
end_header_whole d b body digits k left te cl hs e small =
    let n = atoi_digits k digits 0 [] hs refl (omega (arith, e)) ∙ ap (λ n. ok (pos n)) e in
    rw
      (
        te,
        cl,
        n,
        left,
        le→leb (length (b ∷ body)) (length (b ∷ body)) (omega arith),
        (==_iff (suc (length body)) (suc (length body))).1 refl,
      )
      refl

pub feed_run :
    (size : ℕ) (text : List ℕ) (o : Outcome (ℕ × HttpRespDecoder))
    → length text ≤ size
    → parse_first_line (record (fresh size) { buf_ = text }) ≡ o
    → feed (fresh size) text ≡ conclude (record (fresh size) { buf_ = text }) o
unfolding feed
feed_run size text o h e = rw (le→leb _ _ h) (ap (conclude (record (fresh size) { buf_ = text })) e)
