-- ===== src/Blitz/HttpResp/Whole.antt =====
-- A response that CreateOutMsg has made arrives in one piece.
use mlsimgsearch.Prelude.{
  ◌==◌, lt→ltb, ne→==, if_cases, length, length-append, All, ok-eq-ok, ok, ℕ, suc, ◌+◌, ◌≤◌, ◌<◌,
  ◌≡◌, refl, sym, ap, ap₂, ◌∙◌, subst, some, List, [], ◌∷◌, ◌++◌, append_assoc, arith,
}
use mlsimgsearch.Prelude.Int.{ℤ, pos, negsuc}
use mlsimgsearch.Blitz.Memcached.{codes}
use mlsimgsearch.Blitz.Uri.Params.{Avoids}
use mlsimgsearch.Blitz.HttpReq.{cr, lf}
use mlsimgsearch.Blitz.HttpReq.Lines.{print_headers, set_headers, Avoids-append}
use mlsimgsearch.Blitz.HttpReq.FirstLine.{length-print_headers}
use mlsimgsearch.Blitz.BufferWriter.Decimal.{IsDigit, read_digits}
use mlsimgsearch.Blitz.HttpResponse.{HttpResponse, get_code_str, first_line_text, create_out_msg}
use mlsimgsearch.Blitz.HttpResponse.Printed.{
  Digits, Moderate, Moderate-content, status_text, first_line_text-status_text, create_out_msg_lem,
}
use mlsimgsearch.Blitz.HttpChunks.{HttpRespDecoder, k_body, reset, atoi}
use mlsimgsearch.Blitz.HttpResp.{minor_of, conclude, parse_first_line, feed}
use mlsimgsearch.Blitz.HttpResp.Lines.{Field, Fields, behind, with_headers, parse_header-Fields}
use mlsimgsearch.Blitz.HttpResp.Headers.{
  get_header_last, get_header-none, Differ, Differ-append, set_headers-Differ, atoi_digits,
}
use mlsimgsearch.Blitz.HttpResp.FirstLine.{
  fresh, status_line, past_first, parse_first_line_run, end_header_whole, feed_run,
}

Digits-Avoids : (c : ℕ) (digits : List ℕ) → c < b'0' → All IsDigit digits → Avoids c digits
Digits-Avoids c [] h hs = tt
Digits-Avoids c (d ∷ digits) h ((k, l), hs) =
    (ne→== d c (λ e. omega (arith, e)), Digits-Avoids c digits h hs)

internal : Avoids cr (codes "Internal Server Error")
internal = (
  refl,
  (
    refl,
    (
      refl,
      (
        refl,
        (
          refl,
          (
            refl,
            (
              refl,
              (
                refl,
                (
                  refl,
                  (
                    refl,
                    (
                      refl,
                      (
                        refl,
                        (refl, (refl, (refl, (refl, (refl, (refl, (refl, (refl, (refl, tt))))))))),
                      ),
                    ),
                  ),
                ),
              ),
            ),
          ),
        ),
      ),
    ),
  ),
)

code_str-Avoids : (code : ℤ) → Avoids cr (get_code_str code)
unfolding get_code_str
code_str-Avoids (pos code) =
    if_cases (Avoids cr) (code == 200) (λ _. (refl, (refl, tt)))
      (λ _.
        if_cases (Avoids cr) (code == 404)
          (λ _. (refl, (refl, (refl, (refl, (refl, (refl, (refl, (refl, (refl, tt))))))))))
          (λ _. internal))
code_str-Avoids (negsuc n) = internal

Fields-append : (xs ys : List (List ℕ × List ℕ)) → Fields xs → Fields ys → Fields (xs ++ ys)
Fields-append [] ys hs ks = ks
Fields-append ((name, value) ∷ xs) ys (h, hs) ks = (h, Fields-append xs ys hs ks)

-- The first line as far as its end.
abbrev text_of : ℕ → List ℕ → HttpResponse → List ℕ
text_of k ks r = (k ∷ ks) ++ b' ' ∷ get_code_str r.code

first_line_same :
    (show : ℤ → List ℕ) (r : HttpResponse) (last k : ℕ) (ks : List ℕ)
    → show (pos r.version_minor) ≡ last ∷ []
    → show r.code ≡ k ∷ ks
    → (after : List ℕ)
    → first_line_text show r ++ after ≡ status_line last (text_of k ks r) ++ cr ∷ lf ∷ after
unfolding first_line_text
first_line_same show r last k ks e f after =
    rw (e, f)
      (ap (λ s. codes "HTTP/1." ++ last ∷ b' ' ∷ k ∷ s)
        (append_assoc ks (b' ' ∷ (get_code_str r.code ++ cr ∷ lf ∷ [])) after
          ∙ ap (λ s. ks ++ b' ' ∷ s) (append_assoc (get_code_str r.code) (cr ∷ lf ∷ []) after)
          ∙ sym (append_assoc ks (b' ' ∷ get_code_str r.code) (cr ∷ lf ∷ after))))

minor_digit : (m : ℕ) → m ≤ 1 → minor_of (b'0' + m) ≡ ok m
minor_digit m h = ground arith

-- A whole body is given to the response.
conclude_whole :
    (before d : HttpRespDecoder) (b : ℕ) (body : List ℕ)
    → d.body ≡ some (b ∷ body)
    → conclude before (ok (1, d))
      ≡ ok (pos 0, some (record d.response { content = b ∷ body }), fresh d.buf_capacity)
unfolding conclude reset
conclude_whole before d b body e = rw (e, lt→ltb 0 (suc (length body)) (omega arith)) refl

abbrev pub response_of : ℕ → ℕ → List (List ℕ × List ℕ) → List ℕ → HttpResponse
response_of m n headers content = record {
  version_minor = m;
  code = pos n;
  headers = headers;
  content = content;
}

code_read :
    (n k : ℕ) (ks : List ℕ) (r : HttpResponse) (rest : List ℕ)
    → Digits n (k ∷ ks)
    → n < 0x8000_0000
    → atoi (text_of k ks r ++ rest) ≡ ok (pos n)
code_read n k ks r rest (hs, e) small =
    ap atoi (append_assoc (k ∷ ks) (b' ' ∷ get_code_str r.code) rest)
    ∙ atoi_digits k ks b' ' (get_code_str r.code ++ rest) hs refl (omega (arith, e))
    ∙ ap (λ n. ok (pos n)) e

text-Avoids :
    (m n k : ℕ) (ks : List ℕ) (r : HttpResponse)
    → All IsDigit (k ∷ ks)
    → Avoids cr (status_line (b'0' + m) (text_of k ks r))
text-Avoids m n k ks r hs = (
  refl,
  (
    refl,
    (
      refl,
      (
        refl,
        (
          refl,
          (
            refl,
            (
              refl,
              (
                ne→== (b'0' + m) cr (λ e. omega (arith, e)),
                (
                  refl,
                  Avoids-append cr (k ∷ ks) (b' ' ∷ get_code_str r.code)
                      (Digits-Avoids cr (k ∷ ks) (omega arith) hs) (refl, code_str-Avoids r.code),
                ),
              ),
            ),
          ),
        ),
      ),
    ),
  ),
)

-- The fields of a message, and what its decoder needs of them.
abbrev with_length_field : List (List ℕ × List ℕ) → List ℕ → List (List ℕ × List ℕ)
with_length_field headers digits = headers ++ (codes "Content-Length", digits) ∷ []

length-Field : (digits : List ℕ) → All IsDigit digits → Field (codes "Content-Length") digits
length-Field digits hs = record {
  name_cr = (
    refl,
    (
      refl,
      (
        refl,
        (refl, (refl, (refl, (refl, (refl, (refl, (refl, (refl, (refl, (refl, (refl, tt))))))))))),
      ),
    ),
  );
  value_cr = Digits-Avoids cr digits (omega arith) hs;
  name_nul = (
    refl,
    (
      refl,
      (
        refl,
        (refl, (refl, (refl, (refl, (refl, (refl, (refl, (refl, (refl, (refl, (refl, tt))))))))))),
      ),
    ),
  );
  value_nul = Digits-Avoids 0 digits (omega arith) hs;
  name_colon = (
    refl,
    (
      refl,
      (
        refl,
        (refl, (refl, (refl, (refl, (refl, (refl, (refl, (refl, (refl, (refl, (refl, tt))))))))))),
      ),
    ),
  );
}

-- The whole of a message, from its first line on.
parse_whole :
    (size m n k : ℕ) (ks : List ℕ) (headers : List (List ℕ × List ℕ)) (j : ℕ) (js : List ℕ) (b : ℕ)
    (body : List ℕ) (r : HttpResponse)
    → m ≤ 1
    → Digits n (k ∷ ks)
    → n < 0x8000_0000
    → Fields headers
    → Differ (codes "Transfer-Encoding") headers
    → Digits (length (b ∷ body)) (j ∷ js)
    → length (b ∷ body) < 0x8000_0000
    → length (status_line (b'0' + m) (text_of k ks r)) < size
    → (d : HttpRespDecoder) × (parse_first_line (record (fresh size) {
      buf_ =
          status_line (b'0' + m) (text_of k ks r)
          ++ cr ∷ lf ∷ print_headers (with_length_field headers (j ∷ js)) (b ∷ body);
    })
        ≡ ok (1, d))
      × (d.body ≡ some (b ∷ body))
      × (d.response ≡ response_of m n (set_headers (with_length_field headers (j ∷ js)) []) [])
      × (d.buf_capacity ≡ size)
parse_whole size m n k ks headers j js b body r h hd small fs df (js_digits, value) room fits =
    let text = text_of k ks r in
    let line = status_line (b'0' + m) text in
    let given = with_length_field headers (j ∷ js) in
    let after = print_headers given (b ∷ body) in
    let d = past_first size (b'0' + m) text after m (pos n) in
    let at_next : 0 + length line + 2 ≡ length (line ++ 0 ∷ lf ∷ []) =
      omega (arith, length-append line (0 ∷ lf ∷ [])) in
    let (next, left, e) =
      parse_header-Fields given (suc (length (line ++ 0 ∷ lf ∷ after))) d (line ++ 0 ∷ lf ∷ [])
        (b ∷ body) (Fields-append headers _ fs (length-Field (j ∷ js) js_digits, tt))
        (omega (arith, length-append line (0 ∷ lf ∷ after), length-print_headers given (b ∷ body)))
        (sym (append_assoc line (0 ∷ lf ∷ []) after)) at_next at_next in
    let d' = behind d next (with_headers given d.response) in
    let no_encoding = get_header-none (codes "Transfer-Encoding") (set_headers given []) (
      set_headers-Differ (codes "Transfer-Encoding") given []
        (Differ-append (codes "Transfer-Encoding") headers _ df (refl, tt)) tt) in
    (
      record d' { body_length = length (b ∷ body); status = k_body; body = some (b ∷ body) },
      parse_first_line_run size (b'0' + m) m text after (pos n) (text-Avoids m n k ks r hd.0) fits
            (minor_digit m h) (code_read n k ks r (0 ∷ lf ∷ after) hd small)
          ∙ e
          ∙ end_header_whole d' b body js j left no_encoding
              (get_header_last headers (codes "Content-Length") (j ∷ js)) js_digits value room,
      refl,
      refl,
      refl,
    )

no-Digits : (n : ℕ) → Digits (suc n) [] → ⊥
unfolding read_digits
no-Digits n (hs, e) = omega (arith, e)

-- Digits of a number that is not 0 are not empty.
some-Digits :
    (n : ℕ) (digits : List ℕ) → Digits (suc n) digits → (j : ℕ) × (js : List ℕ) × (digits ≡ j ∷ js)
some-Digits n [] h = absurd (no-Digits n h)
some-Digits n (j ∷ js) h = (j, js, refl)

-- The bytes that CreateOutMsg makes of a response with content are read as that response, when they
-- arrive in one read that fits into the buffer of a decoder as new: the version, the code, the
-- content and the header fields, with the length of the content stored behind them, are reported,
-- and the decoder is as new. The version is 1.0 or 1.1, its digit and those of the code are printed
-- in decimal, and the first line has room; no field has a CR or NUL or a colon in its name, and none
-- is the transfer encoding. The code is below 2 ^ 31, and the response some 2048 bytes shorter.
pub feed-create_out_msg :
    (show : ℤ → List ℕ) (size m n k : ℕ) (ks : List ℕ) (headers : List (List ℕ × List ℕ)) (b : ℕ)
    (body bytes : List ℕ)
    → show (pos m) ≡ (b'0' + m) ∷ []
    → show (pos n) ≡ k ∷ ks
    → m ≤ 1
    → Digits n (k ∷ ks)
    → n < 0x8000_0000
    → Fields headers
    → Differ (codes "Transfer-Encoding") headers
    → Moderate headers (b ∷ body)
    → length (status_text show m (pos n)) < 32
    → create_out_msg show (response_of m n headers (b ∷ body)) ≡ ok bytes
    → length bytes ≤ size
    → (digits : List ℕ) × Digits (length (b ∷ body)) digits
      × (feed (fresh size) bytes
          ≡ ok (
            pos 0,
            some (
                response_of m n
                  (set_headers (headers ++ (codes "Content-Length", digits) ∷ []) [])
                  (b ∷ body)),
            fresh size,
          ))
feed-create_out_msg show size m n k ks headers b body bytes sm sn h hd small fs df moderate short c
      fits =
    let r = response_of m n headers (b ∷ body) in
    let (digits, stand, made) = create_out_msg_lem show r short moderate in
    let room : length (b ∷ body) < 0x8000_0000 =
      omega (arith, Moderate-content headers (b ∷ body) moderate) in
    let (j, js, same) = some-Digits (length body) digits stand in
    let stand' : Digits (length (b ∷ body)) (j ∷ js) =
      subst (Digits (length (b ∷ body))) same stand in
    let line = status_line (b'0' + m) (text_of k ks r) in
    let after = print_headers (with_length_field headers (j ∷ js)) (b ∷ body) in
    let whole : bytes ≡ line ++ cr ∷ lf ∷ after =
      ok-eq-ok (sym c ∙ made)
      ∙ ap₂ (λ f t. f ++ print_headers (with_length_field headers t) (b ∷ body))
          (sym (first_line_text-status_text show r)) same
      ∙ first_line_same show r (b'0' + m) k ks sm sn after in
    let n_bytes = ap length whole in
    let fits' : length (line ++ cr ∷ lf ∷ after) ≤ size = omega (arith, n_bytes) in
    let (d, e, body_, response_, size_) =
      parse_whole size m n k ks headers j js b body r h hd small fs df stand' room
        (omega (arith, fits', length-append line (cr ∷ lf ∷ after))) in
    (
      j ∷ js,
      stand',
      ap (feed (fresh size)) whole
          ∙ feed_run size (line ++ cr ∷ lf ∷ after) (ok (1, d)) fits' e
          ∙ conclude_whole _ d b body body_
          ∙ ap₂
              (λ (q : HttpResponse) t. ok (pos 0, some (record q { content = b ∷ body }), fresh t))
              response_ size_,
    )
