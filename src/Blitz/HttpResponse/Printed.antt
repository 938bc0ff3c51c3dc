-- ===== src/Blitz/HttpResponse/Printed.antt =====
-- The bytes that `CreateOutMsg` makes.
use mlsimgsearch.Prelude.{
  if◌then◌else◌, lt→ltb, length, length-append, All, concat, ok-eq-ok, ok, ℕ, ◌+◌, ◌≤◌, ◌<◌, ◌≡◌,
  refl, sym, ap, ap₂, ◌∙◌, List, [], ◌∷◌, ◌++◌, append-nil, append_assoc, arith,
}
use mlsimgsearch.Prelude.Int.{ℤ, pos, negsuc}
use mlsimgsearch.Search.Searcher.{eqb_ℤ}
use mlsimgsearch.Blitz.HttpReq.{cr, lf}
use mlsimgsearch.Blitz.HttpReq.Lines.{field_line, print_headers}
use mlsimgsearch.Blitz.Memcached.{codes}
use mlsimgsearch.Blitz.BufferWriter.{new_writer, reserve}
use mlsimgsearch.Blitz.BufferWriter.Decimal.{IsDigit, read_digits, int_text_digits}
use mlsimgsearch.Blitz.BufferWriter.Append.{
  Write, plain, number, IsArgument, Encodes, EncodesAll, write_all_lem, sizes,
}
use mlsimgsearch.Blitz.HttpResponse.{
  HttpResponse, get_code_str, header_calls, length_calls, content_calls, first_line_text,
  create_out_msg,
}

-- The bytes of the first call, and of the others.
next_bytes :
    (call : Write) (calls : List Write) (bytes : List (List ℕ))
    → EncodesAll (call ∷ calls) bytes
    → (b : List ℕ) × (rest : List (List ℕ)) × (bytes ≡ b ∷ rest)
      × Encodes call b
      × EncodesAll calls rest
next_bytes call calls [] e = absurd e
next_bytes call calls (b ∷ rest) (e, es) = (b, rest, refl, e, es)

next_plain :
    (text : List ℕ) (calls : List Write) (bytes : List (List ℕ))
    → EncodesAll (plain text ∷ calls) bytes
    → (rest : List (List ℕ)) × (concat bytes ≡ text ++ concat rest) × EncodesAll calls rest
next_plain text calls bytes es =
    let (b, rest, same, e, es') = next_bytes (plain text) calls bytes es in
    (rest, ap concat same ∙ ap (λ s. s ++ concat rest) e, es')

-- The lines of header fields, before what follows.
abbrev lines_then : List (List ℕ × List ℕ) → List ℕ → List ℕ
lines_then [] rest = rest
lines_then ((name, value) ∷ headers) rest =
    field_line name value ++ cr ∷ lf ∷ lines_then headers rest

header_bytes :
    (headers : List (List ℕ × List ℕ)) (calls : List Write) (bytes : List (List ℕ))
    → EncodesAll (header_calls headers ++ calls) bytes
    → (rest : List (List ℕ)) × (concat bytes ≡ lines_then headers (concat rest))
      × EncodesAll calls rest
header_bytes [] calls bytes es = (bytes, refl, es)
header_bytes ((name, value) ∷ headers) calls bytes es =
    let more = header_calls headers ++ calls in
    let (b1, e1, es1) =
      next_plain name (plain (codes ": ") ∷ plain value ∷ plain (cr ∷ lf ∷ []) ∷ more) bytes es in
    let (b2, e2, es2) =
      next_plain (codes ": ") (plain value ∷ plain (cr ∷ lf ∷ []) ∷ more) b1 es1 in
    let (b3, e3, es3) = next_plain value (plain (cr ∷ lf ∷ []) ∷ more) b2 es2 in
    let (b4, e4, es4) = next_plain (cr ∷ lf ∷ []) more b3 es3 in
    let (rest, e5, es5) = header_bytes headers calls b4 es4 in
    (
      rest,
      e1
          ∙ ap (λ s. name ++ s)
              (e2
                ∙ ap (λ s. b':' ∷ b' ' ∷ s)
                    (e3 ∙ ap (λ s. value ++ s) (e4 ∙ ap (λ s. cr ∷ lf ∷ s) e5)))
          ∙ sym (
              append_assoc name (b':' ∷ b' ' ∷ value) (cr ∷ lf ∷ lines_then headers (concat rest))),
      es5,
    )

lines_then_last :
    (headers : List (List ℕ × List ℕ)) (name value rest : List ℕ)
    → lines_then headers (field_line name value ++ cr ∷ lf ∷ cr ∷ lf ∷ rest)
      ≡ print_headers (headers ++ (name, value) ∷ []) rest
lines_then_last [] name value rest = refl
lines_then_last ((n, v) ∷ headers) name value rest =
    ap (λ s. field_line n v ++ cr ∷ lf ∷ s) (lines_then_last headers name value rest)

All-append {ℓ κ} :
    {A : Type ℓ} (P : A → Type κ) (xs ys : List A) → All P xs → All P ys → All P (xs ++ ys)
All-append P [] ys ps qs = qs
All-append P (x ∷ xs) ys (p, ps) qs = (p, All-append P xs ys ps qs)

header_arguments :
    (headers : List (List ℕ × List ℕ))
    → sizes (header_calls headers) < 0x8000_0000
    → All IsArgument (header_calls headers)
header_arguments [] h = tt
header_arguments ((name, value) ∷ headers) h = (
  omega arith,
  (omega arith, (omega arith, (omega arith, header_arguments headers (omega arith)))),
)

lines_then_end :
    (headers : List (List ℕ × List ℕ)) (rest : List ℕ)
    → lines_then headers (cr ∷ lf ∷ rest) ≡ print_headers headers rest
lines_then_end [] rest = refl
lines_then_end ((n, v) ∷ headers) rest =
    ap (λ s. field_line n v ++ cr ∷ lf ∷ s) (lines_then_end headers rest)

-- The field of the length of the content, if there is content.
abbrev pub length_field : List ℕ → List ℕ → List (List ℕ × List ℕ)
length_field digits [] = []
length_field digits (c ∷ content) = (codes "Content-Length", digits) ∷ []

-- Digits that stand for a number.
abbrev pub Digits : ℕ → List ℕ → Type 0
Digits n digits = All IsDigit digits × (read_digits 0 digits ≡ n)

-- What follows the header fields.
abbrev end_calls : List ℕ → List Write
end_calls content = length_calls content ++ (plain (cr ∷ lf ∷ []) ∷ content_calls content)

abbrev Ended : List (List ℕ × List ℕ) → List ℕ → List (List ℕ) → Type 0
Ended headers content bytes =
    (digits : List ℕ) × Digits (length content) digits
    × (lines_then headers (concat bytes)
        ≡ print_headers (headers ++ length_field digits content) content)

no_bytes : (bytes : List (List ℕ)) → EncodesAll [] bytes → concat bytes ≡ []
no_bytes [] es = refl
no_bytes (b ∷ bytes) es = absurd es

blank_line :
    (c : ℕ) (content : List ℕ) (bytes : List (List ℕ))
    → EncodesAll (plain (cr ∷ lf ∷ []) ∷ plain (c ∷ content) ∷ []) bytes
    → concat bytes ≡ cr ∷ lf ∷ c ∷ content
blank_line c content bytes es =
    let (b1, e1, es1) = next_plain (cr ∷ lf ∷ []) (plain (c ∷ content) ∷ []) bytes es in
    let (b2, e2, es2) = next_plain (c ∷ content) [] b1 es1 in
    e1
    ∙ ap (λ s. cr ∷ lf ∷ s)
        (e2 ∙ ap (λ s. (c ∷ content) ++ s) (no_bytes b2 es2) ∙ append-nil (c ∷ content))

end_bytes :
    (headers : List (List ℕ × List ℕ)) (content : List ℕ) (bytes : List (List ℕ))
    → length content < 0x8000_0000
    → EncodesAll (end_calls content) bytes
    → Ended headers content bytes
unfolding read_digits
end_bytes headers [] bytes h es =
    let (b1, e1, es1) = next_plain (cr ∷ lf ∷ []) [] bytes es in
    (
      [],
      (tt, refl),
      ap (lines_then headers) (e1 ∙ ap (λ s. cr ∷ lf ∷ s) (no_bytes b1 es1))
          ∙ lines_then_end headers []
          ∙ ap (λ hs. print_headers hs []) (sym (append-nil headers)),
    )
end_bytes headers (c ∷ content) bytes h es =
    let n = length (c ∷ content) in
    let after = plain (cr ∷ lf ∷ []) ∷ plain (c ∷ content) ∷ [] in
    let (b1, e1, es1) =
      next_plain (codes "Content-Length: ") (number (pos n) cr ∷ plain (lf ∷ []) ∷ after) bytes
        es in
    let (b, b2, e2, (text, printed, same, value), es2) =
      next_bytes (number (pos n) cr) (plain (lf ∷ []) ∷ after) b1 es1 in
    let (b3, e3, es3) = next_plain (lf ∷ []) after b2 es2 in
    let (first, others, printed', digits, read) = int_text_digits n cr (omega arith) in
    let line : b ≡ (first ∷ others) ++ cr ∷ [] = ok-eq-ok (sym printed ∙ printed') in
    let rest : concat b3 ≡ cr ∷ lf ∷ c ∷ content = blank_line c content b3 es3 in
    (
      first ∷ others,
      (digits, read),
      ap (lines_then headers) (
            e1
            ∙ ap (λ s. codes "Content-Length: " ++ s)
                (ap concat e2
                  ∙ ap₂ (λ s t. s ++ t) line (e3 ∙ ap (λ s. lf ∷ s) rest)
                  ∙ append_assoc (first ∷ others) (cr ∷ []) (lf ∷ cr ∷ lf ∷ c ∷ content)))
          ∙ lines_then_last headers (codes "Content-Length") (first ∷ others) (c ∷ content),
    )

end_arguments :
    (content : List ℕ) → length content < 0x8000_0000 → All IsArgument (end_calls content)
end_arguments [] h = (omega arith, tt)
end_arguments (c ∷ content) h = (omega arith, (omega arith, (omega arith, (omega arith, (h, tt)))))

reserved : (n : ℕ) → (reserve n new_writer).data_ ≡ []
unfolding reserve
reserved n = ground arith

sizes_append : (xs ys : List Write) → sizes (xs ++ ys) ≡ sizes xs + sizes ys
sizes_append [] ys = omega arith
sizes_append (x ∷ xs) ys = omega (arith, sizes_append xs ys)

header_sizes :
    (headers : List (List ℕ × List ℕ)) (content : List ℕ)
    → sizes (header_calls headers) + length content + 2 ≡ length (print_headers headers content)
header_sizes [] content = omega arith
header_sizes ((name, value) ∷ headers) content = omega (
  arith,
  header_sizes headers content,
  length-append (field_line name value) (cr ∷ lf ∷ print_headers headers content),
  length-append name (b':' ∷ b' ' ∷ value),
)

end_sizes : (content : List ℕ) → sizes (end_calls content) ≤ length content + 40
end_sizes [] = omega arith
end_sizes (c ∷ content) = omega arith

-- A response that is no longer than the writer and its numbers allow.
abbrev pub Moderate : List (List ℕ × List ℕ) → List ℕ → Type 0
Moderate headers content = length (print_headers headers content) + 2048 < 0x8000_0000

pub Moderate-content :
    (headers : List (List ℕ × List ℕ)) (content : List ℕ)
    → Moderate headers content
    → length content + 2048 < 0x8000_0000
Moderate-content headers content h = omega (arith, header_sizes headers content)

-- The text of a code.
unfoldable pub reason : ℤ → List ℕ
reason code =
    if eqb_ℤ code (pos 200)
    then codes "OK"
    else if eqb_ℤ code (pos 404)
    then codes "Not Found"
    else codes "Internal Server Error"

-- The first line: the version, the code and its text.
unfoldable pub status_text : (ℤ → List ℕ) → ℕ → ℤ → List ℕ
unfolding reason
status_text show minor code =
    codes "HTTP/1."
    ++ (show (pos minor) ++ b' ' ∷ (show code ++ b' ' ∷ (reason code ++ cr ∷ lf ∷ [])))

reason_lem : (code : ℤ) → get_code_str code ≡ reason code
unfolding get_code_str reason
reason_lem (pos n) = refl
reason_lem (negsuc n) = refl

pub first_line_text-status_text :
    (show : ℤ → List ℕ) (r : HttpResponse)
    → first_line_text show r ≡ status_text show r.version_minor r.code
unfolding first_line_text status_text
first_line_text-status_text show r =
    ap
      (λ t.
        codes "HTTP/1."
        ++ (show (pos r.version_minor) ++ b' ' ∷ (show r.code ++ b' ' ∷ (t ++ cr ∷ lf ∷ []))))
      (reason_lem r.code)

-- What `CreateOutMsg` makes of a response whose first line has room in the 32 bytes, with the NUL
-- behind it, and which is some 2048 bytes shorter than 2 ^ 31: the first line with the version, the
-- code and the text of the code, the header fields, behind them the length of the content in decimal
-- digits if there is content, a blank line, and the content.
pub create_out_msg_lem :
    (show : ℤ → List ℕ) (r : HttpResponse)
    → length (status_text show r.version_minor r.code) < 32
    → Moderate r.headers r.content
    → (digits : List ℕ) × Digits (length r.content) digits
      × (create_out_msg show r
          ≡ ok (
              status_text show r.version_minor r.code
              ++ print_headers (r.headers ++ length_field digits r.content) r.content))
unfolding create_out_msg
create_out_msg_lem show r short_ moderate =
    let first = first_line_text show r in
    let line = first_line_text-status_text show r in
    let short : length first < 32 = omega (arith, short_, ap length line) in
    let len = Moderate-content r.headers r.content moderate in
    let w = reserve (length r.content + 1024) new_writer in
    let empty = reserved (length r.content + 1024) in
    let calls = header_calls r.headers ++ end_calls r.content in
    let all = header_sizes r.headers r.content in
    let (w', bytes, es, done_, data', room) =
      write_all_lem (plain first ∷ calls) w
        (
          omega (arith, short),
          All-append IsArgument (header_calls r.headers) (end_calls r.content)
              (header_arguments r.headers (omega (arith, all, moderate)))
              (end_arguments r.content (omega (arith, len))),
        )
        (omega (arith, ap length empty))
        (omega (
          arith,
          ap length empty,
          short,
          sizes_append (header_calls r.headers) (end_calls r.content),
          end_sizes r.content,
          all,
          moderate,
        )) in
    let (b1, e1, es1) = next_plain first calls bytes es in
    let (b2, e2, es2) = header_bytes r.headers (end_calls r.content) b1 es1 in
    let (digits, stand, e3) = end_bytes r.headers r.content b2 (omega (arith, len)) es2 in
    (
      digits,
      stand,
      rw
          (
            lt→ltb (length r.content + 1024) 0x8000_0000 (omega (arith, len)),
            lt→ltb _ _ short,
            done_,
          )
          (ap ok (data' ∙ ap (λ d. d ++ concat bytes) empty ∙ e1 ∙ ap₂ ◌++◌ line (e2 ∙ e3))),
    )
