-- ===== src/Blitz/HttpResponse.antt =====
-- libsrc/blitz2/src/http/http_common.cc, lines 372 to 403: HttpResponse and its CreateOutMsg.
pub mod Printed
use mlsimgsearch.Prelude.{
  ltb, ◌==◌, if◌then◌else◌, length, Outcome, ◌>>=◌, ◌>>◌, must, ok, ℕ, ◌+◌, List, [], ◌∷◌, ◌++◌,
}
use mlsimgsearch.Prelude.Int.{ℤ, pos, negsuc}
use mlsimgsearch.Blitz.HttpReq.{cr, lf}
use mlsimgsearch.Blitz.Memcached.{codes}
use mlsimgsearch.Blitz.BufferWriter.{new_writer, reserve}
use mlsimgsearch.Blitz.BufferWriter.Append.{Write, plain, number, write_all}

pub record HttpResponse : Type 0 where
  pub version_minor : ℕ
  pub code : ℤ
  pub headers : List (List ℕ × List ℕ)
  pub content : List ℕ

abbrev pub new_response : HttpResponse
new_response = record { version_minor = 1; code = pos 200; headers = []; content = [] }

-- `GetCodeStr`
unfoldable pub get_code_str : ℤ → List ℕ
get_code_str (pos code) =
    if code == 200
    then codes "OK"
    else if code == 404
    then codes "Not Found"
    else codes "Internal Server Error"
get_code_str (negsuc n) = codes "Internal Server Error"

abbrev pub header_calls : List (List ℕ × List ℕ) → List Write
header_calls [] = []
header_calls ((name, value) ∷ headers) =
    plain name ∷ plain (codes ": ") ∷ plain value ∷ plain (cr ∷ lf ∷ []) ∷ header_calls headers

-- The header of the length, if there is content.
abbrev pub length_calls : List ℕ → List Write
length_calls [] = []
length_calls (c ∷ content) =
    plain (codes "Content-Length: ") ∷ number (pos (length (c ∷ content))) cr ∷ plain (lf ∷ []) ∷ []

abbrev pub content_calls : List ℕ → List Write
content_calls [] = []
content_calls (c ∷ content) = plain (c ∷ content) ∷ []

-- `show` is `%d`.
module _ (show : ℤ → List ℕ) where
  -- The line that `sprintf` makes, without the NUL behind it.
  unfoldable pub first_line_text : HttpResponse → List ℕ
  unfolding get_code_str
  first_line_text r =
      codes "HTTP/1."
      ++ (show (pos r.version_minor)
          ++ b' ' ∷ (show r.code ++ b' ' ∷ (get_code_str r.code ++ cr ∷ lf ∷ [])))

  -- `CreateOutMsg`: the bytes of the message. `first_line` has 32 bytes, and the length with 1024
  -- more is an `int`. The calls of the writer are one sequence here.
  unfoldable pub create_out_msg : HttpResponse → Outcome (List ℕ)
  unfolding first_line_text write_all reserve
  create_out_msg r = do
    must (ltb (length r.content + 1024) 0x8000_0000)
    must (ltb (length (first_line_text r)) 32)
    (n, w) ←
        write_all
          (plain (first_line_text r)
            ∷ (header_calls r.headers
                ++ (length_calls r.content ++ (plain (cr ∷ lf ∷ []) ∷ content_calls r.content))))
          (reserve (length r.content + 1024) new_writer)
    ok w.data_
