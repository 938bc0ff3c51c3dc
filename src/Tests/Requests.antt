-- ===== src/Tests/Requests.antt =====
-- HTTP requests as they arrive from a socket.
use mlsimgsearch.Prelude.{ok, ℕ, ◌≡◌, refl, false, none, some, List, [], ◌∷◌, ◌++◌, arith}
use mlsimgsearch.Prelude.Int.{pos, negsuc}
use mlsimgsearch.Blitz.Uri.{HttpRequest, parse_uri}
use mlsimgsearch.Blitz.HttpReq.{HttpReqDecoder, new_message, set_header, has_prefix, feed}
use mlsimgsearch.Blitz.HttpReq.Lines.{Field}
use mlsimgsearch.Blitz.HttpReq.FirstLine.{fresh}
use mlsimgsearch.Blitz.HttpReq.Whole.{feed-print_headers}
use mlsimgsearch.Blitz.HttpReq.Split.{feed_split}

abbrev root : HttpRequest
root = record { path = b'/' ∷ []; anchor = []; params = [] }

root_uri : parse_uri new_message.request (b'/' ∷ []) ≡ ok root
unfolding parse_uri
root_uri = refl

host-Field : Field (b'H' ∷ b'o' ∷ b's' ∷ b't' ∷ []) (b'm' ∷ [])
unfolding has_prefix
host-Field = record {
  name_cr = (refl, (refl, (refl, (refl, tt))));
  value_cr = (refl, tt);
  name_nul = (refl, (refl, (refl, (refl, tt))));
  value_nul = (refl, tt);
  name_colon = (refl, (refl, (refl, (refl, tt))));
  other = refl;
}

-- GET / 1.0 and Host: m
abbrev get_line : List ℕ
get_line = b'G' ∷ b'E' ∷ b'T' ∷ b' ' ∷ b'/' ∷ b' ' ∷ b'1' ∷ b'.' ∷ b'0' ∷ []

abbrev host_line : List ℕ
host_line = b'H' ∷ b'o' ∷ b's' ∷ b't' ∷ b':' ∷ b' ' ∷ b'm' ∷ []

feed-print_headers_example :
    feed (fresh 64) (get_line ++ 13 ∷ 10 ∷ (host_line ++ 13 ∷ 10 ∷ 13 ∷ 10 ∷ []))
    ≡ ok (
      pos 0,
      some (record {
        request = root;
        method = 1;
        version_minor = 0;
        headers = (b'H' ∷ b'o' ∷ b's' ∷ b't' ∷ [], b'm' ∷ []) ∷ [];
        content = [];
      }),
      fresh 64,
    )
unfolding set_header
feed-print_headers_example =
    feed-print_headers 64 false (b'/' ∷ []) (b'1' ∷ b'.' ∷ []) b'0'
      ((b'H' ∷ b'o' ∷ b's' ∷ b't' ∷ [], b'm' ∷ []) ∷ []) [] root
      (refl, (refl, (refl, (refl, (refl, (refl, (refl, (refl, (refl, tt)))))))))
      (refl, (refl, (refl, (refl, (refl, (refl, (refl, (refl, (refl, tt))))))))) (refl, tt)
      (host-Field, tt) root_uri (omega arith)

host_line_get : has_prefix (b'g' ∷ b'e' ∷ b't' ∷ b' ' ∷ []) host_line ≡ false
unfolding has_prefix
host_line_get = refl

host_line_post : has_prefix (b'p' ∷ b'o' ∷ b's' ∷ b't' ∷ b' ' ∷ []) host_line ≡ false
unfolding has_prefix
host_line_post = refl

feed_split_example :
    (d : HttpReqDecoder) × (feed (fresh 64) (get_line ++ 13 ∷ 10 ∷ []) ≡ ok (pos 0, none, d))
    × (feed d (host_line ++ 13 ∷ 10 ∷ 13 ∷ 10 ∷ []) ≡ ok (negsuc 0, none, fresh 64))
feed_split_example =
    feed_split 64 false (b'/' ∷ []) (b'1' ∷ b'.' ∷ []) b'0' root host_line (13 ∷ 10 ∷ [])
      (refl, (refl, (refl, (refl, (refl, (refl, (refl, (refl, (refl, tt)))))))))
      (refl, (refl, (refl, (refl, (refl, (refl, (refl, (refl, (refl, tt))))))))) (refl, tt) root_uri
      (refl, (refl, (refl, (refl, (refl, (refl, (refl, tt))))))) (omega arith) host_line_get
      host_line_post (omega arith) (omega arith)
