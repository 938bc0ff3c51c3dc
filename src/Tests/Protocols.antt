-- ===== src/Tests/Protocols.antt =====
-- Requests and replies of the memcached protocol in pieces, and bytes that are written.
use mlsimgsearch.Prelude.{
  ◌==◌, if◌then◌else◌, length, length-append, drop, concat, ok, ℕ, ◌+◌, ◌-◌, ◌≤◌, ◌<◌, ◌≡◌, refl,
  false, Option, none, some, List, [], ◌∷◌, ◌++◌, arith,
}
use mlsimgsearch.Prelude.Int.{ℤ, pos, negsuc}
use mlsimgsearch.Blitz.Memcached.{InitParam, codes, cr, lf}
use mlsimgsearch.Blitz.Memcached.Tokens.{IsWord, line}
use mlsimgsearch.Blitz.MemcachedReq
use mlsimgsearch.Blitz.MemcachedReq.Pieces.{set_line, IsSetLine, request_of, feed_all_set}
use mlsimgsearch.Blitz.MemcachedReq.Split.{unfinished, feed_all_missed}
use mlsimgsearch.Blitz.MemcachedResp
use mlsimgsearch.Blitz.MemcachedResp.Pieces.{value_line, IsValueLine, value_of, feed_all_value}
use mlsimgsearch.Blitz.HttpReq.Lines.{print_headers, set_headers}
use mlsimgsearch.Blitz.HttpResp
use mlsimgsearch.Blitz.HttpResp.Lines.{Field}
use mlsimgsearch.Blitz.HttpResp.FirstLine.{fresh}
use mlsimgsearch.Blitz.HttpResp.Whole.{response_of, feed-create_out_msg}
use mlsimgsearch.Blitz.HttpResponse.{HttpResponse, create_out_msg}
use mlsimgsearch.Blitz.HttpResponse.Printed.{reason, status_text, Digits, create_out_msg_lem}
use mlsimgsearch.Blitz.FixHeadMsg.{empty_decoder, feed_all}
use mlsimgsearch.Blitz.FixHeadMsg.Messages.{then_message}
use mlsimgsearch.Blitz.ThriftMsg.{create_outmsg, thrift_params}
use mlsimgsearch.Blitz.ThriftMsg.Frame.{framed, feed_all-create_outmsg}
use mlsimgsearch.Blitz.BufferWriter.Bytes.{to_be}
use mlsimgsearch.Blitz.BufferWriter.Decimal.{read_digits}
use mlsimgsearch.Blitz.BufferWriter.{BufferWriter, write_data, print_int}
use mlsimgsearch.Blitz.BufferWriter.Append.{
  Write, byte, i32, string, binary, number, write_all, EncodesAll, write_all_lem,
}

abbrev sizes : InitParam
sizes = record { buf_start_len = 24; buf_max_len = 100 }

-- Texts of one digit are cast, and no others.
abbrev one_digit : List ℕ → Option ℕ
one_digit [] = none
one_digit (c ∷ []) = some (c - b'0')
one_digit (c ∷ d ∷ text) = none

abbrev PlainChar : ℕ → Type 0
PlainChar c = ((c == b' ') ≡ false) × ((c == cr) ≡ false)

char-IsWord : (c : ℕ) → PlainChar c → IsWord (c ∷ [])
char-IsWord c h = (h, tt)

-- `set k 0 9 5` with the value "hello", in three pieces.
k-IsSetLine : IsSetLine one_digit sizes 0 (b'k' ∷ []) (b'0' ∷ []) (b'9' ∷ []) (b'5' ∷ []) 0 9 5
k-IsSetLine = record {
  key_word = char-IsWord b'k' (refl, refl);
  flags_word = char-IsWord b'0' (refl, refl);
  exptime_word = char-IsWord b'9' (refl, refl);
  bytes_word = char-IsWord b'5' (refl, refl);
  flags_cast = refl;
  exptime_cast = refl;
  bytes_cast = refl;
}

abbrev k_line : List ℕ
k_line = set_line (b'k' ∷ []) (b'0' ∷ []) (b'9' ∷ []) (b'5' ∷ [])

k_length : length k_line ≡ 13
unfolding set_line line
k_length = refl

feed_all_set_example :
    MemcachedReq.feed_all one_digit sizes 0
      (MemcachedReq.reset sizes)
      ((k_line ++ codes "he") ∷ codes "llo" ∷ (cr ∷ lf ∷ []) ∷ [])
    ≡ ok (
      MemcachedReq.set_req
            (request_of one_digit sizes 0 (b'k' ∷ []) (b'0' ∷ []) (b'9' ∷ []) (b'5' ∷ []) 0 9 5)
            (codes "hello" ++ cr ∷ lf ∷ [])
          ∷ [],
      MemcachedReq.reset sizes,
    )
feed_all_set_example =
    feed_all_set one_digit sizes 0 (b'k' ∷ []) (b'0' ∷ []) (b'9' ∷ []) (b'5' ∷ []) 0 9 5
      (codes "hello") (codes "he") (codes "llo" ∷ (cr ∷ lf ∷ []) ∷ []) k-IsSetLine refl refl
      (omega (arith, k_length, length-append k_line (codes "he"))) (omega (arith, k_length))
      (omega arith)

feed_all_missed_example :
    MemcachedReq.feed_all one_digit sizes 0
      (MemcachedReq.reset sizes)
      ((codes "get k" ++ cr ∷ []) ∷ (lf ∷ []) ∷ [])
    ≡ ok ([], unfinished one_digit sizes 0 ((codes "get k" ++ cr ∷ []) ++ lf ∷ []))
feed_all_missed_example =
    feed_all_missed one_digit sizes 0 (codes "get k") [] (refl, (refl, (refl, (refl, (refl, tt)))))
      tt refl (omega arith)

-- `VALUE k 0 5` with the value "hello", in two pieces.
k-IsValueLine : IsValueLine one_digit sizes 0 (b'k' ∷ []) (b'0' ∷ []) (b'5' ∷ []) 5
k-IsValueLine = record {
  key_word = char-IsWord b'k' (refl, refl);
  flags_word = char-IsWord b'0' (refl, refl);
  bytes_word = char-IsWord b'5' (refl, refl);
  bytes_cast = refl;
}

abbrev value_k : List ℕ
value_k = value_line (b'k' ∷ []) (b'0' ∷ []) (b'5' ∷ [])

value_length : length value_k ≡ 13
unfolding value_line line
value_length = refl

abbrev hello_end : List ℕ
hello_end = codes "hello" ++ cr ∷ lf ∷ (codes "END" ++ cr ∷ lf ∷ [])

feed_all_value_example :
    (msg : List (List ℕ)) × (MemcachedResp.feed_all one_digit sizes 0
        (MemcachedResp.reset sizes)
        ((value_k ++ codes "he") ∷ drop 2 hello_end ∷ [])
      ≡ ok (value_of msg ∷ [], MemcachedResp.reset sizes))
    × (concat msg ≡ value_k ++ hello_end)
feed_all_value_example =
    feed_all_value one_digit sizes 0 (b'k' ∷ []) (b'0' ∷ []) (b'5' ∷ []) 5 hello_end (codes "he")
      (drop 2 hello_end ∷ []) k-IsValueLine refl refl
      (omega (arith, value_length, length-append value_k (codes "he")))
      (omega (arith, value_length)) (omega arith)

abbrev calls : List Write
calls = byte 7 ∷ i32 1025 ∷ string (codes "ab") ∷ binary (9 ∷ []) ∷ number (negsuc 41) b';' ∷ []

abbrev four_bytes : BufferWriter
four_bytes = record { capacity = 4; data_ = 1 ∷ [] }

write_all_lem_example :
    (w' : BufferWriter) × (bytes : List (List ℕ)) × EncodesAll calls bytes
    × (write_all calls four_bytes ≡ ok (length (concat bytes), w'))
    × (w'.data_ ≡ (1 ∷ []) ++ concat bytes)
    × (length w'.data_ ≤ w'.capacity)
write_all_lem_example =
    write_all_lem calls four_bytes
      (tt, (omega arith, (omega arith, (omega arith, (omega arith, tt))))) (omega arith)
      (omega arith)

framed_message : 0 ∷ 0 ∷ 0 ∷ 3 ∷ 1 ∷ 2 ∷ 3 ∷ [] ≡ framed (1 ∷ 2 ∷ 3 ∷ [])
unfolding to_be
framed_message = refl

-- The message 1 2 3, written in two pieces and received in three.
feed_all-create_outmsg_example :
    (create_outmsg (7 ∷ 7 ∷ 7 ∷ 7 ∷ []) ((1 ∷ 2 ∷ []) ∷ (3 ∷ []) ∷ [])
      ≡ ok (0 ∷ 0 ∷ 0 ∷ 3 ∷ 1 ∷ 2 ∷ 3 ∷ []))
    × (feed_all
          (thrift_params 16 100)
          (empty_decoder (thrift_params 16 100))
          ((0 ∷ 0 ∷ 0 ∷ 3 ∷ []) ∷ (1 ∷ []) ∷ (2 ∷ 3 ∷ []) ∷ [])
        ≡ then_message
            (framed (1 ∷ 2 ∷ 3 ∷ []))
            (feed_all (thrift_params 16 100) (empty_decoder (thrift_params 16 100)) []))
feed_all-create_outmsg_example =
    feed_all-create_outmsg 16 100 (7 ∷ 7 ∷ 7 ∷ 7 ∷ []) (1 ∷ 2 ∷ []) ((3 ∷ []) ∷ [])
      (0 ∷ 0 ∷ 0 ∷ 3 ∷ []) (1 ∷ []) ((2 ∷ 3 ∷ []) ∷ []) [] (omega arith) framed_message refl
      (omega arith, (omega arith, tt)) (omega arith) (omega arith) (omega arith)

-- The decimal digits of 200 and of numbers below 10.
abbrev show_few : ℤ → List ℕ
show_few (pos n) = if n == 200 then codes "200" else (b'0' + n) ∷ []
show_few (negsuc n) = b'-' ∷ []

abbrev reply : HttpResponse
reply = record {
  version_minor = 1;
  code = pos 200;
  headers = (codes "Server", codes "x") ∷ [];
  content = 7 ∷ 8 ∷ [];
}

reply_short : length (status_text show_few 1 (pos 200)) < 32
unfolding status_text reason
reply_short = omega arith

create_out_msg_lem_example :
    (digits : List ℕ) × Digits 2 digits
    × (create_out_msg show_few reply
        ≡ ok (
            status_text show_few 1 (pos 200)
            ++ print_headers
                ((codes "Server", codes "x") ∷ (codes "Content-Length", digits) ∷ [])
                (7 ∷ 8 ∷ [])))
create_out_msg_lem_example = create_out_msg_lem show_few reply reply_short (omega arith)

abbrev reply_bytes : List ℕ
reply_bytes =
    codes "HTTP/1.1 200 OK"
    ++ cr
      ∷ lf
      ∷ (codes "Server: x"
          ++ cr ∷ lf ∷ (codes "Content-Length: 2" ++ cr ∷ lf ∷ cr ∷ lf ∷ 7 ∷ 8 ∷ []))

reply_made : create_out_msg show_few reply ≡ ok reply_bytes
unfolding create_out_msg write_data print_int
reply_made = refl

two_hundred : Digits 200 (codes "200")
unfolding read_digits
two_hundred = (
  ((omega arith, omega arith), ((omega arith, omega arith), ((omega arith, omega arith), tt))),
  refl,
)

server-Field : Field (codes "Server") (codes "x")
server-Field = record {
  name_cr = (refl, (refl, (refl, (refl, (refl, (refl, tt))))));
  value_cr = (refl, tt);
  name_nul = (refl, (refl, (refl, (refl, (refl, (refl, tt))))));
  value_nul = (refl, tt);
  name_colon = (refl, (refl, (refl, (refl, (refl, (refl, tt))))));
}

feed-create_out_msg_example :
    (digits : List ℕ) × Digits 2 digits
    × (HttpResp.feed (fresh 100) reply_bytes
        ≡ ok (
          pos 0,
          some (
              response_of 1 200
                (set_headers
                  ((codes "Server", codes "x") ∷ (codes "Content-Length", digits) ∷ [])
                  [])
                (7 ∷ 8 ∷ [])),
          fresh 100,
        ))
feed-create_out_msg_example =
    feed-create_out_msg show_few 100 1 200 b'2' (codes "00") ((codes "Server", codes "x") ∷ []) 7
      (8 ∷ []) reply_bytes refl refl (omega arith) two_hundred (omega arith) (server-Field, tt)
      (refl, tt) (omega arith) reply_short reply_made (omega arith)
