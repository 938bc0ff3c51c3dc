-- ===== src/Blitz/HttpReq/Whole.antt =====
-- Feed of a request that arrives in one piece.
use mlsimgsearch.Prelude.{
  length, length-append, ok, ℕ, suc, ◌+◌, ◌≤◌, ◌≡◌, refl, sym, ap, ◌∙◌, Bool, some, List, [], ◌∷◌,
  ◌++◌, append_assoc, arith,
}
use mlsimgsearch.Prelude.Int.{pos}
use mlsimgsearch.Blitz.Uri.{HttpRequest, parse_uri}
use mlsimgsearch.Blitz.Uri.Params.{Avoids}
use mlsimgsearch.Blitz.HttpReq.{HttpReqDecoder, new_message, cr, lf, parse_first_line, feed}
use mlsimgsearch.Blitz.HttpReq.Lines.{print_headers, Fields, set_headers, parse_header-Fields}
use mlsimgsearch.Blitz.HttpReq.FirstLine.{
  fresh, method_code, minor_of, request_line, past_first, length-print_headers,
  parse_first_line_run, conclude_done, feed_run,
}

parse_first_line_whole :
    (size : ℕ) (post : Bool) (target version : List ℕ) (last : ℕ) (given : List (List ℕ × List ℕ))
    (rest : List ℕ) (request : HttpRequest)
    → Avoids cr (request_line post target version last)
    → Avoids 0 (request_line post target version last)
    → Avoids b' ' target
    → Fields given
    → parse_uri new_message.request target ≡ ok request
    → length (request_line post target version last ++ cr ∷ lf ∷ print_headers given rest) ≤ size
    → (d' : HttpReqDecoder) × (parse_first_line (record (fresh size) {
      header_ = request_line post target version last ++ cr ∷ lf ∷ print_headers given rest;
    })
        ≡ ok (1, d'))
      × (d'.message ≡ record {
        request = request;
        method = method_code post;
        version_minor = minor_of last;
        headers = set_headers given [];
        content = [];
      })
      × (d'.max_header_size ≡ size)
parse_first_line_whole size post target version last given rest request ac az ab fs er fits =
    let line : List ℕ = request_line post target version last in
    let after : List ℕ = print_headers given rest in
    let before : List ℕ = line ++ 0 ∷ lf ∷ [] in
    let at_next : 0 + length line + 2 ≡ length before =
      omega (arith, length-append line (0 ∷ lf ∷ [])) in
    let (d', e, m, x) =
      parse_header-Fields given (suc (length (line ++ 0 ∷ lf ∷ after)))
        (past_first size post line last after request) before rest fs
        (omega (arith, length-append line (0 ∷ lf ∷ after), length-print_headers given rest))
        (sym (append_assoc line (0 ∷ lf ∷ []) after)) at_next at_next refl in
    (
      d',
      parse_first_line_run size post target version last after request ac az ab er fits ∙ e,
      m,
      x,
    )

-- A request that arrives in one read, no longer than the header buffer, is reported with its
-- method, URI and version, and with its header fields stored in order; then the decoder is as
-- new. It is a GET or POST whose request line has no CR and no NUL, with a URI that has no blank
-- and that ParseUri reads. No field has a CR or NUL or a colon in its name, and none is the
-- content length. What follows the empty line, such as the body of a POST, is dropped.
pub feed-print_headers :
    (size : ℕ) (post : Bool) (target version : List ℕ) (last : ℕ) (given : List (List ℕ × List ℕ))
    (rest : List ℕ) (request : HttpRequest)
    → Avoids cr (request_line post target version last)
    → Avoids 0 (request_line post target version last)
    → Avoids b' ' target
    → Fields given
    → parse_uri new_message.request target ≡ ok request
    → length (request_line post target version last ++ cr ∷ lf ∷ print_headers given rest) ≤ size
    → feed
        (fresh size)
        (request_line post target version last ++ cr ∷ lf ∷ print_headers given rest)
      ≡ ok (
        pos 0,
        some (record {
          request = request;
          method = method_code post;
          version_minor = minor_of last;
          headers = set_headers given [];
          content = [];
        }),
        fresh size,
      )
feed-print_headers size post target version last given rest request ac az ab fs er fits =
    let text : List ℕ =
      request_line post target version last ++ cr ∷ lf ∷ print_headers given rest in
    let (d', e, m, x) =
      parse_first_line_whole size post target version last given rest request ac az ab fs er fits in
    feed_run size text (ok (1, d')) fits e
    ∙ conclude_done (record (fresh size) { header_ = text }) d'
        (record {
          request = request;
          method = method_code post;
          version_minor = minor_of last;
          headers = set_headers given [];
          content = [];
        })
        m refl
    ∙ ap
        (λ n. ok (
          pos 0,
          some (record {
            request = request;
            method = method_code post;
            version_minor = minor_of last;
            headers = set_headers given [];
            content = [];
          }),
          fresh n,
        ))
        x
