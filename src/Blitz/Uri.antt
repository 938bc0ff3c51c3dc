-- ===== src/Blitz/Uri.antt =====
-- libsrc/blitz2/src/http/http_common.cc, lines 7 to 129: the parts of a request's URI.
pub mod Values
pub mod Params
pub mod Ends
use mlsimgsearch.Prelude.{
  leb, ◌==◌, if◌then◌else◌, length, take, drop, Outcome, ◌>>=◌, ok, err, fault, ℕ, zero, suc, ◌+◌,
  ◌-◌, ◌*◌, ◌%◌, Bool, true, false, ◌&&◌, ◌||◌, Option, none, some, List, [], ◌∷◌, ◌++◌,
}
use mlsimgsearch.Prelude.Int.{ℤ, pos, negsuc}

-- A pointer into the text is what is left of the text, up to `end`.
-- The characters before the first that passes the test, and the rest.
abbrev pub split_at : (ℕ → Bool) → List ℕ → List ℕ × List ℕ
split_at stops [] = ([], [])
split_at stops (c ∷ s) =
    let rest = split_at stops s in if stops c then ([], c ∷ s) else (c ∷ rest.0, rest.1)

unfoldable pub get_path : List ℕ → List ℕ × List ℕ
get_path = split_at (λ c. (c == b'?') || (c == b'#'))

unfoldable pub search_char : ℕ → List ℕ → List ℕ × List ℕ
search_char c = split_at (λ d. d == c)

unfoldable pub hex_val : ℕ → ℤ
hex_val c =
    if leb b'0' c && leb c b'9'
    then pos (c - b'0')
    else if leb b'a' c && leb c b'f'
    then pos (c - b'a' + 10)
    else if leb b'A' c && leb c b'F'
    then pos (c - b'A' + 10)
    else negsuc 0

-- `high << 4 | low` as a `char`: -1 has all bits set, and to shift it is undefined.
unfoldable pub hex_byte : ℤ → ℤ → Outcome ℕ
hex_byte (negsuc n) low = fault
hex_byte (pos high) (negsuc n) = ok 255
hex_byte (pos high) (pos low) = ok ((high * 16 + low) % 256)

abbrev pub with_byte : ℕ → Outcome (List ℕ × List ℕ) → Outcome (List ℕ × List ℕ)
with_byte v parsed = parsed >>= λ r. ok (v ∷ r.0, r.1)

-- `ParseValue` with `ValueAccept`: the value, and the text from the `&` on. With one character
-- after a `%` the code reads past the end.
unfoldable pub parse_value : List ℕ → Outcome (List ℕ × List ℕ)
unfolding hex_val hex_byte
parse_value [] = ok ([], [])
parse_value (c ∷ []) =
    if c == b'&' then ok ([], c ∷ []) else if c == b'%' then ok ([], []) else ok (c ∷ [], [])
parse_value (c ∷ a ∷ []) =
    let literal = with_byte c (parse_value (a ∷ [])) in
    if c == b'&' then ok ([], c ∷ a ∷ []) else if c == b'%' then fault else literal
parse_value (c ∷ a ∷ b ∷ s) =
    let literal = with_byte c (parse_value (a ∷ b ∷ s)) in
    let coded = hex_byte (hex_val a) (hex_val b) >>= λ v. with_byte v (parse_value s) in
    if c == b'&' then ok ([], c ∷ a ∷ b ∷ s) else if c == b'%' then coded else literal

abbrev pub same_text : List ℕ → List ℕ → Bool
same_text [] [] = true
same_text [] (d ∷ t) = false
same_text (c ∷ s) [] = false
same_text (c ∷ s) (d ∷ t) = (c == d) && same_text s t

-- `SetParam`, or `GetParam` with what is then pushed to its values.
unfoldable pub set_param :
    List ℕ → List ℕ → List (List ℕ × List (List ℕ)) → List (List ℕ × List (List ℕ))
set_param name value [] = (name, value ∷ []) ∷ []
set_param name value ((other, values) ∷ params) =
    if same_text name other
    then (other, values ++ value ∷ []) ∷ params
    else (other, values) ∷ set_param name value params

-- The loop of `ParseUri`, with fuel: `err 0` means that it ran out.
unfoldable pub parse_params :
    ℕ → List ℕ → List (List ℕ × List (List ℕ)) → Outcome (List (List ℕ × List (List ℕ)))
unfolding search_char parse_value set_param
parse_params zero s params = err 0
parse_params (suc fuel) [] params = ok params
parse_params (suc fuel) (c ∷ s) params = do
  let named = search_char b'=' (c ∷ s)
  (value, rest) ← parse_value (drop 1 named.1)
  parse_params fuel (drop 1 rest) (set_param named.0 value params)

pub record HttpRequest : Type 0 where
  pub path : List ℕ
  pub anchor : List ℕ
  pub params : List (List ℕ × List (List ℕ))

unfoldable pub with_params : HttpRequest → List ℕ → Outcome HttpRequest
unfolding parse_params
with_params request [] = ok request
with_params request (c ∷ s) = do
  params ← parse_params (suc (length s)) s request.params
  ok (record request { params = params })

unfoldable pub after_path : HttpRequest → List ℕ → Outcome HttpRequest
after_path request [] = ok request
after_path request (c ∷ s) =
    let anchored = search_char b'?' s in
    if c == b'#'
    then with_params (record request { anchor = anchored.0 }) anchored.1
    else with_params request (c ∷ s)

-- `ParseUri`. Its loop has as many rounds as characters at most.
unfoldable pub parse_uri : HttpRequest → List ℕ → Outcome HttpRequest
unfolding get_path after_path
parse_uri request uri =
    let parts = get_path uri in after_path (record request { path = parts.0 }) parts.1

pub record Url : Type 0 where
  pub protocol : List ℕ
  pub host : List ℕ
  pub uri : List ℕ

-- What is left of a text from the first `://` on, with what stands before.
unfoldable pub find_protocol : List ℕ → Option (List ℕ × List ℕ)
find_protocol [] = none
find_protocol (c ∷ s) =
    let rest = find_protocol s in
    if same_text (take 3 (c ∷ s)) (b':' ∷ b'/' ∷ b'/' ∷ [])
    then some ([], c ∷ s)
    else elim rest [ none ↦ none | some (before, from_) ↦ some (c ∷ before, from_) ]

-- `Url::Parse`. Without a `/` after the host, the host stays as it was.
unfoldable pub parse_url_found : Url → Option (List ℕ × List ℕ) → ℤ × Url
unfolding search_char
parse_url_found url none = (negsuc 0, url)
parse_url_found url (some (before, from_)) =
    let parts = search_char b'/' (drop 3 from_) in
    if length parts.1 == 0
    then (pos 0, record url { protocol = before; uri = b'/' ∷ [] })
    else (pos 0, record { protocol = before; host = parts.0; uri = parts.1 })

unfoldable pub parse_url : Url → List ℕ → ℤ × Url
unfolding parse_url_found find_protocol
parse_url url text = parse_url_found url (find_protocol text)
