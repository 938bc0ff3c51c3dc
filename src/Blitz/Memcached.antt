-- ===== src/Blitz/Memcached.antt =====
-- libsrc/blitz2/include/blitz2/memcached/memcached_common.h: lines of the memcached protocol, and
-- what the decoders of requests and replies have in common.
pub mod Tokens
use Prim.Native.Char.{code}
use Prim.Native.String.{String}
use mlsimgsearch.Prelude.{
  ltb, leb, ◌==◌, if◌then◌else◌, get_elem?, Outcome, ◌>>=◌, ok, err, fault, ℕ, suc, ◌%◌, Bool, true,
  false, ◌&&◌, Option, none, some, List, [], ◌∷◌, ◌++◌,
}

-- The characters of a text.
abbrev pub codes : String → List ℕ
codes String.[] = []
codes (String.◌∷◌ c s) = code c ∷ codes s

-- The carriage return and the newline.
abbrev pub cr : ℕ
cr = 13

abbrev pub lf : ℕ
lf = 10

-- `InitParam`
pub record InitParam : Type 0 where
  pub buf_start_len : ℕ
  pub buf_max_len : ℕ

abbrev pub past_one : Option ℕ → Option ℕ
past_one none = none
past_one (some i) = some (suc i)

-- `SearchEol`: where the first CR LF stands.
unfoldable pub search_eol : List ℕ → Option ℕ
search_eol [] = none
search_eol (c ∷ []) = none
search_eol (c ∷ d ∷ s) =
    let later = past_one (search_eol (d ∷ s)) in if d == lf && c == cr then some 0 else later

-- `*sword`, with `eword` at a blank.
abbrev pub first_char : List ℕ → ℕ
first_char [] = b' '
first_char (c ∷ word) = c

-- `*(eword + 1)`; behind the end stands `behind`.
abbrev pub next_char : ℕ → List ℕ → ℕ
next_char behind [] = behind
next_char behind (c ∷ s) = c

abbrev pub with_token : List ℕ → Option (List (List ℕ)) → Option (List (List ℕ))
with_token word none = none
with_token word (some tokens) = some (word ∷ tokens)

-- `TokenizerCommand` with `index` tokens found and `word` between `sword` and `eword`: the tokens
-- from here on, or none where it returns -1.
unfoldable pub tokens_from : ℕ → ℕ → ℕ → List ℕ → List ℕ → Option (List (List ℕ))
tokens_from behind max index word [] = some []
tokens_from behind max index word (c ∷ s) =
    let skipped = tokens_from behind max index [] s in
    let found = with_token word (tokens_from behind max (suc index) [] s) in
    let longer = tokens_from behind max index (word ++ c ∷ []) s in
    if leb max index
    then none
    else if c == b' '
    then (if first_char word == c then skipped else found)
    else if c == cr && next_char behind s == lf
    then some (word ∷ [])
    else longer

unfoldable pub tokenizer_command : ℕ → List ℕ → ℕ → Option (List (List ℕ))
unfolding tokens_from
tokenizer_command behind line max = tokens_from behind max 0 [] line

-- `0 == strncmp(text, name, strlen(name))` of a token: a blank or a CR stands behind it.
unfoldable pub begins : List ℕ → List ℕ → Bool
begins [] text = true
begins (c ∷ name) [] = false
begins (c ∷ name) (d ∷ text) = c == d && begins name text

-- What a call of `Feed` comes to: 0 with what it reports, -1, an exception of `lexical_cast`, or an
-- access out of bounds.
pub data Fed (A : Type 0) : Type 0 where
  done : Option A → Fed A
  refused : Fed A
  thrown : Fed A
  out_of_bounds : Fed A

-- A `uint32_t`.
abbrev pub u32 : ℕ → ℕ
u32 n = n % 0x1_0000_0000

abbrev pub or_instead : Option ℕ → Option ℕ → Option ℕ
or_instead other none = other
or_instead other (some c) = some c

-- The byte that `Feed` looks at when there is no line end yet: it stands a piece behind
-- `parsed_data_len_`, and is `behind` where nothing has been received yet.
unfoldable pub byte_at : ℕ → ℕ → List ℕ → ℕ → Option ℕ
byte_at behind capacity bytes i =
    or_instead (if ltb i capacity then some behind else none) (get_elem? bytes i)

-- A report comes before those of the pieces behind.
abbrev pub report_then {ℓ} :
    {A : Type 0} {S : Type ℓ} → Fed A → Outcome (List A × S) → Outcome (List A × S)
report_then (done none) others = others
report_then (done (some a)) others = others >>= λ (reports, d). ok (a ∷ reports, d)
report_then refused others = err 1
report_then thrown others = err 2
report_then out_of_bounds others = fault
