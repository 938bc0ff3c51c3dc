-- ===== src/Blitz/Memcached/Tokens.antt =====
-- A line of the protocol is found, and cut into its words again.
use mlsimgsearch.Prelude.{
  ◌==◌, le→leb, Bool-cases, length, length-append, All, ℕ, suc, ◌+◌, ◌≤◌, ◌<◌, ◌≡◌, refl, sym, ap,
  ◌∙◌, subst, inl, inr, false, none, some, List, [], ◌∷◌, ◌++◌, append-nil, append_assoc, arith,
  dec_lt,
}
use mlsimgsearch.Blitz.Memcached.{
  cr, lf, past_one, search_eol, with_token, tokens_from, tokenizer_command,
}

-- Neither a blank nor a CR.
abbrev pub Plain : List ℕ → Type 0
Plain = All (λ c. ((c == b' ') ≡ false) × ((c == cr) ≡ false))

abbrev pub IsWord : List ℕ → Type 0
IsWord [] = ⊥
IsWord (c ∷ word) = Plain (c ∷ word)

-- A line of words with one blank between them.
unfoldable pub line : List ℕ → List (List ℕ) → List ℕ
line word [] = word ++ cr ∷ lf ∷ []
line word (next ∷ words) = word ++ b' ' ∷ line next words

module _ (behind max : ℕ) where
  tokens-Plain :
      (index : ℕ) (word more s : List ℕ)
      → index < max
      → Plain more
      → tokens_from behind max index word (more ++ s)
        ≡ tokens_from behind max index (word ++ more) s
  unfolding tokens_from
  tokens-Plain index word [] s h p =
      ap (λ w. tokens_from behind max index w s) (sym (append-nil word))
  tokens-Plain index word (c ∷ more) s h ((b, r), p) =
      ground (arith, b, r)
      ∙ tokens-Plain index (word ++ c ∷ []) more s h p
      ∙ ap (λ w. tokens_from behind max index w s) (append_assoc word (c ∷ []) more)

  tokens_blank :
      (index : ℕ) (word s : List ℕ)
      → index < max
      → IsWord word
      → tokens_from behind max index word (b' ' ∷ s)
        ≡ with_token word (tokens_from behind max (suc index) [] s)
  unfolding tokens_from
  tokens_blank index [] s h w = absurd w
  tokens_blank index (c ∷ word) s h ((b, r), p) = ground (arith, b)

  tokens_end :
      (index : ℕ) (word : List ℕ)
      → index < max
      → tokens_from behind max index word (cr ∷ lf ∷ []) ≡ some (word ∷ [])
  unfolding tokens_from
  tokens_end index word h = ground arith

  tokens_word :
      (index : ℕ) (word s : List ℕ)
      → index < max
      → IsWord word
      → tokens_from behind max index [] (word ++ s) ≡ tokens_from behind max index word s
  tokens_word index [] s h w = refl
  tokens_word index (c ∷ word) s h w = tokens-Plain index [] (c ∷ word) s h w

  tokens_line :
      (index : ℕ) (word : List ℕ) (words : List (List ℕ))
      → index + length words < max
      → IsWord word
      → All IsWord words
      → tokens_from behind max index [] (line word words) ≡ some (word ∷ words)
  unfolding line
  tokens_line index word [] h w ws =
      tokens_word index word (cr ∷ lf ∷ []) (omega arith) w ∙ tokens_end index word (omega arith)
  tokens_line index word (next ∷ words) h w (w', ws) =
      tokens_word index word (b' ' ∷ line next words) (omega arith) w
      ∙ tokens_blank index word (line next words) (omega arith) w
      ∙ ap (with_token word) (tokens_line (suc index) next words (omega arith) w' ws)

  -- A line of words without blanks and CRs, at most as many as there is room for, is cut into these
  -- words, whatever stands behind the line.
  pub tokenizer_command-line :
      (word : List ℕ) (words : List (List ℕ))
      → length words < max
      → IsWord word
      → All IsWord words
      → tokenizer_command behind (line word words) max ≡ some (word ∷ words)
  unfolding tokenizer_command
  tokenizer_command-line word words h w ws = tokens_line 0 word words (omega arith) w ws

  -- One word more than there is room for is an error.
  tokens_many :
      (index : ℕ) (word : List ℕ) (words : List (List ℕ))
      → index ≤ max
      → max < index + suc (length words)
      → IsWord word
      → All IsWord words
      → tokens_from behind max index [] (line word words) ≡ none
  unfolding line tokens_from
  tokens_many index [] words h l w ws = absurd w
  tokens_many index (c ∷ word) [] h l w ws = rw (le→leb max index (omega arith)) refl
  tokens_many index (c ∷ word) (next ∷ words) h l w (w', ws) = elim (dec_lt index max) [
    | yes lt ↦
        tokens_word index (c ∷ word) (b' ' ∷ line next words) lt w
        ∙ tokens_blank index (c ∷ word) (line next words) lt w
        ∙ ap (with_token (c ∷ word))
            (tokens_many (suc index) next words (omega arith) (omega arith) w' ws)
    | no ge ↦ rw (le→leb max index (omega arith)) refl
  ]

  -- A line of more words than there is room for gets the error value.
  pub tokenizer_command_many :
      (word : List ℕ) (words : List (List ℕ))
      → max < suc (length words)
      → IsWord word
      → All IsWord words
      → tokenizer_command behind (line word words) max ≡ none
  unfolding tokenizer_command
  tokenizer_command_many word words l w ws =
      tokens_many 0 word words (omega arith) (omega arith) w ws

no_cr_past : (c : ℕ) (s : List ℕ) → (c == cr) ≡ false → search_eol (c ∷ s) ≡ past_one (search_eol s)
unfolding search_eol
no_cr_past c [] h = refl
no_cr_past c (d ∷ s) h = elim (Bool-cases (d == lf)) [ inl e ↦ rw (e, h) refl | inr e ↦ rw e refl ]

-- The first line end is found where no CR stands before it.
pub search_eol_line :
    (text rest : List ℕ)
    → All (λ c. (c == cr) ≡ false) text
    → search_eol (text ++ cr ∷ lf ∷ rest) ≡ some (length text)
unfolding search_eol
search_eol_line [] rest p = refl
search_eol_line (c ∷ text) rest (h, p) =
    no_cr_past c (text ++ cr ∷ lf ∷ rest) h ∙ ap past_one (search_eol_line text rest p)

-- The part of a line before its end.
unfoldable pub line_text : List ℕ → List (List ℕ) → List ℕ
line_text word [] = word
line_text word (next ∷ words) = word ++ b' ' ∷ line_text next words

pub line-line_text :
    (word : List ℕ) (words : List (List ℕ)) (rest : List ℕ)
    → line word words ++ rest ≡ line_text word words ++ cr ∷ lf ∷ rest
unfolding line line_text
line-line_text word [] rest = append_assoc word (cr ∷ lf ∷ []) rest
line-line_text word (next ∷ words) rest =
    append_assoc word (b' ' ∷ line next words) rest
    ∙ ap (λ s. word ++ b' ' ∷ s) (line-line_text next words rest)
    ∙ sym (append_assoc word (b' ' ∷ line_text next words) (cr ∷ lf ∷ rest))

no_cr-append :
    (xs ys : List ℕ)
    → Plain xs
    → All (λ c. (c == cr) ≡ false) ys
    → All (λ c. (c == cr) ≡ false) (xs ++ ys)
no_cr-append [] ys p q = q
no_cr-append (x ∷ xs) ys ((b, r), p) q = (r, no_cr-append xs ys p q)

Plain-IsWord : (word : List ℕ) → IsWord word → Plain word
Plain-IsWord [] w = absurd w
Plain-IsWord (c ∷ word) w = w

no_cr-line_text :
    (word : List ℕ) (words : List (List ℕ))
    → IsWord word
    → All IsWord words
    → All (λ c. (c == cr) ≡ false) (line_text word words)
unfolding line_text
no_cr-line_text word [] w ws =
    subst (All (λ c. (c == cr) ≡ false)) (append-nil word)
      (no_cr-append word [] (Plain-IsWord word w) tt)
no_cr-line_text word (next ∷ words) w (w', ws) =
    no_cr-append word (b' ' ∷ line_text next words) (Plain-IsWord word w)
      (refl, no_cr-line_text next words w' ws)

length-line :
    (word : List ℕ) (words : List (List ℕ))
    → length (line word words) ≡ length (line_text word words) + 2
length-line word words =
    let parts = line-line_text word words [] in
    let whole = ap length (append-nil (line word words)) in
    omega (arith, whole, ap length parts, length-append (line_text word words) (cr ∷ lf ∷ []))

-- The length of the line as the decoders find it.
pub search_eol-line :
    (word : List ℕ) (words : List (List ℕ)) (rest : List ℕ)
    → IsWord word
    → All IsWord words
    → (n : ℕ) × (search_eol (line word words ++ rest) ≡ some n) × (n + 2 ≡ length (line word words))
search_eol-line word words rest w ws = (
  length (line_text word words),
  ap search_eol (line-line_text word words rest)
      ∙ search_eol_line (line_text word words) rest (no_cr-line_text word words w ws),
  sym (length-line word words),
)
