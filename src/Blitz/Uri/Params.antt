-- ===== src/Blitz/Uri/Params.antt =====
-- ParseUri reads the path, the anchor and the parameters that a URI was made of.
use mlsimgsearch.Prelude.{
  ◌==◌, if◌then◌else◌, ==_iff, Bool-cases, if_cases, length, length-append, drop, All, ok, ℕ, zero,
  suc, ◌≤◌, ◌<◌, ◌≡◌, refl, sym, ap, ap₂, ◌∙◌, inl, inr, Bool, true, false, ◌||◌, List, [], ◌∷◌,
  ◌++◌, append-nil, append_assoc, arith,
}
use mathlib.Core.Bool.{false≢true}
use mlsimgsearch.Blitz.Uri.{
  same_text, split_at, get_path, search_char, parse_value, set_param, parse_params, HttpRequest,
  with_params, after_path, parse_uri,
}
use mlsimgsearch.Blitz.Uri.Values.{encode, EndsValue, parse_value-encode}

pub split_at_stop :
    (stops : ℕ → Bool) (before : List ℕ) (c : ℕ) (s : List ℕ)
    → All (λ d. stops d ≡ false) before
    → stops c ≡ true
    → split_at stops (before ++ c ∷ s) ≡ (before, c ∷ s)
split_at_stop stops [] c s hs h = rw h refl
split_at_stop stops (d ∷ before) c s (g, hs) h =
    rw g (ap (λ r. (d ∷ r.0, r.1)) (split_at_stop stops before c s hs h))

pub split_at_none :
    (stops : ℕ → Bool) (text : List ℕ)
    → All (λ d. stops d ≡ false) text
    → split_at stops text ≡ (text, [])
split_at_none stops [] hs = refl
split_at_none stops (d ∷ text) (g, hs) =
    rw g (ap (λ r. (d ∷ r.0, r.1)) (split_at_none stops text hs))

abbrev pub Avoids : ℕ → List ℕ → Type 0
Avoids c text = All (λ d. (d == c) ≡ false) text

abbrev pub set_params :
    List (List ℕ × List ℕ) → List (List ℕ × List (List ℕ)) → List (List ℕ × List (List ℕ))
set_params [] params = params
set_params ((name, value) ∷ given) params = set_params given (set_param name value params)

same_text_refl : (s : List ℕ) → same_text s s ≡ true
same_text_refl [] = refl
same_text_refl (c ∷ s) = rw ((==_iff c c).1 refl) (same_text_refl s)

same_text_sound : (s t : List ℕ) → same_text s t ≡ true → s ≡ t
same_text_sound [] [] h = refl
same_text_sound [] (d ∷ t) h = cc
same_text_sound (c ∷ s) [] h = cc
same_text_sound (c ∷ s) (d ∷ t) h = elim (Bool-cases (c == d)) [
  | inl e ↦ ap₂ ◌∷◌ ((==_iff c d).0 e) (same_text_sound s t (rw e at h))
  | inr e ↦ absurd (false≢true (rw e at h))
]

-- The values that a request has under a name.
unfoldable pub values_of : List ℕ → List (List ℕ × List (List ℕ)) → List (List ℕ)
values_of name [] = []
values_of name ((other, values) ∷ params) =
    if same_text name other then values else values_of name params

-- The values that are given under a name, in their order.
unfoldable pub given_under : List ℕ → List (List ℕ × List ℕ) → List (List ℕ)
given_under name [] = []
given_under name ((other, value) ∷ given) =
    if same_text name other then value ∷ given_under name given else given_under name given

-- A text that is one text is not another.
different :
    (name other o : List ℕ)
    → same_text name o ≡ true
    → same_text other o ≡ false
    → same_text name other ≡ false
different name other o k e =
    let same : name ≡ o = same_text_sound name o k in
    elim (Bool-cases (same_text name other)) [
      | inl h ↦
          let same' : name ≡ other = same_text_sound name other h in
          absurd (false≢true (sym e ∙ ap (λ t. same_text t o) (sym same') ∙ k))
      | inr h ↦ h
    ]

values_of-set_param :
    (name other value : List ℕ) (params : List (List ℕ × List (List ℕ)))
    → values_of name (set_param other value params)
      ≡ values_of name params ++ (if same_text name other then value ∷ [] else [])
unfolding values_of set_param
values_of-set_param name other value [] = refl
values_of-set_param name other value ((o, vs) ∷ params) = elim (Bool-cases (same_text other o)) [
  | inl e ↦
      let same : other ≡ o = same_text_sound other o e in
      rw (e, same)
        (elim (Bool-cases (same_text name o)) [
          | inl k ↦ rw k refl
          | inr k ↦ rw k (sym (append-nil (values_of name params)))
        ])
  | inr e ↦ rw e (elim (Bool-cases (same_text name o)) [
    | inl k ↦
        let apart : same_text name other ≡ false = different name other o k e in
        rw (k, apart) (sym (append-nil vs))
    | inr k ↦ rw k (values_of-set_param name other value params)
  ])
]

values_of-set_params :
    (name : List ℕ) (given : List (List ℕ × List ℕ)) (params : List (List ℕ × List (List ℕ)))
    → values_of name (set_params given params) ≡ values_of name params ++ given_under name given
unfolding given_under
values_of-set_params name [] params = sym (append-nil (values_of name params))
values_of-set_params name ((other, value) ∷ given) params =
    values_of-set_params name given (set_param other value params)
    ∙ ap (λ vs. vs ++ given_under name given) (values_of-set_param name other value params)
    ∙ append_assoc (values_of name params) (if same_text name other then value ∷ [] else [])
        (given_under name given)
    ∙ ap (λ vs. values_of name params ++ vs)
        (elim (Bool-cases (same_text name other)) [ inl e ↦ rw e refl | inr e ↦ rw e refl ])

module _ (capital : Bool) (plain : ℕ → Bool) where
  -- `name=value`, with `&` between one parameter and the next.
  abbrev pub print_params : List (List ℕ × List ℕ) → List ℕ
  print_params [] = []
  print_params ((name, value) ∷ []) = name ++ b'=' ∷ encode capital plain value []
  print_params ((name, value) ∷ next ∷ given) =
      name ++ b'=' ∷ encode capital plain value (b'&' ∷ print_params (next ∷ given))

  -- A name has no `=`, and a value is made of bytes.
  abbrev pub Printable : List (List ℕ × List ℕ) → Type 0
  Printable [] = Unit
  Printable ((name, value) ∷ given) =
      (Avoids b'=' name × All (λ v. v < 256) value) × Printable given

  parse_params_step :
      (fuel : ℕ) (text name value at_ rest : List ℕ) (params : List (List ℕ × List (List ℕ)))
      → 0 < length text
      → search_char b'=' text ≡ (name, at_)
      → parse_value (drop 1 at_) ≡ ok (value, rest)
      → parse_params (suc fuel) text params
        ≡ parse_params fuel (drop 1 rest) (set_param name value params)
  unfolding parse_params
  parse_params_step fuel [] name value at_ rest params h e e' = absurd (omega arith)
  parse_params_step fuel (c ∷ s) name value at_ rest params h e e' = rw (e, e') refl

  one_param :
      (fuel : ℕ) (name value rest : List ℕ) (params : List (List ℕ × List (List ℕ)))
      → plain b'&' ≡ false
      → plain b'%' ≡ false
      → Avoids b'=' name
      → All (λ v. v < 256) value
      → EndsValue rest
      → parse_params (suc fuel) (name ++ b'=' ∷ encode capital plain value rest) params
        ≡ parse_params fuel (drop 1 rest) (set_param name value params)
  unfolding search_char
  one_param fuel name value rest params amp per avoids small ends =
      let coded = encode capital plain value rest in
      parse_params_step fuel (name ++ b'=' ∷ coded) name value (b'=' ∷ coded) rest params
        (omega (arith, length-append name (b'=' ∷ coded)))
        (split_at_stop (λ d. d == b'=') name b'=' coded avoids refl)
        (parse_value-encode capital plain value rest amp per small ends)

  pub parse_params-print_params :
      (given : List (List ℕ × List ℕ)) (fuel : ℕ) (params : List (List ℕ × List (List ℕ)))
      → plain b'&' ≡ false
      → plain b'%' ≡ false
      → Printable given
      → length given < fuel
      → parse_params fuel (print_params given) params ≡ ok (set_params given params)
  unfolding parse_params
  parse_params-print_params given zero params amp per ps h = absurd (omega arith)
  parse_params-print_params [] (suc fuel) params amp per ps h = refl
  parse_params-print_params ((name, value) ∷ []) (suc (suc fuel)) params amp per ((a, b), ps) h =
      one_param (suc fuel) name value [] params amp per a b tt
  parse_params-print_params ((name, value) ∷ []) (suc zero) params amp per ((a, b), ps) h =
      absurd (omega arith)
  parse_params-print_params ((name, value) ∷ next ∷ given) (suc fuel) params amp per ((a, b), ps)
        h =
      one_param fuel name value (b'&' ∷ print_params (next ∷ given)) params amp per a b refl
      ∙ parse_params-print_params (next ∷ given) fuel (set_param name value params) amp per ps
          (omega arith)

  length-encode : (bytes rest : List ℕ) → length rest ≤ length (encode capital plain bytes rest)
  length-encode [] rest = omega arith
  length-encode (v ∷ bytes) rest =
      if_cases (λ (t : List ℕ). length rest ≤ length t) (plain v)
        (λ h. omega (arith, length-encode bytes rest))
        (λ h. omega (arith, length-encode bytes rest))

  length-print_params :
      (given : List (List ℕ × List ℕ)) → length given ≤ length (print_params given)
  length-print_params [] = omega arith
  length-print_params ((name, value) ∷ []) =
      omega (arith, length-append name (b'=' ∷ encode capital plain value []))
  length-print_params ((name, value) ∷ next ∷ given) = omega (
    arith,
    length-append name (b'=' ∷ encode capital plain value (b'&' ∷ print_params (next ∷ given))),
    length-print_params (next ∷ given),
    length-encode value (b'&' ∷ print_params (next ∷ given)),
  )

  -- A path has neither `?` nor `#`, an anchor has no `?`.
  abbrev pub InPath : List ℕ → Type 0
  InPath path = All (λ c. ((c == b'?') || (c == b'#')) ≡ false) path

  with_params-print_params :
      (request : HttpRequest) (given : List (List ℕ × List ℕ))
      → plain b'&' ≡ false
      → plain b'%' ≡ false
      → Printable given
      → with_params request (b'?' ∷ print_params given)
        ≡ ok (record request { params = set_params given request.params })
  unfolding with_params
  with_params-print_params request given amp per ps =
      rw
        (parse_params-print_params given (suc (length (print_params given))) request.params amp per
          ps (omega (arith, length-print_params given)))
        refl

  after_path-print_params :
      (request : HttpRequest) (anchor : List ℕ) (given : List (List ℕ × List ℕ))
      → plain b'&' ≡ false
      → plain b'%' ≡ false
      → Avoids b'?' anchor
      → Printable given
      → (after_path request (b'?' ∷ print_params given)
          ≡ ok (record request { params = set_params given request.params }))
        × (after_path request (b'#' ∷ (anchor ++ b'?' ∷ print_params given))
            ≡ ok (record request { anchor = anchor; params = set_params given request.params }))
  unfolding after_path search_char
  after_path-print_params request anchor given amp per avoids ps = (
    with_params-print_params request given amp per ps,
    rw (split_at_stop (λ d. d == b'?') anchor b'?' (print_params given) avoids refl)
        (with_params-print_params (record request { anchor = anchor }) given amp per ps),
  )

  -- ParseUri reads back what a URI is made of: a path without ? and #, alone or with parameters,
  -- and with or without an anchor before them that has no ?. Names have no =, and values are any
  -- bytes, percent-encoded with small or capital digits wherever the writer chooses to, but
  -- always for & and %. Under each name stand the values that it had and behind them those that
  -- the URI gives it, in their order.
  pub parse_uri-print_params :
      (request : HttpRequest) (path anchor : List ℕ) (given : List (List ℕ × List ℕ))
      → plain b'&' ≡ false
      → plain b'%' ≡ false
      → InPath path
      → Avoids b'?' anchor
      → Printable given
      → (parse_uri request (path ++ b'?' ∷ print_params given)
          ≡ ok (record request { path = path; params = set_params given request.params }))
        × (parse_uri request (path ++ b'#' ∷ (anchor ++ b'?' ∷ print_params given))
            ≡ ok
                (record { path = path; anchor = anchor; params = set_params given request.params }))
        × (parse_uri request path ≡ ok (record request { path = path }))
        × ((name : List ℕ)
            → values_of name (set_params given request.params)
              ≡ values_of name request.params ++ given_under name given)
  unfolding parse_uri get_path
  parse_uri-print_params request path anchor given amp per in_path avoids ps =
      let query = print_params given in
      let stops : ℕ → Bool = λ c. (c == b'?') || (c == b'#') in
      let found_ = record request { path = path } in
      let (plain_, anchored) = after_path-print_params found_ anchor given amp per avoids ps in
      (
        rw (split_at_stop stops path b'?' query in_path refl) plain_,
        rw (split_at_stop stops path b'#' (anchor ++ b'?' ∷ query) in_path refl) anchored,
        rw (split_at_none stops path in_path) refl,
        λ name. values_of-set_params name given request.params,
      )
