-- ===== src/Blitz/Uri/Ends.antt =====
-- The loops of ParseUri end on every text.
use mlsimgsearch.Prelude.{
  ◌==◌, if_cases, length, drop, length-drop, Outcome, ◌>>=◌, ok, err, fault, ℕ, zero, suc, ◌+◌, ◌*◌,
  ◌%◌, ◌≤◌, ◌<◌, Bool, List, [], ◌∷◌, arith,
}
use mlsimgsearch.Prelude.Int.{ℤ, pos, negsuc}
use mlsimgsearch.Blitz.Uri.{
  split_at, search_char, hex_val, hex_byte, with_byte, parse_value, set_param, parse_params,
  HttpRequest, with_params, after_path, parse_uri, get_path,
}

-- The outcome is a value or a read past the end, never fuel that ran out; no more than `n`
-- characters are left.
abbrev Leaves : ℕ → Outcome (List ℕ × List ℕ) → Type 0
Leaves n (ok (value, rest)) = length rest ≤ n
Leaves n (err code) = ⊥
Leaves n fault = Unit

abbrev pub Ends {ℓ} : {A : Type ℓ} → Outcome A → Type 0
Ends (ok a) = Unit
Ends (err code) = ⊥
Ends fault = Unit

Leaves-more :
    (k n : ℕ) (v : ℕ) (o : Outcome (List ℕ × List ℕ))
    → k ≤ n
    → Leaves k o
    → Leaves n (with_byte v o)
Leaves-more k n v (ok (value, rest)) h l = omega arith
Leaves-more k n v (err code) h l = l
Leaves-more k n v fault h l = tt

Leaves-weaken : (k n : ℕ) (o : Outcome (List ℕ × List ℕ)) → k ≤ n → Leaves k o → Leaves n o
Leaves-weaken k n (ok (value, rest)) h l = omega arith
Leaves-weaken k n (err code) h l = l
Leaves-weaken k n fault h l = tt

Leaves-coded :
    (k n : ℕ) (high low : ℤ) (o : Outcome (List ℕ × List ℕ))
    → k ≤ n
    → Leaves k o
    → Leaves n (hex_byte high low >>= λ v. with_byte v o)
unfolding hex_byte
Leaves-coded k n (negsuc i) low o h l = tt
Leaves-coded k n (pos i) (negsuc j) o h l = Leaves-more k n 255 o h l
Leaves-coded k n (pos i) (pos j) o h l = Leaves-more k n ((i * 16 + j) % 256) o h l

parse_value-Leaves : (s : List ℕ) → Leaves (length s) (parse_value s)
unfolding parse_value
parse_value-Leaves [] = omega arith
parse_value-Leaves (c ∷ []) =
    if_cases (Leaves 1) (c == b'&') (λ h. omega arith)
      (λ h. if_cases (Leaves 1) (c == b'%') (λ h'. omega arith) (λ h'. omega arith))
parse_value-Leaves (c ∷ a ∷ []) =
    if_cases (Leaves 2) (c == b'&') (λ h. omega arith)
      (λ h.
        if_cases (Leaves 2) (c == b'%') (λ h'. tt)
          (λ h'.
            Leaves-more 1 2 c (parse_value (a ∷ [])) (omega arith) (parse_value-Leaves (a ∷ []))))
parse_value-Leaves (c ∷ a ∷ b ∷ s) =
    let n : ℕ = length (c ∷ a ∷ b ∷ s) in
    if_cases (Leaves n) (c == b'&') (λ h. omega arith)
      (λ h.
        if_cases (Leaves n) (c == b'%')
          (λ h'.
            Leaves-coded (length s) n (hex_val a) (hex_val b) (parse_value s) (omega arith)
              (parse_value-Leaves s))
          (λ h'.
            Leaves-more (length (a ∷ b ∷ s)) n c (parse_value (a ∷ b ∷ s)) (omega arith)
              (parse_value-Leaves (a ∷ b ∷ s))))

length-split_at : (stops : ℕ → Bool) (s : List ℕ) → length (split_at stops s).1 ≤ length s
length-split_at stops [] = omega arith
length-split_at stops (c ∷ s) =
    if_cases (λ (r : List ℕ × List ℕ). length r.1 ≤ suc (length s)) (stops c) (λ h. omega arith)
      (λ h. omega (arith, length-split_at stops s))

-- A chain ends if its parts do.
>>=-Ends :
    (n : ℕ) (o : Outcome (List ℕ × List ℕ)) {B : Type 0} (next : List ℕ × List ℕ → Outcome B)
    → Leaves n o
    → ((r : List ℕ × List ℕ) → length r.1 ≤ n → Ends (next r))
    → Ends (o >>= next)
>>=-Ends n (ok r) next l f = f r l
>>=-Ends n (err code) next l f = l
>>=-Ends n fault next l f = tt

pub parse_params-Ends :
    (fuel : ℕ) (s : List ℕ) (params : List (List ℕ × List (List ℕ)))
    → length s < fuel
    → Ends (parse_params fuel s params)
unfolding parse_params
parse_params-Ends zero s params h = absurd (omega arith)
parse_params-Ends (suc fuel) [] params h = tt
parse_params-Ends (suc fuel) (c ∷ s) params h =
    let named = search_char b'=' (c ∷ s) in
    >>=-Ends (length s) (parse_value (drop 1 named.1))
      (λ r. parse_params fuel (drop 1 r.1) (set_param named.0 r.0 params))
      (Leaves-weaken (length (drop 1 named.1)) (length s) (parse_value (drop 1 named.1))
        (omega (arith, length-drop 1 named.1, length-split_at (λ d. d == b'=') (c ∷ s)))
        (parse_value-Leaves (drop 1 named.1)))
      (λ r less.
        parse_params-Ends fuel (drop 1 r.1) (set_param named.0 r.0 params)
          (omega (arith, less, length-drop 1 r.1)))

with_value {ℓ κ} :
    {A : Type ℓ} {B : Type κ} (o : Outcome A) (f : A → B) → Ends o → Ends (o >>= λ a. ok (f a))
with_value (ok a) f ends = tt
with_value (err code) f ends = ends
with_value fault f ends = tt

with_params-Ends : (request : HttpRequest) (s : List ℕ) → Ends (with_params request s)
unfolding with_params
with_params-Ends request [] = tt
with_params-Ends request (c ∷ s) =
    let ends = parse_params-Ends (suc (length s)) s request.params (omega arith) in
    with_value (parse_params (suc (length s)) s request.params)
      (λ params. record request { params = params }) ends

after_path-Ends : (request : HttpRequest) (s : List ℕ) → Ends (after_path request s)
unfolding after_path
after_path-Ends request [] = tt
after_path-Ends request (c ∷ s) =
    if_cases Ends (c == b'#')
      (λ h.
        with_params-Ends (record request { anchor = (search_char b'?' s).0 })
          (search_char b'?' s).1)
      (λ h. with_params-Ends request (c ∷ s))

-- ParseUri ends on every text: the fuel of its loop, the number of characters, never runs out.
-- It gives a result, or it reads past the end of the text or shifts a negative number on a
-- malformed escape.
pub parse_uri-Ends : (request : HttpRequest) (uri : List ℕ) → Ends (parse_uri request uri)
unfolding parse_uri
parse_uri-Ends request uri =
    after_path-Ends (record request { path = (get_path uri).0 }) (get_path uri).1
