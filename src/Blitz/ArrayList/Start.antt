-- ===== src/Blitz/ArrayList/Start.antt =====
-- Init and Clear of an array list: all elements free, in the order of the array.
use mlsimgsearch.Prelude.{
  ne→==, length, get_elem?, replicate, length-replicate, from, length-from, ℕ, zero, suc, ◌+◌, ◌≤◌,
  ◌<◌, ◌≡◌, refl, ap, ◌∙◌, some, List, [], ◌∷◌, arith, ℕ_discrete,
}
use mlsimgsearch.Prelude.Int.{pos, negsuc}
use mlsimgsearch.Blitz.ArrayList.{Item, ArrayList, no_array, freed, cleared, init}
use mlsimgsearch.Blitz.ArrayList.Segments.{occurs, first_free, FreeChain}
use mlsimgsearch.Blitz.ArrayList.Rep.{Rep}

occurs-from : (k i n : ℕ) → (occurs k (from i n) ≤ 1) × (k < i → occurs k (from i n) ≡ 0)
occurs-from k i zero = (omega arith, λ h. refl)
occurs-from k i (suc n) = elim (ℕ_discrete k i) [
  | yes same ↦ ground (arith, (occurs-from k (suc i) n).1)
  | no other ↦ ground (arith, occurs-from k (suc i) n)
]

module _ {ℓ} {A : Type ℓ} where
  length-freed : (i : ℕ) (items : List (Item A)) → length (freed i items) ≡ length items
  unfolding freed
  length-freed i [] = refl
  length-freed i (x ∷ []) = refl
  length-freed i (x ∷ y ∷ items) = ap suc (length-freed (i + 1) (y ∷ items))

  -- What the loop makes of element `k` of those from `i` on.
  get_elem?-freed :
      (i : ℕ) (items : List (Item A)) (k : ℕ) (m : ℕ)
      → k + suc m ≡ length items
      → (x : A) × (get_elem? (freed i items) k
          ≡ some (record { data_ = x; prev = negsuc 0; next = first_free (from (suc i + k) m) }))
  unfolding freed
  get_elem?-freed i [] k m h = absurd (omega arith)
  get_elem?-freed i (x ∷ []) zero zero h = (x.data_, refl)
  get_elem?-freed i (x ∷ []) zero (suc m) h = absurd (omega arith)
  get_elem?-freed i (x ∷ []) (suc k) m h = absurd (omega arith)
  get_elem?-freed i (x ∷ y ∷ items) zero zero h = absurd (omega arith)
  get_elem?-freed i (x ∷ y ∷ items) zero (suc m) h = (
    x.data_,
    ap (λ n. some (record { data_ = x.data_; prev = negsuc 0; next = n })) (omega arith),
  )
  get_elem?-freed i (x ∷ y ∷ items) (suc k) m h =
      let (d, e) = get_elem?-freed (i + 1) (y ∷ items) k m (omega arith) in
      let same : suc (i + 1) + k ≡ suc i + suc k = omega arith in
      (
        d,
        e
            ∙ ap (λ n. some (record { data_ = d; prev = negsuc 0; next = first_free (from n m) }))
                same,
      )

  freed-FreeChain :
      (items : List (Item A)) (k m : ℕ)
      → k + m ≡ length items
      → FreeChain (freed 0 items) (from k m)
  freed-FreeChain items k zero h = tt
  freed-FreeChain items k (suc m) h =
      let (x, e) = get_elem?-freed 0 items k m h in
      let same : 1 + k ≡ suc k = omega arith in
      (
        (
          x,
          e
              ∙ ap (λ n. some (record { data_ = x; prev = negsuc 0; next = first_free (from n m) }))
                  same,
        ),
        freed-FreeChain items (suc k) m (omega arith),
      )

  pub cleared-Rep :
      (s : ArrayList A) → length s.array ≡ suc s.max_count → Rep (cleared s) [] (from 1 s.max_count)
  cleared-Rep s h = record {
    size = length-freed 0 s.array ∙ h;
    chain = freed-FreeChain s.array 0 (suc s.max_count) (omega arith);
    nodes = tt;
    first = refl;
    last = refl;
    apart = λ k. omega (arith, (occurs-from k 0 (suc s.max_count)).0);
    count = refl;
    all = omega (arith, length-from 1 s.max_count);
  }

  init_again :
      (blank : A) (m : ℕ) (s : ArrayList A)
      → length s.array ≡ suc s.max_count
      → init blank m s ≡ (1, s)
  unfolding init
  init_again blank m s h = rw (ne→== (length s.array) 0 (λ e. omega (arith, e))) refl

  -- Init of a list with no array returns 0 and makes a list of n places that holds nothing,
  -- whose free elements are 1 to n in that order. Each later Init returns 1 and changes nothing,
  -- whatever its size.
  pub init-Rep :
      (blank : A) (n m : ℕ)
      → (s : ArrayList A) × (init blank n no_array ≡ (0, s))
        × (s.max_count ≡ n)
        × Rep s [] (from 1 n)
        × (init blank m s ≡ (1, s))
  unfolding init no_array
  init-Rep blank n m =
      let item : Item A = record { data_ = blank; prev = pos 0; next = 0 } in
      let s0 : ArrayList A = record {
        array = replicate (n + 1) item;
        head_prev = 0;
        head_next = 0;
        count = pos 0;
        max_count = n;
      } in
      let size : length (replicate (n + 1) item) ≡ suc n =
        length-replicate (n + 1) item ∙ omega arith in
      let rep = cleared-Rep s0 size in
      (cleared s0, refl, refl, rep, init_again blank m (cleared s0) rep.size)
