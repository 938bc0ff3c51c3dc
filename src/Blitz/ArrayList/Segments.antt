-- ===== src/Blitz/ArrayList/Segments.antt =====
-- Runs of linked elements of an array, and the run of free elements.
use mlsimgsearch.Prelude.{
  ◌==◌, if◌then◌else◌, get_elem?, modify, get_elem?-modify, get_elem?-modify_ne, ℕ, suc, ◌+◌, ◌≤◌,
  ◌≡◌, refl, sym, ap, ◌∙◌, subst, some, List, [], ◌∷◌, ◌++◌, arith,
}
use mlsimgsearch.Prelude.Int.{pos, negsuc}
use mlsimgsearch.Blitz.ArrayList.{Item, with_next, with_prev}

abbrev pub occurs : ℕ → List ℕ → ℕ
occurs k [] = 0
occurs k (x ∷ xs) = (if k == x then 1 else 0) + occurs k xs

pub occurs_self : (p : ℕ) (ps : List ℕ) → occurs p (p ∷ ps) ≡ suc (occurs p ps)
occurs_self p ps = ground arith

abbrev pub first_free : List ℕ → ℕ
first_free [] = 0
first_free (f ∷ fl) = f

module _ {ℓ} {A : Type ℓ} where
  abbrev pub positions : List (ℕ × A) → List ℕ
  positions [] = []
  positions ((p, x) ∷ xs) = p ∷ positions xs

  abbrev pub first_of : List (ℕ × A) → ℕ → ℕ
  first_of [] after = after
  first_of ((p, x) ∷ xs) after = p

  abbrev pub last_of : ℕ → List (ℕ × A) → ℕ
  last_of before [] = before
  last_of before ((p, x) ∷ xs) = last_of p xs

  -- The elements `xs` lie in the array, linked both ways, between `before` and `after`.
  abbrev pub Linked : List (Item A) → ℕ → List (ℕ × A) → ℕ → Type ℓ
  Linked array before [] after = Unit
  Linked array before ((p, x) ∷ xs) after =
      (get_elem? array p ≡ some (record { data_ = x; prev = pos before; next = first_of xs after }))
      × Linked array p xs after

  abbrev pub FreeChain : List (Item A) → List ℕ → Type ℓ
  FreeChain array [] = Unit
  FreeChain array (f ∷ fl) =
      ((x : A) × (get_elem? array f
          ≡ some (record { data_ = x; prev = negsuc 0; next = first_free fl })))
      × FreeChain array fl

  pub first_of-append :
      (xs ys : List (ℕ × A)) (after : ℕ)
      → first_of (xs ++ ys) after ≡ first_of xs (first_of ys after)
  first_of-append [] ys after = refl
  first_of-append ((p, x) ∷ xs) ys after = refl

  pub last_of-append :
      (before : ℕ) (xs ys : List (ℕ × A))
      → last_of before (xs ++ ys) ≡ last_of (last_of before xs) ys
  last_of-append before [] ys = refl
  last_of-append before ((p, x) ∷ xs) ys = last_of-append p xs ys

  pub occurs-append :
      (k : ℕ) (xs ys : List (ℕ × A))
      → occurs k (positions (xs ++ ys)) ≡ occurs k (positions xs) + occurs k (positions ys)
  occurs-append k [] ys = omega arith
  occurs-append k ((p, x) ∷ xs) ys = omega (arith, occurs-append k xs ys)

  pub last_of-occurs :
      (before : ℕ) (x : ℕ × A) (xs : List (ℕ × A))
      → 1 ≤ occurs (last_of before (x ∷ xs)) (positions (x ∷ xs))
  last_of-occurs before (p, x) [] = ground arith
  last_of-occurs before (p, x) ((q, y) ∷ xs) = omega (arith, last_of-occurs p (q, y) xs)

  -- What lies elsewhere does not matter.
  pub Linked-elsewhere :
      (array array' : List (Item A)) (before : ℕ) (xs : List (ℕ × A)) (after : ℕ)
      → ((k : ℕ) → 1 ≤ occurs k (positions xs) → get_elem? array' k ≡ get_elem? array k)
      → Linked array before xs after
      → Linked array' before xs after
  Linked-elsewhere array array' before [] after same l = tt
  Linked-elsewhere array array' before ((p, x) ∷ xs) after same (e, l) = (
    same p (ground arith) ∙ e,
    Linked-elsewhere array array' p xs after (λ k h. same k (omega (arith, h))) l,
  )

  pub FreeChain-elsewhere :
      (array array' : List (Item A)) (fl : List ℕ)
      → ((k : ℕ) → 1 ≤ occurs k fl → get_elem? array' k ≡ get_elem? array k)
      → FreeChain array fl
      → FreeChain array' fl
  FreeChain-elsewhere array array' [] same c = tt
  FreeChain-elsewhere array array' (f ∷ fl) same ((x, e), c) = (
    (x, same f (ground arith) ∙ e),
    FreeChain-elsewhere array array' fl (λ k h. same k (omega (arith, h))) c,
  )

  -- A run of two parts.
  pub Linked-split :
      (array : List (Item A)) (before : ℕ) (xs ys : List (ℕ × A)) (after : ℕ)
      → Linked array before (xs ++ ys) after
      → Linked array before xs (first_of ys after) × Linked array (last_of before xs) ys after
  Linked-split array before [] ys after l = (tt, l)
  Linked-split array before ((p, x) ∷ xs) ys after (e, l) =
      let (left, right) = Linked-split array p xs ys after l in
      (
        (
          subst (λ n. get_elem? array p ≡ some (record { data_ = x; prev = pos before; next = n }))
              (first_of-append xs ys after) e,
          left,
        ),
        right,
      )

  pub Linked-join :
      (array : List (Item A)) (before : ℕ) (xs ys : List (ℕ × A)) (after : ℕ)
      → Linked array before xs (first_of ys after)
      → Linked array (last_of before xs) ys after
      → Linked array before (xs ++ ys) after
  Linked-join array before [] ys after left right = right
  Linked-join array before ((p, x) ∷ xs) ys after (e, left) right = (
    subst (λ n. get_elem? array p ≡ some (record { data_ = x; prev = pos before; next = n }))
        (sym (first_of-append xs ys after)) e,
    Linked-join array p xs ys after left right,
  )

  -- The last element of a run is linked to another element.
  pub Linked-next :
      (array : List (Item A)) (before : ℕ) (x : ℕ × A) (xs : List (ℕ × A)) (after after' : ℕ)
      → ((k : ℕ) → occurs k (positions (x ∷ xs)) ≤ 1)
      → Linked array before (x ∷ xs) after
      → Linked (modify (with_next after') (last_of before (x ∷ xs)) array) before (x ∷ xs) after'
  Linked-next array before (p, x) [] after after' once (e, l) =
      (get_elem?-modify (with_next after') p array e, tt)
  Linked-next array before (p, x) ((q, y) ∷ xs) after after' once (e, l) = (
    get_elem?-modify_ne (with_next after') (last_of p ((q, y) ∷ xs)) p array (λ same.
          let there = last_of-occurs p (q, y) xs in
          let here = ap (λ k. occurs k (positions ((q, y) ∷ xs))) same in
          omega (arith, once p, there, here, occurs_self p (positions ((q, y) ∷ xs))))
        ∙ e,
    Linked-next array p (q, y) xs after after' (λ k. omega (arith, once k)) l,
  )

  -- The first element of a run is linked to another element.
  pub Linked-prev :
      (array : List (Item A)) (before before' p : ℕ) (x : A) (xs : List (ℕ × A)) (after : ℕ)
      → occurs p (positions xs) ≡ 0
      → Linked array before ((p, x) ∷ xs) after
      → Linked (modify (with_prev (pos before')) p array) before' ((p, x) ∷ xs) after
  Linked-prev array before before' p x xs after once (e, l) = (
    get_elem?-modify (with_prev (pos before')) p array e,
    Linked-elsewhere array (modify (with_prev (pos before')) p array) p xs after
        (λ k h. get_elem?-modify_ne (with_prev (pos before')) p k array (λ same.
          let there = ap (λ j. occurs j (positions xs)) same in omega (arith, once, there, h)))
        l,
  )
