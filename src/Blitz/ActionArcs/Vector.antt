-- ===== src/Blitz/ActionArcs/Vector.antt =====
-- CheckAndConvertToVec of ActionArcs: the states by the results that lead to them.
use mlsimgsearch.Prelude.{
  ltb, ◌==◌, ==_iff, if_cases, length, get_elem?, All, All-weaken, ℕ, suc, ◌+◌, ◌-◌, ◌%◌, ◌≤◌, ◌≡◌,
  refl, sym, ap, ◌∙◌, subst, true, some, List, [], ◌∷◌, arith,
}
use mlsimgsearch.Blitz.ActionArcs.{OneArc, insert_arc, sort_arcs, fill_arcs, check_and_convert}

All-insert_arc {ℓ} :
    (P : OneArc → Type ℓ) (a : OneArc) (arcs : List OneArc)
    → All P (insert_arc a arcs)
    → P a × All P arcs
unfolding insert_arc
All-insert_arc P a [] ps = ps
All-insert_arc P a (b ∷ arcs) ps =
    if_cases (λ out. All P out → P a × All P (b ∷ arcs)) (ltb b.result a.result)
      (λ less (p, ps). let (q, qs) = All-insert_arc P a arcs ps in (q, (p, qs))) (λ more ps. ps) ps

All-sort_arcs {ℓ} : (P : OneArc → Type ℓ) (arcs : List OneArc) → All P (sort_arcs arcs) → All P arcs
unfolding sort_arcs
All-sort_arcs P [] ps = tt
All-sort_arcs P (a ∷ arcs) ps =
    let (q, qs) = All-insert_arc P a (sort_arcs arcs) ps in (q, All-sort_arcs P arcs qs)

length-insert_arc :
    (a : OneArc) (arcs : List OneArc) → length (insert_arc a arcs) ≡ suc (length arcs)
unfolding insert_arc
length-insert_arc a [] = refl
length-insert_arc a (b ∷ arcs) = ground (arith, length-insert_arc a arcs)

length-sort_arcs : (arcs : List OneArc) → length (sort_arcs arcs) ≡ length arcs
unfolding sort_arcs
length-sort_arcs [] = refl
length-sort_arcs (a ∷ arcs) =
    omega (arith, length-insert_arc a (sort_arcs arcs), length-sort_arcs arcs)

-- Results from `i` on, one after the other.
abbrev Indexed : ℕ → List ℕ → OneArc → Type 0
Indexed i vec a = (i ≤ a.result) × (get_elem? vec (a.result - i) ≡ some a.state)

Indexed-later :
    (i x : ℕ) (vec : List ℕ) (a : OneArc) → Indexed (suc i) vec a → Indexed i (x ∷ vec) a
Indexed-later i x vec a (l, e) = (
  omega arith,
  ap (get_elem? (x ∷ vec)) (let same : a.result - i ≡ suc (a.result - suc i) = omega arith in same)
      ∙ e,
)

fill_arcs_head :
    (i : ℕ) (a : OneArc) (arcs : List OneArc) (vec : List ℕ)
    → fill_arcs i (a ∷ arcs) ≡ (vec, true)
    → (a.result ≡ i % 256)
      × (vec ≡ a.state ∷ (fill_arcs (suc i) arcs).0)
      × ((fill_arcs (suc i) arcs).1 ≡ true)
unfolding fill_arcs
fill_arcs_head i a arcs vec =
    if_cases
      (λ out.
        out ≡ (vec, true)
        → (a.result ≡ i % 256)
          × (vec ≡ a.state ∷ (fill_arcs (suc i) arcs).0)
          × ((fill_arcs (suc i) arcs).1 ≡ true))
      (a.result == i % 256)
      (λ same e. ((==_iff _ _).0 same, sym (ap (λ r. r.0) e), ap (λ r. r.1) e))
      (λ other e. absurd (cc (ap (λ r. r.1) e)))

fill_arcs-Indexed :
    (i : ℕ) (arcs : List OneArc) (vec : List ℕ)
    → i + length arcs ≤ 256
    → fill_arcs i arcs ≡ (vec, true)
    → All (Indexed i vec) arcs
unfolding fill_arcs
fill_arcs-Indexed i [] vec h e = tt
fill_arcs-Indexed i (a ∷ arcs) vec h e =
    let (same, whole, rest) = fill_arcs_head i a arcs vec e in
    let tail =
      fill_arcs-Indexed (suc i) arcs (fill_arcs (suc i) arcs).0 (omega arith)
        (ap (λ b. ((fill_arcs (suc i) arcs).0, b)) rest) in
    let here : a.result - i ≡ 0 = omega arith in
    subst (λ v. All (Indexed i v) (a ∷ arcs)) (sym whole)
      (
        (omega arith, ap (get_elem? (a.state ∷ (fill_arcs (suc i) arcs).0)) here),
        All-weaken (Indexed-later i a.state (fill_arcs (suc i) arcs).0) arcs tail,
      )

-- When CheckAndConvertToVec succeeds on at most 256 arcs, each arc's state stands in the vector
-- at the index that is the arc's result, in whatever order the arcs were given.
pub check_and_convert-All :
    (arcs : List OneArc) (vec : List ℕ)
    → length arcs ≤ 256
    → check_and_convert arcs ≡ (vec, true)
    → All (λ a. get_elem? vec a.result ≡ some a.state) arcs
unfolding check_and_convert
check_and_convert-All arcs vec h e =
    All-sort_arcs (λ a. get_elem? vec a.result ≡ some a.state) arcs
      (All-weaken
        (λ a (l, e').
          ap (get_elem? vec) (let same : a.result ≡ a.result - 0 = omega arith in same) ∙ e')
        (sort_arcs arcs)
        (fill_arcs-Indexed 0 (sort_arcs arcs) vec (omega (arith, length-sort_arcs arcs)) e))
