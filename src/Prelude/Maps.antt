-- ===== src/Prelude/Maps.antt =====
-- Maps with numbers for keys, as association lists: the containers `std::unordered_map` of the source.
use Prim.Native.Nat.{ℕ, suc}
use mathlib.Core.Path.{◌≡◌, refl, sym, ap, subst, ◌∙◌}
use mathlib.Core.Logic.{◌≢◌}
use mathlib.Core.List.{List, [], ◌∷◌}
use mathlib.Core.Option.{Option, none, some}
use mathlib.Core.Bool.{Bool, true, false}
use native.Mathlib.Decide.{ℕ_discrete}
use mlsimgsearch.Prelude.Lists.{length}
use mlsimgsearch.Prelude.Tests.{◌==◌, if◌then◌else◌, if_cases, ne→==, ==_iff}

or_default {ℓ} : {V : Type ℓ} → V → Option V → V
or_default v none = v
or_default v (some w) = w

pub some-eq-some {ℓ} : {V : Type ℓ} {v w : V} → some v ≡ some w → v ≡ w
unfolding or_default
some-eq-some {v} e = ap (or_default v) e

module _ {ℓ} {V : Type ℓ} where
  abbrev pub lookup : ℕ → List (ℕ × V) → Option V
  lookup k [] = none
  lookup k ((j, v) ∷ m) = if k == j then some v else lookup k m

  -- An assignment to the entry that a pointer names.
  abbrev pub update : ℕ → V → List (ℕ × V) → List (ℕ × V)
  update k w [] = []
  update k w ((j, v) ∷ m) = if k == j then (j, w) ∷ m else (j, v) ∷ update k w m

  abbrev pub erase : ℕ → List (ℕ × V) → List (ℕ × V)
  erase k [] = []
  erase k ((j, v) ∷ m) = if k == j then m else (j, v) ∷ erase k m

  abbrev pub found : Option V → Bool
  found none = false
  found (some v) = true

  pub not_found : (o : Option V) → found o ≡ false → o ≡ none
  not_found none e = refl
  not_found (some v) e = cc

  -- No key stands twice.
  abbrev pub UniqueKeys : List (ℕ × V) → Type ℓ
  UniqueKeys [] = Unit
  UniqueKeys ((k, v) ∷ m) = (lookup k m ≡ none) × UniqueKeys m

  pub lookup_here : (k : ℕ) (v : V) (m : List (ℕ × V)) → lookup k ((k, v) ∷ m) ≡ some v
  lookup_here k v m = rw ((==_iff k k).1 refl) refl

  pub lookup_past :
      (k j : ℕ) (v : V) (m : List (ℕ × V)) → k ≢ j → lookup k ((j, v) ∷ m) ≡ lookup k m
  lookup_past k j v m h = rw (ne→== k j h) refl

  -- A property of all entries but that of one key.
  abbrev pub AllBut {κ} : (ℕ → V → Type κ) → ℕ → List (ℕ × V) → Type κ
  AllBut Q k [] = Unit
  AllBut Q k ((j, v) ∷ m) = ((j ≢ k → Q j v) × AllBut Q k m)

  abbrev pub AllEntries {κ} : (ℕ → V → Type κ) → List (ℕ × V) → Type κ
  AllEntries Q [] = Unit
  AllEntries Q ((j, v) ∷ m) = (Q j v × AllEntries Q m)

  pub lookup-AllEntries {κ} :
      (Q : ℕ → V → Type κ) (k : ℕ) (v : V) (m : List (ℕ × V))
      → AllEntries Q m
      → lookup k m ≡ some v
      → Q k v
  lookup-AllEntries Q k v [] qs e = cc
  lookup-AllEntries Q k v ((j, w) ∷ m) (q, qs) e = elim (ℕ_discrete k j) [
    | yes same ↦
        let here : w ≡ v =
          some-eq-some (sym (lookup_here j w m) ∙ ap (λ i. lookup i ((j, w) ∷ m)) (sym same) ∙ e) in
        subst (λ u. Q k u) here (subst (λ i. Q i w) (sym same) q)
    | no other ↦ lookup-AllEntries Q k v m qs (sym (lookup_past k j w m other) ∙ e)
  ]

  pub AllBut-weaken {κ} :
      (Q : ℕ → V → Type κ) (k : ℕ) (m : List (ℕ × V)) → AllEntries Q m → AllBut Q k m
  AllBut-weaken Q k [] qs = tt
  AllBut-weaken Q k ((j, v) ∷ m) (q, qs) = (λ h. q, AllBut-weaken Q k m qs)

  -- Without an entry for the key, there is no exception.
  pub AllBut-absent {κ} :
      (Q : ℕ → V → Type κ) (k : ℕ) (m : List (ℕ × V))
      → lookup k m ≡ none
      → AllBut Q k m
      → AllEntries Q m
  AllBut-absent Q k [] e qs = tt
  AllBut-absent Q k ((j, v) ∷ m) e (q, qs) = elim (ℕ_discrete k j) [
    | yes same ↦
        let here = ap (λ i. lookup i ((j, v) ∷ m)) same in
        absurd (cc (sym (lookup_here j v m) ∙ sym here ∙ e))
    | no other ↦
        (q (λ same. other (sym same)), AllBut-absent Q k m (sym (lookup_past k j v m other) ∙ e) qs)
  ]

  -- An update and a removal by the equality of the first key.
  pub update_here : (k : ℕ) (v w : V) (m : List (ℕ × V)) → update k w ((k, v) ∷ m) ≡ (k, w) ∷ m
  update_here k v w m = rw ((==_iff k k).1 refl) refl

  pub update_past :
      (k j : ℕ) (v w : V) (m : List (ℕ × V))
      → k ≢ j
      → update k w ((j, v) ∷ m) ≡ (j, v) ∷ update k w m
  update_past k j v w m h = rw (ne→== k j h) refl

  pub erase_here : (k : ℕ) (v : V) (m : List (ℕ × V)) → erase k ((k, v) ∷ m) ≡ m
  erase_here k v m = rw ((==_iff k k).1 refl) refl

  pub erase_past :
      (k j : ℕ) (v : V) (m : List (ℕ × V)) → k ≢ j → erase k ((j, v) ∷ m) ≡ (j, v) ∷ erase k m
  erase_past k j v m h = rw (ne→== k j h) refl

  pub AllEntries-update {κ} :
      (Q : ℕ → V → Type κ) (k : ℕ) (w : V) (m : List (ℕ × V))
      → UniqueKeys m
      → AllBut Q k m
      → Q k w
      → AllEntries Q (update k w m)
  AllEntries-update Q k w [] u qs q = tt
  AllEntries-update Q k w ((j, v) ∷ m) (absent, u) (p, qs) q = elim (ℕ_discrete k j) [
    | yes same ↦
        subst (λ i. AllEntries Q (update i w ((j, v) ∷ m))) (sym same)
          (subst (AllEntries Q) (sym (update_here j v w m)) (
            subst (λ i. Q i w) same q,
            AllBut-absent Q j m absent (subst (λ i. AllBut Q i m) same qs),
          ))
    | no other ↦
        subst (AllEntries Q) (sym (update_past k j v w m other))
          (p (λ same. other (sym same)), AllEntries-update Q k w m u qs q)
  ]

  pub AllEntries-erase {κ} :
      (Q : ℕ → V → Type κ) (k : ℕ) (m : List (ℕ × V))
      → UniqueKeys m
      → AllBut Q k m
      → AllEntries Q (erase k m)
  AllEntries-erase Q k [] u qs = tt
  AllEntries-erase Q k ((j, v) ∷ m) (absent, u) (p, qs) = elim (ℕ_discrete k j) [
    | yes same ↦
        subst (λ i. AllEntries Q (erase i ((j, v) ∷ m))) (sym same)
          (subst (AllEntries Q) (sym (erase_here j v m))
            (AllBut-absent Q j m absent (subst (λ i. AllBut Q i m) same qs)))
    | no other ↦
        subst (AllEntries Q) (sym (erase_past k j v m other))
          (p (λ same. other (sym same)), AllEntries-erase Q k m u qs)
  ]

  pub length-update : (k : ℕ) (w : V) (m : List (ℕ × V)) → length (update k w m) ≡ length m
  length-update k w [] = refl
  length-update k w ((j, v) ∷ m) =
      if_cases (λ (r : List (ℕ × V)). length r ≡ suc (length m)) (k == j) (λ h. refl)
        (λ h. ap suc (length-update k w m))

  pub length-erase :
      (k : ℕ) (m : List (ℕ × V)) → found (lookup k m) ≡ true → suc (length (erase k m)) ≡ length m
  length-erase k [] e = cc
  length-erase k ((j, v) ∷ m) e = elim (ℕ_discrete k j) [
    | yes same ↦
        subst (λ i. suc (length (erase i ((j, v) ∷ m))) ≡ suc (length m)) (sym same)
          (ap (λ r. suc (length r)) (erase_here j v m))
    | no other ↦
        ap (λ r. suc (length r)) (erase_past k j v m other)
        ∙ ap suc (length-erase k m (ap found (sym (lookup_past k j v m other)) ∙ e))
  ]

  absent_cons :
      (i j : ℕ) (v : V) (m : List (ℕ × V))
      → lookup i ((j, v) ∷ m) ≡ none
      → (i ≢ j) × (lookup i m ≡ none)
  absent_cons i j v m e =
      let other : i ≢ j =
        λ same. cc (sym (lookup_here j v m) ∙ ap (λ k. lookup k ((j, v) ∷ m)) (sym same) ∙ e) in
      (other, sym (lookup_past i j v m other) ∙ e)

  absent-update :
      (i k : ℕ) (w : V) (m : List (ℕ × V)) → lookup i m ≡ none → lookup i (update k w m) ≡ none
  absent-update i k w [] e = e
  absent-update i k w ((j, v) ∷ m) e =
      let (other, past) = absent_cons i j v m e in
      if_cases (λ (r : List (ℕ × V)). lookup i r ≡ none) (k == j)
        (λ h. lookup_past i j w m other ∙ past)
        (λ h. lookup_past i j v (update k w m) other ∙ absent-update i k w m past)

  absent-erase : (i k : ℕ) (m : List (ℕ × V)) → lookup i m ≡ none → lookup i (erase k m) ≡ none
  absent-erase i k [] e = e
  absent-erase i k ((j, v) ∷ m) e =
      let (other, past) = absent_cons i j v m e in
      if_cases (λ (r : List (ℕ × V)). lookup i r ≡ none) (k == j) (λ h. past)
        (λ h. lookup_past i j v (erase k m) other ∙ absent-erase i k m past)

  pub UniqueKeys-update :
      (k : ℕ) (w : V) (m : List (ℕ × V)) → UniqueKeys m → UniqueKeys (update k w m)
  UniqueKeys-update k w [] u = tt
  UniqueKeys-update k w ((j, v) ∷ m) (absent, u) =
      if_cases (λ (r : List (ℕ × V)). UniqueKeys r) (k == j) (λ h. (absent, u))
        (λ h. (absent-update j k w m absent, UniqueKeys-update k w m u))

  pub UniqueKeys-erase : (k : ℕ) (m : List (ℕ × V)) → UniqueKeys m → UniqueKeys (erase k m)
  UniqueKeys-erase k [] u = tt
  UniqueKeys-erase k ((j, v) ∷ m) (absent, u) =
      if_cases (λ (r : List (ℕ × V)). UniqueKeys r) (k == j) (λ h. u)
        (λ h. (absent-erase j k m absent, UniqueKeys-erase k m u))

  pub lookup-erase : (k : ℕ) (m : List (ℕ × V)) → UniqueKeys m → lookup k (erase k m) ≡ none
  lookup-erase k [] u = refl
  lookup-erase k ((j, v) ∷ m) (absent, u) = elim (ℕ_discrete k j) [
    | yes same ↦
        subst (λ i. lookup i (erase i ((j, v) ∷ m)) ≡ none) (sym same)
          (ap (lookup j) (erase_here j v m) ∙ absent)
    | no other ↦
        ap (lookup k) (erase_past k j v m other)
        ∙ lookup_past k j v (erase k m) other
        ∙ lookup-erase k m u
  ]
