-- ===== src/Blitz/ArrayList/Reads.antt =====
-- What Get, Next, Prev and Print of an array list read, and its operations when it is full.
use mlsimgsearch.Prelude.{
  le→leb, ne→==, length, get_elem?, in_range, ok, ℕ, zero, suc, ◌≤◌, ◌<◌, ◌≡◌, refl, sym, ap, ap₂,
  ◌∙◌, subst, ◌≢◌, false, none, some, List, [], ◌∷◌, ◌++◌, append_assoc, arith, ℕ_discrete,
}
use mlsimgsearch.Prelude.Int.{ℤ, pos, negsuc}
use mlsimgsearch.Blitz.ArrayList.{
  ArrayList, alloc_from_free_list, push_back, push_front, is_free, insert_after_used, next_of,
  prev_of, get, print_loop, print,
}
use mlsimgsearch.Blitz.ArrayList.Segments.{
  occurs, occurs_self, first_free, positions, first_of, last_of, FreeChain, last_of-append,
  occurs-append,
}
use mlsimgsearch.Blitz.ArrayList.Free.{alloc_from_free_list_full}
use mlsimgsearch.Blitz.ArrayList.Rep.{Rep, Rep-Parts}
use mlsimgsearch.Blitz.ArrayList.Splice.{is_free_used}

module _ {ℓ} {A : Type ℓ} where
  reads_run :
      (s : ArrayList A) (p prev next : ℕ) (y : A)
      → get_elem? s.array p ≡ some (record { data_ = y; prev = pos prev; next = next })
      → is_free s (pos p) ≡ ok false
      → (get s (pos p) ≡ ok (some y))
        × (next_of s (pos p) ≡ ok next)
        × (prev_of s (pos p) ≡ ok (pos prev))
  unfolding get next_of prev_of
  reads_run s p prev next y e free = (rw (free, e) refl, rw (free, e) refl, rw (free, e) refl)

  pub get-Rep :
      (s : ArrayList A) (p : ℕ) (y : A) (fl : List ℕ) (xs ys : List (ℕ × A))
      → Rep s (xs ++ (p, y) ∷ ys) fl
      → (get s (pos p) ≡ ok (some y))
        × (next_of s (pos p) ≡ ok (first_of ys 0))
        × (prev_of s (pos p) ≡ ok (pos (last_of 0 xs)))
  get-Rep s p y fl xs ys rep =
      let (node, free) = is_free_used s p y fl xs ys rep in
      reads_run s p (last_of 0 xs) (first_of ys 0) y node free

  free_run :
      (s : ArrayList A) (p next : ℕ) (y : A)
      → p ≤ s.max_count
      → get_elem? s.array p ≡ some (record { data_ = y; prev = negsuc 0; next = next })
      → (get s (pos p) ≡ ok none) × (next_of s (pos p) ≡ ok 0) × (prev_of s (pos p) ≡ ok (negsuc 0))
  unfolding get next_of prev_of
  free_run s p next y h e =
      (rw (le→leb _ _ h, e) refl, rw (le→leb _ _ h, e) refl, rw (le→leb _ _ h, e) refl)

  free_reads :
      (s : ArrayList A) (f : ℕ) (fl : List ℕ)
      → length s.array ≡ suc s.max_count
      → FreeChain s.array fl
      → 1 ≤ occurs f fl
      → (get s (pos f) ≡ ok none) × (next_of s (pos f) ≡ ok 0) × (prev_of s (pos f) ≡ ok (negsuc 0))
  free_reads s f [] size c h = absurd (omega arith)
  free_reads s f (g ∷ fl) size ((x, e), c) h = elim (ℕ_discrete g f) [
    | yes same ↦
        let there : get_elem? s.array f
            ≡ some (record { data_ = x; prev = negsuc 0; next = first_free fl }) =
          ap (get_elem? s.array) (sym same) ∙ e in
        free_run s f (first_free fl) x (omega (arith, in_range s.array f there, size)) there
    | no other ↦ free_reads s f fl size c (ground (arith, other))
  ]

  pub get_free :
      (s : ArrayList A) (f : ℕ) (fl : List ℕ) (xs : List (ℕ × A))
      → Rep s xs fl
      → 1 ≤ occurs f fl
      → (get s (pos f) ≡ ok none) × (next_of s (pos f) ≡ ok 0) × (prev_of s (pos f) ≡ ok (negsuc 0))
  get_free s f fl xs rep h = free_reads s f fl rep.size rep.chain.1 h

  -- On a full list nothing is stored.
  full_run :
      (s : ArrayList A) (x : A)
      → alloc_from_free_list s ≡ ok (0, s)
      → (push_back s x ≡ ok (0, s))
        × (push_front s x ≡ ok (0, s))
        × ((p : ℕ) → insert_after_used s p x ≡ ok (pos 0, s))
  unfolding push_back push_front insert_after_used
  full_run s x e = (rw e refl, rw e refl, λ p. rw e refl)

  pub push_back_full :
      (s : ArrayList A) (x : A) (fl : List ℕ) (xs : List (ℕ × A))
      → Rep s xs fl
      → length xs ≡ s.max_count
      → (push_back s x ≡ ok (0, s)) × (push_front s x ≡ ok (0, s))
  push_back_full s x [] xs rep h =
      let whole = Rep-Parts s [] xs [] rep in
      let (a, b, c) = full_run s x (alloc_from_free_list_full s [] xs (first_of xs 0) 0 whole) in
      (a, b)
  push_back_full s x (f ∷ fl) xs rep h = absurd (omega (arith, rep.all))

  -- The links that the list should have.
  abbrev pub links : ℕ → List (ℕ × A) → List (ℤ × ℕ)
  links before [] = []
  links before ((p, x) ∷ xs) = (pos before, first_of xs 0) ∷ links p xs

  round_run :
      (fuel : ℕ) (s : ArrayList A) (p prev next : ℕ) (y : A) (others : List (ℤ × ℕ))
      → p ≢ 0
      → get_elem? s.array p ≡ some (record { data_ = y; prev = pos prev; next = next })
      → next_of s (pos p) ≡ ok next
      → print_loop fuel s next ≡ ok others
      → print_loop (suc fuel) s p ≡ ok ((pos prev, next) ∷ others)
  unfolding print_loop
  round_run fuel s p prev next y others h e en rest = rw (ne→== p 0 h, e, en, rest) refl

  print_loop_walk :
      (s : ArrayList A) (fl : List ℕ) (zs xs : List (ℕ × A)) (fuel : ℕ)
      → Rep s (zs ++ xs) fl
      → length xs < fuel
      → print_loop fuel s (first_of xs 0) ≡ ok (links (last_of 0 zs) xs)
  unfolding print_loop
  print_loop_walk s fl zs xs zero rep h = absurd (omega arith)
  print_loop_walk s fl zs [] (suc fuel) rep h = refl
  print_loop_walk s fl zs ((p, x) ∷ xs) (suc fuel) rep h =
      let (node, free) = is_free_used s p x fl zs xs rep in
      let reads = reads_run s p (last_of 0 zs) (first_of xs 0) x node free in
      let nonzero : p ≢ 0 = λ same. omega (
        arith,
        rep.apart p,
        occurs-append p zs ((p, x) ∷ xs),
        occurs_self p (positions xs),
        occurs_self 0 fl,
        ap (λ k. occurs k (0 ∷ fl)) same,
      ) in
      let rest =
        print_loop_walk s fl (zs ++ (p, x) ∷ []) xs fuel
          (subst (λ qs. Rep s qs fl) (sym (append_assoc zs ((p, x) ∷ []) xs)) rep) (omega arith) in
      round_run fuel s p (last_of 0 zs) (first_of xs 0) x (links p xs) nonzero node reads.1
        (rest ∙ ap (λ n. ok (links n xs)) (last_of-append 0 zs ((p, x) ∷ [])))

  -- The loop of Print ends: on a list that holds xs, more fuel than the list has places is
  -- enough, and it writes the head, then for each element of xs in order the positions before
  -- and behind it, with 0 at both ends.
  pub print-Rep :
      (s : ArrayList A) (fl : List ℕ) (xs : List (ℕ × A)) (fuel : ℕ)
      → Rep s xs fl
      → s.max_count < fuel
      → print fuel s ≡ ok ((pos (last_of 0 xs), first_of xs 0) ∷ links 0 xs)
  unfolding print
  print-Rep s fl xs fuel rep h =
      let walk = print_loop_walk s fl [] xs fuel rep (omega (arith, rep.all)) in
      rw (ap (print_loop fuel s) rep.first ∙ walk)
        (ap₂ (λ p n. ok ((pos p, n) ∷ links 0 xs)) rep.last rep.first)
