-- ===== src/Blitz/ArrayList/Free.antt =====
-- Taking an element from the free list and giving one back.
use mlsimgsearch.Prelude.{
  lt→ltb, ne→==, length, get_elem?, modify, length-modify, get_elem?-modify, get_elem?-modify_ne,
  in_range, ok, ℕ, ◌<◌, ◌≡◌, refl, sym, ap, ◌∙◌, ◌≢◌, some, List, [], ◌∷◌, arith,
}
use mlsimgsearch.Prelude.Int.{pos, negsuc, ◌+ℤ◌, ◌-ℤ◌}
use mlsimgsearch.Blitz.ArrayList.{
  Item, ArrayList, with_next, alloc_from_free_list, return_to_free_list,
}
use mlsimgsearch.Blitz.ArrayList.Segments.{
  occurs, occurs_self, first_free, Linked-elsewhere, FreeChain-elsewhere,
}
use mlsimgsearch.Blitz.ArrayList.Links.{Apart, Parts, write_elsewhere}

module _ {ℓ} {A : Type ℓ} where
  pub alloc_from_free_list_full :
      (s : ArrayList A) (xs ys : List (ℕ × A)) (a b : ℕ)
      → Parts s [] xs ys a b
      → alloc_from_free_list s ≡ ok (0, s)
  unfolding alloc_from_free_list
  alloc_from_free_list_full s xs ys a b parts = let ((x, e), c) = parts.chain in rw e refl

  pub alloc_from_free_list-Parts :
      (s : ArrayList A) (j : ℕ) (fl : List ℕ) (xs ys : List (ℕ × A)) (a b : ℕ)
      → Apart (j ∷ fl) [] xs ys
      → Parts s (j ∷ fl) xs ys a b
      → (s' : ArrayList A) × (alloc_from_free_list s ≡ ok (j, s'))
        × Parts s' fl xs ys a b
        × (j < length s'.array)
        × (s'.count ≡ s.count +ℤ pos 1)
        × (s'.max_count ≡ s.max_count)
  unfolding alloc_from_free_list
  alloc_from_free_list-Parts s j fl xs ys a b apart parts =
      let ((x, e), ((y, ej), c)) = parts.chain in
      let f : Item A → Item A = with_next (first_free fl) in
      let array : List (Item A) = modify f 0 s.array in
      let kept = write_elsewhere f 0 s.array (0 ∷ []) (omega arith) in
      let away = λ (k : ℕ) (h : occurs k (0 ∷ []) ≡ 0). kept k h in
      let inside = in_range s.array 0 e in
      let nonzero : j ≢ 0 =
        λ same. omega (arith, apart 0, occurs_self j fl, ap (λ k. occurs k (j ∷ fl)) same) in
      (
        record s { array = array; count = s.count +ℤ pos 1 },
        rw (e, ne→== j 0 nonzero, ej, lt→ltb _ _ inside) refl,
        record {
          size = length-modify f 0 s.array ∙ parts.size;
          chain = (
            (x, get_elem?-modify f 0 s.array e),
            FreeChain-elsewhere s.array array fl (λ k h. away k (omega (arith, apart k, h))) c,
          );
          left =
              Linked-elsewhere s.array array 0 xs a (λ k h. away k (omega (arith, apart k, h)))
                parts.left;
          right =
              Linked-elsewhere s.array array b ys 0 (λ k h. away k (omega (arith, apart k, h)))
                parts.right;
          first = parts.first;
          last = parts.last;
        },
        omega (arith, in_range s.array j ej, length-modify f 0 s.array),
        refl,
        refl,
      )

  abbrev freed_item : ℕ → Item A → Item A
  freed_item n item = record { data_ = item.data_; prev = negsuc 0; next = n }

  pub return_to_free_list-Parts :
      (s : ArrayList A) (p : ℕ) (item : Item A) (fl : List ℕ) (xs ys : List (ℕ × A)) (a b : ℕ)
      → Apart fl (p ∷ []) xs ys
      → Parts s fl xs ys a b
      → get_elem? s.array p ≡ some item
      → (s' : ArrayList A) × (return_to_free_list p s ≡ ok s')
        × Parts s' (p ∷ fl) xs ys a b
        × (s'.count ≡ s.count -ℤ pos 1)
        × (s'.max_count ≡ s.max_count)
  unfolding return_to_free_list
  return_to_free_list-Parts s p item fl xs ys a b apart parts ep =
      let ((x, e), c) = parts.chain in
      let f : Item A → Item A = freed_item (first_free fl) in
      let mid : List (Item A) = modify f p s.array in
      let array : List (Item A) = modify (with_next p) 0 mid in
      let nonzero : p ≢ 0 =
        λ same. omega (arith, apart 0, occurs_self p [], ap (λ k. occurs k (p ∷ [])) same) in
      let inside : 0 < length mid =
        omega (arith, length-modify f p s.array, in_range s.array 0 e) in
      let away : (k : ℕ)
          → occurs k (0 ∷ []) ≡ 0
          → occurs k (p ∷ []) ≡ 0
          → get_elem? array k ≡ get_elem? s.array k =
        λ k h0 hp.
          write_elsewhere (with_next p) 0 mid (0 ∷ []) (omega arith) k h0
          ∙ write_elsewhere f p s.array (p ∷ []) (omega (arith, occurs_self p [])) k hp in
      (
        record s { array = array; count = s.count -ℤ pos 1 },
        rw (e, lt→ltb _ _ (in_range s.array p ep), lt→ltb _ _ inside) refl,
        record {
          size = length-modify (with_next p) 0 mid ∙ length-modify f p s.array ∙ parts.size;
          chain = (
            (
              x,
              get_elem?-modify (with_next p) 0 mid (get_elem?-modify_ne f p 0 s.array nonzero ∙ e),
            ),
            (
              (
                item.data_,
                get_elem?-modify_ne (with_next p) 0 p mid (λ same. nonzero (sym same))
                    ∙ get_elem?-modify f p s.array ep,
              ),
              FreeChain-elsewhere s.array array fl
                  (λ k h. away k (omega (arith, apart k, h)) (omega (arith, apart k, h))) c,
            ),
          );
          left =
              Linked-elsewhere s.array array 0 xs a
                (λ k h. away k (omega (arith, apart k, h)) (omega (arith, apart k, h))) parts.left;
          right =
              Linked-elsewhere s.array array b ys 0
                (λ k h. away k (omega (arith, apart k, h)) (omega (arith, apart k, h))) parts.right;
          first = parts.first;
          last = parts.last;
        },
        refl,
        refl,
      )
