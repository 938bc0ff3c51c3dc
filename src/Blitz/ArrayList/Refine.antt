-- ===== src/Blitz/ArrayList/Refine.antt =====
-- PushBack and PushFront of an array list, on the sequence of its elements.
use mlsimgsearch.Prelude.{
  lt→ltb, ne→==, length, get_elem?, ok, ℕ, ◌<◌, ◌≡◌, refl, sym, ap, ◌∙◌, subst, ◌≢◌, some, List, [],
  ◌∷◌, ◌++◌, append-nil, arith,
}
use mlsimgsearch.Prelude.Int.{pos}
use mlsimgsearch.Blitz.ArrayList.{
  ArrayList, link_next, link_prev, alloc_from_free_list, push_back, push_front,
}
use mlsimgsearch.Blitz.ArrayList.Segments.{occurs_self, first_of, last_of}
use mlsimgsearch.Blitz.ArrayList.Links.{link_next-Parts, link_prev-Parts}
use mlsimgsearch.Blitz.ArrayList.Rep.{Rep, filled, fill-Parts, fill_node, inserted-Rep, Rep-Taken}

module _ {ℓ} {A : Type ℓ} where
  -- The links on both sides of a new element.
  push_back_run :
      (s s1 s3 : ArrayList A) (x : A) (j : ℕ)
      → alloc_from_free_list s ≡ ok (j, s1)
      → j ≢ 0
      → j < length s1.array
      → link_next s1.head_prev j (filled x s1.head_prev 0 j s1) ≡ ok s3
      → push_back s x ≡ ok (j, record s3 { head_prev = j })
  unfolding push_back
  push_back_run s s1 s3 x j taken nonzero inside linked =
      rw (taken, ne→== j 0 nonzero, lt→ltb _ _ inside, linked) refl

  -- On a list that holds xs, with a free element j at the front of its free list, PushBack
  -- returns j, and then the list holds xs and behind it the new element at position j. The other
  -- free elements stay in order.
  pub push_back-Rep :
      (s : ArrayList A) (x : A) (j : ℕ) (fl : List ℕ) (xs : List (ℕ × A))
      → Rep s xs (j ∷ fl)
      → (s' : ArrayList A) × (push_back s x ≡ ok (j, s')) × Rep s' (xs ++ (j, x) ∷ []) fl
  push_back-Rep s x j fl xs rep =
      let (s1, t) =
        Rep-Taken s j fl xs [] (subst (λ zs. Rep s zs (j ∷ fl)) (sym (append-nil xs)) rep) in
      let pre : ℕ = last_of 0 xs in
      let s2 = filled x s1.head_prev 0 j s1 in
      let (s3, linked, parts, keeps) =
        link_next-Parts s2 fl (j ∷ []) xs [] 0 j pre t.apart
          (fill-Parts s1 x s1.head_prev 0 j fl xs [] 0 pre t.apart t.parts) in
      let here : get_elem? s3.array j ≡ some (record { data_ = x; prev = pos pre; next = 0 }) =
        keeps.elsewhere j (omega (arith, t.apart j, occurs_self j []))
        ∙ fill_node s1 x s1.head_prev 0 j t.inside
        ∙ ap (λ n. some (record { data_ = x; prev = pos n; next = 0 })) t.parts.last in
      (
        record s3 { head_prev = j },
        push_back_run s s1 s3 x j t.taken t.nonzero t.inside
            (ap (λ n. link_next n j s2) t.parts.last ∙ linked),
        inserted-Rep (record s3 { head_prev = j }) x j fl xs [] t.apart
            record {
              size = parts.size;
              chain = parts.chain;
              left = parts.left;
              right = tt;
              first = parts.first;
              last = refl;
            }
            here (keeps.count ∙ t.count) (omega (arith, t.all, keeps.max_count)),
      )

  push_front_run :
      (s s1 s3 : ArrayList A) (x : A) (j : ℕ)
      → alloc_from_free_list s ≡ ok (j, s1)
      → j ≢ 0
      → j < length s1.array
      → link_prev j s1.head_next (filled x 0 s1.head_next j s1) ≡ ok s3
      → push_front s x ≡ ok (j, record s3 { head_next = j })
  unfolding push_front
  push_front_run s s1 s3 x j taken nonzero inside linked =
      rw (taken, ne→== j 0 nonzero, lt→ltb _ _ inside, linked) refl

  -- On a list that holds xs, with a free element j at the front of its free list, PushFront
  -- returns j, and then the list holds the new element at position j and behind it xs. The other
  -- free elements stay in order.
  pub push_front-Rep :
      (s : ArrayList A) (x : A) (j : ℕ) (fl : List ℕ) (xs : List (ℕ × A))
      → Rep s xs (j ∷ fl)
      → (s' : ArrayList A) × (push_front s x ≡ ok (j, s')) × Rep s' ((j, x) ∷ xs) fl
  push_front-Rep s x j fl xs rep =
      let (s1, t) = Rep-Taken s j fl [] xs rep in
      let nxt : ℕ = first_of xs 0 in
      let s2 = filled x 0 s1.head_next j s1 in
      let (s3, linked, parts, keeps) =
        link_prev-Parts s2 fl (j ∷ []) [] xs nxt 0 j t.apart
          (fill-Parts s1 x 0 s1.head_next j fl [] xs nxt 0 t.apart t.parts) in
      let here : get_elem? s3.array j ≡ some (record { data_ = x; prev = pos 0; next = nxt }) =
        keeps.elsewhere j (omega (arith, t.apart j, occurs_self j []))
        ∙ fill_node s1 x 0 s1.head_next j t.inside
        ∙ ap (λ n. some (record { data_ = x; prev = pos 0; next = n })) t.parts.first in
      (
        record s3 { head_next = j },
        push_front_run s s1 s3 x j t.taken t.nonzero t.inside
            (ap (λ n. link_prev j n s2) t.parts.first ∙ linked),
        inserted-Rep (record s3 { head_next = j }) x j fl [] xs t.apart
            record {
              size = parts.size;
              chain = parts.chain;
              left = tt;
              right = parts.right;
              first = refl;
              last = parts.last;
            }
            here (keeps.count ∙ t.count) (omega (arith, t.all, keeps.max_count)),
      )
