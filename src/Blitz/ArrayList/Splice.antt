-- ===== src/Blitz/ArrayList/Splice.antt =====
-- InsertAfter and Remove of an array list, on the sequence of its elements.
use mlsimgsearch.Prelude.{
  lt→ltb, le→leb, ne→==, length, get_elem?, length-append, modify, in_range, ok, ℕ, zero, suc, ◌+◌,
  ◌≤◌, ◌<◌, ◌≡◌, refl, sym, ap, ◌∙◌, subst, ◌≢◌, false, some, List, [], ◌∷◌, ◌++◌, append_assoc,
  arith,
}
use mlsimgsearch.Prelude.Int.{pos}
use mlsimgsearch.Blitz.ArrayList.{
  Item, ArrayList, with_next, link_next, link_prev, alloc_from_free_list, return_to_free_list,
  is_free, insert_after_used, insert_after, remove,
}
use mlsimgsearch.Blitz.ArrayList.Segments.{
  occurs, occurs_self, first_of, last_of, last_of-append, occurs-append, Linked-split,
}
use mlsimgsearch.Blitz.ArrayList.Links.{
  Apart, Parts, link_next_used, link_next-Parts, link_prev-Parts,
}
use mlsimgsearch.Blitz.ArrayList.Free.{return_to_free_list-Parts}
use mlsimgsearch.Blitz.ArrayList.Rep.{
  Rep, Rep-Apart, Rep-Parts, Parts-Rep, filled, fill-Parts, fill_node, inserted-Rep, Rep-Taken,
  one_less,
}

module _ {ℓ} {A : Type ℓ} where
  -- The element at the end of the first run.
  Parts-node :
      (s : ArrayList A) (fl : List ℕ) (zs ys : List (ℕ × A)) (p : ℕ) (y : A) (a b : ℕ)
      → Parts s fl (zs ++ (p, y) ∷ []) ys a b
      → get_elem? s.array p ≡ some (record { data_ = y; prev = pos (last_of 0 zs); next = a })
  Parts-node s fl zs ys p y a b parts = (Linked-split s.array 0 zs ((p, y) ∷ []) a parts.left).1.0

  insert_after_run :
      (s s1 s3 s4 : ArrayList A) (item again : Item A) (x : A) (p j : ℕ)
      → alloc_from_free_list s ≡ ok (j, s1)
      → j ≢ 0
      → j < length s1.array
      → get_elem? s1.array p ≡ some item
      → get_elem? (filled x p item.next j s1).array p ≡ some again
      → link_prev j again.next (filled x p item.next j s1) ≡ ok s3
      → p < length s3.array
      → record s3 { array = modify (with_next j) p s3.array } ≡ s4
      → insert_after_used s p x ≡ ok (pos j, s4)
  unfolding insert_after_used
  insert_after_run s s1 s3 s4 item again x p j taken nonzero inside at_ at_again linked within
        done =
      rw
        (
          taken,
          ne→== j 0 nonzero,
          at_,
          lt→ltb _ _ inside,
          at_again,
          linked,
          lt→ltb _ _ within,
          done,
        )
        refl

  -- `link_next` at an element is the plain assignment.
  link_next_at :
      (n j : ℕ) (s s' : ArrayList A)
      → suc n < length s.array
      → link_next (suc n) j s ≡ ok s'
      → record s { array = modify (with_next j) (suc n) s.array } ≡ s'
  link_next_at n j s s' h e = cc (link_next_used (suc n) j s (λ same. omega (arith, same)) h)

  -- Past `at_`, whose place in the list is kept by `last_of`.
  insert_after_used-Rep :
      (s : ArrayList A) (n j : ℕ) (y x : A) (fl : List ℕ) (zs ys : List (ℕ × A))
      → Rep s ((zs ++ (suc n, y) ∷ []) ++ ys) (j ∷ fl)
      → (s' : ArrayList A) × (insert_after_used s (suc n) x ≡ ok (pos j, s'))
        × Rep s' ((zs ++ (suc n, y) ∷ []) ++ (j, x) ∷ ys) fl
  insert_after_used-Rep s n j y x fl zs ys rep =
      let xs : List (ℕ × A) = zs ++ (suc n, y) ∷ [] in
      let end : last_of 0 xs ≡ suc n = last_of-append 0 zs ((suc n, y) ∷ []) in
      let (s1, t) = Rep-Taken s j fl xs ys rep in
      let pre : ℕ = last_of 0 xs in
      let nxt : ℕ = first_of ys 0 in
      let s2 = filled x (suc n) nxt j s1 in
      let parts2 = fill-Parts s1 x (suc n) nxt j fl xs ys nxt pre t.apart t.parts in
      let (s3, linked, parts3, keeps3) =
        link_prev-Parts s2 fl (j ∷ []) xs ys nxt pre j t.apart parts2 in
      let (s4, linked4, parts4, keeps4) =
        link_next-Parts s3 fl (j ∷ []) xs ys nxt j j t.apart parts3 in
      let apart : occurs j (j ∷ []) ≡ 1 = occurs_self j [] in
      let here : get_elem? s4.array j ≡ some (record { data_ = x; prev = pos pre; next = nxt }) =
        keeps4.elsewhere j (omega (arith, t.apart j, apart))
        ∙ keeps3.elsewhere j (omega (arith, t.apart j, apart))
        ∙ fill_node s1 x (suc n) nxt j t.inside
        ∙ ap (λ k. some (record { data_ = x; prev = pos k; next = nxt })) (sym end) in
      let within = in_range s3.array (suc n) (Parts-node s3 fl zs ys (suc n) y nxt j parts3) in
      (
        s4,
        insert_after_run s s1 s3 s4 (record { data_ = y; prev = pos (last_of 0 zs); next = nxt })
            (record { data_ = y; prev = pos (last_of 0 zs); next = nxt }) x (suc n) j t.taken
            t.nonzero t.inside (Parts-node s1 fl zs ys (suc n) y nxt pre t.parts)
            (Parts-node s2 fl zs ys (suc n) y nxt pre parts2) linked within
            (link_next_at n j s3 s4 within (ap (λ k. link_next k j s3) (sym end) ∙ linked4)),
        inserted-Rep s4 x j fl xs ys t.apart parts4 here (keeps4.count ∙ keeps3.count ∙ t.count)
            (t.all ∙ sym (keeps4.max_count ∙ keeps3.max_count)),
      )

  used_run :
      (s : ArrayList A) (p prev next : ℕ) (y : A)
      → p ≤ s.max_count
      → get_elem? s.array p ≡ some (record { data_ = y; prev = pos prev; next = next })
      → is_free s (pos p) ≡ ok false
  unfolding is_free
  used_run s p prev next y h e = rw (le→leb _ _ h, e) refl

  pub is_free_used :
      (s : ArrayList A) (p : ℕ) (y : A) (fl : List ℕ) (zs ys : List (ℕ × A))
      → Rep s (zs ++ (p, y) ∷ ys) fl
      → (get_elem? s.array p
          ≡ some (record { data_ = y; prev = pos (last_of 0 zs); next = first_of ys 0 }))
        × (is_free s (pos p) ≡ ok false)
  is_free_used s p y fl zs ys rep =
      let (node, rest) = (Linked-split s.array 0 zs ((p, y) ∷ ys) 0 rep.nodes).1 in
      (
        node,
        used_run s p (last_of 0 zs) (first_of ys 0) y
            (omega (arith, in_range s.array p node, rep.size)) node,
      )

  insert_after_step :
      (s s' : ArrayList A) (n j : ℕ) (x : A)
      → is_free s (pos (suc n)) ≡ ok false
      → insert_after_used s (suc n) x ≡ ok (pos j, s')
      → insert_after s (pos (suc n)) x ≡ ok (pos j, s')
  unfolding insert_after
  insert_after_step s s' n j x free e = rw free e

  -- On a list with an element at p, and a free element j at the front of its free list,
  -- InsertAfter of p returns j and puts the new element at position j right behind the one at p.
  -- All others stay where they are, in the order they had.
  pub insert_after-Rep :
      (s : ArrayList A) (p j : ℕ) (y x : A) (fl : List ℕ) (zs ys : List (ℕ × A))
      → Rep s (zs ++ (p, y) ∷ ys) (j ∷ fl)
      → (s' : ArrayList A) × (insert_after s (pos p) x ≡ ok (pos j, s'))
        × Rep s' (zs ++ (p, y) ∷ (j, x) ∷ ys) fl
  insert_after-Rep s zero j y x fl zs ys rep =
      absurd (omega (arith, rep.apart 0, occurs-append 0 zs ((0, y) ∷ ys)))
  insert_after-Rep s (suc n) j y x fl zs ys rep =
      let free = (is_free_used s (suc n) y (j ∷ fl) zs ys rep).1 in
      let (s', e, rep') =
        insert_after_used-Rep s n j y x fl zs ys
          (subst (λ qs. Rep s qs (j ∷ fl)) (sym (append_assoc zs ((suc n, y) ∷ []) ys)) rep) in
      (
        s',
        insert_after_step s s' n j x free e,
        subst (λ qs. Rep s' qs fl) (append_assoc zs ((suc n, y) ∷ []) ((j, x) ∷ ys)) rep',
      )

  remove_run :
      (s s1 s2 s3 : ArrayList A) (n prev next : ℕ) (y : A)
      → get_elem? s.array (suc n) ≡ some (record { data_ = y; prev = pos prev; next = next })
      → link_next prev next s ≡ ok s1
      → link_prev prev next s1 ≡ ok s2
      → return_to_free_list (suc n) s2 ≡ ok s3
      → remove s (pos (suc n)) ≡ ok s3
  unfolding remove
  remove_run s s1 s2 s3 n prev next y e e1 e2 e3 = rw (e, e1, e2) e3

  -- Remove of the position of an element takes this element out of the sequence and leaves the
  -- others where they are, in order. Its position becomes the first free element, so the next
  -- insertion takes it.
  pub remove-Rep :
      (s : ArrayList A) (p : ℕ) (y : A) (fl : List ℕ) (xs ys : List (ℕ × A))
      → Rep s (xs ++ (p, y) ∷ ys) fl
      → (s' : ArrayList A) × (remove s (pos p) ≡ ok s') × Rep s' (xs ++ ys) (p ∷ fl)
  remove-Rep s zero y fl xs ys rep =
      absurd (omega (arith, rep.apart 0, occurs-append 0 xs ((0, y) ∷ ys)))
  remove-Rep s (suc n) y fl xs ys rep =
      let pre : ℕ = last_of 0 xs in
      let nxt : ℕ = first_of ys 0 in
      let p : ℕ = suc n in
      let whole = Rep-Parts s xs ((p, y) ∷ ys) fl rep in
      let apart : Apart fl (p ∷ []) xs ys =
        λ k. omega (arith, Rep-Apart s xs ((p, y) ∷ ys) fl rep k) in
      let parts : Parts s fl xs ys p p = record {
        size = whole.size;
        chain = whole.chain;
        left = whole.left;
        right = whole.right.1;
        first = whole.first;
        last = whole.last;
      } in
      let (s1, linked1, parts1, keeps1) = link_next-Parts s fl (p ∷ []) xs ys p nxt p apart parts in
      let (s2, linked2, parts2, keeps2) =
        link_prev-Parts s1 fl (p ∷ []) xs ys nxt p pre apart parts1 in
      let self : occurs p (p ∷ []) ≡ 1 = occurs_self p [] in
      let here =
        keeps2.elsewhere p (omega (arith, apart p, self))
        ∙ keeps1.elsewhere p (omega (arith, apart p, self))
        ∙ whole.right.0 in
      let (s3, returned, parts3, count, max_count) =
        return_to_free_list-Parts s2 p (record { data_ = y; prev = pos pre; next = nxt }) fl xs ys
          nxt pre apart parts2 here in
      (
        s3,
        remove_run s s1 s2 s3 n pre nxt y whole.right.0 linked1 linked2 returned,
        Parts-Rep s3 xs ys (p ∷ fl) parts3 (λ k. omega (arith, apart k))
            (one_less s2.count s3.count (length xs + length ys)
              (keeps2.count
                ∙ keeps1.count
                ∙ rep.count
                ∙ ap pos (omega (arith, length-append xs ((p, y) ∷ ys))))
              count)
            (omega (
              arith,
              rep.all,
              length-append xs ((p, y) ∷ ys),
              max_count,
              keeps2.max_count,
              keeps1.max_count,
            )),
      )
