-- ===== src/Blitz/Selector/Marks.antt =====
-- The marks of the nodes stay within their bounds.
use mlsimgsearch.Prelude.{
  ltb, length, get_elem?, set, length-append, All, ok, suc, ◌≤◌, min, ◌≡◌, refl, sym, ap, ◌∙◌, true,
  some, List, [], ◌∷◌, ◌++◌, map, append_assoc, arith,
}
use mlsimgsearch.Prelude.Int.{ℤ, pos, negsuc, ◌+ℤ◌, pos_part, neg_part}
use mlsimgsearch.Blitz.Selector.{
  SelectNode, RandomSelector, in_int, clamp, update_mark, update_marks, update_all_mark,
}

-- From -100 to 100.
abbrev pub InBounds : ℤ → Type 0
InBounds m = (pos_part m ≤ 100) × (neg_part m ≤ 100)

-- A number, or the bound that it has passed.
unfoldable pub cut : ℤ → ℤ
cut (pos n) = pos (min n 100)
cut (negsuc n) = negsuc (min n 99)

cut-InBounds : (m : ℤ) → InBounds (cut m)
unfolding cut
cut-InBounds (pos n) = ground arith
cut-InBounds (negsuc n) = ground arith

clamp-cut : (m : ℤ) → clamp m ≡ cut m
unfolding clamp cut
clamp-cut (pos n) = ground arith
clamp-cut (negsuc n) = ground arith

-- A change that cannot overflow.
abbrev pub Modest : ℤ → Type 0
Modest d = (pos_part d ≤ 0x7000_0000) × (neg_part d ≤ 0x7000_0000)

no_overflow : (m d : ℤ) → InBounds m → Modest d → in_int (m +ℤ d) ≡ true
unfolding ◌+ℤ◌
no_overflow (pos m) (pos d) h k = ground arith
no_overflow (pos m) (negsuc d) h k = ground arith
no_overflow (negsuc m) (pos d) h k = ground arith
no_overflow (negsuc m) (negsuc d) h k = ground arith

module _ {ℓ} {A : Type ℓ} where
  abbrev pub Marked : RandomSelector A → Type 0
  Marked s = All (λ (node : SelectNode A). InBounds node.mark) s.nodes

  -- The node with its mark changed by `d`, cut to the bounds.
  abbrev pub changed : ℤ → SelectNode A → SelectNode A
  changed d node = record {
    id = node.id;
    mark = cut (node.mark +ℤ d);
    weight = node.weight;
    data_ = node.data_;
  }

  abbrev with_nodes : RandomSelector A → List (SelectNode A) → RandomSelector A
  with_nodes s nodes = record {
    nodes = nodes;
    curnode_used_count = s.curnode_used_count;
    select_idx = s.select_idx;
  }

  set-append :
      (xs ys : List (SelectNode A)) (y z : SelectNode A)
      → set (xs ++ y ∷ ys) (length xs) z ≡ xs ++ z ∷ ys
  set-append [] ys y z = refl
  set-append (x ∷ xs) ys y z = ap (◌∷◌ x) (set-append xs ys y z)

  get_elem?-append :
      (xs ys : List (SelectNode A)) (y : SelectNode A)
      → get_elem? (xs ++ y ∷ ys) (length xs) ≡ some y
  get_elem?-append [] ys y = refl
  get_elem?-append (x ∷ xs) ys y = get_elem?-append xs ys y

  update_mark_lem :
      (s : RandomSelector A) (xs ys : List (SelectNode A)) (y : SelectNode A) (d : ℤ)
      → InBounds y.mark
      → Modest d
      → update_mark (with_nodes s (xs ++ y ∷ ys)) (pos (length xs)) d
        ≡ ok (with_nodes s (xs ++ changed d y ∷ ys))
  unfolding update_mark
  update_mark_lem s xs ys y d b m =
      let inside : ltb (length xs) (length (xs ++ y ∷ ys)) ≡ true =
        ground (arith, length-append xs (y ∷ ys)) in
      rw
        (
          inside,
          get_elem?-append xs ys y,
          no_overflow y.mark d b m,
          clamp-cut (y.mark +ℤ d),
          set-append xs ys y (changed d y),
        )
        refl

  update_marks_lem :
      (s : RandomSelector A) (xs ys : List (SelectNode A)) (d : ℤ)
      → All (λ (node : SelectNode A). InBounds node.mark) ys
      → Modest d
      → update_marks (length ys) (length xs) d (with_nodes s (xs ++ ys))
        ≡ ok (with_nodes s (xs ++ map (changed d) ys))
  unfolding update_marks
  update_marks_lem s xs [] d p m = refl
  update_marks_lem s xs (y ∷ ys) d (py, p) m =
      let len : suc (length xs) ≡ length (xs ++ changed d y ∷ []) =
        omega (arith, length-append xs (changed d y ∷ [])) in
      rw (update_mark_lem s xs ys y d py m, len, sym (append_assoc xs (changed d y ∷ []) ys))
        (update_marks_lem s (xs ++ changed d y ∷ []) ys d p m
          ∙ ap (λ l. ok (with_nodes s l)) (append_assoc xs (changed d y ∷ []) (map (changed d) ys)))

  map-InBounds :
      (xs : List (SelectNode A)) (d : ℤ)
      → All (λ (node : SelectNode A). InBounds node.mark) (map (changed d) xs)
  map-InBounds [] d = tt
  map-InBounds (x ∷ xs) d = (cut-InBounds (x.mark +ℤ d), map-InBounds xs d)

  -- `UpdateAllMark` changes the mark of every node by `mark_delta`, cut to the bounds -100 and 100,
  -- and leaves all marks within them, when they were and `mark_delta` is not near the end of an `int`.
  pub update_all_mark_lem :
      (s : RandomSelector A) (mark_delta : ℤ)
      → Marked s
      → Modest mark_delta
      → (s' : RandomSelector A) × (update_all_mark s mark_delta ≡ ok s')
        × (s'.nodes ≡ map (changed mark_delta) s.nodes)
        × Marked s'
  unfolding update_all_mark
  update_all_mark_lem s mark_delta p m = (
    with_nodes s (map (changed mark_delta) s.nodes),
    update_marks_lem s [] s.nodes mark_delta p m,
    refl,
    map-InBounds s.nodes mark_delta,
  )
