-- ===== src/Blitz/Selector/Select.antt =====
-- What `Select` selects.
use native.Mathlib.Nat.{mod_self, mod-eq_of_lt}
use mlsimgsearch.Prelude.{
  ◌==◌, if◌then◌else◌, Option-cases, if_cases, length, get_elem?, get_elem?_in, Outcome, ◌>>=◌,
  or_fault, ok, ℕ, zero, suc, ◌+◌, ◌%◌, ◌≤◌, ◌<◌, ◌≡◌, refl, sym, ap, ◌∙◌, subst, ◌≢◌, ◌⊎◌, inl,
  inr, Bool, true, false, ◌&&◌, Option, none, some, List, arith, dec_lt,
}
use mlsimgsearch.Prelude.Int.{ltb_ℤ}
use mlsimgsearch.Blitz.Selector.{
  SelectNode, RandomSelector, is_good, find_good, or_next, used_as_int, select,
}

-- The step to the next index, round at the end.
abbrev Step : ℕ → ℕ → ℕ → Type 0
Step idx size next = ((suc idx < size) × (next ≡ suc idx)) ⊎ ((suc idx ≡ size) × (next ≡ 0))

next_cases : (idx size : ℕ) → idx < size → Step idx size ((idx + 1) % size)
next_cases idx size h = elim (dec_lt (suc idx) size) [
  | yes l ↦ inl (l, ap (λ x. x % size) (omega arith) ∙ mod-eq_of_lt l)
  | no ge ↦
      let e : suc idx ≡ size = omega arith in
      inr (e, ap (λ x. x % size) (omega (arith, e)) ∙ mod_self size)
]

module _ {ℓ} {A : Type ℓ} (nodes : List (SelectNode A)) where
  -- A node with a positive mark.
  abbrev pub GoodAt : ℕ → Type ℓ
  GoodAt j = (node : SelectNode A) × (get_elem? nodes j ≡ some node) × (is_good node ≡ true)

  -- The loop ends, and a node that it finds is good.
  abbrev Sound : Option ℕ → Type ℓ
  Sound none = Unit
  Sound (some j) = (j < length nodes) × GoodAt j

  abbrev Ends : Outcome (Option ℕ) → Type ℓ
  Ends o = (r : Option ℕ) × (o ≡ ok r) × Sound r

  find_good-Ends :
      (rounds idx stop : ℕ) → idx < length nodes → Ends (find_good rounds nodes idx stop)
  unfolding find_good
  find_good-Ends zero idx stop h = (none, refl, tt)
  find_good-Ends (suc rounds) idx stop h =
      let (node, e) = get_elem?_in nodes idx h in
      let others = find_good rounds nodes ((idx + 1) % length nodes) stop in
      let step = next_cases idx (length nodes) h in
      if_cases Ends (idx == stop) (λ _. (none, refl, tt))
        (λ _.
          subst (λ o. Ends (or_fault o >>= λ node. if is_good node then ok (some idx) else others))
            (sym e)
            (if_cases Ends (is_good node) (λ good. (some idx, refl, (h, (node, e, good))))
              (λ _. find_good-Ends rounds ((idx + 1) % length nodes) stop (ground (arith, step)))))

  abbrev Finds : Outcome (Option ℕ) → Type ℓ
  Finds o = (j : ℕ) × (o ≡ ok (some j)) × (j < length nodes) × GoodAt j

  -- A good node that lies ahead without a turn is found, or one before it.
  find_good_ahead :
      (rounds idx stop j : ℕ)
      → idx ≤ j
      → (stop < idx) ⊎ (j < stop)
      → j < idx + rounds
      → j < length nodes
      → GoodAt j
      → Finds (find_good rounds nodes idx stop)
  unfolding find_good
  find_good_ahead zero idx stop j le s r lj g = absurd (omega arith)
  find_good_ahead (suc rounds) idx stop j le s r lj (good_node, ge, gg) =
      let (node, e) = get_elem?_in nodes idx (omega arith) in
      let others = find_good rounds nodes ((idx + 1) % length nodes) stop in
      let step = next_cases idx (length nodes) (omega arith) in
      if_cases Finds (idx == stop) (λ t. absurd (ground (arith, t, s)))
        (λ _.
          subst (λ o. Finds (or_fault o >>= λ node. if is_good node then ok (some idx) else others))
            (sym e)
            (if_cases Finds (is_good node) (λ good. (idx, refl, omega arith, (node, e, good)))
              (λ bad.
                let apart : idx ≢ j =
                  λ same. ground (arith, ap (get_elem? nodes) same, e, ge, gg, bad) in
                let nx : (idx + 1) % length nodes ≡ suc idx = ground (arith, step, apart) in
                find_good_ahead rounds ((idx + 1) % length nodes) stop j (ground (arith, nx, apart))
                  (elim s [
                    | inl before ↦ inl (omega (arith, nx, before))
                    | inr behind ↦ inr behind
                  ])
                  (omega (arith, nx)) lj (good_node, ge, gg))))

  -- A good node before `stop` is found from an index behind it, or one on the way.
  find_good_round :
      (rounds idx stop j : ℕ)
      → idx < length nodes
      → stop < idx
      → j < stop
      → length nodes + j < idx + rounds
      → GoodAt j
      → Finds (find_good rounds nodes idx stop)
  unfolding find_good
  find_good_round zero idx stop j h si js r g = absurd (omega arith)
  find_good_round (suc rounds) idx stop j h si js r g =
      let (node, e) = get_elem?_in nodes idx h in
      let next = (idx + 1) % length nodes in
      let others = find_good rounds nodes next stop in
      if_cases Finds (idx == stop) (λ t. absurd (ground (arith, t)))
        (λ _.
          subst (λ o. Finds (or_fault o >>= λ node. if is_good node then ok (some idx) else others))
            (sym e)
            (if_cases Finds (is_good node) (λ good. (idx, refl, h, (node, e, good)))
              (λ _. elim (next_cases idx (length nodes) h) [
                | inl (l, nx) ↦
                    find_good_round rounds next stop j (omega (arith, l, nx)) (omega (arith, nx)) js
                      (omega (arith, nx)) g
                | inr (l, nx) ↦
                    find_good_ahead rounds next stop j (omega (arith, nx)) (inr js)
                      (omega (arith, nx, l)) (omega arith) g
              ])))

  -- From the index behind `stop`, every other good node is within reach.
  find_good_lem :
      (stop j : ℕ)
      → stop < length nodes
      → j < length nodes
      → j ≢ stop
      → GoodAt j
      → Finds (find_good (length nodes) nodes ((stop + 1) % length nodes) stop)
  find_good_lem stop j h lj ne g =
      let next = (stop + 1) % length nodes in
      elim (next_cases stop (length nodes) h) [
        | inl (l, nx) ↦ elim (dec_lt j stop) [
          | yes before ↦
              find_good_round (length nodes) next stop j (omega (arith, l, nx)) (omega (arith, nx))
                before (omega (arith, nx)) g
          | no behind ↦
              find_good_ahead (length nodes) next stop j (ground (arith, nx, ne))
                (inl (omega (arith, nx))) (omega (arith, nx)) lj g
        ]
        | inr (l, nx) ↦
            find_good_ahead (length nodes) next stop j (omega (arith, nx))
              (inr (ground (arith, l, ne))) (omega (arith, nx)) lj g
      ]

and_left : (a b : Bool) → (a && b) ≡ true → a ≡ true
and_left a b e = ground arith

module _ {ℓ} {A : Type ℓ} where
  -- The outcome is a node of the selector, which stands at the index that is kept for the next call.
  abbrev pub Selected : RandomSelector A → Outcome (SelectNode A × RandomSelector A) → Type ℓ
  Selected s o =
      (node : SelectNode A) × (s' : RandomSelector A) × (o ≡ ok (node, s'))
      × (s'.nodes ≡ s.nodes)
      × (get_elem? s'.nodes s'.select_idx ≡ some node)
      × (s'.select_idx < length s'.nodes)

  abbrev kept : RandomSelector A → RandomSelector A
  kept s = record {
    nodes = s.nodes;
    curnode_used_count = (s.curnode_used_count + 1) % 0x1_0000_0000;
    select_idx = s.select_idx;
  }

  abbrev moved : RandomSelector A → ℕ → RandomSelector A
  moved s idx = record { nodes = s.nodes; curnode_used_count = 1; select_idx = idx }

  abbrev again : RandomSelector A → SelectNode A → Bool
  again s cur = is_good cur && ltb_ℤ (used_as_int s.curnode_used_count) cur.weight

  select_lem :
      (s : RandomSelector A) (cur node : SelectNode A) (found : Option ℕ)
      → 0 < length s.nodes
      → get_elem? s.nodes s.select_idx ≡ some cur
      → find_good (length s.nodes) s.nodes ((s.select_idx + 1) % length s.nodes) s.select_idx
        ≡ ok found
      → get_elem? s.nodes (or_next ((s.select_idx + 1) % length s.nodes) found) ≡ some node
      → select s ≡ (
          if again s cur
          then ok (cur, kept s)
          else ok (node, moved s (or_next ((s.select_idx + 1) % length s.nodes) found)))
  unfolding select
  select_lem s cur node found h ec ef en =
      let nonempty : (length s.nodes == 0) ≡ false = ground arith in rw (nonempty, ec, ef, en) refl

  -- A selector whose index is that of a node selects a node and keeps its nodes.
  pub select-Selected :
      (s : RandomSelector A) → s.select_idx < length s.nodes → Selected s (select s)
  select-Selected s h =
      let size = length s.nodes in
      let next = (s.select_idx + 1) % size in
      let step = next_cases s.select_idx size h in
      let (cur, ec) = get_elem?_in s.nodes s.select_idx h in
      let nx : next < size = ground (arith, step) in
      let (r, er, sound) = find_good-Ends s.nodes size next s.select_idx nx in
      let at : or_next next r < size = elim (Option-cases r) [
        | inl n ↦ ground (arith, n, nx)
        | inr (j, n) ↦ ground (arith, n, (subst (Sound s.nodes) n sound).0)
      ] in
      let (node, en) = get_elem?_in s.nodes (or_next next r) at in
      subst (Selected s) (sym (select_lem s cur node r (omega arith) ec er en)) (
        if_cases (Selected s) (again s cur) (λ _. (cur, kept s, refl, refl, ec, h))
          (λ _. (node, moved s (or_next next r), refl, refl, en, at)))

  -- The outcome is a node with a positive mark.
  abbrev pub GoodOutcome : Outcome (SelectNode A × RandomSelector A) → Type ℓ
  GoodOutcome o =
      (node : SelectNode A) × (s' : RandomSelector A) × (o ≡ ok (node, s')) × (is_good node ≡ true)

  -- When some node other than the one of the last call has a positive mark, the node that is
  -- selected has one.
  pub select_good :
      (s : RandomSelector A) (j : ℕ)
      → s.select_idx < length s.nodes
      → j < length s.nodes
      → j ≢ s.select_idx
      → GoodAt s.nodes j
      → GoodOutcome (select s)
  select_good s j h lj ne g =
      let (cur, ec) = get_elem?_in s.nodes s.select_idx h in
      let (i, er, li, (node, en, good)) = find_good_lem s.nodes s.select_idx j h lj ne g in
      subst GoodOutcome (sym (select_lem s cur node (some i) (omega arith) ec er en)) (
        if_cases GoodOutcome (again s cur)
          (λ t. (
            cur,
            kept s,
            refl,
            and_left (is_good cur) (ltb_ℤ (used_as_int s.curnode_used_count) cur.weight) t,
          ))
          (λ _. (node, moved s i, refl, good)))
