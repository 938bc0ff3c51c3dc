-- ===== src/Blitz/Selector.antt =====
-- libsrc/blitz2/include/blitz2/service_selector.h: RandomSelector, which takes the nodes in turn and
-- passes over those with a low mark.
pub mod Select
pub mod Marks
use mlsimgsearch.Prelude.{
  ltb, ◌==◌, if◌then◌else◌, length, get_elem?, set, Outcome, ◌>>=◌, ◌>>◌, or_fault, must, unless,
  ok, err, ℕ, zero, suc, ◌+◌, ◌-◌, ◌%◌, Bool, not, ◌&&◌, Option, none, some, List, [], ◌∷◌, ◌++◌,
}
use mlsimgsearch.Prelude.Int.{ℤ, pos, negsuc, ◌+ℤ◌, ltb_ℤ}

pub record SelectNode {ℓ} (A : Type ℓ) : Type ℓ where
  pub id : ℕ
  pub mark : ℤ
  pub weight : ℤ
  pub data_ : A

pub record RandomSelector {ℓ} (A : Type ℓ) : Type ℓ where
  pub nodes : List (SelectNode A)
  pub curnode_used_count : ℕ
  pub select_idx : ℕ

-- `uint32_t` taken for an `int`.
abbrev pub used_as_int : ℕ → ℤ
used_as_int n = if ltb n 0x8000_0000 then pos n else negsuc (0xFFFF_FFFF - n)

abbrev pub or_next : ℕ → Option ℕ → ℕ
or_next next none = next
or_next next (some idx) = idx

-- An `int` sum that is out of range is a fault.
abbrev pub in_int : ℤ → Bool
in_int (pos n) = ltb n 0x8000_0000
in_int (negsuc n) = ltb n 0x8000_0000

unfoldable pub clamp : ℤ → ℤ
clamp m =
    let low = if ltb_ℤ m (negsuc 99) then negsuc 99 else m in
    if ltb_ℤ (pos 100) low then pos 100 else low

module _ {ℓ} {A : Type ℓ} where
  unfoldable pub add_item : RandomSelector A → A → ℤ → ℕ × RandomSelector A
  add_item s item weight =
      let id = length s.nodes in
      let node : SelectNode A = record { id = id; mark = pos 100; weight = weight; data_ = item } in
      (
        id,
        record {
          nodes = s.nodes ++ node ∷ [];
          curnode_used_count = s.curnode_used_count;
          select_idx = s.select_idx;
        },
      )

  abbrev pub is_good : SelectNode A → Bool
  is_good node = ltb_ℤ (pos 0) node.mark

  -- The loop of `Select`: from `idx` on, round to the node that is selected. It makes at most as
  -- many rounds as there are nodes.
  unfoldable pub find_good : ℕ → List (SelectNode A) → ℕ → ℕ → Outcome (Option ℕ)
  find_good zero nodes idx stop = ok none
  find_good (suc rounds) nodes idx stop =
      let others = find_good rounds nodes ((idx + 1) % length nodes) stop in
      if idx == stop
      then ok none
      else or_fault (get_elem? nodes idx) >>= λ node. if is_good node then ok (some idx) else others

  -- `Select`. What `Node2SelectResult` copies is the node.
  unfoldable pub select : RandomSelector A → Outcome (SelectNode A × RandomSelector A)
  unfolding find_good
  select s = do
    let size = length s.nodes
    unless (not (size == 0)) 1
    cur ← or_fault (get_elem? s.nodes s.select_idx)
    let again = is_good cur && ltb_ℤ (used_as_int s.curnode_used_count) cur.weight
    let next = (s.select_idx + 1) % size
    let other = find_good size s.nodes next s.select_idx >>= λ found.
        or_fault (get_elem? s.nodes (or_next next found)) >>= λ node.
        ok (
          node,
          record { nodes = s.nodes; curnode_used_count = 1; select_idx = or_next next found },
        )
    let used = (s.curnode_used_count + 1) % 0x1_0000_0000
    let same =
        ok (cur, record { nodes = s.nodes; curnode_used_count = used; select_idx = s.select_idx })
    if again then same else other

  unfoldable pub select_by_id : RandomSelector A → ℤ → Outcome (SelectNode A)
  select_by_id s (negsuc n) = err 1
  select_by_id s (pos id) =
      if ltb id (length s.nodes) then or_fault (get_elem? s.nodes id) else err 1

  abbrev pub with_mark : ℤ → SelectNode A → SelectNode A
  with_mark m node = record { id = node.id; mark = m; weight = node.weight; data_ = node.data_ }

  unfoldable pub update_mark : RandomSelector A → ℤ → ℤ → Outcome (RandomSelector A)
  unfolding clamp
  update_mark s (negsuc n) mark_delta = err 1
  update_mark s (pos id) mark_delta = do
    unless (ltb id (length s.nodes)) 1
    node ← or_fault (get_elem? s.nodes id)
    must (in_int (node.mark +ℤ mark_delta))
    let node' = with_mark (clamp (node.mark +ℤ mark_delta)) node
    ok (record {
      nodes = set s.nodes id node';
      curnode_used_count = s.curnode_used_count;
      select_idx = s.select_idx;
    })

  -- The loop of `UpdateAllMark` from node `i` on, `n` nodes. No index is out of range.
  unfoldable pub update_marks : ℕ → ℕ → ℤ → RandomSelector A → Outcome (RandomSelector A)
  unfolding update_mark
  update_marks zero i mark_delta s = ok s
  update_marks (suc n) i mark_delta s = do
    s' ← update_mark s (pos i) mark_delta
    update_marks n (suc i) mark_delta s'

  unfoldable pub update_all_mark : RandomSelector A → ℤ → Outcome (RandomSelector A)
  unfolding update_marks
  update_all_mark s mark_delta = update_marks (length s.nodes) 0 mark_delta s

  unfoldable pub uninit : RandomSelector A → RandomSelector A
  uninit s = record { nodes = []; curnode_used_count = 0; select_idx = 0 }
