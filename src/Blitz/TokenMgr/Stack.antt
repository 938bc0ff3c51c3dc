-- ===== src/Blitz/TokenMgr/Stack.antt =====
-- `Alloc` takes the first free slot and `Dealloc` puts a slot back in front.
use mlsimgsearch.Prelude.{
  get_elem?, All, All-weaken, get_elem?_in, modify, length-modify, get_elem?-modify,
  get_elem?-modify_ne, ok, err, ℕ, ◌+◌, ◌-◌, ◌%◌, ◌≤◌, ◌<◌, ◌≡◌, refl, sym, ap, ◌∙◌, ◌≢◌, none,
  some, List, [], ◌∷◌, arith,
}
use mlsimgsearch.Blitz.TokenMgr.{
  u32, minus_one, get_index, get_salt, TokenItem, TokenMgr, with_next, salted, out_freelist,
  in_freelist, alloc, find_item, get_data, dealloc,
}
use mlsimgsearch.Blitz.TokenMgr.Slots.{
  new_salt-u32, new_salt_changes, Chain, Chain-modify, Chain-salted, TokensOk-modify, HasFree,
  salted-index,
}

module _ {ℓ} {A : Type ℓ} where
  -- Where the chain goes on after slot `i` has left it.
  Chain-skip :
      (items : List (TokenItem A)) (i : ℕ) (head slot : TokenItem A) (fl : List ℕ)
      → 0 ≢ i
      → All (◌≢◌ i) fl
      → All (λ j. 0 < j) fl
      → get_elem? items 0 ≡ some head
      → get_elem? items i ≡ some slot
      → Chain items i fl
      → Chain (modify (with_next 0) i (modify (with_next slot.next) 0 items)) 0 fl
  Chain-skip items i head slot [] ne hs ps e0 ei c = tt
  Chain-skip items i head slot (j ∷ fl) ne (hj, hs) (pj, ps) e0 ei (x, ex, n, c) =
      let items1 = modify (with_next slot.next) 0 items in
      let same : slot ≡ x = ground arith in
      (
        with_next slot.next head,
        get_elem?-modify_ne (with_next 0) i 0 items1 (λ e. ne (sym e))
            ∙ get_elem?-modify (with_next slot.next) 0 items e0,
        ap (λ (y : TokenItem A). y.next) same ∙ n,
        Chain-modify (with_next 0) i items1 j fl hj hs (
            Chain-modify (with_next slot.next) 0 items j fl (λ e. omega arith)
              (All-weaken {P = λ j. 0 < j} {Q = ◌≢◌ 0} (λ k h e. omega (arith, h, e)) fl ps) c),
      )

  -- The check of a token in a well-formed manager.
  find_item_lem :
      (m : TokenMgr A) (k : ℕ) (slot : TokenItem A) (token : ℕ)
      → get_elem? m.items k ≡ some slot
      → get_index token ≡ k
      → 0 < k
      → k ≤ m.count
      → get_salt slot.token ≡ get_salt token
      → find_item m token ≡ ok slot
  unfolding find_item
  find_item_lem m k slot token e i p l s = ground (arith, ap (get_elem? m.items) i)

  get_data_lem :
      (m : TokenMgr A) (slot : TokenItem A) (token : ℕ)
      → find_item m token ≡ ok slot
      → get_data (some m) token ≡ some slot.data_
  unfolding get_data
  get_data_lem m slot token e = ground (arith, e)

  abbrev taken : TokenMgr A → ℕ → TokenItem A → TokenMgr A
  taken m i slot = record {
    items = modify (with_next 0) i (modify (with_next slot.next) 0 m.items);
    count = m.count;
    free_count = m.free_count - 1;
  }

  alloc_lem :
      (m : TokenMgr A) (i : ℕ) (head slot : TokenItem A)
      → 0 < m.free_count
      → i ≤ m.count
      → get_elem? m.items 0 ≡ some head
      → head.next ≡ i
      → get_elem? m.items i ≡ some slot
      → get_elem? (taken m i slot).items i ≡ some (with_next 0 slot)
      → alloc (some m) ≡ ok (slot.token, taken m i slot)
  unfolding alloc out_freelist
  alloc_lem m i head slot h l e0 n ei ei2 = ground (arith, ap (get_elem? m.items) n)

  -- `Alloc` takes the first free slot: the manager stays well formed with the slots behind it, and
  -- the token has the index of that slot and gives access to the data that stands there.
  pub alloc-HasFree :
      (m : TokenMgr A) (i : ℕ) (fl : List ℕ)
      → HasFree m (i ∷ fl)
      → (token : ℕ) × (m' : TokenMgr A) × (slot : TokenItem A) × (alloc (some m) ≡ ok (token, m'))
        × HasFree m' fl
        × (get_index token ≡ i)
        × (get_elem? m.items i ≡ some slot)
        × (get_data (some m') token ≡ some slot.data_)
  alloc-HasFree m i fl v =
      let (head, e0, n, c) = v.chain in
      let ((pos_i, le_i), more) = v.range in
      let (fresh, dist) = v.distinct in
      let (slot, ei) = get_elem?_in m.items i (omega (arith, v.size)) in
      let items1 = modify (with_next slot.next) 0 m.items in
      let items2 = modify (with_next 0) i items1 in
      let ei1 =
        get_elem?-modify_ne (with_next slot.next) 0 i m.items (λ e. omega (arith, e)) ∙ ei in
      let ei2 = get_elem?-modify (with_next 0) i items1 ei1 in
      let m' : TokenMgr A = record {
        items = items2;
        count = m.count;
        free_count = m.free_count - 1;
      } in
      let (index, small) = v.tokens i slot ei in
      let found = find_item_lem m' i (with_next 0 slot) slot.token ei2 index pos_i le_i refl in
      let len1 = length-modify (with_next slot.next) 0 m.items in
      let len2 = length-modify (with_next 0) i items1 in
      (
        slot.token,
        m',
        slot,
        alloc_lem m i head slot (omega (arith, v.free)) le_i e0 n ei ei2,
        record {
          size = omega (arith, v.size, len1, len2);
          room = v.room;
          free = omega (arith, v.free);
          fits = omega (arith, v.fits);
          range = more;
          distinct = dist;
          chain =
              Chain-skip m.items i head slot fl (λ e. omega (arith, e)) fresh
                (All-weaken {P = λ j. (0 < j) × (j ≤ m.count)} {Q = λ j. 0 < j} (λ k r. r.0) fl
                  more)
                e0 ei c;
          tokens =
              TokensOk-modify (with_next 0) i items1 (λ x. refl) (λ x h. h)
                (omega (arith, v.size, len1))
                (TokensOk-modify (with_next slot.next) 0 m.items (λ x. refl) (λ x h. h)
                  (omega (arith, v.size)) v.tokens);
        },
        index,
        ei,
        get_data_lem m' (with_next 0 slot) slot.token found,
      )

  -- A manager without a free slot refuses.
  pub alloc_full : (m : TokenMgr A) → HasFree m [] → alloc (some m) ≡ err minus_one
  unfolding alloc
  alloc_full m v = ground (arith, v.free)

  abbrev given : TokenMgr A → ℕ → ℕ → TokenMgr A
  given m k first = record {
    items = modify (with_next k) 0 (modify (with_next first) k (modify salted k m.items));
    count = m.count;
    free_count = m.free_count + 1;
  }

  dealloc_lem :
      (m : TokenMgr A) (k : ℕ) (head slot : TokenItem A) (token : ℕ)
      → find_item m token ≡ ok slot
      → get_index token ≡ k
      → m.free_count < 65535
      → get_elem? (modify salted k m.items) 0 ≡ some head
      → dealloc (some m) token ≡ ok (given m k head.next)
  unfolding dealloc in_freelist
  dealloc_lem m k head slot token f i small e0 =
      let same : (m.free_count + 1) % u32 ≡ m.free_count + 1 = omega arith in
      rw (f, i, e0, same) refl

  Chain-push :
      (items : List (TokenItem A)) (k : ℕ) (head slot : TokenItem A) (fl : List ℕ)
      → 0 ≢ k
      → All (◌≢◌ k) fl
      → All (λ j. 0 < j) fl
      → get_elem? items 0 ≡ some head
      → get_elem? items k ≡ some slot
      → Chain items 0 fl
      → Chain (modify (with_next k) 0 (modify (with_next head.next) k items)) 0 (k ∷ fl)
  Chain-push items k head slot [] ne hs ps e0 ek c =
      let items1 = modify (with_next head.next) k items in
      (
        with_next k head,
        get_elem?-modify (with_next k) 0 items1
            (get_elem?-modify_ne (with_next head.next) k 0 items (λ e. ne (sym e)) ∙ e0),
        refl,
        tt,
      )
  Chain-push items k head slot (j ∷ fl) ne (hj, hs) (pj, ps) e0 ek (x, ex, n, c) =
      let items1 = modify (with_next head.next) k items in
      let same : head ≡ x = ground arith in
      (
        with_next k head,
        get_elem?-modify (with_next k) 0 items1
            (get_elem?-modify_ne (with_next head.next) k 0 items (λ e. ne (sym e)) ∙ e0),
        refl,
        (
          with_next head.next slot,
          get_elem?-modify_ne (with_next k) 0 k items1 ne
              ∙ get_elem?-modify (with_next head.next) k items ek,
          ap (λ (y : TokenItem A). y.next) same ∙ n,
          Chain-modify (with_next k) 0 items1 j fl (λ e. omega (arith, e))
              (All-weaken {P = λ j. 0 < j} {Q = ◌≢◌ 0} (λ k h e. omega (arith, h, e)) fl ps)
              (Chain-modify (with_next head.next) k items j fl hj hs c),
        ),
      )

  stale :
      (m : TokenMgr A) (token : ℕ) (slot : TokenItem A)
      → get_elem? m.items (get_index token) ≡ some slot
      → get_salt slot.token ≢ get_salt token
      → get_data (some m) token ≡ none
  unfolding get_data find_item
  stale m token slot e ne = ground arith

  -- `Dealloc` of a slot that is in use puts it in front of the free slots, the manager stays well
  -- formed, and right after it the token gives access to no data.
  pub dealloc-HasFree :
      (m : TokenMgr A) (k : ℕ) (fl : List ℕ) (slot : TokenItem A)
      → HasFree m fl
      → m.free_count < m.count
      → 0 < k
      → k ≤ m.count
      → All (◌≢◌ k) fl
      → get_elem? m.items k ≡ some slot
      → (m' : TokenMgr A) × (dealloc (some m) slot.token ≡ ok m')
        × HasFree m' (k ∷ fl)
        × (get_data (some m') slot.token ≡ none)
  dealloc-HasFree m k fl slot v room pk lk fresh ek =
      let (head, e0) = get_elem?_in m.items 0 (omega (arith, v.size)) in
      let (index, small) = v.tokens k slot ek in
      let salty = modify salted k m.items in
      let h0 = get_elem?-modify_ne salted k 0 m.items (λ e. omega (arith, e)) ∙ e0 in
      let hk = get_elem?-modify salted k m.items ek in
      let m' = given m k head.next in
      let items1 = modify (with_next head.next) k salty in
      let l0 = length-modify salted k m.items in
      let l1 = length-modify (with_next head.next) k salty in
      let l2 = length-modify (with_next k) 0 items1 in
      let hk' : get_elem? m'.items k ≡ some (with_next head.next (salted slot)) =
        get_elem?-modify_ne (with_next k) 0 k items1 (λ e. omega (arith, e))
        ∙ get_elem?-modify (with_next head.next) k salty hk in
      (
        m',
        dealloc_lem m k head slot slot.token (find_item_lem m k slot slot.token ek index pk lk refl)
            index (omega (arith, v.room)) h0,
        record {
          size = omega (arith, v.size, l0, l1, l2);
          room = v.room;
          free = omega (arith, v.free);
          fits = omega arith;
          range = ((pk, lk), v.range);
          distinct = (fresh, v.distinct);
          chain =
              Chain-push salty k head (salted slot) fl (λ e. omega (arith, e)) fresh
                (All-weaken {P = λ j. (0 < j) × (j ≤ m.count)} {Q = λ j. 0 < j} (λ k r. r.0) fl
                  v.range)
                h0 hk (Chain-salted k m.items 0 fl v.chain);
          tokens =
              TokensOk-modify (with_next k) 0 items1 (λ x. refl) (λ x h. h)
                (omega (arith, v.size, l0, l1))
                (TokensOk-modify (with_next head.next) k salty (λ x. refl) (λ x h. h)
                  (omega (arith, v.size, l0))
                  (TokensOk-modify salted k m.items salted-index (λ x. new_salt-u32 x.token)
                    (omega (arith, v.size)) v.tokens));
        },
        stale m' slot.token (with_next head.next (salted slot))
            (ap (get_elem? m'.items) index ∙ hk') (new_salt_changes slot.token),
      )
