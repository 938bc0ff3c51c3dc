-- ===== src/Search/CommonSearch/Combine.antt =====
-- `MergeThreadsResult` adds up what two lists of results have for a picture.
use mlsimgsearch.Prelude.{
  ltb, ◌==◌, ltb→lt, ==_iff, Bool-cases, if_cases, length, Outcome, ◌>>=◌, ok, ℕ, ◌^◌, ◌<◌, ◌≡◌,
  refl, sym, ap, ◌∙◌, subst, ◌≢◌, inl, inr, false, Option, none, some, List, [], ◌∷◌, arith,
}
use mlsimgsearch.Search.Serializer.{signed_key}
use mlsimgsearch.Search.Index.Merge.{key_injective}
use mlsimgsearch.Search.Searcher.{MergeSimilarInfo}
use mlsimgsearch.Search.Searcher.Rising.{
  Behind, Behind-weaken, RisingResults, find_result, find_result-Behind,
}
use mlsimgsearch.Search.CommonSearch.{add_info, merge_at_end, merge_from, merge_threads_result}

-- What is read behind the end of the results is an id greater than those of the items.
abbrev pub Beyond : (ℕ → ℕ) → List MergeSimilarInfo → Type 0
Beyond end_ids [] = Unit {0}
Beyond end_ids (t ∷ ts) =
    (signed_key t.pic_id < signed_key (end_ids (length ts))) × Beyond end_ids ts

module _ (add : ℕ → ℕ → ℕ) where
  -- The results of one picture.
  unfoldable pub combine :
      Option MergeSimilarInfo → Option MergeSimilarInfo → Option MergeSimilarInfo
  combine none t = t
  combine (some c) none = some c
  combine (some c) (some t) =
      some (record { pic_id = c.pic_id; sim = add c.sim t.sim; pow = add c.pow t.pow })

  merge_at_end_lem :
      (end_ids : ℕ → ℕ) (ts : List MergeSimilarInfo)
      → Beyond end_ids ts
      → merge_at_end add end_ids ts ≡ ok ts
  unfolding merge_at_end
  merge_at_end_lem end_ids [] b = refl
  merge_at_end_lem end_ids (t ∷ ts) (h, b) = ground (arith, merge_at_end_lem end_ids ts b)

  -- What the loop comes to from `cur` on.
  abbrev Combined :
      List MergeSimilarInfo → List MergeSimilarInfo → Outcome (List MergeSimilarInfo) → Type 0
  Combined cur ts o =
      (rs : List MergeSimilarInfo) × (o ≡ ok rs)
      × RisingResults rs
      × ((k : ℕ) → Behind k cur → Behind k ts → Behind k rs)
      × ((id : ℕ) → find_result id rs ≡ combine (find_result id cur) (find_result id ts))

  combine-none : (o : Option MergeSimilarInfo) → combine o none ≡ o
  unfolding combine
  combine-none none = refl
  combine-none (some c) = refl

  at_end :
      (end_ids : ℕ → ℕ) (ts : List MergeSimilarInfo)
      → RisingResults ts
      → Beyond end_ids ts
      → Combined [] ts (merge_at_end add end_ids ts)
  unfolding combine find_result
  at_end end_ids ts v b = (ts, merge_at_end_lem end_ids ts b, v, λ k p q. q, λ id. refl)

  -- The item at the iterator has the smaller id.
  pass_lem :
      (c t : MergeSimilarInfo) (cur ts : List MergeSimilarInfo)
      (o : Outcome (List MergeSimilarInfo))
      → RisingResults (c ∷ cur)
      → RisingResults (t ∷ ts)
      → signed_key c.pic_id < signed_key t.pic_id
      → Combined cur (t ∷ ts) o
      → Combined (c ∷ cur) (t ∷ ts) (o >>= λ rs. ok (c ∷ rs))
  unfolding combine find_result
  pass_lem c t cur ts o (hc, bc, vc) (ht, bt, vt) lt (rs, e, v, keep, found) = (
    c ∷ rs,
    ap (λ o. o >>= λ rs. ok (c ∷ rs)) e,
    (
      hc,
      keep (signed_key c.pic_id) bc
          (lt, Behind-weaken (signed_key c.pic_id) (signed_key t.pic_id) ts (omega arith) bt),
      v,
    ),
    λ k (p, ps) q. (p, keep k ps q),
    λ id. elim (Bool-cases (c.pic_id == id)) [
      | inl same ↦
          let below : find_result id (t ∷ ts) ≡ none =
            find_result-Behind (signed_key c.pic_id) id (t ∷ ts)
              (lt, Behind-weaken (signed_key c.pic_id) (signed_key t.pic_id) ts (omega arith) bt)
              (omega (arith, ap signed_key ((==_iff c.pic_id id).0 same))) in
          ground (arith, below, same)
      | inr other ↦ ground (arith, other, found id)
    ],
  )

  -- Both have the picture.
  both_lem :
      (c t : MergeSimilarInfo) (cur ts : List MergeSimilarInfo)
      (o : Outcome (List MergeSimilarInfo))
      → RisingResults (c ∷ cur)
      → RisingResults (t ∷ ts)
      → c.pic_id ≡ t.pic_id
      → Combined cur ts o
      → Combined (c ∷ cur) (t ∷ ts) (o >>= λ rs. ok (add_info add c t ∷ rs))
  unfolding combine find_result add_info
  both_lem c t cur ts o (hc, bc, vc) (ht, bt, vt) same (rs, e, v, keep, found) = (
    add_info add c t ∷ rs,
    ap (λ o. o >>= λ rs. ok (add_info add c t ∷ rs)) e,
    (hc, keep (signed_key c.pic_id) bc (subst (λ k. Behind k ts) (ap signed_key (sym same)) bt), v),
    λ k (p, ps) (q, qs). (p, keep k ps qs),
    λ id. ground (arith, found id, same),
  )

  -- The new item has the smaller id.
  insert_lem :
      (c t : MergeSimilarInfo) (cur ts : List MergeSimilarInfo)
      (o : Outcome (List MergeSimilarInfo))
      → RisingResults (c ∷ cur)
      → RisingResults (t ∷ ts)
      → signed_key t.pic_id < signed_key c.pic_id
      → Combined (c ∷ cur) ts o
      → Combined (c ∷ cur) (t ∷ ts) (o >>= λ rs. ok (t ∷ rs))
  unfolding combine find_result
  insert_lem c t cur ts o (hc, bc, vc) (ht, bt, vt) lt (rs, e, v, keep, found) = (
    t ∷ rs,
    ap (λ o. o >>= λ rs. ok (t ∷ rs)) e,
    (
      ht,
      keep (signed_key t.pic_id)
          (lt, Behind-weaken (signed_key t.pic_id) (signed_key c.pic_id) cur (omega arith) bc) bt,
      v,
    ),
    λ k p (q, qs). (q, keep k p qs),
    λ id. elim (Bool-cases (t.pic_id == id)) [
      | inl same ↦
          let below : find_result id (c ∷ cur) ≡ none =
            find_result-Behind (signed_key t.pic_id) id (c ∷ cur)
              (lt, Behind-weaken (signed_key t.pic_id) (signed_key c.pic_id) cur (omega arith) bc)
              (omega (arith, ap signed_key ((==_iff t.pic_id id).0 same))) in
          ground (arith, below, same)
      | inr other ↦ ground (arith, other, found id)
    ],
  )

  -- How two pictures stand to one another.
  order_cases :
      (c t : MergeSimilarInfo)
      → c.pic_id < 2 ^ 64
      → t.pic_id < 2 ^ 64
      → ltb (signed_key c.pic_id) (signed_key t.pic_id) ≡ false
      → (c.pic_id == t.pic_id) ≡ false
      → signed_key t.pic_id < signed_key c.pic_id
  order_cases c t hc ht n ne =
      let differ : signed_key c.pic_id ≢ signed_key t.pic_id =
        λ e. cc ((==_iff c.pic_id t.pic_id).1 (key_injective c.pic_id t.pic_id hc ht e)) in
      ground arith

  at_end_cons :
      (end_ids : ℕ → ℕ) (c t : MergeSimilarInfo) (ts : List MergeSimilarInfo)
      → RisingResults (c ∷ [])
      → RisingResults (t ∷ ts)
      → Beyond end_ids (t ∷ ts)
      → signed_key c.pic_id < signed_key t.pic_id
      → Combined (c ∷ []) (t ∷ ts) (merge_at_end add end_ids ts >>= λ rs. ok (c ∷ t ∷ rs))
  unfolding combine find_result
  at_end_cons end_ids c t ts vc vt b lt =
      let (rs, e, v, keep, found) =
        pass_lem c t [] ts (ok (t ∷ ts)) vc vt lt (t ∷ ts, refl, vt, λ k p q. q, λ id. refl) in
      (
        rs,
        ap (λ o. o >>= λ rs. ok (c ∷ t ∷ rs)) (merge_at_end_lem end_ids ts b.1) ∙ e,
        v,
        keep,
        found,
      )

  merge_from_lem :
      (end_ids : ℕ → ℕ) (cur ts : List MergeSimilarInfo)
      → RisingResults cur
      → RisingResults ts
      → Beyond end_ids ts
      → Combined cur ts (merge_from add end_ids cur ts)
  unfolding merge_from find_result
  merge_from_lem end_ids [] [] vc vt b = at_end end_ids [] vt b
  merge_from_lem end_ids (c ∷ cur) [] vc vt b =
      (c ∷ cur, refl, vc, λ k p q. p, λ id. sym (combine-none (find_result id (c ∷ cur))))
  merge_from_lem end_ids [] (t ∷ ts) vc vt b = at_end end_ids (t ∷ ts) vt b
  merge_from_lem end_ids (c ∷ []) (t ∷ ts) vc vt b =
      if_cases (Combined (c ∷ []) (t ∷ ts)) (ltb (signed_key c.pic_id) (signed_key t.pic_id))
        (λ lt. at_end_cons end_ids c t ts vc vt b (ltb→lt _ _ lt))
        (λ n.
          if_cases (Combined (c ∷ []) (t ∷ ts)) (c.pic_id == t.pic_id)
            (λ e.
              both_lem c t [] ts (merge_at_end add end_ids ts) vc vt ((==_iff _ _).0 e)
                (at_end end_ids ts vt.2 b.1))
            (λ ne.
              insert_lem c t [] ts (merge_from add end_ids (c ∷ []) ts) vc vt
                (order_cases c t vc.0 vt.0 n ne) (merge_from_lem end_ids (c ∷ []) ts vc vt.2 b.1)))
  merge_from_lem end_ids (c ∷ c' ∷ cur) (t ∷ ts) vc vt b =
      if_cases (Combined (c ∷ c' ∷ cur) (t ∷ ts)) (ltb (signed_key c.pic_id) (signed_key t.pic_id))
        (λ lt.
          pass_lem c t (c' ∷ cur) ts (merge_from add end_ids (c' ∷ cur) (t ∷ ts)) vc vt
            (ltb→lt _ _ lt) (merge_from_lem end_ids (c' ∷ cur) (t ∷ ts) vc.2 vt b))
        (λ n.
          if_cases (Combined (c ∷ c' ∷ cur) (t ∷ ts)) (c.pic_id == t.pic_id)
            (λ e.
              both_lem c t (c' ∷ cur) ts (merge_from add end_ids (c' ∷ cur) ts) vc vt
                ((==_iff _ _).0 e) (merge_from_lem end_ids (c' ∷ cur) ts vc.2 vt.2 b.1))
            (λ ne.
              insert_lem c t (c' ∷ cur) ts (merge_from add end_ids (c ∷ c' ∷ cur) ts) vc vt
                (order_cases c t vc.0 vt.0 n ne)
                (merge_from_lem end_ids (c ∷ c' ∷ cur) ts vc vt.2 b.1)))

  -- With both lists by rising ids, one item at least to merge, and greater ids read behind the end,
  -- `MergeThreadsResult` succeeds: its results are by rising ids, and have for every picture what
  -- both lists have, added up.
  pub merge_threads_result_lem :
      (end_ids : ℕ → ℕ) (cur : List MergeSimilarInfo) (t : MergeSimilarInfo)
      (ts : List MergeSimilarInfo)
      → RisingResults cur
      → RisingResults (t ∷ ts)
      → Beyond end_ids (t ∷ ts)
      → (rs : List MergeSimilarInfo) × (merge_threads_result add end_ids cur (t ∷ ts) ≡ ok rs)
        × RisingResults rs
        × ((id : ℕ) → find_result id rs ≡ combine (find_result id cur) (find_result id (t ∷ ts)))
  unfolding merge_threads_result
  merge_threads_result_lem end_ids [] t ts vc vt b =
      (t ∷ ts, refl, vt, λ id. unfold combine find_result in refl)
  merge_threads_result_lem end_ids (c ∷ cur) t ts vc vt b =
      let (rs, e, v, keep, found) = merge_from_lem end_ids (c ∷ cur) (t ∷ ts) vc vt b in
      (rs, e, v, found)
