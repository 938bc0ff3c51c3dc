-- ===== src/Search/Searcher/Merge.antt =====
-- One inverted list is merged into the results: the loop of `MergeBucketResult`.
use mlsimgsearch.Prelude.{
  length, All, Outcome, ok, ℕ, ◌<◌, ◌≡◌, refl, ap, ◌∙◌, ◌≢◌, List, [], ◌∷◌, ◌++◌, arith, dec_lt,
}
use mlsimgsearch.Search.Serializer.{IndexItem, signed_key}
use mlsimgsearch.Search.Index.Merge.{Later, Rising, find_pic, find_pic_later}
use mlsimgsearch.Search.Searcher.{MergeSimilarInfo, FloatOps, merge_results}
use mlsimgsearch.Search.Searcher.Rising.{
  Behind, Behind-weaken, Behind-append, RisingResults, RisingResults-append, find_result,
  find_result-append, find_result-UpTo,
}
use mlsimgsearch.Search.Searcher.Place.{placed_info, Placed, place_lem, merged, placed_info-merged}

-- No item has the id that is read behind the end of the results.
abbrev pub Unread : (ℕ → ℕ) → List IndexItem → Type 0
Unread end_ids [] = Unit {0}
Unread end_ids (x ∷ xs) = (x.pic_id ≢ end_ids (length xs)) × Unread end_ids xs

module _ (fl : FloatOps) (threshold query_weight : ℕ) (query_he : List ℕ) where
  -- What `merge_results` comes to.
  abbrev pub Merged :
      List IndexItem → List MergeSimilarInfo → Outcome (List MergeSimilarInfo) → Type 0
  Merged items rest o =
      (rs : List MergeSimilarInfo) × (o ≡ ok rs)
      × RisingResults rs
      × ((k : ℕ) → All (λ x. k < signed_key x.pic_id) items → Behind k rest → Behind k rs)
      × ((id : ℕ)
          → find_result id rs
            ≡ placed_info fl threshold query_weight query_he (find_pic id items)
                (find_result id rest))

  merged_found :
      (item : IndexItem) (items : List IndexItem) (rest rs : List MergeSimilarInfo)
      (o : Outcome (List MergeSimilarInfo × List MergeSimilarInfo)) (id : ℕ)
      (v : Placed fl threshold query_weight query_he item rest o)
      → All (Later item) items
      → find_result id rs
        ≡ placed_info fl threshold query_weight query_he
            (find_pic id items)
            (find_result id v.after)
      → find_result id (v.before ++ rs)
        ≡ placed_info fl threshold query_weight query_he
            (find_pic id (item ∷ items))
            (find_result id rest)
  unfolding placed_info find_pic
  merged_found item items rest rs o id v later e =
      elim (dec_lt (signed_key item.pic_id) (signed_key id)) [
        | yes gt ↦
            let other : item.pic_id ≢ id = λ e. omega (arith, gt, ap signed_key e) in
            ground (
              arith,
              other,
              e,
              v.found id,
              find_result-append id v.before rs,
              find_result-UpTo (signed_key item.pic_id) id v.before v.up_to gt,
            )
        | no le ↦ ground (
          arith,
          e,
          v.found id,
          find_result-append id v.before rs,
          find_pic_later (signed_key item.pic_id) id items later (omega (arith, le)),
        )
      ]

  pub merge_results_lem :
      (end_ids : ℕ → ℕ) (items : List IndexItem) (rest : List MergeSimilarInfo)
      → Rising items
      → RisingResults rest
      → Unread end_ids items
      → Merged items rest (merge_results fl threshold query_weight query_he end_ids items rest)
  unfolding merge_results placed_info find_pic
  merge_results_lem end_ids [] rest p q u = (rest, refl, q, λ k a b. b, λ id. refl)
  merge_results_lem end_ids (item ∷ items) rest (h, later, p) q (ne, u) =
      let v =
        place_lem fl threshold query_weight query_he (end_ids (length items)) item rest h ne q in
      let (rs, e, rising, lower, found) =
        merge_results_lem end_ids items v.after p v.rises_after u in
      let behind = lower (signed_key item.pic_id) later v.behind in
      (
        v.before ++ rs,
        rw (v.result, e) refl,
        RisingResults-append (signed_key item.pic_id) v.before rs v.rises v.up_to rising behind,
        λ k (a, as') b. Behind-append k v.before rs (v.lower k a b) (
            lower k as'
              (Behind-weaken k (signed_key item.pic_id) v.after (omega (arith, a)) v.behind)),
        λ id. merged_found item items rest rs _ id v later (found id),
      )

-- A rising inverted list is merged into rising results, when no item has the id that is read behind
-- their end: the loop ends, the results rise, and each picture has what its item and its earlier
-- result make of it.
pub find_result-merge_results :
    (fl : FloatOps) (threshold query_weight : ℕ) (query_he : List ℕ) (end_ids : ℕ → ℕ)
    (items : List IndexItem) (rest : List MergeSimilarInfo)
    → Rising items
    → RisingResults rest
    → Unread end_ids items
    → (rs : List MergeSimilarInfo) × (merge_results fl threshold query_weight query_he end_ids items
          rest
        ≡ ok rs)
      × RisingResults rs
      × ((id : ℕ)
          → find_result id rs
            ≡ merged fl threshold query_weight query_he (find_pic id items) (find_result id rest))
find_result-merge_results fl threshold query_weight query_he end_ids items rest p q u =
    let (rs, e, rising, lower, found) =
      merge_results_lem fl threshold query_weight query_he end_ids items rest p q u in
    (
      rs,
      e,
      rising,
      λ id.
          found id
          ∙ placed_info-merged fl threshold query_weight query_he (find_pic id items)
              (find_result id rest),
    )
