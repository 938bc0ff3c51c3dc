-- ===== src/Search/Ranking/Scores.antt =====
-- What the loop of `Rank` and its sort make of the result of each picture.
use mlsimgsearch.Prelude.{
  ◌==◌, if◌then◌else◌, ==_iff, Bool-cases, if_cases, ℕ, ◌≡◌, refl, ap, ◌∙◌, inl, inr, ◌&&◌, Option,
  none, some, List, [], ◌∷◌, arith,
}
use mlsimgsearch.Search.Serializer.{signed_key}
use mlsimgsearch.Search.Searcher.{MergeSimilarInfo}
use mlsimgsearch.Search.Searcher.Rising.{RisingResults, find_result, find_result-Behind}
use mlsimgsearch.Search.Ranking.{SearchResultItem, RankOps, score, scores, insert_item, sort}

-- The similarity that a list of items has for a picture.
unfoldable pub find_sim : ℕ → List SearchResultItem → Option ℕ
find_sim id [] = none
find_sim id (x ∷ xs) = if x.pic_id == id then some x.sim else find_sim id xs

module _ (ops : RankOps) where
  -- The similarity of a picture with the result `r`, if it is high enough.
  unfoldable pub ranked : ℕ → Option MergeSimilarInfo → Option ℕ
  ranked query_pow none = none
  ranked query_pow (some r) =
      let sim =
        if ops.is_positive r.pow && ops.is_positive query_pow
        then ops.cosine r.sim r.pow query_pow
        else 0 in
      if ops.is_enough sim then some sim else none

  scores_lem :
      (query_pow id : ℕ) (rs : List MergeSimilarInfo)
      → RisingResults rs
      → find_sim id (scores ops query_pow rs) ≡ ranked query_pow (find_result id rs)
  unfolding find_sim scores ranked find_result score
  scores_lem query_pow id [] v = refl
  scores_lem query_pow id (r ∷ rs) (h, b, v) =
      let ih = scores_lem query_pow id rs v in
      elim (Bool-cases (r.pic_id == id)) [
        | inl same ↦
            let gone : find_result id rs ≡ none =
              find_result-Behind (signed_key r.pic_id) id rs b
                (omega (arith, ap signed_key ((==_iff r.pic_id id).0 same))) in
            ground (arith, ih, gone, same)
        | inr other ↦ ground (arith, ih, other)
      ]

  find_sim-insert_item :
      (id : ℕ) (x : SearchResultItem) (ys : List SearchResultItem)
      → find_sim x.pic_id ys ≡ none
      → find_sim id (insert_item ops x ys) ≡ (if x.pic_id == id then some x.sim else find_sim id ys)
  unfolding find_sim insert_item
  find_sim-insert_item id x [] n = refl
  find_sim-insert_item id x (y ∷ ys) n = ground (arith, find_sim-insert_item id x ys)

  -- No picture has two items.
  abbrev Distinct : List SearchResultItem → Type 0
  Distinct [] = Unit {0}
  Distinct (x ∷ xs) = (find_sim x.pic_id xs ≡ none) × Distinct xs

  find_sim-sort :
      (id : ℕ) (xs : List SearchResultItem)
      → Distinct xs
      → find_sim id (sort ops xs) ≡ find_sim id xs
  unfolding find_sim sort
  find_sim-sort id [] d = refl
  find_sim-sort id (x ∷ xs) (n, d) = ground (
    arith,
    find_sim-sort id xs d,
    find_sim-sort x.pic_id xs d,
    find_sim-insert_item id x (sort ops xs),
  )

  scores-Distinct :
      (query_pow : ℕ) (rs : List MergeSimilarInfo)
      → RisingResults rs
      → Distinct (scores ops query_pow rs)
  unfolding scores score ranked
  scores-Distinct query_pow [] v = tt
  scores-Distinct query_pow (r ∷ rs) (h, b, v) =
      let gone : find_result r.pic_id rs ≡ none =
        find_result-Behind (signed_key r.pic_id) r.pic_id rs b (omega arith) in
      let none_left : find_sim r.pic_id (scores ops query_pow rs) ≡ none =
        scores_lem query_pow r.pic_id rs v ∙ ap (ranked query_pow) gone in
      if_cases Distinct (ops.is_enough (score ops query_pow r).sim)
        (λ _. (none_left, scores-Distinct query_pow rs v)) (λ _. scores-Distinct query_pow rs v)

  pub sort-scores :
      (query_pow id : ℕ) (rs : List MergeSimilarInfo)
      → RisingResults rs
      → find_sim id (sort ops (scores ops query_pow rs)) ≡ ranked query_pow (find_result id rs)
  sort-scores query_pow id rs v =
      find_sim-sort id (scores ops query_pow rs) (scores-Distinct query_pow rs v)
      ∙ scores_lem query_pow id rs v
