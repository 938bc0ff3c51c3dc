-- ===== src/Search/Ranking/Order.antt =====
-- The order of the ranked results, and a search from the inverted lists to the ranking.
use mlsimgsearch.Prelude.{if_cases, All, ok, ℕ, ◌≡◌, ap₂, ◌∙◌, true, false, none, List, [], ◌∷◌}
use mlsimgsearch.Prelude.Int.{ℤ}
use mlsimgsearch.Search.Serializer.{WordIndex}
use mlsimgsearch.Search.Index.{IndexFile}
use mlsimgsearch.Search.Searcher.{MergeSimilarInfo, FloatOps, QueryWord, Results, merge_by_thread}
use mlsimgsearch.Search.Searcher.Words.{Known, expected, expected_pow, merge_by_thread_lem}
use mlsimgsearch.Search.Ranking.{
  SearchResultItem, RankOps, Searcher, score, scores, insert_item, sort, rank, search_result,
  set_result_similar, set_query_pow, get_result,
}
use mlsimgsearch.Search.Ranking.Scores.{find_sim, ranked, sort-scores}

-- `a > b` on the numbers that pass `a > 0.1`, none of which is a NaN.
pub record IsOrdered (ops : RankOps) : Type 0 where
  pub asymm :
      (a b : ℕ)
      → ops.is_enough a ≡ true
      → ops.is_enough b ≡ true
      → ops.greater a b ≡ true
      → ops.greater b a ≡ false
  pub trans :
      (a b c : ℕ)
      → ops.is_enough a ≡ true
      → ops.is_enough b ≡ true
      → ops.is_enough c ≡ true
      → ops.greater a b ≡ false
      → ops.greater b c ≡ false
      → ops.greater a c ≡ false

module _ (ops : RankOps) where
  abbrev pub Enough : List SearchResultItem → Type 0
  Enough xs = All (λ x. ops.is_enough x.sim ≡ true) xs

  -- No later item has a greater similarity.
  abbrev pub Descending : List SearchResultItem → Type 0
  Descending [] = Unit {0}
  Descending (x ∷ xs) = All (λ y. ops.greater y.sim x.sim ≡ false) xs × Descending xs

  scores-Enough : (query_pow : ℕ) (rs : List MergeSimilarInfo) → Enough (scores ops query_pow rs)
  unfolding scores
  scores-Enough query_pow [] = tt
  scores-Enough query_pow (r ∷ rs) =
      if_cases Enough (ops.is_enough (score ops query_pow r).sim)
        (λ e. (e, scores-Enough query_pow rs)) (λ _. scores-Enough query_pow rs)

  insert_item-All {κ} :
      (P : SearchResultItem → Type κ) (x : SearchResultItem) (ys : List SearchResultItem)
      → P x
      → All P ys
      → All P (insert_item ops x ys)
  unfolding insert_item
  insert_item-All P x [] p ps = (p, tt)
  insert_item-All P x (y ∷ ys) p (q, ps) =
      if_cases (All P) (ops.greater y.sim x.sim) (λ _. (q, insert_item-All P x ys p ps))
        (λ _. (p, (q, ps)))

  module _ (o : IsOrdered ops) where
    below :
        (x y : SearchResultItem) (ys : List SearchResultItem)
        → ops.is_enough x.sim ≡ true
        → ops.is_enough y.sim ≡ true
        → Enough ys
        → ops.greater y.sim x.sim ≡ false
        → All (λ z. ops.greater z.sim y.sim ≡ false) ys
        → All (λ z. ops.greater z.sim x.sim ≡ false) ys
    below x y [] ex ey es h hs = tt
    below x y (z ∷ ys) ex ey (ez, es) h (hz, hs) =
        (o.trans z.sim y.sim x.sim ez ey ex hz h, below x y ys ex ey es h hs)

    insert_item-Descending :
        (x : SearchResultItem) (ys : List SearchResultItem)
        → ops.is_enough x.sim ≡ true
        → Enough ys
        → Descending ys
        → Descending (insert_item ops x ys)
    unfolding insert_item
    insert_item-Descending x [] ex es d = (tt, tt)
    insert_item-Descending x (y ∷ ys) ex (ey, es) (h, d) =
        if_cases Descending (ops.greater y.sim x.sim)
          (λ g. (
            insert_item-All (λ z. ops.greater z.sim y.sim ≡ false) x ys
                (o.asymm y.sim x.sim ey ex g) h,
            insert_item-Descending x ys ex es d,
          ))
          (λ g. ((g, below x y ys ex ey es g h), (h, d)))

    sort-Enough : (xs : List SearchResultItem) → Enough xs → Enough (sort ops xs)
    unfolding sort
    sort-Enough [] e = tt
    sort-Enough (x ∷ xs) (e, es) =
        insert_item-All (λ z. ops.is_enough z.sim ≡ true) x (sort ops xs) e (sort-Enough xs es)

    sort-Descending : (xs : List SearchResultItem) → Enough xs → Descending (sort ops xs)
    unfolding sort
    sort-Descending [] e = tt
    sort-Descending (x ∷ xs) (e, es) =
        insert_item-Descending x (sort ops xs) e (sort-Enough xs es) (sort-Descending xs es)

    pub scores_descend :
        (query_pow : ℕ) (rs : List MergeSimilarInfo)
        → Descending (sort ops (scores ops query_pow rs))
    scores_descend query_pow rs =
        sort-Descending (scores ops query_pow rs) (scores-Enough query_pow rs)

-- With the lists numbered from 0, every word of the query its own entry and its list loaded and
-- rising, no item of a list with the id that is read behind the end of the results, and similarities
-- above 0.1 ordered by >, a search whose results are ranked succeeds. Its items have no greater
-- similarity behind a smaller one, and a picture has an item just if the words of the query make a
-- similarity above 0.1 of it, and then with that similarity.
pub search_result-merge_by_thread :
    (fl : FloatOps) (ops : RankOps) (index : IndexFile) (threshold : ℕ) (end_ids : ℕ → ℕ)
    (lists : ℤ → WordIndex) (query : List (ℤ × QueryWord)) (s : Searcher)
    → IsOrdered ops
    → All (λ (id, word). Known fl index threshold end_ids lists query id word) query
    → (results : Results) × (merge_by_thread fl index threshold 0 query end_ids ≡ ok results)
      × Descending ops (search_result ops results.similar results.query_pow s)
      × ((pic : ℕ)
          → find_sim pic (search_result ops results.similar results.query_pow s)
            ≡ ranked ops
                (expected_pow fl index threshold end_ids lists query 0)
                (expected fl index threshold end_ids lists query pic none))
unfolding search_result rank set_result_similar set_query_pow get_result
search_result-merge_by_thread fl ops index threshold end_ids lists query s o v =
    let (results, e, rising, pow, found) =
      merge_by_thread_lem fl index threshold end_ids lists query v in
    (
      results,
      e,
      scores_descend ops o results.query_pow results.similar,
      λ pic.
          sort-scores ops results.query_pow pic results.similar rising
          ∙ ap₂ (ranked ops) pow (found pic),
    )
