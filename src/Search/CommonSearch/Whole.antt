-- ===== src/Search/CommonSearch/Whole.antt =====
-- A query from the words to the ranked pictures.
use mlsimgsearch.Prelude.{All, ok, ℕ, ◌≡◌, refl, ap₂, ◌∙◌, false, Option, none, List, [], ◌∷◌}
use mlsimgsearch.Prelude.Int.{ℤ}
use mlsimgsearch.Search.Searcher.{MergeSimilarInfo, QueryWord, Results}
use mlsimgsearch.Search.Searcher.Rising.{find_result}
use mlsimgsearch.Search.Ranking.{
  SearchResultItem, RankOps, Searcher, rank, search_result, set_result_similar, set_query_pow,
  get_result,
}
use mlsimgsearch.Search.Ranking.Scores.{find_sim, ranked, sort-scores}
use mlsimgsearch.Search.Ranking.Order.{IsOrdered, Descending, scores_descend}
use mlsimgsearch.Search.CommonSearch.{
  MergeConf, ServerToData, is_nil, process_query, clear_merge_data,
}
use mlsimgsearch.Search.CommonSearch.Dispatch.{
  Ranges, RisingWords, Covered, Served, words_of, dispatch_data_lem,
}
use mlsimgsearch.Search.CommonSearch.Threads.{Answered, total, total_pow, exec_merges_lem}
use mlsimgsearch.Compute.MergeProcessor.{ExecMergeResponse}

some_part :
    (parts : List ServerToData) (word : ℤ × QueryWord) (words : List (ℤ × QueryWord))
    → words_of parts ≡ word ∷ words
    → is_nil parts ≡ false
some_part [] word words e = cc
some_part (part ∷ parts) word words e = refl

module _ (add : ℕ → ℕ → ℕ) (unarchive : ℕ → List ℕ → Option (List MergeSimilarInfo)) (ops : RankOps)
    (answers : List ServerToData → List (ExecMergeResponse × (ℕ → ℕ) × (ℕ → ℕ))) where
  -- Let the ranges be not empty, have servers and follow one another, every word of a query with
  -- rising ids be in one of them, similarities above 0.1 be ordered by >, and let the servers find
  -- pictures, by rising ids, for parts that hold the words in their order, each of one range and
  -- for its servers. Let no two threads add to the query power at once, which they do without the
  -- lock, and let each id that a thread reads behind the end of the results be greater than all that
  -- it adds. Then a query is answered, from cleared results on. No similarity is followed by a
  -- greater one, and a picture is in the answer just if the sum of what the servers have for it, in
  -- the order in which the threads take the lock, makes a similarity above 0.1, and then with that
  -- similarity.
  pub process_query_lem :
      (conf : MergeConf) (confs : List MergeConf) (id : ℤ) (word : QueryWord)
      (words : List (ℤ × QueryWord)) (old : Results) (s : Searcher)
      → Ranges (conf ∷ confs)
      → RisingWords ((id, word) ∷ words)
      → All (λ (id, word). Covered (conf ∷ confs) id) ((id, word) ∷ words)
      → IsOrdered ops
      → ((parts : List ServerToData)
          → words_of parts ≡ (id, word) ∷ words
          → All (Served (conf ∷ confs)) parts
          → All (Answered add unarchive) (answers parts))
      → (parts : List ServerToData) × (items : List SearchResultItem) × (process_query add unarchive
            ops answers
            (conf ∷ confs)
            ((id, word) ∷ words)
            (clear_merge_data old)
            s
          ≡ ok items)
        × (words_of parts ≡ (id, word) ∷ words)
        × All (Served (conf ∷ confs)) parts
        × Descending ops items
        × ((pic : ℕ)
            → find_sim pic items
              ≡ ranked ops
                  (total_pow add unarchive (answers parts) 0)
                  (total add unarchive pic (answers parts) none))
  unfolding process_query clear_merge_data search_result rank set_result_similar set_query_pow
      get_result find_result
  process_query_lem conf confs id word words old s r w c o served =
      let (parts, e, same, all) = dispatch_data_lem conf confs id word words r w c in
      let cleared : Results = record { query_pow = 0; similar = [] } in
      let (results, e', rising, pow, found) =
        exec_merges_lem add unarchive (answers parts) cleared tt (served parts same all) in
      let items = search_result ops results.similar results.query_pow s in
      (
        parts,
        items,
        rw (e, some_part parts (id, word) words same, e') refl,
        same,
        all,
        scores_descend ops o results.query_pow results.similar,
        λ pic.
            sort-scores ops results.query_pow pic results.similar rising
            ∙ ap₂ (ranked ops) pow (found pic),
      )
