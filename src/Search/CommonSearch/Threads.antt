-- ===== src/Search/CommonSearch/Threads.antt =====
-- The answers of all servers are added up, in whatever order they come.
use mlsimgsearch.Prelude.{All, ok, ℕ, ◌≡◌, refl, ap, ◌∙◌, Option, none, some, List, [], ◌∷◌}
use mlsimgsearch.Prelude.Int.{pos}
use mlsimgsearch.Search.Searcher.{MergeSimilarInfo, Results}
use mlsimgsearch.Search.Searcher.Rising.{RisingResults, find_result}
use mlsimgsearch.Search.CommonSearch.{or_unmerged, exec_merge, exec_merges}
use mlsimgsearch.Search.CommonSearch.Combine.{Beyond, combine, merge_threads_result_lem}
use mlsimgsearch.Compute.MergeProcessor.{ExecMergeResponse}

module _ (add : ℕ → ℕ → ℕ) (unarchive : ℕ → List ℕ → Option (List MergeSimilarInfo)) where
  -- The results in an answer.
  abbrev or_nil : Option (List MergeSimilarInfo) → List MergeSimilarInfo
  or_nil none = []
  or_nil (some rs) = rs

  abbrev pub results_in : ExecMergeResponse → List MergeSimilarInfo
  results_in response = or_nil (unarchive response.result_len response.result)

  -- A server has found pictures, its results are by rising ids, the ids read behind the end are
  -- greater than theirs, and no other thread adds to the query power at the same time.
  pub record Answered (answer : ExecMergeResponse × (ℕ → ℕ) × (ℕ → ℕ)) : Type 0 where
    pub found : answer.0.ret_num ≡ pos 0
    pub first : MergeSimilarInfo
    pub others : List MergeSimilarInfo
    pub archived : unarchive answer.0.result_len answer.0.result ≡ some (first ∷ others)
    pub rising : RisingResults (first ∷ others)
    pub beyond : Beyond answer.1 (first ∷ others)
    pub alone : (pow : ℕ) → answer.2 pow ≡ pow

  -- What the answers have for a picture, on top of what there is.
  unfoldable pub total :
      ℕ
      → List (ExecMergeResponse × (ℕ → ℕ) × (ℕ → ℕ))
      → Option MergeSimilarInfo
      → Option MergeSimilarInfo
  total id [] o = o
  total id ((response, end_ids, left) ∷ answers) o =
      total id answers (combine add o (find_result id (results_in response)))

  unfoldable pub total_pow : List (ExecMergeResponse × (ℕ → ℕ) × (ℕ → ℕ)) → ℕ → ℕ
  total_pow [] pow = pow
  total_pow ((response, end_ids, left) ∷ answers) pow =
      total_pow answers (add pow response.query_pow)

  exec_merge_lem :
      (response : ExecMergeResponse) (end_ids left : ℕ → ℕ) (results : Results)
      → RisingResults results.similar
      → Answered (response, end_ids, left)
      → (similar : List MergeSimilarInfo) × (exec_merge add unarchive end_ids left response results
          ≡ ok (record { query_pow = add results.query_pow response.query_pow; similar = similar }))
        × RisingResults similar
        × ((id : ℕ)
            → find_result id similar
              ≡ combine add (find_result id results.similar) (find_result id (results_in response)))
  unfolding exec_merge or_unmerged
  exec_merge_lem response end_ids left results v a =
      let (similar, e, rising, found) =
        merge_threads_result_lem add end_ids results.similar a.first a.others v a.rising a.beyond in
      (
        similar,
        rw (a.found, a.archived, e, a.alone (add results.query_pow response.query_pow)) refl,
        rising,
        λ id. rw (a.archived) (found id),
      )

  -- When every server has found pictures, all results are by rising ids, the ids read behind the end
  -- are greater, and no two threads add to the query power at once, the threads leave
  -- results by rising ids, which have for every picture the sum of what the answers have for it,
  -- and the sum of the answers' weights, both in the order in which the threads add them.
  pub exec_merges_lem :
      (answers : List (ExecMergeResponse × (ℕ → ℕ) × (ℕ → ℕ))) (results : Results)
      → RisingResults results.similar
      → All Answered answers
      → (results' : Results) × (exec_merges add unarchive answers results ≡ ok results')
        × RisingResults results'.similar
        × (results'.query_pow ≡ total_pow answers results.query_pow)
        × ((id : ℕ)
            → find_result id results'.similar ≡ total id answers (find_result id results.similar))
  unfolding exec_merges total total_pow
  exec_merges_lem [] results v a = (results, refl, v, refl, λ id. refl)
  exec_merges_lem ((response, end_ids, left) ∷ answers) results v (a, as_) =
      let (similar, e, rising, found) = exec_merge_lem response end_ids left results v a in
      let next : Results = record {
        query_pow = add results.query_pow response.query_pow;
        similar = similar;
      } in
      let (last, e', rising', pow, found') = exec_merges_lem answers next rising as_ in
      (last, rw e e', rising', pow, λ id. found' id ∙ ap (total id answers) (found id))
