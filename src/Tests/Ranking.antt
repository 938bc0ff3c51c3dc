-- ===== src/Tests/Ranking.antt =====
-- Queries of one and two words: ranked, and sent to two servers.
use mlsimgsearch.Prelude.{
  ltb, ◌==◌, if◌then◌else◌, get_or, All, ok, ℕ, ◌+◌, ◌≡◌, refl, inl, inr, Option, none, some, List,
  [], ◌∷◌, arith,
}
use mlsimgsearch.Prelude.Int.{ℤ, pos}
use mlsimgsearch.Search.Serializer.{signed_key}
use mlsimgsearch.Search.Searcher.{MergeSimilarInfo, QueryWord, Results, merge_by_thread}
use mlsimgsearch.Search.Searcher.Rising.{RisingResults, find_result}
use mlsimgsearch.Search.Searcher.Words.{expected, expected_pow}
use mlsimgsearch.Search.Ranking.{SearchResultItem, RankOps, Searcher, search_result}
use mlsimgsearch.Search.Ranking.Scores.{find_sim, ranked}
use mlsimgsearch.Search.Ranking.Order.{IsOrdered, Descending, search_result-merge_by_thread}
use mlsimgsearch.Search.CommonSearch.{
  MergeConf, ServerToData, dispatch_data, merge_threads_result, process_query, clear_merge_data,
}
use mlsimgsearch.Search.CommonSearch.Dispatch.{
  Ranges, RisingWords, Covered, Served, words_of, dispatch_data_lem,
}
use mlsimgsearch.Search.CommonSearch.Combine.{combine, merge_threads_result_lem}
use mlsimgsearch.Search.CommonSearch.Threads.{Answered, total, total_pow}
use mlsimgsearch.Search.CommonSearch.Whole.{process_query_lem}
use mlsimgsearch.Compute.MergeProcessor.{ExecMergeResponse}
use mlsimgsearch.Compute.MergeProcessor.Request.{as_query}
use mlsimgsearch.Tests.Index.{both_index, whole, request, lists, All-Known}

-- Whole numbers in place of floats, in steps of a tenth.
abbrev tenths : RankOps
tenths = record {
  is_positive = λ a. ltb 0 a;
  cosine = λ sim pow query_pow. sim;
  is_enough = λ a. ltb 1 a;
  greater = λ a b. ltb b a;
}

tenths-IsOrdered : IsOrdered tenths
tenths-IsOrdered = record {
  asymm = λ a b _ _ h. ground arith;
  trans = λ a b c _ _ _ h k. ground arith;
}

abbrev searcher : Searcher
searcher = record { merged_ = record { query_pow = 0; similar = [] }; items = [] }

search_result-merge_by_thread_example :
    (results : Results) × (merge_by_thread whole both_index 10 0 (as_query request) (λ n. 0)
      ≡ ok results)
    × Descending tenths (search_result tenths results.similar results.query_pow searcher)
    × ((pic : ℕ)
        → find_sim pic (search_result tenths results.similar results.query_pow searcher)
          ≡ ranked tenths
              (expected_pow whole both_index 10 (λ n. 0) lists (as_query request) 0)
              (expected whole both_index 10 (λ n. 0) lists (as_query request) pic none))
search_result-merge_by_thread_example =
    search_result-merge_by_thread whole tenths both_index 10 (λ n. 0) lists (as_query request)
      searcher tenths-IsOrdered All-Known

-- Words 0 to 9 are on one server, and words 10 to 19 on another.
abbrev low_words : MergeConf
low_words = record {
  begin_id = pos 0;
  end_id = pos 9;
  servers = record { ip = b'a' ∷ []; port = 7890 } ∷ [];
}

abbrev high_words : MergeConf
high_words = record {
  begin_id = pos 10;
  end_id = pos 19;
  servers = record { ip = b'b' ∷ []; port = 7980 } ∷ [];
}

two-Ranges : Ranges (low_words ∷ high_words ∷ [])
two-Ranges = (omega arith, refl, (omega arith, tt), (omega arith, refl, tt, tt))

abbrev any_word : QueryWord
any_word = record { q = 1; he = [] }

abbrev two_words : List (ℤ × QueryWord)
two_words = (pos 3, any_word) ∷ (pos 12, any_word) ∷ []

two_words-RisingWords : RisingWords two_words
two_words-RisingWords = ((omega arith, tt), (tt, tt))

two_words-Covered : All (λ (id, word). Covered (low_words ∷ high_words ∷ []) id) two_words
two_words-Covered = (inl (omega arith, omega arith), (inr (inl (omega arith, omega arith)), tt))

dispatch_data_lem_example :
    (parts : List ServerToData) × (dispatch_data (low_words ∷ high_words ∷ []) two_words ≡ ok parts)
    × (words_of parts ≡ two_words)
    × All (Served (low_words ∷ high_words ∷ [])) parts
dispatch_data_lem_example =
    dispatch_data_lem low_words (high_words ∷ []) (pos 3) any_word ((pos 12, any_word) ∷ [])
      two-Ranges two_words-RisingWords two_words-Covered

abbrev info : ℕ → ℕ → MergeSimilarInfo
info pic_id sim = record { pic_id = pic_id; sim = sim; pow = 1 }

abbrev low_results : List MergeSimilarInfo
low_results = info 4 2 ∷ info 9 1 ∷ []

abbrev high_results : List MergeSimilarInfo
high_results = info 4 3 ∷ info 7 1 ∷ info 12 5 ∷ []

low-RisingResults : RisingResults low_results
unfolding signed_key
low-RisingResults = (omega arith, (omega arith, tt), (omega arith, tt, tt))

high-RisingResults : RisingResults high_results
unfolding signed_key
high-RisingResults = (
  omega arith,
  (omega arith, (omega arith, tt)),
  (omega arith, (omega arith, tt), (omega arith, tt, tt)),
)

merge_threads_result_lem_example :
    (rs : List MergeSimilarInfo) × (merge_threads_result
        (λ a b. a + b)
        (λ n. 100)
        low_results
        high_results
      ≡ ok rs)
    × RisingResults rs
    × ((id : ℕ)
        → find_result id rs
          ≡ combine (λ a b. a + b) (find_result id low_results) (find_result id high_results))
unfolding signed_key
merge_threads_result_lem_example =
    merge_threads_result_lem (λ a b. a + b) (λ n. 100) low_results (info 4 3)
      (info 7 1 ∷ info 12 5 ∷ []) low-RisingResults high-RisingResults
      (omega arith, (omega arith, (omega arith, tt)))

-- An archive is a byte for each of two lists of results.
abbrev unarchive : ℕ → List ℕ → Option (List MergeSimilarInfo)
unarchive n bytes = if get_or bytes 0 0 == 0 then some low_results else some high_results

abbrev response : ℕ → ExecMergeResponse
response k = record { ret_num = pos 0; query_pow = 1; result_len = 2; result = k ∷ [] }

-- The threads for the two parts, the second one first.
abbrev answers : List ServerToData → List (ExecMergeResponse × (ℕ → ℕ) × (ℕ → ℕ))
answers parts = (response 1, (λ n. 100), (λ pow. pow)) ∷ (response 0, (λ n. 100), (λ pow. pow)) ∷ []

All-Answered : (parts : List ServerToData) → All (Answered (λ a b. a + b) unarchive) (answers parts)
unfolding signed_key
All-Answered parts = (
  record {
    found = refl;
    first = info 4 3;
    others = info 7 1 ∷ info 12 5 ∷ [];
    archived = refl;
    rising = high-RisingResults;
    beyond = (omega arith, (omega arith, (omega arith, tt)));
    alone = λ pow. refl;
  },
  (
    record {
      found = refl;
      first = info 4 2;
      others = info 9 1 ∷ [];
      archived = refl;
      rising = low-RisingResults;
      beyond = (omega arith, (omega arith, tt));
      alone = λ pow. refl;
    },
    tt,
  ),
)

process_query_lem_example :
    (parts : List ServerToData) × (items : List SearchResultItem) × (process_query
        (λ a b. a + b)
        unarchive
        tenths
        answers
        (low_words ∷ high_words ∷ [])
        two_words
        (clear_merge_data (record { query_pow = 0; similar = [] }))
        searcher
      ≡ ok items)
    × (words_of parts ≡ two_words)
    × All (Served (low_words ∷ high_words ∷ [])) parts
    × Descending tenths items
    × ((pic : ℕ)
        → find_sim pic items
          ≡ ranked tenths
              (total_pow (λ a b. a + b) unarchive (answers parts) 0)
              (total (λ a b. a + b) unarchive pic (answers parts) none))
process_query_lem_example =
    process_query_lem (λ a b. a + b) unarchive tenths answers low_words (high_words ∷ []) (pos 3)
      any_word ((pos 12, any_word) ∷ []) (record { query_pow = 0; similar = [] }) searcher
      two-Ranges two_words-RisingWords two_words-Covered tenths-IsOrdered
      (λ parts _ _. All-Answered parts)
