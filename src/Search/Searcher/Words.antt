-- ===== src/Search/Searcher/Words.antt =====
-- All words of a query: `Merge` and `MergeByThread`.
use mlsimgsearch.Prelude.{All, ok, ℕ, ◌≡◌, refl, ap, ◌∙◌, false, Option, none, List, [], ◌∷◌, arith}
use mlsimgsearch.Prelude.Int.{ℤ, pos, negsuc, ◌-ℤ◌}
use mlsimgsearch.Search.Hamming.{he_string2int}
use mlsimgsearch.Search.Serializer.{WordIndex}
use mlsimgsearch.Search.Index.{IndexFile, load_word}
use mlsimgsearch.Search.Index.Merge.{Rising, find_pic}
use mlsimgsearch.Search.Searcher.{
  MergeSimilarInfo, FloatOps, QueryWord, Results, or_empty, query_at, merge_results,
  merge_bucket_result, merge_words, merge_by_thread,
}
use mlsimgsearch.Search.Searcher.Rising.{RisingResults, find_result}
use mlsimgsearch.Search.Searcher.Place.{merged}
use mlsimgsearch.Search.Searcher.Merge.{Unread, find_result-merge_results}

module _ (fl : FloatOps) (index : IndexFile) (threshold : ℕ) (end_ids : ℕ → ℕ)
    (lists : ℤ → WordIndex) where
  -- A word of the query that is its own entry and whose list is loaded and rises.
  pub record Known (query : List (ℤ × QueryWord)) (id : ℤ) (word : QueryWord) : Type 0 where
    pub entry : query_at query id ≡ word
    pub loaded : load_word index id ≡ ok (lists id)
    pub rising : Rising (lists id).items
    pub unread : Unread end_ids (lists id).items

  -- What the words make of one picture.
  unfoldable pub expected :
      List (ℤ × QueryWord) → ℕ → Option MergeSimilarInfo → Option MergeSimilarInfo
  unfolding merged
  expected [] pic r = r
  expected ((id, word) ∷ words) pic r = expected words pic (
      merged fl threshold word.q (or_empty (he_string2int false word.he))
        (find_pic pic (lists id).items) r)

  -- The sum of the squares of the query's weights.
  unfoldable pub expected_pow : List (ℤ × QueryWord) → ℕ → ℕ
  expected_pow [] pow = pow
  expected_pow ((id, word) ∷ words) pow = expected_pow words (fl.add_square pow word.q)

  minus_zero : (id : ℤ) → (id -ℤ pos 0) ≡ id
  unfolding ◌-ℤ◌
  minus_zero (pos n) = ground arith
  minus_zero (negsuc n) = ground arith

  merge_bucket_result_lem :
      (query : List (ℤ × QueryWord)) (id : ℤ) (word : QueryWord) (results : Results)
      (similar : List MergeSimilarInfo)
      → Known query id word
      → merge_results fl threshold word.q
          (or_empty (he_string2int false word.he))
          end_ids
          (lists id).items
          results.similar
        ≡ ok similar
      → merge_bucket_result fl index threshold 0 query end_ids id results
        ≡ ok (record { query_pow = fl.add_square results.query_pow word.q; similar = similar })
  unfolding merge_bucket_result
  merge_bucket_result_lem query id word results similar v e =
      rw (minus_zero id, v.loaded, v.entry, e) refl

  merge_words_lem :
      (query words : List (ℤ × QueryWord)) (results : Results)
      → All (λ (id, word). Known query id word) words
      → RisingResults results.similar
      → (results' : Results) × (merge_words fl index threshold 0 query end_ids words results
          ≡ ok results')
        × RisingResults results'.similar
        × (results'.query_pow ≡ expected_pow words results.query_pow)
        × ((pic : ℕ)
            → find_result pic results'.similar
              ≡ expected words pic (find_result pic results.similar))
  unfolding merge_words expected expected_pow
  merge_words_lem query [] results v p = (results, refl, p, refl, λ pic. refl)
  merge_words_lem query ((id, word) ∷ words) results (v, vs) p =
      let he = or_empty (he_string2int false word.he) in
      let (similar, e, rising, found) =
        find_result-merge_results fl threshold word.q he end_ids (lists id).items results.similar
          v.rising p v.unread in
      let next : Results = record {
        query_pow = fl.add_square results.query_pow word.q;
        similar = similar;
      } in
      let (last, e', rising', pow, found') = merge_words_lem query words next vs rising in
      (
        last,
        rw (merge_bucket_result_lem query id word results similar v e) e',
        rising',
        pow,
        λ pic. found' pic ∙ ap (expected words pic) (found pic),
      )

-- With the lists numbered from 0, every word of the query its own entry and its list loaded and
-- rising, `MergeByThread` promises the results that the words make of each picture, by rising ids,
-- and the sum of the squares of the weights.
pub merge_by_thread_lem :
    (fl : FloatOps) (index : IndexFile) (threshold : ℕ) (end_ids : ℕ → ℕ) (lists : ℤ → WordIndex)
    (query : List (ℤ × QueryWord))
    → All (λ (id, word). Known fl index threshold end_ids lists query id word) query
    → (results : Results) × (merge_by_thread fl index threshold 0 query end_ids ≡ ok results)
      × RisingResults results.similar
      × (results.query_pow ≡ expected_pow fl index threshold end_ids lists query 0)
      × ((pic : ℕ)
          → find_result pic results.similar
            ≡ expected fl index threshold end_ids lists query pic none)
unfolding merge_by_thread find_result
merge_by_thread_lem fl index threshold end_ids lists query v =
    merge_words_lem fl index threshold end_ids lists query query
      (record { query_pow = 0; similar = [] }) v tt
