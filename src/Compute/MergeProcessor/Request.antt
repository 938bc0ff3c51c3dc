-- ===== src/Compute/MergeProcessor/Request.antt =====
-- A request is answered with what the words of its query make of the pictures.
use mlsimgsearch.Prelude.{
  ltb, lt→ltb, length, All, ok, ℕ, ◌<◌, ◌≡◌, refl, sym, ap, ◌∙◌, true, false, none, some, List, [],
  ◌∷◌, ◌++◌, append-nil, append_assoc, arith,
}
use mlsimgsearch.Prelude.Int.{ℤ, pos}
use mlsimgsearch.Search.Serializer.{WordIndex}
use mlsimgsearch.Search.Index.{IndexFile}
use mlsimgsearch.Search.Searcher.{
  MergeSimilarInfo, QueryWord, FloatOps, Results, merge, merge_by_thread,
}
use mlsimgsearch.Search.Searcher.Rising.{RisingResults, find_result}
use mlsimgsearch.Search.Searcher.Words.{Known, expected, expected_pow, merge_by_thread_lem}
use mlsimgsearch.Compute.MergeProcessor.{
  key_of, insert_word, parse_request, construct_result, no_words, process,
}

-- The keys of a request rise and fit an `int`: those of a map of word ids.
abbrev pub RisingKeys : List (ℕ × QueryWord) → Type 0
RisingKeys [] = Unit {0}
RisingKeys ((k, w) ∷ request) =
    (k < 0x8000_0000) × All (λ (k', w'). k < k') request × RisingKeys request

-- The query of a request, by its words.
abbrev pub as_query : List (ℕ × QueryWord) → List (ℤ × QueryWord)
as_query [] = []
as_query ((k, w) ∷ request) = (pos k, w) ∷ as_query request

insert_last :
    (k : ℕ) (w : QueryWord) (words : List (ℕ × QueryWord))
    → All (λ (k', w'). k' < k) words
    → insert_word (pos k) w (as_query words) ≡ as_query words ++ (pos k, w) ∷ []
unfolding insert_word
insert_last k w [] h = refl
insert_last k w ((k', w') ∷ words) (lt, h) = ground (arith, insert_last k w words h)

as_query-append : (xs ys : List (ℕ × QueryWord)) → as_query (xs ++ ys) ≡ as_query xs ++ as_query ys
as_query-append [] ys = refl
as_query-append ((k, w) ∷ xs) ys = ap (◌∷◌ (pos k, w)) (as_query-append xs ys)

All-append_one :
    (k k' : ℕ) (w : QueryWord) (xs : List (ℕ × QueryWord))
    → k < k'
    → All (λ (j, w'). j < k) xs
    → All (λ (j, w'). j < k') (xs ++ (k, w) ∷ [])
All-append_one k k' w [] h p = (h, tt)
All-append_one k k' w ((j, w') ∷ xs) h (pj, p) = (omega (arith, pj), All-append_one k k' w xs h p)

-- What is behind `k` is behind all that is before it.
abbrev Before : List (ℕ × QueryWord) → List (ℕ × QueryWord) → Type 0
Before done [] = Unit {0}
Before done ((k, w) ∷ request) = All (λ (j, w'). j < k) done

key_of-small : (k : ℕ) → k < 0x8000_0000 → key_of k ≡ pos k
unfolding key_of
key_of-small k h = ground arith

parse_request_from :
    (done request : List (ℕ × QueryWord))
    → RisingKeys request
    → Before done request
    → parse_request request (as_query done) ≡ as_query done ++ as_query request
unfolding parse_request
parse_request_from done [] r b = sym (append-nil (as_query done))
parse_request_from done ((k, w) ∷ []) (h, hs, r) b =
    rw (key_of-small k h, insert_last k w done b) refl
parse_request_from done ((k, w) ∷ (k', w') ∷ request) (h, (lt, hs), r) b =
    rw (key_of-small k h, insert_last k w done b, sym (as_query-append done ((k, w) ∷ [])))
      (parse_request_from (done ++ (k, w) ∷ []) ((k', w') ∷ request) r
          (All-append_one k k' w done lt b)
        ∙ ap (λ l. l ++ as_query ((k', w') ∷ request)) (as_query-append done ((k, w) ∷ []))
        ∙ append_assoc (as_query done) ((pos k, w) ∷ []) (as_query ((k', w') ∷ request)))

-- A request with rising keys that fit an `int` is parsed into the same words in the same order.
pub parse_request_lem :
    (request : List (ℕ × QueryWord))
    → RisingKeys request
    → parse_request request [] ≡ as_query request
unfolding parse_request
parse_request_lem [] r = refl
parse_request_lem ((k, w) ∷ request) r = parse_request_from [] ((k, w) ∷ request) r tt

merge_lem :
    (fl : FloatOps) (index : IndexFile) (threshold : ℕ) (query : List (ℤ × QueryWord))
    (end_ids : ℕ → ℕ) (results : Results)
    → merge_by_thread fl index threshold 0 query end_ids ≡ ok results
    → 0 < length results.similar
    → merge fl index threshold 0 query end_ids ≡ ok results
unfolding merge merge_by_thread
merge_lem fl index threshold query end_ids results e h =
    let positive : ltb 0 (length results.similar) ≡ true = lt→ltb _ _ h in rw (e, positive) refl

found_nonempty :
    (id : ℕ) (rs : List MergeSimilarInfo) (info : MergeSimilarInfo)
    → find_result id rs ≡ some info
    → 0 < length rs
unfolding find_result
found_nonempty id [] info e = cc
found_nonempty id (r ∷ rs) info e = omega arith

some_words :
    (fl : FloatOps) (index : IndexFile) (threshold : ℕ) (end_ids : ℕ → ℕ) (lists : ℤ → WordIndex)
    (request : List (ℕ × QueryWord)) (pic : ℕ) (info : MergeSimilarInfo)
    → expected fl index threshold end_ids lists (as_query request) pic none ≡ some info
    → no_words request ≡ false
unfolding expected
some_words fl index threshold end_ids lists [] pic info e = cc
some_words fl index threshold end_ids lists (w ∷ request) pic info e = refl

process_ok :
    (fl : FloatOps) (index : IndexFile) (threshold : ℕ) (archive : List MergeSimilarInfo → List ℕ)
    (unset : ℕ) (end_ids : ℕ → ℕ) (request : List (ℕ × QueryWord)) (results : Results)
    → no_words request ≡ false
    → 0 < length (archive results.similar)
    → merge fl index threshold 0 (parse_request request []) end_ids ≡ ok results
    → process fl index threshold archive unset end_ids request
      ≡ ok (record {
        ret_num = pos 0;
        query_pow = results.query_pow;
        result_len = length results.similar;
        result = archive results.similar;
      })
unfolding process construct_result
process_ok fl index threshold archive unset end_ids request results n a e =
    let positive : ltb 0 (length (archive results.similar)) ≡ true = lt→ltb _ _ a in
    rw (n, e, positive) refl

-- A request of rising word ids, each of whose lists is loaded and rises, and has no item with the id
-- that is read behind the end of the results, is answered with the archive of the results: by rising
-- ids, each picture with what the words make of it, when that is anything for at least one picture
-- `pic` and an archive is never empty.
pub process_lem :
    (fl : FloatOps) (index : IndexFile) (threshold : ℕ) (archive : List MergeSimilarInfo → List ℕ)
    (unset : ℕ) (end_ids : ℕ → ℕ) (lists : ℤ → WordIndex) (request : List (ℕ × QueryWord)) (pic : ℕ)
    (info : MergeSimilarInfo)
    → RisingKeys request
    → All
        (λ (id, word). Known fl index threshold end_ids lists (as_query request) id word)
        (as_query request)
    → ((rs : List MergeSimilarInfo) → 0 < length (archive rs))
    → expected fl index threshold end_ids lists (as_query request) pic none ≡ some info
    → (similar : List MergeSimilarInfo) × (process fl index threshold archive unset end_ids request
        ≡ ok (record {
          ret_num = pos 0;
          query_pow = expected_pow fl index threshold end_ids lists (as_query request) 0;
          result_len = length similar;
          result = archive similar;
        }))
      × RisingResults similar
      × ((id : ℕ)
          → find_result id similar
            ≡ expected fl index threshold end_ids lists (as_query request) id none)
process_lem fl index threshold archive unset end_ids lists request pic info r known full some_info =
    let query = as_query request in
    let (results, e, rising, pow, found) =
      merge_by_thread_lem fl index threshold end_ids lists query known in
    let nonempty = found_nonempty pic results.similar info (found pic ∙ some_info) in
    let merged_ok =
      ap (λ q. merge fl index threshold 0 q end_ids) (parse_request_lem request r)
      ∙ merge_lem fl index threshold query end_ids results e nonempty in
    (
      results.similar,
      process_ok fl index threshold archive unset end_ids request results
            (some_words fl index threshold end_ids lists request pic info some_info)
            (full results.similar) merged_ok
          ∙ ap
              (λ p. ok (record {
                ret_num = pos 0;
                query_pow = p;
                result_len = length results.similar;
                result = archive results.similar;
              }))
              pow,
      rising,
      found,
    )
