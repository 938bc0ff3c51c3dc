-- ===== src/Compute/MergeProcessor.antt =====
-- image_search/parallel_compute/src/merge_processor.cc: one request of the merging server. A
-- `std::map` is the list of its entries by rising key. The boost archive is a parameter.
pub mod Partition
pub mod Request
use mlsimgsearch.Prelude.{
  ltb, ◌==◌, if◌then◌else◌, length, Outcome, ◌>>=◌, ◌>>◌, must, unless, ok, err, fault, ℕ, zero,
  suc, ◌-◌, ◌/◌, ◌%◌, Bool, true, false, not, List, [], ◌∷◌,
}
use mlsimgsearch.Prelude.Int.{ℤ, pos, negsuc, ltb_ℤ}
use mlsimgsearch.Search.Index.{IndexFile}
use mlsimgsearch.Search.Searcher.{MergeSimilarInfo, QueryWord, FloatOps, Results, eqb_ℤ, merge}

module _ {ℓ} {A : Type ℓ} where
  -- The inner loop of `PartitionData`: `len` entries from the iterator on. At the end of the map
  -- the iterator has no entry.
  unfoldable pub take_part : ℕ → List A → Outcome (List A × List A)
  take_part zero data_ = ok ([], data_)
  take_part (suc len) [] = fault
  take_part (suc len) (x ∷ data_) = do (part, rest) ← take_part len data_; ok (x ∷ part, rest)

  -- The outer loop: `n` parts of `len` entries, and the rest.
  unfoldable pub take_parts : ℕ → ℕ → List A → Outcome (List (List A))
  unfolding take_part
  take_parts zero len data_ = ok (data_ ∷ [])
  take_parts (suc n) len data_ = do
    (part, rest) ← take_part len data_
    parts ← take_parts n len rest
    ok (part ∷ parts)

  -- `PartitionData`. The size is divided by the number of parts.
  unfoldable pub partition_data : ℕ → List A → Outcome (List (List A))
  unfolding take_parts
  partition_data partition_num img_qdata = do
    must (not (partition_num == 0))
    let quotient = length img_qdata / partition_num
    let len = if quotient == 0 then 1 else quotient
    take_parts (partition_num - 1) len img_qdata

-- An `int64_t` key, as its pattern, that is stored as an `int`.
unfoldable pub key_of : ℕ → ℤ
key_of k =
    let low = k % 0x1_0000_0000 in
    if ltb low 0x8000_0000 then pos low else negsuc (0xFFFF_FFFF - low)

-- `insert` into a map: an entry that is there stays.
unfoldable pub insert_word : ℤ → QueryWord → List (ℤ × QueryWord) → List (ℤ × QueryWord)
insert_word k w [] = (k, w) ∷ []
insert_word k w ((k', w') ∷ words) =
    let later = (k', w') ∷ insert_word k w words in
    if eqb_ℤ k k' then (k', w') ∷ words else if ltb_ℤ k k' then (k, w) ∷ (k', w') ∷ words else later

-- `ParseRequest`, into the map that the processor has.
unfoldable pub parse_request : List (ℕ × QueryWord) → List (ℤ × QueryWord) → List (ℤ × QueryWord)
unfolding insert_word key_of
parse_request [] img_qdata = img_qdata
parse_request ((k, w) ∷ request) img_qdata =
    parse_request request (insert_word (key_of k) w img_qdata)

pub record ExecMergeResponse : Type 0 where
  pub ret_num : ℤ
  pub query_pow : ℕ
  pub result_len : ℕ
  pub result : List ℕ

-- `ConstructResult`: `archive` gives the bytes of the results. `unset` is the `query_pow` of a
-- response that is not set.
unfoldable pub construct_result : (List MergeSimilarInfo → List ℕ) → ℕ → Results → ExecMergeResponse
construct_result archive unset results =
    let bytes = archive results.similar in
    if ltb 0 (length bytes)
    then record {
      ret_num = pos 0;
      query_pow = results.query_pow;
      result_len = length results.similar;
      result = bytes;
    }
    else record {
      ret_num = negsuc 0;
      query_pow = unset;
      result_len = length results.similar;
      result = bytes;
    }

abbrev pub no_words : List (ℕ × QueryWord) → Bool
no_words [] = true
no_words (w ∷ ws) = false

abbrev pub merge_error {ℓ} : {A : Type ℓ} → Outcome A → Outcome A
merge_error (ok a) = ok a
merge_error (err n) = err 8
merge_error fault = fault

-- `Merge` of a new processor: its searcher keeps 0 as its first bucket.
unfoldable pub process :
    FloatOps
    → IndexFile
    → ℕ
    → (List MergeSimilarInfo → List ℕ)
    → ℕ
    → (ℕ → ℕ)
    → List (ℕ × QueryWord)
    → Outcome ExecMergeResponse
unfolding parse_request construct_result
process fl index he_threshold archive unset end_ids request = do
  unless (not (no_words request)) 1
  results ← merge_error (merge fl index he_threshold 0 (parse_request request []) end_ids)
  ok (construct_result archive unset results)
