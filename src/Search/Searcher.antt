-- ===== src/Search/Searcher.antt =====
-- image_search/bof_core/src/searcher.cc: the pictures that share words with a query, by their ids.
-- A `float` is its bit pattern. Its operations are a parameter. `wgc_angle_` has no part in the
-- result: no angle is ever added to it.
pub mod Rising
pub mod Place
pub mod Merge
pub mod Words
use mlsimgsearch.Prelude.{
  ltb, ◌==◌, if◌then◌else◌, length, Outcome, ◌>>=◌, ◌>>◌, unless, ok, err, fault, ℕ, Bool, false,
  Option, none, some, List, [], ◌∷◌, ◌++◌,
}
use mlsimgsearch.Prelude.Int.{ℤ, pos, negsuc, ◌-ℤ◌}
use mlsimgsearch.Search.Hamming.{he_string2int, he_distance}
use mlsimgsearch.Search.Serializer.{IndexItem, WordIndex, signed_key}
use mlsimgsearch.Search.Index.{IndexFile, load_word}

pub record MergeSimilarInfo : Type 0 where
  pub pic_id : ℕ
  pub sim : ℕ
  pub pow : ℕ

-- `BOFQuantizeResult`: the weight of a word in the query, and its signatures.
pub record QueryWord : Type 0 where
  pub q : ℕ
  pub he : List ℕ

-- What `MergeBucketResult` does with floats: `acc += a * b`, `acc += pow(a, 2)` and `a > 0.f`.
pub record FloatOps : Type 0 where
  pub add_product : ℕ → ℕ → ℕ → ℕ
  pub add_square : ℕ → ℕ → ℕ
  pub is_positive : ℕ → Bool

abbrev pub or_zero : Option ℕ → ℕ
or_zero none = 0
or_zero (some n) = n

-- `he_similar_num`, which is set to 0 before the call.
unfoldable pub he_similar_num : ℕ → List ℕ → IndexItem → ℕ
he_similar_num threshold query_he item = or_zero (he_distance threshold item.he query_he)

abbrev pub to_list : Option MergeSimilarInfo → List MergeSimilarInfo
to_list none = []
to_list (some info) = info ∷ []

module _ (fl : FloatOps) (threshold query_weight : ℕ) (query_he : List ℕ) where
  open fl use {add_product, add_square, is_positive}

  -- The picture is among the results.
  unfoldable pub add_to : IndexItem → MergeSimilarInfo → MergeSimilarInfo
  unfolding he_similar_num
  add_to item r = if he_similar_num threshold query_he item == 0 then r else record {
    pic_id = r.pic_id;
    sim = add_product r.sim item.weight query_weight;
    pow = add_square r.pow item.weight;
  }

  -- The picture is not: what is inserted for it.
  unfoldable pub first_info : IndexItem → Option MergeSimilarInfo
  unfolding he_similar_num
  first_info item =
      let info : MergeSimilarInfo = record {
        pic_id = item.pic_id;
        sim = add_product 0 item.weight query_weight;
        pow = add_square 0 item.weight;
      } in
      if he_similar_num threshold query_he item == 0
      then none
      else if is_positive info.pow
      then some info
      else none

  -- The rounds of the loop for one item: the results that `it_result_cur` leaves behind, and those
  -- from it on. At the end of the list the code reads an id behind it: that id is `end_id`, and
  -- to use it is a fault.
  unfoldable pub place :
      ℕ
      → IndexItem
      → List MergeSimilarInfo
      → Outcome (List MergeSimilarInfo × List MergeSimilarInfo)
  unfolding add_to first_info
  place end_id item [] = if item.pic_id == end_id then fault else ok (to_list (first_info item), [])
  place end_id item (r ∷ rest) =
      let further = place end_id item rest >>= λ (before, after). ok (r ∷ before, after) in
      if item.pic_id == r.pic_id
      then ok (add_to item r ∷ [], rest)
      else if ltb (signed_key item.pic_id) (signed_key r.pic_id)
      then ok (to_list (first_info item), r ∷ rest)
      else further

  -- The whole loop, from `it_result_cur` on. `end_ids n` is what is found behind the end when `n`
  -- items are left.
  unfoldable pub merge_results :
      (ℕ → ℕ) → List IndexItem → List MergeSimilarInfo → Outcome (List MergeSimilarInfo)
  unfolding place
  merge_results end_ids [] rest = ok rest
  merge_results end_ids (item ∷ items) rest = do
    (before, after) ← place (end_ids (length items)) item rest
    others ← merge_results end_ids items after
    ok (before ++ others)

abbrev pub eqb_ℤ : ℤ → ℤ → Bool
eqb_ℤ (pos a) (pos b) = a == b
eqb_ℤ (negsuc a) (negsuc b) = a == b
eqb_ℤ (pos a) (negsuc b) = false
eqb_ℤ (negsuc a) (pos b) = false

-- `(*query_data_)[bucket]`. A missing word is added as an empty one; it stands before the word
-- that the loop is at, and is not visited.
unfoldable pub query_at : List (ℤ × QueryWord) → ℤ → QueryWord
query_at [] bucket = record { q = 0; he = [] }
query_at ((id, word) ∷ words) bucket = if eqb_ℤ id bucket then word else query_at words bucket

-- `query_pow_` and `result_similar_`.
pub record Results : Type 0 where
  pub query_pow : ℕ
  pub similar : List MergeSimilarInfo

abbrev pub or_empty : Option (List ℕ) → List ℕ
or_empty none = []
or_empty (some words) = words

module _ (fl : FloatOps) (index : IndexFile) (threshold begin_bucket_id : ℕ)
    (query : List (ℤ × QueryWord)) where
  -- `MergeBucketResult`. Its error is that the list of the word cannot be loaded.
  unfoldable pub merge_bucket_result : (ℕ → ℕ) → ℤ → Results → Outcome Results
  unfolding merge_results query_at
  merge_bucket_result end_ids word_id results = do
    let bucket = word_id -ℤ pos begin_bucket_id
    word_index ← load_word index bucket
    let word = query_at query bucket
    let query_he = or_empty (he_string2int false word.he)
    similar ← merge_results fl threshold word.q query_he end_ids word_index.items results.similar
    ok (record { query_pow = fl.add_square results.query_pow word.q; similar = similar })

  -- `Merge` and `MergeByThread` only log the error of a word.
  abbrev pub or_as_before : Results → Outcome Results → Outcome Results
  or_as_before results (ok results') = ok results'
  or_as_before results (err n) = ok results
  or_as_before results fault = fault

  unfoldable pub merge_words : (ℕ → ℕ) → List (ℤ × QueryWord) → Results → Outcome Results
  unfolding merge_bucket_result
  merge_words end_ids [] results = ok results
  merge_words end_ids ((id, word) ∷ words) results = do
    results' ← or_as_before results (merge_bucket_result end_ids id results)
    merge_words end_ids words results'

  -- `MergeByThread` promises the results.
  unfoldable pub merge_by_thread : (ℕ → ℕ) → Outcome Results
  unfolding merge_words
  merge_by_thread end_ids = merge_words end_ids query (record { query_pow = 0; similar = [] })

  -- `Merge`
  unfoldable pub merge : (ℕ → ℕ) → Outcome Results
  unfolding merge_words
  merge end_ids = do
    results ← merge_words end_ids query (record { query_pow = 0; similar = [] })
    unless (ltb 0 (length results.similar)) 2
    ok results
