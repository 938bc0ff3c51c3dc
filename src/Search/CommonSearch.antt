-- ===== src/Search/CommonSearch.antt =====
-- image_search/searchd/src/common_search.cc: a query is cut into the parts that the merging servers
-- answer, and their answers are merged. Calls of a server, and the archive of its results, are
-- parameters. A `float` is its bit pattern.
pub mod Dispatch
pub mod Combine
pub mod Threads
pub mod Whole
use mlsimgsearch.Prelude.{
  ltb, leb, ◌==◌, if◌then◌else◌, length, Outcome, ◌>>=◌, ◌>>◌, or_fault, must, unless, ok, err,
  fault, ℕ, ◌+◌, Bool, true, false, not, ◌&&◌, Option, List, [], ◌∷◌, ◌++◌,
}
use mlsimgsearch.Prelude.Int.{ℤ, pos, negsuc, pos_part, neg_part}
use mlsimgsearch.Search.Serializer.{signed_key}
use mlsimgsearch.Search.Index.{fail_as}
use mlsimgsearch.Search.Searcher.{MergeSimilarInfo, QueryWord, Results, eqb_ℤ}
use mlsimgsearch.Search.Ranking.{SearchResultItem, RankOps, Searcher, search_result}
use mlsimgsearch.Compute.MergeProcessor.{ExecMergeResponse}

pub record IpAddress : Type 0 where
  pub ip : List ℕ
  pub port : ℕ

-- The words from `begin_id` to `end_id` are answered by the servers.
pub record MergeConf : Type 0 where
  pub begin_id : ℤ
  pub end_id : ℤ
  pub servers : List IpAddress

pub record ServerToData : Type 0 where
  pub servers : List IpAddress
  pub img_qdata : List (ℤ × QueryWord)

abbrev pub leb_ℤ : ℤ → ℤ → Bool
leb_ℤ a b = leb (pos_part a + neg_part b) (pos_part b + neg_part a)

abbrev pub is_nil {ℓ} : {A : Type ℓ} → List A → Bool
is_nil [] = true
is_nil (x ∷ xs) = false

abbrev pub nothing_yet : ServerToData
nothing_yet = record { servers = []; img_qdata = [] }

-- A part is pushed back. Its line in the log reads the first server.
unfoldable pub push_part : ServerToData → List ServerToData → Outcome (List ServerToData)
push_part part parts = do must (not (is_nil part.servers)); ok (part ∷ parts)

-- A word is put into the part. The words come by rising id, so `insert` puts it last.
unfoldable pub add_word : MergeConf → ServerToData → ℤ × QueryWord → ServerToData
add_word conf part word = record {
  servers = if is_nil part.servers then conf.servers else part.servers;
  img_qdata = part.img_qdata ++ word ∷ [];
}

-- The part is left, if it has words.
unfoldable pub close_part : ServerToData → List ServerToData → Outcome (List ServerToData)
unfolding push_part
close_part part parts = if is_nil part.img_qdata then ok parts else push_part part parts

unfoldable pub after_close : ServerToData → ServerToData
after_close part = if is_nil part.img_qdata then part else nothing_yet

-- The loop of `DispatchData` at a range, with the ranges behind it and the part in work: the parts
-- that are pushed from here on. It ends without an error behind the last range.
unfoldable pub dispatch_from :
    MergeConf → List MergeConf → ServerToData → List (ℤ × QueryWord) → Outcome (List ServerToData)
unfolding push_part add_word close_part after_close
dispatch_from conf confs part [] = ok []
dispatch_from conf [] part ((id, word) ∷ words) =
    let part' = add_word conf part (id, word) in
    let others = dispatch_from conf [] part' words in
    if leb_ℤ conf.begin_id id && leb_ℤ id conf.end_id
    then (if is_nil words then push_part part' [] else others)
    else close_part part []
dispatch_from conf (next ∷ confs) part ((id, word) ∷ words) =
    let part' = add_word conf part (id, word) in
    let others = dispatch_from conf (next ∷ confs) part' words in
    let behind =
      dispatch_from next confs (after_close part) ((id, word) ∷ words) >>= close_part part in
    if leb_ℤ conf.begin_id id && leb_ℤ id conf.end_id
    then (if is_nil words then push_part part' [] else others)
    else behind

-- `DispatchData`. With no range at all the first one is read nevertheless.
unfoldable pub dispatch_data : List MergeConf → List (ℤ × QueryWord) → Outcome (List ServerToData)
unfolding dispatch_from
dispatch_data confs [] = err 1
dispatch_data [] (word ∷ words) = fault
dispatch_data (conf ∷ confs) (word ∷ words) = dispatch_from conf confs nothing_yet (word ∷ words)

-- `+=` of two floats.
module _ (add : ℕ → ℕ → ℕ) where
  unfoldable pub add_info : MergeSimilarInfo → MergeSimilarInfo → MergeSimilarInfo
  add_info c t = record { pic_id = c.pic_id; sim = add c.sim t.sim; pow = add c.pow t.pow }

  -- The loop of `MergeThreadsResult` with `it_curr` at the end of the results. The code reads an id
  -- there, which is `end_ids n` when `n` items are left behind the item. To go on behind the end,
  -- or to write there, is a fault.
  unfoldable pub merge_at_end : (ℕ → ℕ) → List MergeSimilarInfo → Outcome (List MergeSimilarInfo)
  merge_at_end end_ids [] = ok []
  merge_at_end end_ids (t ∷ ts) =
      let others = merge_at_end end_ids ts >>= λ rs. ok (t ∷ rs) in
      if leb (signed_key (end_ids (length ts))) (signed_key t.pic_id) then fault else others

  -- The loop from `it_curr` on: what stands from there on afterwards.
  unfoldable pub merge_from :
      (ℕ → ℕ) → List MergeSimilarInfo → List MergeSimilarInfo → Outcome (List MergeSimilarInfo)
  unfolding merge_at_end add_info
  merge_from end_ids cur [] = ok cur
  merge_from end_ids [] (t ∷ ts) = merge_at_end end_ids (t ∷ ts)
  merge_from end_ids (c ∷ []) (t ∷ ts) =
      let both = merge_at_end end_ids ts >>= λ rs. ok (add_info c t ∷ rs) in
      let pushed = merge_at_end end_ids ts >>= λ rs. ok (c ∷ t ∷ rs) in
      let inserted = merge_from end_ids (c ∷ []) ts >>= λ rs. ok (t ∷ rs) in
      if ltb (signed_key c.pic_id) (signed_key t.pic_id)
      then pushed
      else if c.pic_id == t.pic_id
      then both
      else inserted
  merge_from end_ids (c ∷ c' ∷ cur) (t ∷ ts) =
      let both = merge_from end_ids (c' ∷ cur) ts >>= λ rs. ok (add_info c t ∷ rs) in
      let passed = merge_from end_ids (c' ∷ cur) (t ∷ ts) >>= λ rs. ok (c ∷ rs) in
      let inserted = merge_from end_ids (c ∷ c' ∷ cur) ts >>= λ rs. ok (t ∷ rs) in
      if ltb (signed_key c.pic_id) (signed_key t.pic_id)
      then passed
      else if c.pic_id == t.pic_id
      then both
      else inserted

  -- `MergeThreadsResult`
  unfoldable pub merge_threads_result :
      (ℕ → ℕ) → List MergeSimilarInfo → List MergeSimilarInfo → Outcome (List MergeSimilarInfo)
  unfolding merge_from
  merge_threads_result end_ids similar [] = err 1
  merge_threads_result end_ids [] (t ∷ ts) = ok (t ∷ ts)
  merge_threads_result end_ids (c ∷ cur) (t ∷ ts) = merge_from end_ids (c ∷ cur) (t ∷ ts)

-- The list of results is changed only where `MergeThreadsResult` succeeds.
unfoldable pub or_unmerged :
    List MergeSimilarInfo → Outcome (List MergeSimilarInfo) → Outcome (List MergeSimilarInfo)
or_unmerged old (ok new) = ok new
or_unmerged old (err n) = ok old
or_unmerged old fault = fault

-- `result_similar_` and `query_pow_` are added to by each thread. `unarchive` reads a number of
-- results from the bytes of an archive, and throws when they are not there.
module _ (add : ℕ → ℕ → ℕ) (unarchive : ℕ → List ℕ → Option (List MergeSimilarInfo)) where
  -- `ExecMerge` behind the call of the server. What it returns is not looked at. The lock is taken
  -- behind the addition to `query_pow_`, which other threads read and store meanwhile: `left` is what
  -- they make of the sum, and is the identity when no other thread adds at the same time.
  unfoldable pub exec_merge : (ℕ → ℕ) → (ℕ → ℕ) → ExecMergeResponse → Results → Outcome Results
  unfolding merge_threads_result or_unmerged
  exec_merge end_ids left response results =
      let merged_ = do
        thread_result ← or_fault (unarchive response.result_len response.result)
        similar ←
            or_unmerged results.similar
              (merge_threads_result add end_ids results.similar thread_result)
        ok (record {
          query_pow = left (add results.query_pow response.query_pow);
          similar = similar;
        })
      in if eqb_ℤ response.ret_num (pos 0) then merged_ else ok results

  -- The threads of `ParallelRequester`, in the order in which they take the lock. Each comes with
  -- what it reads behind the end, and with what is left of its addition.
  unfoldable pub exec_merges :
      List (ExecMergeResponse × (ℕ → ℕ) × (ℕ → ℕ)) → Results → Outcome Results
  unfolding exec_merge
  exec_merges [] results = ok results
  exec_merges ((response, end_ids, left) ∷ answers) results = do
    results' ← exec_merge end_ids left response results
    exec_merges answers results'

  -- `Process` behind the quantizer: `answers` are those of the servers to the parts, by the order
  -- of the threads. The searcher is a new one.
  unfoldable pub process_query :
      RankOps
      → (List ServerToData → List (ExecMergeResponse × (ℕ → ℕ) × (ℕ → ℕ)))
      → List MergeConf
      → List (ℤ × QueryWord)
      → Results
      → Searcher
      → Outcome (List SearchResultItem)
  unfolding dispatch_data exec_merges search_result
  process_query ops answers confs img_qdata results searcher = do
    parts ← fail_as 5 (dispatch_data confs img_qdata)
    unless (not (is_nil parts)) 5
    results' ← exec_merges (answers parts) results
    ok (search_result ops results'.similar results'.query_pow searcher)

-- `ClearMergeData`, with which `Process` ends.
unfoldable pub clear_merge_data : Results → Results
clear_merge_data results = record { query_pow = 0; similar = [] }
