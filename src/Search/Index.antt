-- ===== src/Search/Index.antt =====
-- image_search/bof_core/src/indexer.cc and the two writers of an index, ReducerResultResolver and
-- index_merger of image_search/indexer: the data file with its hints.
pub mod Load
pub mod Merge
use mlsimgsearch.Prelude.{
  ltb, leb, ◌==◌, if◌then◌else◌, length, take, drop, Outcome, ◌>>=◌, ◌>>◌, must, unless, ok, err,
  fault, ℕ, zero, suc, ◌+◌, ◌-◌, ◌%◌, not, ◌&&◌, some, List, [], ◌∷◌, ◌++◌,
}
use mlsimgsearch.Prelude.Int.{ℤ, pos, negsuc}
use mlsimgsearch.Search.Hints.{HinterItem, new_hinter, set_hint, get_hint}
use mlsimgsearch.Search.Serializer.{IndexItem, WordIndex, signed_key, serialize, unserialize}

-- The bytes of the data file, and `items_` of the hinter.
pub record IndexFile : Type 0 where
  pub contents : List ℕ
  pub hints : List HinterItem

-- `Init` on files that are there to be written.
unfoldable pub new_index : ℕ → IndexFile
unfolding new_hinter
new_index bucket_count = record { contents = []; hints = new_hinter bucket_count }

-- The writers do not look at what `SetHint` returns.
unfoldable pub ignore_error :
    List HinterItem → Outcome (List HinterItem) → Outcome (List HinterItem)
ignore_error old (ok new) = ok new
ignore_error old (err n) = ok old
ignore_error old fault = fault

-- One list is appended to the data, and its bucket's hint set to where it stands. `write` is given
-- the size that `Serialize` returned, so all of it must have been written to the buffer.
unfoldable pub write_word : IndexFile → ℤ → WordIndex → Outcome IndexFile
unfolding ignore_error
write_word file bucket_id word = do
  (size, bytes) ← serialize word
  must (size == length bytes)
  let cur_pos = length file.contents
  let end_pos = cur_pos + size
  hints ← ignore_error file.hints (set_hint file.hints bucket_id 0 cur_pos end_pos)
  ok (record { contents = file.contents ++ bytes; hints = hints })

-- An `int64_t` distance where an `int` is wanted.
abbrev pub to_int : ℕ → ℕ
to_int n = n % 0x1_0000_0000

-- An error of `Unserialize` is returned as -3.
unfoldable pub or_unreadable : Outcome WordIndex → Outcome WordIndex
or_unreadable (ok word) = ok word
or_unreadable (err n) = err 3
or_unreadable fault = fault

-- The `int data_len` of a hint: its bytes and the zero behind them.
abbrev pub data_len : HinterItem → ℕ
data_len hint = to_int (hint.end_pos + 0x1_0000_0000_0000_0000 - hint.start_pos + 1)

-- `LoadWord` behind the hint. The bytes of the list are read into a buffer with a zero behind them.
-- A read past the end of the file leaves the buffer unset, which is a fault.
unfoldable pub read_word : List ℕ → HinterItem → Outcome WordIndex
unfolding or_unreadable
read_word contents hint = do
  unless (not (hint.start_pos == hint.end_pos)) 2
  must (ltb 0 (data_len hint) && ltb (data_len hint) 0x8000_0000)
  must (leb (hint.start_pos + (data_len hint - 1)) (length contents))
  let bytes = take (data_len hint - 1) (drop hint.start_pos contents)
  or_unreadable (unserialize (some (bytes ++ 0 ∷ [])))

-- `LoadWord`
unfoldable pub load_word : IndexFile → ℤ → Outcome WordIndex
unfolding read_word
load_word file word_id = do hint ← get_hint file.hints word_id; read_word file.contents hint

-- `merger_words` of index_merger: two lists by rising picture id, the new one first at a tie.
unfoldable pub merge_items : ℕ → List IndexItem → List IndexItem → List IndexItem
merge_items zero old new = []
merge_items (suc fuel) [] new = new
merge_items (suc fuel) (o ∷ old) [] = o ∷ old
merge_items (suc fuel) (o ∷ old) (n ∷ new) =
    let both = n ∷ merge_items fuel old new in
    let older = o ∷ merge_items fuel old (n ∷ new) in
    let newer = n ∷ merge_items fuel (o ∷ old) new in
    if o.pic_id == n.pic_id
    then both
    else if ltb (signed_key o.pic_id) (signed_key n.pic_id)
    then older
    else newer

-- The result keeps the word id of a new `WordIndex`, 0.
unfoldable pub merger_words : WordIndex → WordIndex → WordIndex
unfolding merge_items
merger_words old new = record {
  word_id = 0;
  items = merge_items (suc (length old.items + length new.items)) old.items new.items;
}

abbrev pub fail_as {ℓ} : {A : Type ℓ} → ℕ → Outcome A → Outcome A
fail_as n (ok a) = ok a
fail_as n (err m) = err n
fail_as n fault = fault

-- The loop of index_merger from word `i` on, `k` words.
unfoldable pub merge_loop : ℕ → ℕ → IndexFile → IndexFile → IndexFile → Outcome IndexFile
unfolding merger_words load_word write_word
merge_loop zero i old new saved = ok saved
merge_loop (suc k) i old new saved = do
  old_words ← fail_as 6 (load_word old (pos i))
  new_words ← fail_as 7 (load_word new (pos i))
  saved' ← write_word saved (pos i) (merger_words old_words new_words)
  merge_loop k (suc i) old new saved'

unfoldable pub index_merger : ℕ → IndexFile → IndexFile → Outcome IndexFile
unfolding merge_loop new_index
index_merger k old new = merge_loop k 0 old new (new_index k)
