-- ===== src/Tests/Index.antt =====
-- Indexes of one word, their merge, and a query of that word.
use mlsimgsearch.Prelude.{
  ltb, length, replicate, All, concat, from, ok, ℕ, ◌+◌, ◌*◌, ◌≡◌, refl, sym, subst, none, some,
  List, [], ◌∷◌, arith,
}
use mlsimgsearch.Prelude.Int.{ℤ, pos}
use mlsimgsearch.Search.Serializer.{WordIndex, signed_key}
use mlsimgsearch.Search.Hamming.{
  he_string2int, he_distance, words_of_chars, distance_rows, distance_row, near, count_one,
  word_of_chars, digit_value, off_value,
}
use mlsimgsearch.Search.Index.{IndexFile, write_word, load_word, merger_words, index_merger}
use mlsimgsearch.Search.Index.Load.{Fits, extended, load_extended, load_word-write_word}
use mlsimgsearch.Search.Index.Merge.{Rising, find_pic, index_merger_lem}
use mlsimgsearch.Search.Searcher.{
  MergeSimilarInfo, first_info, QueryWord, FloatOps, merge_results, query_at,
}
use mlsimgsearch.Search.Searcher.Rising.{RisingResults, find_result}
use mlsimgsearch.Search.Searcher.Place.{merged}
use mlsimgsearch.Search.Searcher.Merge.{Unread, find_result-merge_results}
use mlsimgsearch.Search.Searcher.Words.{Known, expected, expected_pow}
use mlsimgsearch.Compute.MergeProcessor.{partition_data, process}
use mlsimgsearch.Compute.MergeProcessor.Partition.{partition_data_lem}
use mlsimgsearch.Compute.MergeProcessor.Request.{RisingKeys, as_query, process_lem}
use mlsimgsearch.Tests.Search.{sevens, both, sevens-Fits, both-Fits}

-- An index for two words.
abbrev empty_index : IndexFile
empty_index = record {
  contents = [];
  hints =
      record { start_pos = 0; end_pos = 0; bucket_size = 0 }
      ∷ record { start_pos = 0; end_pos = 0; bucket_size = 0 }
      ∷ [];
}

-- Word 0 has picture 7.
abbrev pub seven_index : IndexFile
seven_index = extended empty_index 0 sevens

load_word-write_word_example :
    (file' : IndexFile) × (write_word empty_index (pos 0) sevens ≡ ok file')
    × (load_word file' (pos 0) ≡ ok sevens)
load_word-write_word_example = load_word-write_word empty_index 0 sevens (omega arith) sevens-Fits

pub seven_loaded : load_word seven_index (pos 0) ≡ ok sevens
seven_loaded = load_extended empty_index 0 sevens (omega arith) sevens-Fits

sevens-Rising : Rising sevens.items
sevens-Rising = (omega arith, tt, tt)

pub both-Rising : Rising both.items
unfolding signed_key
both-Rising = (omega arith, (omega arith, tt), (omega arith, tt, tt))

-- Pictures 7 and 9 of one word, merged with picture 7 again.
abbrev pub both_index : IndexFile
both_index = extended empty_index 0 both

both_loaded : load_word both_index (pos 0) ≡ ok both
both_loaded = load_extended empty_index 0 both (omega arith) both-Fits

merged_both : merger_words sevens both ≡ both
unfolding merger_words
merged_both = refl

index_merger_lem_example :
    (saved : IndexFile) × (index_merger 1 seven_index both_index ≡ ok saved)
    × All (λ j. load_word saved (pos j) ≡ ok (merger_words sevens both)) (from 0 1)
index_merger_lem_example =
    index_merger_lem 1 seven_index both_index (λ j. sevens) (λ j. both) (seven_loaded, tt)
      (both_loaded, tt) (subst Fits (sym merged_both) both-Fits, tt)

-- Whole numbers in place of floats.
abbrev pub whole : FloatOps
whole = record {
  add_product = λ acc a b. acc + a * b;
  add_square = λ acc a. acc + a * a;
  is_positive = λ a. ltb 0 a;
}

abbrev four_results : List MergeSimilarInfo
four_results =
    record { pic_id = 4; sim = 2; pow = 5 } ∷ record { pic_id = 9; sim = 1; pow = 1 } ∷ []

four-RisingResults : RisingResults four_results
unfolding signed_key
four-RisingResults = (omega arith, (omega arith, tt), (omega arith, tt, tt))

both-Unread : Unread (λ n. 0) both.items
both-Unread = ((λ e. omega (arith, e)), ((λ e. omega (arith, e)), tt))

find_result-merge_results_example :
    (rs : List MergeSimilarInfo) × (merge_results whole 10 2
        (0xFF ∷ [])
        (λ n. 0)
        both.items
        four_results
      ≡ ok rs)
    × RisingResults rs
    × ((id : ℕ)
        → find_result id rs
          ≡ merged whole 10 2 (0xFF ∷ []) (find_pic id both.items) (find_result id four_results))
find_result-merge_results_example =
    find_result-merge_results whole 10 2 (0xFF ∷ []) (λ n. 0) both.items four_results both-Rising
      four-RisingResults both-Unread

-- Word 0 with the signature 0xFF.
abbrev query_word : QueryWord
query_word = record { q = 2; he = b'F' ∷ b'F' ∷ replicate 14 b'0' }

abbrev pub request : List (ℕ × QueryWord)
request = (0, query_word) ∷ []

abbrev pub lists : ℤ → WordIndex
lists id = both

pub All-Known :
    All
      (λ (id, word). Known whole both_index 10 (λ n. 0) lists (as_query request) id word)
      (as_query request)
unfolding query_at
All-Known =
    (record { entry = refl; loaded = both_loaded; rising = both-Rising; unread = both-Unread }, tt)

-- What an archive of results may look like: a byte of its own, then the number of results.
abbrev archive : List MergeSimilarInfo → List ℕ
archive rs = 22 ∷ length rs ∷ []

abbrev seven_info : MergeSimilarInfo
seven_info = record { pic_id = 7; sim = 6; pow = 9 }

seven_expected :
    expected whole both_index 10 (λ n. 0) lists (as_query request) 7 none ≡ some seven_info
unfolding expected find_pic merged first_info he_string2int he_distance words_of_chars distance_rows
    distance_row near count_one word_of_chars digit_value off_value
seven_expected = refl

pub request-RisingKeys : RisingKeys request
request-RisingKeys = (omega arith, tt, tt)

process_lem_example :
    (similar : List MergeSimilarInfo) × (process whole both_index 10 archive 0 (λ n. 0) request
      ≡ ok (record {
        ret_num = pos 0;
        query_pow = expected_pow whole both_index 10 (λ n. 0) lists (as_query request) 0;
        result_len = length similar;
        result = archive similar;
      }))
    × RisingResults similar
    × ((id : ℕ)
        → find_result id similar
          ≡ expected whole both_index 10 (λ n. 0) lists (as_query request) id none)
process_lem_example =
    process_lem whole both_index 10 archive 0 (λ n. 0) lists request 7 seven_info request-RisingKeys
      All-Known (λ rs. omega arith) seven_expected

partition_data_lem_example :
    (parts : List (List ℕ)) × (partition_data 3 (10 ∷ 20 ∷ 30 ∷ 40 ∷ []) ≡ ok parts)
    × (concat parts ≡ 10 ∷ 20 ∷ 30 ∷ 40 ∷ [])
    × (length parts ≡ 3)
partition_data_lem_example =
    partition_data_lem 3 (10 ∷ 20 ∷ 30 ∷ 40 ∷ []) (omega arith) (omega arith)
