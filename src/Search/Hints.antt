-- ===== src/Search/Hints.antt =====
-- image_search/bof_core/src/index_hinter.cc: where each inverted list stands in the data file.
use mlsimgsearch.Prelude.{
  leb, if◌then◌else◌, length, get_elem?, set, replicate, Outcome, or_fault, ok, err, fault, ℕ, List,
}
use mlsimgsearch.Prelude.Int.{ℤ, pos, negsuc}

pub record HinterItem : Type 0 where
  pub start_pos : ℕ
  pub end_pos : ℕ
  pub bucket_size : ℕ

abbrev pub no_hint : HinterItem
no_hint = record { start_pos = 0; end_pos = 0; bucket_size = 0 }

-- The constructor with a bucket count: `items_` alone, since `max_bucket_num_` is not read again.
unfoldable pub new_hinter : ℕ → List HinterItem
new_hinter max_bucket_num = replicate max_bucket_num no_hint

-- The test is on the upper bound only: a negative id indexes the vector.
unfoldable pub set_hint : List HinterItem → ℤ → ℕ → ℕ → ℕ → Outcome (List HinterItem)
set_hint items (pos id) size start end_ =
    if leb (length items) id
    then err 1
    else ok (set items id (record { start_pos = start; end_pos = end_; bucket_size = size }))
set_hint items (negsuc n) size start end_ = fault

unfoldable pub get_hint : List HinterItem → ℤ → Outcome HinterItem
get_hint items (pos id) = if leb (length items) id then err 1 else or_fault (get_elem? items id)
get_hint items (negsuc n) = fault
