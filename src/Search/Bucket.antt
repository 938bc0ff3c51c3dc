-- ===== src/Search/Bucket.antt =====
-- image_search/bof_core/src/indexer.cc: BOFIndexBucket, the pictures that have one visual word, and
-- its conversion into an inverted list.
pub mod Convert
pub mod Texts
use mlsimgsearch.Prelude.{
  ltb, ◌==◌, if◌then◌else◌, length, get_elem?, Outcome, ◌>>=◌, ◌>>◌, or_fault, must, ok, ℕ, zero,
  suc, ◌+◌, ◌-◌, ◌*◌, ◌/◌, ◌%◌, List, [], ◌∷◌, ◌++◌,
}
use mlsimgsearch.Search.Hamming.{words_of_chars}
use mlsimgsearch.Search.Serializer.{IndexItem, WordIndex}

-- `BOFQuantizeResult`: its weight, and the two texts of `word_info_`.
pub record BofQuantizeResult : Type 0 where
  pub q : ℕ
  pub he_text : List ℕ
  pub angle_text : List ℕ

pub record BofIndexItem : Type 0 where
  pub pic_id : ℕ
  pub bof_info : BofQuantizeResult

pub record BofIndexBucket : Type 0 where
  pub bucket_id : ℕ
  pub items : List BofIndexItem

unfoldable pub new_bucket : ℕ → BofIndexBucket
new_bucket bucket_id = record { bucket_id = bucket_id; items = [] }

unfoldable pub add_item : BofIndexItem → BofIndexBucket → BofIndexBucket
add_item item bucket = record { bucket_id = bucket.bucket_id; items = bucket.items ++ item ∷ [] }

-- `AddItem` of a picture. The id is a `uint32_t`.
unfoldable pub add_picture : ℕ → BofQuantizeResult → BofIndexBucket → BofIndexBucket
unfolding add_item
add_picture pic_id bof_info bucket =
    add_item (record { pic_id = pic_id % 0x1_0000_0000; bof_info = bof_info }) bucket

-- `operator[]` of a string: a zero at its size, nothing beyond.
unfoldable pub char_at : List ℕ → ℕ → Outcome ℕ
char_at text i = if i == length text then ok 0 else or_fault (get_elem? text i)

-- `(c - '0') * n` as an `unsigned int`; a `char` is signed.
unfoldable pub digit_times : ℕ → ℕ → ℕ
digit_times c n =
    let wide = if ltb c 128 then c else c + 0x1_0000_0000 - 256 in
    (wide + 0x1_0000_0000 - b'0') * n % 0x1_0000_0000

unfoldable pub angle_at : List ℕ → ℕ → Outcome ℕ
unfolding char_at digit_times
angle_at text j = do
  a ← char_at text (3 * j)
  b ← char_at text (3 * j + 1)
  c ← char_at text (3 * j + 2)
  ok (((digit_times a 100 + digit_times b 10) % 0x1_0000_0000 + digit_times c 1) % 0x1_0000_0000)

-- The loop over the angles from `j` on, `n` of them.
unfoldable pub angles_from : ℕ → ℕ → List ℕ → Outcome (List ℕ)
unfolding angle_at
angles_from zero j text = ok []
angles_from (suc n) j text = do
  angle ← angle_at text j
  angles ← angles_from n (suc j) text
  ok (angle ∷ angles)

-- One round of `ConvertB2W`. The length is a `short`: a negative one is a fault at `new`.
unfoldable pub convert_item : BofIndexItem → Outcome IndexItem
unfolding angles_from
convert_item item = do
  let len = length item.bof_info.he_text / 16 % 0x1_0000
  must (ltb len 0x8000)
  angles ← angles_from len 0 item.bof_info.angle_text
  ok (record {
    pic_id = item.pic_id;
    weight = item.bof_info.q;
    length_ = len;
    he = words_of_chars len item.bof_info.he_text;
    angle = angles;
  })

unfoldable pub convert_items : List BofIndexItem → Outcome (List IndexItem)
unfolding convert_item
convert_items [] = ok []
convert_items (item ∷ items) = do
  first ← convert_item item
  others ← convert_items items
  ok (first ∷ others)

-- `ConvertB2W` into a new `WordIndex`.
unfoldable pub convert_b2w : BofIndexBucket → Outcome WordIndex
unfolding convert_items
convert_b2w bucket = do
  items ← convert_items bucket.items
  ok (record { word_id = bucket.bucket_id; items = items })
