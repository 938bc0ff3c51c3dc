-- ===== src/Search/Serializer.antt =====
-- image_search/bof_core/src/indexer_serializer.cc: the bytes of one inverted list. A signed number
-- is kept as its bit pattern, a `float` as the pattern that `memcpy` moves, and an array as the
-- list of its elements. Bytes stand in the order of the machine, lowest first.
pub mod Bytes
pub mod Size
pub mod RoundTrip
use mlsimgsearch.Prelude.{
  ltb, leb, if◌then◌else◌, length, Outcome, ◌>>=◌, ◌>>◌, must, ok, err, ℕ, zero, suc, ◌+◌, ◌-◌, ◌*◌,
  ◌%◌, ◌^◌, Option, none, some, List, [], ◌∷◌, ◌++◌,
}
use Bytes.{to_le, read_le, read_words, bytes_of, copy}

pub record IndexItem : Type 0 where
  pub pic_id : ℕ
  pub weight : ℕ
  pub length_ : ℕ
  pub he : List ℕ
  pub angle : List ℕ

pub record WordIndex : Type 0 where
  pub word_id : ℕ
  pub items : List IndexItem

-- The order of two `int64_t` by their patterns.
unfoldable pub signed_key : ℕ → ℕ
signed_key p = (p + 2 ^ 63) % 2 ^ 64

-- A `short` where an `int` is wanted, as a pattern of 32 bits.
abbrev pub extend_short : ℕ → ℕ
extend_short s = if ltb s 0x8000 then s else s + 0x1_0000_0000 - 0x1_0000

-- `GetSize`, an `int`.
unfoldable pub get_size : IndexItem → ℕ
get_size item =
    (8 + 4 + 2 + 8 * extend_short item.length_ + 4 * extend_short item.length_) % 0x1_0000_0000

-- The count that `memcpy` is given: a `short`, whose negative values are sizes out of all bounds.
unfoldable pub copy_count : ℕ → Outcome ℕ
copy_count n = let s = n % 0x1_0000 in must (ltb s 0x8000) >> ok s

-- `DumpData`: what it appends at the cursor.
unfoldable pub dump_data : IndexItem → Outcome (List ℕ)
unfolding copy_count
dump_data item = do
  he_len ← copy_count (8 * item.length_)
  angle_len ← copy_count (4 * item.length_)
  he_bytes ← copy he_len (bytes_of 8 item.he)
  angle_bytes ← copy angle_len (bytes_of 4 item.angle)
  ok (
      to_le 8 item.pic_id
      ++ (to_le 4 item.weight ++ (to_le 2 item.length_ ++ (he_bytes ++ angle_bytes))))

unfoldable pub dump_items : List IndexItem → Outcome (List ℕ)
unfolding dump_data
dump_items [] = ok []
dump_items (item ∷ items) = do
  first ← dump_data item
  others ← dump_items items
  ok (first ++ others)

unfoldable pub sum_sizes : List IndexItem → ℕ → ℕ
unfolding get_size
sum_sizes [] size = size
sum_sizes (item ∷ items) size = sum_sizes items ((size + get_size item) % 0x1_0000_0000)

-- `CalcWordIndexSize`
unfoldable pub calc_word_index_size : WordIndex → ℕ
unfolding sum_sizes
calc_word_index_size index = sum_sizes index.items (4 + 4)

-- `Serialize`: the size that it returns, and what it has written to the buffer of that size. A
-- write past the buffer is a fault.
unfoldable pub serialize : WordIndex → Outcome (ℕ × List ℕ)
unfolding calc_word_index_size dump_items
serialize index = do
  let size = calc_word_index_size index
  must (ltb size 0x8000_0000)
  body ← dump_items index.items
  let bytes = to_le 4 index.word_id ++ (to_le 4 (length index.items) ++ body)
  must (leb (length bytes) size)
  ok (size, bytes)

-- `ReinterpretData`: the item, and the cursor behind it. Its arrays stay where they are in the
-- data; here they are the values found there.
unfoldable pub reinterpret_data : List ℕ → Outcome (IndexItem × List ℕ)
reinterpret_data data0 = do
  (pic, data1) ← read_le 8 data0
  (w, data2) ← read_le 4 data1
  (len, data3) ← read_le 2 data2
  must (ltb len 0x8000)
  (hes, data4) ← read_words 8 len data3
  (angles, data5) ← read_words 4 len data4
  ok (record { pic_id = pic; weight = w; length_ = len; he = hes; angle = angles }, data5)

unfoldable pub read_items : ℕ → List ℕ → Outcome (List IndexItem)
unfolding reinterpret_data
read_items zero data0 = ok []
read_items (suc n) data0 = do
  (item, data1) ← reinterpret_data data0
  items ← read_items n data1
  ok (item ∷ items)

-- A loop `for (int i = 0; i < n; ++i)` over a pattern of 32 bits: a negative bound makes no round.
abbrev pub rounds : ℕ → ℕ
rounds n = if ltb n 0x8000_0000 then n else 0

-- `Unserialize`. It has the size of the data and does not look at it.
unfoldable pub unserialize : Option (List ℕ) → Outcome WordIndex
unfolding read_items
unserialize none = err 1
unserialize (some data0) = do
  (id, data1) ← read_le 4 data0
  (count, data2) ← read_le 4 data1
  items ← read_items (rounds count) data2
  ok (record { word_id = id; items = items })
