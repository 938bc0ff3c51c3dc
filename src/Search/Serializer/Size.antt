-- ===== src/Search/Serializer/Size.antt =====
-- `Serialize`: the size that it computes first is the number of bytes that it writes.
use mlsimgsearch.Prelude.{
  length, length-append, All, ok, fault, ℕ, ◌+◌, ◌*◌, ◌%◌, ◌≤◌, ◌<◌, ◌≡◌, ap, ◌∙◌, ◌⊎◌, some, List,
  [], ◌∷◌, ◌++◌, arith,
}
use mlsimgsearch.Search.Serializer.{
  IndexItem, WordIndex, get_size, dump_data, dump_items, sum_sizes, calc_word_index_size, serialize,
  unserialize,
}
use mlsimgsearch.Search.Serializer.Bytes.{bytes_of, copy, to_le, length-to_le, length-bytes_of}
use mlsimgsearch.Search.Serializer.RoundTrip.{
  IsWellFormed, item_bytes, items_bytes, IsStorable, index_bytes, dump_items_lem, unserialize_lem,
}

length-item_bytes :
    (item : IndexItem) → IsWellFormed item → length (item_bytes item) ≡ 14 + 12 * item.length_
unfolding item_bytes
length-item_bytes item v =
    let hes = bytes_of 8 item.he in
    let angles = bytes_of 4 item.angle in
    omega (
      arith,
      length-append (to_le 8 item.pic_id)
          (to_le 4 item.weight ++ (to_le 2 item.length_ ++ (hes ++ angles))),
      length-append (to_le 4 item.weight) (to_le 2 item.length_ ++ (hes ++ angles)),
      length-append (to_le 2 item.length_) (hes ++ angles),
      length-append hes angles,
      length-to_le 8 item.pic_id,
      length-to_le 4 item.weight,
      length-to_le 2 item.length_,
      length-bytes_of 8 item.he,
      length-bytes_of 4 item.angle,
      v.he_length,
      v.angle_length,
    )

get_size_lem : (item : IndexItem) → IsWellFormed item → get_size item ≡ length (item_bytes item)
unfolding get_size
get_size_lem item v = ground (arith, length-item_bytes item v)

sum_sizes_lem :
    (items : List IndexItem) (size : ℕ)
    → All IsWellFormed items
    → size + length (items_bytes items) < 0x1_0000_0000
    → sum_sizes items size ≡ size + length (items_bytes items)
unfolding sum_sizes
sum_sizes_lem [] size h fits = omega arith
sum_sizes_lem (item ∷ items) size (v, vs) fits =
    let parts = length-append (item_bytes item) (items_bytes items) in
    let step : (size + get_size item) % 0x1_0000_0000 ≡ size + length (item_bytes item) =
      omega (arith, get_size_lem item v, parts) in
    ap (sum_sizes items) step
    ∙ sum_sizes_lem items (size + length (item_bytes item)) vs (omega (arith, parts))
    ∙ omega (arith, parts)

pub length-index_bytes :
    (index : WordIndex) → length (index_bytes index) ≡ 8 + length (items_bytes index.items)
unfolding index_bytes
length-index_bytes index = omega (
  arith,
  length-append (to_le 4 index.word_id) (to_le 4 (length index.items) ++ items_bytes index.items),
  length-append (to_le 4 (length index.items)) (items_bytes index.items),
  length-to_le 4 index.word_id,
  length-to_le 4 (length index.items),
)

-- `CalcWordIndexSize` is the number of bytes of a storable list, when it fits an `int`.
pub calc_word_index_size_lem :
    (index : WordIndex)
    → IsStorable index
    → length (index_bytes index) < 0x8000_0000
    → calc_word_index_size index ≡ length (index_bytes index)
unfolding calc_word_index_size
calc_word_index_size_lem index v fits =
    let len = length-index_bytes index in
    sum_sizes_lem index.items 8 v.items_fit (omega (arith, len)) ∙ omega (arith, len)

pub serialize_lem :
    (index : WordIndex)
    → IsStorable index
    → length (index_bytes index) < 0x8000_0000
    → serialize index ≡ ok (length (index_bytes index), index_bytes index)
unfolding serialize index_bytes
serialize_lem index v fits =
    ground (arith, calc_word_index_size_lem index v fits, dump_items_lem index.items v.items_fit)

-- A storable list whose bytes fit an `int` is written whole, in as many bytes as are announced; and
-- it is read back unchanged, whatever follows it.
pub unserialize-serialize :
    (index : WordIndex)
    → IsStorable index
    → length (index_bytes index) < 0x8000_0000
    → (bytes : List ℕ) × (serialize index ≡ ok (length bytes, bytes))
      × ((rest : List ℕ) → unserialize (some (bytes ++ rest)) ≡ ok index)
unserialize-serialize index v fits =
    (index_bytes index, serialize_lem index v fits, λ rest. unserialize_lem index rest v)

dump_data_overflow :
    (item : IndexItem) → 4096 ≤ item.length_ → item.length_ < 8192 → dump_data item ≡ fault
unfolding dump_data
dump_data_overflow item lo hi = ground arith

dump_data_cases :
    (item : IndexItem) → (dump_data item ≡ fault) ⊎ ((bs : List ℕ) × (dump_data item ≡ ok bs))
unfolding dump_data copy
dump_data_cases item = ground arith

dump_items_overflow :
    (items : List IndexItem) (item : IndexItem) (rest : List IndexItem)
    → 4096 ≤ item.length_
    → item.length_ < 8192
    → dump_items (items ++ item ∷ rest) ≡ fault
unfolding dump_items
dump_items_overflow [] item rest lo hi = ground (arith, dump_data_overflow item lo hi)
dump_items_overflow (x ∷ items) item rest lo hi =
    ground (arith, dump_data_cases x, dump_items_overflow items item rest lo hi)

-- The byte count of `he_` is kept in a `short`. From 4096 to 8191 words it comes out negative, and
-- `memcpy` is called with a size out of all bounds, wherever the item stands in the list.
pub serialize_overflow :
    (index : WordIndex) (before : List IndexItem) (item : IndexItem) (rest : List IndexItem)
    → index.items ≡ before ++ item ∷ rest
    → 4096 ≤ item.length_
    → item.length_ < 8192
    → serialize index ≡ fault
unfolding serialize
serialize_overflow index before item rest e lo hi =
    ground (arith, dump_items_overflow before item rest lo hi)
