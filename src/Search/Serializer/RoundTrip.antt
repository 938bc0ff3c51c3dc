-- ===== src/Search/Serializer/RoundTrip.antt =====
-- What `Serialize` writes, `Unserialize` reads back.
use mlsimgsearch.Prelude.{
  length, All, ok, ℕ, ◌*◌, ◌<◌, ◌≡◌, refl, some, List, [], ◌∷◌, ◌++◌, append_assoc, arith,
}
use mlsimgsearch.Search.Serializer.{
  IndexItem, WordIndex, dump_data, dump_items, reinterpret_data, read_items, unserialize,
}
use mlsimgsearch.Search.Serializer.Bytes.{
  to_le, read_words, bytes_of, byte_width, read_le-to_le, length-bytes_of, read_words-bytes_of,
  copy_all,
}

-- The fields fit their types, the arrays have `length_` elements, and the byte counts of the
-- arrays fit a `short`.
pub record IsWellFormed (item : IndexItem) : Type 0 where
  pub pic_fits : item.pic_id < byte_width 8
  pub weight_fits : item.weight < byte_width 4
  pub short_counts : item.length_ < 4096
  pub he_length : length item.he ≡ item.length_
  pub angle_length : length item.angle ≡ item.length_
  pub he_fit : All (λ w. w < byte_width 8) item.he
  pub angle_fit : All (λ w. w < byte_width 4) item.angle

unfoldable pub item_bytes : IndexItem → List ℕ
item_bytes item =
    to_le 8 item.pic_id
    ++ (to_le 4 item.weight
        ++ (to_le 2 item.length_ ++ (bytes_of 8 item.he ++ bytes_of 4 item.angle)))

pub dump_data_lem : (item : IndexItem) → IsWellFormed item → dump_data item ≡ ok (item_bytes item)
unfolding dump_data item_bytes
dump_data_lem item v = ground (
  arith,
  copy_all (8 * item.length_) (bytes_of 8 item.he)
      (omega (arith, length-bytes_of 8 item.he, v.he_length)),
  copy_all (4 * item.length_) (bytes_of 4 item.angle)
      (omega (arith, length-bytes_of 4 item.angle, v.angle_length)),
)

-- The bytes of an item with those that follow it.
item_bytes-append :
    (item : IndexItem) (rest : List ℕ)
    → item_bytes item ++ rest
      ≡ to_le 8 item.pic_id
        ++ (to_le 4 item.weight
            ++ (to_le 2 item.length_ ++ (bytes_of 8 item.he ++ (bytes_of 4 item.angle ++ rest))))
unfolding item_bytes
item_bytes-append item rest = simp append_assoc

array_lem :
    (k n : ℕ) (ws rest : List ℕ)
    → length ws ≡ n
    → All (λ w. w < byte_width k) ws
    → read_words k n (bytes_of k ws ++ rest) ≡ ok (ws, rest)
array_lem k n ws rest e h = rw (← e) (read_words-bytes_of k ws rest h)

pub reinterpret_data_lem :
    (item : IndexItem) (rest : List ℕ)
    → IsWellFormed item
    → reinterpret_data (item_bytes item ++ rest) ≡ ok (item, rest)
unfolding reinterpret_data
reinterpret_data_lem item rest v =
    let tail5 = bytes_of 4 item.angle ++ rest in
    let tail4 = bytes_of 8 item.he ++ tail5 in
    let tail3 = to_le 2 item.length_ ++ tail4 in
    let tail2 = to_le 4 item.weight ++ tail3 in
    rw (item_bytes-append item rest) (
      ground (
        arith,
        read_le-to_le 8 item.pic_id tail2 v.pic_fits,
        read_le-to_le 4 item.weight tail3 v.weight_fits,
        read_le-to_le 2 item.length_ tail4 (omega arith),
        array_lem 8 item.length_ item.he tail5 v.he_length v.he_fit,
        array_lem 4 item.length_ item.angle rest v.angle_length v.angle_fit,
      ))

abbrev pub items_bytes : List IndexItem → List ℕ
items_bytes [] = []
items_bytes (item ∷ items) = item_bytes item ++ items_bytes items

pub dump_items_lem :
    (items : List IndexItem) → All IsWellFormed items → dump_items items ≡ ok (items_bytes items)
unfolding dump_items
dump_items_lem [] h = refl
dump_items_lem (item ∷ items) (v, vs) =
    ground (arith, dump_data_lem item v, dump_items_lem items vs)

read_items_lem :
    (items : List IndexItem) (rest : List ℕ)
    → All IsWellFormed items
    → read_items (length items) (items_bytes items ++ rest) ≡ ok items
unfolding read_items
read_items_lem [] rest h = refl
read_items_lem (item ∷ items) rest (v, vs) =
    rw (append_assoc (item_bytes item) (items_bytes items) rest) (
      ground (
        arith,
        reinterpret_data_lem item (items_bytes items ++ rest) v,
        read_items_lem items rest vs,
      ))

-- The id fits an `int`, the items are well formed, and their number fits an `int`.
pub record IsStorable (index : WordIndex) : Type 0 where
  pub id_fits : index.word_id < byte_width 4
  pub items_fit : All IsWellFormed index.items
  pub count_fits : length index.items < 0x8000_0000

unfoldable pub index_bytes : WordIndex → List ℕ
index_bytes index =
    to_le 4 index.word_id ++ (to_le 4 (length index.items) ++ items_bytes index.items)

pub unserialize_lem :
    (index : WordIndex) (rest : List ℕ)
    → IsStorable index
    → unserialize (some (index_bytes index ++ rest)) ≡ ok index
unfolding unserialize index_bytes
unserialize_lem index rest v =
    let n = length index.items in
    let body = items_bytes index.items ++ rest in
    rw
      (
        append_assoc (to_le 4 index.word_id) (to_le 4 n ++ items_bytes index.items) rest,
        append_assoc (to_le 4 n) (items_bytes index.items) rest,
      )
      (ground (
        arith,
        read_le-to_le 4 index.word_id (to_le 4 n ++ body) v.id_fits,
        read_le-to_le 4 n body (omega (arith, v.count_fits)),
        read_items_lem index.items rest v.items_fit,
      ))
