-- ===== src/Search/Index/Load.antt =====
-- `LoadWord` finds what the writers of an index have written.
use mlsimgsearch.Prelude.{
  length, set, length-append, length-set, get_elem?-set_self, get_elem?-set_ne, take, drop,
  drop-append_left, take-length, stretch-append, >>=-eq-ok, ok, ℕ, ◌+◌, ◌-◌, ◌<◌, ◌≡◌, ◌≢◌, List,
  [], ◌∷◌, ◌++◌, arith,
}
use mlsimgsearch.Prelude.Int.{pos}
use mlsimgsearch.Search.Hints.{HinterItem, set_hint, get_hint}
use mlsimgsearch.Search.Serializer.{WordIndex, serialize}
use mlsimgsearch.Search.Serializer.RoundTrip.{IsStorable, index_bytes, unserialize_lem}
use mlsimgsearch.Search.Serializer.Size.{serialize_lem, length-index_bytes}
use mlsimgsearch.Search.Index.{IndexFile, ignore_error, write_word, data_len, read_word, load_word}

-- The word can be stored, and its bytes with the zero behind them fit an `int`.
pub record Fits (word : WordIndex) : Type 0 where
  pub storable : IsStorable word
  pub small : length (index_bytes word) + 1 < 0x8000_0000

-- The file with one more list.
abbrev pub extended : IndexFile → ℕ → WordIndex → IndexFile
extended file id word = record {
  contents = file.contents ++ index_bytes word;
  hints = set file.hints id (record {
    start_pos = length file.contents;
    end_pos = length file.contents + length (index_bytes word);
    bucket_size = 0;
  });
}

pub write_word_lem :
    (file : IndexFile) (id : ℕ) (word : WordIndex)
    → id < length file.hints
    → Fits word
    → write_word file (pos id) word ≡ ok (extended file id word)
unfolding write_word set_hint
write_word_lem file id word h v =
    ground (arith, serialize_lem word v.storable (omega (arith, v.small)))

own_bytes : (xs ys : List ℕ) (n : ℕ) → n ≡ length ys → take n (drop (length xs) (xs ++ ys)) ≡ ys
own_bytes xs ys n e = rw (drop-append_left xs ys, e) (take-length ys)

abbrev hint_at : ℕ → ℕ → HinterItem
hint_at start n = record { start_pos = start; end_pos = start + n; bucket_size = 0 }

read_word_lem :
    (before : List ℕ) (word : WordIndex)
    → Fits word
    → read_word (before ++ index_bytes word) (hint_at (length before) (length (index_bytes word)))
      ≡ ok word
unfolding read_word
read_word_lem before word v =
    let n = length (index_bytes word) in
    let len : data_len (hint_at (length before) n) ≡ n + 1 = omega (arith, v.small) in
    ground (
      arith,
      length-index_bytes word,
      length-append before (index_bytes word),
      len,
      own_bytes before (index_bytes word) (data_len (hint_at (length before) n) - 1)
          (omega (arith, len)),
      unserialize_lem word (0 ∷ []) v.storable,
    )

pub load_extended :
    (file : IndexFile) (id : ℕ) (word : WordIndex)
    → id < length file.hints
    → Fits word
    → load_word (extended file id word) (pos id) ≡ ok word
unfolding load_word get_hint
load_extended file id word h v =
    let hint = hint_at (length file.contents) (length (index_bytes word)) in
    ground (
      arith,
      length-set file.hints id hint,
      get_elem?-set_self file.hints id hint h,
      read_word_lem file.contents word v,
    )

-- A list that fits is written under a bucket id within the table of hints, and `LoadWord` gives it
-- back.
pub load_word-write_word :
    (file : IndexFile) (id : ℕ) (word : WordIndex)
    → id < length file.hints
    → Fits word
    → (file' : IndexFile) × (write_word file (pos id) word ≡ ok file')
      × (load_word file' (pos id) ≡ ok word)
load_word-write_word file id word h v =
    (extended file id word, write_word_lem file id word h v, load_extended file id word h v)

-- What can be read stays as it is when the file grows.
read_word-append :
    (contents more : List ℕ) (hint : HinterItem) (word : WordIndex)
    → read_word contents hint ≡ ok word
    → read_word (contents ++ more) hint ≡ ok word
unfolding read_word
read_word-append contents more hint word e = ground (
  arith,
  length-append contents more,
  stretch-append hint.start_pos (data_len hint - 1) contents more,
)

-- The other hints stay.
get_hint-set_hint_ne :
    (hints hints' : List HinterItem) (id j size start end_ : ℕ)
    → id ≢ j
    → ignore_error hints (set_hint hints (pos id) size start end_) ≡ ok hints'
    → get_hint hints' (pos j) ≡ get_hint hints (pos j)
unfolding set_hint get_hint ignore_error
get_hint-set_hint_ne hints hints' id j size start end_ ne e =
    let hint : HinterItem = record { start_pos = start; end_pos = end_; bucket_size = size } in
    ground (arith, length-set hints id hint, get_elem?-set_ne hints {i = id} {j = j} hint ne)

write_word_inv :
    (file file' : IndexFile) (id : ℕ) (word : WordIndex)
    → write_word file (pos id) word ≡ ok file'
    → (bytes : List ℕ) × (start : ℕ) × (end_ : ℕ) × (file'.contents ≡ file.contents ++ bytes)
      × (ignore_error file.hints (set_hint file.hints (pos id) 0 start end_) ≡ ok file'.hints)
unfolding write_word
write_word_inv file file' id word w =
    let (written, found, rest) = >>=-eq-ok (serialize word) _ w in
    let start = length file.contents in
    (written.1, start, start + written.0, ground arith, ground arith)

-- Writing the list of one bucket leaves what `LoadWord` finds for any other as it was.
pub load_word-write_word_ne :
    (file file' : IndexFile) (id j : ℕ) (word other : WordIndex)
    → write_word file (pos id) word ≡ ok file'
    → id ≢ j
    → load_word file (pos j) ≡ ok other
    → load_word file' (pos j) ≡ ok other
unfolding load_word
load_word-write_word_ne file file' id j word other w ne e =
    let (bytes, start, end_, c, h) = write_word_inv file file' id word w in
    let same = get_hint-set_hint_ne file.hints file'.hints id j 0 start end_ ne h in
    let (hint, found, read) = >>=-eq-ok (get_hint file.hints (pos j)) (read_word file.contents) e in
    rw (same, found, c) (read_word-append file.contents bytes hint other read)
