-- ===== src/Search/Bucket/Convert.antt =====
-- A bucket's pictures become items that can be stored.
use mlsimgsearch.Prelude.{
  ltb, length, take, drop, All, get_elem?_in, ok, ℕ, zero, suc, ◌+◌, ◌*◌, ◌/◌, ◌%◌, ◌^◌, ◌≤◌, ◌<◌,
  ◌≡◌, refl, ap, true, List, [], ◌∷◌, arith,
}
use mlsimgsearch.Search.Hamming.{word_mod, digit_value, off_value, word_of_chars, words_of_chars}
use mlsimgsearch.Search.Serializer.{IndexItem}
use mlsimgsearch.Search.Serializer.RoundTrip.{IsWellFormed}
use mlsimgsearch.Search.Bucket.{
  BofIndexItem, char_at, digit_times, angle_at, angles_from, convert_item,
}

char_at_lem : (text : List ℕ) (i : ℕ) → i < length text → (c : ℕ) × (char_at text i ≡ ok c)
unfolding char_at
char_at_lem text i h = let (c, e) = get_elem?_in text i h in (c, ground (arith, e))

abbrev WordFits : ℕ → Type 0
WordFits w = w < 2 ^ 64

word_of_chars_fits : (acc l : ℕ) (cs : List ℕ) → WordFits acc → WordFits (word_of_chars acc l cs)
unfolding word_of_chars
word_of_chars_fits acc l [] h = h
word_of_chars_fits acc l (c ∷ cs) h =
    word_of_chars_fits ((acc + digit_value c * off_value l % word_mod) % word_mod) (suc l) cs
      (omega arith)

words_of_chars_fit : (n : ℕ) (he : List ℕ) → All WordFits (words_of_chars n he)
unfolding words_of_chars
words_of_chars_fit zero he = tt
words_of_chars_fit (suc n) he =
    (word_of_chars_fits 0 0 (take 16 he) (omega arith), words_of_chars_fit n (drop 16 he))

length-words_of_chars : (n : ℕ) (he : List ℕ) → length (words_of_chars n he) ≡ n
unfolding words_of_chars
length-words_of_chars zero he = refl
length-words_of_chars (suc n) he = ap suc (length-words_of_chars n (drop 16 he))

angle_at_lem :
    (text : List ℕ) (j : ℕ)
    → 3 * j + 2 < length text
    → (a : ℕ) × (angle_at text j ≡ ok a) × (a < 2 ^ 32)
unfolding angle_at
angle_at_lem text j h =
    let (a, ea) = char_at_lem text (3 * j) (omega arith) in
    let (b, eb) = char_at_lem text (3 * j + 1) (omega arith) in
    let (c, ec) = char_at_lem text (3 * j + 2) h in
    (
      ((digit_times a 100 + digit_times b 10) % 0x1_0000_0000 + digit_times c 1) % 0x1_0000_0000,
      rw (ea, eb, ec) refl,
      omega arith,
    )

angles_from_lem :
    (n j : ℕ) (text : List ℕ)
    → 3 * (j + n) ≤ length text
    → (as' : List ℕ) × (angles_from n j text ≡ ok as')
      × (length as' ≡ n)
      × All (λ a. a < 2 ^ 32) as'
unfolding angles_from
angles_from_lem zero j text h = ([], refl, refl, tt)
angles_from_lem (suc n) j text h =
    let (a, e, small) = angle_at_lem text j (omega arith) in
    let (others, es, len, smalls) = angles_from_lem n (suc j) text (omega arith) in
    (a ∷ others, rw (e, es) refl, ap suc len, (small, smalls))

-- A picture with fewer than 4096 signatures of 16 characters and an angle of three characters for
-- each of them becomes an item whose parts have the lengths and the widths that are stored.
pub convert_item-IsWellFormed :
    (item : BofIndexItem) (k : ℕ)
    → item.pic_id < 2 ^ 32
    → item.bof_info.q < 2 ^ 32
    → length item.bof_info.he_text ≡ 16 * k
    → k < 4096
    → 3 * k ≤ length item.bof_info.angle_text
    → (converted : IndexItem) × (convert_item item ≡ ok converted)
      × (converted.length_ ≡ k)
      × IsWellFormed converted
unfolding convert_item
convert_item-IsWellFormed item k hp hq len small angles =
    let (as', e, la, smalls) = angles_from_lem k 0 item.bof_info.angle_text (omega arith) in
    let short : length item.bof_info.he_text / 16 % 0x1_0000 ≡ k = omega (arith, len) in
    let positive : ltb k 0x8000 ≡ true = ground arith in
    (
      record {
        pic_id = item.pic_id;
        weight = item.bof_info.q;
        length_ = k;
        he = words_of_chars k item.bof_info.he_text;
        angle = as';
      },
      rw (short, positive, e) refl,
      refl,
      record {
        pic_fits = omega (arith, hp);
        weight_fits = omega (arith, hq);
        short_counts = small;
        he_length = length-words_of_chars k item.bof_info.he_text;
        angle_length = la;
        he_fit = words_of_chars_fit k item.bof_info.he_text;
        angle_fit = smalls;
      },
    )
