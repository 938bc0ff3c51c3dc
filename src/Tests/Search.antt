-- ===== src/Tests/Search.antt =====
-- The search of image_search: signatures, lists, indexes and results of two small pictures.
use mlsimgsearch.Prelude.{
  length, replicate, concat, ok, fault, ℕ, ◌<◌, ◌≡◌, refl, Bool, true, false, some, List, [], ◌∷◌,
  ◌++◌, map, arith,
}
use mlsimgsearch.Search.Hamming.{he_string2int, he_distance}
use mlsimgsearch.Search.Hamming.Text.{signature_text, signature_word, he_string2int-coder}
use mlsimgsearch.Search.Hamming.Distance.{
  hamming, near_pairs_row, near_pairs, he_distance-near_pairs,
}
use mlsimgsearch.Search.Serializer.{IndexItem, WordIndex, serialize, unserialize}
use mlsimgsearch.Search.Serializer.RoundTrip.{IsWellFormed, IsStorable, item_bytes, index_bytes}
use mlsimgsearch.Search.Serializer.Bytes.{to_le, bytes_of}
use mlsimgsearch.Search.Serializer.Size.{unserialize-serialize, serialize_overflow}
use mlsimgsearch.Search.Index.Load.{Fits}

abbrev low_bits : List Bool
low_bits = replicate 64 true

abbrev high_bits : List Bool
high_bits = false ∷ replicate 63 true

few_pairs : near_pairs 10 (low_bits ∷ high_bits ∷ []) (high_bits ∷ []) < 0x8000_0000
unfolding near_pairs near_pairs_row hamming
few_pairs = omega arith

he_distance-near_pairs_example :
    he_distance 10
      (map signature_word (low_bits ∷ high_bits ∷ []))
      (map signature_word (high_bits ∷ []))
    ≡ some (near_pairs 10 (low_bits ∷ high_bits ∷ []) (high_bits ∷ []))
he_distance-near_pairs_example =
    he_distance-near_pairs 10 low_bits high_bits (high_bits ∷ []) [] (refl, (refl, tt)) (refl, tt)
      few_pairs

he_string2int-coder_example :
    he_string2int false (concat (map signature_text (low_bits ∷ high_bits ∷ [])))
    ≡ some (map signature_word (low_bits ∷ high_bits ∷ []))
he_string2int-coder_example = he_string2int-coder (low_bits ∷ high_bits ∷ []) (refl, (refl, tt))

-- Picture 7 with one signature, and picture 9 with two.
abbrev pub seven : IndexItem
seven = record { pic_id = 7; weight = 3; length_ = 1; he = 0xFF ∷ []; angle = 45 ∷ [] }

abbrev pub nine : IndexItem
nine = record { pic_id = 9; weight = 4; length_ = 2; he = 0xF0 ∷ 0x0F ∷ []; angle = 90 ∷ 180 ∷ [] }

seven-IsWellFormed : IsWellFormed seven
seven-IsWellFormed = record {
  pic_fits = omega arith;
  weight_fits = omega arith;
  short_counts = omega arith;
  he_length = refl;
  angle_length = refl;
  he_fit = (omega arith, tt);
  angle_fit = (omega arith, tt);
}

nine-IsWellFormed : IsWellFormed nine
nine-IsWellFormed = record {
  pic_fits = omega arith;
  weight_fits = omega arith;
  short_counts = omega arith;
  he_length = refl;
  angle_length = refl;
  he_fit = (omega arith, (omega arith, tt));
  angle_fit = (omega arith, (omega arith, tt));
}

abbrev pub sevens : WordIndex
sevens = record { word_id = 0; items = seven ∷ [] }

abbrev pub nines : WordIndex
nines = record { word_id = 0; items = nine ∷ [] }

abbrev pub both : WordIndex
both = record { word_id = 0; items = seven ∷ nine ∷ [] }

both-IsStorable : IsStorable both
both-IsStorable = record {
  id_fits = omega arith;
  items_fit = (seven-IsWellFormed, (nine-IsWellFormed, tt));
  count_fits = omega arith;
}

both_small : length (index_bytes both) < 0x8000_0000
unfolding index_bytes to_le item_bytes bytes_of
both_small = omega arith

pub both-Fits : Fits both
unfolding index_bytes to_le item_bytes bytes_of
both-Fits = record { storable = both-IsStorable; small = omega arith }

pub sevens-Fits : Fits sevens
unfolding index_bytes to_le item_bytes bytes_of
sevens-Fits = record {
  storable = record {
    id_fits = omega arith;
    items_fit = (seven-IsWellFormed, tt);
    count_fits = omega arith;
  };
  small = omega arith;
}

unserialize-serialize_example :
    (bytes : List ℕ) × (serialize both ≡ ok (length bytes, bytes))
    × ((rest : List ℕ) → unserialize (some (bytes ++ rest)) ≡ ok both)
unserialize-serialize_example = unserialize-serialize both both-IsStorable both_small

abbrev huge : IndexItem
huge = record { pic_id = 1; weight = 0; length_ = 5000; he = []; angle = [] }

abbrev with_huge : WordIndex
with_huge = record { word_id = 0; items = seven ∷ huge ∷ nine ∷ [] }

serialize_overflow_example : serialize with_huge ≡ fault
serialize_overflow_example =
    serialize_overflow with_huge (seven ∷ []) huge (nine ∷ []) refl (omega arith) (omega arith)
