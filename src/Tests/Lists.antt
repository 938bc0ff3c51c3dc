-- ===== src/Tests/Lists.antt =====
-- The array list of libsrc/blitz2, with two elements and room for a third.
use mlsimgsearch.Prelude.{ok, ℕ, ◌≡◌, refl, List, [], ◌∷◌, arith}
use mlsimgsearch.Prelude.Int.{pos, negsuc}
use mlsimgsearch.Blitz.ArrayList.{ArrayList, push_back, insert_after, remove}
use mlsimgsearch.Blitz.ArrayList.Rep.{Rep}
use mlsimgsearch.Blitz.ArrayList.Refine.{push_back-Rep}
use mlsimgsearch.Blitz.ArrayList.Splice.{insert_after-Rep, remove-Rep}

abbrev two : ArrayList ℕ
two = record {
  array =
      record { data_ = 0; prev = negsuc 0; next = 3 }
      ∷ record { data_ = 10; prev = pos 2; next = 0 }
      ∷ record { data_ = 20; prev = pos 0; next = 1 }
      ∷ record { data_ = 0; prev = negsuc 0; next = 0 }
      ∷ [];
  head_prev = 1;
  head_next = 2;
  count = pos 2;
  max_count = 3;
}

abbrev two_elements : List (ℕ × ℕ)
two_elements = (2, 20) ∷ (1, 10) ∷ []

two-Rep : Rep two two_elements (3 ∷ [])
two-Rep = record {
  size = refl;
  chain = ((0, refl), ((0, refl), tt));
  nodes = (refl, (refl, tt));
  first = refl;
  last = refl;
  apart = λ k. ground arith;
  count = refl;
  all = omega arith;
}

push_back-Rep_example :
    (s' : ArrayList ℕ) × (push_back two 30 ≡ ok (3, s'))
    × Rep s' ((2, 20) ∷ (1, 10) ∷ (3, 30) ∷ []) []
push_back-Rep_example = push_back-Rep two 30 3 [] two_elements two-Rep

insert_after-Rep_example :
    (s' : ArrayList ℕ) × (insert_after two (pos 2) 30 ≡ ok (pos 3, s'))
    × Rep s' ((2, 20) ∷ (3, 30) ∷ (1, 10) ∷ []) []
insert_after-Rep_example = insert_after-Rep two 2 3 20 30 [] [] ((1, 10) ∷ []) two-Rep

remove-Rep_example :
    (s' : ArrayList ℕ) × (remove two (pos 2) ≡ ok s') × Rep s' ((1, 10) ∷ []) (2 ∷ 3 ∷ [])
remove-Rep_example = remove-Rep two 2 20 (3 ∷ []) [] ((1, 10) ∷ []) two-Rep
