-- ===== src/Search/Bucket/Texts.antt =====
-- What a picture's texts say is what its item in the inverted list holds.
use mlsimgsearch.Prelude.{
  ◌==◌, lt→ltb, ne→==, length, get_elem?, length-append, All, concat, ok, ℕ, suc, ◌+◌, ◌*◌, ◌/◌,
  ◌%◌, ◌≤◌, ◌<◌, ◌≡◌, refl, sym, ap, ◌∙◌, Bool, false, some, List, [], ◌∷◌, ◌++◌, map, append_assoc,
  arith,
}
use mlsimgsearch.Search.Hamming.Text.{
  IsSignature, signature_text, signature_word, words-signatures, length-texts,
}
use mlsimgsearch.Search.Bucket.{char_at, digit_times, angle_at, angles_from, convert_item}

-- An angle in three decimal digits.
abbrev pub three_digits : ℕ → List ℕ
three_digits a = (b'0' + a / 100) ∷ (b'0' + a / 10 % 10) ∷ (b'0' + a % 10) ∷ []

get_elem?-append :
    (before : List ℕ) (c : ℕ) (rest : List ℕ)
    → get_elem? (before ++ c ∷ rest) (length before) ≡ some c
get_elem?-append [] c rest = refl
get_elem?-append (x ∷ before) c rest = get_elem?-append before c rest

char_at_lem :
    (before : List ℕ) (c : ℕ) (rest : List ℕ) (i : ℕ)
    → i ≡ length before
    → char_at (before ++ c ∷ rest) i ≡ ok c
unfolding char_at
char_at_lem before c rest i e =
    let inside : (i == length (before ++ c ∷ rest)) ≡ false =
      ne→== _ _ (λ z. omega (arith, z, e, length-append before (c ∷ rest))) in
    rw (inside, ap (get_elem? (before ++ c ∷ rest)) e ∙ get_elem?-append before c rest) refl

digit_times_lem :
    (d : ℕ)
    → d ≤ 9
    → (digit_times (b'0' + d) 100 ≡ d * 100)
      × (digit_times (b'0' + d) 10 ≡ d * 10)
      × (digit_times (b'0' + d) 1 ≡ d)
unfolding digit_times
digit_times_lem d h = ground arith

angle_at_lem :
    (before rest : List ℕ) (a j : ℕ)
    → a < 1000
    → 3 * j ≡ length before
    → angle_at (before ++ (three_digits a ++ rest)) j ≡ ok a
unfolding angle_at
angle_at_lem before rest a j h e =
    let x = b'0' + a / 100 in
    let y = b'0' + a / 10 % 10 in
    let z = b'0' + a % 10 in
    let second : before ++ x ∷ y ∷ z ∷ rest ≡ (before ++ x ∷ []) ++ y ∷ z ∷ rest =
      sym (append_assoc before (x ∷ []) (y ∷ z ∷ rest)) in
    let third : before ++ x ∷ y ∷ z ∷ rest ≡ (before ++ x ∷ y ∷ []) ++ z ∷ rest =
      sym (append_assoc before (x ∷ y ∷ []) (z ∷ rest)) in
    let i2 = length-append before (x ∷ []) in
    let i3 = length-append before (x ∷ y ∷ []) in
    let t1 = (digit_times_lem (a / 100) (omega arith)).0 in
    let t2 = (digit_times_lem (a / 10 % 10) (omega arith)).1 in
    let t3 = (digit_times_lem (a % 10) (omega arith)).2 in
    let value : ((digit_times x 100 + digit_times y 10) % 0x1_0000_0000 + digit_times z 1)
          % 0x1_0000_0000
        ≡ a =
      omega (arith, t1, t2, t3) in
    rw
      (
        char_at_lem before x (y ∷ z ∷ rest) (3 * j) e,
        ap (λ t. char_at t (3 * j + 1)) second
            ∙ char_at_lem (before ++ x ∷ []) y (z ∷ rest) (3 * j + 1) (omega (arith, e, i2)),
        ap (λ t. char_at t (3 * j + 2)) third
            ∙ char_at_lem (before ++ x ∷ y ∷ []) z rest (3 * j + 2) (omega (arith, e, i3)),
      )
      (ap ok value)

angles_from_lem :
    (as' before : List ℕ) (j : ℕ)
    → All (λ a. a < 1000) as'
    → 3 * j ≡ length before
    → angles_from (length as') j (before ++ concat (map three_digits as')) ≡ ok as'
unfolding angles_from
angles_from_lem [] before j hs e = refl
angles_from_lem (a ∷ as') before j (h, hs) e =
    let rest = concat (map three_digits as') in
    let again : before ++ (three_digits a ++ rest) ≡ (before ++ three_digits a) ++ rest =
      sym (append_assoc before (three_digits a) rest) in
    let others =
      ap (angles_from (length as') (suc j)) again
      ∙ angles_from_lem as' (before ++ three_digits a) (suc j) hs
          (omega (arith, e, length-append before (three_digits a))) in
    rw (angle_at_lem before rest a j h e, others) refl

-- A picture whose texts are made of fewer than 2 ^ 15 signatures, as the coder writes them, and of an
-- angle below 1000 for each, in three digits, becomes an item with its id, its weight, the number of
-- the signatures, their words and the angles, in their order.
pub convert_item_lem :
    (pic_id q : ℕ) (sigs : List (List Bool)) (as' : List ℕ)
    → All IsSignature sigs
    → All (λ a. a < 1000) as'
    → length as' ≡ length sigs
    → length sigs < 0x8000
    → convert_item (record {
      pic_id = pic_id;
      bof_info = record {
        q = q;
        he_text = concat (map signature_text sigs);
        angle_text = concat (map three_digits as');
      };
    })
      ≡ ok (record {
        pic_id = pic_id;
        weight = q;
        length_ = length sigs;
        he = map signature_word sigs;
        angle = as';
      })
unfolding convert_item
convert_item_lem pic_id q sigs as' hs small same few =
    let texts = concat (map signature_text sigs) in
    let count : length texts / 16 % 0x1_0000 ≡ length sigs = omega (arith, length-texts sigs hs) in
    let angles : angles_from (length sigs) 0 (concat (map three_digits as')) ≡ ok as' =
      ap (λ n. angles_from n 0 (concat (map three_digits as'))) (sym same)
      ∙ angles_from_lem as' [] 0 small refl in
    rw (count, lt→ltb _ _ few, angles, words-signatures sigs hs) refl
