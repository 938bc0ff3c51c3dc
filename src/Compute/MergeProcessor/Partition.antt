-- ===== src/Compute/MergeProcessor/Partition.antt =====
-- The parts of a query.
use native.Mathlib.Nat.{suc-mul, mul-div-le, div-eq_of_lt}
use mlsimgsearch.Prelude.{
  ◌==◌, if◌then◌else◌, if_cases, length, concat, ok, fault, ℕ, zero, suc, ◌+◌, ◌-◌, ◌*◌, ◌/◌, ◌≤◌,
  ◌<◌, ◌≡◌, refl, ap, ◌∙◌, false, List, [], ◌∷◌, ◌++◌, append-nil, arith,
}
use mlsimgsearch.Compute.MergeProcessor.{take_part, take_parts, partition_data}

module _ {ℓ} {A : Type ℓ} where
  take_part_lem :
      (len : ℕ) (xs : List A)
      → len ≤ length xs
      → (part rest : List A) × (take_part len xs ≡ ok (part, rest))
        × (part ++ rest ≡ xs)
        × (length part ≡ len)
        × (length rest + len ≡ length xs)
  unfolding take_part
  take_part_lem zero xs h = ([], xs, refl, refl, refl, omega arith)
  take_part_lem (suc len) [] h = absurd (omega arith)
  take_part_lem (suc len) (x ∷ xs) h =
      let (part, rest, e, c, l, m) = take_part_lem len xs (omega arith) in
      (x ∷ part, rest, rw (e) refl, ap (◌∷◌ x) c, ap suc l, omega (arith, m))

  take_parts_lem :
      (n len : ℕ) (xs : List A)
      → n * len ≤ length xs
      → (parts : List (List A)) × (take_parts n len xs ≡ ok parts)
        × (concat parts ≡ xs)
        × (length parts ≡ suc n)
  unfolding take_parts
  take_parts_lem zero len xs h = (xs ∷ [], refl, append-nil xs, refl)
  take_parts_lem (suc n) len xs h =
      let step = suc-mul n len in
      let (part, rest, e, c, l, m) = take_part_lem len xs (omega (arith, step)) in
      let (parts, es, cs, ls) = take_parts_lem n len rest (omega (arith, step, m)) in
      (part ∷ parts, rw (e, es) refl, ap (λ r. part ++ r) cs ∙ c, ap suc ls)

  take_part_short : (len : ℕ) (xs : List A) → length xs < len → take_part len xs ≡ fault
  unfolding take_part
  take_part_short zero xs h = absurd (omega arith)
  take_part_short (suc len) [] h = refl
  take_part_short (suc len) (x ∷ xs) h = rw (take_part_short len xs (omega arith)) refl

  take_parts_short : (n : ℕ) (xs : List A) → length xs < n → take_parts n 1 xs ≡ fault
  unfolding take_parts take_part
  take_parts_short zero xs h = absurd (omega arith)
  take_parts_short (suc n) [] h = refl
  take_parts_short (suc n) (x ∷ xs) h = rw (take_parts_short n xs (omega arith)) refl

  -- A query with at least one word less than there are parts is divided into that many parts, which
  -- make up the query in its order.
  pub partition_data_lem :
      (partition_num : ℕ) (img_qdata : List A)
      → 0 < partition_num
      → partition_num ≤ length img_qdata + 1
      → (parts : List (List A)) × (partition_data partition_num img_qdata ≡ ok parts)
        × (concat parts ≡ img_qdata)
        × (length parts ≡ partition_num)
  unfolding partition_data
  partition_data_lem zero img_qdata p h = absurd (omega arith)
  partition_data_lem (suc m) img_qdata p h =
      let quotient = length img_qdata / suc m in
      let len = if quotient == 0 then 1 else quotient in
      let enough : m * len ≤ length img_qdata =
        if_cases (λ (l : ℕ). m * l ≤ length img_qdata) (quotient == 0) (λ _. omega arith)
          (λ _. omega (arith, mul-div-le (length img_qdata) (suc m), suc-mul m quotient)) in
      let (parts, e, c, l) = take_parts_lem m len img_qdata enough in
      let nonzero : (suc m == 0) ≡ false = ground arith in
      let pred : suc m - 1 ≡ m = omega arith in (parts, rw (nonzero, pred) e, c, l)

  -- A query with fewer words than that makes the iterator run past its end.
  pub partition_data_short :
      (partition_num : ℕ) (img_qdata : List A)
      → length img_qdata + 1 < partition_num
      → partition_data partition_num img_qdata ≡ fault
  unfolding partition_data
  partition_data_short zero img_qdata h = absurd (omega arith)
  partition_data_short (suc m) img_qdata h =
      let nonzero : (suc m == 0) ≡ false = ground arith in
      let none_each : length img_qdata / suc m ≡ 0 = div-eq_of_lt (omega arith) in
      let pred : suc m - 1 ≡ m = omega arith in
      rw (nonzero, none_each, pred) (take_parts_short m img_qdata (omega arith))
