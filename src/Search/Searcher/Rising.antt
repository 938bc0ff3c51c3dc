-- ===== src/Search/Searcher/Rising.antt =====
-- The results stand by rising picture ids, and are looked up by their id.
use mlsimgsearch.Prelude.{
  ◌==◌, if◌then◌else◌, ==_iff, if_cases, All, ℕ, ◌^◌, ◌≤◌, ◌<◌, ◌≡◌, refl, ap, Option, none, some,
  List, [], ◌∷◌, ◌++◌, arith,
}
use mlsimgsearch.Search.Serializer.{signed_key}
use mlsimgsearch.Search.Index.Merge.{or_else}
use mlsimgsearch.Search.Searcher.{MergeSimilarInfo}

abbrev pub Behind : ℕ → List MergeSimilarInfo → Type 0
Behind k rs = All (λ r. k < signed_key r.pic_id) rs

-- The results stand by rising picture ids that fit 64 bits.
abbrev pub RisingResults : List MergeSimilarInfo → Type 0
RisingResults [] = Unit {0}
RisingResults (r ∷ rs) = (r.pic_id < 2 ^ 64) × Behind (signed_key r.pic_id) rs × RisingResults rs

-- The result of a picture.
unfoldable pub find_result : ℕ → List MergeSimilarInfo → Option MergeSimilarInfo
find_result id [] = none
find_result id (r ∷ rs) = if r.pic_id == id then some r else find_result id rs

pub find_result-append :
    (id : ℕ) (xs ys : List MergeSimilarInfo)
    → find_result id (xs ++ ys) ≡ or_else (find_result id xs) (find_result id ys)
unfolding find_result
find_result-append id [] ys = refl
find_result-append id (x ∷ xs) ys =
    if_cases
      (λ c.
        (if x.pic_id == id then some x else find_result id (xs ++ ys))
        ≡ or_else c (find_result id ys))
      (x.pic_id == id) (λ t. ground (arith, t))
      (λ f. ground (arith, f, find_result-append id xs ys))

pub Behind-append :
    (k : ℕ) (xs ys : List MergeSimilarInfo) → Behind k xs → Behind k ys → Behind k (xs ++ ys)
Behind-append k [] ys p q = q
Behind-append k (x ∷ xs) ys (px, p) q = (px, Behind-append k xs ys p q)

pub Behind-weaken : (j k : ℕ) (xs : List MergeSimilarInfo) → j ≤ k → Behind k xs → Behind j xs
Behind-weaken j k [] h p = tt
Behind-weaken j k (x ∷ xs) h (px, p) = (omega (arith, px), Behind-weaken j k xs h p)

abbrev pub UpTo : ℕ → List MergeSimilarInfo → Type 0
UpTo k rs = All (λ r. signed_key r.pic_id ≤ k) rs

pub RisingResults-append :
    (k : ℕ) (xs ys : List MergeSimilarInfo)
    → RisingResults xs
    → UpTo k xs
    → RisingResults ys
    → Behind k ys
    → RisingResults (xs ++ ys)
RisingResults-append k [] ys p u q b = q
RisingResults-append k (x ∷ xs) ys (h, px, p) (ux, u) q b = (
  h,
  Behind-append (signed_key x.pic_id) xs ys px (Behind-weaken (signed_key x.pic_id) k ys ux b),
  RisingResults-append k xs ys p u q b,
)

pub find_result-Behind :
    (k id : ℕ) (rs : List MergeSimilarInfo)
    → Behind k rs
    → signed_key id ≤ k
    → find_result id rs ≡ none
unfolding find_result
find_result-Behind k id [] p h = refl
find_result-Behind k id (r ∷ rs) (pr, p) h =
    if_cases (λ (o : Option MergeSimilarInfo). o ≡ none) (r.pic_id == id)
      (λ same. absurd (omega (arith, ap signed_key ((==_iff _ _).0 same))))
      (λ _. find_result-Behind k id rs p h)

pub find_result-UpTo :
    (k id : ℕ) (rs : List MergeSimilarInfo)
    → UpTo k rs
    → k < signed_key id
    → find_result id rs ≡ none
unfolding find_result
find_result-UpTo k id [] p h = refl
find_result-UpTo k id (r ∷ rs) (pr, p) h =
    if_cases (λ (o : Option MergeSimilarInfo). o ≡ none) (r.pic_id == id)
      (λ same. absurd (omega (arith, ap signed_key ((==_iff _ _).0 same))))
      (λ _. find_result-UpTo k id rs p h)
