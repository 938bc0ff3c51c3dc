-- ===== src/Search/Serializer/Bytes.antt =====
-- `memcpy` between objects and bytes: `dump_data` and `memcpy_data` of indexer_serializer.cc.
use mlsimgsearch.Prelude.{
  leb, length, length-append, take, All, Outcome, ◌>>=◌, ◌>>◌, must, ok, fault, ℕ, zero, suc, ◌+◌,
  ◌*◌, ◌/◌, ◌%◌, ◌<◌, ◌≡◌, refl, ap, List, [], ◌∷◌, ◌++◌, append_assoc, arith,
}

-- The `k` bytes of an object, and the object made of the first `k` bytes.
unfoldable pub to_le : ℕ → ℕ → List ℕ
to_le zero n = []
to_le (suc k) n = (n % 256) ∷ to_le k (n / 256)

unfoldable pub read_le : ℕ → List ℕ → Outcome (ℕ × List ℕ)
read_le zero bs = ok (0, bs)
read_le (suc k) [] = fault
read_le (suc k) (b ∷ bs) = do (n, rest) ← read_le k bs; ok (b + 256 * n, rest)

-- The bytes of an array whose elements take `k` bytes.
unfoldable pub bytes_of : ℕ → List ℕ → List ℕ
unfolding to_le
bytes_of k [] = []
bytes_of k (w ∷ ws) = to_le k w ++ bytes_of k ws

-- `count` elements of `k` bytes.
unfoldable pub read_words : ℕ → ℕ → List ℕ → Outcome (List ℕ × List ℕ)
unfolding read_le
read_words k zero bs = ok ([], bs)
read_words k (suc count) bs = do
  (w, rest) ← read_le k bs
  (ws, rest') ← read_words k count rest
  ok (w ∷ ws, rest')

-- `memcpy` of `n` bytes out of an array that holds the bytes given.
unfoldable pub copy : ℕ → List ℕ → Outcome (List ℕ)
copy n bs = must (leb n (length bs)) >> ok (take n bs)

-- 256 to the power `k`.
abbrev pub byte_width : ℕ → ℕ
byte_width zero = 1
byte_width (suc k) = 256 * byte_width k

pub length-to_le : (k n : ℕ) → length (to_le k n) ≡ k
unfolding to_le
length-to_le zero n = refl
length-to_le (suc k) n = ap suc (length-to_le k (n / 256))

pub read_le-to_le :
    (k n : ℕ) (rest : List ℕ) → n < byte_width k → read_le k (to_le k n ++ rest) ≡ ok (n, rest)
unfolding to_le read_le
read_le-to_le zero n rest h = ap (λ (m : ℕ). ok (m, rest)) (omega arith)
read_le-to_le (suc k) n rest h =
    rw (read_le-to_le k (n / 256) rest (omega arith)) (ap (λ (m : ℕ). ok (m, rest)) (omega arith))

pub length-bytes_of : (k : ℕ) (ws : List ℕ) → length (bytes_of k ws) ≡ k * length ws
unfolding bytes_of
length-bytes_of k [] = omega arith
length-bytes_of k (w ∷ ws) =
    omega (arith, length-append (to_le k w) (bytes_of k ws), length-to_le k w, length-bytes_of k ws)

pub read_words-bytes_of :
    (k : ℕ) (ws : List ℕ) (rest : List ℕ)
    → All (λ w. w < byte_width k) ws
    → read_words k (length ws) (bytes_of k ws ++ rest) ≡ ok (ws, rest)
unfolding bytes_of read_words
read_words-bytes_of k [] rest h = refl
read_words-bytes_of k (w ∷ ws) rest (h, hs) =
    rw
      (
        append_assoc (to_le k w) (bytes_of k ws) rest,
        read_le-to_le k w (bytes_of k ws ++ rest) h,
        read_words-bytes_of k ws rest hs,
      )
      refl

take_all {ℓ} : {A : Type ℓ} (xs : List A) → take (length xs) xs ≡ xs
take_all [] = refl
take_all (x ∷ xs) = ap (◌∷◌ x) (take_all xs)

pub copy_all : (n : ℕ) (bs : List ℕ) → length bs ≡ n → copy n bs ≡ ok bs
unfolding copy
copy_all n bs e = rw (← e) (ground (arith, take_all bs))
