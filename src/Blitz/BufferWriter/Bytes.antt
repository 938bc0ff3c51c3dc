-- ===== src/Blitz/BufferWriter/Bytes.antt =====
-- Integers are stored with the highest byte first.
use mlsimgsearch.Prelude.{
  length, length-append, get_or, ℕ, zero, suc, ◌+◌, ◌*◌, ◌/◌, ◌%◌, ◌<◌, ◌≡◌, refl, ap₂, List, [],
  ◌∷◌, ◌++◌, arith,
}
use mlsimgsearch.Search.Serializer.Bytes.{to_le, byte_width}
use mlsimgsearch.Blitz.BufferWriter.{ntohs, ntohl}

-- The last `k` bytes of a number, the highest first.
unfoldable pub to_be : ℕ → ℕ → List ℕ
to_be zero n = []
to_be (suc k) n = to_be k (n / 256) ++ (n % 256) ∷ []

-- The number that bytes stand for, the highest first.
unfoldable pub read_be : ℕ → List ℕ → ℕ
read_be n [] = n
read_be n (b ∷ bs) = read_be (256 * n + b) bs

read_be-snoc : (n b : ℕ) (bs : List ℕ) → read_be n (bs ++ b ∷ []) ≡ 256 * read_be n bs + b
unfolding read_be
read_be-snoc n b [] = refl
read_be-snoc n b (c ∷ bs) = read_be-snoc (256 * n + c) b bs

pub read_be-to_be : (k n : ℕ) → n < byte_width k → read_be 0 (to_be k n) ≡ n
unfolding to_be read_be
read_be-to_be zero n h = omega arith
read_be-to_be (suc k) n h =
    omega
      (arith, read_be-snoc 0 (n % 256) (to_be k (n / 256)), read_be-to_be k (n / 256) (omega arith))

pub length-to_be : (k n : ℕ) → length (to_be k n) ≡ k
unfolding to_be
length-to_be zero n = refl
length-to_be (suc k) n =
    omega (arith, length-append (to_be k (n / 256)) ((n % 256) ∷ []), length-to_be k (n / 256))

pub to_le-ntohs : (n : ℕ) → n < 0x1_0000 → to_le 2 (ntohs n) ≡ to_be 2 n
unfolding to_le to_be
to_le-ntohs n h = ap₂ (λ a b. a ∷ b ∷ []) (omega arith) (omega arith)

pub to_le-ntohl : (n : ℕ) → n < 0x1_0000_0000 → to_le 4 (ntohl n) ≡ to_be 4 n
unfolding to_le to_be
to_le-ntohl n h =
    ap₂ (λ a b. a ∷ b) (omega arith)
      (ap₂ (λ a b. a ∷ b) (omega arith) (ap₂ (λ a b. a ∷ b ∷ []) (omega arith) (omega arith)))

pub reversed_bytes :
    (n : ℕ)
    → get_or (to_le 8 n) 7 0
        ∷ get_or (to_le 8 n) 6 0
        ∷ get_or (to_le 8 n) 5 0
        ∷ get_or (to_le 8 n) 4 0
        ∷ get_or (to_le 8 n) 3 0
        ∷ get_or (to_le 8 n) 2 0
        ∷ get_or (to_le 8 n) 1 0
        ∷ get_or (to_le 8 n) 0 0
        ∷ []
      ≡ to_be 8 n
unfolding to_le to_be
reversed_bytes n = refl
