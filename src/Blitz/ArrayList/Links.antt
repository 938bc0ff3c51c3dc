-- ===== src/Blitz/ArrayList/Links.antt =====
-- A list in an array as two runs with a gap, and what assigning its links does to them.
use mlsimgsearch.Prelude.{
  lt→ltb, ne→==, length, get_elem?, modify, length-modify, get_elem?-modify_ne, in_range, ok, ℕ,
  suc, ◌+◌, ◌≤◌, ◌<◌, ◌≡◌, refl, ap, ◌∙◌, ◌≢◌, List, [], ◌∷◌, arith,
}
use mlsimgsearch.Prelude.Int.{pos}
use mlsimgsearch.Blitz.ArrayList.{Item, ArrayList, with_next, with_prev, link_next, link_prev}
use mlsimgsearch.Blitz.ArrayList.Segments.{
  occurs, occurs_self, positions, first_of, last_of, Linked, FreeChain, last_of-occurs,
  Linked-elsewhere, FreeChain-elsewhere, Linked-next, Linked-prev,
}

module _ {ℓ} {A : Type ℓ} where
  -- No element is used twice.
  abbrev pub Apart : List ℕ → List ℕ → List (ℕ × A) → List (ℕ × A) → Type 0
  Apart fl mid xs ys =
      (k : ℕ)
      → occurs k (0 ∷ fl) + occurs k mid + occurs k (positions xs) + occurs k (positions ys) ≤ 1

  -- The list is `xs` and `ys`; the last of `xs` is linked to `a`, the first of `ys` to `b`.
  pub record Parts (s : ArrayList A) (fl : List ℕ) (xs ys : List (ℕ × A)) (a b : ℕ) : Type ℓ where
    pub size : length s.array ≡ suc s.max_count
    pub chain : FreeChain s.array (0 ∷ fl)
    pub left : Linked s.array 0 xs a
    pub right : Linked s.array b ys 0
    pub first : s.head_next ≡ first_of xs a
    pub last : s.head_prev ≡ last_of b ys

  -- What an assignment outside the elements `ps` leaves alone.
  pub record Keeps (s s' : ArrayList A) (ps : List ℕ) : Type ℓ where
    pub count : s'.count ≡ s.count
    pub max_count : s'.max_count ≡ s.max_count
    pub elsewhere : (k : ℕ) → occurs k ps ≡ 0 → get_elem? s'.array k ≡ get_elem? s.array k

  Linked-in_range :
      (array : List (Item A)) (before : ℕ) (x : ℕ × A) (xs : List (ℕ × A)) (after : ℕ)
      → Linked array before (x ∷ xs) after
      → last_of before (x ∷ xs) < length array
  Linked-in_range array before (p, x) [] after (e, l) = in_range array p e
  Linked-in_range array before (p, x) (y ∷ xs) after (e, l) = Linked-in_range array p y xs after l

  pub write_elsewhere :
      (f : Item A → Item A) (i : ℕ) (array : List (Item A)) (ps : List ℕ)
      → 1 ≤ occurs i ps
      → (k : ℕ) → occurs k ps ≡ 0
      → get_elem? (modify f i array) k ≡ get_elem? array k
  write_elsewhere f i array ps h k z =
      get_elem?-modify_ne f i k array (λ same. omega (arith, ap (λ j. occurs j ps) same, h, z))

  pub link_next_used :
      (prev next : ℕ) (s : ArrayList A)
      → prev ≢ 0
      → prev < length s.array
      → link_next prev next s ≡ ok (record s { array = modify (with_next next) prev s.array })
  unfolding link_next
  link_next_used prev next s h l = rw (ne→== prev 0 h, lt→ltb _ _ l) refl

  link_prev_used :
      (prev next : ℕ) (s : ArrayList A)
      → next ≢ 0
      → next < length s.array
      → link_prev prev next s ≡ ok (record s { array = modify (with_prev (pos prev)) next s.array })
  unfolding link_prev
  link_prev_used prev next s h l = rw (ne→== next 0 h, lt→ltb _ _ l) refl

  pub link_next-Parts :
      (s : ArrayList A) (fl mid : List ℕ) (xs ys : List (ℕ × A)) (a a' b : ℕ)
      → Apart fl mid xs ys
      → Parts s fl xs ys a b
      → (s' : ArrayList A) × (link_next (last_of 0 xs) a' s ≡ ok s')
        × Parts s' fl xs ys a' b
        × Keeps s s' (positions xs)
  unfolding link_next
  link_next-Parts s fl mid [] ys a a' b apart parts = (
    record s { head_next = a' },
    refl,
    record {
      size = parts.size;
      chain = parts.chain;
      left = tt;
      right = parts.right;
      first = refl;
      last = parts.last;
    },
    record { count = refl; max_count = refl; elsewhere = λ k z. refl },
  )
  link_next-Parts s fl mid (x ∷ xs) ys a a' b apart parts =
      let p : ℕ = last_of 0 (x ∷ xs) in
      let there : 1 ≤ occurs p (positions (x ∷ xs)) = last_of-occurs 0 x xs in
      let other = write_elsewhere (with_next a') p s.array (positions (x ∷ xs)) there in
      let inside = Linked-in_range s.array 0 x xs a parts.left in
      (
        record s { array = modify (with_next a') p s.array },
        link_next_used p a' s
            (λ same. omega (arith, apart 0, there, ap (λ k. occurs k (positions (x ∷ xs))) same))
            inside,
        record {
          size = length-modify (with_next a') p s.array ∙ parts.size;
          chain =
              FreeChain-elsewhere s.array (modify (with_next a') p s.array) (0 ∷ fl)
                (λ k h. other k (omega (arith, apart k, h))) parts.chain;
          left = Linked-next s.array 0 x xs a a' (λ k. omega (arith, apart k)) parts.left;
          right =
              Linked-elsewhere s.array (modify (with_next a') p s.array) b ys 0
                (λ k h. other k (omega (arith, apart k, h))) parts.right;
          first = parts.first;
          last = parts.last;
        },
        record { count = refl; max_count = refl; elsewhere = other },
      )

  pub link_prev-Parts :
      (s : ArrayList A) (fl mid : List ℕ) (xs ys : List (ℕ × A)) (a b b' : ℕ)
      → Apart fl mid xs ys
      → Parts s fl xs ys a b
      → (s' : ArrayList A) × (link_prev b' (first_of ys 0) s ≡ ok s')
        × Parts s' fl xs ys a b'
        × Keeps s s' (positions ys)
  unfolding link_prev
  link_prev-Parts s fl mid xs [] a b b' apart parts = (
    record s { head_prev = b' },
    refl,
    record {
      size = parts.size;
      chain = parts.chain;
      left = parts.left;
      right = tt;
      first = parts.first;
      last = refl;
    },
    record { count = refl; max_count = refl; elsewhere = λ k z. refl },
  )
  link_prev-Parts s fl mid xs ((p, y) ∷ ys) a b b' apart parts =
      let there : 1 ≤ occurs p (p ∷ positions ys) = omega (arith, occurs_self p (positions ys)) in
      let other = write_elsewhere (with_prev (pos b')) p s.array (p ∷ positions ys) there in
      let inside = in_range s.array p parts.right.0 in
      (
        record s { array = modify (with_prev (pos b')) p s.array },
        link_prev_used b' p s
            (λ same. omega (arith, apart 0, there, ap (λ k. occurs k (p ∷ positions ys)) same))
            inside,
        record {
          size = length-modify (with_prev (pos b')) p s.array ∙ parts.size;
          chain =
              FreeChain-elsewhere s.array (modify (with_prev (pos b')) p s.array) (0 ∷ fl)
                (λ k h. other k (omega (arith, apart k, h))) parts.chain;
          left =
              Linked-elsewhere s.array (modify (with_prev (pos b')) p s.array) 0 xs a
                (λ k h. other k (omega (arith, apart k, h))) parts.left;
          right =
              Linked-prev s.array b b' p y ys 0
                (omega (arith, apart p, occurs_self p (positions ys))) parts.right;
          first = parts.first;
          last = parts.last;
        },
        record { count = refl; max_count = refl; elsewhere = other },
      )
