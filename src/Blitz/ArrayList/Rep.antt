-- ===== src/Blitz/ArrayList/Rep.antt =====
-- What it means that an array list holds a sequence, and how an element gets its place in it.
use mlsimgsearch.Prelude.{
  length, get_elem?, length-append, get_elem?_in, modify, length-modify, get_elem?-modify, ok, ℕ,
  suc, ◌+◌, ◌≤◌, ◌<◌, ◌≡◌, sym, ap, ◌∙◌, ◌≢◌, some, List, [], ◌∷◌, ◌++◌, arith,
}
use mlsimgsearch.Prelude.Int.{ℤ, pos, ◌+ℤ◌, ◌-ℤ◌}
use mlsimgsearch.Blitz.ArrayList.{Item, ArrayList, fill, alloc_from_free_list}
use mlsimgsearch.Blitz.ArrayList.Segments.{
  occurs, occurs_self, positions, first_of, last_of, Linked, FreeChain, first_of-append,
  last_of-append, occurs-append, Linked-elsewhere, FreeChain-elsewhere, Linked-split, Linked-join,
}
use mlsimgsearch.Blitz.ArrayList.Links.{Apart, Parts, write_elsewhere}
use mlsimgsearch.Blitz.ArrayList.Free.{alloc_from_free_list-Parts}

one_more : (c c' : ℤ) (n : ℕ) → c ≡ pos n → c' ≡ c +ℤ pos 1 → c' ≡ pos (suc n)
unfolding ◌+ℤ◌
one_more c c' n e e' = e' ∙ ap (λ (z : ℤ). z +ℤ pos 1) e ∙ ground arith

pub one_less : (c c' : ℤ) (n : ℕ) → c ≡ pos (suc n) → c' ≡ c -ℤ pos 1 → c' ≡ pos n
unfolding ◌-ℤ◌
one_less c c' n e e' = e' ∙ ap (λ (z : ℤ). z -ℤ pos 1) e ∙ ground arith

module _ {ℓ} {A : Type ℓ} where
  -- The array list holds `xs`, each element with its position, and `fl` are its free elements in
  -- the order in which they are taken.
  pub record Rep (s : ArrayList A) (xs : List (ℕ × A)) (fl : List ℕ) : Type ℓ where
    pub size : length s.array ≡ suc s.max_count
    pub chain : FreeChain s.array (0 ∷ fl)
    pub nodes : Linked s.array 0 xs 0
    pub first : s.head_next ≡ first_of xs 0
    pub last : s.head_prev ≡ last_of 0 xs
    pub apart : (k : ℕ) → occurs k (0 ∷ fl) + occurs k (positions xs) ≤ 1
    pub count : s.count ≡ pos (length xs)
    pub all : length xs + length fl ≡ s.max_count

  pub Rep-Apart :
      (s : ArrayList A) (xs ys : List (ℕ × A)) (fl : List ℕ)
      → Rep s (xs ++ ys) fl
      → Apart fl [] xs ys
  Rep-Apart s xs ys fl rep k = omega (arith, rep.apart k, occurs-append k xs ys)

  pub Rep-Parts :
      (s : ArrayList A) (xs ys : List (ℕ × A)) (fl : List ℕ)
      → Rep s (xs ++ ys) fl
      → Parts s fl xs ys (first_of ys 0) (last_of 0 xs)
  Rep-Parts s xs ys fl rep =
      let (left, right) = Linked-split s.array 0 xs ys 0 rep.nodes in
      record {
        size = rep.size;
        chain = rep.chain;
        left = left;
        right = right;
        first = rep.first ∙ first_of-append xs ys 0;
        last = rep.last ∙ last_of-append 0 xs ys;
      }

  pub Parts-Rep :
      (s : ArrayList A) (xs ys : List (ℕ × A)) (fl : List ℕ)
      → Parts s fl xs ys (first_of ys 0) (last_of 0 xs)
      → Apart fl [] xs ys
      → s.count ≡ pos (length xs + length ys)
      → length xs + length ys + length fl ≡ s.max_count
      → Rep s (xs ++ ys) fl
  Parts-Rep s xs ys fl parts apart count all = record {
    size = parts.size;
    chain = parts.chain;
    nodes = Linked-join s.array 0 xs ys 0 parts.left parts.right;
    first = parts.first ∙ sym (first_of-append xs ys 0);
    last = parts.last ∙ sym (last_of-append 0 xs ys);
    apart = λ k. omega (arith, apart k, occurs-append k xs ys);
    count = count ∙ ap pos (sym (length-append xs ys));
    all = omega (arith, all, length-append xs ys);
  }

  abbrev pub filled : A → ℕ → ℕ → ℕ → ArrayList A → ArrayList A
  filled x prev next j s = record s { array = modify (fill x prev next) j s.array }

  pub fill-Parts :
      (s : ArrayList A) (x : A) (prev next j : ℕ) (fl : List ℕ) (xs ys : List (ℕ × A)) (a b : ℕ)
      → Apart fl (j ∷ []) xs ys
      → Parts s fl xs ys a b
      → Parts (filled x prev next j s) fl xs ys a b
  fill-Parts s x prev next j fl xs ys a b apart parts =
      let array : List (Item A) = modify (fill x prev next) j s.array in
      let away =
        write_elsewhere (fill x prev next) j s.array (j ∷ []) (omega (arith, occurs_self j [])) in
      record {
        size = length-modify (fill x prev next) j s.array ∙ parts.size;
        chain =
            FreeChain-elsewhere s.array array (0 ∷ fl) (λ k h. away k (omega (arith, apart k, h)))
              parts.chain;
        left =
            Linked-elsewhere s.array array 0 xs a (λ k h. away k (omega (arith, apart k, h)))
              parts.left;
        right =
            Linked-elsewhere s.array array b ys 0 (λ k h. away k (omega (arith, apart k, h)))
              parts.right;
        first = parts.first;
        last = parts.last;
      }

  pub fill_node :
      (s : ArrayList A) (x : A) (prev next j : ℕ)
      → j < length s.array
      → get_elem? (filled x prev next j s).array j
        ≡ some (record { data_ = x; prev = pos prev; next = next })
  fill_node s x prev next j h =
      let (item, e) = get_elem?_in s.array j h in get_elem?-modify (fill x prev next) j s.array e

  -- The new element stands between the two runs.
  pub inserted-Rep :
      (s : ArrayList A) (x : A) (j : ℕ) (fl : List ℕ) (xs ys : List (ℕ × A))
      → Apart fl (j ∷ []) xs ys
      → Parts s fl xs ys j j
      → get_elem? s.array j
        ≡ some (record { data_ = x; prev = pos (last_of 0 xs); next = first_of ys 0 })
      → s.count ≡ pos (suc (length xs + length ys))
      → suc (length xs + length ys + length fl) ≡ s.max_count
      → Rep s (xs ++ (j, x) ∷ ys) fl
  inserted-Rep s x j fl xs ys apart parts node count all =
      Parts-Rep s xs ((j, x) ∷ ys) fl
        record {
          size = parts.size;
          chain = parts.chain;
          left = parts.left;
          right = (node, parts.right);
          first = parts.first;
          last = parts.last;
        }
        (λ k. omega (arith, apart k)) (count ∙ ap pos (omega arith)) (omega arith)

  -- An element is taken for a place between the two runs.
  pub record Taken (s s' : ArrayList A) (j : ℕ) (fl : List ℕ) (xs ys : List (ℕ × A)) : Type ℓ where
    pub taken : alloc_from_free_list s ≡ ok (j, s')
    pub parts : Parts s' fl xs ys (first_of ys 0) (last_of 0 xs)
    pub apart : Apart fl (j ∷ []) xs ys
    pub inside : j < length s'.array
    pub nonzero : j ≢ 0
    pub count : s'.count ≡ pos (suc (length xs + length ys))
    pub all : suc (length xs + length ys + length fl) ≡ s'.max_count

  pub Rep-Taken :
      (s : ArrayList A) (j : ℕ) (fl : List ℕ) (xs ys : List (ℕ × A))
      → Rep s (xs ++ ys) (j ∷ fl)
      → (s' : ArrayList A) × Taken s s' j fl xs ys
  Rep-Taken s j fl xs ys rep =
      let apart = Rep-Apart s xs ys (j ∷ fl) rep in
      let parts = Rep-Parts s xs ys (j ∷ fl) rep in
      let (s', taken, parts', inside, count, max_count) =
        alloc_from_free_list-Parts s j fl xs ys (first_of ys 0) (last_of 0 xs) apart parts in
      (
        s',
        record {
          taken = taken;
          parts = parts';
          apart = λ k. omega (arith, apart k);
          inside = inside;
          nonzero =
              λ same. omega (arith, apart 0, occurs_self j fl, ap (λ k. occurs k (j ∷ fl)) same);
          count =
              one_more s.count s'.count (length xs + length ys)
                (rep.count ∙ ap pos (length-append xs ys)) count;
          all = omega (arith, max_count, rep.all, length-append xs ys);
        },
      )
