-- ===== src/Blitz/ArrayList.antt =====
-- libsrc/blitz2/include/blitz2/array_list.h: ArrayList, a doubly linked list in an array, whose free
-- elements are a list of their own behind element 0.
pub mod Segments
pub mod Links
pub mod Free
pub mod Rep
pub mod Refine
pub mod Splice
pub mod Start
pub mod Reads
use mlsimgsearch.Prelude.{
  ltb, leb, ◌==◌, if◌then◌else◌, length, get_elem?, replicate, modify, Outcome, ◌>>=◌, ◌>>◌,
  or_fault, must, ok, fault, ℕ, zero, suc, ◌+◌, Bool, false, Option, none, some, List, [], ◌∷◌,
}
use mlsimgsearch.Prelude.Int.{ℤ, pos, negsuc, ◌+ℤ◌, ◌-ℤ◌}

pub record Item {ℓ} (A : Type ℓ) : Type ℓ where
  pub data_ : A
  -- -1 marks a free element.
  pub prev : ℤ
  pub next : ℕ

-- An empty `array` stands for the null pointer: an array that was made has element 0.
pub record ArrayList {ℓ} (A : Type ℓ) : Type ℓ where
  pub array : List (Item A)
  pub head_prev : ℕ
  pub head_next : ℕ
  pub count : ℤ
  pub max_count : ℕ

abbrev pub is_free_mark : ℤ → Bool
is_free_mark (pos n) = false
is_free_mark (negsuc n) = n == 0

-- A negative `prev` taken for a `size_t` lies past every array.
abbrev pub as_index : ℤ → Outcome ℕ
as_index (pos n) = ok n
as_index (negsuc n) = fault

module _ {ℓ} {A : Type ℓ} where
  abbrev pub with_next : ℕ → Item A → Item A
  with_next n item = record { data_ = item.data_; prev = item.prev; next = n }

  abbrev pub with_prev : ℤ → Item A → Item A
  with_prev p item = record { data_ = item.data_; prev = p; next = item.next }

  -- The constructor.
  unfoldable pub no_array : ArrayList A
  no_array = record { array = []; head_prev = 0; head_next = 0; count = pos 0; max_count = 0 }

  -- The loop of `Clear` from element `i` on, and the last element apart.
  unfoldable pub freed : ℕ → List (Item A) → List (Item A)
  freed i [] = []
  freed i (x ∷ []) = record { data_ = x.data_; prev = negsuc 0; next = 0 } ∷ []
  freed i (x ∷ y ∷ items) =
      record { data_ = x.data_; prev = negsuc 0; next = i + 1 } ∷ freed (i + 1) (y ∷ items)

  -- An array that was made.
  abbrev pub cleared : ArrayList A → ArrayList A
  cleared s = record s { array = freed 0 s.array; head_prev = 0; head_next = 0; count = pos 0 }

  -- `Clear`, which writes to the array also when there is none.
  unfoldable pub clear : ArrayList A → Outcome (ArrayList A)
  unfolding freed
  clear s = do must (ltb 0 (length s.array)); ok (cleared s)

  -- `blank` is what `new` makes of an element.
  unfoldable pub init : A → ℕ → ArrayList A → ℕ × ArrayList A
  unfolding freed
  init blank n s =
      let item : Item A = record { data_ = blank; prev = pos 0; next = 0 } in
      if length s.array == 0
      then (0, cleared (record s { array = replicate (n + 1) item; max_count = n }))
      else (1, s)

  abbrev pub item_at : ArrayList A → ℕ → Outcome (Item A)
  item_at s i = or_fault (get_elem? s.array i)

  abbrev pub write : (Item A → Item A) → ℕ → ArrayList A → Outcome (ArrayList A)
  write f i s = must (ltb i (length s.array)) >> ok (record s { array = modify f i s.array })

  -- `array_[prev].next = next`, where 0 stands for the head of the list.
  unfoldable pub link_next : ℕ → ℕ → ArrayList A → Outcome (ArrayList A)
  link_next prev next s =
      if prev == 0 then ok (record s { head_next = next }) else write (with_next next) prev s

  -- The other direction: the element at `next` points back to the one at `prev`.
  unfoldable pub link_prev : ℕ → ℕ → ArrayList A → Outcome (ArrayList A)
  link_prev prev next s =
      if next == 0 then ok (record s { head_prev = prev }) else write (with_prev (pos prev)) next s

  unfoldable pub alloc_from_free_list : ArrayList A → Outcome (ℕ × ArrayList A)
  alloc_from_free_list s = do
    head ← item_at s 0
    let taken = do
      item ← item_at s head.next
      s' ← write (with_next item.next) 0 s
      ok (head.next, record s' { count = s'.count +ℤ pos 1 })
    if head.next == 0 then ok (0, s) else taken

  unfoldable pub return_to_free_list : ℕ → ArrayList A → Outcome (ArrayList A)
  return_to_free_list p s = do
    head ← item_at s 0
    s1 ← write (λ item. record { data_ = item.data_; prev = negsuc 0; next = head.next }) p s
    s2 ← write (with_next p) 0 s1
    ok (record s2 { count = s2.count -ℤ pos 1 })

  unfoldable pub is_free : ArrayList A → ℤ → Outcome Bool
  is_free s (negsuc n) = fault
  is_free s (pos p) = do must (leb p s.max_count); item ← item_at s p; ok (is_free_mark item.prev)

  -- The three assignments to a new element.
  abbrev pub fill : A → ℕ → ℕ → Item A → Item A
  fill x prev next item = record { data_ = x; prev = pos prev; next = next }

  unfoldable pub push_back : ArrayList A → A → Outcome (ℕ × ArrayList A)
  push_back s x = do
    (p, s1) ← alloc_from_free_list s
    let filled = do
      s2 ← write (fill x s1.head_prev 0) p s1
      s3 ← link_next s2.head_prev p s2
      ok (p, record s3 { head_prev = p })
    if p == 0 then ok (0, s1) else filled

  unfoldable pub push_front : ArrayList A → A → Outcome (ℕ × ArrayList A)
  push_front s x = do
    (p, s1) ← alloc_from_free_list s
    let filled = do
      s2 ← write (fill x 0 s1.head_next) p s1
      s3 ← link_prev p s2.head_next s2
      ok (p, record s3 { head_next = p })
    if p == 0 then ok (0, s1) else filled

  -- The branch of `InsertAfter` for an element in use.
  unfoldable pub insert_after_used : ArrayList A → ℕ → A → Outcome (ℤ × ArrayList A)
  insert_after_used s at_ x = do
    (p, s1) ← alloc_from_free_list s
    let filled = do
      item ← item_at s1 at_
      s2 ← write (fill x at_ item.next) p s1
      again ← item_at s2 at_
      s3 ← link_prev p again.next s2
      s4 ← write (with_next p) at_ s3
      ok (pos p, s4)
    if p == 0 then ok (pos 0, s1) else filled

  unfoldable pub insert_after : ArrayList A → ℤ → A → Outcome (ℤ × ArrayList A)
  unfolding is_free
  insert_after s (negsuc n) x = fault
  insert_after s (pos zero) x = push_front s x >>= λ (p, s'). ok (pos p, s')
  insert_after s (pos (suc n)) x = do
    free ← is_free s (pos (suc n))
    if free then ok (negsuc 1, s) else insert_after_used s (suc n) x

  unfoldable pub remove : ArrayList A → ℤ → Outcome (ArrayList A)
  remove s (negsuc n) = ok s
  remove s (pos zero) = ok s
  remove s (pos (suc n)) = do
    item ← item_at s (suc n)
    prev ← as_index item.prev
    s1 ← link_next prev item.next s
    s2 ← link_prev prev item.next s1
    return_to_free_list (suc n) s2

  unfoldable pub next_of : ArrayList A → ℤ → Outcome ℕ
  unfolding is_free
  next_of s (negsuc n) = fault
  next_of s (pos p) = do
    free ← is_free s (pos p)
    item ← item_at s p
    ok (if free then 0 else item.next)

  unfoldable pub prev_of : ArrayList A → ℤ → Outcome ℤ
  unfolding is_free
  prev_of s (negsuc n) = fault
  prev_of s (pos p) = do
    free ← is_free s (pos p)
    item ← item_at s p
    ok (if free then negsuc 0 else item.prev)

  -- `none` is the null pointer.
  unfoldable pub get : ArrayList A → ℤ → Outcome (Option A)
  unfolding is_free
  get s (negsuc n) = fault
  get s (pos p) = do
    free ← is_free s (pos p)
    item ← item_at s p
    ok (if free then none else some item.data_)

  -- The loop of `Print`, which writes the links of each element, with fuel for its rounds.
  unfoldable pub print_loop : ℕ → ArrayList A → ℕ → Outcome (List (ℤ × ℕ))
  print_loop zero s iter = fault
  print_loop (suc fuel) s iter = do
    let round = do
      item ← item_at s iter
      next ← next_of s (pos iter)
      others ← print_loop fuel s next
      ok ((item.prev, item.next) ∷ others)
    if iter == 0 then ok [] else round

  unfoldable pub print : ℕ → ArrayList A → Outcome (List (ℤ × ℕ))
  unfolding print_loop
  print fuel s = do
    links ← print_loop fuel s s.head_next
    ok ((pos s.head_prev, s.head_next) ∷ links)
