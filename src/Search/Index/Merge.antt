-- ===== src/Search/Index/Merge.antt =====
-- index_merger: the merge of two lists, and the index that it writes.
use mlsimgsearch.Prelude.{
  ltb, ◌==◌, if◌then◌else◌, ltb→lt, ==_iff, if_cases, length, length-set, length-replicate, All,
  from, from-All, All-from, >>=-eq-ok, ok, ℕ, zero, suc, ◌+◌, ◌^◌, ◌≤◌, ◌<◌, ◌≡◌, refl, ap, ◌∙◌,
  subst, true, false, Option, none, some, List, [], ◌∷◌, arith, ℕ_discrete,
}
use mlsimgsearch.Prelude.Int.{pos}
use mlsimgsearch.Search.Hints.{no_hint, new_hinter}
use mlsimgsearch.Search.Serializer.{IndexItem, WordIndex, signed_key}
use mlsimgsearch.Search.Index.{
  IndexFile, new_index, write_word, load_word, merge_items, merger_words, merge_loop, index_merger,
  fail_as,
}
use mlsimgsearch.Search.Index.Load.{
  Fits, extended, write_word_lem, load_extended, load_word-write_word_ne,
}

-- A later picture than `x`.
abbrev pub Later : IndexItem → IndexItem → Type 0
Later x y = signed_key x.pic_id < signed_key y.pic_id

-- The ids of a list rise, and fit 64 bits.
abbrev pub Rising : List IndexItem → Type 0
Rising [] = Unit {0}
Rising (x ∷ xs) = (x.pic_id < 2 ^ 64) × All (Later x) xs × Rising xs

module _ {ℓ} (P : IndexItem → Type ℓ) where
  merge_items-All :
      (fuel : ℕ) (old new : List IndexItem)
      → All P old
      → All P new
      → All P (merge_items fuel old new)
  unfolding merge_items
  merge_items-All zero old new p q = tt
  merge_items-All (suc fuel) [] new p q = q
  merge_items-All (suc fuel) (o ∷ old) [] p q = p
  merge_items-All (suc fuel) (o ∷ old) (n ∷ new) p q =
      if_cases (All P) (o.pic_id == n.pic_id) (λ _. (q.0, merge_items-All fuel old new p.1 q.1))
        (λ _.
          if_cases (All P) (ltb (signed_key o.pic_id) (signed_key n.pic_id))
            (λ _. (p.0, merge_items-All fuel old (n ∷ new) p.1 q))
            (λ _. (q.0, merge_items-All fuel (o ∷ old) new p q.1)))

Later-trans :
    (x y : IndexItem) (ys : List IndexItem) → Later x y → All (Later y) ys → All (Later x) ys
Later-trans x y [] h hs = tt
Later-trans x y (z ∷ ys) h hs = (omega (arith, hs.0), Later-trans x y ys h hs.1)

pub key_injective : (a b : ℕ) → a < 2 ^ 64 → b < 2 ^ 64 → signed_key a ≡ signed_key b → a ≡ b
unfolding signed_key
key_injective a b h k e = omega arith

module _ (o n : IndexItem) where
  key_lt : ltb (signed_key o.pic_id) (signed_key n.pic_id) ≡ true → Later o n
  key_lt h = ltb→lt _ _ h

  key_gt :
      o.pic_id < 2 ^ 64
      → n.pic_id < 2 ^ 64
      → o.pic_id == n.pic_id ≡ false
      → ltb (signed_key o.pic_id) (signed_key n.pic_id) ≡ false
      → Later n o
  key_gt h k ne nl = ground (arith, key_injective o.pic_id n.pic_id h k)

-- The merge of two rising lists rises.
pub merge_items-Rising :
    (fuel : ℕ) (old new : List IndexItem)
    → Rising old
    → Rising new
    → Rising (merge_items fuel old new)
unfolding merge_items
merge_items-Rising zero old new p q = tt
merge_items-Rising (suc fuel) [] new p q = q
merge_items-Rising (suc fuel) (o ∷ old) [] p q = p
merge_items-Rising (suc fuel) (o ∷ old) (n ∷ new) (ho, po, p) (hn, qn, q) =
    if_cases Rising (o.pic_id == n.pic_id)
      (λ same.
        let e : signed_key o.pic_id ≡ signed_key n.pic_id = ap signed_key ((==_iff _ _).0 same) in
        (
          hn,
          merge_items-All (Later n) fuel old new
              (subst (λ (k : ℕ). All (λ (y : IndexItem). k < signed_key y.pic_id) old) e po) qn,
          merge_items-Rising fuel old new p q,
        ))
      (λ ne.
        if_cases Rising (ltb (signed_key o.pic_id) (signed_key n.pic_id))
          (λ lt.
            let h = key_lt o n lt in
            (
              ho,
              merge_items-All (Later o) fuel old (n ∷ new) po (h, Later-trans o n new h qn),
              merge_items-Rising fuel old (n ∷ new) p (hn, qn, q),
            ))
          (λ ge.
            let h = key_gt o n ho hn ne ge in
            (
              hn,
              merge_items-All (Later n) fuel (o ∷ old) new (h, Later-trans n o old h po) qn,
              merge_items-Rising fuel (o ∷ old) new (ho, po, p) q,
            )))

-- The item of a picture.
unfoldable pub find_pic : ℕ → List IndexItem → Option IndexItem
find_pic id [] = none
find_pic id (x ∷ xs) = if x.pic_id == id then some x else find_pic id xs

abbrev pub or_else {ℓ} : {A : Type ℓ} → Option A → Option A → Option A
or_else (some a) o = some a
or_else none o = o

pub find_pic_later :
    (k id : ℕ) (xs : List IndexItem)
    → All (λ y. k < signed_key y.pic_id) xs
    → signed_key id ≤ k
    → find_pic id xs ≡ none
unfolding find_pic
find_pic_later k id [] h e = refl
find_pic_later k id (x ∷ xs) (h, hs) e =
    if_cases (λ (r : Option IndexItem). r ≡ none) (x.pic_id == id)
      (λ same. absurd (omega (arith, ap signed_key ((==_iff _ _).0 same))))
      (λ _. find_pic_later k id xs hs e)

find_pic_first :
    (x : IndexItem) (id : ℕ) (xs : List IndexItem)
    → All (Later x) xs
    → x.pic_id ≡ id
    → find_pic id xs ≡ none
find_pic_first x id xs h e =
    find_pic_later (signed_key x.pic_id) id xs h (omega (arith, ap signed_key e))

-- Each picture has its new item, or else its old one.
pub find_pic-merge_items :
    (fuel : ℕ) (old new : List IndexItem) (id : ℕ)
    → length old + length new < fuel
    → Rising old
    → Rising new
    → find_pic id (merge_items fuel old new) ≡ or_else (find_pic id new) (find_pic id old)
unfolding merge_items find_pic
find_pic-merge_items zero old new id h p q = absurd (omega arith)
find_pic-merge_items (suc fuel) [] new id h p q = ground arith
find_pic-merge_items (suc fuel) (o ∷ old) [] id h p q = refl
find_pic-merge_items (suc fuel) (o ∷ old) (n ∷ new) id h (ho, po, p) (hn, qn, q) =
    let answer : List IndexItem → Type 0 =
      λ l. find_pic id l ≡ or_else (find_pic id (n ∷ new)) (find_pic id (o ∷ old)) in
    if_cases answer (o.pic_id == n.pic_id)
      (λ same. ground (arith, find_pic-merge_items fuel old new id (omega arith) p q))
      (λ ne.
        if_cases answer (ltb (signed_key o.pic_id) (signed_key n.pic_id))
          (λ lt.
            let later = key_lt o n lt in
            ground (
              arith,
              find_pic-merge_items fuel old (n ∷ new) id (omega arith) p (hn, qn, q),
              find_pic_first o id (n ∷ new) (later, Later-trans o n new later qn),
            ))
          (λ ge.
            ground (arith, find_pic-merge_items fuel (o ∷ old) new id (omega arith) (ho, po, p) q)))

-- `merger_words` gives the rising list of all pictures of both lists, with the new item where a
-- picture has one.
pub merger_words_lem :
    (old new : WordIndex)
    → Rising old.items
    → Rising new.items
    → Rising (merger_words old new).items
      × ((id : ℕ)
          → find_pic id (merger_words old new).items
            ≡ or_else (find_pic id new.items) (find_pic id old.items))
unfolding merger_words
merger_words_lem old new p q = (
  merge_items-Rising (suc (length old.items + length new.items)) old.items new.items p q,
  λ id.
      find_pic-merge_items (suc (length old.items + length new.items)) old.items new.items id
        (omega arith) p q,
)

-- What the loop has saved when it has done the words from `i` to `i + k`.
merge_loop_keeps :
    (k i : ℕ) (old new saved saved' : IndexFile) (j : ℕ) (word : WordIndex)
    → merge_loop k i old new saved ≡ ok saved'
    → j < i
    → load_word saved (pos j) ≡ ok word
    → load_word saved' (pos j) ≡ ok word
unfolding merge_loop
merge_loop_keeps zero i old new saved saved' j word e lt l = ground arith
merge_loop_keeps (suc k) i old new saved saved' j word e lt l =
    let (o, _, e1) = >>=-eq-ok (fail_as 6 (load_word old (pos i))) _ e in
    let (n, _, e2) = >>=-eq-ok (fail_as 7 (load_word new (pos i))) _ e1 in
    let (next, w, e3) = >>=-eq-ok (write_word saved (pos i) (merger_words o n)) _ e2 in
    merge_loop_keeps k (suc i) old new next saved' j word e3 (omega arith)
      (load_word-write_word_ne saved next i j (merger_words o n) word w (omega arith) l)

module _ (old new : IndexFile) (olds news : ℕ → WordIndex) where
  abbrev Loads : ℕ → Type 0
  Loads j =
      (load_word old (pos j) ≡ ok (olds j))
      × (load_word new (pos j) ≡ ok (news j))
      × Fits (merger_words (olds j) (news j))

  abbrev Saved : IndexFile → ℕ → Type 0
  Saved file j = load_word file (pos j) ≡ ok (merger_words (olds j) (news j))

  merge_step :
      (k i : ℕ) (saved : IndexFile)
      → Loads i
      → i < length saved.hints
      → merge_loop (suc k) i old new saved
        ≡ merge_loop k (suc i) old new (extended saved i (merger_words (olds i) (news i)))
  unfolding merge_loop
  merge_step k i saved (o, n, v) h =
      rw (o, n, write_word_lem saved i (merger_words (olds i) (news i)) h v) refl

  merge_loop_lem :
      (k i : ℕ) (saved : IndexFile)
      → ((j : ℕ) → j < i + k → Loads j)
      → i + k ≤ length saved.hints
      → (saved' : IndexFile) × (merge_loop k i old new saved ≡ ok saved')
        × ((j : ℕ) → i ≤ j → j < i + k → Saved saved' j)
  unfolding merge_loop
  merge_loop_lem zero i saved l h = (saved, refl, λ j p q. absurd (omega arith))
  merge_loop_lem (suc k) i saved l h =
      let word = merger_words (olds i) (news i) in
      let (lo, ln, lv) = l i (omega arith) in
      let next = extended saved i word in
      let (saved', e, all) =
        merge_loop_lem k (suc i) next (λ j p. l j (omega arith))
          (omega (arith, length-set saved.hints i)) in
      (
        saved',
        merge_step k i saved (lo, ln, lv) (omega arith) ∙ e,
        λ j p q. elim (ℕ_discrete i j) [
          | yes same ↦ subst (Saved saved') same (
              merge_loop_keeps k (suc i) old new next saved' i word e (omega arith)
                (load_extended saved i word (omega arith) lv))
          | no other ↦ all j (omega arith) (omega arith)
        ],
      )

-- When the lists of words 0 to `k - 1` can be read in both indexes and their merges fit,
-- `index_merger` saves an index in which `LoadWord` finds for each word the merge of its two lists.
pub index_merger_lem :
    (k : ℕ) (old new : IndexFile) (olds news : ℕ → WordIndex)
    → All (λ j. load_word old (pos j) ≡ ok (olds j)) (from 0 k)
    → All (λ j. load_word new (pos j) ≡ ok (news j)) (from 0 k)
    → All (λ j. Fits (merger_words (olds j) (news j))) (from 0 k)
    → (saved : IndexFile) × (index_merger k old new ≡ ok saved)
      × All (λ j. load_word saved (pos j) ≡ ok (merger_words (olds j) (news j))) (from 0 k)
unfolding index_merger new_index new_hinter
index_merger_lem k old new olds news o n v =
    let loads : (j : ℕ) → j < 0 + k → Loads old new olds news j = λ j p. (
      All-from (λ j. load_word old (pos j) ≡ ok (olds j)) 0 k j o (omega arith) p,
      All-from (λ j. load_word new (pos j) ≡ ok (news j)) 0 k j n (omega arith) p,
      All-from (λ j. Fits (merger_words (olds j) (news j))) 0 k j v (omega arith) p,
    ) in
    let (saved, e, all) =
      merge_loop_lem old new olds news k 0 (new_index k) loads
        (omega (arith, length-replicate k no_hint)) in
    (
      saved,
      e,
      from-All (λ j. load_word saved (pos j) ≡ ok (merger_words (olds j) (news j))) 0 k
          (λ j a b. all j a b),
    )
