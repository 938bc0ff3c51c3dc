-- ===== src/Blitz/TokenMgr/Start.antt =====
-- `Init` makes a well-formed manager, all of whose slots are free.
use mlsimgsearch.Prelude.{
  length, get_elem?, in_range, from, length-from, from-All, ok, ℕ, zero, suc, ◌+◌, ◌≤◌, ◌<◌, ◌≡◌,
  refl, sym, ap, ◌∙◌, ◌≢◌, some, List, arith,
}
use mlsimgsearch.Blitz.TokenMgr.{
  u32, get_index, set_index, new_salt, TokenItem, TokenMgr, init_items, init,
}
use mlsimgsearch.Blitz.TokenMgr.Slots.{Chain, Distinct, HasFree}

from-Distinct : (i n : ℕ) → Distinct (from i n)
from-Distinct i zero = tt
from-Distinct i (suc n) =
    (from-All (◌≢◌ i) (suc i) n (λ j a b e. omega (arith, a, e)), from-Distinct (suc i) n)

module _ {ℓ} {A : Type ℓ} (blank : A) where
  abbrev fresh : ℕ → TokenItem A
  fresh i = record { token = new_salt (set_index i 0); data_ = blank; next = suc i }

  get_elem?-init_items :
      (n i j : ℕ) → j < n → get_elem? (init_items blank n i) j ≡ some (fresh (i + j))
  unfolding init_items
  get_elem?-init_items zero i j h = absurd (omega arith)
  get_elem?-init_items (suc n) i zero h = ap (λ k. some (fresh k)) (omega arith)
  get_elem?-init_items (suc n) i (suc j) h =
      get_elem?-init_items n (suc i) j (omega arith) ∙ ap (λ k. some (fresh k)) (omega arith)

  length-init_items : (n i : ℕ) → length (init_items blank n i) ≡ n
  unfolding init_items
  length-init_items zero i = refl
  length-init_items (suc n) i = ap suc (length-init_items n (suc i))

  init_items-Chain :
      (items : List (TokenItem A)) (i n : ℕ)
      → ((j : ℕ) → j < i + n → get_elem? items j ≡ some (fresh j))
      → Chain items i (from (suc i) n)
  init_items-Chain items i zero h = tt
  init_items-Chain items i (suc n) h = (
    fresh i,
    h i (omega arith),
    refl,
    init_items-Chain items (suc i) n (λ j l. h j (omega (arith, l))),
  )

  fresh_token : (i : ℕ) → i ≤ 65535 → (get_index (fresh i).token ≡ i) × ((fresh i).token < u32)
  unfolding get_index set_index new_salt
  fresh_token i h = (omega arith, omega arith)

  -- The array of `Init` with slots 1 to `n` free and the others in use.
  abbrev pub started : ℕ → ℕ → TokenMgr A
  started count n = record { items = init_items blank (suc count) 0; count = count; free_count = n }

  pub started-HasFree :
      (count n : ℕ) → count ≤ 65535 → n ≤ count → HasFree (started count n) (from 1 n)
  started-HasFree count n lc ln =
      let items = init_items blank (suc count) 0 in
      let at : (j : ℕ) → j < suc count → get_elem? items j ≡ some (fresh j) =
        λ j h. get_elem?-init_items (suc count) 0 j h ∙ ap (λ k. some (fresh k)) (omega arith) in
      let len = length-init_items (suc count) 0 in
      record {
        size = len;
        room = lc;
        free = length-from 1 n;
        fits = ln;
        range =
            from-All (λ j. (0 < j) × (j ≤ count)) 1 n
              (λ j a b. (omega (arith, a), omega (arith, b)));
        distinct = from-Distinct 1 n;
        chain = init_items-Chain items 0 n (λ j h. at j (omega (arith, h)));
        tokens = λ i x e.
            let lt : i < suc count = omega (arith, len, in_range items i e) in
            let same : some (fresh i) ≡ some x = sym (at i lt) ∙ e in
            let (a, b) = fresh_token i (omega arith) in ground (arith, a, b);
      }

  -- `Init` with a count that an index can hold gives a well-formed manager whose free slots are
  -- 1 to `count`, in this order.
  pub init-HasFree :
      (count : ℕ)
      → 0 < count
      → count ≤ 65535
      → (m : TokenMgr A) × (init blank count ≡ ok m) × HasFree m (from 1 count)
  unfolding init
  init-HasFree count pc lc =
      (started count count, ground arith, started-HasFree count count lc (omega arith))
