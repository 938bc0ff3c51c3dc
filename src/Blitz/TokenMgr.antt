-- ===== src/Blitz/TokenMgr.antt =====
-- libsrc/blitz2/include/blitz2/token_mgr.h: numbered slots behind tokens that go stale. A
-- `uint32_t` is a number below 2 ^ 32. The data is of a type whose destructor does nothing, as the
-- pointers that the servers keep.
pub mod Slots
pub mod Stack
pub mod Start
use mlsimgsearch.Prelude.{
  ltb, leb, ◌==◌, get_elem?, modify, Outcome, ◌>>=◌, ◌>>◌, or_fault, must, unless, ok, err, fault,
  ℕ, zero, suc, ◌+◌, ◌-◌, ◌*◌, ◌/◌, ◌%◌, ◌^◌, not, ◌&&◌, Option, none, some, List, [], ◌∷◌,
}

abbrev pub u32 : ℕ
u32 = 2 ^ 32

-- The index stands in the upper 16 bits of a token and the salt in the lower.
unfoldable pub get_index : ℕ → ℕ
get_index token = token / 2 ^ 16

unfoldable pub get_salt : ℕ → ℕ
get_salt token = token % 2 ^ 16

unfoldable pub set_index : ℕ → ℕ → ℕ
set_index index token = index * 2 ^ 16 % u32 + token % 2 ^ 16

unfoldable pub new_salt : ℕ → ℕ
new_salt token = token / 2 ^ 16 * 2 ^ 16 + (token % 2 ^ 16 + 1) % 2 ^ 16

-- The return value -1, as a pattern of 32 bits: `err n` is the return value `n` here.
abbrev pub minus_one : ℕ
minus_one = 0xFFFF_FFFF

pub record TokenItem {ℓ} (A : Type ℓ) : Type ℓ where
  pub token : ℕ
  pub data_ : A
  pub next : ℕ

-- `count_` is one less than the length of the array, `free_count_` counts the free slots.
pub record TokenMgr {ℓ} (A : Type ℓ) : Type ℓ where
  pub items : List (TokenItem A)
  pub count : ℕ
  pub free_count : ℕ

module _ {ℓ} {A : Type ℓ} where
  abbrev pub with_next : ℕ → TokenItem A → TokenItem A
  with_next n x = record { token = x.token; data_ = x.data_; next = n }

  abbrev pub with_data : A → TokenItem A → TokenItem A
  with_data d x = record { token = x.token; data_ = d; next = x.next }

  abbrev pub salted : TokenItem A → TokenItem A
  salted x = record { token = new_salt x.token; data_ = x.data_; next = x.next }

  -- The elements `i` to `i + n - 1` that `Init` makes, with the data that `new` has made.
  unfoldable pub init_items : A → ℕ → ℕ → List (TokenItem A)
  unfolding set_index new_salt
  init_items blank zero i = []
  init_items blank (suc n) i =
      record { token = new_salt (set_index i 0); data_ = blank; next = suc i }
      ∷ init_items blank n (suc i)

  -- `Init` of a manager that has no array yet.
  unfoldable pub init : A → ℕ → Outcome (TokenMgr A)
  unfolding init_items
  init blank count = do
    unless (not (count == 0)) minus_one
    unless (leb count 65535) minus_one
    ok (record { items = init_items blank (suc count) 0; count = count; free_count = count })

  -- `outFreelist`
  unfoldable pub out_freelist : TokenMgr A → Outcome (ℕ × TokenMgr A)
  out_freelist m = do
    head ← or_fault (get_elem? m.items 0)
    let ret = head.next
    slot ← or_fault (get_elem? m.items ret)
    let items = modify (with_next 0) ret (modify (with_next slot.next) 0 m.items)
    ok (ret, record { items = items; count = m.count; free_count = m.free_count - 1 })

  -- `inFreelist`
  unfoldable pub in_freelist : ℕ → TokenMgr A → Outcome (TokenMgr A)
  in_freelist index m = do
    head ← or_fault (get_elem? m.items 0)
    let items = modify (with_next index) 0 (modify (with_next head.next) index m.items)
    ok (record { items = items; count = m.count; free_count = (m.free_count + 1) % u32 })

  -- A manager with no array is `none`.
  unfoldable pub alloc : Option (TokenMgr A) → Outcome (ℕ × TokenMgr A)
  unfolding out_freelist
  alloc none = err minus_one
  alloc (some m) = do
    unless (ltb 0 m.free_count) minus_one
    (index, m') ← out_freelist m
    must (leb index m'.count)
    slot ← or_fault (get_elem? m'.items index)
    ok (slot.token, m')

  -- The checks that the operations on a token share: the element that the token names.
  unfoldable pub find_item : TokenMgr A → ℕ → Outcome (TokenItem A)
  unfolding get_index get_salt
  find_item m token = do
    let index = get_index token
    unless (ltb 0 index && leb index m.count) 1
    slot ← or_fault (get_elem? m.items index)
    unless (get_salt slot.token == get_salt token) 2
    ok slot

  unfoldable pub set_data : Option (TokenMgr A) → ℕ → A → Outcome (TokenMgr A)
  unfolding find_item
  set_data none token d = err minus_one
  set_data (some m) token d = do
    slot ← find_item m token
    let items = modify (with_data d) (get_index token) m.items
    ok (record { items = items; count = m.count; free_count = m.free_count })

  -- `GetData`: every refusal is a null pointer.
  unfoldable pub get_data : Option (TokenMgr A) → ℕ → Option A
  unfolding find_item
  get_data none token = none
  get_data (some m) token = elim (find_item m token) [
    | ok slot ↦ some slot.data_
    | err n ↦ none
    | fault ↦ none
  ]

  unfoldable pub dealloc : Option (TokenMgr A) → ℕ → Outcome (TokenMgr A)
  unfolding find_item in_freelist
  dealloc none token = err minus_one
  dealloc (some m) token = do
    slot ← find_item m token
    let items = modify salted (get_index token) m.items
    in_freelist (get_index token)
        (record { items = items; count = m.count; free_count = m.free_count })

  unfoldable pub uninit : Option (TokenMgr A) → Option (TokenMgr A)
  uninit m = none
