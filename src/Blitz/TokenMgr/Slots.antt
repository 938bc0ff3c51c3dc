-- ===== src/Blitz/TokenMgr/Slots.antt =====
-- The free slots of a token manager are a stack, and a token names its slot until it is given back.
use mlsimgsearch.Prelude.{
  length, get_elem?, All, get_elem?_in, modify, get_elem?-modify, get_elem?-modify_ne, ℕ, suc, ◌≤◌,
  ◌<◌, ◌≡◌, sym, ap, ◌∙◌, subst, ◌≢◌, some, List, [], ◌∷◌, arith, ℕ_discrete,
}
use mlsimgsearch.Blitz.TokenMgr.{u32, get_index, get_salt, new_salt, TokenItem, TokenMgr, salted}

abbrev pub Distinct : List ℕ → Type 0
Distinct [] = Unit
Distinct (i ∷ is) = All (◌≢◌ i) is × Distinct is

pub new_salt-index : (t : ℕ) → get_index (new_salt t) ≡ get_index t
unfolding get_index new_salt
new_salt-index t = omega arith

pub new_salt-u32 : (t : ℕ) → t < u32 → new_salt t < u32
unfolding new_salt
new_salt-u32 t h = omega arith

pub new_salt_changes : (t : ℕ) → get_salt (new_salt t) ≢ get_salt t
unfolding get_salt new_salt
new_salt_changes t e = omega arith

module _ {ℓ} {A : Type ℓ} where
  -- From slot `i` on, `next` runs through the slots of the list.
  abbrev pub Chain : List (TokenItem A) → ℕ → List ℕ → Type ℓ
  Chain items i [] = Unit
  Chain items i (j ∷ fl) =
      (x : TokenItem A) × (get_elem? items i ≡ some x) × (x.next ≡ j) × Chain items j fl

  pub Chain-modify :
      (f : TokenItem A → TokenItem A) (k : ℕ) (items : List (TokenItem A)) (i : ℕ) (fl : List ℕ)
      → k ≢ i
      → All (◌≢◌ k) fl
      → Chain items i fl
      → Chain (modify f k items) i fl
  Chain-modify f k items i [] h hs c = tt
  Chain-modify f k items i (j ∷ fl) h (hj, hs) (x, e, n, c) =
      (x, get_elem?-modify_ne f k i items h ∙ e, n, Chain-modify f k items j fl hj hs c)

  pub Chain-salted :
      (k : ℕ) (items : List (TokenItem A)) (i : ℕ) (fl : List ℕ)
      → Chain items i fl
      → Chain (modify salted k items) i fl
  Chain-salted k items i [] c = tt
  Chain-salted k items i (j ∷ fl) (x, e, n, c) = elim (ℕ_discrete k i) [
    | yes same ↦ (
      salted x,
      subst (λ (i' : ℕ). get_elem? (modify salted k items) i' ≡ some (salted x)) same
          (get_elem?-modify salted k items (ap (get_elem? items) same ∙ e)),
      n,
      Chain-salted k items j fl c,
    )
    | no other ↦ (x, get_elem?-modify_ne salted k i items other ∙ e, n, Chain-salted k items j fl c)
  ]

  -- Each token names its own slot.
  abbrev pub TokensOk : List (TokenItem A) → Type ℓ
  TokensOk items =
      (i : ℕ) (x : TokenItem A)
      → get_elem? items i ≡ some x
      → (get_index x.token ≡ i) × (x.token < u32)

  -- The manager is well formed, and `fl` are its free slots in the order in which they are taken.
  pub record HasFree (m : TokenMgr A) (fl : List ℕ) : Type ℓ where
    pub size : length m.items ≡ suc m.count
    pub room : m.count ≤ 65535
    pub free : length fl ≡ m.free_count
    pub fits : m.free_count ≤ m.count
    pub range : All (λ i. (0 < i) × (i ≤ m.count)) fl
    pub distinct : Distinct fl
    pub chain : Chain m.items 0 fl
    pub tokens : TokensOk m.items

  pub TokensOk-modify :
      (f : TokenItem A → TokenItem A) (k : ℕ) (items : List (TokenItem A))
      → ((x : TokenItem A) → get_index (f x).token ≡ get_index x.token)
      → ((x : TokenItem A) → x.token < u32 → (f x).token < u32)
      → k < length items
      → TokensOk items
      → TokensOk (modify f k items)
  TokensOk-modify f k items g b h ok_ i x e = elim (ℕ_discrete k i) [
    | yes same ↦
        let (y, ey) = get_elem?_in items k h in
        let fx : some (f y) ≡ some x =
          sym (get_elem?-modify f k items ey) ∙ ap (get_elem? (modify f k items)) same ∙ e in
        let (oi, ob) = ok_ k y ey in ground (arith, g y, b y ob)
    | no other ↦ ok_ i x (sym (get_elem?-modify_ne f k i items other) ∙ e)
  ]

  pub salted-index : (x : TokenItem A) → get_index (salted x).token ≡ get_index x.token
  salted-index x = new_salt-index x.token
