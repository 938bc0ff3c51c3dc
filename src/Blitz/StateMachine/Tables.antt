-- ===== src/Blitz/StateMachine/Tables.antt =====
-- The loops of SetStates and SetTransitions: what the tables find.
use mlsimgsearch.Prelude.{
  All, ℕ, ◌≡◌, sym, ap, ap₂, ◌∙◌, true, false, Option, some, List, [], ◌∷◌, arith, ℕ_discrete,
}
use mlsimgsearch.Prelude.Maps.{lookup, lookup_here, lookup_past, found}
use mlsimgsearch.Blitz.StateMachine.{
  State, Transition, event_key, insert_states, or_empty, insert_transitions,
}

module _ {ℓ} {V : Type ℓ} where
  -- Every entry of a table is one of another.
  abbrev pub Extends : List (ℕ × V) → List (ℕ × V) → Type ℓ
  Extends m table = (k : ℕ) (v : V) → lookup k m ≡ some v → lookup k table ≡ some v

  Extends-past :
      (j : ℕ) (w : V) (m table : List (ℕ × V))
      → found (lookup j m) ≡ false
      → Extends ((j, w) ∷ m) table
      → Extends m table
  Extends-past j w m table fresh ext k v e = elim (ℕ_discrete k j) [
    | yes same ↦ absurd (cc (ap found e, ap (λ i. found (lookup i m)) same))
    | no other ↦ ext k v (lookup_past k j w m other ∙ e)
  ]

module _ {ℓ} {C : Type ℓ} where
  insert_states_step :
      (s : State C) (states : List (State C)) (m table : List (ℕ × State C))
      → insert_states (s ∷ states) m ≡ some table
      → (found (lookup s.id m) ≡ false) × (insert_states states ((s.id, s) ∷ m) ≡ some table)
  unfolding insert_states
  insert_states_step s states m table e = ground (arith, e)

  pub insert_states-Extends :
      (states : List (State C)) (m table : List (ℕ × State C))
      → insert_states states m ≡ some table
      → Extends m table × All (λ s. lookup s.id table ≡ some s) states
  unfolding insert_states
  insert_states-Extends [] m table e = (λ k v h. cc, tt)
  insert_states-Extends (s ∷ states) m table e =
      let (fresh, rest) = insert_states_step s states m table e in
      let (ext, all) = insert_states-Extends states ((s.id, s) ∷ m) table rest in
      (Extends-past s.id s m table fresh ext, (ext s.id s (lookup_here s.id s m), all))

module _ {ℓ} {C E : Type ℓ} where
  -- The table entry by which `GeTransition` finds a transition.
  abbrev pub entry : List (ℕ × List (ℕ × Transition C E)) → ℕ → ℕ → Option (Transition C E)
  entry table state key = lookup key (or_empty (lookup state table))

  abbrev pub Keeps : (table out : List (ℕ × List (ℕ × Transition C E))) → Type ℓ
  Keeps table out =
      (state key : ℕ) (t : Transition C E)
      → entry table state key ≡ some t
      → entry out state key ≡ some t

  entry_here :
      (s k key : ℕ) (t : Transition C E) (events : List (ℕ × Transition C E))
      (table : List (ℕ × List (ℕ × Transition C E)))
      → entry ((s, (k, t) ∷ events) ∷ table) s key ≡ lookup key ((k, t) ∷ events)
  entry_here s k key t events table =
      ap (λ o. lookup key (or_empty o)) (lookup_here s ((k, t) ∷ events) table)

  Keeps-past :
      (s k : ℕ) (t : Transition C E) (table out : List (ℕ × List (ℕ × Transition C E)))
      → found (entry table s k) ≡ false
      → Keeps ((s, (k, t) ∷ or_empty (lookup s table)) ∷ table) out
      → Keeps table out
  Keeps-past s k t table out fresh keeps state key u e =
      let events = or_empty (lookup s table) in
      elim (ℕ_discrete state s) [
        | no other ↦ keeps state key u (
            ap (λ o. lookup key (or_empty o)) (lookup_past state s ((k, t) ∷ events) table other)
            ∙ e)
        | yes same ↦ elim (ℕ_discrete key k) [
          | yes same_key ↦
              absurd (cc (ap found e, ap₂ (λ i j. found (entry table i j)) same same_key))
          | no other ↦ keeps state key u (
              ap (λ i. entry ((s, (k, t) ∷ events) ∷ table) i key) same
              ∙ entry_here s k key t events table
              ∙ lookup_past key k t events other
              ∙ ap (λ i. entry table i key) (sym same)
              ∙ e)
        ]
      ]

  insert_transitions_step :
      (states : List (ℕ × State C)) (t : Transition C E) (ts : List (Transition C E))
      (table out : List (ℕ × List (ℕ × Transition C E)))
      → insert_transitions states (t ∷ ts) table ≡ some out
      → (found (lookup t.state states) ≡ true)
        × (found (entry table t.state (event_key t.event_type)) ≡ false)
        × (insert_transitions states ts
              ((t.state, (event_key t.event_type, t) ∷ or_empty (lookup t.state table)) ∷ table)
            ≡ some out)
  unfolding insert_transitions
  insert_transitions_step states t ts table out e = ground (arith, e)

  pub insert_transitions-Keeps :
      (states : List (ℕ × State C)) (ts : List (Transition C E))
      (table out : List (ℕ × List (ℕ × Transition C E)))
      → insert_transitions states ts table ≡ some out
      → Keeps table out × All (λ t. entry out t.state (event_key t.event_type) ≡ some t) ts
  unfolding insert_transitions
  insert_transitions-Keeps states [] table out e = (λ s k t h. cc, tt)
  insert_transitions-Keeps states (t ∷ ts) table out e =
      let key = event_key t.event_type in
      let events = or_empty (lookup t.state table) in
      let (known, fresh, rest) = insert_transitions_step states t ts table out e in
      let (keeps, all) =
        insert_transitions-Keeps states ts ((t.state, (key, t) ∷ events) ∷ table) out rest in
      (
        Keeps-past t.state key t table out fresh keeps,
        (
          keeps t.state key t
              (entry_here t.state key key t events table ∙ lookup_here key t events),
          all,
        ),
      )
