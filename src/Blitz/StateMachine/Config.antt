-- ===== src/Blitz/StateMachine/Config.antt =====
-- Init of a state machine: the tables of states and transitions.
use mlsimgsearch.Prelude.{
  if_cases, All, >>=-eq-ok, ok-eq-ok, ok, ℕ, zero, suc, ◌≡◌, refl, sym, ap, ◌∙◌, subst, ◌≢◌, true,
  Option, none, some, List, [], arith,
}
use mlsimgsearch.Prelude.Int.{ℤ, pos, negsuc}
use mlsimgsearch.Prelude.Maps.{lookup, found}
use mlsimgsearch.Blitz.StateMachine.{
  State, Transition, StateMachine, insert_states, ge_state, ge_transition, store_states, set_states,
  store_transitions, insert_transitions, set_transitions, checked, configure, init,
}
use mlsimgsearch.Blitz.StateMachine.Tables.{insert_states-Extends, insert_transitions-Keeps}

module _ {ℓ} {C E : Type ℓ} where
  store_states_ok :
      (m m1 : StateMachine C E) (o : Option (List (ℕ × State C)))
      → store_states m o ≡ (pos 0, m1)
      → (table : List (ℕ × State C)) × (o ≡ some table)
        × (found (lookup m.end_state table) ≡ true)
        × (record m { states = table } ≡ m1)
  unfolding store_states ge_state
  store_states_ok m m1 none e = cc (ap (λ r. r.0) e)
  store_states_ok m m1 (some table) e = (
    table,
    refl,
    if_cases (λ c. c ≡ pos 0 → found (lookup m.end_state table) ≡ true)
        (found (lookup m.end_state table)) (λ known h. known) (λ unknown h. cc) (ap (λ r. r.0) e),
    ap (λ r. r.1) e,
  )

  set_states_ok :
      (states : List (State C)) (start_state end_state : ℕ) (m m1 : StateMachine C E)
      → set_states states start_state end_state m ≡ ok (pos 0, m1)
      → store_states
          (record m { start_state = start_state; end_state = end_state })
          (insert_states states [])
        ≡ (pos 0, m1)
  unfolding set_states
  set_states_ok states start_state end_state m m1 e = ground (arith, e)

  checked_ok :
      (r : ℤ × StateMachine C E) (m : StateMachine C E) → checked r ≡ (pos 0, m) → r ≡ (pos 0, m)
  unfolding checked
  checked_ok (pos zero, m1) m e = e
  checked_ok (pos (suc n), m1) m e = cc (ap (λ r. r.0) e)
  checked_ok (negsuc n, m1) m e = cc (ap (λ r. r.0) e)

  configure_ok :
      (ts : List (Transition C E)) (r : ℤ × StateMachine C E) (m : StateMachine C E)
      → configure ts r ≡ (pos 0, m)
      → (r.0 ≡ pos 0) × (set_transitions ts r.1 ≡ (pos 0, m))
  unfolding configure
  configure_ok ts (pos zero, m1) m e = (refl, checked_ok (set_transitions ts m1) m e)
  configure_ok ts (pos (suc n), m1) m e = cc (ap (λ r. r.0) e)
  configure_ok ts (negsuc n, m1) m e = cc (ap (λ r. r.0) e)

  store_transitions_ok :
      (m m1 : StateMachine C E) (o : Option (List (ℕ × List (ℕ × Transition C E))))
      → store_transitions m o ≡ (pos 0, m1)
      → (table : List (ℕ × List (ℕ × Transition C E))) × (o ≡ some table)
        × (record m { transitions = table } ≡ m1)
  unfolding store_transitions
  store_transitions_ok m m1 none e = cc (ap (λ r. r.0) e)
  store_transitions_ok m m1 (some table) e = (table, refl, ap (λ r. r.1) e)

  -- The tables hold all that was given.
  abbrev pub Configured :
      List (State C) → List (Transition C E) → ℕ → ℕ → StateMachine C E → StateMachine C E → Type ℓ
  Configured states transitions start_state end_state m m' =
      All (λ s. ge_state m' s.id ≡ some s) states
      × All (λ t. ge_transition m' t.state t.event_type ≡ some t) transitions
      × (found (ge_state m' end_state) ≡ true)
      × (m'.start_state ≡ start_state)
      × (m'.end_state ≡ end_state)
      × (m'.contexts ≡ m.contexts)
      × (m'.ended ≡ m.ended)

  -- When Init returns 0, each state that was given is found by its id, each transition by its
  -- state and event type, and the end state is one of the states. The start and end state are
  -- set, and the contexts and the callbacks made are as before.
  pub init-Configured :
      (states : List (State C)) (transitions : List (Transition C E)) (start_state end_state : ℕ)
      (m m' : StateMachine C E)
      → init states transitions start_state end_state m ≡ ok (pos 0, m')
      → Configured states transitions start_state end_state m m'
  unfolding init set_transitions ge_state ge_transition
  init-Configured states transitions start_state end_state m m' e =
      let ((code, m1), e1, e2) =
        >>=-eq-ok (set_states states start_state end_state m) (λ r. ok (configure transitions r))
          e in
      let (zero_, set2) = configure_ok transitions (code, m1) m' (ok-eq-ok e2) in
      let stored =
        set_states_ok states start_state end_state m m1 (e1 ∙ ap (λ c. ok (c, m1)) zero_) in
      let (table, inserted, end_known, same1) =
        store_states_ok (record m { start_state = start_state; end_state = end_state }) m1
          (insert_states states []) stored in
      let (out, inserted2, same2) =
        store_transitions_ok m1 m' (insert_transitions m1.states transitions m1.transitions) set2 in
      let all_states = (insert_states-Extends states [] table inserted).1 in
      let all = (insert_transitions-Keeps m1.states transitions m1.transitions out inserted2).1 in
      let whole : record m {
        start_state = start_state;
        end_state = end_state;
        states = table;
        transitions = out;
      }
          ≡ m' =
        ap (λ (n : StateMachine C E). record n { transitions = out }) same1 ∙ same2 in
      subst (Configured states transitions start_state end_state m) whole
        (all_states, all, end_known, refl, refl, refl, refl)

  -- A machine whose states are set cannot be configured again: the second call empties it.
  checked_not_ok :
      (r : ℤ × StateMachine C E) (code : ℤ) (m : StateMachine C E)
      → code ≢ pos 0
      → checked r ≡ (code, m)
      → (m.states ≡ []) × (m.transitions ≡ []) × (m.contexts ≡ r.1.contexts)
  unfolding checked
  checked_not_ok (pos zero, m1) code m h e = absurd (h (sym (ap (λ r. r.0) e)))
  checked_not_ok (pos (suc n), m1) code m h e = (
    ap (λ r. r.1.states) (sym e),
    ap (λ r. r.1.transitions) (sym e),
    ap (λ r. r.1.contexts) (sym e),
  )
  checked_not_ok (negsuc n, m1) code m h e = (
    ap (λ r. r.1.states) (sym e),
    ap (λ r. r.1.transitions) (sym e),
    ap (λ r. r.1.contexts) (sym e),
  )
