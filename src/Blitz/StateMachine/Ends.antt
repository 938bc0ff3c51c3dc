-- ===== src/Blitz/StateMachine/Ends.antt =====
-- Starting a context and handling an event end when the arcs lead down.
use mlsimgsearch.Prelude.{
  ltb, Bool-cases, Option-cases, get_elem?, ok, ℕ, ◌+◌, ◌%◌, ◌<◌, ◌≡◌, refl, ap, ◌∙◌, ◌⊎◌, inl, inr,
  none, some, ◌∷◌,
}
use mlsimgsearch.Prelude.Int.{ℤ, pos, negsuc}
use mlsimgsearch.Prelude.Maps.{lookup, update, found, AllEntries}
use mlsimgsearch.Blitz.StateMachine.{
  Transition, Event, InternalContext, StateMachine, event_key, ge_transition, settle, after_action,
  fire, react, find_context, process_event, start_one_context,
}
use mlsimgsearch.Blitz.StateMachine.Goto.{StateDescends, goto_state_ends}
use mlsimgsearch.Blitz.StateMachine.Events.{ge_transition-AllEntries}

module _ {ℓ} {C E : Type ℓ} (rank : ℕ → ℕ) (fuel : ℕ) where
  -- A transition leads to a state within the fuel, whatever its action returns.
  abbrev pub Leads : ℕ → Transition C E → Type ℓ
  Leads key t =
      (body : E) (id : ℕ) (c : C)
      → (next : ℕ) × (get_elem? t.action_arcs (t.action body id c).1 ≡ some next)
        × (rank next < fuel)

  -- StartOneContext returns: when each action, from a state that is not the end state, leads to
  -- no state or to one of a lower rank, fuel above the rank of the start state is enough for the
  -- recursion of InternalGotoState.
  pub start_one_context_ends :
      (c : C) (m : StateMachine C E)
      → AllEntries (StateDescends rank m.end_state) m.states
      → rank m.start_state < fuel
      → (code : ℤ) × (m' : StateMachine C E) × (start_one_context fuel c m ≡ ok (code, m'))
  unfolding start_one_context
  start_one_context_ends c m down h =
      let id = (m.next_context_id + 1) % 0x1_0000_0000 in
      let ctx : InternalContext C = record {
        context = c;
        id = id;
        cur_state = m.start_state;
        prev_state = 0;
      } in
      let m1 = record m { next_context_id = id; contexts = (id, ctx) ∷ m.contexts } in
      let (r, run) = goto_state_ends rank m.states m.end_state down fuel ctx m.start_state h in
      elim (Bool-cases (found (lookup id m.contexts))) [
        | inl taken ↦
            (negsuc 1, record m { next_context_id = id; ended = c ∷ m.ended }, rw taken refl)
        | inr free ↦ (pos 0, settle r m1, rw (free, run) refl)
      ]

  after_action_ends :
      (ctx : InternalContext C) (next : ℕ) (m : StateMachine C E)
      → AllEntries (StateDescends rank m.end_state) m.states
      → rank next < fuel
      → (m' : StateMachine C E) × (after_action fuel ctx next m ≡ ok (0, m'))
  unfolding after_action
  after_action_ends ctx next m down h =
      let (r, run) = goto_state_ends rank m.states m.end_state down fuel ctx next h in
      elim (Bool-cases (ltb 0 next)) [
        | inl moves ↦ (settle r m, rw (moves, run) refl)
        | inr stays ↦ (record m { contexts = update ctx.id ctx m.contexts }, rw stays refl)
      ]

  fire_ends :
      (ctx : InternalContext C) (body : E) (m : StateMachine C E) (key : ℕ) (t : Transition C E)
      → AllEntries (StateDescends rank m.end_state) m.states
      → Leads key t
      → (m' : StateMachine C E) × (fire fuel ctx body m (some t) ≡ ok (0, m'))
  unfolding fire
  fire_ends ctx body m key t down leads =
      let (next, e, h) = leads body ctx.id ctx.context in
      let ctx' = record ctx { context = (t.action body ctx.id ctx.context).0 } in
      let (m', run) = after_action_ends ctx' next m down h in (m', rw e run)

  -- ProcessEvent returns, when actions do not call the machine, those of states lead down in rank
  -- and transitions lead to states whose rank is below the fuel. It returns 1 and changes nothing
  -- when no living context has the id, 2 and changes nothing when the context's state has no
  -- transition for the event, and 0 when it has one, whether or not the callback is called then.
  pub process_event_ends :
      (id : ℕ) (event : Event E) (m : StateMachine C E)
      → AllEntries (StateDescends rank m.end_state) m.states
      → AllEntries (λ s events. AllEntries Leads events) m.transitions
      → ((lookup id m.contexts ≡ none) × (process_event fuel id event m ≡ ok (1, m)))
        ⊎ ((ctx : InternalContext C) × (lookup id m.contexts ≡ some ctx)
            × ((ge_transition m ctx.cur_state event.type_ ≡ none)
                  × (process_event fuel id event m ≡ ok (2, m))
                ⊎ ((t : Transition C E) × (ge_transition m ctx.cur_state event.type_ ≡ some t)
                    × (m' : StateMachine C E) × (process_event fuel id event m ≡ ok (0, m')))))
  unfolding process_event react find_context fire
  process_event_ends id event m down leads = elim (Option-cases (lookup id m.contexts)) [
    | inl absent ↦ inl (absent, ap (react fuel event m) absent)
    | inr (ctx, known) ↦
        let reacts = ap (react fuel event m) known in
        let go = fire fuel ctx event.body m in
        elim (Option-cases (ge_transition m ctx.cur_state event.type_)) [
          | inl none_ ↦ inr (ctx, known, inl (none_, reacts ∙ ap go none_))
          | inr (t, some_) ↦
              let lead = ge_transition-AllEntries Leads m ctx.cur_state event.type_ t leads some_ in
              let (m', run) = fire_ends ctx event.body m (event_key event.type_) t down lead in
              inr (ctx, known, inr (t, some_, m', reacts ∙ ap go some_ ∙ run))
        ]
  ]
