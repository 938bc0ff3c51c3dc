-- ===== src/Blitz/StateMachine/Events.antt =====
-- ProcessEvent of a state machine.
use mlsimgsearch.Prelude.{
  ltb, Option-cases, if_cases, get_elem?, or_fault, >>=-eq-ok, ok-eq-ok, ok, ℕ, ◌≡◌, refl, sym, ap,
  ◌∙◌, subst, inl, inr, Option, none, some, arith,
}
use mlsimgsearch.Prelude.Int.{ℤ}
use mlsimgsearch.Prelude.Maps.{
  lookup, AllEntries, AllBut-weaken, lookup-AllEntries, AllEntries-update, UniqueKeys-update,
}
use mlsimgsearch.Blitz.StateMachine.{
  Transition, Event, InternalContext, StateMachine, event_key, or_empty, ge_transition, goto_state,
  settle, after_action, fire, react, find_context, process_event,
}
use mlsimgsearch.Blitz.StateMachine.Goto.{Rests, StateKeeps}
use mlsimgsearch.Blitz.StateMachine.Runs.{
  TransitionKeeps, EventsKeep, Lives, WellFormed, Advances, goto_settle, HasWeight, living-update,
}

module _ {ℓ} {C E : Type ℓ} where
  module _ {κ} (Q : ℕ → Transition C E → Type κ) where
    -- What holds of all transitions holds of the one that is found.
    pub ge_transition-AllEntries :
        (m : StateMachine C E) (state : ℕ) (event : ℤ) (t : Transition C E)
        → AllEntries (λ s events. AllEntries Q events) m.transitions
        → ge_transition m state event ≡ some t
        → Q (event_key event) t
    unfolding ge_transition
    ge_transition-AllEntries m state event t all e =
        elim (Option-cases (lookup state m.transitions)) [
          | inl absent ↦ cc (sym (ap (λ o. lookup (event_key event) (or_empty o)) absent) ∙ e)
          | inr (events, known) ↦
              lookup-AllEntries Q (event_key event) t events
                (lookup-AllEntries (λ s es. AllEntries Q es) state events m.transitions all known)
                (sym (ap (λ o. lookup (event_key event) (or_empty o)) known) ∙ e)
        ]

  module _ {κ} (P : C → Type κ) (weigh : C → ℕ) where
    after_action-WellFormed :
        (fuel : ℕ) (old ctx : InternalContext C) (next : ℕ) (m m' : StateMachine C E) (code : ℕ)
        → AllEntries (StateKeeps P) m.states
        → ((n : ℕ) → AllEntries (StateKeeps (HasWeight weigh n)) m.states)
        → WellFormed P m
        → lookup ctx.id m.contexts ≡ some old
        → weigh ctx.context ≡ weigh old.context
        → P ctx.context
        → Rests m.states m.end_state ctx
        → after_action fuel ctx next m ≡ ok (code, m')
        → Advances P weigh 0 m m'
    unfolding after_action
    after_action-WellFormed fuel old ctx next m m' code keep weight wf known w p rests =
        let each = AllBut-weaken (Lives P m) ctx.id m.contexts wf.each in
        if_cases (λ out. out ≡ ok (code, m') → Advances P weigh 0 m m') (ltb 0 next)
          (λ moves e.
            let (r, run, e') =
              >>=-eq-ok (goto_state fuel m.states m.end_state ctx next) (λ r. ok (0, settle r m))
                e in
            subst (Advances P weigh 0 m) (ap (λ (r : ℕ × StateMachine C E). r.1) (ok-eq-ok e')) (
              goto_settle P weigh m fuel ctx next r old keep (weight (weigh ctx.context)) wf.unique
                each known w wf.done p run))
          (λ stays e.
            subst (Advances P weigh 0 m) (ap (λ (r : ℕ × StateMachine C E). r.1) (ok-eq-ok e)) (
              record {
                unique = UniqueKeys-update ctx.id ctx m.contexts wf.unique;
                each =
                    AllEntries-update (Lives P m) ctx.id ctx m.contexts wf.unique each
                      (refl, p, rests);
                done = wf.done;
              },
              omega (arith, living-update weigh ctx.id old ctx m.contexts known w),
              (refl, refl, refl),
            ))

    fire-WellFormed :
        (fuel : ℕ) (ctx : InternalContext C) (body : E) (m m' : StateMachine C E) (key code : ℕ)
        (o : Option (Transition C E))
        → AllEntries (StateKeeps P) m.states
        → ((n : ℕ) → AllEntries (StateKeeps (HasWeight weigh n)) m.states)
        → ((t : Transition C E) → o ≡ some t → TransitionKeeps P key t)
        → ((n : ℕ) (t : Transition C E) → o ≡ some t → TransitionKeeps (HasWeight weigh n) key t)
        → WellFormed P m
        → lookup ctx.id m.contexts ≡ some ctx
        → P ctx.context
        → Rests m.states m.end_state ctx
        → fire fuel ctx body m o ≡ ok (code, m')
        → Advances P weigh 0 m m'
    unfolding fire
    fire-WellFormed fuel ctx body m m' key code none keep weight keeps weights wf known p rests e =
        subst (Advances P weigh 0 m) (ap (λ (r : ℕ × StateMachine C E). r.1) (ok-eq-ok e))
          (wf, omega arith, (refl, refl, refl))
    fire-WellFormed fuel ctx body m m' key code (some t) keep weight keeps weights wf known p rests
          e =
        let ctx' = record ctx { context = (t.action body ctx.id ctx.context).0 } in
        let (next, e1, e2) =
          >>=-eq-ok (or_fault (get_elem? t.action_arcs (t.action body ctx.id ctx.context).1))
            (λ next. after_action fuel ctx' next m) e in
        after_action-WellFormed fuel ctx ctx' next m m' code keep weight wf known
          (weights (weigh ctx.context) t refl body ctx.id ctx.context refl)
          (keeps t refl body ctx.id ctx.context p) rests e2

    pub process_event-WellFormed :
        (fuel id : ℕ) (event : Event E) (m m' : StateMachine C E) (code : ℕ)
        → AllEntries (StateKeeps P) m.states
        → ((n : ℕ) → AllEntries (StateKeeps (HasWeight weigh n)) m.states)
        → AllEntries (EventsKeep P) m.transitions
        → ((n : ℕ) → AllEntries (EventsKeep (HasWeight weigh n)) m.transitions)
        → WellFormed P m
        → process_event fuel id event m ≡ ok (code, m')
        → Advances P weigh 0 m m'
    unfolding process_event react find_context
    process_event-WellFormed fuel id event m m' code keep weight keeps weights wf e =
        elim (Option-cases (lookup id m.contexts)) [
          | inl absent ↦
              subst (Advances P weigh 0 m)
                (ap (λ (r : ℕ × StateMachine C E). r.1)
                  (ok-eq-ok (sym (ap (react fuel event m) absent) ∙ e)))
                (wf, omega arith, (refl, refl, refl))
          | inr (ctx, known) ↦
              let (same, p, rests) =
                lookup-AllEntries (Lives P m) id ctx m.contexts wf.each known in
              fire-WellFormed fuel ctx event.body m m' (event_key event.type_) code
                (ge_transition m ctx.cur_state event.type_) keep weight
                (λ t found_.
                  ge_transition-AllEntries (TransitionKeeps P) m ctx.cur_state event.type_ t keeps
                    found_)
                (λ n t found_.
                  ge_transition-AllEntries (TransitionKeeps (HasWeight weigh n)) m ctx.cur_state
                    event.type_ t (weights n) found_)
                wf (ap (λ k. lookup k m.contexts) same ∙ known) p rests
                (sym (ap (react fuel event m) known) ∙ e)
        ]
