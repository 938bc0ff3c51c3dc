-- ===== src/Blitz/StateMachine/Goto.antt =====
-- InternalGotoState: what it keeps, and why it ends.
use mlsimgsearch.Prelude.{
  ◌==◌, ==_iff, ne→==, Option-cases, if_cases, get_elem?, Outcome, or_fault, >>=-eq-ok, ok-eq-ok,
  ok, ℕ, zero, suc, ◌<◌, ◌≡◌, refl, sym, ap, ◌∙◌, subst, ◌≢◌, ◌⊎◌, inl, inr, true, Option, none,
  some, List, arith, ℕ_discrete,
}
use mlsimgsearch.Prelude.Int.{ℤ, pos, negsuc}
use mlsimgsearch.Prelude.Maps.{lookup, found, AllEntries, lookup-AllEntries}
use mlsimgsearch.Blitz.StateMachine.{State, InternalContext, leave, act, finish, enter, goto_state}

module _ {ℓ} {C : Type ℓ} where
  -- A context that lives on rests in a state of the machine that is not the end state.
  abbrev pub Rests : List (ℕ × State C) → ℕ → InternalContext C → Type 0
  Rests states end_state ctx =
      (found (lookup ctx.cur_state states) ≡ true) × (ctx.cur_state ≢ end_state)

  abbrev pub ActionKeeps {κ} : (C → Type κ) → Option (ℕ → C → C × ℕ) → Type (ℓ ⊔ κ)
  ActionKeeps P none = Unit
  ActionKeeps P (some f) = (id : ℕ) (c : C) → P c → P (f id c).0

  abbrev pub StateKeeps {κ} : (C → Type κ) → ℕ → State C → Type (ℓ ⊔ κ)
  StateKeeps P k state = ActionKeeps P state.action

  -- From state `k` an action leads to no state or to one of a lower rank.
  abbrev pub ActionDescends : (ℕ → ℕ) → ℕ → List ℕ → Option (ℕ → C → C × ℕ) → Type ℓ
  ActionDescends rank k arcs none = Unit
  ActionDescends rank k arcs (some f) =
      (id : ℕ) (c : C)
      → (next : ℕ) × (get_elem? arcs (f id c).1 ≡ some next) × ((next ≡ 0) ⊎ (rank next < rank k))

  abbrev pub StateDescends : (ℕ → ℕ) → ℕ → ℕ → State C → Type ℓ
  StateDescends rank end_state k state =
      (k ≡ end_state) ⊎ ActionDescends rank k state.action_arcs state.action

  module _ {κ} (P : C → Type κ) (states : List (ℕ × State C)) (end_state : ℕ) where
    abbrev pub Good : InternalContext C → ℤ × InternalContext C → Type κ
    Good ctx r = (r.1.id ≡ ctx.id) × P r.1.context × (r.0 ≡ pos 0 → Rests states end_state r.1)

    leave-Good :
        (go : InternalContext C → ℕ → Outcome (ℤ × InternalContext C)) (ctx : InternalContext C)
        (next : ℕ) (r : ℤ × InternalContext C)
        → (go ctx next ≡ ok r → Good ctx r)
        → P ctx.context
        → Rests states end_state ctx
        → leave go ctx next ≡ ok r
        → Good ctx r
    unfolding leave
    leave-Good go ctx next r ih p rests =
        if_cases (λ out. out ≡ ok r → Good ctx r) (next == 0)
          (λ stay e. subst (Good ctx) (ok-eq-ok e) (refl, p, λ h. rests)) (λ on e. ih e)

    act-Good :
        (go : InternalContext C → ℕ → Outcome (ℤ × InternalContext C)) (arcs : List ℕ)
        (ctx : InternalContext C) (action : Option (ℕ → C → C × ℕ)) (r : ℤ × InternalContext C)
        → ((ctx' : InternalContext C) (next : ℕ)
            → P ctx'.context
            → go ctx' next ≡ ok r
            → Good ctx' r)
        → P ctx.context
        → Rests states end_state ctx
        → ActionKeeps P action
        → act go arcs ctx action ≡ ok r
        → Good ctx r
    unfolding act
    act-Good go arcs ctx none r ih p rests keeps e =
        subst (Good ctx) (ok-eq-ok e) (refl, p, λ h. rests)
    act-Good go arcs ctx (some f) r ih p rests keeps e =
        let ctx' = record ctx { context = (f ctx.id ctx.context).0 } in
        let (next, e1, e2) =
          >>=-eq-ok (or_fault (get_elem? arcs (f ctx.id ctx.context).1)) (leave go ctx') e in
        leave-Good go ctx' next r (ih ctx' next (keeps ctx.id ctx.context p))
          (keeps ctx.id ctx.context p) rests e2

    finish-Good :
        (ctx : InternalContext C) (action : Option (ℕ → C → C × ℕ))
        → P ctx.context
        → ActionKeeps P action
        → ((finish ctx action).id ≡ ctx.id) × P (finish ctx action).context
    unfolding finish
    finish-Good ctx none p keeps = (refl, p)
    finish-Good ctx (some f) p keeps = (refl, keeps ctx.id ctx.context p)

    enter-Good :
        (go : InternalContext C → ℕ → Outcome (ℤ × InternalContext C)) (ctx : InternalContext C)
        (id : ℕ) (state : State C) (r : ℤ × InternalContext C)
        → ((ctx' : InternalContext C) (next : ℕ)
            → P ctx'.context
            → go ctx' next ≡ ok r
            → Good ctx' r)
        → P ctx.context
        → StateKeeps P id state
        → lookup id states ≡ some state
        → enter go end_state ctx id (some state) ≡ ok r
        → Good ctx r
    unfolding enter
    enter-Good go ctx id state r ih p keeps known =
        let ctx' = record ctx { prev_state = ctx.cur_state; cur_state = id } in
        let (same, q) = finish-Good ctx' state.action p keeps in
        if_cases (λ out. out ≡ ok r → Good ctx r) (id == end_state)
          (λ at_end e. subst (Good ctx) (ok-eq-ok e) (same, q, λ h. cc))
          (λ other e.
            act-Good go state.action_arcs ctx' state.action r ih p
              (ap found known, λ h. cc ((==_iff id end_state).1 h)) keeps e)

    pub goto_state-Good :
        AllEntries (StateKeeps P) states
        → (fuel : ℕ) (ctx : InternalContext C) (id : ℕ) (r : ℤ × InternalContext C) → P ctx.context
        → goto_state fuel states end_state ctx id ≡ ok r
        → Good ctx r
    unfolding goto_state enter
    goto_state-Good keep zero ctx id r p e = cc
    goto_state-Good keep (suc fuel) ctx id r p e = elim (Option-cases (lookup id states)) [
      | inl unknown ↦
          subst (Good ctx)
            (ok-eq-ok
              (ap (enter (goto_state fuel states end_state) end_state ctx id) (sym unknown) ∙ e))
            (refl, p, λ h. cc)
      | inr (state, known) ↦
          enter-Good (goto_state fuel states end_state) ctx id state r
            (λ ctx' next. goto_state-Good keep fuel ctx' next r) p
            (lookup-AllEntries (StateKeeps P) id state states keep known) known
            (ap (enter (goto_state fuel states end_state) end_state ctx id) (sym known) ∙ e)
    ]

  module _ (rank : ℕ → ℕ) (states : List (ℕ × State C)) (end_state : ℕ) where
    act_ends :
        (go : InternalContext C → ℕ → Outcome (ℤ × InternalContext C)) (id : ℕ) (arcs : List ℕ)
        (ctx : InternalContext C) (action : Option (ℕ → C → C × ℕ))
        → ((ctx' : InternalContext C) (next : ℕ)
            → rank next < rank id
            → (r : ℤ × InternalContext C) × (go ctx' next ≡ ok r))
        → ActionDescends rank id arcs action
        → (r : ℤ × InternalContext C) × (act go arcs ctx action ≡ ok r)
    unfolding act leave
    act_ends go id arcs ctx none ih descends = ((pos 0, ctx), refl)
    act_ends go id arcs ctx (some f) ih descends =
        let ctx' = record ctx { context = (f ctx.id ctx.context).0 } in
        let (next, e, lower) = descends ctx.id ctx.context in
        elim (ℕ_discrete next 0) [
          | yes stay ↦ ((pos 0, ctx'), rw (e, (==_iff next 0).1 stay) refl)
          | no on ↦
              let below : rank next < rank id = elim lower [
                | inl stay ↦ absurd (on stay)
                | inr less ↦ less
              ] in
              let (r, e') = ih ctx' next below in (r, rw (e, ne→== next 0 on) e')
        ]

    enter_ends :
        (go : InternalContext C → ℕ → Outcome (ℤ × InternalContext C)) (ctx : InternalContext C)
        (id : ℕ) (state : State C)
        → ((ctx' : InternalContext C) (next : ℕ)
            → rank next < rank id
            → (r : ℤ × InternalContext C) × (go ctx' next ≡ ok r))
        → StateDescends rank end_state id state
        → (r : ℤ × InternalContext C) × (enter go end_state ctx id (some state) ≡ ok r)
    unfolding enter
    enter_ends go ctx id state ih descends =
        let ctx' = record ctx { prev_state = ctx.cur_state; cur_state = id } in
        elim (ℕ_discrete id end_state) [
          | yes done ↦ ((pos 1, finish ctx' state.action), rw ((==_iff id end_state).1 done) refl)
          | no on ↦
              let down : ActionDescends rank id state.action_arcs state.action = elim descends [
                | inl done ↦ absurd (on done)
                | inr d ↦ d
              ] in
              let (r, e) = act_ends go id state.action_arcs ctx' state.action ih down in
              (r, rw (ne→== id end_state on) e)
        ]

    pub goto_state_ends :
        AllEntries (StateDescends rank end_state) states
        → (fuel : ℕ) (ctx : InternalContext C) (id : ℕ) → rank id < fuel
        → (r : ℤ × InternalContext C) × (goto_state fuel states end_state ctx id ≡ ok r)
    unfolding goto_state enter
    goto_state_ends down zero ctx id h = absurd (omega arith)
    goto_state_ends down (suc fuel) ctx id h = elim (Option-cases (lookup id states)) [
      | inl unknown ↦
          ((negsuc 0, ctx), ap (enter (goto_state fuel states end_state) end_state ctx id) unknown)
      | inr (state, known) ↦
          let (r, e) =
            enter_ends (goto_state fuel states end_state) ctx id state
              (λ ctx' next less. goto_state_ends down fuel ctx' next (omega (arith, less)))
              (lookup-AllEntries (StateDescends rank end_state) id state states down known) in
          (r, ap (enter (goto_state fuel states end_state) end_state ctx id) known ∙ e)
    ]
