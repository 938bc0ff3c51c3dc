-- ===== src/Blitz/StateMachine/Runs.antt =====
-- The contexts of a state machine through all runs: each is called back for once, when it ends.
use mlsimgsearch.Prelude.{
  ◌==◌, Bool-cases, if_cases, All, >>=-eq-ok, ok-eq-ok, ok, ℕ, zero, suc, ◌+◌, ◌%◌, ◌≡◌, refl, sym,
  ap, ◌∙◌, subst, inl, inr, some, List, [], ◌∷◌, arith,
}
use mlsimgsearch.Prelude.Int.{ℤ, pos, negsuc}
use mlsimgsearch.Prelude.Maps.{
  some-eq-some, lookup, found, not_found, update, erase, UniqueKeys, AllEntries, AllBut,
  AllBut-weaken, lookup_here, AllEntries-update, AllEntries-erase, UniqueKeys-update,
  UniqueKeys-erase,
}
use mlsimgsearch.Blitz.StateMachine.{
  Transition, InternalContext, StateMachine, goto_state, settle, end_context, start_one_context,
}
use mlsimgsearch.Blitz.StateMachine.Goto.{Rests, StateKeeps, goto_state-Good}

module _ {ℓ} {C : Type ℓ} where
  -- The weight of a context stays as it is.
  abbrev pub HasWeight : (C → ℕ) → ℕ → C → Type 0
  HasWeight weigh n c = weigh c ≡ n

  module _ (weigh : C → ℕ) where
    abbrev pub living : List (ℕ × InternalContext C) → ℕ
    living [] = 0
    living ((k, ctx) ∷ contexts) = weigh ctx.context + living contexts

    abbrev pub called_back : List C → ℕ
    called_back [] = 0
    called_back (c ∷ ended) = weigh c + called_back ended

    pub living-update :
        (k : ℕ) (old new : InternalContext C) (contexts : List (ℕ × InternalContext C))
        → lookup k contexts ≡ some old
        → weigh new.context ≡ weigh old.context
        → living (update k new contexts) ≡ living contexts
    living-update k old new [] e w = cc
    living-update k old new ((j, ctx) ∷ contexts) e w = elim (Bool-cases (k == j)) [
      | inl h ↦
          let same : ctx ≡ old = some-eq-some (rw h at e) in
          rw h (omega (arith, w, ap (λ (c : InternalContext C). weigh c.context) same))
      | inr h ↦
          rw h (ap (λ n. weigh ctx.context + n) (living-update k old new contexts (rw h at e) w))
    ]

    living-erase :
        (k : ℕ) (old : InternalContext C) (contexts : List (ℕ × InternalContext C))
        → lookup k contexts ≡ some old
        → weigh old.context + living (erase k contexts) ≡ living contexts
    living-erase k old [] e = cc
    living-erase k old ((j, ctx) ∷ contexts) e = elim (Bool-cases (k == j)) [
      | inl h ↦
          let same : ctx ≡ old = some-eq-some (rw h at e) in
          rw h (omega (arith, ap (λ (c : InternalContext C). weigh c.context) same))
      | inr h ↦ rw h (omega (arith, living-erase k old contexts (rw h at e)))
    ]

module _ {ℓ} {C E : Type ℓ} where
  -- The tables stay as they are.
  abbrev pub SameTables : StateMachine C E → StateMachine C E → Type ℓ
  SameTables m m' =
      (m'.states ≡ m.states) × (m'.end_state ≡ m.end_state) × (m'.transitions ≡ m.transitions)

  -- The weights of the contexts that live and of those that were called back for.
  abbrev pub total : (C → ℕ) → StateMachine C E → ℕ
  total weigh m = living weigh m.contexts + called_back weigh m.ended

  abbrev pub TransitionKeeps {κ} : (C → Type κ) → ℕ → Transition C E → Type (ℓ ⊔ κ)
  TransitionKeeps P key t = (body : E) (id : ℕ) (c : C) → P c → P (t.action body id c).0

  abbrev pub EventsKeep {κ} : (C → Type κ) → ℕ → List (ℕ × Transition C E) → Type (ℓ ⊔ κ)
  EventsKeep P state events = AllEntries (TransitionKeeps P) events

  module _ {κ} (P : C → Type κ) where
    abbrev pub Lives : StateMachine C E → ℕ → InternalContext C → Type κ
    Lives m k ctx = (ctx.id ≡ k) × P ctx.context × Rests m.states m.end_state ctx

    pub record WellFormed (m : StateMachine C E) : Type (ℓ ⊔ κ) where
      pub unique : UniqueKeys m.contexts
      pub each : AllEntries (Lives m) m.contexts
      pub done : All P m.ended

  module _ {κ} (P : C → Type κ) (weigh : C → ℕ) where
    abbrev pub Advances : ℕ → StateMachine C E → StateMachine C E → Type (ℓ ⊔ κ)
    Advances more m m' = WellFormed P m' × (total weigh m' ≡ more + total weigh m) × SameTables m m'

    pub settle-WellFormed :
        (m : StateMachine C E) (r : ℤ × InternalContext C) (old : InternalContext C)
        → UniqueKeys m.contexts
        → AllBut (Lives P m) r.1.id m.contexts
        → lookup r.1.id m.contexts ≡ some old
        → weigh r.1.context ≡ weigh old.context
        → All P m.ended
        → P r.1.context
        → (r.0 ≡ pos 0 → Rests m.states m.end_state r.1)
        → Advances 0 m (settle r m)
    unfolding settle end_context
    settle-WellFormed m (pos zero, ctx) old u each here w done p rests = (
      record {
        unique = UniqueKeys-update ctx.id ctx m.contexts u;
        each = AllEntries-update (Lives P m) ctx.id ctx m.contexts u each (refl, p, rests refl);
        done = done;
      },
      omega (arith, living-update weigh ctx.id old ctx m.contexts here w),
      (refl, refl, refl),
    )
    settle-WellFormed m (pos (suc n), ctx) old u each here w done p rests = (
      record {
        unique = UniqueKeys-erase ctx.id m.contexts u;
        each = AllEntries-erase (Lives P m) ctx.id m.contexts u each;
        done = (p, done);
      },
      omega (arith, living-erase weigh ctx.id old m.contexts here, w),
      (refl, refl, refl),
    )
    settle-WellFormed m (negsuc n, ctx) old u each here w done p rests = (
      record {
        unique = UniqueKeys-erase ctx.id m.contexts u;
        each = AllEntries-erase (Lives P m) ctx.id m.contexts u each;
        done = (p, done);
      },
      omega (arith, living-erase weigh ctx.id old m.contexts here, w),
      (refl, refl, refl),
    )

    -- A run of InternalGotoState and what follows it.
    pub goto_settle :
        (m : StateMachine C E) (fuel : ℕ) (ctx : InternalContext C) (id : ℕ)
        (r : ℤ × InternalContext C) (old : InternalContext C)
        → AllEntries (StateKeeps P) m.states
        → AllEntries (StateKeeps (HasWeight weigh (weigh ctx.context))) m.states
        → UniqueKeys m.contexts
        → AllBut (Lives P m) ctx.id m.contexts
        → lookup ctx.id m.contexts ≡ some old
        → weigh ctx.context ≡ weigh old.context
        → All P m.ended
        → P ctx.context
        → goto_state fuel m.states m.end_state ctx id ≡ ok r
        → Advances 0 m (settle r m)
    goto_settle m fuel ctx id r old keep weight u each here w done p e =
        let (same, q, rests) = goto_state-Good P m.states m.end_state keep fuel ctx id r p e in
        let (same', kept, rests') =
          goto_state-Good (HasWeight weigh (weigh ctx.context)) m.states m.end_state weight fuel ctx
            id r refl e in
        settle-WellFormed m r old u (subst (λ k. AllBut (Lives P m) k m.contexts) (sym same) each)
          (ap (λ k. lookup k m.contexts) same ∙ here) (kept ∙ w) done q rests

    pub start_one_context-WellFormed :
        (fuel : ℕ) (c : C) (m m' : StateMachine C E) (code : ℤ)
        → AllEntries (StateKeeps P) m.states
        → AllEntries (StateKeeps (HasWeight weigh (weigh c))) m.states
        → WellFormed P m
        → P c
        → start_one_context fuel c m ≡ ok (code, m')
        → Advances (weigh c) m m'
    unfolding start_one_context
    start_one_context-WellFormed fuel c m m' code keep weight wf p =
        let id = (m.next_context_id + 1) % 0x1_0000_0000 in
        let ctx : InternalContext C = record {
          context = c;
          id = id;
          cur_state = m.start_state;
          prev_state = 0;
        } in
        let m1 = record m { next_context_id = id; contexts = (id, ctx) ∷ m.contexts } in
        if_cases (λ out. out ≡ ok (code, m') → Advances (weigh c) m m')
          (found (lookup id m.contexts))
          (λ taken e.
            subst (Advances (weigh c) m) (ap (λ (r : ℤ × StateMachine C E). r.1) (ok-eq-ok e)) (
              record { unique = wf.unique; each = wf.each; done = (p, wf.done) },
              omega arith,
              (refl, refl, refl),
            ))
          (λ free e.
            let (r, run, e') =
              >>=-eq-ok (goto_state fuel m.states m.end_state ctx m.start_state)
                (λ r. ok (pos 0, settle r m1)) e in
            let none_ = not_found (lookup id m.contexts) free in
            let (wf', count, same) =
              goto_settle m1 fuel ctx m.start_state r ctx keep weight (none_, wf.unique)
                (λ other. absurd (other refl), AllBut-weaken (Lives P m) id m.contexts wf.each)
                (lookup_here id ctx m.contexts) refl wf.done p run in
            subst (Advances (weigh c) m) (ap (λ (r : ℤ × StateMachine C E). r.1) (ok-eq-ok e'))
              (wf', omega (arith, count), same))
