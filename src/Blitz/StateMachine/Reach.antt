-- ===== src/Blitz/StateMachine/Reach.antt =====
-- All that can happen to a state machine: contexts that are started and events that are handled.
use mlsimgsearch.Prelude.{All, ok, ℕ, ◌+◌, ◌≡◌, refl, sym, ap, ap₂, ◌∙◌, subst, [], arith}
use mlsimgsearch.Prelude.Int.{ℤ}
use mlsimgsearch.Prelude.Maps.{UniqueKeys, AllEntries}
use mlsimgsearch.Blitz.StateMachine.{Event, StateMachine, process_event, start_one_context}
use mlsimgsearch.Blitz.StateMachine.Goto.{StateKeeps}
use mlsimgsearch.Blitz.StateMachine.Runs.{
  SameTables, living, called_back, total, HasWeight, EventsKeep, Lives, WellFormed,
  start_one_context-WellFormed,
}
use mlsimgsearch.Blitz.StateMachine.Events.{process_event-WellFormed}

-- `P` holds of the contexts that callers start.
pub data Reachable {ℓ κ} {C E : Type ℓ} (P : C → Type κ) (fuel : ℕ) (m0 : StateMachine C E)
    : StateMachine C E → Type (ℓ ⊔ κ) where
  at_start : (m : StateMachine C E) → m ≡ m0 → Reachable P fuel m0 m
  started :
      (m m' : StateMachine C E) (c : C) (code : ℤ)
      → Reachable P fuel m0 m
      → P c
      → start_one_context fuel c m ≡ ok (code, m')
      → Reachable P fuel m0 m'
  handled :
      (m m' : StateMachine C E) (id : ℕ) (event : Event E) (code : ℕ)
      → Reachable P fuel m0 m
      → process_event fuel id event m ≡ ok (code, m')
      → Reachable P fuel m0 m'

module _ {ℓ κ} {C E : Type ℓ} (P : C → Type κ) (fuel : ℕ) (m0 : StateMachine C E) where
  -- The weights of the contexts that were started.
  abbrev pub starts : (C → ℕ) → (m : StateMachine C E) → Reachable P fuel m0 m → ℕ
  starts weigh m (at_start _ same) = 0
  starts weigh m (started before _ c code run p e) = weigh c + starts weigh before run
  starts weigh m (handled before _ id event code run e) = starts weigh before run

  abbrev pub Held : (C → ℕ) → (m : StateMachine C E) → ℕ → Type (ℓ ⊔ κ)
  Held weigh m n = WellFormed P m × (total weigh m ≡ n) × SameTables m0 m

  advance_Held :
      (weigh : C → ℕ) (m m' : StateMachine C E) (more n n' : ℕ)
      → n' ≡ more + n
      → WellFormed P m' × (total weigh m' ≡ more + total weigh m) × SameTables m m'
      → Held weigh m n
      → Held weigh m' n'
  advance_Held weigh m m' more n n' new (wf, count, (s, d, t)) (_, before, (s0, d0, t0)) =
      (wf, omega arith, (s ∙ s0, d ∙ d0, t ∙ t0))

  -- Whatever contexts are started and events are handled, on a machine that began with no
  -- contexts and whose actions do not call it: no two living contexts have one id, and each rests in
  -- a known state that is not the end state. For every weight that the actions keep, such as 1 for
  -- the contexts with some name and 0 for all others, the weights of the contexts that live and of
  -- those that were called back for add up to those of the contexts that were started. A property
  -- that the callers' contexts have and that every action keeps holds of those that live and of those
  -- that were called back for. The tables stay as they were.
  pub Reachable-Held :
      (weigh : C → ℕ)
      → AllEntries (StateKeeps P) m0.states
      → AllEntries (EventsKeep P) m0.transitions
      → ((n : ℕ) → AllEntries (StateKeeps (HasWeight weigh n)) m0.states)
      → ((n : ℕ) → AllEntries (EventsKeep (HasWeight weigh n)) m0.transitions)
      → m0.contexts ≡ []
      → m0.ended ≡ []
      → (m : StateMachine C E) (run : Reachable P fuel m0 m) → Held weigh m (starts weigh m run)
  Reachable-Held weigh keep keeps weight weights live done m (at_start _ same) = (
    record {
      unique = subst UniqueKeys (sym (ap (λ (n : StateMachine C E). n.contexts) same ∙ live)) tt;
      each =
          subst (AllEntries (Lives P m))
            (sym (ap (λ (n : StateMachine C E). n.contexts) same ∙ live)) tt;
      done = subst (All P) (sym (ap (λ (n : StateMachine C E). n.ended) same ∙ done)) tt;
    },
    ap (total weigh) same ∙ ap₂ (λ xs ys. living weigh xs + called_back weigh ys) live done,
    (
      ap (λ (n : StateMachine C E). n.states) same,
      ap (λ (n : StateMachine C E). n.end_state) same,
      ap (λ (n : StateMachine C E). n.transitions) same,
    ),
  )
  Reachable-Held weigh keep keeps weight weights live done m (started before _ c code run p e) =
      let held = Reachable-Held weigh keep keeps weight weights live done before run in
      let (wf, count, (s, d, t)) = held in
      advance_Held weigh before m (weigh c) (starts weigh before run)
        (weigh c + starts weigh before run) refl
        (start_one_context-WellFormed P weigh fuel c before m code
          (subst (AllEntries (StateKeeps P)) (sym s) keep)
          (subst (AllEntries (StateKeeps (HasWeight weigh (weigh c)))) (sym s) (weight (weigh c)))
          wf p e)
        held
  Reachable-Held weigh keep keeps weight weights live done m
        (handled before _ id event code run e) =
      let held = Reachable-Held weigh keep keeps weight weights live done before run in
      let (wf, count, (s, d, t)) = held in
      advance_Held weigh before m 0 (starts weigh before run) (starts weigh before run)
        (omega arith)
        (process_event-WellFormed P weigh fuel id event before m code
          (subst (AllEntries (StateKeeps P)) (sym s) keep)
          (λ n. subst (AllEntries (StateKeeps (HasWeight weigh n))) (sym s) (weight n))
          (subst (AllEntries (EventsKeep P)) (sym t) keeps)
          (λ n. subst (AllEntries (EventsKeep (HasWeight weigh n))) (sym t) (weights n)) wf e)
        held
