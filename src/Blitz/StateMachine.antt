-- ===== src/Blitz/StateMachine.antt =====
-- libsrc/blitz2/include/blitz2/state_machine.h and src/state_machine.cc: a machine of states and
-- transitions that runs many contexts, and calls back for each that has come to its end.
pub mod Tables
pub mod Config
pub mod Goto
pub mod Runs
pub mod Events
pub mod Reach
pub mod Ends
use mlsimgsearch.Prelude.{
  ltb, ◌==◌, if◌then◌else◌, length, get_elem?, Outcome, ◌>>=◌, ◌>>◌, or_fault, must, ok, fault, ℕ,
  zero, suc, ◌+◌, ◌-◌, ◌%◌, Option, none, some, List, [], ◌∷◌,
}
use mlsimgsearch.Prelude.Int.{ℤ, pos, negsuc}
use mlsimgsearch.Blitz.ActionArcs.{OneArc, check_and_convert}
use mlsimgsearch.Prelude.Maps.{lookup, update, erase, found}

-- An action changes the context and returns a result. It takes the context's id; that it does not
-- call the machine is assumed.
pub record State {ℓ} (C : Type ℓ) : Type ℓ where
  pub id : ℕ
  pub action : Option (ℕ → C → C × ℕ)
  pub action_arcs : List ℕ

pub record Transition {ℓ} (C E : Type ℓ) : Type ℓ where
  pub state : ℕ
  pub event_type : ℤ
  pub action : E → ℕ → C → C × ℕ
  pub action_arcs : List ℕ

pub record Event {ℓ} (E : Type ℓ) : Type ℓ where
  pub type_ : ℤ
  pub body : E

pub record InternalContext {ℓ} (C : Type ℓ) : Type ℓ where
  pub context : C
  pub id : ℕ
  pub cur_state : ℕ
  pub prev_state : ℕ

-- `ended` are the contexts that `fn_on_context_end` was called with, the last one first.
pub record StateMachine {ℓ} (C E : Type ℓ) : Type ℓ where
  pub states : List (ℕ × State C)
  pub transitions : List (ℕ × List (ℕ × Transition C E))
  pub start_state : ℕ
  pub end_state : ℕ
  pub next_context_id : ℕ
  pub contexts : List (ℕ × InternalContext C)
  pub ended : List C

-- An `int` event type taken for the byte by which transitions are found.
abbrev pub event_key : ℤ → ℕ
event_key (pos n) = n % 256
event_key (negsuc n) = 255 - n % 256

module _ {ℓ} {C : Type ℓ} where
  -- The constructor of `State`, which does not look at what `CheckAndConvertToVec` returns.
  unfoldable pub make_state : ℕ → Option (ℕ → C → C × ℕ) → List OneArc → State C
  unfolding check_and_convert
  make_state id action arcs = record {
    id = id;
    action = action;
    action_arcs = (check_and_convert arcs).0;
  }

  unfoldable pub insert_states : List (State C) → List (ℕ × State C) → Option (List (ℕ × State C))
  insert_states [] m = some m
  insert_states (s ∷ states) m =
      let rest = insert_states states ((s.id, s) ∷ m) in
      if found (lookup s.id m) then none else rest

  -- What `InternalGotoState` does after it has found the state; `go` is its recursive call.
  unfoldable pub leave :
      (InternalContext C → ℕ → Outcome (ℤ × InternalContext C))
      → InternalContext C
      → ℕ
      → Outcome (ℤ × InternalContext C)
  leave go ctx next = if next == 0 then ok (pos 0, ctx) else go ctx next

  unfoldable pub act :
      (InternalContext C → ℕ → Outcome (ℤ × InternalContext C))
      → List ℕ
      → InternalContext C
      → Option (ℕ → C → C × ℕ)
      → Outcome (ℤ × InternalContext C)
  unfolding leave
  act go arcs ctx none = ok (pos 0, ctx)
  act go arcs ctx (some f) = or_fault (get_elem? arcs (f ctx.id ctx.context).1) >>= λ next.
      leave go (record ctx { context = (f ctx.id ctx.context).0 }) next

  unfoldable pub finish : InternalContext C → Option (ℕ → C → C × ℕ) → InternalContext C
  finish ctx none = ctx
  finish ctx (some f) = record ctx { context = (f ctx.id ctx.context).0 }

  unfoldable pub enter :
      (InternalContext C → ℕ → Outcome (ℤ × InternalContext C))
      → ℕ
      → InternalContext C
      → ℕ
      → Option (State C)
      → Outcome (ℤ × InternalContext C)
  unfolding act finish
  enter go end_state ctx id none = ok (negsuc 0, ctx)
  enter go end_state ctx id (some state) =
      let ctx' = record ctx { prev_state = ctx.cur_state; cur_state = id } in
      if id == end_state
      then ok (pos 1, finish ctx' state.action)
      else act go state.action_arcs ctx' state.action

  -- `InternalGotoState`, with fuel for its recursion.
  unfoldable pub goto_state :
      ℕ → List (ℕ × State C) → ℕ → InternalContext C → ℕ → Outcome (ℤ × InternalContext C)
  unfolding enter
  goto_state zero states end_state ctx id = fault
  goto_state (suc fuel) states end_state ctx id =
      enter (goto_state fuel states end_state) end_state ctx id (lookup id states)

module _ {ℓ} {C E : Type ℓ} where
  unfoldable pub new_machine : StateMachine C E
  new_machine = record {
    states = [];
    transitions = [];
    start_state = 0;
    end_state = 0;
    next_context_id = 0;
    contexts = [];
    ended = [];
  }

  unfoldable pub ge_state : StateMachine C E → ℕ → Option (State C)
  ge_state m id = lookup id m.states

  abbrev pub or_empty : Option (List (ℕ × Transition C E)) → List (ℕ × Transition C E)
  or_empty none = []
  or_empty (some events) = events

  unfoldable pub ge_transition : StateMachine C E → ℕ → ℤ → Option (Transition C E)
  ge_transition m state event = lookup (event_key event) (or_empty (lookup state m.transitions))

  -- The part of `SetStates` after its loop.
  unfoldable pub store_states :
      StateMachine C E → Option (List (ℕ × State C)) → ℤ × StateMachine C E
  unfolding ge_state
  store_states m none = (negsuc 1, record m { states = [] })
  store_states m (some table) =
      let m' = record m { states = table } in
      (if found (ge_state m' m.end_state) then pos 0 else negsuc 2, m')

  unfoldable pub set_states :
      List (State C) → ℕ → ℕ → StateMachine C E → Outcome (ℤ × StateMachine C E)
  set_states states start_state end_state m = do
    must (ltb 0 start_state)
    must (ltb 0 end_state)
    must (ltb 0 (length states))
    let m1 = record m { start_state = start_state; end_state = end_state }
    if length m.states == 0 then ok (store_states m1 (insert_states states [])) else ok (pos 1, m)

  -- An insertion at the front takes the place of an older entry.
  unfoldable pub insert_transitions :
      List (ℕ × State C)
      → List (Transition C E)
      → List (ℕ × List (ℕ × Transition C E))
      → Option (List (ℕ × List (ℕ × Transition C E)))
  insert_transitions states [] table = some table
  insert_transitions states (t ∷ transitions) table =
      let events = or_empty (lookup t.state table) in
      let key = event_key t.event_type in
      let rest = insert_transitions states transitions ((t.state, (key, t) ∷ events) ∷ table) in
      if found (lookup t.state states)
      then if found (lookup key events) then none else rest
      else none

  -- The part of `SetTransitions` after its loop.
  unfoldable pub store_transitions :
      StateMachine C E → Option (List (ℕ × List (ℕ × Transition C E))) → ℤ × StateMachine C E
  store_transitions m none = (negsuc 2, record m { transitions = [] })
  store_transitions m (some table) = (pos 0, record m { transitions = table })

  unfoldable pub set_transitions : List (Transition C E) → StateMachine C E → ℤ × StateMachine C E
  unfolding store_transitions
  set_transitions transitions m =
      store_transitions m (insert_transitions m.states transitions m.transitions)

  abbrev pub cleared : StateMachine C E → StateMachine C E
  cleared m = record m { states = []; transitions = [] }

  -- `Init` empties the tables when a call has failed.
  unfoldable pub checked : ℤ × StateMachine C E → ℤ × StateMachine C E
  checked (pos zero, m) = (pos 0, m)
  checked (pos (suc n), m) = (pos (suc n), cleared m)
  checked (negsuc n, m) = (negsuc n, cleared m)

  -- What `Init` does with the result of `SetStates`.
  unfoldable pub configure : List (Transition C E) → ℤ × StateMachine C E → ℤ × StateMachine C E
  unfolding checked
  configure transitions (pos zero, m) = checked (set_transitions transitions m)
  configure transitions (pos (suc n), m) = checked (pos (suc n), m)
  configure transitions (negsuc n, m) = checked (negsuc n, m)

  unfoldable pub init :
      List (State C)
      → List (Transition C E)
      → ℕ
      → ℕ
      → StateMachine C E
      → Outcome (ℤ × StateMachine C E)
  init states transitions start_state end_state m =
      set_states states start_state end_state m >>= λ r. ok (configure transitions r)

  -- The callback is called, then `OnContextEnd` deletes the context.
  unfoldable pub end_context : InternalContext C → StateMachine C E → StateMachine C E
  end_context ctx m = record m { contexts = erase ctx.id m.contexts; ended = ctx.context ∷ m.ended }

  -- What follows `InternalGotoState`: 0 leaves the context, anything else ends it.
  unfoldable pub settle : ℤ × InternalContext C → StateMachine C E → StateMachine C E
  unfolding end_context
  settle (pos zero, ctx) m = record m { contexts = update ctx.id ctx m.contexts }
  settle (pos (suc n), ctx) m = end_context ctx m
  settle (negsuc n, ctx) m = end_context ctx m

  -- `-2` stands for an id that a living context has, after 2 ^ 32 contexts.
  unfoldable pub start_one_context : ℕ → C → StateMachine C E → Outcome (ℤ × StateMachine C E)
  unfolding goto_state settle
  start_one_context fuel c m =
      let id = (m.next_context_id + 1) % 0x1_0000_0000 in
      let ctx : InternalContext C = record {
        context = c;
        id = id;
        cur_state = m.start_state;
        prev_state = 0;
      } in
      let m1 = record m { next_context_id = id; contexts = (id, ctx) ∷ m.contexts } in
      let run =
        goto_state fuel m.states m.end_state ctx m.start_state >>= λ r. ok (pos 0, settle r m1) in
      if found (lookup id m.contexts)
      then ok (negsuc 1, record m { next_context_id = id; ended = c ∷ m.ended })
      else run

  -- The part of `ProcessEvent` that follows the transition's action. A state id is a byte, so the
  -- branch for a negative one is dead.
  unfoldable pub after_action :
      ℕ → InternalContext C → ℕ → StateMachine C E → Outcome (ℕ × StateMachine C E)
  unfolding goto_state settle
  after_action fuel ctx next m =
      let run = goto_state fuel m.states m.end_state ctx next >>= λ r. ok (0, settle r m) in
      if ltb 0 next then run else ok (0, record m { contexts = update ctx.id ctx m.contexts })

  unfoldable pub fire :
      ℕ
      → InternalContext C
      → E
      → StateMachine C E
      → Option (Transition C E)
      → Outcome (ℕ × StateMachine C E)
  unfolding after_action
  fire fuel ctx body m none = ok (2, m)
  fire fuel ctx body m (some t) =
      or_fault (get_elem? t.action_arcs (t.action body ctx.id ctx.context).1) >>= λ next.
      after_action fuel (record ctx { context = (t.action body ctx.id ctx.context).0 }) next m

  unfoldable pub react :
      ℕ → Event E → StateMachine C E → Option (InternalContext C) → Outcome (ℕ × StateMachine C E)
  unfolding fire ge_transition
  react fuel event m none = ok (1, m)
  react fuel event m (some ctx) =
      fire fuel ctx event.body m (ge_transition m ctx.cur_state event.type_)

  unfoldable pub find_context : StateMachine C E → ℕ → Option (InternalContext C)
  find_context m id = lookup id m.contexts

  unfoldable pub process_event : ℕ → ℕ → Event E → StateMachine C E → Outcome (ℕ × StateMachine C E)
  unfolding react find_context
  process_event fuel id event m = react fuel event m (find_context m id)

  -- After the first context has been deleted, the loop advances an iterator to what was erased.
  unfoldable pub delete_all_context : StateMachine C E → Outcome (StateMachine C E)
  delete_all_context m = if length m.contexts == 0 then ok m else fault
