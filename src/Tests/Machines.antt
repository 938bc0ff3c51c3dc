-- ===== src/Tests/Machines.antt =====
-- A state machine of libsrc/blitz2 that adds up what its events bring, and a URI.
use mlsimgsearch.Prelude.{
  leb, ok, ℕ, ◌+◌, ◌-◌, ◌≤◌, ◌≡◌, refl, ◌⊎◌, inl, inr, Bool, false, ◌&&◌, none, some, List, [], ◌∷◌,
  ◌++◌, arith,
}
use mlsimgsearch.Prelude.Int.{pos}
use mlsimgsearch.Prelude.Maps.{lookup}
use mlsimgsearch.Blitz.StateMachine.{
  State, Transition, Event, InternalContext, StateMachine, new_machine, init, ge_transition,
  start_one_context, process_event, set_states, store_states, insert_states, insert_transitions,
  configure, set_transitions,
}
use mlsimgsearch.Blitz.StateMachine.Config.{Configured, init-Configured}
use mlsimgsearch.Blitz.StateMachine.Reach.{
  Reachable, at_start, started, handled, Held, Reachable-Held,
}
use mlsimgsearch.Blitz.StateMachine.Ends.{process_event_ends}
use mlsimgsearch.Blitz.Uri.{HttpRequest, set_param, parse_uri}
use mlsimgsearch.Blitz.Uri.Params.{parse_uri-print_params, values_of, given_under}
use mlsimgsearch.Blitz.Uri.Ends.{Ends, parse_uri-Ends}

-- State 1 goes on to state 2, which waits; event 7 leads from there to the end, state 3.
abbrev first_state : State ℕ
first_state = record { id = 1; action = some (λ id c. (c + 1, 0)); action_arcs = 2 ∷ [] }

abbrev waiting : State ℕ
waiting = record { id = 2; action = some (λ id c. (c, 0)); action_arcs = 0 ∷ [] }

abbrev last_state : State ℕ
last_state = record { id = 3; action = none; action_arcs = [] }

abbrev arrival : Transition ℕ ℕ
arrival = record {
  state = 2;
  event_type = pos 7;
  action = λ body id c. (c + body, 0);
  action_arcs = 3 ∷ [];
}

abbrev adder : StateMachine ℕ ℕ
adder = record {
  states = (3, last_state) ∷ (2, waiting) ∷ (1, first_state) ∷ [];
  transitions = (2, (7, arrival) ∷ []) ∷ [];
  start_state = 1;
  end_state = 3;
  next_context_id = 0;
  contexts = [];
  ended = [];
}

abbrev adder_waits : StateMachine ℕ ℕ
adder_waits = record adder {
  next_context_id = 1;
  contexts = (1, record { context = 6; id = 1; cur_state = 2; prev_state = 1 }) ∷ [];
}

abbrev adder_done : StateMachine ℕ ℕ
adder_done = record adder { next_context_id = 1; ended = 10 ∷ [] }

abbrev four : Event ℕ
four = record { type_ = pos 7; body = 4 }

adder_configured :
    init (first_state ∷ waiting ∷ last_state ∷ []) (arrival ∷ []) 1 3 new_machine
    ≡ ok (pos 0, adder)
unfolding init set_states configure new_machine set_transitions store_states insert_states
    insert_transitions
adder_configured = refl

init-Configured_example :
    Configured (first_state ∷ waiting ∷ last_state ∷ []) (arrival ∷ []) 1 3 new_machine adder
init-Configured_example =
    init-Configured (first_state ∷ waiting ∷ last_state ∷ []) (arrival ∷ []) 1 3 new_machine adder
      adder_configured

adder_started : start_one_context 3 5 adder ≡ ok (pos 0, adder_waits)
unfolding start_one_context
adder_started = refl

adder_handled : process_event 3 1 four adder_waits ≡ ok (0, adder_done)
unfolding process_event
adder_handled = refl

abbrev Positive : ℕ → Type 0
Positive c = 1 ≤ c

abbrev adder_run : Reachable Positive 3 adder adder_done
adder_run =
    handled adder_waits adder_done 1 four 0
      (started adder adder_waits 5 (pos 0) (at_start adder refl) (omega arith) adder_started)
      adder_handled

Reachable-Held_example : Held Positive 3 adder (λ c. 1) adder_done 1
Reachable-Held_example =
    Reachable-Held Positive 3 adder (λ c. 1)
      (tt, ((λ id c h. h), ((λ id c h. omega (arith, h)), tt)))
      (((λ body id c h. omega (arith, h)), tt), tt)
      (λ n. (tt, ((λ id c h. h), ((λ id c h. h), tt)))) (λ n. (((λ body id c h. h), tt), tt)) refl
      refl adder_done adder_run

process_event_ends_example :
    ((lookup 1 adder_waits.contexts ≡ none)
      × (process_event 3 1 four adder_waits ≡ ok (1, adder_waits)))
    ⊎ ((ctx : InternalContext ℕ) × (lookup 1 adder_waits.contexts ≡ some ctx)
        × ((ge_transition adder_waits ctx.cur_state (pos 7) ≡ none)
              × (process_event 3 1 four adder_waits ≡ ok (2, adder_waits))
            ⊎ ((t : Transition ℕ ℕ) × (ge_transition adder_waits ctx.cur_state (pos 7) ≡ some t)
                × (m' : StateMachine ℕ ℕ) × (process_event 3 1 four adder_waits ≡ ok (0, m')))))
process_event_ends_example =
    process_event_ends (λ s. 3 - s) 3 1 four adder_waits
      (
        inl refl,
        (inr (λ id c. (0, refl, inl refl)), (inr (λ id c. (2, refl, inr (omega arith))), tt)),
      )
      (((λ body id c. (3, refl, omega arith)), tt), tt)

abbrev small_letter : ℕ → Bool
small_letter c = leb b'a' c && leb c b'z'

abbrev no_request : HttpRequest
no_request = record { path = []; anchor = []; params = [] }

-- /a?k=v%26 and /a#x?k=v%26
parse_uri-print_params_example :
    (parse_uri no_request (b'/' ∷ b'a' ∷ b'?' ∷ b'k' ∷ b'=' ∷ b'v' ∷ b'%' ∷ b'2' ∷ b'6' ∷ [])
      ≡ ok (record {
        path = b'/' ∷ b'a' ∷ [];
        anchor = [];
        params = (b'k' ∷ [], (b'v' ∷ b'&' ∷ []) ∷ []) ∷ [];
      }))
    × (parse_uri no_request
          (b'/' ∷ b'a' ∷ b'#' ∷ b'x' ∷ b'?' ∷ b'k' ∷ b'=' ∷ b'v' ∷ b'%' ∷ b'2' ∷ b'6' ∷ [])
        ≡ ok (record {
          path = b'/' ∷ b'a' ∷ [];
          anchor = b'x' ∷ [];
          params = (b'k' ∷ [], (b'v' ∷ b'&' ∷ []) ∷ []) ∷ [];
        }))
    × (parse_uri no_request (b'/' ∷ b'a' ∷ [])
        ≡ ok (record { path = b'/' ∷ b'a' ∷ []; anchor = []; params = [] }))
    × ((name : List ℕ)
        → values_of name ((b'k' ∷ [], (b'v' ∷ b'&' ∷ []) ∷ []) ∷ [])
          ≡ values_of name [] ++ given_under name ((b'k' ∷ [], b'v' ∷ b'&' ∷ []) ∷ []))
unfolding set_param
parse_uri-print_params_example =
    parse_uri-print_params false small_letter no_request (b'/' ∷ b'a' ∷ []) (b'x' ∷ [])
      ((b'k' ∷ [], b'v' ∷ b'&' ∷ []) ∷ []) refl refl (refl, (refl, tt)) (refl, tt)
      ((((refl, tt)), (omega arith, (omega arith, tt))), tt)

parse_uri-Ends_example : Ends (parse_uri no_request (b'/' ∷ b'?' ∷ b'k' ∷ b'%' ∷ b'2' ∷ []))
parse_uri-Ends_example = parse_uri-Ends no_request (b'/' ∷ b'?' ∷ b'k' ∷ b'%' ∷ b'2' ∷ [])
