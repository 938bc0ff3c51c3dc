-- ===== src/Blitz/ActionArcs.antt =====
-- libsrc/blitz2/include/blitz2/state_machine.h and src/state_machine.cc: ActionArcs, the states that
-- the results of an action lead to.
pub mod Vector
use mlsimgsearch.Prelude.{
  ltb, ◌==◌, if◌then◌else◌, length, replicate, ℕ, suc, ◌%◌, Bool, true, false, List, [], ◌∷◌,
}

-- `action_result_t` and `state_id_t` are bytes, and state 0 is `kInvalidStateId`.
pub record OneArc : Type 0 where
  pub result : ℕ
  pub state : ℕ

-- `std::sort` by `operator<` on the results.
unfoldable pub insert_arc : OneArc → List OneArc → List OneArc
insert_arc a [] = a ∷ []
insert_arc a (b ∷ arcs) = if ltb b.result a.result then b ∷ insert_arc a arcs else a ∷ b ∷ arcs

unfoldable pub sort_arcs : List OneArc → List OneArc
unfolding insert_arc
sort_arcs [] = []
sort_arcs (a ∷ arcs) = insert_arc a (sort_arcs arcs)

-- The loop of `CheckAndConvertToVec` from index `i` on: the states, and if no result was missing.
-- What the loop does not reach keeps the 0 of `resize`.
unfoldable pub fill_arcs : ℕ → List OneArc → List ℕ × Bool
fill_arcs i [] = ([], true)
fill_arcs i (a ∷ arcs) =
    let rest = fill_arcs (suc i) arcs in
    if a.result == i % 256
    then (a.state ∷ rest.0, rest.1)
    else (replicate (suc (length arcs)) 0, false)

unfoldable pub check_and_convert : List OneArc → List ℕ × Bool
unfolding sort_arcs fill_arcs
check_and_convert arcs = fill_arcs 0 (sort_arcs arcs)
