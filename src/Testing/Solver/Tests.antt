-- ===== src/Testing/Solver/Tests.antt =====
-- Runs of the solver on the log of a counter that two threads increment.
use rustcurrent.Prelude.{
  ℕ, ◌+◌, ◌≡◌, ◌≢◌, refl, arith, Bool, true, Option, none, some, List, [], ◌∷◌, map, nat_eq,
}
use rustcurrent.Testing.TimeStamped.{Op, TimeStamped, invoke, return}
use rustcurrent.Testing.Automaton.{
  new_configuration, from_invoke, has_called, can_return, try_return, try_linearize, new_states,
  make_return, make_fire_return, make_linearize,
}
use rustcurrent.Testing.History.{IsLinearizable}
use rustcurrent.Testing.Solver.{
  Node, finished, out_of_fuel, success, failure, timed_out, next_thread, next_lin_attempt,
  visit_event, visit_attempt, visit, search_loop, solve,
}
use rustcurrent.Testing.Solver.Soundness.{solve-IsLinearizable}
use rustcurrent.Testing.Solver.Termination.{solve_ends}

-- `fetch_add(1)`
abbrev increment : Op ℕ ℕ
increment count _ = (count + 1, some count)

abbrev called_at : (stamp id result : ℕ) → TimeStamped ℕ ℕ
called_at stamp id result = record {
  stamp = stamp;
  event =
      invoke
        (record { id = id; message = "increment"; op = increment; arg = none; res = some result });
}

abbrev returned_at : (stamp id result : ℕ) → TimeStamped ℕ ℕ
returned_at stamp id result = record {
  stamp = stamp;
  event = return (record { id = id; result = some result });
}

-- The two calls overlap, and the one that came second took place first.
abbrev overlapping : List (TimeStamped ℕ ℕ)
overlapping = called_at 1 0 1 ∷ called_at 2 1 0 ∷ returned_at 3 0 1 ∷ returned_at 4 1 0 ∷ []

-- The same results, with the calls one after the other.
abbrev in_sequence : List (TimeStamped ℕ ℕ)
in_sequence = called_at 1 0 1 ∷ returned_at 2 0 1 ∷ called_at 3 1 0 ∷ returned_at 4 1 0 ∷ []

-- A set that takes every node for a new one.
abbrev always_new : Option (Node ℕ ℕ) → Unit {0} → Bool × Unit {0}
always_new _ s = (true, s)

overlapping_succeeds : solve always_new 2 0 tt 100 50 overlapping ≡ finished success
unfolding solve search_loop visit visit_event visit_attempt next_lin_attempt next_thread
    new_configuration from_invoke has_called can_return try_return try_linearize new_states
    make_return make_fire_return make_linearize
overlapping_succeeds = refl

in_sequence_fails : solve always_new 2 0 tt 100 50 in_sequence ≡ finished failure
unfolding solve search_loop visit visit_event visit_attempt next_lin_attempt next_thread
    new_configuration from_invoke has_called can_return try_return try_linearize new_states
    make_return make_fire_return make_linearize
in_sequence_fails = refl

few_iterations_time_out : solve always_new 2 0 tt 5 3 overlapping ≡ finished timed_out
unfolding solve search_loop visit visit_event visit_attempt next_lin_attempt next_thread
    new_configuration from_invoke has_called can_return try_return try_linearize new_states
    make_return make_fire_return make_linearize
few_iterations_time_out = refl

solve-IsLinearizable_example : IsLinearizable 0 (map (λ t. t.event) overlapping)
solve-IsLinearizable_example =
    solve-IsLinearizable always_new 2 0 tt 100 50 overlapping overlapping_succeeds

solve_ends_example : solve always_new 2 0 tt 100 50 overlapping ≢ out_of_fuel
solve_ends_example = solve_ends always_new 2 0 tt 100 50 overlapping (omega arith) (omega arith)
