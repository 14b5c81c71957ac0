-- ===== src/Testing/Tester/Tests.antt =====
-- A run of the tester on a counter with two threads, whose calls overlap.
use rustcurrent.Prelude.{
  ℕ, ◌+◌, ◌≡◌, refl, Bool, true, Option, none, some, List, [], ◌∷◌, map, nat_eq,
}
use mathlib.Core.Path.{subst}
use rustcurrent.Testing.TimeStamped.{Op, TimeStamped, invoke, return}
use rustcurrent.Testing.Automaton.{
  new_configuration, from_invoke, has_called, can_return, try_return, try_linearize, new_states,
  make_return, make_fire_return, make_linearize,
}
use rustcurrent.Testing.History.{IsLinearizable}
use rustcurrent.Testing.Solver.{
  Node, finished, success, next_thread, next_lin_attempt, visit_event, visit_attempt, visit,
  search_loop, solve,
}
use rustcurrent.Testing.ThreadLog.{ThreadLog, append_all, merge}
use rustcurrent.Testing.ThreadLog.InsertionSort.{sort, sort-IsStableSort}
use rustcurrent.Testing.ThreadLog.Merge.{IsHistory, merge-IsHistory}
use rustcurrent.Testing.Tester.{LinearizabilityTester, new_tester, run, run-IsLinearizable}

-- `fetch_add(1)`
abbrev increment : Op ℕ ℕ
increment count _ = (count + 1, some count)

abbrev called_at : (stamp id result : ℕ) → TimeStamped ℕ ℕ
called_at stamp id result = record {
  stamp = stamp;
  event =
      invoke
        (record { id = id; message = "increment"; op = increment; arg = none; res = some result });
}

abbrev returned_at : (stamp id result : ℕ) → TimeStamped ℕ ℕ
returned_at stamp id result = record {
  stamp = stamp;
  event = return (record { id = id; result = some result });
}

-- A set that takes every node for a new one.
abbrev always_new : Option (Node ℕ ℕ) → Unit {0} → Bool × Unit {0}
always_new _ s = (true, s)

abbrev logs_after : List (ThreadLog ℕ ℕ ℕ) → List (ThreadLog ℕ ℕ ℕ)
logs_after _ =
    record { id = 0; concurrent = 0; events = called_at 1 0 1 ∷ returned_at 3 0 1 ∷ [] }
    ∷ record { id = 1; concurrent = 0; events = called_at 2 1 0 ∷ returned_at 4 1 0 ∷ [] }
    ∷ []

abbrev counter_tester : LinearizabilityTester ℕ ℕ
counter_tester = new_tester 2 100 0 0

counter_succeeds : run always_new tt sort logs_after counter_tester 50 ≡ finished success
unfolding run merge sort append_all solve search_loop visit visit_event visit_attempt
    next_lin_attempt next_thread new_configuration from_invoke has_called can_return try_return
    try_linearize new_states make_return make_fire_return make_linearize
counter_succeeds = refl

-- What the two threads logged, by time.
abbrev history : List (TimeStamped ℕ ℕ)
history = called_at 1 0 1 ∷ called_at 2 1 0 ∷ returned_at 3 0 1 ∷ returned_at 4 1 0 ∷ []

history_is_merged : merge sort (logs_after []) ≡ history
unfolding merge append_all sort
history_is_merged = refl

history-IsHistory : IsHistory (logs_after []) history
history-IsHistory =
    subst (IsHistory (logs_after [])) history_is_merged
      (merge-IsHistory sort (logs_after []) sort-IsStableSort)

run-IsLinearizable_example : IsLinearizable 0 (map (λ t. t.event) history)
run-IsLinearizable_example =
    run-IsLinearizable always_new tt sort logs_after counter_tester 50 history sort-IsStableSort
      history-IsHistory counter_succeeds
