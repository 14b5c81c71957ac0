-- ===== src/Testing/Tester.antt =====
-- The tester (`LinearizabilityTester` of src/testing/linearizability_tester.rs). The threads of rayon
-- are outside: what `scope` has run is a parameter, the logs that the workers leave from the empty
-- logs of the threads.
mod Tests
use rustcurrent.Prelude.{ℕ, ◌≡◌, Bool, Option, List, map, Eq}
use rustcurrent.Testing.History.{IsLinearizable}
use rustcurrent.Testing.Solver.{Node, Run, finished, success, solve}
use rustcurrent.Testing.Solver.Soundness.{solve-IsLinearizable}
use rustcurrent.Testing.ThreadLog.{ThreadLog, new_logs, merge}
use rustcurrent.Testing.ThreadLog.Merge.{IsStableSort, IsHistory, merge-IsHistory}
use rustcurrent.Testing.ThreadLog.Unique.{IsHistory-unique}
use mathlib.Core.Path.{subst}
use rustcurrent.Testing.TimeStamped.{TimeStamped}

pub record LinearizabilityTester (C Seq : Type 0) : Type 0 where
  pub num_threads : ℕ
  pub iterations : ℕ
  pub concurrent : C
  pub sequential : Seq

abbrev pub new_tester :
    {C Seq : Type 0} → (num_threads iterations : ℕ) → C → Seq → LinearizabilityTester C Seq
new_tester num_threads iterations concurrent sequential = record {
  num_threads = num_threads;
  iterations = iterations;
  concurrent = concurrent;
  sequential = sequential;
}

module _ {C Seq Ret Seen : Type 0} ⦃e : Eq Ret⦄
    (insert : Option (Node Seq Ret) → Seen → Bool × Seen) (empty : Seen)
    (sort : List (TimeStamped Seq Ret) → List (TimeStamped Seq Ret))
    (scope : List (ThreadLog C Seq Ret) → List (ThreadLog C Seq Ret))
    (tester : LinearizabilityTester C Seq) (fuel : ℕ) where
  -- The logs when all workers are done.
  abbrev pub full_logs : List (ThreadLog C Seq Ret)
  full_logs = scope (new_logs tester.num_threads 0 tester.concurrent)

  unfoldable pub run : Run
  run =
      solve insert tester.num_threads tester.sequential empty tester.iterations fuel
        (merge sort full_logs)

  -- If a run of the tester answers with success, then what the threads logged is linearizable: the
  -- history of their logs, in the order of the time stamps, has linearization points. The sort of
  -- the standard library sorts and is stable.
  pub run-IsLinearizable :
      (history : List (TimeStamped Seq Ret))
      → IsStableSort sort
      → IsHistory full_logs history
      → run ≡ finished success
      → IsLinearizable tester.sequential (map (λ t. t.event) history)
  unfolding run
  run-IsLinearizable history std of_logs h =
      subst (λ l. IsLinearizable tester.sequential (map (λ t. t.event) l))
        (IsHistory-unique full_logs (merge sort full_logs) history
          (merge-IsHistory sort full_logs std) of_logs)
        (solve-IsLinearizable insert tester.num_threads tester.sequential empty tester.iterations
          fuel (merge sort full_logs) h)
