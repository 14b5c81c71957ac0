-- ===== src/Structures/Queue/Tests.antt =====
-- Runs of the queue.
use rustcurrent.Prelude.{ℕ, ◌≡◌, refl, arith, Option, none, some, Result, ok}
use rustcurrent.Concurrent.{Prog, ◌>>=◌, ◌>>◌, run, Final, done}
use rustcurrent.Concurrent.Linearization.{LinearizesFrom}
use rustcurrent.Memory.Hazard
use rustcurrent.Memory.Hazard.{allocate_hp, allocate_hps, box_hp, push_hp, get_mut_thread_info}
use rustcurrent.Structures.Queue.{Queue, new_queue, box_node, try_enqueue, try_dequeue, take_first}
use rustcurrent.Structures.Queue.Dequeue.{
  Quiet, KeepsLink, KeepsValue, TakeEffect, Fails, try_dequeue-Linearizes,
}
use rustcurrent.Structures.Queue.Enqueue.{
  KeepsTail, EnqueueEffect, GivesBack, try_enqueue-Linearizes,
}

abbrev answer : {A : Type 0} → Final (Queue ℕ) A → Option A
answer (done a _) = some a
answer _ = none

two_values : Prog (Queue ℕ) (Result (Option ℕ) (Unit {0}))
unfolding box_node try_enqueue try_dequeue take_first Hazard.protect Hazard.retire allocate_hp
    allocate_hps box_hp push_hp get_mut_thread_info
two_values = do
  a ← box_node 7
  try_enqueue 3 1 a
  b ← box_node 8
  try_enqueue 3 1 b
  try_dequeue 3 1

-- The value that went in first comes out first.
two_values-run : answer (run two_values new_queue) ≡ some (ok (some 7))
unfolding run two_values
two_values-run = refl

try_dequeue-Linearizes_example :
    LinearizesFrom
      (λ s0. KeepsLink s0.head)
      (λ _. KeepsValue)
      Quiet
      TakeEffect
      Fails
      (try_dequeue {T = ℕ} 3 1)
try_dequeue-Linearizes_example = try_dequeue-Linearizes ℕ 3 1

try_enqueue-Linearizes_example :
    LinearizesFrom
      (λ s0. KeepsTail 2 s0.tail)
      (λ _ _ _. Unit {0})
      Quiet
      (EnqueueEffect 2)
      (GivesBack 2)
      (try_enqueue {T = ℕ} 3 1 2)
try_enqueue-Linearizes_example = try_enqueue-Linearizes ℕ 3 1 2 (λ e. omega arith)
