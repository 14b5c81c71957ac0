-- ===== src/Structures/Stack/Tests.antt =====
-- Runs of the stack, and an attempt to push on an empty one.
use rustcurrent.Prelude.{ℕ, ◌≡◌, refl, arith, false, Option, none, some, Result, ok}
use rustcurrent.Concurrent.{Prog, ◌>>=◌, ◌>>◌, run, Final, done}
use rustcurrent.Concurrent.Linearization.{Linearizes, LinearizesFrom}
use rustcurrent.Memory.Hazard
use rustcurrent.Memory.Hazard.{allocate_hp, allocate_hps, box_hp, push_hp, get_mut_thread_info}
use rustcurrent.Structures.Stack.{
  Stack, new_stack, new_node, set_node, new_as_pointer, try_push, try_pop, pop_head,
}
use rustcurrent.Structures.Stack.Chain.{IsIn, nil, cons}
use rustcurrent.Structures.Stack.Linearized.{
  LeavesAlone, Quiet, PushEffect, FailsWith, KeepsLink, LeavesPopped, PopEffect, Fails,
  try_push-Linearizes, try_pop-Linearizes,
}

abbrev answer : {A : Type 0} → Final (Stack ℕ) A → Option A
answer (done a _) = some a
answer _ = none

two_values : Prog (Stack ℕ) (Result (Option ℕ) (Unit {0}))
unfolding new_as_pointer try_push try_pop pop_head Hazard.protect Hazard.retire allocate_hp
    allocate_hps box_hp push_hp get_mut_thread_info
two_values = do
  a ← new_as_pointer 7
  try_push a
  b ← new_as_pointer 8
  try_push b
  try_pop false 3 1
  try_pop false 3 1

-- The value that went in first comes out last.
two_values-run : answer (run two_values (new_stack false)) ≡ some (ok (some 7))
unfolding run two_values
two_values-run = refl

abbrev one_node : Stack ℕ
one_node = set_node 1 (new_node 7) (record (new_stack false) { last = 1 })

private_node : ¬ IsIn one_node 1
private_node (_, nil e, there) = cc
private_node (_, cons ne c, there) = absurd (ne refl)

try_push-Linearizes_example :
    Linearizes
      (LeavesAlone 1)
      (λ _ _. Unit {0})
      Quiet
      (PushEffect (some 7))
      (FailsWith 1)
      (try_push 1)
      one_node
try_push-Linearizes_example = try_push-Linearizes 1 one_node (λ e. omega arith) private_node

try_pop-Linearizes_example :
    LinearizesFrom
      (λ s0. KeepsLink s0.head)
      (λ s0. LeavesPopped s0.head)
      Quiet
      PopEffect
      Fails
      (try_pop {T = ℕ} false 3 1)
try_pop-Linearizes_example = try_pop-Linearizes ℕ false 3 1
