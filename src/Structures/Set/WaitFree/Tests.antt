-- ===== src/Structures/Set/WaitFree/Tests.antt =====
-- `contains` of one element, by thread 1 with 11 rounds.
use rustcurrent.Prelude.{ℕ, arith}
use rustcurrent.Concurrent.Guarantee.{Finishes}
use rustcurrent.Structures.Map.WaitFree.Steps.{IsRegistered}
use rustcurrent.Structures.Set.{contains}
use rustcurrent.Structures.Set.WaitFree.{contains-Finishes}

contains-Finishes_example :
    Finishes (λ t. IsRegistered 1 t.manager) (contains {T = ℕ} (λ (k : ℕ). k) 11 1 0x1234)
contains-Finishes_example = contains-Finishes 11 1 ℕ (λ (k : ℕ). k) 0x1234 (omega arith)
