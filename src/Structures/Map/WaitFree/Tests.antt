-- ===== src/Structures/Map/WaitFree/Tests.antt =====
-- `get_clone` of one key, by thread 1 with 11 rounds.
use rustcurrent.Prelude.{ℕ, arith}
use rustcurrent.Concurrent.Guarantee.{Finishes}
use rustcurrent.Structures.Map.Lookup.{get_clone}
use rustcurrent.Structures.Map.WaitFree.{get_clone-Finishes}
use rustcurrent.Structures.Map.WaitFree.Steps.{IsRegistered}

get_clone-Finishes_example :
    Finishes (λ t. IsRegistered 1 t.manager) (get_clone {V = ℕ} (λ (k : ℕ). k) 11 1 0x1234)
get_clone-Finishes_example = get_clone-Finishes 11 1 ℕ (λ (k : ℕ). k) 0x1234 (omega arith)
