-- ===== src/Memory/Hazard/Tests.antt =====
-- Runs of the hazard pointer manager: thread 7 has the hazard pointers 2 and 1, one of which
-- protects record 40, and has retired the records 40 and 50.
use rustcurrent.Prelude.{ℕ, ◌≡◌, ◌≢◌, refl, arith, none, some, [], ◌∷◌, get_elem?, update, false}
use rustcurrent.Concurrent.{done, run}
use rustcurrent.Concurrent.Guarantee.{Ensures}
use rustcurrent.Memory.Hazard.{
  Manager, HazardPointer, ThreadLocalInfo, new_hazard_pointer, set_info, scan, retire,
  protect_dynamic, collect, sweep, get_mut_thread_info,
}
use rustcurrent.Memory.Hazard.Safety.{here, next, Rely, Spares, scan-Spares}
use rustcurrent.Memory.Hazard.Scan.{nil, cons, is_protected, discard, scanned, scan-run}
use rustcurrent.Memory.Hazard.Retire.{Accounted, retire-Accounted}
use rustcurrent.Memory.Hazard.Dynamic.{protect_dynamic-unprotected, protect_dynamic-steals}

abbrev two_hazards : ℕ → HazardPointer
two_hazards =
    update (update (λ _. new_hazard_pointer) 2 (record { protected = 0; next = 1; active = false }))
      1 (record { protected = 40; next = 0; active = false })

abbrev info_of_seven : ThreadLocalInfo
info_of_seven = record {
  local_hazards = 2 ∷ 1 ∷ [];
  retired_list = 40 ∷ 50 ∷ [];
  retired_number = 2;
  starting_hazards_num = 1;
}

abbrev manager : Manager
manager = record {
  head = 2;
  max_retired = 2;
  num_hp_per_thread = 1;
  hazards = two_hazards;
  last = 2;
  thread_info = update (λ _. none) 7 (some info_of_seven);
  freed = [];
}

-- The same with no dynamic hazard pointer.
abbrev info_without : ThreadLocalInfo
info_without = record info_of_seven { local_hazards = 2 ∷ [] }

abbrev manager_without : Manager
manager_without = set_info 7 info_without manager

-- Record 50 goes, record 40 stays.
scan_frees_50 :
    run (scan 3 7) manager
    ≡ done tt (
        set_info 7
          (record info_of_seven { retired_list = 40 ∷ []; retired_number = 1 })
          (record manager { freed = 50 ∷ [] }))
unfolding scan collect sweep get_mut_thread_info run
scan_frees_50 = refl

scan-Spares_example : Ensures (Rely 1 40) (Spares 1 40) (λ _ _. Unit) (scan 3 7) manager
scan-Spares_example =
    scan-Spares 1 40 (λ e. omega arith) (λ e. omega arith) 3 7 manager refl
      (next (λ e. omega arith) (here refl))

scan-run_example :
    run (scan 3 7) manager
    ≡ done tt (
        set_info 7 (scanned manager (2 ∷ 1 ∷ []) info_of_seven) (record manager {
          freed = discard (is_protected manager (2 ∷ 1 ∷ [])) (40 ∷ 50 ∷ []) [];
        }))
scan-run_example =
    scan-run 3 7 manager (2 ∷ 1 ∷ []) info_of_seven
      (cons (λ e. omega arith) (cons (λ e. omega arith) (nil refl))) (omega arith) refl

protect_dynamic-unprotected_example :
    (m' : Manager) × (info' : ThreadLocalInfo) × (hp : ℕ) × (run
        (protect_dynamic 3 7 60)
        manager_without
      ≡ done 1 m')
    × (m'.thread_info 7 ≡ some info')
    × (get_elem? info'.local_hazards 1 ≡ some hp)
    × ((m'.hazards hp).protected ≡ 0)
protect_dynamic-unprotected_example =
    protect_dynamic-unprotected 2 7 60 manager_without info_without refl tt

-- The same with a null hazard pointer before the one that is in use.
abbrev info_with_three : ThreadLocalInfo
info_with_three = record info_of_seven { local_hazards = 2 ∷ 3 ∷ 1 ∷ [] }

abbrev manager_with_three : Manager
manager_with_three = set_info 7 info_with_three manager

protect_dynamic-steals_example :
    (m' : Manager) × (i : ℕ) × (run (protect_dynamic 3 7 60) manager_with_three ≡ done i m')
    × (get_elem? info_with_three.local_hazards i ≡ some 1)
    × ((m'.hazards 1).protected ≡ 60)
    × ((a : ℕ) → a ≢ 1 → m'.hazards a ≡ manager_with_three.hazards a)
protect_dynamic-steals_example =
    protect_dynamic-steals 3 7 60 1 (3 ∷ []) [] manager_with_three info_with_three refl refl
      (refl, tt) (λ e. omega arith)

retire-Accounted_example :
    (m' : Manager) × (run (retire 3 7 60 0) manager ≡ done tt m')
    × ((m'.hazards 2).protected ≡ 0)
    × Accounted 7 (2 ∷ 1 ∷ []) (40 ∷ 50 ∷ 60 ∷ []) manager m'
retire-Accounted_example =
    retire-Accounted 3 7 60 0 2 (2 ∷ 1 ∷ []) manager info_of_seven refl refl refl
      (cons (λ e. omega arith) (cons (λ e. omega arith) (nil refl))) (omega arith)
