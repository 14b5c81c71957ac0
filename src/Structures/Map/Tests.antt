-- ===== src/Structures/Map/Tests.antt =====
-- Runs of the hash map.
use rustcurrent.Prelude.{ℕ, ◌≡◌, refl, Option, none, some}
use rustcurrent.Concurrent.{Prog, ◌>>◌, run, Final, done}
use rustcurrent.Memory.Hazard
use rustcurrent.Memory.Hazard.{allocate_hp, allocate_hps, box_hp, push_hp, get_mut_thread_info}
use rustcurrent.Structures.Tagged.{
  is_marked, is_marked_second, unmark, mark, mark_second, unmark_second,
}
use rustcurrent.Structures.Map.{
  get_ptr, try_insert, protect, with_data_node, compare_and_mark, expand_map, Table, new_table,
}
use rustcurrent.Structures.Map.Insert.{
  insert, insert_levels, insert_loop, insert_bottom, refresh, insert_empty, insert_full,
}
use rustcurrent.Structures.Map.Lookup.{
  get_clone, lookup_levels, lookup_level, lookup_unmarked, read_node,
}

abbrev answer : {A : Type 0} → Final (Table ℕ) A → Option A
answer (done a _) = some a
answer _ = none

-- The functions of the hash map and of what it calls, for a test to compute with.
small : Prog (Table ℕ) (Option ℕ)
unfolding insert get_clone get_ptr try_insert is_marked is_marked_second protect Hazard.protect
    with_data_node unmark compare_and_mark expand_map mark mark_second unmark_second allocate_hp
    allocate_hps box_hp push_hp get_mut_thread_info insert_levels insert_loop insert_bottom refresh
    insert_empty insert_full lookup_levels lookup_level lookup_unmarked read_node
small = do insert (λ k. k) 3 1 0x1234 7; get_clone (λ k. k) 3 1 0x1234

small_runs : answer (run small new_table) ≡ some (some 7)
unfolding run small
small_runs = refl
