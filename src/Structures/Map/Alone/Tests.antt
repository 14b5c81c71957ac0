-- ===== src/Structures/Map/Alone/Tests.antt =====
-- The methods of the hash map on a small table, by thread 1 with 3 rounds.
use rustcurrent.Prelude.{ℕ, ◌+◌, ◌≡◌, arith, Option, none, some, ◌==◌, if◌then◌else◌, nat_eq}
use rustcurrent.Concurrent.{◌>>◌}
use rustcurrent.Concurrent.Returns.{Returns}
use rustcurrent.Structures.Map.Insert.{insert}
use rustcurrent.Structures.Map.Lookup.{get_clone}
use rustcurrent.Structures.Map.Update
use rustcurrent.Structures.Map.Remove.{remove}
use rustcurrent.Structures.Map.Alone.{with_manager, Holds}
use rustcurrent.Structures.Map.Alone.Samples.{
  served, one_array, one_array-Holds, one_entry, one_entry-Holds,
}
use rustcurrent.Structures.Map.Alone.Lookup.{get_clone-Holds}
use rustcurrent.Structures.Map.Alone.Calls.{get_clone-insert}
use rustcurrent.Structures.Map.Iter.{new_iter, next}
use rustcurrent.Structures.Map.Visits.Next.{full_cost, Yields, new_iter-Iterates, next-Iterates}
use rustcurrent.Structures.Map.Alone.Insert.{KeyInserted, insert-KeyInserted}
use rustcurrent.Structures.Map.Alone.Update.{Updated, update-Updated}
use rustcurrent.Structures.Map.Alone.Remove.{Removed, remove-Removed}

abbrev entry : ℕ → Option ℕ
entry h = if 0x1234 == h then some 7 else none

get_clone-Holds_example :
    Returns
      (λ a s. (a ≡ entry 0x1234) × Holds 3 1 entry s)
      (get_clone {V = ℕ} (λ (k : ℕ). k) 3 1 0x1234)
      one_entry
get_clone-Holds_example =
    get_clone-Holds (λ (k : ℕ). k) 3 1 0x1234 entry one_entry one_entry-Holds (omega arith)

insert-KeyInserted_example :
    Returns (KeyInserted 3 1 0x1334 0x1334 8 entry) (insert (λ (k : ℕ). k) 3 1 0x1334 8) one_entry
insert-KeyInserted_example =
    insert-KeyInserted (λ (k : ℕ). k) 3 1 0x1334 8 entry one_entry one_entry-Holds (omega arith)

update-Updated_example :
    Returns (Updated 3 1 0x1234 7 8 entry) (Update.update (λ (k : ℕ). k) 3 1 0x1234 7 8) one_entry
update-Updated_example =
    update-Updated (λ (k : ℕ). k) 3 1 0x1234 7 8 entry one_entry one_entry-Holds (omega arith)

remove-Removed_example :
    Returns (Removed 3 1 0x1234 7 entry) (remove (λ (k : ℕ). k) 3 1 0x1234 7) one_entry
remove-Removed_example =
    remove-Removed (λ (k : ℕ). k) 3 1 0x1234 7 entry one_entry one_entry-Holds (omega arith)

get_clone-insert_example :
    Returns
      (λ a _. a ≡ (elim (entry 0x1334) [ none ↦ some 8 | some w ↦ some w ]))
      (insert (λ (k : ℕ). k) 3 1 0x1334 8 >> get_clone (λ (k : ℕ). k) 3 1 0x1334)
      one_entry
get_clone-insert_example =
    get_clone-insert (λ (k : ℕ). k) 3 1 0x1334 8 entry one_entry one_entry-Holds (omega arith)

-- The entry is below an array node.
next-Iterates_example :
    Returns
      (λ (item, it') s'. Yields 1 entry entry item it' s')
      (next 3 1 (1 + full_cost) new_iter)
      (with_manager served one_array)
next-Iterates_example =
    next-Iterates (1 + full_cost) 2 1 entry entry new_iter (with_manager served one_array)
      (new_iter-Iterates 3 1 entry (with_manager served one_array) one_array-Holds) (omega arith)
