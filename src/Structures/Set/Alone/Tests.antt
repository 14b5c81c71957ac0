-- ===== src/Structures/Set/Alone/Tests.antt =====
-- The methods of the hash set on a small table, by thread 1 with 3 rounds.
use rustcurrent.Prelude.{ℕ, ◌≡◌, arith, false, Option, none, some, is_some, ◌==◌, if◌then◌else◌}
use rustcurrent.Concurrent.{◌>>◌}
use rustcurrent.Concurrent.Returns.{Returns}
use rustcurrent.Structures.Map.Alone.{Holds}
use rustcurrent.Structures.Map.Alone.Samples.{one_entry, one_entry-Holds}
use rustcurrent.Structures.Set.{insert, contains}
use rustcurrent.Structures.Set.Remove.{remove}
use rustcurrent.Structures.Set.Alone.{ValueInserted, insert-ValueInserted, contains-Holds}
use rustcurrent.Structures.Set.Alone.Remove.{Emptied, remove-Emptied}
use rustcurrent.Structures.Set.Alone.Calls.{contains-remove}

abbrev entry : ℕ → Option ℕ
entry h = if 0x1234 == h then some 7 else none

abbrev hash_of : ℕ → ℕ
hash_of k = if k == 7 then 0x1234 else k

contains-Holds_example :
    Returns
      (λ a s. (a ≡ is_some (entry 0x1234)) × Holds 3 1 entry s)
      (contains {T = ℕ} hash_of 3 1 7)
      one_entry
contains-Holds_example = contains-Holds hash_of 3 1 7 entry one_entry one_entry-Holds (omega arith)

insert-ValueInserted_example :
    Returns (ValueInserted 3 1 0x1334 0x1334 entry) (insert hash_of 3 1 0x1334) one_entry
insert-ValueInserted_example =
    insert-ValueInserted hash_of 3 1 0x1334 entry one_entry one_entry-Holds (omega arith)

remove-Emptied_example : Returns (Emptied 3 1 0x1234 entry) (remove {T = ℕ} hash_of 3 1 7) one_entry
remove-Emptied_example = remove-Emptied hash_of 3 1 7 entry one_entry one_entry-Holds (omega arith)

contains-remove_example :
    Returns (λ a _. a ≡ false) (remove {T = ℕ} hash_of 3 1 7 >> contains hash_of 3 1 7) one_entry
contains-remove_example =
    contains-remove hash_of 3 1 7 entry one_entry one_entry-Holds (omega arith)
