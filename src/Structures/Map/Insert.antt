-- ===== src/Structures/Map/Insert.antt =====
-- `insert` of the hash map.
use rustcurrent.Prelude.{
  ℕ, zero, suc, ◌+◌, ◌/◌, ◌%◌, ◌^◌, not, ltb, ◌==◌, if◌then◌else◌, Result, ok, err,
}
use rustcurrent.Concurrent.{Prog, ret, spin, ◌>>=◌, ◌>>◌}
use rustcurrent.Structures.Tagged.{is_marked, is_marked_second}
use rustcurrent.Structures.Map.{
  Bucket, head, Table, max_failures, shift_step, child_size, get_ptr, compare_and_mark, mark_slot,
  with_data_node, get_bucket, protect, expand_map, try_insert, Flow, and_descend, give, descend,
}

module _ {V : Type 0} (rounds tid hash : ℕ) (value : V) where
  -- `if fail_count > MAX_FAILURES { bucket[pos].mark(); node = bucket[pos].get_ptr(); }`
  unfoldable pub refresh : Bucket → (pos node fail_count : ℕ) → Prog (Table V) ℕ
  refresh b pos node fail_count =
      if ltb max_failures fail_count then (do mark_slot b pos; get_ptr b pos) else ret node

  abbrev go_down : ℕ → Prog (Table V) (Flow (Result (Unit {0}) V))
  go_down p = do b ← get_bucket p; ret (descend b)

  -- `again node fail_count` is the next round of the loop.
  module _ (b : Bucket) (pos r : ℕ)
      (again : (node fail_count : ℕ) → Prog (Table V) (Flow (Result (Unit {0}) V))) where
    abbrev pub inserted : ℕ → Result (Unit {0}) V → Prog (Table V) (Flow (Result (Unit {0}) V))
    inserted fail_count (ok _) = ret (give (ok tt))
    inserted fail_count (err _) = do node ← get_ptr b pos; again node (fail_count + 1)

    -- The arm for an empty slot.
    unfoldable pub insert_empty : ℕ → Prog (Table V) (Flow (Result (Unit {0}) V))
    insert_empty fail_count = do result ← try_insert b pos 0 hash value; inserted fail_count result

    abbrev pub marked :
        (node fail_count : ℕ) → Result ℕ ℕ → Prog (Table V) (Flow (Result (Unit {0}) V))
    marked node fail_count (ok _) = do
      new_ptr ← expand_map rounds tid b pos r
      if is_marked_second new_ptr then go_down new_ptr else again node (fail_count + 1)
    marked node fail_count (err current) =
        if is_marked_second current then go_down current else again node (fail_count + 1)

    -- The slot holds a data node that is protected and still there.
    unfoldable pub insert_at_data :
        (node node_ptr fail_count : ℕ) → Prog (Table V) (Flow (Result (Unit {0}) V))
    insert_at_data node node_ptr fail_count = with_data_node node_ptr λ _ other.
        if other == hash
        then ret (give (err value))
        else do result ← compare_and_mark b pos node_ptr; marked node fail_count result

    unfoldable pub insert_unmarked :
        (node node_ptr fail_count : ℕ) → Prog (Table V) (Flow (Result (Unit {0}) V))
    unfolding insert_at_data
    insert_unmarked node node_ptr fail_count =
        if is_marked_second node_ptr then go_down node_ptr else (do
          protect rounds tid node_ptr
          node2 ← get_ptr b pos
          if not (node2 == node)
              then again node2 (fail_count + 1)
              else insert_at_data node node_ptr fail_count)

    -- The arm for a slot that is not empty.
    unfoldable pub insert_full : (node fail_count : ℕ) → Prog (Table V) (Flow (Result (Unit {0}) V))
    unfolding insert_unmarked
    insert_full node fail_count =
        if is_marked node
        then (do
          new_bucket_ptr ← expand_map rounds tid b pos r
          if is_marked_second new_bucket_ptr
              then go_down new_bucket_ptr
              else insert_unmarked node new_bucket_ptr fail_count)
        else insert_unmarked node node fail_count

  -- The inner loop of `insert`, `n` rounds of it.
  unfoldable pub insert_loop :
      (n : ℕ) → Bucket → (pos r node fail_count : ℕ) → Prog (Table V) (Flow (Result (Unit {0}) V))
  unfolding refresh insert_empty insert_full
  insert_loop zero b pos r node fail_count = spin
  insert_loop (suc n) b pos r node fail_count = do
    node ← refresh b pos node fail_count
    if node == 0
        then insert_empty b pos r (insert_loop n b pos r) fail_count
        else insert_full b pos r (insert_loop n b pos r) node fail_count

  abbrev pub bottom_result : Result (Unit {0}) V → Result (Unit {0}) V
  bottom_result (ok _) = ok tt
  bottom_result (err v) = err v

  -- What follows the levels: the slot at the bottom of the tree.
  unfoldable pub insert_bottom : Bucket → (mut_hash : ℕ) → Prog (Table V) (Result (Unit {0}) V)
  insert_bottom b mut_hash = do
    let pos = mut_hash % child_size
    node ← get_ptr b pos
    if node == 0
        then (do result ← try_insert b pos 0 hash value; ret (bottom_result result))
        else ret (err value)

  -- `while r < KEY_SIZE - shift_step`, with the levels that are left.
  unfoldable pub insert_levels :
      (levels : ℕ) → Bucket → (r mut_hash : ℕ) → Prog (Table V) (Result (Unit {0}) V)
  unfolding insert_loop insert_bottom
  insert_levels zero b r mut_hash = insert_bottom b mut_hash
  insert_levels (suc levels) b r mut_hash = do
    let pos = mut_hash % b.len
    node ← get_ptr b pos
    flow ← insert_loop rounds b pos r node 0
    and_descend flow (λ b'. insert_levels levels b' (r + shift_step) (mut_hash / 2 ^ shift_step))

-- `r` goes from 0 in steps of 4 while it is below 60: 15 levels.
abbrev pub levels : ℕ
levels = 15

-- On an error the key comes back with the value.
unfoldable pub insert :
    {K V : Type 0} (hash_of : K → ℕ) (rounds tid : ℕ) (key : K) (value : V)
    → Prog (Table V) (Result (Unit {0}) (K × V))
unfolding insert_levels
insert hash_of rounds tid key value = do
  result ← insert_levels rounds tid (hash_of key) value levels head 0 (hash_of key)
  elim result [ ok _ ↦ ret (ok tt) | err v ↦ ret (err (key, v)) ]
