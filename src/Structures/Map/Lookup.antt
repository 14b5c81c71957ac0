-- ===== src/Structures/Map/Lookup.antt =====
-- `get_clone` and `get` of the hash map. A guard is the value with the index of the handle that
-- protects it.
use rustcurrent.Prelude.{
  ℕ, zero, suc, ◌+◌, ◌/◌, ◌%◌, ◌^◌, not, Option, none, some, ltb, ◌==◌, if◌then◌else◌,
}
use rustcurrent.Concurrent.{Prog, ret, spin, ◌>>=◌, ◌>>◌, load}
use rustcurrent.Memory.Hazard
use rustcurrent.Structures.Tagged.{is_marked, unmark, is_marked_second, unmark_second}
use rustcurrent.Structures.Map.{
  Bucket, head, Table, max_failures, shift_step, child_size, on_data, and_descend, get_ptr,
  mark_slot, with_data_node, get_bucket, of_manager, protect, expand_map, Flow, give, descend,
}
use rustcurrent.Structures.Map.Insert.{levels}

-- What the loop that checks the hazard pointer ends with: the slot was emptied, or a bucket and the
-- pointer to go on with.
pub data Recheck : Type 0 where
  gone : Recheck
  settled : Bucket → ℕ → Recheck

module _ {V : Type 0} (rounds tid : ℕ) where
  -- `while node != bucket[pos].get_ptr() { … }`, `n` rounds of it. After too many failures the
  -- slot is marked and expanded, and the loop is left.
  unfoldable pub recheck :
      (n : ℕ) → Bucket → (pos r node node_ptr fail_count : ℕ) → Prog (Table V) Recheck
  recheck zero b pos r node node_ptr fail_count = spin
  recheck (suc n) b pos r node node_ptr fail_count = do
    now ← get_ptr b pos
    if node == now then ret (settled b node_ptr) else do
      new_ptr ← get_ptr b pos
      if new_ptr == 0 then ret gone else do
        protect rounds tid (unmark (unmark_second new_ptr))
        if ltb max_failures (fail_count + 1)
            then (do
              mark_slot b pos
              forced ← expand_map rounds tid b pos r
              b' ← get_bucket forced
              ret (settled b' forced))
            else recheck n b pos r new_ptr new_ptr (fail_count + 1)

  module _ {A : Type 0} (hash : ℕ) (found : (p : ℕ) → Option V → Prog (Table V) (Option A)) where
    abbrev pub go_down : ℕ → Prog (Table V) (Flow (Option A))
    go_down p = do b ← get_bucket p; ret (descend b)

    -- The hazard pointer protects the node: read it.
    unfoldable pub read_node : ℕ → Prog (Table V) (Flow (Option A))
    read_node node_ptr = with_data_node node_ptr λ value other.
        if other == hash
        then (do result ← found node_ptr value; ret (give result))
        else ret (give none)

    abbrev pub after_recheck : ℕ → ℕ → Recheck → Prog (Table V) (Flow (Option A))
    after_recheck pos r gone = ret (give none)
    after_recheck pos r (settled b node_ptr) =
        if is_marked node_ptr
        then (do p ← expand_map rounds tid b pos r; go_down p)
        else (if is_marked_second node_ptr then go_down node_ptr else read_node node_ptr)

    unfoldable pub lookup_unmarked :
        Bucket → (pos r node node_ptr : ℕ) → Prog (Table V) (Flow (Option A))
    unfolding read_node recheck
    lookup_unmarked b pos r node node_ptr =
        if is_marked_second node_ptr then go_down node_ptr else (do
          protect rounds tid (unmark node_ptr)
          now ← get_ptr b pos
          if not (node == now)
              then (do
                checked ← recheck rounds b pos r node node_ptr 0
                after_recheck pos r checked)
              else read_node node_ptr)

    -- One level of the tree.
    unfoldable pub lookup_level : Bucket → (pos r : ℕ) → Prog (Table V) (Flow (Option A))
    unfolding lookup_unmarked
    lookup_level b pos r = do
      node ← get_ptr b pos
      if node == 0
          then ret (give none)
          else (if is_marked node
              then (do
                new_bucket_ptr ← expand_map rounds tid b pos r
                lookup_unmarked b pos r node new_bucket_ptr)
              else lookup_unmarked b pos r node node)

    -- The slot at the bottom of the tree, where the hash is not compared again.
    unfoldable pub lookup_bottom : Bucket → (mut_hash : ℕ) → Prog (Table V) (Option A)
    lookup_bottom b mut_hash = do
      node ← get_ptr b (mut_hash % child_size)
      if node == 0
          then ret none
          else do n ← load (λ t. t.node node); on_data n (λ value _. found node value)

    unfoldable pub lookup_levels :
        (levels : ℕ) → Bucket → (r mut_hash : ℕ) → Prog (Table V) (Option A)
    unfolding lookup_level lookup_bottom
    lookup_levels zero b r mut_hash = lookup_bottom b mut_hash
    lookup_levels (suc levels) b r mut_hash = do
      flow ← lookup_level b (mut_hash % b.len) r
      and_descend flow (λ b'. lookup_levels levels b' (r + shift_step) (mut_hash / 2 ^ shift_step))

module _ {K V : Type 0} (hash_of : K → ℕ) (rounds tid : ℕ) where
  unfoldable pub get_clone : K → Prog (Table V) (Option V)
  unfolding lookup_levels
  get_clone key =
      lookup_levels rounds tid (hash_of key) (λ _ value. ret value) levels head 0 (hash_of key)

  -- The value is handed out under a new hazard pointer, and hazard pointer 0 is cleared. With no
  -- value the handle is dropped.
  abbrev guarded : ℕ → Option V → Prog (Table V) (Option (V × ℕ))
  guarded p value = do
    handle ← of_manager (Hazard.protect_dynamic rounds tid (unmark p))
    of_manager (Hazard.unprotect rounds tid 0)
    elim value [
      | none ↦ of_manager (Hazard.unprotect_dynamic rounds tid handle) >> ret none
      | some v ↦ ret (some (v, handle))
    ]

  unfoldable pub get : K → Prog (Table V) (Option (V × ℕ))
  unfolding lookup_levels
  get key = lookup_levels rounds tid (hash_of key) guarded levels head 0 (hash_of key)
