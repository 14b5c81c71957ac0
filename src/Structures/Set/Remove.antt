-- ===== src/Structures/Set/Remove.antt =====
-- `remove` of the hash set.
use rustcurrent.Prelude.{
  ℕ, zero, suc, ◌+◌, ◌/◌, ◌%◌, ◌^◌, not, ◌&&◌, Option, none, ◌==◌, if◌then◌else◌, Result, ok, err,
}
use rustcurrent.Concurrent.{Prog, ret, ◌>>=◌, ◌>>◌}
use rustcurrent.Structures.Tagged.{is_marked, unmark, is_marked_second}
use rustcurrent.Structures.Map.{
  Bucket, head, Table, shift_step, get_ptr, slot_compare_exchange, with_data_node, get_bucket,
  protect, expand_map, Flow, and_descend, give, descend,
}
use rustcurrent.Structures.Map.Insert.{levels}
use rustcurrent.Structures.Map.Lookup.{Recheck, gone, settled}
use rustcurrent.Structures.Map.Remove.{recheck, take_out}

module _ {T : Type 0} (rounds tid : ℕ) where
  abbrev pub taken : ℕ → Result ℕ ℕ → Prog (Table T) (Result (Option T) ℕ)
  taken old (ok _) = do value ← take_out rounds tid old; ret (ok value)
  taken old (err current) = ret (err current)

  -- The exchange with null, and on success the value of the node, which is retired.
  unfoldable pub try_remove : Bucket → ℕ → (old : ℕ) → Prog (Table T) (Result (Option T) ℕ)
  unfolding slot_compare_exchange take_out
  try_remove b pos old = do swapped ← slot_compare_exchange b pos old 0; taken old swapped

  abbrev pub go_down : ℕ → Prog (Table T) (Flow (Option T))
  go_down p = do b ← get_bucket p; ret (descend b)

  abbrev pub expand_down : Bucket → (pos r : ℕ) → Prog (Table T) (Flow (Option T))
  expand_down b pos r = do p ← expand_map rounds tid b pos r; go_down p

  abbrev pub tried :
      Bucket → (pos r node_ptr : ℕ) → Result (Option T) ℕ → Prog (Table T) (Flow (Option T))
  tried b pos r node_ptr (ok value) = ret (give value)
  tried b pos r node_ptr (err current) =
      if is_marked_second current
      then go_down current
      else (if is_marked current && (unmark current == node_ptr)
          then expand_down b pos r
          else ret (give none))

  abbrev pub bottom_tried : Result (Option T) ℕ → Prog (Table T) (Option T)
  bottom_tried (ok value) = ret value
  bottom_tried (err _) = ret none

module _ {T : Type 0} (rounds tid hash : ℕ) where
  -- The hazard pointer protects the node.
  unfoldable pub remove_node : Bucket → (pos r node_ptr : ℕ) → Prog (Table T) (Flow (Option T))
  unfolding try_remove
  remove_node b pos r node_ptr = with_data_node node_ptr λ _ other.
      if other == hash
      then (do
        result ← try_remove rounds tid b pos node_ptr
        tried rounds tid b pos r node_ptr result)
      else ret (give none)

  abbrev pub after_recheck : ℕ → ℕ → Recheck → Prog (Table T) (Flow (Option T))
  after_recheck pos r gone = ret (give none)
  after_recheck pos r (settled b node_ptr) =
      if is_marked_second node_ptr
      then go_down rounds tid node_ptr
      else (if is_marked node_ptr
          then expand_down rounds tid b pos r
          else remove_node b pos r node_ptr)

  unfoldable pub remove_unmarked : Bucket → (pos r node : ℕ) → Prog (Table T) (Flow (Option T))
  unfolding remove_node recheck
  remove_unmarked b pos r node = do
    protect rounds tid (unmark node)
    now ← get_ptr b pos
    if not (node == now)
        then (do
          checked ← recheck rounds tid rounds b pos r node node 0
          after_recheck pos r checked)
        else remove_node b pos r node

  -- One level of the tree.
  unfoldable pub remove_level : Bucket → (pos r : ℕ) → Prog (Table T) (Flow (Option T))
  unfolding remove_unmarked
  remove_level b pos r = do
    node ← get_ptr b pos
    if node == 0
        then ret (give none)
        else (if is_marked_second node
            then go_down rounds tid node
            else (if is_marked node
                then expand_down rounds tid b pos r
                else remove_unmarked b pos r node))

  -- The slot at the bottom of the tree.
  unfoldable pub remove_bottom : Bucket → (mut_hash : ℕ) → Prog (Table T) (Option T)
  unfolding try_remove
  remove_bottom b mut_hash = do
    let pos = mut_hash % b.len
    node_ptr ← get_ptr b pos
    if node_ptr == 0
        then ret none
        else with_data_node node_ptr λ _ other.
          if other == hash
          then (do result ← try_remove rounds tid b pos node_ptr; bottom_tried rounds tid result)
          else ret none

  unfoldable pub remove_levels :
      (levels : ℕ) → Bucket → (r mut_hash : ℕ) → Prog (Table T) (Option T)
  unfolding remove_level remove_bottom
  remove_levels zero b r mut_hash = remove_bottom b mut_hash
  remove_levels (suc levels) b r mut_hash = do
    flow ← remove_level b (mut_hash % b.len) r
    and_descend flow (λ b'. remove_levels levels b' (r + shift_step) (mut_hash / 2 ^ shift_step))

module _ {T Q : Type 0} (hash_of : Q → ℕ) (rounds tid : ℕ) where
  unfoldable pub remove : Q → Prog (Table T) (Option T)
  unfolding remove_levels
  remove expected = remove_levels rounds tid (hash_of expected) levels head 0 (hash_of expected)
