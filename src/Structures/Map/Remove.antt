-- ===== src/Structures/Map/Remove.antt =====
-- `remove` of the hash map.
use rustcurrent.Prelude.{
  ℕ, zero, suc, ◌+◌, ◌/◌, ◌%◌, ◌^◌, not, ◌&&◌, Option, none, some, ltb, ◌==◌, if◌then◌else◌, Eq,
  option_beq, Result, ok, err,
}
use rustcurrent.Concurrent.{Prog, ret, crash, spin, ◌>>=◌, ◌>>◌, load, modify}
use rustcurrent.Structures.Tagged.{is_marked, unmark, is_marked_second, unmark_second}
use rustcurrent.Structures.Map.{
  Bucket, head, Table, set_node, max_failures, shift_step, Node, data_node, array_node, get_ptr,
  mark_slot, with_data_node, get_bucket, protect, retire, expand_map, try_remove, Flow, and_descend,
  give, descend,
}
use rustcurrent.Structures.Map.Insert.{levels}
use rustcurrent.Structures.Map.Lookup.{Recheck, gone, settled}

module _ {V : Type 0} (rounds tid : ℕ) where
  -- The loop that checks the hazard pointer. After too many failures the bucket is replaced and
  -- the loop goes on with it, at the old position.
  unfoldable pub recheck :
      (n : ℕ) → Bucket → (pos r node node_ptr fail_count : ℕ) → Prog (Table V) Recheck
  recheck zero b pos r node node_ptr fail_count = spin
  recheck (suc n) b pos r node node_ptr fail_count = do
    now ← get_ptr b pos
    if node == now then ret (settled b node_ptr) else do
      new_ptr ← get_ptr b pos
      if new_ptr == 0 then ret gone else do
        protect rounds tid (unmark (unmark_second new_ptr))
        if ltb max_failures (fail_count + 1)
            then (do
              mark_slot b pos
              forced ← expand_map rounds tid b pos r
              b' ← get_bucket forced
              recheck n b' pos r new_ptr node_ptr (fail_count + 1))
            else recheck n b pos r new_ptr new_ptr (fail_count + 1)

  -- `ptr::replace(node_ptr, Node::Data(DataNode::default()))`, and `retire`.
  abbrev pub replaced : ℕ → Option (Node V) → Prog (Table V) (Option V)
  replaced node_ptr none = crash
  replaced node_ptr (some (array_node _)) =
      modify (set_node node_ptr (some (data_node none 0))) >> crash
  replaced node_ptr (some (data_node value _)) = do
    modify (set_node node_ptr (some (data_node none 0)))
    retire rounds tid node_ptr
    ret value

  unfoldable pub take_out : ℕ → Prog (Table V) (Option V)
  take_out node_ptr = do n ← load (λ t. t.node node_ptr); replaced node_ptr n

module _ {V : Type 0} ⦃e : Eq V⦄ (rounds tid hash : ℕ) (expected : V) where
  abbrev pub go_down : ℕ → Prog (Table V) (Flow (Option V))
  go_down p = do b ← get_bucket p; ret (descend b)

  abbrev pub expand_down : Bucket → (pos r : ℕ) → Prog (Table V) (Flow (Option V))
  expand_down b pos r = do p ← expand_map rounds tid b pos r; go_down p

  abbrev pub tried :
      Bucket → (pos r node_ptr : ℕ) → Result (Unit {0}) ℕ → Prog (Table V) (Flow (Option V))
  tried b pos r node_ptr (ok _) = do value ← take_out rounds tid node_ptr; ret (give value)
  tried b pos r node_ptr (err current) =
      if is_marked_second current
      then go_down current
      else (if is_marked current && (unmark current == node_ptr)
          then expand_down b pos r
          else ret (give none))

  unfoldable pub remove_node : Bucket → (pos r node_ptr : ℕ) → Prog (Table V) (Flow (Option V))
  unfolding take_out
  remove_node b pos r node_ptr = with_data_node node_ptr λ value other.
      if other == hash
      then (if not (option_beq value (some expected))
          then ret (give none)
          else do result ← try_remove b pos node_ptr; tried b pos r node_ptr result)
      else ret (give none)

  abbrev after_recheck : ℕ → ℕ → Recheck → Prog (Table V) (Flow (Option V))
  after_recheck pos r gone = ret (give none)
  after_recheck pos r (settled b node_ptr) =
      if is_marked_second node_ptr
      then go_down node_ptr
      else (if is_marked node_ptr then expand_down b pos r else remove_node b pos r node_ptr)

  unfoldable pub remove_unmarked : Bucket → (pos r node : ℕ) → Prog (Table V) (Flow (Option V))
  unfolding remove_node recheck
  remove_unmarked b pos r node = do
    protect rounds tid (unmark node)
    now ← get_ptr b pos
    if not (node == now)
        then (do
          checked ← recheck rounds tid rounds b pos r node node 0
          after_recheck pos r checked)
        else remove_node b pos r node

  -- One level of the tree.
  unfoldable pub remove_level : Bucket → (pos r : ℕ) → Prog (Table V) (Flow (Option V))
  unfolding remove_unmarked
  remove_level b pos r = do
    node ← get_ptr b pos
    if node == 0
        then ret (give none)
        else (if is_marked_second node
            then go_down node
            else (if is_marked node then expand_down b pos r else remove_unmarked b pos r node))

  abbrev pub bottom_tried : ℕ → Result (Unit {0}) ℕ → Prog (Table V) (Option V)
  bottom_tried node_ptr (ok _) = take_out rounds tid node_ptr
  bottom_tried node_ptr (err _) = ret none

  -- The slot at the bottom of the tree.
  unfoldable pub remove_bottom : Bucket → (mut_hash : ℕ) → Prog (Table V) (Option V)
  unfolding take_out
  remove_bottom b mut_hash = do
    let pos = mut_hash % b.len
    node_ptr ← get_ptr b pos
    if node_ptr == 0
        then ret none
        else with_data_node node_ptr λ value _.
          if option_beq value (some expected)
          then (do result ← try_remove b pos node_ptr; bottom_tried node_ptr result)
          else ret none

  unfoldable pub remove_levels :
      (levels : ℕ) → Bucket → (r mut_hash : ℕ) → Prog (Table V) (Option V)
  unfolding remove_level remove_bottom
  remove_levels zero b r mut_hash = remove_bottom b mut_hash
  remove_levels (suc levels) b r mut_hash = do
    flow ← remove_level b (mut_hash % b.len) r
    and_descend flow (λ b'. remove_levels levels b' (r + shift_step) (mut_hash / 2 ^ shift_step))

unfoldable pub remove :
    {K V : Type 0} ⦃e : Eq V⦄ (hash_of : K → ℕ) (rounds tid : ℕ) (key : K) (expected : V)
    → Prog (Table V) (Option V)
unfolding remove_levels
remove hash_of rounds tid key expected =
    remove_levels rounds tid (hash_of key) expected levels head 0 (hash_of key)
