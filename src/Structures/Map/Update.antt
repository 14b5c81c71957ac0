-- ===== src/Structures/Map/Update.antt =====
-- `update` of the hash map.
use rustcurrent.Prelude.{
  ℕ, zero, suc, ◌+◌, ◌/◌, ◌%◌, ◌^◌, not, ◌&&◌, some, ltb, ◌==◌, if◌then◌else◌, Eq, option_beq,
  Result, ok, err,
}
use rustcurrent.Concurrent.{Prog, ret, spin, ◌>>=◌, ◌>>◌}
use rustcurrent.Structures.Tagged.{is_marked, unmark, is_marked_second, unmark_second}
use rustcurrent.Structures.Map.{
  Bucket, head, Table, max_failures, shift_step, child_size, get_ptr, mark_slot, with_data_node,
  get_bucket, protect, retire, expand_map, try_update, Flow, and_descend, give, descend,
}
use rustcurrent.Structures.Map.Insert.{levels}
use rustcurrent.Structures.Map.Lookup.{Recheck, gone, settled}

module _ {V : Type 0} ⦃e : Eq V⦄ (rounds tid hash : ℕ) (expected new : V) where
  -- The loop that checks the hazard pointer. After too many failures the bucket is replaced and
  -- the pointer stays the last one read.
  unfoldable pub recheck :
      (n : ℕ) → Bucket → (pos r node node_ptr fail_count : ℕ) → Prog (Table V) Recheck
  recheck zero b pos r node node_ptr fail_count = spin
  recheck (suc n) b pos r node node_ptr fail_count = do
    now ← get_ptr b pos
    if node == now then ret (settled b node_ptr) else do
      new_ptr ← get_ptr b pos
      if new_ptr == 0 then ret gone else do
        protect rounds tid (unmark (unmark_second new_ptr))
        if ltb max_failures (fail_count + 1)
            then (do
              mark_slot b pos
              forced ← expand_map rounds tid b pos r
              b' ← get_bucket forced
              ret (settled b' node_ptr))
            else recheck n b pos r new_ptr new_ptr (fail_count + 1)

  abbrev pub go_down : ℕ → Prog (Table V) (Flow (Result (Unit {0}) V))
  go_down p = do b ← get_bucket p; ret (descend b)

  abbrev pub tried :
      Bucket
      → (pos r node_ptr : ℕ) → Result (Unit {0}) (V × ℕ)
      → Prog (Table V) (Flow (Result (Unit {0}) V))
  tried b pos r node_ptr (ok _) = do retire rounds tid node_ptr; ret (give (ok tt))
  tried b pos r node_ptr (err (value, current)) =
      if is_marked_second current
      then go_down current
      else (if is_marked current && (node_ptr == unmark current)
          then (do p ← expand_map rounds tid b pos r; go_down p)
          else ret (give (err value)))

  unfoldable pub update_node :
      Bucket → (pos r node_ptr : ℕ) → Prog (Table V) (Flow (Result (Unit {0}) V))
  update_node b pos r node_ptr = with_data_node node_ptr λ value other.
      if other == hash
      then (if not (option_beq value (some expected))
          then ret (give (err new))
          else do result ← try_update b pos node_ptr hash new; tried b pos r node_ptr result)
      else ret (give (err new))

  abbrev pub after_recheck : ℕ → ℕ → Recheck → Prog (Table V) (Flow (Result (Unit {0}) V))
  after_recheck pos r gone = ret (give (err new))
  after_recheck pos r (settled b node_ptr) =
      if is_marked_second node_ptr
      then go_down node_ptr
      else (if is_marked node_ptr
          then (do p ← expand_map rounds tid b pos r; go_down p)
          else update_node b pos r node_ptr)

  unfoldable pub update_unmarked :
      Bucket → (pos r node node_ptr : ℕ) → Prog (Table V) (Flow (Result (Unit {0}) V))
  unfolding update_node recheck
  update_unmarked b pos r node node_ptr =
      if is_marked_second node_ptr then go_down node_ptr else (do
        protect rounds tid (unmark node_ptr)
        now ← get_ptr b pos
        if not (node == now)
            then (do checked ← recheck rounds b pos r node node_ptr 0; after_recheck pos r checked)
            else update_node b pos r node_ptr)

  -- One level of the tree.
  unfoldable pub update_level : Bucket → (pos r : ℕ) → Prog (Table V) (Flow (Result (Unit {0}) V))
  unfolding update_unmarked
  update_level b pos r = do
    node ← get_ptr b pos
    if node == 0
        then ret (give (err new))
        else (if is_marked node
            then (do
              new_bucket_ptr ← expand_map rounds tid b pos r
              update_unmarked b pos r node new_bucket_ptr)
            else update_unmarked b pos r node node)

  abbrev pub bottom_tried : ℕ → Result (Unit {0}) (V × ℕ) → Prog (Table V) (Result (Unit {0}) V)
  bottom_tried node_ptr (ok _) = do retire rounds tid node_ptr; ret (ok tt)
  bottom_tried node_ptr (err (value, _)) = ret (err value)

  -- The slot at the bottom of the tree.
  unfoldable pub update_bottom : Bucket → (mut_hash : ℕ) → Prog (Table V) (Result (Unit {0}) V)
  update_bottom b mut_hash = do
    let pos = mut_hash % child_size
    node_ptr ← get_ptr b pos
    if node_ptr == 0
        then ret (err new)
        else with_data_node node_ptr λ value _.
          if option_beq value (some expected)
          then (do result ← try_update b pos node_ptr hash new; bottom_tried node_ptr result)
          else ret (err new)

  unfoldable pub update_levels :
      (levels : ℕ) → Bucket → (r mut_hash : ℕ) → Prog (Table V) (Result (Unit {0}) V)
  unfolding update_level update_bottom
  update_levels zero b r mut_hash = update_bottom b mut_hash
  update_levels (suc levels) b r mut_hash = do
    flow ← update_level b (mut_hash % b.len) r
    and_descend flow (λ b'. update_levels levels b' (r + shift_step) (mut_hash / 2 ^ shift_step))

unfoldable pub update :
    {K V : Type 0} ⦃e : Eq V⦄ (hash_of : K → ℕ) (rounds tid : ℕ) (key : K) (expected new : V)
    → Prog (Table V) (Result (Unit {0}) V)
unfolding update_levels
update hash_of rounds tid key expected new =
    update_levels rounds tid (hash_of key) expected new levels head 0 (hash_of key)
