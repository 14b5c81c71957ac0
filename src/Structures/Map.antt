-- ===== src/Structures/Map.antt =====
-- The wait-free hash map (src/structures/hash/hash_map.rs), one access to shared memory a step. The
-- slots of the head array are those of bucket 0; the slots of an array node are those of its
-- address. An address is a multiple of 4, and 0 is null. `node` gives what an address holds; a
-- retired node stays there, since `scan` of the manager frees it. Keys are given by their hash.
pub mod Insert
pub mod Lookup
pub mod Update
pub mod Remove
pub mod WaitFree
pub mod Tree
pub mod Alone
pub mod Iter
pub mod Visits
mod Tests
use rustcurrent.Prelude.{
  ℕ, zero, suc, ◌+◌, ◌-◌, ◌*◌, ◌/◌, ◌%◌, ◌^◌, Bool, true, false, not, ◌&&◌, ◌||◌, Option, none,
  some, update, ltb, ◌==◌, if◌then◌else◌, Result, ok, err,
}
use rustcurrent.Concurrent.{
  Prog, ret, act, crash, spin, ◌>>=◌, ◌>>◌, load, modify, compare_exchange, zoom,
}
use rustcurrent.Memory.Hazard
use rustcurrent.Memory.Hazard.{Manager, new_manager}
use rustcurrent.Structures.Tagged.{
  is_marked, unmark, mark, is_marked_second, unmark_second, mark_second,
}

abbrev pub head_size : ℕ
head_size = 256

abbrev pub child_size : ℕ
child_size = 16

abbrev pub max_failures : ℕ
max_failures = 10

-- `f64::floor((CHILD_SIZE as f64).log2()) as usize`
abbrev pub shift_step : ℕ
shift_step = 4

pub data Node (V : Type 0) : Type 0 where
  data_node : Option V → (hash : ℕ) → Node V
  array_node : (size : ℕ) → Node V

-- A reference to an array of slots.
pub record Bucket : Type 0 where
  pub addr : ℕ
  pub len : ℕ

abbrev pub head : Bucket
head = record { addr = 0; len = head_size }

pub record Table (V : Type 0) : Type 0 where
  pub slot : ℕ → ℕ → ℕ
  pub node : ℕ → Option (Node V)
  pub last : ℕ
  pub manager : Manager

abbrev pub new_table : {V : Type 0} → Table V
new_table = record { slot = λ _ _. 0; node = λ _. none; last = 0; manager = new_manager 100 1 }

module _ {V : Type 0} where
  abbrev pub set_slot : ℕ → ℕ → ℕ → Table V → Table V
  set_slot b pos p t = record t { slot = update t.slot b (update (t.slot b) pos p) }

  abbrev pub set_node : ℕ → Option (Node V) → Table V → Table V
  set_node a n t = record t { node = update t.node a n }

  -- `bucket[pos]` panics when `pos` is out of bounds.
  abbrev pub at : {A : Type 0} → Bucket → ℕ → Prog (Table V) A → Prog (Table V) A
  at b pos p = if ltb pos b.len then p else crash

  -- `AtomicMarkablePtr::get_ptr`; null is 0.
  unfoldable pub get_ptr : Bucket → ℕ → Prog (Table V) ℕ
  get_ptr b pos = at b pos (load (λ t. t.slot b.addr pos))

  unfoldable pub slot_compare_exchange :
      Bucket → ℕ → (current new : ℕ) → Prog (Table V) (Result ℕ ℕ)
  slot_compare_exchange b pos current new =
      at b pos (compare_exchange (λ t. t.slot b.addr pos) (set_slot b.addr pos) current new)

  unfoldable pub compare_and_mark : Bucket → ℕ → ℕ → Prog (Table V) (Result ℕ ℕ)
  compare_and_mark b pos old = slot_compare_exchange b pos old (mark old)

  -- `fetch_or(0x1)` on a slot.
  abbrev pub or_mark : ℕ → ℕ → Table V → Table V
  or_mark b pos t = set_slot b pos (mark (t.slot b pos)) t

  -- `AtomicMarkablePtr::mark`: the test and the write are two accesses.
  unfoldable pub mark_slot : Bucket → ℕ → Prog (Table V) (Unit {0})
  mark_slot b pos = at b pos (do
    p ← load (λ t. t.slot b.addr pos)
    if not (is_marked_second p) then modify (or_mark b.addr pos) else ret tt)

  -- A write to a slot of an array that no other thread can see yet.
  unfoldable pub store : Bucket → ℕ → ℕ → Prog (Table V) (Unit {0})
  store b pos p = at b pos (modify (set_slot b.addr pos p))

  -- `Box::into_raw(Box::new(Node::Data(DataNode::new(value, hash))))`
  unfoldable pub box_data : V → ℕ → Prog (Table V) ℕ
  box_data value hash =
      act
        (λ t. record t {
          node = update t.node (4 * (t.last + 1)) (some (data_node (some value) hash));
          last = t.last + 1;
        })
        (λ t. ret (4 * (t.last + 1)))

  -- The same for an array node, with one slot stored before it is boxed.
  unfoldable pub box_array : (pos p : ℕ) → Prog (Table V) ℕ
  box_array pos p =
      act
        (λ t. record t {
          node = update t.node (4 * (t.last + 1)) (some (array_node child_size));
          slot = update t.slot (4 * (t.last + 1)) (update (λ _. 0) pos p);
          last = t.last + 1;
        })
        (λ t. ret (4 * (t.last + 1)))

  -- `Box::from_raw`
  unfoldable pub drop_node : ℕ → Prog (Table V) (Unit {0})
  drop_node a = modify (set_node a none)

  abbrev pub on_data :
      {A : Type 0} → Option (Node V) → (Option V → ℕ → Prog (Table V) A) → Prog (Table V) A
  on_data (some (data_node value hash)) g = g value hash
  on_data _ g = crash

  -- `get_data_node`, and what is done with the value and the hash of the node.
  unfoldable pub with_data_node :
      {A : Type 0} → ℕ → (Option V → ℕ → Prog (Table V) A) → Prog (Table V) A
  with_data_node p g = do n ← load (λ t. t.node (unmark p)); on_data n g

  abbrev pub bucket_at : ℕ → Option (Node V) → Prog (Table V) Bucket
  bucket_at a (some (array_node size)) = ret (record { addr = a; len = size })
  bucket_at a _ = crash

  unfoldable pub get_bucket : ℕ → Prog (Table V) Bucket
  get_bucket p = do n ← load (λ t. t.node (unmark_second p)); bucket_at (unmark_second p) n

  -- Calls of the manager, always with hazard pointer 0 of the thread.
  abbrev pub of_manager : {A : Type 0} → Prog Manager A → Prog (Table V) A
  of_manager p = zoom (λ t. t.manager) (λ m t. record t { manager = m }) p

  unfoldable pub protect : (rounds tid : ℕ) → ℕ → Prog (Table V) (Unit {0})
  protect rounds tid r = of_manager (Hazard.protect rounds tid r 0)

  unfoldable pub retire : (rounds tid : ℕ) → ℕ → Prog (Table V) (Unit {0})
  retire rounds tid r = of_manager (Hazard.retire rounds tid r 0)

  -- The end of `expand_map`: publish the new array, or take it down.
  abbrev pub expanded : Bucket → (pos new_pos array : ℕ) → Result ℕ ℕ → Prog (Table V) ℕ
  expanded b pos new_pos array (ok _) = ret (mark_second array)
  expanded b pos new_pos array (err current) = do
    vec ← get_bucket array
    store vec new_pos 0
    drop_node array
    ret current

  unfoldable pub expand_map : (rounds tid : ℕ) → Bucket → (pos shift_amount : ℕ) → Prog (Table V) ℕ
  unfolding get_ptr protect box_array slot_compare_exchange get_bucket store drop_node
      with_data_node
  expand_map rounds tid b pos shift_amount = do
    node ← get_ptr b pos
    if node == 0 then crash else do
      protect rounds tid (unmark node)
      if is_marked_second node then ret node else do
        node2 ← get_ptr b pos
        if node2 == 0
            then crash
            else (if not (node == node2)
                then ret node2
                else with_data_node node λ _ hash. do
                  let new_pos = hash / 2 ^ (shift_amount + shift_step) % child_size
                  array ← box_array new_pos (unmark node)
                  swapped ← slot_compare_exchange b pos node (mark_second array)
                  expanded b pos new_pos array swapped)

  -- `try_insert` and `try_update` take the value out of the new node when they fail.
  abbrev took_back : {E : Type 0} → ℕ → E → Result ℕ ℕ → Prog (Table V) (Result (Unit {0}) E)
  took_back a e (ok _) = ret (ok tt)
  took_back a e (err _) = do drop_node a; ret (err e)

  unfoldable pub try_insert : Bucket → ℕ → (old hash : ℕ) → V → Prog (Table V) (Result (Unit {0}) V)
  unfolding box_data slot_compare_exchange drop_node
  try_insert b pos old hash value = do
    a ← box_data value hash
    swapped ← slot_compare_exchange b pos old a
    took_back a value swapped

  abbrev pub updated : ℕ → V → Result ℕ ℕ → Prog (Table V) (Result (Unit {0}) (V × ℕ))
  updated a value (ok _) = ret (ok tt)
  updated a value (err current) = do drop_node a; ret (err (value, current))

  unfoldable pub try_update :
      Bucket → ℕ → (old hash : ℕ) → V → Prog (Table V) (Result (Unit {0}) (V × ℕ))
  unfolding box_data slot_compare_exchange drop_node
  try_update b pos old hash value = do
    a ← box_data value hash
    swapped ← slot_compare_exchange b pos old a
    updated a value swapped

  abbrev pub removed : Result ℕ ℕ → Prog (Table V) (Result (Unit {0}) ℕ)
  removed (ok _) = ret (ok tt)
  removed (err current) = ret (err current)

  unfoldable pub try_remove : Bucket → ℕ → (old : ℕ) → Prog (Table V) (Result (Unit {0}) ℕ)
  unfolding slot_compare_exchange
  try_remove b pos old = do swapped ← slot_compare_exchange b pos old 0; removed swapped

-- A level of the tree is left with the result of the method, or with the bucket of the next level.
pub data Flow (A : Type 0) : Type 0 where
  give : A → Flow A
  descend : Bucket → Flow A

abbrev pub and_descend : {V A : Type 0} → Flow A → (Bucket → Prog (Table V) A) → Prog (Table V) A
and_descend (give a) next = ret a
and_descend (descend b) next = next b
