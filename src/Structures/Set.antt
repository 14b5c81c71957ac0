-- ===== src/Structures/Set.antt =====
-- The wait-free hash set (src/structures/hash/hash_set.rs). It has the tree of the hash map, with the
-- element as the value of a node. Where its code repeats that of the map line by line (`expand`,
-- `try_insert`, the loops of `insert`, the levels of `contains`, and the check of the hazard pointer
-- in `remove`), the definitions are those of the map.
pub mod Remove
pub mod Alone
pub mod WaitFree
pub mod Iter
use rustcurrent.Prelude.{
  ℕ, zero, suc, ◌+◌, ◌/◌, ◌%◌, ◌^◌, Bool, false, Option, some, is_some, ◌==◌, if◌then◌else◌, Result,
}
use rustcurrent.Concurrent.{Prog, ret, ◌>>=◌, load}
use rustcurrent.Structures.Map
use rustcurrent.Structures.Map.{
  Bucket, head, Table, new_table, shift_step, child_size, on_data, get_ptr, expand_map, Flow, give,
  descend,
}
use rustcurrent.Structures.Map.Insert.{levels, insert_levels}
use rustcurrent.Structures.Map.Lookup.{lookup_level}

-- `HashSet::new`
abbrev pub new_set : {T : Type 0} → Table T
new_set = new_table

module _ {T : Type 0} where
  abbrev pub expand : (rounds tid : ℕ) → Bucket → (pos shift_amount : ℕ) → Prog (Table T) ℕ
  expand = expand_map

  abbrev pub try_insert : Bucket → ℕ → (old hash : ℕ) → T → Prog (Table T) (Result (Unit {0}) T)
  try_insert = Map.try_insert

module _ {T : Type 0} (hash_of : T → ℕ) (rounds tid : ℕ) where
  unfoldable pub insert : T → Prog (Table T) (Result (Unit {0}) T)
  unfolding insert_levels
  insert value = insert_levels rounds tid (hash_of value) value levels head 0 (hash_of value)

module _ {T : Type 0} (rounds tid hash : ℕ) where
  -- The slot at the bottom of the tree, where the hash is compared once more.
  unfoldable pub contains_bottom : Bucket → (mut_hash : ℕ) → Prog (Table T) Bool
  contains_bottom b mut_hash = do
    node ← get_ptr b (mut_hash % child_size)
    if node == 0
        then ret false
        else do n ← load (λ t. t.node node); on_data n (λ _ other. ret (other == hash))

  abbrev pub and_contains :
      Flow (Option (Unit {0})) → (Bucket → Prog (Table T) Bool) → Prog (Table T) Bool
  and_contains (give found) next = ret (is_some found)
  and_contains (descend b) next = next b

  unfoldable pub contains_levels : (levels : ℕ) → Bucket → (r mut_hash : ℕ) → Prog (Table T) Bool
  unfolding lookup_level contains_bottom
  contains_levels zero b r mut_hash = contains_bottom b mut_hash
  contains_levels (suc levels) b r mut_hash = do
    flow ← lookup_level rounds tid hash (λ _ _. ret (some tt)) b (mut_hash % b.len) r
    and_contains flow (λ b'. contains_levels levels b' (r + shift_step) (mut_hash / 2 ^ shift_step))

module _ {T Q : Type 0} (hash_of : Q → ℕ) (rounds tid : ℕ) where
  unfoldable pub contains : Q → Prog (Table T) Bool
  unfolding contains_levels
  contains key = contains_levels rounds tid (hash_of key) levels head 0 (hash_of key)
