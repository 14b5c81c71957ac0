-- ===== src/Structures/Map/Iter.antt =====
-- The iterator of the hash map and of the hash set, whose code is the same. An item is a data guard:
-- the value with the index of the handle that protects it. A handle that goes out of scope is dropped.
use rustcurrent.Prelude.{
  ℕ, zero, suc, ◌+◌, Option, none, some, List, [], ◌∷◌, ltb, ◌==◌, if◌then◌else◌,
}
use rustcurrent.Concurrent.{Prog, ret, crash, spin, ◌>>=◌, ◌>>◌}
use rustcurrent.Memory.Hazard
use rustcurrent.Structures.Tagged.{is_marked, unmark, is_marked_second, unmark_second}
use rustcurrent.Structures.Map.{
  Bucket, head, Table, get_ptr, with_data_node, get_bucket, of_manager,
}

-- The latest bucket of `node_stack` comes first.
pub record Iter : Type 0 where
  pub current_array : Bucket
  pub index : ℕ
  pub node_stack : List Bucket

abbrev pub new_iter : Iter
new_iter = record { current_array = head; index = 0; node_stack = [] }

abbrev pub push_bucket : Bucket → Iter → Iter
push_bucket b it = record it { node_stack = b ∷ it.node_stack }

-- How the loop that checks a handle ends: the slot was emptied, an array was found, or the handle
-- protects what the slot holds.
pub data Checked : Type 0 where
  vanished : (handle : ℕ) → Checked
  replaced : (handle : ℕ) → Bucket → Checked
  stable : (handle node_ptr : ℕ) → Checked

module _ {V : Type 0} (rounds tid : ℕ) where
  abbrev pub protect_dynamic : ℕ → Prog (Table V) ℕ
  protect_dynamic r = of_manager (Hazard.protect_dynamic rounds tid r)

  abbrev pub drop_handle : ℕ → Prog (Table V) (Unit {0})
  drop_handle handle = of_manager (Hazard.unprotect_dynamic rounds tid handle)

  -- `while Some(node_ptr) != self.current_array[index].get_ptr() { … }`, `n` rounds of it. The new
  -- handle protects the pointer that was read before.
  unfoldable pub check_handle :
      (n : ℕ) → Bucket → (index handle node_ptr : ℕ) → Prog (Table V) Checked
  check_handle zero b index handle node_ptr = spin
  check_handle (suc n) b index handle node_ptr = do
    now ← get_ptr b index
    if node_ptr == now then ret (stable handle node_ptr) else do
      new_ptr ← get_ptr b index
      if new_ptr == 0 then ret (vanished handle) else do
        hphandle ← protect_dynamic (unmark (unmark_second node_ptr))
        drop_handle handle
        if is_marked_second new_ptr
            then (do bucket ← get_bucket new_ptr; ret (replaced hphandle bucket))
            else check_handle n b index hphandle new_ptr

  module _ (rest : Iter → Prog (Table V) (Option (V × ℕ) × Iter)) (it : Iter) where
    -- The handle lives until the inner call of `next` has returned.
    abbrev pub after_check : Checked → Prog (Table V) (Option (V × ℕ) × Iter)
    after_check (vanished handle) = do result ← rest it; drop_handle handle; ret result
    after_check (replaced handle bucket) = do
      result ← rest (push_bucket bucket it)
      drop_handle handle
      ret result
    after_check (stable handle node_ptr) =
        with_data_node node_ptr
          λ value _. elim value [ none ↦ crash | some v ↦ ret (some (v, handle), it) ]

    -- A slot that holds a data node, which may be marked.
    unfoldable pub protect_and_read :
        Bucket → (index node_ptr protected : ℕ) → Prog (Table V) (Option (V × ℕ) × Iter)
    unfolding check_handle
    protect_and_read b index node_ptr protected = do
      handle ← protect_dynamic protected
      checked ← check_handle rounds b index handle node_ptr
      after_check checked

  -- `next`, with at most `n` calls of itself.
  unfoldable pub next : (n : ℕ) → Iter → Prog (Table V) (Option (V × ℕ) × Iter)
  unfolding protect_and_read
  next zero it = spin
  next (suc n) it =
      let b = it.current_array in
      let i = it.index in
      let later = record it { index = i + 1 } in
      if ltb i b.len
      then (do
        node_ptr ← get_ptr b i
        if node_ptr == 0
            then next n later
            else (if is_marked node_ptr
                then protect_and_read (next n) later b i node_ptr (unmark node_ptr)
                else (if is_marked_second node_ptr
                    then (do bucket ← get_bucket node_ptr; next n (push_bucket bucket later))
                    else protect_and_read (next n) later b i node_ptr node_ptr)))
      else elim it.node_stack [
        | [] ↦ ret (none, later)
        | array ∷ stack ↦ next n (record { current_array = array; index = 0; node_stack = stack })
      ]
