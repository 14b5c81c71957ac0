-- ===== src/Structures/Map/WaitFree.antt =====
-- The loops of `get_clone` (src/structures/hash/hash_map.rs) beside other threads.
pub mod Steps
mod Tests
use rustcurrent.Prelude.{ℕ, zero, suc, ◌+◌, ◌/◌, ◌%◌, ◌^◌, ◌≤◌, arith, not, Option, ltb, ◌==◌}
use rustcurrent.Concurrent.{Prog, ret}
use rustcurrent.Concurrent.Guarantee.{Finishes, Finishes-bind, Finishes-if, Finishes-split}
use rustcurrent.Structures.Tagged.{is_marked, is_marked_second, unmark, unmark_second}
use rustcurrent.Structures.Map.{
  Bucket, head, Table, get_ptr, mark_slot, get_bucket, protect, expand_map, Flow, give, descend,
  and_descend, shift_step, child_size, max_failures,
}
use rustcurrent.Structures.Map.Insert.{levels}
use rustcurrent.Structures.Map.Lookup.{
  Recheck, gone, settled, recheck, go_down, read_node, after_recheck, lookup_unmarked, lookup_level,
  lookup_bottom, lookup_levels, get_clone,
}
use Steps.{
  IsRegistered, protect-Ends, get_ptr-Ends, mark_slot-Ends, on_data-Ends, with_data_node-Ends,
  get_bucket-Ends, expand_map-Ends,
}
use Steps

module _ (rounds tid : ℕ) (V : Type 0) where
  abbrev Keeps : Table V → Type 0
  Keeps = Steps.Keeps rounds tid V

  abbrev Ends : {A : Type 0} → Prog (Table V) A → Type 0
  Ends p = Finishes Keeps p

  next-Ends :
      {A : Type 0} (flow : Flow (Option A)) (next : Bucket → Prog (Table V) (Option A))
      → ((b : Bucket) → Ends (next b))
      → Ends (and_descend flow next)
  next-Ends (give a) next h = tt
  next-Ends (descend b) next h = h b

  -- The count of failures and the rounds left together exceed the limit.
  recheck-Ends :
      (n : ℕ) (b : Bucket) (pos r node node_ptr fail_count : ℕ)
      → 11 ≤ n + fail_count
      → fail_count ≤ 10
      → Ends (recheck rounds tid n b pos r node node_ptr fail_count)
  unfolding recheck
  recheck-Ends zero b pos r node node_ptr fail_count h k = absurd (omega arith)
  recheck-Ends (suc n) b pos r node node_ptr fail_count h k =
      Finishes-bind Keeps (get_ptr b pos) _ (get_ptr-Ends rounds tid V b pos) λ now.
        Finishes-if Keeps (node == now) _ _ tt (
          Finishes-bind Keeps (get_ptr b pos) _ (get_ptr-Ends rounds tid V b pos) λ new_ptr.
            Finishes-if Keeps (new_ptr == 0) _ _ tt (
              Finishes-bind Keeps (protect rounds tid (unmark (unmark_second new_ptr))) _
                (protect-Ends rounds tid V (unmark (unmark_second new_ptr)))
                λ _.
                  Finishes-split Keeps (ltb max_failures (fail_count + 1)) _ _
                    (λ over.
                      Finishes-bind Keeps (mark_slot b pos) _ (mark_slot-Ends rounds tid V b pos)
                        λ _.
                          Finishes-bind Keeps (expand_map rounds tid b pos r) _
                            (expand_map-Ends rounds tid V b pos r)
                            λ forced.
                              Finishes-bind Keeps (get_bucket forced) _
                                (get_bucket-Ends rounds tid V forced) λ b'. tt)
                    (λ under.
                      recheck-Ends n b pos r new_ptr new_ptr (fail_count + 1) (omega arith)
                        (ground arith))))

  module _ {A : Type 0} (hash : ℕ) (found : (p : ℕ) → Option V → Prog (Table V) (Option A))
      (found-Ends : (p : ℕ) (v : Option V) → Ends (found p v)) where
    go_down-Ends : (p : ℕ) → Ends (go_down rounds tid hash found p)
    go_down-Ends p = Finishes-bind Keeps (get_bucket p) _ (get_bucket-Ends rounds tid V p) λ b. tt

    read_node-Ends : (p : ℕ) → Ends (read_node rounds tid hash found p)
    unfolding read_node
    read_node-Ends p = with_data_node-Ends rounds tid V p _ λ v other.
        Finishes-if Keeps (other == hash) _ _
          (Finishes-bind Keeps (found p v) _ (found-Ends p v) λ _. tt) tt

    after_recheck-Ends :
        (pos r : ℕ) (c : Recheck) → Ends (after_recheck rounds tid hash found pos r c)
    after_recheck-Ends pos r gone = tt
    after_recheck-Ends pos r (settled b p) =
        Finishes-if Keeps (is_marked p) _ _
          (Finishes-bind Keeps (expand_map rounds tid b pos r) _
            (expand_map-Ends rounds tid V b pos r) go_down-Ends)
          (Finishes-if Keeps (is_marked_second p) _ _ (go_down-Ends p) (read_node-Ends p))

    lookup_unmarked-Ends :
        (b : Bucket) (pos r node p : ℕ)
        → 11 ≤ rounds
        → Ends (lookup_unmarked rounds tid hash found b pos r node p)
    unfolding lookup_unmarked
    lookup_unmarked-Ends b pos r node p enough =
        Finishes-if Keeps (is_marked_second p) _ _ (go_down-Ends p) (
          Finishes-bind Keeps (protect rounds tid (unmark p)) _
            (protect-Ends rounds tid V (unmark p))
            λ _. Finishes-bind Keeps (get_ptr b pos) _ (get_ptr-Ends rounds tid V b pos) λ now.
              Finishes-if Keeps (not (node == now)) _ _
                (Finishes-bind Keeps (recheck rounds tid rounds b pos r node p 0) _
                  (recheck-Ends rounds b pos r node p 0 (omega arith) (omega arith))
                  (after_recheck-Ends pos r))
                (read_node-Ends p))

    pub lookup_level-Ends :
        (b : Bucket) (pos r : ℕ) → 11 ≤ rounds → Ends (lookup_level rounds tid hash found b pos r)
    unfolding lookup_level
    lookup_level-Ends b pos r enough =
        Finishes-bind Keeps (get_ptr b pos) _ (get_ptr-Ends rounds tid V b pos) λ node.
          Finishes-if Keeps (node == 0) _ _ tt (
            Finishes-if Keeps (is_marked node) _ _
              (Finishes-bind Keeps (expand_map rounds tid b pos r) _
                (expand_map-Ends rounds tid V b pos r)
                λ p. lookup_unmarked-Ends b pos r node p enough)
              (lookup_unmarked-Ends b pos r node node enough))

    lookup_bottom-Ends :
        (b : Bucket) (mut_hash : ℕ) → Ends (lookup_bottom rounds tid hash found b mut_hash)
    unfolding lookup_bottom
    lookup_bottom-Ends b mut_hash =
        Finishes-bind Keeps (get_ptr b (mut_hash % child_size)) _
          (get_ptr-Ends rounds tid V b (mut_hash % child_size))
          λ node.
            Finishes-if Keeps (node == 0) _ _ tt
              (λ t i. (i, on_data-Ends rounds tid V (t.node node) _ λ v _. found-Ends node v))

    lookup_levels-Ends :
        (left : ℕ) (b : Bucket) (r mut_hash : ℕ)
        → 11 ≤ rounds
        → Ends (lookup_levels rounds tid hash found left b r mut_hash)
    unfolding lookup_levels
    lookup_levels-Ends zero b r mut_hash enough = lookup_bottom-Ends b mut_hash
    lookup_levels-Ends (suc left) b r mut_hash enough =
        Finishes-bind Keeps (lookup_level rounds tid hash found b (mut_hash % b.len) r) _
          (lookup_level-Ends b (mut_hash % b.len) r enough)
          (λ flow.
            next-Ends flow _
              λ b'. lookup_levels-Ends left b' (r + shift_step) (mut_hash / 2 ^ shift_step) enough)

-- `get_clone` is wait-free for a thread that has its hazard pointers. Other threads may do
-- anything to the table between its steps, as long as they leave it these: it returns, or follows
-- a bad pointer, and 11 rounds of its loops are enough.
pub get_clone-Finishes :
    (rounds tid : ℕ) (V : Type 0) {K : Type 0} (hash_of : K → ℕ) (key : K)
    → 11 ≤ rounds
    → Finishes (λ t. IsRegistered tid t.manager) (get_clone {V = V} hash_of rounds tid key)
unfolding get_clone
get_clone-Finishes rounds tid V hash_of key enough =
    lookup_levels-Ends rounds tid V (hash_of key) (λ _ value. ret value) (λ p v. tt) levels head 0
      (hash_of key) enough
