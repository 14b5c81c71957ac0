-- ===== src/Structures/Set/WaitFree.antt =====
-- The loops of `contains` (src/structures/hash/hash_set.rs) beside other threads.
mod Tests
use rustcurrent.Prelude.{ℕ, zero, suc, ◌+◌, ◌/◌, ◌%◌, ◌^◌, ◌≤◌, Bool, Option, some, ◌==◌}
use rustcurrent.Concurrent.{Prog, ret}
use rustcurrent.Concurrent.Guarantee.{Finishes, Finishes-bind, Finishes-if}
use rustcurrent.Structures.Map.{
  Bucket, head, Table, get_ptr, Flow, give, descend, shift_step, child_size,
}
use rustcurrent.Structures.Map.Insert.{levels}
use rustcurrent.Structures.Map.Lookup.{lookup_level}
use rustcurrent.Structures.Map.WaitFree.{lookup_level-Ends}
use rustcurrent.Structures.Map.WaitFree.Steps.{IsRegistered, get_ptr-Ends, on_data-Ends}
use rustcurrent.Structures.Set.{and_contains, contains_bottom, contains_levels, contains}

module _ (rounds tid : ℕ) (T : Type 0) (hash : ℕ) (enough : 11 ≤ rounds) where
  abbrev Keeps : Table T → Type 0
  Keeps t = IsRegistered tid t.manager

  contains_bottom-Ends :
      (b : Bucket) (mut_hash : ℕ) → Finishes Keeps (contains_bottom rounds tid hash b mut_hash)
  unfolding contains_bottom
  contains_bottom-Ends b mut_hash =
      Finishes-bind Keeps (get_ptr b (mut_hash % child_size)) _
        (get_ptr-Ends rounds tid T b (mut_hash % child_size))
        λ node.
          Finishes-if Keeps (node == 0) _ _ tt
            (λ t i. (i, on_data-Ends rounds tid T (t.node node) _ λ v other. tt))

  next-Ends :
      (flow : Flow (Option (Unit {0}))) (next : Bucket → Prog (Table T) Bool)
      → ((b : Bucket) → Finishes Keeps (next b))
      → Finishes Keeps (and_contains rounds tid hash flow next)
  next-Ends (give a) next h = tt
  next-Ends (descend b) next h = h b

  contains_levels-Ends :
      (left : ℕ) (b : Bucket) (r mut_hash : ℕ)
      → Finishes Keeps (contains_levels rounds tid hash left b r mut_hash)
  unfolding contains_levels
  contains_levels-Ends zero b r mut_hash = contains_bottom-Ends b mut_hash
  contains_levels-Ends (suc left) b r mut_hash =
      Finishes-bind Keeps
        (lookup_level rounds tid hash (λ _ _. ret (some tt)) b (mut_hash % b.len) r) _
        (lookup_level-Ends rounds tid T hash (λ _ _. ret (some tt)) (λ p v. tt) b (mut_hash % b.len)
          r enough)
        λ flow.
          next-Ends flow _
            λ b'. contains_levels-Ends left b' (r + shift_step) (mut_hash / 2 ^ shift_step)

-- `contains` is wait-free for a thread that has its hazard pointers. Other threads may do anything
-- to the set between its steps, as long as they leave it these: it returns, or follows a bad
-- pointer, and 11 rounds of its loops are enough.
pub contains-Finishes :
    (rounds tid : ℕ) (T : Type 0) {Q : Type 0} (hash_of : Q → ℕ) (key : Q)
    → 11 ≤ rounds
    → Finishes (λ t. IsRegistered tid t.manager) (contains {T = T} hash_of rounds tid key)
unfolding contains
contains-Finishes rounds tid T hash_of key enough =
    contains_levels-Ends rounds tid T (hash_of key) enough levels head 0 (hash_of key)
