-- ===== src/Structures/Map/Alone/Lookup.antt =====
-- Lookups of the hash map and the hash set with no other thread at work.
use rustcurrent.Prelude.{
  ℕ, zero, suc, ◌+◌, ◌*◌, ◌%◌, ◌^◌, ◌<◌, ◌≡◌, refl, ap, sym, ◌∙◌, inl, inr, arith, Option, none,
  some, List, length, ◌==◌, ==_refl, if◌then◌else◌, Bool-cases,
}
use mathlib.Core.Path.{subst}
use rustcurrent.Concurrent.{ret}
use rustcurrent.Concurrent.Returns.{Returns, Returns-weaken}
use rustcurrent.Memory.Hazard.{Manager}
use rustcurrent.Memory.Hazard.Ready.{Ready}
use rustcurrent.Structures.Map.{Bucket, Table, on_data, data_node}
use rustcurrent.Structures.Map.Lookup.{
  lookup_level, lookup_unmarked, read_node, lookup_bottom, lookup_levels, get_clone,
}
use rustcurrent.Structures.Map.Tree.{shifted, child, contents, SlotOk, empty, array, leaf, IsTree}
use rustcurrent.Structures.Map.Tree.Path.{array_tags, leaf_tags, length-path}
use rustcurrent.Structures.Map.Tree.Walk.{Reached, start, step, Reached-trail, index-lt}
use rustcurrent.Structures.Map.Tree.Leaf.{only_hash}
use rustcurrent.Structures.Map.Tree.Slots.{contents-leaf, contents-empty}
use rustcurrent.Structures.Map.Alone.{
  with_manager, AtFlow, Unchanged, Holds, Holds-Unchanged, and_descend-Returns, get_ptr-Returns,
  with_data_node-Returns, get_bucket-Returns, protect-Returns,
}

module _ {V A : Type 0} (rounds tid : ℕ) (result : Option V → Option A) where
  -- What a lookup gives for a value that the table holds.
  abbrev pub answer : Option V → Option A
  answer none = none
  answer (some v) = result (some v)

  module _ (trail : ℕ → List ℕ) (place : ℕ → ℕ × ℕ) (t : Table V) (tree : IsTree trail place t)
      (h : ℕ) where
    abbrev pub Given : Option A → Table V → Type 0
    Given a s = Unchanged rounds tid t s × (a ≡ answer (contents t h))

    abbrev pub Down : ℕ → Bucket → Table V → Type 0
    Down n b s = Unchanged rounds tid t s × Reached t h (suc n) b

    module _ (m : Manager) (ready : Ready rounds tid m) {n : ℕ} {b : Bucket} (way : Reached t h n b)
        (left : ℕ) (level : n + left ≡ 15) where
      abbrev index : ℕ
      index = shifted n h % b.len

      read_node-Returns :
          (k : ℕ) (v : V) (h0 : ℕ) (m' : Manager)
          → Ready rounds tid m'
          → 0 < k
          → t.slot b.addr index ≡ 4 * k
          → t.node (4 * k) ≡ some (data_node (some v) h0)
          → Returns
              (AtFlow Given (Down n))
              (read_node rounds tid h (λ _ value. ret (result value)) (4 * k))
              (with_manager m' t)
      unfolding read_node
      read_node-Returns k v h0 m' ready' pos at nd =
          with_data_node-Returns (AtFlow Given (Down n)) (4 * k) (4 * k) (some v) h0 _
            (with_manager m' t) (leaf_tags k pos).3 nd
            (elim (Bool-cases (h0 == h)) [
              | inl e ↦
                  let held : contents t h ≡ some v = here ∙ rw e in
                  rw e ((m', ready', refl), sym (ap answer held))
              | inr e ↦
                  let held : contents t h ≡ none = here ∙ rw e in
                  rw e ((m', ready', refl), sym (ap answer held))
            ])
        where
          here : contents t h ≡ (if h0 == h then some v else none)
          here = contents-leaf trail place t tree h way left level h refl k at pos ∙ rw nd

      pub lookup_level-Returns :
          (r : ℕ)
          → SlotOk trail place t b.addr index (t.slot b.addr index)
          → Returns
              (AtFlow Given (Down n))
              (lookup_level rounds tid h (λ _ value. ret (result value)) b index r)
              (with_manager m t)
      unfolding lookup_level lookup_unmarked
      lookup_level-Returns r (empty e) =
          get_ptr-Returns (AtFlow Given (Down n)) b index _ (with_manager m t)
            (index-lt trail place t tree h way)
            (rw e (
              (m, ready, refl),
              sym (ap answer (contents-empty trail place t tree h way left level h refl e)),
            ))
      lookup_level-Returns r (array k e (pos, _) nd _ _ _) =
          let (nz, second, _, first, _) = array_tags k in
          get_ptr-Returns (AtFlow Given (Down n)) b index _ (with_manager m t)
            (index-lt trail place t tree h way)
            (rw (e, nz, first, second)
              (get_bucket-Returns (AtFlow Given (Down n)) k _ (with_manager m t) nd
                ((m, ready, refl), step k way e)))
      lookup_level-Returns r (leaf k v h0 e (pos, _) nd _ _ _) =
          let (nz, second, first, plain, _) = leaf_tags k pos in
          get_ptr-Returns (AtFlow Given (Down n)) b index _ (with_manager m t)
            (index-lt trail place t tree h way)
            (rw (e, nz, first, second, plain)
              (protect-Returns (AtFlow Given (Down n)) rounds tid (4 * k) _ (with_manager m t) ready
                λ m' ready'.
                  get_ptr-Returns (AtFlow Given (Down n)) b index _ (with_manager m' t)
                    (index-lt trail place t tree h way)
                    (rw (e, ==_refl (4 * k)) (read_node-Returns k v h0 m' ready' pos e nd))))

    module _ (small : h < 2 ^ 64) where
      lookup_bottom-Returns :
          (m : Manager)
          → Ready rounds tid m
          → {n a : ℕ} → (way : Reached t h n (child a)) → n + 0 ≡ 15
          → SlotOk trail place t a (shifted n h % 16) (t.slot a (shifted n h % 16))
          → Returns Given
              (lookup_bottom rounds tid h (λ _ value. ret (result value)) (child a) (shifted n h))
              (with_manager m t)
      unfolding lookup_bottom
      lookup_bottom-Returns m ready {n} {a} way level (empty e) =
          get_ptr-Returns Given (child a) (shifted n h % 16) _ (with_manager m t) (omega arith) (
            rw e (
              (m, ready, refl),
              sym (ap answer (contents-empty trail place t tree h way 0 level h refl e)),
            ))
      lookup_bottom-Returns m ready {n} way level (array k e _ _ _ short _) =
          let (tr, _, _) = Reached-trail trail place t tree h way in
          let deep = ap length tr ∙ length-path n h in absurd (omega arith)
      lookup_bottom-Returns m ready {n} {a} way level (leaf k v h0 e (pos, _) nd small0 p _) =
          let (nz, _, _, _, _) = leaf_tags k pos in
          let same : h0 ≡ h = only_hash trail place t tree h way 0 level h0 small small0 refl p in
          let held : contents t h ≡ some v =
            contents-leaf trail place t tree h way 0 level h refl k e pos
            ∙ rw (nd, same, ==_refl h) in
          get_ptr-Returns Given (child a) (shifted n h % 16) _ (with_manager m t) (omega arith) (
            rw (e, nz)
              (subst
                (λ x. Returns Given (on_data x (λ value _. ret (result value))) (with_manager m t))
                (sym nd) ((m, ready, refl), sym (ap answer held))))

      lookup_levels-Returns :
          (left : ℕ) (m : Manager)
          → Ready rounds tid m
          → {n : ℕ} {b : Bucket} (r : ℕ) → Reached t h n b
          → n + left ≡ 15
          → Returns Given
              (lookup_levels rounds tid h (λ _ value. ret (result value)) left b r (shifted n h))
              (with_manager m t)
      unfolding lookup_levels
      lookup_levels-Returns zero m ready r start level = absurd (omega arith)
      lookup_levels-Returns zero m ready r (step {n = n} k way e) level =
          lookup_bottom-Returns m ready (step k way e) level
            (tree.slots (4 * k) (shifted (suc n) h % 16))
      lookup_levels-Returns (suc left) m ready {n} {b} r way level =
          and_descend-Returns Given (Down n)
            (lookup_level rounds tid h (λ _ value. ret (result value)) b (shifted n h % b.len) r) _
            (with_manager m t)
            (lookup_level-Returns m ready way (suc left) level r
              (tree.slots b.addr (shifted n h % b.len)))
            (λ b' s ((m', ready', same), way').
              subst
                (λ s.
                  Returns Given
                    (lookup_levels rounds tid h (λ _ value. ret (result value)) left b' (r + 4)
                      (shifted (suc n) h))
                    s)
                (sym same) (lookup_levels-Returns left m' ready' (r + 4) way' (omega arith)))

answer_id : {V : Type 0} (rounds tid : ℕ) (o : Option V) → answer rounds tid (λ v. v) o ≡ o
answer_id rounds tid none = refl
answer_id rounds tid (some v) = refl

-- With no other thread at work, `get_clone` of the hash map returns what the table holds for the
-- hash of the key, and the table holds the same as before.
pub get_clone-Holds :
    {K V : Type 0} (hash_of : K → ℕ) (rounds tid : ℕ) (key : K) (held : ℕ → Option V) (t : Table V)
    → Holds rounds tid held t
    → hash_of key < 2 ^ 64
    → Returns
        (λ a s. (a ≡ held (hash_of key)) × Holds rounds tid held s)
        (get_clone hash_of rounds tid key)
        t
unfolding get_clone
get_clone-Holds hash_of rounds tid key held t before small =
    let (trail, place, tree) = before.form in
    subst
      (λ s.
        Returns (λ a s. (a ≡ held (hash_of key)) × Holds rounds tid held s)
          (get_clone hash_of rounds tid key) s)
      (sym before.same)
      (Returns-weaken (Given rounds tid (λ v. v) trail place before.table tree (hash_of key)) _
        (get_clone hash_of rounds tid key) (with_manager before.manager before.table)
        (λ a s (same, e). (
          e
              ∙ answer_id rounds tid (contents before.table (hash_of key))
              ∙ before.agree (hash_of key),
          Holds-Unchanged rounds tid held before.table s before.form before.agree same,
        ))
        (lookup_levels-Returns rounds tid (λ v. v) trail place before.table tree (hash_of key) small
          15 before.manager before.ready 0 start refl))
