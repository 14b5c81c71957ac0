-- ===== src/Structures/Map/Visits.antt =====
-- What an iterator of the hash map and the hash set has still to visit, with no other thread at work.
pub mod Ahead
pub mod Found
pub mod Slot
pub mod Step
pub mod Next
use rustcurrent.Prelude.{
  ℕ, zero, suc, ◌+◌, ◌*◌, ◌-◌, ◌%◌, ◌^◌, ◌<◌, ◌≤◌, ◌≡◌, refl, ap, sym, ◌∙◌, inl, inr, arith, Bool,
  true, false, Option, none, some, List, [], ◌∷◌, length, ltb, ◌==◌, ==_refl, ==_iff, if◌then◌else◌,
  Bool-cases,
}
use mathlib.Core.Path.{subst}
use native.Mathlib.Nat.{suc-mul}
use rustcurrent.Concurrent.{Prog, ret, ◌>>=◌}
use rustcurrent.Concurrent.Returns.{Returns, Returns-weaken, Returns-bind, Returns-zoom}
use rustcurrent.Memory.Hazard
use rustcurrent.Memory.Hazard.{Manager}
use rustcurrent.Memory.Hazard.Ready.{Known, protect_dynamic-Known}
use rustcurrent.Structures.Map.{Bucket, head, Table, data_node, array_node, of_manager, get_bucket}
use rustcurrent.Structures.Map.Iter.{
  Iter, new_iter, push_bucket, Checked, vanished, replaced, stable, protect_dynamic, check_handle,
  after_check, protect_and_read, next,
}
use rustcurrent.Structures.Map.Tree.{
  shifted, size, path, child, contents, SlotOk, empty, array, leaf, IsTree,
}
use rustcurrent.Structures.Map.Tree.Path.{array_tags, leaf_tags, length-path, cons-eq}
use rustcurrent.Structures.Map.Tree.Walk.{Reached, start, step, Reached-trail, Reached-level}
use rustcurrent.Structures.Map.Tree.Slots.{contents-leaf}
use rustcurrent.Structures.Map.Alone.{
  with_manager, Holds, get_ptr-Returns, with_data_node-Returns, get_bucket-Returns,
}

-- The calls of `next` that a slot can cost, with this many levels below it.
abbrev pub slot_cost : (left : ℕ) → ℕ
slot_cost zero = 1
slot_cost (suc left) = 2 + 256 * slot_cost left

pub slot_cost_pos : (left : ℕ) → 0 < slot_cost left
slot_cost_pos zero = omega arith
slot_cost_pos (suc left) = omega arith

module _ {V : Type 0} (trail : ℕ → List ℕ) (place : ℕ → ℕ × ℕ) (t : Table V)
    (tree : IsTree trail place t) where
  -- A bucket of the tree: every hash with its indices comes to it.
  abbrev pub Visited : (n : ℕ) → Bucket → Type 0
  Visited n b =
      (length (trail b.addr) ≡ n)
      × (b.len ≡ size n)
      × ((h : ℕ) → path n h ≡ trail b.addr → Reached t h n b)

  -- The stack of the iterator, and what it can cost.
  pub data Stack : List Bucket → ℕ → Type 0 where
    bottom : Stack [] 0
    push :
        {b : Bucket} {bs : List Bucket} {w : ℕ} (n left : ℕ)
        → Visited n b
        → n + left ≡ 15
        → Stack bs w
        → Stack (b ∷ bs) (1 + 256 * slot_cost left + w)

  -- An iterator over the table, and what the rest of it can cost.
  pub record Visits (it : Iter) (cost : ℕ) : Type 0 where
    pub n : ℕ
    pub left : ℕ
    pub here : Visited n it.current_array
    pub level : n + left ≡ 15
    pub count : ℕ
    pub slots_left : it.current_array.len ≤ count + it.index
    pub below : ℕ
    pub stack : Stack it.node_stack below
    pub bound : count * slot_cost left + below ≤ cost

  head-Visited : Visited 0 head
  head-Visited = (ap length tree.root, refl, λ h e. start)

  pub new_iter-Visits : Visits new_iter (256 * slot_cost 15)
  new_iter-Visits = record {
    n = 0;
    left = 15;
    here = head-Visited;
    level = refl;
    count = 256;
    slots_left = omega arith;
    below = 0;
    stack = bottom;
    bound = omega arith;
  }

  pub child-Visited :
      {n : ℕ} {b : Bucket} (i k : ℕ)
      → Visited n b
      → t.slot b.addr i ≡ 4 * k + 2
      → trail (4 * k) ≡ i ∷ trail b.addr
      → Visited (suc n) (child (4 * k))
  child-Visited {n} {b} i k (len, long, comes) e tr = (
    ap length tr ∙ ap suc len,
    refl,
    λ h goes.
        let (index, rest) = cons-eq (goes ∙ tr) in
        let same : shifted n h % b.len ≡ i = ap (λ x. shifted n h % x) long ∙ index in
        step k (comes h rest) (ap (t.slot b.addr) same ∙ e),
  )
