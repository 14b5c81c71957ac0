-- ===== src/Structures/Map/Visits/Step.antt =====
-- One call of `next`, to the next entry or the end.
use rustcurrent.Prelude.{
  ℕ, zero, suc, ◌+◌, ◌*◌, ◌<◌, ◌≤◌, ◌≡◌, refl, inl, inr, arith, false, Option, none, some, List, [],
  ◌∷◌, ltb, Bool-cases,
}
use native.Mathlib.Nat.{suc-mul}
use rustcurrent.Concurrent.{ret}
use rustcurrent.Concurrent.Returns.{Returns}
use rustcurrent.Memory.Hazard.{Manager}
use rustcurrent.Memory.Hazard.Ready.{Known}
use rustcurrent.Structures.Map.{Bucket, Table}
use rustcurrent.Structures.Map.Iter.{Iter, next}
use rustcurrent.Structures.Map.Tree.{size, contents, IsTree}
use rustcurrent.Structures.Map.Alone.{with_manager}
use rustcurrent.Structures.Map.Visits.{slot_cost, Stack, bottom, push, Visits}
use native.Mathlib.Nat.{mod-lt}
use rustcurrent.Structures.Map.Visits.Ahead.{
  Below, index_in, Pending, advanced, skip-Pending, pop-Pending, end-Pending,
}
use rustcurrent.Structures.Map.Visits.Slot.{Item, Again, at_slot-Returns}

module _ {V : Type 0} (trail : ℕ → List ℕ) (place : ℕ → ℕ × ℕ) (t : Table V)
    (tree : IsTree trail place t) where
  size_le : (n : ℕ) → size n ≤ 256
  size_le zero = omega arith
  size_le (suc n) = omega arith

  size_pos : (n : ℕ) → 0 < size n
  size_pos zero = omega arith
  size_pos (suc n) = omega arith

  module _ (more tid top : ℕ) (todo : ℕ → Option V) where
    pop-Returns :
        (fuel : ℕ)
        → Again trail place t tree more tid top todo fuel
        → (it : Iter) (cost below : ℕ) → Visits trail place t tree it cost
        → Pending trail (contents t) todo it
        → it.current_array.len ≤ it.index
        → Stack trail place t tree it.node_stack below
        → below ≤ cost
        → cost < suc fuel
        → cost ≤ top
        → (m : Manager) → Known tid m
        → Returns
            (Item trail place t tree more tid top todo)
            (next (suc more) tid (suc fuel) it)
            (with_manager m t)
    unfolding next
    pop-Returns fuel again it cost below visits pending over stack bound enough le m known =
        let ge : ltb it.index it.current_array.len ≡ false = ground arith in
        rw ge (go it.node_stack below stack bound refl)
      where
        some_slots : 0 < it.current_array.len
        some_slots = omega (arith, visits.here.1, size_pos visits.n)

        go :
            (bs : List Bucket) (w : ℕ)
            → Stack trail place t tree bs w
            → w ≤ cost
            → it.node_stack ≡ bs
            → Returns
                (Item trail place t tree more tid top todo)
                (elim bs [
                  | [] ↦ ret (none, advanced it)
                  | b ∷ rest ↦
                      next
                        (suc more)
                        tid
                        fuel
                        (record { current_array = b; index = 0; node_stack = rest })
                ])
                (with_manager m t)
        go [] w bottom small e =
            ((nothing_left, skip-Pending trail pending no_slot), ended, m, known, refl)
          where
            no_slot :
                (h : ℕ) (v : V)
                → contents t h ≡ some v
                → Below trail it.current_array h
                → index_in trail it.current_array h ≡ it.index
                → ⊥
            no_slot h v holds_v below at =
                let small : index_in trail it.current_array h < it.current_array.len =
                  mod-lt _ some_slots in
                omega (arith, over, at, small)

            nothing_left : (h : ℕ) → todo h ≡ none
            nothing_left = end-Pending trail pending over some_slots e

            ended : Visits trail place t tree (advanced it) top
            ended = record {
              n = visits.n;
              left = visits.left;
              here = visits.here;
              level = visits.level;
              count = visits.count;
              slots_left = omega (arith, visits.slots_left);
              below = visits.below;
              stack = visits.stack;
              bound = omega (arith, visits.bound);
            }
        go (b ∷ rest) w (push {w = w'} n left here level st) small e =
            again (record { current_array = b; index = 0; node_stack = rest })
              (256 * slot_cost left + w') popped
              (pop-Pending trail pending over some_slots b rest e) (omega arith) (omega arith) m
              known
          where
            popped :
                Visits trail place t tree
                  (record { current_array = b; index = 0; node_stack = rest })
                  (256 * slot_cost left + w')
            popped = record {
              n = n;
              left = left;
              here = here;
              level = level;
              count = 256;
              slots_left = omega (arith, here.1, size_le n);
              below = w';
              stack = st;
              bound = omega arith;
            }

    in_bucket-Returns :
        (fuel : ℕ)
        → Again trail place t tree more tid top todo fuel
        → (it : Iter) (cost : ℕ) (visits : Visits trail place t tree it cost)
        → Pending trail (contents t) todo it
        → it.index < it.current_array.len
        → cost < suc fuel
        → cost ≤ top
        → (m : Manager) → Known tid m
        → (count : ℕ) → it.current_array.len ≤ count + it.index
        → count * slot_cost visits.left + visits.below ≤ cost
        → Returns
            (Item trail place t tree more tid top todo)
            (next (suc more) tid (suc fuel) it)
            (with_manager m t)
    in_bucket-Returns fuel again it cost visits pending inside enough le m known zero ahead bound =
        absurd (omega arith)
    in_bucket-Returns fuel again it cost visits pending inside enough le m known (suc c) ahead
          bound =
        at_slot-Returns trail place t tree more tid top todo fuel again it visits.n visits.left c
          visits.below cost visits.here visits.level inside (omega arith) visits.stack
          (omega (arith, suc-mul c (slot_cost visits.left))) enough le m known pending
          (tree.slots it.current_array.addr it.index)

    pub next-Again : (fuel : ℕ) → Again trail place t tree more tid top todo fuel
    next-Again zero it cost visits pending enough le m known = absurd (omega arith)
    next-Again (suc fuel) it cost visits pending enough le m known =
        elim (Bool-cases (ltb it.index it.current_array.len)) [
          | inr over ↦
              pop-Returns fuel (next-Again fuel) it cost visits.below visits pending (ground arith)
                visits.stack (omega (arith, visits.bound)) enough le m known
          | inl inside ↦
              in_bucket-Returns fuel (next-Again fuel) it cost visits pending (ground arith) enough
                le m known visits.count visits.slots_left visits.bound
        ]
