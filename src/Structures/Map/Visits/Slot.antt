-- ===== src/Structures/Map/Visits/Slot.antt =====
-- What one call of `next` does at a slot.
use rustcurrent.Prelude.{
  ℕ, zero, suc, ◌+◌, ◌*◌, ◌<◌, ◌≤◌, ◌≡◌, refl, ap, arith, true, Option, none, some, List, ◌∷◌,
  length, ltb, ==_refl,
}
use rustcurrent.Concurrent.{Prog, ◌>>=◌}
use rustcurrent.Concurrent.Returns.{Returns, Returns-bind, Returns-zoom}
use rustcurrent.Memory.Hazard
use rustcurrent.Memory.Hazard.{Manager}
use rustcurrent.Memory.Hazard.Ready.{Known, protect_dynamic-Known}
use rustcurrent.Structures.Map.{Bucket, Table, data_node, array_node, get_bucket}
use rustcurrent.Structures.Map.Iter.{
  Iter, push_bucket, stable, protect_dynamic, check_handle, after_check, protect_and_read, next,
}
use rustcurrent.Structures.Map.Tree.{child, contents, SlotOk, empty, array, leaf, IsTree}
use rustcurrent.Structures.Map.Tree.Path.{array_tags, leaf_tags}
use rustcurrent.Structures.Map.Alone.{
  with_manager, get_ptr-Returns, with_data_node-Returns, get_bucket-Returns,
}
use rustcurrent.Structures.Map.Visits.{
  slot_cost, slot_cost_pos, Visited, Stack, push, Visits, child-Visited,
}
use rustcurrent.Structures.Map.Visits.Ahead.{Pending, advanced, without}
use rustcurrent.Structures.Map.Visits.Found.{empty-Pending, leaf-Pending, array-Pending}

module _ {V : Type 0} (trail : ℕ → List ℕ) (place : ℕ → ℕ × ℕ) (t : Table V)
    (tree : IsTree trail place t) where
  module _ (more tid top : ℕ) (todo : ℕ → Option V) where
    abbrev pub rounds : ℕ
    rounds = suc more

    -- An item is one of `todo`, and the others are left. At the end there are none.
    abbrev pub FromTable : Option (V × ℕ) → Iter → Type 0
    FromTable none it = ((h : ℕ) → todo h ≡ none) × Pending trail (contents t) todo it
    FromTable (some (v, _)) it =
        (h : ℕ) × (todo h ≡ some v) × Pending trail (contents t) (without h todo) it

    abbrev pub Item : Option (V × ℕ) × Iter → Table V → Type 0
    Item (item, it) s =
        FromTable item it
        × Visits trail place t tree it top
        × (m : Manager) × Known tid m
        × (s ≡ with_manager m t)

    protect_dynamic-Returns :
        (r : ℕ) (g : ℕ → Prog (Table V) (Option (V × ℕ) × Iter)) (m : Manager)
        → Known tid m
        → ((handle : ℕ) (m' : Manager) → Known tid m' → Returns Item (g handle) (with_manager m' t))
        → Returns Item (protect_dynamic rounds tid r >>= g) (with_manager m t)
    protect_dynamic-Returns r g m known next =
        Returns-zoom (λ t. t.manager) with_manager (λ _ m. Known tid m) Item
          (Hazard.protect_dynamic rounds tid r) g (with_manager m t) (λ m t. refl) (λ m m' t. refl)
          (λ t. refl) (protect_dynamic-Known more tid r m known) next

    read-Returns :
        (rest : Iter → Prog (Table V) (Option (V × ℕ) × Iter)) (later : Iter) (b : Bucket) (i k : ℕ)
        (v : V) (h0 : ℕ) (m : Manager)
        → Known tid m
        → i < b.len
        → t.slot b.addr i ≡ 4 * k
        → 0 < k
        → t.node (4 * k) ≡ some (data_node (some v) h0)
        → (todo h0 ≡ some v) × Pending trail (contents t) (without h0 todo) later
        → Visits trail place t tree later top
        → Returns Item
            (protect_and_read rounds tid rest later b i (4 * k) (4 * k))
            (with_manager m t)
    unfolding protect_and_read check_handle
    read-Returns rest later b i k v h0 m known inside e pos nd found visits =
        let (_, _, _, plain, _) = leaf_tags k pos in
        protect_dynamic-Returns (4 * k)
          (λ handle. check_handle rounds tid rounds b i handle (4 * k) >>= λ checked.
            after_check rounds tid rest later checked)
          m known
          λ handle m' known'.
            Returns-bind (λ checked s. (checked ≡ stable handle (4 * k)) × (s ≡ with_manager m' t))
              Item (check_handle rounds tid rounds b i handle (4 * k))
              (after_check rounds tid rest later) (with_manager m' t)
              (get_ptr-Returns _ b i _ (with_manager m' t) inside
                (rw (e, ==_refl (4 * k)) (refl, refl)))
              λ checked s (is_stable, state).
                rw (is_stable, state)
                  (with_data_node-Returns Item (4 * k) (4 * k) (some v) h0 _ (with_manager m' t)
                    plain nd ((h0, found.0, found.1), visits, m', known', refl))

    -- The iterations that are left, with fewer calls.
    abbrev pub Again : ℕ → Type 0
    Again fuel =
        (it : Iter) (cost : ℕ)
        → Visits trail place t tree it cost
        → Pending trail (contents t) todo it
        → cost < fuel
        → cost ≤ top
        → (m : Manager) → Known tid m
        → Returns Item (next rounds tid fuel it) (with_manager m t)

    Visits-weaken :
        {it : Iter} {cost : ℕ}
        → cost ≤ top
        → Visits trail place t tree it cost
        → Visits trail place t tree it top
    Visits-weaken le visits = record {
      n = visits.n;
      left = visits.left;
      here = visits.here;
      level = visits.level;
      count = visits.count;
      slots_left = visits.slots_left;
      below = visits.below;
      stack = visits.stack;
      bound = omega (arith, visits.bound);
    }

    module _ (fuel : ℕ) (again : Again fuel) (it : Iter) (n left c below cost : ℕ)
        (here : Visited trail place t tree n it.current_array) (level : n + left ≡ 15)
        (inside : it.index < it.current_array.len)
        (ahead : it.current_array.len ≤ c + (it.index + 1))
        (stack : Stack trail place t tree it.node_stack below)
        (bound : c * slot_cost left + below + slot_cost left ≤ cost) (enough : cost < suc fuel)
        (le : cost ≤ top) (m : Manager) (known : Known tid m)
        (pending : Pending trail (contents t) todo it) where
      abbrev less : ℕ
      less = c * slot_cost left + below

      less_lt : less < cost
      less_lt = omega (arith, slot_cost_pos left)

      advanced-Visits : Visits trail place t tree (advanced it) less
      advanced-Visits = record {
        n = n;
        left = left;
        here = here;
        level = level;
        count = c;
        slots_left = ahead;
        below = below;
        stack = stack;
        bound = omega arith;
      }

      pushed-Visits :
          (k below_left : ℕ)
          → left ≡ suc below_left
          → Visited trail place t tree (suc n) (child (4 * k))
          → Visits trail place t tree
              (push_bucket (child (4 * k)) (advanced it))
              (c * slot_cost left + (1 + 256 * slot_cost below_left + below))
      pushed-Visits k below_left e visited = record {
        n = n;
        left = left;
        here = here;
        level = level;
        count = c;
        slots_left = ahead;
        below = 1 + 256 * slot_cost below_left + below;
        stack = push (suc n) below_left visited (omega arith) stack;
        bound = omega arith;
      }

      array-Returns :
          (k l : ℕ)
          → left ≡ l
          → t.slot it.current_array.addr it.index ≡ 4 * k + 2
          → t.node (4 * k) ≡ some (array_node 16)
          → trail (4 * k) ≡ it.index ∷ trail it.current_array.addr
          → length (trail it.current_array.addr) < 15
          → Returns Item
              (get_bucket (4 * k + 2) >>= λ bucket.
                next rounds tid fuel (push_bucket bucket (advanced it)))
              (with_manager m t)
      array-Returns k zero l_is e nd tr short = let deep = here.0 in absurd (omega arith)
      array-Returns k (suc l) l_is e nd tr short =
          let cheaper : slot_cost left ≡ 2 + 256 * slot_cost l = ap slot_cost l_is in
          get_bucket-Returns Item k
            (λ bucket. next rounds tid fuel (push_bucket bucket (advanced it))) (with_manager m t)
            nd
            (again (push_bucket (child (4 * k)) (advanced it))
              (c * slot_cost left + (1 + 256 * slot_cost l + below))
              (pushed-Visits k l l_is (child-Visited trail place t tree it.index k here e tr))
              (array-Pending trail place t tree todo left here level pending (child (4 * k)) tr)
              (omega arith) (omega arith) m known)

      pub at_slot-Returns :
          SlotOk trail place t it.current_array.addr it.index
            (t.slot it.current_array.addr it.index)
          → Returns Item (next rounds tid (suc fuel) it) (with_manager m t)
      unfolding next
      at_slot-Returns (empty e) =
          let lt : ltb it.index it.current_array.len ≡ true = ground arith in
          rw lt (
            get_ptr-Returns Item it.current_array it.index _ (with_manager m t) inside (
              rw e (
                again (advanced it) less advanced-Visits
                  (empty-Pending trail place t tree todo left here level pending e)
                  (omega (arith, less_lt)) (omega (arith, less_lt)) m known)))
      at_slot-Returns (array k e _ nd tr short _) =
          let lt : ltb it.index it.current_array.len ≡ true = ground arith in
          let (nz, second, _, first, _) = array_tags k in
          rw lt (
            get_ptr-Returns Item it.current_array it.index _ (with_manager m t) inside
              (rw (e, nz, first, second) (array-Returns k left refl e nd tr short)))
      at_slot-Returns (leaf k v h0 e (pos, _) nd _ goes _) =
          let lt : ltb it.index it.current_array.len ≡ true = ground arith in
          let (nz, second, first, _, _) = leaf_tags k pos in
          rw lt (
            get_ptr-Returns Item it.current_array it.index _ (with_manager m t) inside (
              rw (e, nz, first, second)
                (read-Returns (next rounds tid fuel) (advanced it) it.current_array it.index k v h0
                  m known inside e pos nd
                  (leaf-Pending trail place t tree todo left here level pending k v h0 e pos nd
                    goes)
                  (Visits-weaken (omega (arith, less_lt)) advanced-Visits))))
