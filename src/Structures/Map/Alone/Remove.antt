-- ===== src/Structures/Map/Alone/Remove.antt =====
-- `remove` of the hash map with no other thread at work.
use rustcurrent.Prelude.{
  ℕ, suc, ◌+◌, ◌*◌, ◌%◌, ◌^◌, ◌<◌, ◌≡◌, refl, ap, sym, ◌∙◌, inl, inr, arith, Bool, true, false,
  ◌&&◌, Option, none, some, List, length, ◌==◌, ==_refl, ==_iff, if◌then◌else◌, Bool-cases, Eq,
  option_beq,
}
use mathlib.Core.Path.{subst}
use rustcurrent.Concurrent.Returns.{Returns, Returns-weaken, Returns-bind}
use rustcurrent.Memory.Hazard.{Manager}
use rustcurrent.Memory.Hazard.Ready.{Ready}
use rustcurrent.Structures.Map.{Bucket, Table, set_slot, data_node}
use rustcurrent.Structures.Map.Remove.{
  take_out, tried, remove_node, remove_unmarked, remove_level, bottom_tried, remove_bottom,
  remove_levels, remove,
}
use rustcurrent.Structures.Map.Tree.{shifted, contents, SlotOk, empty, array, leaf, IsTree}
use rustcurrent.Structures.Map.Tree.Path.{array_tags, leaf_tags, length-path}
use rustcurrent.Structures.Map.Tree.Walk.{Reached, start, step, Reached-trail, index-lt}
use rustcurrent.Structures.Map.Tree.Leaf.{take_leaf, only_hash}
use rustcurrent.Structures.Map.Alone.{
  with_manager, Holds, Holds-eq, Descended, AtFlow, get_ptr-Returns, with_data_node-Returns,
  get_bucket-Returns, protect-Returns,
}
use rustcurrent.Structures.Map.Alone.Levels.{levels-Returns}
use rustcurrent.Structures.Map.Alone.TakeOut.{
  TakenOut, take_out-Returns, unchanged, held-empty, held-leaf, take-Holds, try_remove-Returns,
}

module _ {V : Type 0} ⦃e : Eq V⦄ (rounds tid h : ℕ) (expected : V) (held : ℕ → Option V) where
  abbrev pub matches : Bool
  matches = option_beq (held h) (some expected)

  -- The value comes out when it is the expected one.
  abbrev pub Removed : Option V → Table V → Type 0
  Removed a s =
      (a ≡ (if matches then held h else none))
      × Holds rounds tid (λ h'. if (h == h') && matches then none else held h') s

  not_matched : (s : Table V) → Holds rounds tid held s → matches ≡ false → Removed none s
  not_matched s before e = (
    rw e,
    Holds-eq (λ h'. rw e (elim (Bool-cases (h == h')) [ inl at ↦ rw at | inr at ↦ rw at ])) before,
  )

  is_matched :
      (v : V) (s : Table V)
      → held h ≡ some v
      → option_beq (some v) (some expected) ≡ true
      → Holds rounds tid (λ h'. if h == h' then none else held h') s
      → Removed (some v) s
  is_matched v s found e after =
      let right : matches ≡ true = ap (λ o. option_beq o (some expected)) found ∙ e in
      (
        rw (right, found),
        Holds-eq (λ h'. rw right (elim (Bool-cases (h == h')) [ inl at ↦ rw at | inr at ↦ rw at ]))
            after,
      )

  module _ (trail : ℕ → List ℕ) (place : ℕ → ℕ × ℕ) (t : Table V) (tree : IsTree trail place t)
      (agree : (h' : ℕ) → contents t h' ≡ held h') {n : ℕ} {b : Bucket} (way : Reached t h n b)
      (left : ℕ) (level : n + left ≡ 15) where
    abbrev slot_index : ℕ
    slot_index = shifted n h % b.len

    -- What follows a comparison that succeeds.
    taken-Removed :
        (k : ℕ) (v : V)
        → t.slot b.addr slot_index ≡ 4 * k
        → 0 < k
        → t.node (4 * k) ≡ some (data_node (some v) h)
        → option_beq (some v) (some expected) ≡ true
        → (a : Option V) (s : Table V) → TakenOut rounds tid t b.addr slot_index k v a s
        → Removed a s
    taken-Removed k v at pos nd right a s (is_v, m, ready, state) =
        subst (λ a. Removed a s) (sym is_v)
          (subst (λ s. Removed (some v) s) (sym state)
            (is_matched v (with_manager m (take_leaf b.addr slot_index (4 * k) t))
              (held-leaf rounds tid h held trail place t tree agree way left level k v h at pos nd
                ∙ rw (==_refl h))
              right
              (take-Holds rounds tid h held trail place t tree agree way left level k v at pos nd m
                ready)))

    -- There is nothing for the hash, or not what is expected.
    stays-Removed :
        (m : Manager)
        → Ready rounds tid m
        → (o : Option V) → held h ≡ o
        → option_beq o (some expected) ≡ false
        → Removed none (with_manager m t)
    stays-Removed m ready o found wrong =
        not_matched (with_manager m t)
          (unchanged rounds tid h held trail place t tree agree way left level m ready)
          (ap (λ o. option_beq o (some expected)) found ∙ wrong)

    remove_node-Returns :
        (m : Manager)
        → Ready rounds tid m
        → (r k : ℕ) (v : V) (h0 : ℕ) → t.slot b.addr slot_index ≡ 4 * k
        → 0 < k
        → t.node (4 * k) ≡ some (data_node (some v) h0)
        → Returns
            (AtFlow Removed (Descended rounds tid held h n))
            (remove_node rounds tid h expected b slot_index r (4 * k))
            (with_manager m t)
    unfolding remove_node
    remove_node-Returns m ready r k v h0 at pos nd =
        let (_, _, _, plain, _) = leaf_tags k pos in
        let found =
          held-leaf rounds tid h held trail place t tree agree way left level k v h0 at pos nd in
        with_data_node-Returns (AtFlow Removed (Descended rounds tid held h n)) (4 * k) (4 * k)
          (some v) h0 _ (with_manager m t) plain nd
          (elim (Bool-cases (h0 == h)) [
            | inr other ↦ rw other (stays-Removed m ready none (found ∙ rw other) refl)
            | inl here ↦ elim (Bool-cases (option_beq (some v) (some expected))) [
              | inr wrong ↦
                  rw (here, wrong) (stays-Removed m ready (some v) (found ∙ rw here) wrong)
              | inl right ↦
                  let nd' : t.node (4 * k) ≡ some (data_node (some v) h) =
                    nd ∙ ap (λ x. some (data_node (some v) x)) ((==_iff h0 h).0 here) in
                  rw (here, right)
                    (try_remove-Returns b slot_index k (with_manager m t)
                      (index-lt trail place t tree h way) at
                      (AtFlow Removed (Descended rounds tid held h n))
                      (tried rounds tid h expected b slot_index r (4 * k))
                      (Returns-bind (TakenOut rounds tid t b.addr slot_index k v)
                        (AtFlow Removed (Descended rounds tid held h n))
                        (take_out rounds tid (4 * k)) _
                        (set_slot b.addr slot_index 0 (with_manager m t))
                        (take_out-Returns rounds tid t b.addr slot_index k v h m ready nd')
                        (taken-Removed k v at pos nd' right)))
            ]
          ])

    remove_level-Returns :
        (m : Manager)
        → Ready rounds tid m
        → (r : ℕ) → SlotOk trail place t b.addr slot_index (t.slot b.addr slot_index)
        → Returns
            (AtFlow Removed (Descended rounds tid held h n))
            (remove_level rounds tid h expected b slot_index r)
            (with_manager m t)
    unfolding remove_level remove_unmarked
    remove_level-Returns m ready r (empty e) =
        get_ptr-Returns (AtFlow Removed (Descended rounds tid held h n)) b slot_index _
          (with_manager m t) (index-lt trail place t tree h way)
          (rw e (
            stays-Removed m ready none
              (held-empty rounds tid h held trail place t tree agree way left level e) refl))
    remove_level-Returns m ready r (array k e _ nd _ _ _) =
        let (nz, second, _, _, _) = array_tags k in
        get_ptr-Returns (AtFlow Removed (Descended rounds tid held h n)) b slot_index _
          (with_manager m t) (index-lt trail place t tree h way)
          (rw (e, nz, second)
            (get_bucket-Returns (AtFlow Removed (Descended rounds tid held h n)) k _
              (with_manager m t) nd
              (
                unchanged rounds tid h held trail place t tree agree way left level m ready,
                step k way e,
              )))
    remove_level-Returns m ready r (leaf k v h0 e (pos, _) nd _ _ _) =
        let (nz, second, first, plain, _) = leaf_tags k pos in
        get_ptr-Returns (AtFlow Removed (Descended rounds tid held h n)) b slot_index _
          (with_manager m t) (index-lt trail place t tree h way)
          (rw (e, nz, second, first, plain)
            (protect-Returns (AtFlow Removed (Descended rounds tid held h n)) rounds tid (4 * k) _
              (with_manager m t) ready
              λ m' ready'.
                get_ptr-Returns (AtFlow Removed (Descended rounds tid held h n)) b slot_index _
                  (with_manager m' t) (index-lt trail place t tree h way)
                  (rw (e, ==_refl (4 * k)) (remove_node-Returns m' ready' r k v h0 e pos nd))))

    remove_bottom-Returns :
        (m : Manager)
        → Ready rounds tid m
        → left ≡ 0
        → h < 2 ^ 64
        → SlotOk trail place t b.addr slot_index (t.slot b.addr slot_index)
        → Returns Removed (remove_bottom rounds tid h expected b (shifted n h)) (with_manager m t)
    unfolding remove_bottom
    remove_bottom-Returns m ready bottom small (empty e) =
        get_ptr-Returns Removed b slot_index _ (with_manager m t)
          (index-lt trail place t tree h way)
          (rw e (
            stays-Removed m ready none
              (held-empty rounds tid h held trail place t tree agree way left level e) refl))
    remove_bottom-Returns m ready bottom small (array k e _ _ _ short _) =
        let (tr, _, _) = Reached-trail trail place t tree h way in
        let deep = ap length tr ∙ length-path n h in absurd (omega arith)
    remove_bottom-Returns m ready bottom small (leaf k v h0 e (pos, _) nd small0 goes _) =
        let (nz, _, _, plain, _) = leaf_tags k pos in
        let same = only_hash trail place t tree h way left level h0 small small0 bottom goes in
        let nd' : t.node (4 * k) ≡ some (data_node (some v) h) =
          nd ∙ ap (λ x. some (data_node (some v) x)) same in
        let found =
          held-leaf rounds tid h held trail place t tree agree way left level k v h e pos nd'
          ∙ rw (==_refl h) in
        get_ptr-Returns Removed b slot_index _ (with_manager m t)
          (index-lt trail place t tree h way)
          (rw (e, nz)
            (with_data_node-Returns Removed (4 * k) (4 * k) (some v) h _ (with_manager m t) plain
              nd'
              (elim (Bool-cases (option_beq (some v) (some expected))) [
                | inr wrong ↦ rw wrong (stays-Removed m ready (some v) found wrong)
                | inl right ↦ rw right (
                    try_remove-Returns b slot_index k (with_manager m t)
                      (index-lt trail place t tree h way) e Removed
                      (bottom_tried rounds tid h expected (4 * k))
                      (Returns-weaken (TakenOut rounds tid t b.addr slot_index k v) Removed
                        (take_out rounds tid (4 * k))
                        (set_slot b.addr slot_index 0 (with_manager m t))
                        (taken-Removed k v e pos nd' right)
                        (take_out-Returns rounds tid t b.addr slot_index k v h m ready nd')))
              ])))

-- With no other thread at work, `remove` of the hash map returns. When the table holds the expected
-- value for the hash of the key, that value is the result, and the table then holds nothing for the
-- hash and what it held for all others. Otherwise the result is `None` and the table holds what it
-- held before.
pub remove-Removed :
    {K V : Type 0} ⦃e : Eq V⦄ (hash_of : K → ℕ) (rounds tid : ℕ) (key : K) (expected : V)
    (held : ℕ → Option V) (t : Table V)
    → Holds rounds tid held t
    → hash_of key < 2 ^ 64
    → Returns
        (Removed rounds tid (hash_of key) expected held)
        (remove hash_of rounds tid key expected)
        t
unfolding remove remove_levels
remove-Removed hash_of rounds tid key expected held t before small =
    let h : ℕ = hash_of key in
    levels-Returns rounds tid h held (Removed rounds tid h expected held)
      (λ b r x. remove_level rounds tid h expected b (x % b.len) r)
      (remove_bottom rounds tid h expected) (remove_levels rounds tid h expected) (λ b r x. refl)
      (λ left b r x. refl)
      (λ trail place t tree agree m ready n b way left r level.
        remove_level-Returns rounds tid h expected held trail place t tree agree way (suc left)
          level m ready r (tree.slots b.addr (shifted n h % b.len)))
      (λ trail place t tree agree m ready n b way level len.
        remove_bottom-Returns rounds tid h expected held trail place t tree agree way 0 level m
          ready refl small (tree.slots b.addr (shifted n h % b.len)))
      15 0 t before start refl
