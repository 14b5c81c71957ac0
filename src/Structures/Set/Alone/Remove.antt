-- ===== src/Structures/Set/Alone/Remove.antt =====
-- `remove` of the hash set with no other thread at work.
use rustcurrent.Prelude.{
  ℕ, suc, ◌+◌, ◌*◌, ◌%◌, ◌^◌, ◌<◌, ◌≡◌, refl, ap, sym, ◌∙◌, inl, inr, arith, Option, none, some,
  List, length, ◌==◌, ==_refl, ==_iff, if◌then◌else◌, Bool-cases, Result, ok,
}
use mathlib.Core.Path.{subst}
use rustcurrent.Concurrent.{Prog, ret, ◌>>=◌}
use rustcurrent.Concurrent.Returns.{Returns, Returns-bind}
use rustcurrent.Memory.Hazard.{Manager}
use rustcurrent.Memory.Hazard.Ready.{Ready}
use rustcurrent.Structures.Map.{Bucket, Table, set_slot, data_node}
use rustcurrent.Structures.Map.Remove.{take_out}
use rustcurrent.Structures.Map.Tree.{shifted, contents, SlotOk, empty, array, leaf, IsTree}
use rustcurrent.Structures.Map.Tree.Path.{array_tags, leaf_tags, length-path}
use rustcurrent.Structures.Map.Tree.Walk.{Reached, start, step, Reached-trail, index-lt}
use rustcurrent.Structures.Map.Tree.Leaf.{only_hash}
use rustcurrent.Structures.Map.Alone.{
  with_manager, Holds, Holds-eq, Descended, AtFlow, get_ptr-Returns, slot_compare_exchange-Returns,
  with_data_node-Returns, get_bucket-Returns, protect-Returns,
}
use rustcurrent.Structures.Map.Alone.Levels.{levels-Returns}
use rustcurrent.Structures.Map.Alone.TakeOut.{
  TakenOut, take_out-Returns, take-Holds, unchanged, held-empty, held-leaf,
}
use rustcurrent.Structures.Set.Remove.{
  taken, try_remove, tried, bottom_tried, remove_node, remove_unmarked, remove_level, remove_bottom,
  remove_levels, remove,
}

module _ {T : Type 0} (rounds tid h : ℕ) (held : ℕ → Option T) where
  -- What was held for the hash comes out.
  abbrev pub Emptied : Option T → Table T → Type 0
  Emptied a s = (a ≡ held h) × Holds rounds tid (λ h'. if h == h' then none else held h') s

  module _ (trail : ℕ → List ℕ) (place : ℕ → ℕ × ℕ) (t : Table T) (tree : IsTree trail place t)
      (agree : (h' : ℕ) → contents t h' ≡ held h') {n : ℕ} {b : Bucket} (way : Reached t h n b)
      (left : ℕ) (level : n + left ≡ 15) where
    abbrev slot_index : ℕ
    slot_index = shifted n h % b.len

    taken-Emptied :
        (k : ℕ) (v : T)
        → t.slot b.addr slot_index ≡ 4 * k
        → 0 < k
        → t.node (4 * k) ≡ some (data_node (some v) h)
        → (a : Option T) (s : Table T) → TakenOut rounds tid t b.addr slot_index k v a s
        → Emptied a s
    taken-Emptied k v at pos nd a s (is_v, m, ready, state) =
        subst (λ a. Emptied a s) (sym is_v)
          (subst (λ s. Emptied (some v) s) (sym state)
            (
              sym (
                  held-leaf rounds tid h held trail place t tree agree way left level k v h at pos
                    nd
                  ∙ rw (==_refl h)),
              take-Holds rounds tid h held trail place t tree agree way left level k v at pos nd m
                  ready,
            ))

    stays-Emptied :
        (m : Manager) → Ready rounds tid m → held h ≡ none → Emptied none (with_manager m t)
    stays-Emptied m ready found = (
      sym found,
      Holds-eq
          (λ h'. elim (Bool-cases (h == h')) [
            | inl at ↦ rw (at, sym (ap held ((==_iff h h').0 at)), found)
            | inr at ↦ rw at
          ])
          (unchanged rounds tid h held trail place t tree agree way left level m ready),
    )

    -- The exchange and what it takes out.
    try_remove-Returns :
        {A : Type 0} (Post : A → Table T → Type 0) (m : Manager)
        → Ready rounds tid m
        → (k : ℕ) (v : T) → t.slot b.addr slot_index ≡ 4 * k
        → 0 < k
        → t.node (4 * k) ≡ some (data_node (some v) h)
        → (g : Result (Option T) ℕ → Prog (Table T) A)
        → ((a : Option T) (s : Table T) → Emptied a s → Returns Post (g (ok a)) s)
        → Returns Post (try_remove rounds tid b slot_index (4 * k) >>= g) (with_manager m t)
    unfolding try_remove
    try_remove-Returns Post m ready k v at pos nd g next =
        Returns-bind Success Post (try_remove rounds tid b slot_index (4 * k)) g (with_manager m t)
          (slot_compare_exchange-Returns Success b slot_index (4 * k) 0 (taken rounds tid (4 * k))
            (with_manager m t) (index-lt trail place t tree h way) at
            (Returns-bind (TakenOut rounds tid t b.addr slot_index k v) Success
              (take_out rounds tid (4 * k)) (λ value. ret (ok value))
              (set_slot b.addr slot_index 0 (with_manager m t))
              (take_out-Returns rounds tid t b.addr slot_index k v h m ready nd)
              λ a s out. (a, refl, taken-Emptied k v at pos nd a s out)))
          λ result s (a, is_ok, out). subst (λ r. Returns Post (g r) s) (sym is_ok) (next a s out)
      where
        Success : Result (Option T) ℕ → Table T → Type 0
        Success result s = (a : Option T) × (result ≡ ok a) × Emptied a s

    remove_node-Returns :
        (m : Manager)
        → Ready rounds tid m
        → (r k : ℕ) (v : T) (h0 : ℕ) → t.slot b.addr slot_index ≡ 4 * k
        → 0 < k
        → t.node (4 * k) ≡ some (data_node (some v) h0)
        → Returns
            (AtFlow Emptied (Descended rounds tid held h n))
            (remove_node rounds tid h b slot_index r (4 * k))
            (with_manager m t)
    unfolding remove_node
    remove_node-Returns m ready r k v h0 at pos nd =
        let (_, _, _, plain, _) = leaf_tags k pos in
        let found =
          held-leaf rounds tid h held trail place t tree agree way left level k v h0 at pos nd in
        with_data_node-Returns (AtFlow Emptied (Descended rounds tid held h n)) (4 * k) (4 * k)
          (some v) h0 _ (with_manager m t) plain nd
          (elim (Bool-cases (h0 == h)) [
            | inr other ↦ rw other (stays-Emptied m ready (found ∙ rw other))
            | inl here ↦ rw here (
                try_remove-Returns (AtFlow Emptied (Descended rounds tid held h n)) m ready k v at
                  pos (nd ∙ ap (λ x. some (data_node (some v) x)) ((==_iff h0 h).0 here))
                  (tried rounds tid b slot_index r (4 * k)) λ a s out. out)
          ])

    remove_level-Returns :
        (m : Manager)
        → Ready rounds tid m
        → (r : ℕ) → SlotOk trail place t b.addr slot_index (t.slot b.addr slot_index)
        → Returns
            (AtFlow Emptied (Descended rounds tid held h n))
            (remove_level rounds tid h b slot_index r)
            (with_manager m t)
    unfolding remove_level remove_unmarked
    remove_level-Returns m ready r (empty e) =
        get_ptr-Returns (AtFlow Emptied (Descended rounds tid held h n)) b slot_index _
          (with_manager m t) (index-lt trail place t tree h way)
          (rw e (
            stays-Emptied m ready
              (held-empty rounds tid h held trail place t tree agree way left level e)))
    remove_level-Returns m ready r (array k e _ nd _ _ _) =
        let (nz, second, _, _, _) = array_tags k in
        get_ptr-Returns (AtFlow Emptied (Descended rounds tid held h n)) b slot_index _
          (with_manager m t) (index-lt trail place t tree h way)
          (rw (e, nz, second)
            (get_bucket-Returns (AtFlow Emptied (Descended rounds tid held h n)) k _
              (with_manager m t) nd
              (
                unchanged rounds tid h held trail place t tree agree way left level m ready,
                step k way e,
              )))
    remove_level-Returns m ready r (leaf k v h0 e (pos, _) nd _ _ _) =
        let (nz, second, first, plain, _) = leaf_tags k pos in
        get_ptr-Returns (AtFlow Emptied (Descended rounds tid held h n)) b slot_index _
          (with_manager m t) (index-lt trail place t tree h way)
          (rw (e, nz, second, first, plain)
            (protect-Returns (AtFlow Emptied (Descended rounds tid held h n)) rounds tid (4 * k) _
              (with_manager m t) ready
              λ m' ready'.
                get_ptr-Returns (AtFlow Emptied (Descended rounds tid held h n)) b slot_index _
                  (with_manager m' t) (index-lt trail place t tree h way)
                  (rw (e, ==_refl (4 * k)) (remove_node-Returns m' ready' r k v h0 e pos nd))))

    remove_bottom-Returns :
        (m : Manager)
        → Ready rounds tid m
        → left ≡ 0
        → h < 2 ^ 64
        → SlotOk trail place t b.addr slot_index (t.slot b.addr slot_index)
        → Returns Emptied (remove_bottom rounds tid h b (shifted n h)) (with_manager m t)
    unfolding remove_bottom
    remove_bottom-Returns m ready bottom small (empty e) =
        get_ptr-Returns Emptied b slot_index _ (with_manager m t)
          (index-lt trail place t tree h way)
          (rw e (
            stays-Emptied m ready
              (held-empty rounds tid h held trail place t tree agree way left level e)))
    remove_bottom-Returns m ready bottom small (array k e _ _ _ short _) =
        let (tr, _, _) = Reached-trail trail place t tree h way in
        let deep = ap length tr ∙ length-path n h in absurd (omega arith)
    remove_bottom-Returns m ready bottom small (leaf k v h0 e (pos, _) nd small0 goes _) =
        let (nz, _, _, plain, _) = leaf_tags k pos in
        let same = only_hash trail place t tree h way left level h0 small small0 bottom goes in
        let nd' : t.node (4 * k) ≡ some (data_node (some v) h) =
          nd ∙ ap (λ x. some (data_node (some v) x)) same in
        get_ptr-Returns Emptied b slot_index _ (with_manager m t)
          (index-lt trail place t tree h way)
          (rw (e, nz)
            (with_data_node-Returns Emptied (4 * k) (4 * k) (some v) h _ (with_manager m t) plain
              nd'
              (rw (==_refl h) (
                try_remove-Returns Emptied m ready k v e pos nd' (bottom_tried rounds tid)
                  λ a s out. out))))

-- With no other thread at work, `remove` of the hash set returns what the table holds for the hash,
-- and the table then holds nothing for the hash and what it held for all others.
pub remove-Emptied :
    {T Q : Type 0} (hash_of : Q → ℕ) (rounds tid : ℕ) (key : Q) (held : ℕ → Option T) (t : Table T)
    → Holds rounds tid held t
    → hash_of key < 2 ^ 64
    → Returns (Emptied rounds tid (hash_of key) held) (remove hash_of rounds tid key) t
unfolding remove remove_levels
remove-Emptied hash_of rounds tid key held t before small =
    let h : ℕ = hash_of key in
    levels-Returns rounds tid h held (Emptied rounds tid h held)
      (λ b r x. remove_level rounds tid h b (x % b.len) r) (remove_bottom rounds tid h)
      (remove_levels rounds tid h) (λ b r x. refl) (λ left b r x. refl)
      (λ trail place t tree agree m ready n b way left r level.
        remove_level-Returns rounds tid h held trail place t tree agree way (suc left) level m ready
          r (tree.slots b.addr (shifted n h % b.len)))
      (λ trail place t tree agree m ready n b way level len.
        remove_bottom-Returns rounds tid h held trail place t tree agree way 0 level m ready refl
          small (tree.slots b.addr (shifted n h % b.len)))
      15 0 t before start refl
