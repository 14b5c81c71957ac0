-- ===== src/Structures/Map/Alone/Update.antt =====
-- `update` of the hash map with no other thread at work.
use rustcurrent.Prelude.{
  ℕ, suc, ◌+◌, ◌*◌, ◌%◌, ◌^◌, ◌<◌, ◌≡◌, ◌≢◌, refl, ap, sym, ◌∙◌, inl, inr, arith, true, false,
  Option, none, some, List, length, update, ◌==◌, ==_refl, ==_iff, if◌then◌else◌, Bool-cases,
  Result, ok, err, Eq, option_beq,
}
use mathlib.Core.Path.{subst}
use rustcurrent.Concurrent.{Prog, ◌>>=◌}
use rustcurrent.Concurrent.Returns.{Returns, Returns-bind}
use rustcurrent.Memory.Hazard.{Manager}
use rustcurrent.Memory.Hazard.Ready.{Ready}
use rustcurrent.Structures.Map.{Bucket, Table, data_node, try_update, updated}
use rustcurrent.Structures.Map.Update.{
  tried, update_node, update_unmarked, update_level, bottom_tried, update_bottom, update_levels,
}
use rustcurrent.Structures.Map.Update
use rustcurrent.Structures.Map.Tree.{shifted, path, contents, SlotOk, empty, array, leaf, IsTree}
use rustcurrent.Structures.Map.Tree.Path.{array_tags, leaf_tags, length-path}
use rustcurrent.Structures.Map.Tree.Walk.{Reached, start, step, Reached-trail, index-lt}
use rustcurrent.Structures.Map.Tree.Slots.{contents-leaf}
use rustcurrent.Structures.Map.Tree.Leaf.{
  next_address, put_leaf, put-IsTree, put-contents, place', only_hash,
}
use rustcurrent.Structures.Map.Alone.{
  with_manager, Holds, Descended, AtFlow, get_ptr-Returns, slot_compare_exchange-Returns,
  with_data_node-Returns, get_bucket-Returns, protect-Returns, retire-Returns,
}
use rustcurrent.Structures.Map.Alone.Levels.{levels-Returns}
use rustcurrent.Structures.Map.Alone.TakeOut.{unchanged, held-empty, held-leaf}

module _ {V : Type 0} (b : Bucket) (i k h : ℕ) (new : V) (s : Table V) (inside : i < b.len)
    (at : s.slot b.addr i ≡ 4 * k) where
  try_update-Returns :
      {A : Type 0} (Post : A → Table V → Type 0) (g : Result (Unit {0}) (V × ℕ) → Prog (Table V) A)
      → Returns Post (g (ok tt)) (put_leaf b.addr i new h s)
      → Returns Post (try_update b i (4 * k) h new >>= g) s
  unfolding try_update
  try_update-Returns Post g next =
      Returns-bind Done Post (try_update b i (4 * k) h new) g s
        (slot_compare_exchange-Returns Done b i (4 * k) (next_address s)
          (updated (next_address s) new)
          (record s {
            node = update s.node (next_address s) (some (data_node (some new) h));
            last = s.last + 1;
          })
          inside at (refl, refl))
        λ a s' (is_ok, state).
          subst (λ a. Returns Post (g a) s') (sym is_ok)
            (subst (λ s'. Returns Post (g (ok tt)) s') (sym state) next)
    where
      Done : Result (Unit {0}) (V × ℕ) → Table V → Type 0
      Done a s' = (a ≡ ok tt) × (s' ≡ put_leaf b.addr i new h s)

module _ {V : Type 0} ⦃e : Eq V⦄ (rounds tid h : ℕ) (expected new : V) (held : ℕ → Option V) where
  -- The new value replaces the expected one, or comes back.
  abbrev pub Updated : Result (Unit {0}) V → Table V → Type 0
  Updated (ok _) s =
      (held h ≡ some expected) × Holds rounds tid (λ h'. if h == h' then some new else held h') s
  Updated (err v) s = (held h ≢ some expected) × (v ≡ new) × Holds rounds tid held s

  module _ (small : h < 2 ^ 64) (trail : ℕ → List ℕ) (place : ℕ → ℕ × ℕ) (t : Table V)
      (tree : IsTree trail place t) (agree : (h' : ℕ) → contents t h' ≡ held h') {n : ℕ}
      {b : Bucket} (way : Reached t h n b) (left : ℕ) (level : n + left ≡ 15) where
    abbrev slot_index : ℕ
    slot_index = shifted n h % b.len

    put-Updated :
        (k : ℕ) (v : V)
        → t.slot b.addr slot_index ≡ 4 * k
        → 0 < k
        → t.node (4 * k) ≡ some (data_node (some v) h)
        → option_beq (some v) (some expected) ≡ true
        → (m : Manager) → Ready rounds tid m
        → Updated (ok tt) (with_manager m (put_leaf b.addr slot_index new h t))
    put-Updated k v at pos nd right m ready = (
      held-leaf rounds tid h held trail place t tree agree way left level k v h at pos nd
          ∙ rw (==_refl h) (ap some ((e.beq_iff v expected).0 right)),
      record {
        table = put_leaf b.addr slot_index new h t;
        manager = m;
        ready = ready;
        form = (
          trail,
          place' trail place t tree h way left level new small,
          put-IsTree trail place t tree h way left level new small,
        );
        same = refl;
        agree = λ h'.
            put-contents trail place t tree h way left level new small others h'
            ∙ ap (λ o. if h == h' then some new else o) (agree h');
      },
    )
      where
        others : (h' : ℕ) → h ≢ h' → path (suc n) h' ≡ path (suc n) h → contents t h' ≡ none
        others h' ne same =
            let off : (h == h') ≡ false = ground arith in
            contents-leaf trail place t tree h way left level h' same k at pos ∙ rw (nd, off)

    stays-Updated :
        (m : Manager)
        → Ready rounds tid m
        → (o : Option V) → held h ≡ o
        → option_beq o (some expected) ≡ false
        → Updated (err new) (with_manager m t)
    stays-Updated m ready o found wrong = (
      (λ is. absurd (clash (sym found ∙ is))),
      refl,
      unchanged rounds tid h held trail place t tree agree way left level m ready,
    )
      where
        clash : o ≡ some expected → ⊥
        clash same =
            let right =
              ap (λ o. option_beq o (some expected)) same ∙ (e.beq_iff expected expected).1 refl in
            absurd (cc)

    update_node-Returns :
        (m : Manager)
        → Ready rounds tid m
        → (r k : ℕ) (v : V) (h0 : ℕ) → t.slot b.addr slot_index ≡ 4 * k
        → 0 < k
        → t.node (4 * k) ≡ some (data_node (some v) h0)
        → Returns
            (AtFlow Updated (Descended rounds tid held h n))
            (update_node rounds tid h expected new b slot_index r (4 * k))
            (with_manager m t)
    unfolding update_node
    update_node-Returns m ready r k v h0 at pos nd =
        let (_, _, _, plain, _) = leaf_tags k pos in
        let found =
          held-leaf rounds tid h held trail place t tree agree way left level k v h0 at pos nd in
        with_data_node-Returns (AtFlow Updated (Descended rounds tid held h n)) (4 * k) (4 * k)
          (some v) h0 _ (with_manager m t) plain nd
          (elim (Bool-cases (h0 == h)) [
            | inr other ↦ rw other (stays-Updated m ready none (found ∙ rw other) refl)
            | inl here ↦ elim (Bool-cases (option_beq (some v) (some expected))) [
              | inr wrong ↦
                  rw (here, wrong) (stays-Updated m ready (some v) (found ∙ rw here) wrong)
              | inl right ↦
                  let nd' : t.node (4 * k) ≡ some (data_node (some v) h) =
                    nd ∙ ap (λ x. some (data_node (some v) x)) ((==_iff h0 h).0 here) in
                  rw (here, right)
                    (try_update-Returns b slot_index k h new (with_manager m t)
                      (index-lt trail place t tree h way) at
                      (AtFlow Updated (Descended rounds tid held h n))
                      (tried rounds tid h expected new b slot_index r (4 * k))
                      (retire-Returns (AtFlow Updated (Descended rounds tid held h n)) rounds tid
                        (4 * k) _ (with_manager m (put_leaf b.addr slot_index new h t)) ready
                        (put-Updated k v at pos nd' right)))
            ]
          ])

    update_level-Returns :
        (m : Manager)
        → Ready rounds tid m
        → (r : ℕ) → SlotOk trail place t b.addr slot_index (t.slot b.addr slot_index)
        → Returns
            (AtFlow Updated (Descended rounds tid held h n))
            (update_level rounds tid h expected new b slot_index r)
            (with_manager m t)
    unfolding update_level update_unmarked
    update_level-Returns m ready r (empty e) =
        get_ptr-Returns (AtFlow Updated (Descended rounds tid held h n)) b slot_index _
          (with_manager m t) (index-lt trail place t tree h way)
          (rw e (
            stays-Updated m ready none
              (held-empty rounds tid h held trail place t tree agree way left level e) refl))
    update_level-Returns m ready r (array k e _ nd _ _ _) =
        let (nz, second, _, first, _) = array_tags k in
        get_ptr-Returns (AtFlow Updated (Descended rounds tid held h n)) b slot_index _
          (with_manager m t) (index-lt trail place t tree h way)
          (rw (e, nz, first, second)
            (get_bucket-Returns (AtFlow Updated (Descended rounds tid held h n)) k _
              (with_manager m t) nd
              (
                unchanged rounds tid h held trail place t tree agree way left level m ready,
                step k way e,
              )))
    update_level-Returns m ready r (leaf k v h0 e (pos, _) nd _ _ _) =
        let (nz, second, first, plain, _) = leaf_tags k pos in
        get_ptr-Returns (AtFlow Updated (Descended rounds tid held h n)) b slot_index _
          (with_manager m t) (index-lt trail place t tree h way)
          (rw (e, nz, second, first, plain)
            (protect-Returns (AtFlow Updated (Descended rounds tid held h n)) rounds tid (4 * k) _
              (with_manager m t) ready
              λ m' ready'.
                get_ptr-Returns (AtFlow Updated (Descended rounds tid held h n)) b slot_index _
                  (with_manager m' t) (index-lt trail place t tree h way)
                  (rw (e, ==_refl (4 * k)) (update_node-Returns m' ready' r k v h0 e pos nd))))

    update_bottom-Returns :
        (m : Manager)
        → Ready rounds tid m
        → left ≡ 0
        → b.len ≡ 16
        → SlotOk trail place t b.addr slot_index (t.slot b.addr slot_index)
        → Returns Updated
            (update_bottom rounds tid h expected new b (shifted n h))
            (with_manager m t)
    unfolding update_bottom
    update_bottom-Returns m ready bottom len (empty e) = rw (sym len) (
        get_ptr-Returns Updated b slot_index _ (with_manager m t)
          (index-lt trail place t tree h way)
          (rw e (
            stays-Updated m ready none
              (held-empty rounds tid h held trail place t tree agree way left level e) refl)))
    update_bottom-Returns m ready bottom len (array k e _ _ _ short _) =
        let (tr, _, _) = Reached-trail trail place t tree h way in
        let deep = ap length tr ∙ length-path n h in absurd (omega arith)
    update_bottom-Returns m ready bottom len (leaf k v h0 e (pos, _) nd small0 goes _) =
        let (nz, _, _, plain, _) = leaf_tags k pos in
        let same = only_hash trail place t tree h way left level h0 small small0 bottom goes in
        let nd' : t.node (4 * k) ≡ some (data_node (some v) h) =
          nd ∙ ap (λ x. some (data_node (some v) x)) same in
        let found =
          held-leaf rounds tid h held trail place t tree agree way left level k v h e pos nd'
          ∙ rw (==_refl h) in
        rw (sym len) (
          get_ptr-Returns Updated b slot_index _ (with_manager m t)
            (index-lt trail place t tree h way)
            (rw (e, nz)
              (with_data_node-Returns Updated (4 * k) (4 * k) (some v) h _ (with_manager m t) plain
                nd'
                (elim (Bool-cases (option_beq (some v) (some expected))) [
                  | inr wrong ↦ rw wrong (stays-Updated m ready (some v) found wrong)
                  | inl right ↦ rw right (
                      try_update-Returns b slot_index k h new (with_manager m t)
                        (index-lt trail place t tree h way) e Updated
                        (bottom_tried rounds tid h expected new (4 * k))
                        (retire-Returns Updated rounds tid (4 * k) _
                          (with_manager m (put_leaf b.addr slot_index new h t)) ready
                          (put-Updated k v e pos nd' right)))
                ]))))

-- With no other thread at work, `update` of the hash map returns. When the table holds the expected
-- value for the hash of the key, the result is `Ok`, and the table then holds the new value for that
-- hash and what it held for all others. Otherwise the result is `Err` with the new value, and the
-- table holds what it held before.
pub update-Updated :
    {K V : Type 0} ⦃e : Eq V⦄ (hash_of : K → ℕ) (rounds tid : ℕ) (key : K) (expected new : V)
    (held : ℕ → Option V) (t : Table V)
    → Holds rounds tid held t
    → hash_of key < 2 ^ 64
    → Returns
        (Updated rounds tid (hash_of key) expected new held)
        (Update.update hash_of rounds tid key expected new)
        t
unfolding Update.update update_levels
update-Updated hash_of rounds tid key expected new held t before small =
    let h : ℕ = hash_of key in
    levels-Returns rounds tid h held (Updated rounds tid h expected new held)
      (λ b r x. update_level rounds tid h expected new b (x % b.len) r)
      (update_bottom rounds tid h expected new) (update_levels rounds tid h expected new)
      (λ b r x. refl) (λ left b r x. refl)
      (λ trail place t tree agree m ready n b way left r level.
        update_level-Returns rounds tid h expected new held small trail place t tree agree way
          (suc left) level m ready r (tree.slots b.addr (shifted n h % b.len)))
      (λ trail place t tree agree m ready n b way level len.
        update_bottom-Returns rounds tid h expected new held small trail place t tree agree way 0
          level m ready refl len (tree.slots b.addr (shifted n h % b.len)))
      15 0 t before start refl
