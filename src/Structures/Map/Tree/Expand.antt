-- ===== src/Structures/Map/Tree/Expand.antt =====
-- An array node in the place of a leaf, with the leaf in it, changes nothing of the contents.
use rustcurrent.Prelude.{
  ℕ, suc, ◌+◌, ◌*◌, ◌%◌, ◌^◌, ◌<◌, ◌≤◌, ◌≡◌, ◌≢◌, refl, ap, sym, ◌∙◌, ◌⊎◌, inl, inr, arith, some,
  List, ◌∷◌, length, update, ◌==◌, ==_iff, if◌then◌else◌, Bool-cases,
}
use mathlib.Core.Path.{subst}
use rustcurrent.Structures.Map.{Bucket, Table, data_node, array_node, set_slot}
use rustcurrent.Structures.Map.Tree.{
  shifted, path, child, value_of, contents, SlotOk, empty, array, leaf, IsTree,
}
use rustcurrent.Structures.Map.Tree.Path.{length-path, cons-eq}
use rustcurrent.Structures.Map.Tree.Walk.{Reached, step, slot-array, Reached-trail}
use rustcurrent.Structures.Map.Tree.Change.{path_dec, Differs, contents-other, Reached-changed}
use rustcurrent.Structures.Map.Tree.Slots.{
  written, update-ne, update_self, SlotOk-frame, contents-leaf, contents-empty,
}
use rustcurrent.Structures.Map.Tree.Leaf.{next_address, old_pointer, only_here}

module _ {V : Type 0} where
  -- The new array, with the leaf `p` at `j`, takes the place of the marked leaf.
  abbrev pub expand_slot : (b i j p : ℕ) → Table V → Table V
  expand_slot b i j p t = set_slot b i (next_address t + 2) (record t {
    node = update t.node (next_address t) (some (array_node 16));
    slot =
        update (update t.slot b (update (t.slot b) i (p + 1))) (next_address t)
          (update (λ _. 0) j p);
    last = t.last + 1;
  })

module _ {V : Type 0} (trail : ℕ → List ℕ) (place : ℕ → ℕ × ℕ) (t : Table V)
    (tree : IsTree trail place t) (h : ℕ) {n : ℕ} {b : Bucket} (r : Reached t h n b) (left : ℕ)
    (level : n + suc left ≡ 15) (k : ℕ) (at : t.slot b.addr (shifted n h % b.len) ≡ 4 * k)
    (pos : 0 < k) (below : k ≤ t.last) (v0 : V) (h0 : ℕ)
    (nd : t.node (4 * k) ≡ some (data_node (some v0) h0)) (small : h0 < 2 ^ 64)
    (way : path (suc n) h0 ≡ path (suc n) h) where
  abbrev i : ℕ
  i = shifted n h % b.len

  abbrev j : ℕ
  j = shifted (suc n) h0 % 16

  abbrev a : ℕ
  a = next_address t

  abbrev t2 : Table V
  t2 = expand_slot b.addr i j (4 * k) t

  abbrev pub trail2 : ℕ → List ℕ
  trail2 = update trail a (i ∷ trail b.addr)

  abbrev pub place2 : ℕ → ℕ × ℕ
  place2 = update (update place a (b.addr, i)) (4 * k) (a, j)

  b_old : b.addr ≤ 4 * t.last
  b_old = (Reached-trail trail place t tree h r).2

  b_trail : trail b.addr ≡ path n h
  b_trail = (Reached-trail trail place t tree h r).0

  slots2 :
      (c x : ℕ)
      → ((c ≡ b.addr) × (x ≡ i) × (t2.slot c x ≡ a + 2))
        ⊎ (((c ≡ a) × (t2.slot c x ≡ (if j == x then 4 * k else 0)))
            ⊎ ((¬ ((c ≡ b.addr) × (x ≡ i))) × (c ≢ a) × (t2.slot c x ≡ t.slot c x)))
  slots2 c x =
      let marked = update t.slot b.addr (update (t.slot b.addr) i (4 * k + 1)) in
      let grown = update marked a (update (λ _. 0) j (4 * k)) in
      elim (written grown b.addr i (a + 2) c x) [
        | inl here ↦ inl here
        | inr (off, e) ↦ elim (Bool-cases (a == c)) [
          | inl new ↦
              let same : c ≡ a = sym ((==_iff a c).0 new) in
              inr (
                inl (
                  same,
                  e
                      ∙ ap (λ y. grown y x) same
                      ∙ ap (λ f. f x) (update_self marked a (update (λ _. 0) j (4 * k))),
                ))
          | inr old ↦
              let ne : a ≢ c = λ z. let y = (==_iff a c).1 z in cc in
              inr (
                inr (
                  off,
                  (λ z. ne (sym z)),
                  e
                      ∙ ap (λ f. f x) (update-ne marked a (update (λ _. 0) j (4 * k)) c ne)
                      ∙ elim (written t.slot b.addr i (4 * k + 1) c x) [
                        | inl (same, index, _) ↦ absurd (off (same, index))
                        | inr (_, e') ↦ e'
                      ],
                ))
        ]
      ]

  expand_Differs : Differs trail place t tree b.addr i t2
  expand_Differs = record {
    same_slots = λ c x le. elim (slots2 c x) [
      | inl (same, index, _) ↦ inl (same, index)
      | inr (inl (new, _)) ↦ absurd (omega arith)
      | inr (inr (_, _, e)) ↦ inr e
    ];
    same_nodes = λ c x. inr (
        update-ne t.node a _ (t.slot c x)
          λ e. (old_pointer trail place t tree h r (suc left) level (tree.slots c x)).0 (sym e));
  }

  trail2_old : (c : ℕ) → c ≢ a → trail2 c ≡ trail c
  trail2_old c ne = update-ne trail a (i ∷ trail b.addr) c (λ e. ne (sym e))

  new_array : SlotOk trail2 place2 t2 b.addr i (a + 2)
  new_array =
      let kept : trail2 b.addr ≡ trail b.addr = trail2_old b.addr (omega (arith, b_old)) in
      array (t.last + 1) refl (omega arith) (update_self t.node a (some (array_node 16)))
        (update_self trail a (i ∷ trail b.addr) ∙ ap (λ l. i ∷ l) (sym kept))
        (omega (arith, ap length kept, ap length b_trail, length-path n h))
        (update-ne (update place a (b.addr, i)) (4 * k) (a, j) a (omega arith)
          ∙ update_self place a (b.addr, i))

  moved_leaf : (x p : ℕ) → p ≡ (if j == x then 4 * k else 0) → SlotOk trail2 place2 t2 a x p
  moved_leaf x p e = elim (Bool-cases (j == x)) [
    | inr off ↦ empty (e ∙ rw off)
    | inl on ↦
        let index : j ≡ x = (==_iff j x).0 on in
        let here : trail2 a ≡ path (suc n) h =
          update_self trail a (i ∷ trail b.addr)
          ∙ ap (λ l. i ∷ l) b_trail
          ∙ ap (λ y. (shifted n h % y) ∷ path n h) (Reached-trail trail place t tree h r).1 in
        let deep : length (trail2 a) ≡ suc n = ap length here ∙ length-path (suc n) h in
        leaf k v0 h0 (e ∙ rw on) (pos, omega arith)
          (update-ne t.node a _ (4 * k) (omega arith) ∙ nd) small
          (ap (λ y. path (suc y) h0) deep
            ∙ ap (λ l. j ∷ l) (way ∙ sym here)
            ∙ ap (λ y. y ∷ trail2 a) index)
          (update_self (update place a (b.addr, i)) (4 * k) (a, j) ∙ ap (λ y. (a, y)) index)
  ]

  old_slot :
      (c x : ℕ) → ¬ ((c ≡ b.addr) × (x ≡ i)) → c ≢ a → SlotOk trail2 place2 t2 c x (t.slot c x)
  old_slot c x off ne =
      SlotOk-frame trail trail2 place place2 t t2 (omega arith) (trail2_old c ne)
        (λ k2 hi kind. (
          update-ne t.node a _ (4 * k2) (omega arith),
          trail2_old (4 * k2) (omega arith),
          update-ne (update place a (b.addr, i)) (4 * k) (a, j) (4 * k2) (other k2 kind)
              ∙ update-ne place a (b.addr, i) (4 * k2) (omega arith),
        ))
        (tree.slots c x)
    where
      other : (k2 : ℕ) → (t.slot c x ≡ 4 * k2) ⊎ (t.slot c x ≡ 4 * k2 + 2) → 4 * k ≢ 4 * k2
      other k2 (inl e) same =
          only_here trail place t tree h r (suc left) level k at pos c x off (e ∙ sym same)
      other k2 (inr e) same =
          let there = (slot-array trail place t tree c x k2 e).2 in
          let clash = sym (ap t.node same) ∙ nd in cc

  pub expand-IsTree : IsTree trail2 place2 t2
  expand-IsTree = record {
    root = trail2_old 0 (omega arith) ∙ tree.root;
    slots = λ c x. elim (slots2 c x) [
      | inl (same, index, e) ↦
          subst (λ y. SlotOk trail2 place2 t2 y x (t2.slot c x)) (sym same)
            (subst (λ y. SlotOk trail2 place2 t2 b.addr y (t2.slot c x)) (sym index)
              (subst (λ y. SlotOk trail2 place2 t2 b.addr i y) (sym e) new_array))
      | inr (inl (new, e)) ↦
          subst (λ y. SlotOk trail2 place2 t2 y x (t2.slot c x)) (sym new)
            (moved_leaf x (t2.slot c x) e)
      | inr (inr (off, ne, e)) ↦
          subst (λ y. SlotOk trail2 place2 t2 c x y) (sym e) (old_slot c x off ne)
    ];
    fresh = λ c x far. elim (slots2 c x) [
      | inl (same, _, _) ↦ let near = b_old in absurd (omega arith)
      | inr (inl (new, _)) ↦ absurd (omega arith)
      | inr (inr (_, _, e)) ↦ e ∙ tree.fresh c x (omega arith)
    ];
  }

  -- A hash that comes to the slot comes to the new array.
  pub expand-Reached : (h' : ℕ) → path (suc n) h' ≡ path (suc n) h → Reached t2 h' (suc n) (child a)
  expand-Reached h' same =
      let (_, len, _) = Reached-trail trail place t tree h r in
      let index : shifted n h' % b.len ≡ i =
        ap (λ x. shifted n h' % x) len ∙ (cons-eq same).0 ∙ ap (λ x. shifted n h % x) (sym len) in
      step (t.last + 1)
        (Reached-changed trail place t tree h r t2 expand_Differs h' (cons-eq same).1)
        (ap (λ x. t2.slot b.addr x) index ∙ elim (slots2 b.addr i) [
          | inl (_, _, e) ↦ e
          | inr (inl (new, _)) ↦ let near = b_old in absurd (omega arith)
          | inr (inr (off, _, _)) ↦ absurd (off (refl, refl))
        ])

  in_array : (x : ℕ) → t2.slot a x ≡ (if j == x then 4 * k else 0)
  in_array x = elim (slots2 a x) [
    | inl (same, _, _) ↦ let near = b_old in absurd (omega arith)
    | inr (inl (_, e)) ↦ e
    | inr (inr (_, ne, _)) ↦ absurd (ne refl)
  ]

  pub expand-contents : (h' : ℕ) → contents t2 h' ≡ contents t h'
  expand-contents h' = elim (path_dec (suc n) h' h) [
    | inr ne ↦ contents-other trail place t tree h r t2 expand_Differs h' ne
    | inl same ↦
        let before : contents t h' ≡ value_of (some (data_node (some v0) h0)) h' =
          contents-leaf trail place t tree h r (suc left) level h' same k at pos
          ∙ ap (λ x. value_of x h') nd in
        let there = expand-Reached h' same in
        elim (Bool-cases (j == shifted (suc n) h' % 16)) [
          | inl on ↦
              contents-leaf trail2 place2 t2 expand-IsTree h' there left (omega arith) h' refl k
                (in_array (shifted (suc n) h' % 16) ∙ rw on) pos
              ∙ ap (λ x. value_of x h') (update-ne t.node a _ (4 * k) (omega arith) ∙ nd)
              ∙ sym before
          | inr off ↦
              contents-empty trail2 place2 t2 expand-IsTree h' there left (omega arith) h' refl
                (in_array (shifted (suc n) h' % 16) ∙ rw off)
              ∙ elim (Bool-cases (h0 == h')) [
                | inl e ↦
                    let index : j ≡ shifted (suc n) h' % 16 =
                      ap (λ x. shifted (suc n) x % 16) ((==_iff h0 h').0 e) in
                    let y = (==_iff j (shifted (suc n) h' % 16)).1 index in absurd (cc)
                | inr e ↦ rw e
              ]
              ∙ sym before
        ]
  ]
