-- ===== src/Structures/Map/Tree/Leaf.antt =====
-- A new leaf in a slot, or a leaf less, as a change of the contents at one hash.
use rustcurrent.Prelude.{
  ℕ, suc, ◌+◌, ◌*◌, ◌%◌, ◌^◌, ◌<◌, ◌≡◌, ◌≢◌, refl, ap, sym, ◌∙◌, ◌⊎◌, inl, inr, arith, false, none,
  some, List, ◌∷◌, length, update, ◌==◌, ==_iff, if◌then◌else◌, Bool-cases,
}
use mathlib.Core.Path.{subst}
use rustcurrent.Structures.Map.{Bucket, Table, data_node, set_slot, set_node}
use rustcurrent.Structures.Map.Tree.{
  shifted, path, value_of, contents, SlotOk, empty, array, leaf, IsTree,
}
use rustcurrent.Structures.Map.Tree.Path.{length-path, path-eq}
use rustcurrent.Structures.Map.Tree.Walk.{Reached, slot-array, Reached-trail}
use rustcurrent.Structures.Map.Tree.Change.{path_dec, Differs, contents-other, Reached-changed}
use rustcurrent.Structures.Map.Tree.Slots.{
  written, update-ne, update_self, SlotOk-frame, contents-leaf, contents-empty,
}

-- The address of the next node that is allocated.
abbrev pub next_address : {V : Type 0} → Table V → ℕ
next_address t = 4 * (t.last + 1)

module _ {V : Type 0} where
  abbrev pub with_data : V → ℕ → Table V → Table V
  with_data value hash t = record t {
    node = update t.node (next_address t) (some (data_node (some value) hash));
    last = t.last + 1;
  }

  -- The slot gets a new leaf.
  abbrev pub put_leaf : (b i : ℕ) → V → ℕ → Table V → Table V
  put_leaf b i value hash t = set_slot b i (next_address t) (with_data value hash t)

  -- The slot loses its leaf.
  abbrev pub take_leaf : (b i p : ℕ) → Table V → Table V
  take_leaf b i p t = set_node p (some (data_node none 0)) (set_slot b i 0 t)

module _ {V : Type 0} (trail : ℕ → List ℕ) (place : ℕ → ℕ × ℕ) (t : Table V)
    (tree : IsTree trail place t) (h : ℕ) {n : ℕ} {b : Bucket} (r : Reached t h n b) (left : ℕ)
    (level : n + left ≡ 15) where
  abbrev index : ℕ
  index = shifted n h % b.len

  pub way_here : path (suc (length (trail b.addr))) h ≡ index ∷ trail b.addr
  way_here =
      let (tr, len, _) = Reached-trail trail place t tree h r in
      let deep : length (trail b.addr) ≡ n = ap length tr ∙ length-path n h in
      subst (λ m. path (suc m) h ≡ index ∷ trail b.addr) (sym deep)
        (ap (λ x. (shifted n h % x) ∷ path n h) (sym len) ∙ ap (λ l. index ∷ l) (sym tr))

  -- The hash of a leaf in the slot goes the same way.
  pub same_way :
      (h0 : ℕ)
      → path (suc (length (trail b.addr))) h0 ≡ index ∷ trail b.addr
      → path (suc n) h0 ≡ path (suc n) h
  same_way h0 e =
      let (tr, _, _) = Reached-trail trail place t tree h r in
      let deep : length (trail b.addr) ≡ n = ap length tr ∙ length-path n h in
      subst (λ x. path (suc x) h0 ≡ path (suc x) h) deep (e ∙ sym way_here)

  -- At the bottom of the tree the way tells the hashes apart.
  pub only_hash :
      (h0 : ℕ)
      → h < 2 ^ 64
      → h0 < 2 ^ 64
      → left ≡ 0
      → path (suc (length (trail b.addr))) h0 ≡ index ∷ trail b.addr
      → h0 ≡ h
  only_hash h0 small small0 bottom e =
      let deep : n ≡ 15 = omega arith in
      path-eq h0 h small0 small (subst (λ x. path (suc x) h0 ≡ path (suc x) h) deep (same_way h0 e))

  -- A pointer in a slot is that of a node allocated before.
  pub old_pointer :
      {c j p : ℕ} → SlotOk trail place t c j p → (p ≡ next_address t → ⊥) × (p ≢ next_address t + 2)
  old_pointer (empty e) = ((λ x. omega arith), λ x. omega arith)
  old_pointer (array k e (lo, hi) _ _ _ _) = ((λ x. omega arith), λ x. omega arith)
  old_pointer (leaf k _ _ e (lo, hi) _ _ _ _) = ((λ x. omega arith), λ x. omega arith)

  module _ (value : V) (small : h < 2 ^ 64) where
    abbrev t' : Table V
    t' = put_leaf b.addr index value h t

    abbrev pub place' : ℕ → ℕ × ℕ
    place' = update place (next_address t) (b.addr, index)

    put_Differs : Differs trail place t tree b.addr index t'
    put_Differs = record {
      same_slots = λ c j le. elim (written t.slot b.addr index (next_address t) c j) [
        | inl (at, same, _) ↦ inl (at, same)
        | inr (_, e) ↦ inr e
      ];
      same_nodes = λ c j. inr (
          update-ne t.node (next_address t) _ (t.slot c j)
            λ e. (old_pointer (tree.slots c j)).0 (sym e));
    }

    pub put-IsTree : IsTree trail place' t'
    put-IsTree = record {
      root = tree.root;
      slots = λ c j. elim (written t.slot b.addr index (next_address t) c j) [
        | inl (at, same, e) ↦
            subst (λ x. SlotOk trail place' t' x j (t'.slot c j)) (sym at)
              (subst (λ x. SlotOk trail place' t' b.addr x (t'.slot c j)) (sym same)
                (leaf (t.last + 1) value h e (omega arith)
                  (update_self t.node (next_address t) (some (data_node (some value) h))) small
                  way_here (update_self place (next_address t) (b.addr, index))))
        | inr (off, e) ↦
            subst (λ x. SlotOk trail place' t' c j x) (sym e)
              (SlotOk-frame trail trail place place' t t' (omega arith) refl
                (λ k hi _. (
                  update-ne t.node (next_address t) _ (4 * k) (omega arith),
                  refl,
                  update-ne place (next_address t) _ (4 * k) (omega arith),
                ))
                (tree.slots c j))
      ];
      fresh = λ c j far. elim (written t.slot b.addr index (next_address t) c j) [
        | inl (at, _, _) ↦
            let (_, _, near) = Reached-trail trail place t tree h r in absurd (omega arith)
        | inr (_, e) ↦ e ∙ tree.fresh c j (omega arith)
      ];
    }

    pub put-contents :
        ((h' : ℕ) → h ≢ h' → path (suc n) h' ≡ path (suc n) h → contents t h' ≡ none)
        → (h' : ℕ) → contents t' h' ≡ (if h == h' then some value else contents t h')
    put-contents other h' = elim (path_dec (suc n) h' h) [
      | inr ne ↦
          let off : (h == h') ≡ false = elim (Bool-cases (h == h')) [
            | inl e ↦ absurd (ne (ap (path (suc n)) (sym ((==_iff h h').0 e))))
            | inr e ↦ e
          ] in
          contents-other trail place t tree h r t' put_Differs h' ne ∙ rw off
      | inl way ↦
          let here : t'.slot b.addr index ≡ 4 * (t.last + 1) =
            elim (written t.slot b.addr index (next_address t) b.addr index) [
              | inl (_, _, e) ↦ e
              | inr (off, _) ↦ absurd (off (refl, refl))
            ] in
          contents-leaf trail place' t' put-IsTree h
            (Reached-changed trail place t tree h r t' put_Differs h refl) left level h' way
            (t.last + 1) here (omega arith)
          ∙ ap (λ x. value_of x h')
              (update_self t.node (next_address t) (some (data_node (some value) h)))
          ∙ elim (Bool-cases (h == h')) [
            | inl e ↦ rw e
            | inr e ↦
                let ne : h ≢ h' = λ x. let y = (==_iff h h').1 x in cc in rw (e, other h' ne way)
          ]
    ]

  -- A leaf is in one slot only.
  pub leaf_place :
      (c j k : ℕ)
      → t.slot c j ≡ 4 * k
      → 0 < k
      → (v : V) × (hash : ℕ) × (t.node (4 * k) ≡ some (data_node (some v) hash))
        × (place (4 * k) ≡ (c, j))
  leaf_place c j k e pos = go (tree.slots c j)
    where
      go :
          SlotOk trail place t c j (t.slot c j)
          → (v : V) × (hash : ℕ) × (t.node (4 * k) ≡ some (data_node (some v) hash))
            × (place (4 * k) ≡ (c, j))
      go (empty z) = absurd (omega arith)
      go (array k' e' _ _ _ _ _) = absurd (omega arith)
      go (leaf k' v hash e' _ nd _ _ at) =
          let same : 4 * k' ≡ 4 * k = omega arith in
          (v, hash, ap t.node (sym same) ∙ nd, ap place (sym same) ∙ at)

  module _ (k : ℕ) (at : t.slot b.addr index ≡ 4 * k) (pos : 0 < k) where
    abbrev emptied : Table V
    emptied = take_leaf b.addr index (4 * k) t

    pub only_here : (c j : ℕ) → ¬ ((c ≡ b.addr) × (j ≡ index)) → t.slot c j ≢ 4 * k
    only_here c j off e =
        let (_, _, _, here) = leaf_place b.addr index k at pos in
        let (_, _, _, there) = leaf_place c j k e pos in
        let same : (c, j) ≡ (b.addr, index) = sym there ∙ here in
        off (ap (λ x. x.0) same, ap (λ x. x.1) same)

    take_Differs : Differs trail place t tree b.addr index emptied
    take_Differs = record {
      same_slots = λ c j le. elim (written t.slot b.addr index 0 c j) [
        | inl (at, same, _) ↦ inl (at, same)
        | inr (_, e) ↦ inr e
      ];
      same_nodes = λ c j. elim (written t.slot b.addr index 0 c j) [
        | inl (at, same, _) ↦ inl (at, same)
        | inr (off, _) ↦
            inr (update-ne t.node (4 * k) _ (t.slot c j) λ e. only_here c j off (sym e))
      ];
    }

    pub take-IsTree : IsTree trail place emptied
    take-IsTree = record {
      root = tree.root;
      slots = λ c j. elim (written t.slot b.addr index 0 c j) [
        | inl (_, _, e) ↦ empty e
        | inr (off, e) ↦
            subst (λ x. SlotOk trail place emptied c j x) (sym e)
              (SlotOk-frame trail trail place place t emptied (omega arith) refl
                (λ k2 hi kind.
                  (update-ne t.node (4 * k) _ (4 * k2) (other_node c j k2 off kind), refl, refl))
                (tree.slots c j))
      ];
      fresh = λ c j far. elim (written t.slot b.addr index 0 c j) [
        | inl (_, _, e) ↦ e
        | inr (_, e) ↦ e ∙ tree.fresh c j far
      ];
    }
      where
        other_node :
            (c j k2 : ℕ)
            → ¬ ((c ≡ b.addr) × (j ≡ index))
            → (t.slot c j ≡ 4 * k2) ⊎ (t.slot c j ≡ 4 * k2 + 2)
            → 4 * k ≢ 4 * k2
        other_node c j k2 off (inl e) same = only_here c j off (e ∙ sym same)
        other_node c j k2 off (inr e) same =
            let (_, _, here, _) = leaf_place b.addr index k at pos in
            let there = (slot-array trail place t tree c j k2 e).2 in
            let clash = sym (ap t.node same) ∙ here in cc

    pub take-contents :
        (v : V)
        → t.node (4 * k) ≡ some (data_node (some v) h)
        → (h' : ℕ) → contents emptied h' ≡ (if h == h' then none else contents t h')
    take-contents v nd h' = elim (path_dec (suc n) h' h) [
      | inr ne ↦
          let off : (h == h') ≡ false = elim (Bool-cases (h == h')) [
            | inl e ↦ absurd (ne (ap (path (suc n)) (sym ((==_iff h h').0 e))))
            | inr e ↦ e
          ] in
          contents-other trail place t tree h r emptied take_Differs h' ne ∙ rw off
      | inl way ↦
          let gone : emptied.slot b.addr index ≡ 0 =
            elim (written t.slot b.addr index 0 b.addr index) [
              | inl (_, _, e) ↦ e
              | inr (off, _) ↦ absurd (off (refl, refl))
            ] in
          contents-empty trail place emptied take-IsTree h
            (Reached-changed trail place t tree h r emptied take_Differs h refl) left level h' way
            gone
          ∙ elim (Bool-cases (h == h')) [
            | inl e ↦ rw e
            | inr e ↦ rw e (
                sym (
                  contents-leaf trail place t tree h r left level h' way k at pos
                  ∙ ap (λ x. value_of x h') nd
                  ∙ rw e))
          ]
    ]
