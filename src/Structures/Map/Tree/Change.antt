-- ===== src/Structures/Map/Tree/Change.antt =====
-- What a change of one slot does to the contents.
use rustcurrent.Prelude.{
  ℕ, zero, suc, ◌+◌, ◌*◌, ◌%◌, ◌≤◌, ◌≡◌, ◌≢◌, refl, ap, sym, ◌∙◌, ◌⊎◌, inl, inr, arith, Option,
  List, ◌∷◌, length, ◌==◌, ==_iff, Bool-cases,
}
use mathlib.Core.Path.{subst}
use rustcurrent.Structures.Map.{Bucket, Table}
use rustcurrent.Structures.Map.Tree.{
  shifted, size, path, child, value_of, at_slot, find, contents, SlotOk, empty, array, leaf, IsTree,
}
use rustcurrent.Structures.Map.Tree.Path.{cons-eq, length-path}
use rustcurrent.Structures.Map.Tree.Walk.{
  Reached, start, step, at_slot-empty, at_slot-array, at_slot-leaf, Reached-trail, Reached-same,
}

pub path_dec : (n h h' : ℕ) → (path n h ≡ path n h') ⊎ (path n h ≢ path n h')
path_dec zero h h' = inl refl
path_dec (suc n) h h' = elim (path_dec n h h') [
  | inr ne ↦ inr (λ e. ne (cons-eq e).1)
  | inl rest ↦ elim (Bool-cases (shifted n h % size n == shifted n h' % size n)) [
    | inl same ↦ inl (
        ap (λ x. x ∷ path n h) ((==_iff (shifted n h % size n) (shifted n h' % size n)).0 same)
        ∙ ap (λ l. (shifted n h' % size n) ∷ l) rest)
    | inr other ↦
        inr
          λ e. let t = (==_iff (shifted n h % size n) (shifted n h' % size n)).1 (cons-eq e).0 in cc
  ]
]

module _ {V : Type 0} (trail : ℕ → List ℕ) (place : ℕ → ℕ × ℕ) (t : Table V)
    (tree : IsTree trail place t) where
  abbrev pub IsSlot : (b i c j : ℕ) → Type 0
  IsSlot b i c j = (c ≡ b) × (j ≡ i)

  -- The table `t'` differs from `t` at one slot only, and in nodes that no other slot leads to.
  pub record Differs (b i : ℕ) (t' : Table V) : Type 0 where
    pub same_slots : (c j : ℕ) → c ≤ 4 * t.last → IsSlot b i c j ⊎ (t'.slot c j ≡ t.slot c j)
    pub same_nodes : (c j : ℕ) → IsSlot b i c j ⊎ (t'.node (t.slot c j) ≡ t.node (t.slot c j))

  -- What is found at a slot depends on its node, and on what is found below it.
  at_slot-same :
      (t' : Table V) (hash : ℕ) (below' below : ℕ → Option V) {b i p : ℕ}
      → SlotOk trail place t b i p
      → t'.node p ≡ t.node p
      → ((k : ℕ) → p ≡ 4 * k + 2 → below' (4 * k) ≡ below (4 * k))
      → at_slot t' p hash below' ≡ at_slot t p hash below
  at_slot-same t' hash below' below {p = p} (empty e) nodes rest =
      at_slot-empty t' p hash below' e ∙ sym (at_slot-empty t p hash below e)
  at_slot-same t' hash below' below {p = p} (array k e _ _ _ _ _) nodes rest =
      at_slot-array t' p hash k below' e ∙ rest k e ∙ sym (at_slot-array t p hash k below e)
  at_slot-same t' hash below' below {p = p} (leaf k _ _ e (pos, _) _ _ _ _) nodes rest =
      at_slot-leaf t' p hash k below' e pos
      ∙ ap (λ x. value_of x hash) (ap t'.node (sym e) ∙ nodes ∙ ap t.node e)
      ∙ sym (at_slot-leaf t p hash k below e pos)

  -- The slot is the one that the hash `h` comes to at level `n`.
  module _ (h : ℕ) {n : ℕ} {b : Bucket} (r : Reached t h n b) (t' : Table V)
      (d : Differs b.addr (shifted n h % b.len) t') where
    -- A hash that comes to the slot goes the way of `h`.
    at_the_slot :
        (h' : ℕ) {m : ℕ} {c : Bucket}
        → Reached t h' m c
        → IsSlot b.addr (shifted n h % b.len) c.addr (shifted m h' % c.len)
        → path (suc n) h' ≡ path (suc n) h
    at_the_slot h' {m} {c} r' (at, index) =
        let (tr, len, _) = Reached-trail trail place t tree h r in
        let (tr', len', _) = Reached-trail trail place t tree h' r' in
        let ways : path m h' ≡ path n h = sym tr' ∙ ap trail at ∙ tr in
        let level : m ≡ n = sym (length-path m h') ∙ ap length ways ∙ length-path n h in
        let here : path (suc m) h' ≡ path (suc n) h =
          ap (λ x. (shifted m h' % x) ∷ path m h') (sym len')
          ∙ ap (λ x. x ∷ path m h') index
          ∙ ap (λ x. (shifted n h % b.len) ∷ x) ways
          ∙ ap (λ x. (shifted n h % x) ∷ path n h) len in
        subst (λ x. path (suc x) h' ≡ path (suc n) h) level here

    find-other :
        (h' left : ℕ) {m : ℕ} {c : Bucket}
        → path (suc n) h' ≢ path (suc n) h
        → Reached t h' m c
        → find left t' c (shifted m h') h' ≡ find left t c (shifted m h') h'
    unfolding find
    find-other h' zero {m} {c} ne r' =
        elim (d.same_slots c.addr (shifted m h' % c.len)
          (Reached-trail trail place t tree h' r').2) [
            | inl here ↦ absurd (ne (at_the_slot h' r' here))
            | inr slots ↦ elim (d.same_nodes c.addr (shifted m h' % c.len)) [
              | inl here ↦ absurd (ne (at_the_slot h' r' here))
              | inr nodes ↦ rw (slots, nodes)
            ]
          ]
    find-other h' (suc left) {m} {c} ne r' =
        elim (d.same_slots c.addr (shifted m h' % c.len)
          (Reached-trail trail place t tree h' r').2) [
            | inl here ↦ absurd (ne (at_the_slot h' r' here))
            | inr slots ↦ elim (d.same_nodes c.addr (shifted m h' % c.len)) [
              | inl here ↦ absurd (ne (at_the_slot h' r' here))
              | inr nodes ↦
                  ap (λ q. at_slot t' q h' (λ a. find left t' (child a) (shifted (suc m) h') h'))
                    slots
                  ∙ at_slot-same t' h' (λ a. find left t' (child a) (shifted (suc m) h') h')
                      (λ a. find left t (child a) (shifted (suc m) h') h')
                      (tree.slots c.addr (shifted m h' % c.len)) nodes
                      (λ k e. find-other h' left ne (step k r' e))
            ]
          ]

    -- Above the slot, every way stays as it is.
    Reached-above : (h' : ℕ) {m : ℕ} {c : Bucket} → Reached t h' m c → m ≤ n → Reached t' h' m c
    Reached-above h' start le = start
    Reached-above h' (step {n = m} {b = c} k r' e) le =
        elim (d.same_slots c.addr (shifted m h' % c.len)
          (Reached-trail trail place t tree h' r').2) [
            | inl here ↦
                let same = ap length (at_the_slot h' r' here) in
                let (tr, _, _) = Reached-trail trail place t tree h r in
                let (tr', _, _) = Reached-trail trail place t tree h' r' in
                let ways : path m h' ≡ path n h = sym tr' ∙ ap trail here.0 ∙ tr in
                absurd (omega (arith, ap length ways, length-path m h', length-path n h))
            | inr slots ↦ step k (Reached-above h' r' (omega arith)) (slots ∙ e)
          ]

    -- The contents elsewhere, and at the slot.
    pub contents-other :
        (h' : ℕ) → path (suc n) h' ≢ path (suc n) h → contents t' h' ≡ contents t h'
    contents-other h' ne = find-other h' 15 ne start

    pub Reached-changed : (h' : ℕ) → path n h' ≡ path n h → Reached t' h' n b
    Reached-changed h' e =
        Reached-above h' (Reached-same trail place t tree h h' r (sym e)) (omega arith)
