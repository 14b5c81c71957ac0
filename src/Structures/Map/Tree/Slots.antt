-- ===== src/Structures/Map/Tree/Slots.antt =====
-- Slots of a table after a write, and what a hash finds at the slot that it comes to.
use rustcurrent.Prelude.{
  ℕ, zero, suc, ◌+◌, ◌*◌, ◌/◌, ◌%◌, ◌<◌, ◌≤◌, ◌≡◌, ◌≢◌, ap, sym, ◌∙◌, ◌⊎◌, inl, inr, arith, true,
  length, false, none, List, ◌∷◌, update, ◌==◌, ==_iff, Bool-cases,
}
use mathlib.Core.Path.{subst}
use rustcurrent.Structures.Map.{Bucket, Table}
use rustcurrent.Structures.Map.Tree.{
  shifted, path, child, value_of, find, contents, SlotOk, empty, array, leaf, IsTree,
}
use rustcurrent.Structures.Map.Tree.Path.{cons-eq}
use rustcurrent.Structures.Map.Tree.Walk.{
  Reached, at_slot-empty, at_slot-leaf, Reached-trail, Reached-same, find-Reached,
}

-- A write to one slot, seen at another.
pub written :
    (slot : ℕ → ℕ → ℕ) (b i p c j : ℕ)
    → ((c ≡ b) × (j ≡ i) × (update slot b (update (slot b) i p) c j ≡ p))
      ⊎ ((¬ ((c ≡ b) × (j ≡ i))) × (update slot b (update (slot b) i p) c j ≡ slot c j))
written slot b i p c j = elim (Bool-cases (b == c)) [
  | inr off ↦ inr ((λ here. let t = (==_iff b c).1 (sym here.0) in cc), rw off)
  | inl at ↦ elim (Bool-cases (i == j)) [
    | inl same ↦ inl (sym ((==_iff b c).0 at), sym ((==_iff i j).0 same), rw (at, same))
    | inr other ↦ inr (
      (λ here. let t = (==_iff i j).1 (sym here.1) in cc),
      rw (at, other) (ap (λ x. slot x j) ((==_iff b c).0 at)),
    )
  ]
]

pub update-ne : {A : Type 0} (f : ℕ → A) (a : ℕ) (v : A) (x : ℕ) → a ≢ x → update f a v x ≡ f x
update-ne f a v x ne = let off : (a == x) ≡ false = ground arith in rw off

pub update_self : {A : Type 0} (f : ℕ → A) (a : ℕ) (v : A) → update f a v a ≡ v
update_self f a v = let at : (a == a) ≡ true = ground arith in rw at

module _ {V : Type 0} where
  -- A slot stays in order when what it leads to is left alone.
  pub SlotOk-frame :
      (trail trail' : ℕ → List ℕ) (place place' : ℕ → ℕ × ℕ) (t t' : Table V) {c j p : ℕ}
      → t.last ≤ t'.last
      → trail' c ≡ trail c
      → ((k : ℕ)
          → k ≤ t.last
          → (p ≡ 4 * k) ⊎ (p ≡ 4 * k + 2)
          → (t'.node (4 * k) ≡ t.node (4 * k))
            × (trail' (4 * k) ≡ trail (4 * k))
            × (place' (4 * k) ≡ place (4 * k)))
      → SlotOk trail place t c j p
      → SlotOk trail' place' t' c j p
  SlotOk-frame trail trail' place place' t t' le tr keep (empty e) = empty e
  SlotOk-frame trail trail' place place' t t' {j = j} le tr keep
        (array k e (lo, hi) n on short at) =
      let (kn, kt, kp) = keep k hi (inr e) in
      array k e (lo, omega arith) (kn ∙ n) (kt ∙ on ∙ ap (λ l. j ∷ l) (sym tr))
        (subst (λ l. length l < 15) (sym tr) short) (kp ∙ at)
  SlotOk-frame trail trail' place place' t t' {j = j} le tr keep
        (leaf k value hash e (lo, hi) n small way at) =
      let (kn, kt, kp) = keep k hi (inl e) in
      leaf k value hash e (lo, omega arith) (kn ∙ n) small
        (subst (λ l. path (suc (length l)) hash ≡ j ∷ l) (sym tr) way) (kp ∙ at)

  module _ (trail : ℕ → List ℕ) (place : ℕ → ℕ × ℕ) (t : Table V) (tree : IsTree trail place t)
      (h : ℕ) {n : ℕ} {b : Bucket} (r : Reached t h n b) (left : ℕ) (level : n + left ≡ 15) (h' : ℕ)
      (way : path (suc n) h' ≡ path (suc n) h) where
    index_same : t.slot b.addr (shifted n h' % b.len) ≡ t.slot b.addr (shifted n h % b.len)
    index_same =
        let (_, len, _) = Reached-trail trail place t tree h r in
        ap (λ x. t.slot b.addr x)
          (ap (λ x. shifted n h' % x) len ∙ (cons-eq way).0 ∙ ap (λ x. shifted n h % x) (sym len))

    contents-find : contents t h' ≡ find left t b (shifted n h') h'
    contents-find = sym (
        find-Reached trail place t tree h' left
          (Reached-same trail place t tree h h' r (sym (cons-eq way).1)) level)

    find_leaf :
        (left k : ℕ)
        → t.slot b.addr (shifted n h' % b.len) ≡ 4 * k
        → 0 < k
        → find left t b (shifted n h') h' ≡ value_of (t.node (4 * k)) h'
    unfolding find
    find_leaf zero k e pos = at_slot-leaf t _ h' k (λ _. none) e pos
    find_leaf (suc left) k e pos =
        at_slot-leaf t _ h' k (λ a. find left t (child a) (shifted n h' / 16) h') e pos

    find_empty :
        (left : ℕ)
        → t.slot b.addr (shifted n h' % b.len) ≡ 0
        → find left t b (shifted n h') h' ≡ none
    unfolding find
    find_empty zero e = at_slot-empty t _ h' (λ _. none) e
    find_empty (suc left) e =
        at_slot-empty t _ h' (λ a. find left t (child a) (shifted n h' / 16) h') e

    pub contents-leaf :
        (k : ℕ)
        → t.slot b.addr (shifted n h % b.len) ≡ 4 * k
        → 0 < k
        → contents t h' ≡ value_of (t.node (4 * k)) h'
    contents-leaf k e pos = contents-find ∙ find_leaf left k (index_same ∙ e) pos

    pub contents-empty : t.slot b.addr (shifted n h % b.len) ≡ 0 → contents t h' ≡ none
    contents-empty e = contents-find ∙ find_empty left (index_same ∙ e)
