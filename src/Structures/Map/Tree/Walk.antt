-- ===== src/Structures/Map/Tree/Walk.antt =====
-- The buckets that a hash comes to, and what a change of one slot does to the contents.
use rustcurrent.Prelude.{
  ℕ, suc, ◌+◌, ◌*◌, ◌%◌, ◌<◌, ◌≤◌, ◌≡◌, refl, ap, sym, ◌∙◌, arith, Option, none, some, List, ◌∷◌,
  length,
}
use mathlib.Core.Path.{subst}
use rustcurrent.Structures.Map.{Bucket, head, Table, array_node}
use rustcurrent.Structures.Map.Tree.{
  shifted, size, path, child, value_of, at_slot, find, contents, SlotOk, empty, array, leaf, IsTree,
}
use rustcurrent.Structures.Map.Tree.Path.{cons-eq, length-path, array_tags, leaf_tags}

module _ {V : Type 0} where
  -- At a level, the hash is at the bucket.
  pub data Reached (t : Table V) (hash : ℕ) : ℕ → Bucket → Type 0 where
    start : Reached t hash 0 head
    step :
        {n : ℕ} {b : Bucket} (k : ℕ)
        → Reached t hash n b
        → t.slot b.addr (shifted n hash % b.len) ≡ 4 * k + 2
        → Reached t hash (suc n) (child (4 * k))

  -- The three cases of a slot, in `find`.
  pub at_slot-empty :
      (t : Table V) (p hash : ℕ) (below : ℕ → Option V) → p ≡ 0 → at_slot t p hash below ≡ none
  at_slot-empty t p hash below e = rw e

  pub at_slot-array :
      (t : Table V) (p hash k : ℕ) (below : ℕ → Option V)
      → p ≡ 4 * k + 2
      → at_slot t p hash below ≡ below (4 * k)
  at_slot-array t p hash k below e = let (nz, m2, un, _, _) = array_tags k in rw (e, nz, m2, un)

  pub at_slot-leaf :
      (t : Table V) (p hash k : ℕ) (below : ℕ → Option V)
      → p ≡ 4 * k
      → 0 < k
      → at_slot t p hash below ≡ value_of (t.node (4 * k)) hash
  at_slot-leaf t p hash k below e pos = let (nz, m2, _, _, _) = leaf_tags k pos in rw (e, nz, m2)

  module _ (trail : ℕ → List ℕ) (place : ℕ → ℕ × ℕ) (t : Table V)
      (tree : IsTree trail place t) where
    -- What is known of a slot that holds an array pointer.
    abbrev pub ArraySlot : (b i k : ℕ) → Type 0
    ArraySlot b i k =
        (0 < k)
        × (k ≤ t.last)
        × (t.node (4 * k) ≡ some (array_node 16))
        × (trail (4 * k) ≡ i ∷ trail b)
        × (length (trail b) < 15)
        × (place (4 * k) ≡ (b, i))

    pub slot-array : (b i k : ℕ) → t.slot b i ≡ 4 * k + 2 → ArraySlot b i k
    slot-array b i k e = go (tree.slots b i)
      where
        go : SlotOk trail place t b i (t.slot b i) → ArraySlot b i k
        go (empty z) = absurd (omega arith)
        go (leaf j _ _ e' _ _ _ _ _) = absurd (omega arith)
        go (array j e' (lo, hi) n tr short pl) =
            let same : j ≡ k = omega arith in
            subst
              (λ x.
                (0 < x)
                × (x ≤ t.last)
                × (t.node (4 * x) ≡ some (array_node 16))
                × (trail (4 * x) ≡ i ∷ trail b)
                × (length (trail b) < 15)
                × (place (4 * x) ≡ (b, i)))
              same (lo, hi, n, tr, short, pl)

    pub Reached-trail :
        (hash : ℕ) {n : ℕ} {b : Bucket}
        → Reached t hash n b
        → (trail b.addr ≡ path n hash) × (b.len ≡ size n) × (b.addr ≤ 4 * t.last)
    Reached-trail hash start = (tree.root, refl, omega arith)
    Reached-trail hash (step {n = n} {b = b} k r e) =
        let (tr, len, _) = Reached-trail hash r in
        let a = slot-array b.addr (shifted n hash % b.len) k e in
        (
          a.3
              ∙ ap (λ x. (shifted n hash % b.len) ∷ x) tr
              ∙ ap (λ x. (shifted n hash % x) ∷ path n hash) len,
          refl,
          omega (arith, a.1),
        )

    pub index-lt :
        (hash : ℕ) {n : ℕ} {b : Bucket} → Reached t hash n b → shifted n hash % b.len < b.len
    index-lt hash start = omega arith
    index-lt hash (step k r e) = omega arith

    pub Reached-level : (hash : ℕ) {n : ℕ} {b : Bucket} → Reached t hash n b → n ≤ 15
    Reached-level hash start = omega arith
    Reached-level hash (step {n = n} {b = b} k r e) =
        let a = slot-array b.addr (shifted n hash % b.len) k e in
        let (tr, _, _) = Reached-trail hash r in
        omega (arith, a.4, ap length tr, length-path n hash)

    pub find-Reached :
        (hash : ℕ) {n : ℕ} {b : Bucket} (left : ℕ)
        → Reached t hash n b
        → n + left ≡ 15
        → find left t b (shifted n hash) hash ≡ contents t hash
    unfolding find
    find-Reached hash left start e = let same : left ≡ 15 = omega arith in rw same
    find-Reached hash left (step {n = n} {b = b} k r at) e =
        sym (
          at_slot-array t (t.slot b.addr (shifted n hash % b.len)) hash k
            (λ a. find left t (child a) (shifted (suc n) hash) hash) at)
        ∙ find-Reached hash (suc left) r (omega arith)

    -- A hash that goes the same way comes to the same bucket.
    pub Reached-same :
        (h h' : ℕ) {n : ℕ} {b : Bucket} → Reached t h n b → path n h ≡ path n h' → Reached t h' n b
    Reached-same h h' start e = start
    Reached-same h h' (step {n = n} {b = b} k r at) e =
        let (i, rest) = cons-eq e in
        let (_, len, _) = Reached-trail h r in
        let index : shifted n h % b.len ≡ shifted n h' % b.len =
          ap (λ x. shifted n h % x) len ∙ i ∙ ap (λ x. shifted n h' % x) (sym len) in
        step k (Reached-same h h' r rest) (ap (λ x. t.slot b.addr x) (sym index) ∙ at)
