-- ===== src/Structures/Map/Visits/Found.antt =====
-- What the hashes at a slot of a visited bucket have in the table.
use rustcurrent.Prelude.{
  ℕ, suc, ◌+◌, ◌*◌, ◌%◌, ◌<◌, ◌≡◌, refl, sym, ap, ◌∙◌, inl, inr, Option, none, some, List, ◌∷◌,
  length, ◌==◌, ==_refl, ==_iff, Bool-cases,
}
use mathlib.Core.Path.{subst}
use rustcurrent.Structures.Map.{Bucket, Table, data_node}
use rustcurrent.Structures.Map.Iter.{Iter}
use rustcurrent.Structures.Map.Tree.{shifted, size, path, contents, IsTree}
use rustcurrent.Structures.Map.Tree.Path.{cons-eq}
use rustcurrent.Structures.Map.Tree.Walk.{Reached}
use rustcurrent.Structures.Map.Tree.Slots.{contents-leaf, contents-empty}
use rustcurrent.Structures.Map.Visits.{Visited}
use rustcurrent.Structures.Map.Visits.Ahead.{
  Below, index_in, Pending, advanced, without, skip-Pending, take-Pending, push-Pending,
}

module _ {V : Type 0} (trail : ℕ → List ℕ) (place : ℕ → ℕ × ℕ) (t : Table V)
    (tree : IsTree trail place t) {n : ℕ} {it : Iter} (todo : ℕ → Option V) (left : ℕ)
    (here : Visited trail place t tree n it.current_array) (level : n + left ≡ 15)
    (pending : Pending trail (contents t) todo it) where
  arrives :
      (h : ℕ)
      → Below trail it.current_array h
      → index_in trail it.current_array h ≡ it.index
      → Reached t h n it.current_array × (shifted n h % it.current_array.len ≡ it.index)
  arrives h below at =
      let (len, _, comes) = here in
      (
        comes h (subst (λ m. path m h ≡ trail it.current_array.addr) len below),
        subst (λ m. shifted m h % it.current_array.len ≡ it.index) len at,
      )

  pub empty-Pending :
      t.slot it.current_array.addr it.index ≡ 0 → Pending trail (contents t) todo (advanced it)
  empty-Pending e = skip-Pending trail pending λ h v holds_v below at.
      let (r, same) = arrives h below at in
      let gone =
        contents-empty trail place t tree h r left level h refl
          (ap (t.slot it.current_array.addr) same ∙ e) in
      cc

  leaf_only :
      (k : ℕ) (v w : V) (h0 h : ℕ)
      → t.slot it.current_array.addr it.index ≡ 4 * k
      → 0 < k
      → t.node (4 * k) ≡ some (data_node (some v) h0)
      → contents t h ≡ some w
      → Below trail it.current_array h
      → index_in trail it.current_array h ≡ it.index
      → h ≡ h0
  leaf_only k v w h0 h e pos nd holds_w below at =
      let (r, same) = arrives h below at in
      let found =
        contents-leaf trail place t tree h r left level h refl k
          (ap (t.slot it.current_array.addr) same ∙ e) pos in
      elim (Bool-cases (h0 == h)) [
        | inl equal ↦ sym ((==_iff h0 h).0 equal)
        | inr other ↦ let missed : contents t h ≡ none = found ∙ rw (nd, other) refl in absurd (cc)
      ]

  -- The leaf in a slot is what the table holds for its hash, and goes.
  pub leaf-Pending :
      (k : ℕ) (v : V) (h0 : ℕ)
      → t.slot it.current_array.addr it.index ≡ 4 * k
      → 0 < k
      → t.node (4 * k) ≡ some (data_node (some v) h0)
      → path (suc (length (trail it.current_array.addr))) h0
        ≡ it.index ∷ trail it.current_array.addr
      → (todo h0 ≡ some v) × Pending trail (contents t) (without h0 todo) (advanced it)
  leaf-Pending k v h0 e pos nd goes =
      let (i, below) = cons-eq goes in
      let (len, long, _) = here in
      let width : it.current_array.len ≡ size (length (trail it.current_array.addr)) =
        long ∙ ap size (sym len) in
      let at : index_in trail it.current_array h0 ≡ it.index =
        ap (λ x. shifted (length (trail it.current_array.addr)) h0 % x) width ∙ i in
      let (r, same) = arrives h0 below at in
      let found : contents t h0 ≡ some v =
        contents-leaf trail place t tree h0 r left level h0 refl k
          (ap (t.slot it.current_array.addr) same ∙ e) pos
        ∙ rw (nd, ==_refl h0) in
      take-Pending trail pending h0 v found below at
        (λ h w holds_w b a. leaf_only k v w h0 h e pos nd holds_w b a)

  pub array-Pending :
      (c : Bucket)
      → trail c.addr ≡ it.index ∷ trail it.current_array.addr
      → Pending trail (contents t) todo (record (advanced it) { node_stack = c ∷ it.node_stack })
  array-Pending c goes = push-Pending trail pending c (here.1 ∙ ap size (sym here.0)) goes
