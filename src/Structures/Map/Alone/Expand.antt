-- ===== src/Structures/Map/Alone/Expand.antt =====
-- `expand_map` with no other thread at work, on a slot whose leaf is marked.
use rustcurrent.Prelude.{
  ℕ, zero, suc, ◌+◌, ◌*◌, ◌/◌, ◌%◌, ◌^◌, ◌<◌, ◌≤◌, ◌≡◌, refl, ap, sym, ◌∙◌, inl, inr, arith, Option,
  some, ==_refl, update,
}
use mathlib.Core.Path.{subst}
use native.Mathlib.Nat.{div-div-eq-div-mul, pow-suc}
use rustcurrent.Concurrent.{Prog, ◌>>=◌}
use rustcurrent.Concurrent.Returns.{Returns}
use rustcurrent.Memory.Hazard.{Manager}
use rustcurrent.Memory.Hazard.Ready.{Ready}
use rustcurrent.Structures.Tagged.{mark_second}
use rustcurrent.Structures.Map.{
  Bucket, Table, data_node, array_node, set_slot, expand_map, on_data, box_array, expanded,
  slot_compare_exchange, shift_step, child_size,
}
use rustcurrent.Structures.Map.Tree.{shifted}
use rustcurrent.Structures.Map.Tree.Path.{array_tags, mark_tags}
use rustcurrent.Structures.Map.Tree.Slots.{written, update-ne}
use rustcurrent.Structures.Map.Tree.Leaf.{next_address}
use rustcurrent.Structures.Map.Tree.Expand.{expand_slot}
use rustcurrent.Structures.Map.Alone.{
  with_manager, get_ptr-Returns, slot_compare_exchange-Returns, protect-Returns,
}

four_levels : (m : ℕ) → 2 ^ (m + 4) ≡ 2 ^ m * 16
four_levels m =
    let e : m + 4 ≡ suc (suc (suc (suc m))) = omega arith in
    ap (λ x. 2 ^ x) e
    ∙ omega (
      arith,
      pow-suc 2 (suc (suc (suc m))),
      pow-suc 2 (suc (suc m)),
      pow-suc 2 (suc m),
      pow-suc 2 m,
    )

-- The levels shift the hash by what `expand_map` is told.
pub shifted-div : (n h : ℕ) → shifted n h ≡ h / 2 ^ (4 * n)
shifted-div zero h = omega arith
shifted-div (suc n) h =
    let e : 4 * suc n ≡ 4 * n + 4 = omega arith in
    ap (λ x. x / 16) (shifted-div n h)
    ∙ div-div-eq-div-mul h (2 ^ (4 * n)) 16
    ∙ ap (λ x. h / x) (sym (four_levels (4 * n)) ∙ ap (λ x. 2 ^ x) (sym e))

module _ {V : Type 0} (rounds tid : ℕ) (t : Table V) (b : Bucket) (i n k : ℕ) (v0 : V) (h0 : ℕ)
    (inside : i < b.len) (old : b.addr ≤ 4 * t.last)
    (nd : t.node (4 * k) ≡ some (data_node (some v0) h0)) where
  abbrev j : ℕ
  j = shifted (suc n) h0 % 16

  abbrev pub marked_slot : Manager → Table V
  marked_slot m = set_slot b.addr i (4 * k + 1) (with_manager m t)

  abbrev pub Expanded : ℕ → Table V → Type 0
  Expanded p s =
      (p ≡ next_address t + 2)
      × (m : Manager) × Ready rounds tid m
      × (s ≡ with_manager m (expand_slot b.addr i j (4 * k) t))

  -- The array is allocated, with the leaf at `x`.
  abbrev grown : Manager → ℕ → Table V
  grown m x = record t {
    node = update t.node (next_address t) (some (array_node 16));
    slot = update (marked_slot m).slot (next_address t) (update (λ _. 0) x (4 * k));
    last = t.last + 1;
    manager = m;
  }

  -- What `expand_map` does with the leaf.
  abbrev publish : Option V → ℕ → Prog (Table V) ℕ
  publish _ hash = do
    let new_pos = hash / 2 ^ (4 * n + shift_step) % child_size
    array ← box_array new_pos (4 * k)
    swapped ← slot_compare_exchange b i (4 * k + 1) (mark_second array)
    expanded b i new_pos array swapped

  abbrev jj : ℕ
  jj = h0 / 2 ^ (4 * n + 4) % 16

  index : jj ≡ j
  index =
      let e : 4 * n + 4 ≡ 4 * suc n = omega arith in
      ap (λ x. h0 / 2 ^ x % 16) e ∙ ap (λ x. x % 16) (sym (shifted-div (suc n) h0))

  pub expand_map-Returns :
      (m : Manager)
      → Ready rounds tid m
      → Returns Expanded (expand_map rounds tid b i (4 * n)) (marked_slot m)
  unfolding expand_map box_array
  expand_map-Returns m ready =
      let (nz, second, _, first) = mark_tags k in
      get_ptr-Returns Expanded b i _ (marked_slot m) inside (
        rw (here, nz, second, first)
          (protect-Returns Expanded rounds tid (4 * k) _ (marked_slot m) ready λ m' ready'.
            get_ptr-Returns Expanded b i _ (marked_slot m') inside (
              rw (here, nz, ==_refl (4 * k + 1))
                (subst (λ x. Returns Expanded (on_data x publish) (marked_slot m')) (sym nd)
                  (slot_compare_exchange-Returns Expanded b i (4 * k + 1)
                    (mark_second (next_address t)) (expanded b i jj (next_address t)) (grown m' jj)
                    inside
                    (ap (λ f. f i)
                        (update-ne (marked_slot m').slot (next_address t) _ b.addr (omega arith))
                      ∙ here)
                    (
                      (array_tags (t.last + 1)).4,
                      m',
                      ready',
                      ap (λ x. set_slot b.addr i (mark_second (next_address t)) (grown m' x)) index
                          ∙ ap (λ y. set_slot b.addr i y (grown m' j)) (array_tags (t.last + 1)).4,
                    ))))))
    where
      here : update t.slot b.addr (update (t.slot b.addr) i (4 * k + 1)) b.addr i ≡ 4 * k + 1
      here = elim (written t.slot b.addr i (4 * k + 1) b.addr i) [
        | inl (_, _, e) ↦ e
        | inr (off, _) ↦ absurd (off (refl, refl))
      ]
