-- ===== src/Structures/Map/Tree/Path.antt =====
-- The way that a hash goes: it is long enough to tell any two hashes of 64 bits apart.
use rustcurrent.Prelude.{
  ℕ, zero, suc, ◌+◌, ◌*◌, ◌%◌, ◌^◌, ◌<◌, ◌≡◌, refl, ap, sym, ◌∙◌, List, ◌∷◌, length, arith, true,
  false, ◌==◌,
}
use rustcurrent.Structures.Tagged.{
  is_marked, unmark, mark, is_marked_second, unmark_second, mark_second,
}
use rustcurrent.Structures.Map.Tree.{shifted, size, path}

pub cons-eq : {x y : ℕ} {xs ys : List ℕ} → x ∷ xs ≡ y ∷ ys → (x ≡ y) × (xs ≡ ys)
cons-eq h = (cc, cc)

pub length-path : (n hash : ℕ) → length (path n hash) ≡ n
length-path zero hash = refl
length-path (suc n) hash = ap suc (length-path n hash)

size_mod : (n a b : ℕ) → a % size n ≡ b % size n → a % 16 ≡ b % 16
size_mod zero a b h = omega arith
size_mod (suc n) a b h = h

pub shifted-eq : (n : ℕ) (h h' : ℕ) → path n h ≡ path n h' → shifted n h ≡ shifted n h' → h ≡ h'
shifted-eq zero h h' p e = e
shifted-eq (suc n) h h' p e =
    let (i, rest) = cons-eq p in
    let low = size_mod n (shifted n h) (shifted n h') i in shifted-eq n h h' rest (omega arith)

shifted_all : (h : ℕ) → h < 2 ^ 64 → shifted 16 h ≡ 0
shifted_all h small = omega arith

pub path-eq : (h h' : ℕ) → h < 2 ^ 64 → h' < 2 ^ 64 → path 16 h ≡ path 16 h' → h ≡ h'
path-eq h h' small small' e =
    shifted-eq 16 h h' e (shifted_all h small ∙ sym (shifted_all h' small'))

pub array_tags :
    (k : ℕ)
    → ((4 * k + 2 == 0) ≡ false)
      × (is_marked_second (4 * k + 2) ≡ true)
      × (unmark_second (4 * k + 2) ≡ 4 * k)
      × (is_marked (4 * k + 2) ≡ false)
      × (mark_second (4 * k) ≡ 4 * k + 2)
unfolding is_marked is_marked_second unmark_second mark_second
array_tags k = ground arith

pub leaf_tags :
    (k : ℕ)
    → 0 < k
    → ((4 * k == 0) ≡ false)
      × (is_marked_second (4 * k) ≡ false)
      × (is_marked (4 * k) ≡ false)
      × (unmark (4 * k) ≡ 4 * k)
      × (mark (4 * k) ≡ 4 * k + 1)
unfolding is_marked is_marked_second unmark mark
leaf_tags k h = ground arith

pub mark_tags :
    (k : ℕ)
    → ((4 * k + 1 == 0) ≡ false)
      × (is_marked_second (4 * k + 1) ≡ false)
      × (is_marked (4 * k + 1) ≡ true)
      × (unmark (4 * k + 1) ≡ 4 * k)
unfolding is_marked is_marked_second unmark
mark_tags k = ground arith
