-- ===== src/Structures/Order.antt =====
-- The order in which the segmented queue tries the cells of a segment (`OrderGenerator` of
-- src/structures/seg_queue.rs).
pub mod Mask
mod Tests
use Prim.Native.Nat.{bit_and}
use rustcurrent.Prelude.{
  ℕ, zero, suc, ◌+◌, ◌*◌, ◌-◌, ◌%◌, ◌^◌, ◌<◌, ◌≤◌, ◌≡◌, refl, sym, ap, ◌∙◌, inl, inr, arith, Bool,
  true, false, ◌&&◌, Option, none, some, map, List, [], ◌∷◌, has, length, ltb, ltb→lt, ◌==◌, ==_iff,
  if◌then◌else◌, Bool-cases,
}
use mathlib.Core.Option
use rustcurrent.Structures.Order.Mask.{bit_and-mask}
use native.Mathlib.Nat.{mod-lt, mod-eq_of_lt, add-mul-mod_self_left}

pub record OrderGenerator : Type 0 where
  pub start : ℕ
  pub size : ℕ

pub record OrderGeneratorIterator : Type 0 where
  pub current : ℕ
  pub start : ℕ
  pub bitmask : ℕ
  pub started : Bool

abbrev pub new_generator : (start size : ℕ) → OrderGenerator
new_generator start size = record { start = start; size = size }

abbrev pub iter : OrderGenerator → OrderGeneratorIterator
iter g = record { current = g.start; start = g.start; bitmask = g.size - 1; started = false }

abbrev pub next : OrderGeneratorIterator → Option ℕ × OrderGeneratorIterator
next it = if (bit_and it.current it.bitmask == it.start) && it.started then (none, it) else (
  some (bit_and it.current it.bitmask),
  record it { current = it.current + 1; started = true },
)

abbrev visit_rest :
    (OrderGeneratorIterator → Option (List ℕ)) → Option ℕ × OrderGeneratorIterator → Option (List ℕ)
visit_rest rest (none, it) = some []
visit_rest rest (some i, it) = Option.map (λ is. i ∷ is) (rest it)

-- What a `for` loop over the iterator visits, in `fuel` calls of `next`; `none` if they are too few.
unfoldable pub visited : (fuel : ℕ) → OrderGeneratorIterator → Option (List ℕ)
visited zero it = none
visited (suc fuel) it = visit_rest (visited fuel) (next it)

-- The numbers from `from` on, `n` of them, each less `k` once it reaches `k`.
abbrev wrapped : (k from n : ℕ) → List ℕ
wrapped k from zero = []
wrapped k from (suc n) = (if ltb from k then from else from - k) ∷ wrapped k (from + 1) n

mod_wrapped : (k c : ℕ) → c < k + k → c % k ≡ (if ltb c k then c else c - k)
mod_wrapped k c h = elim (Bool-cases (ltb c k)) [
  | inl below ↦ rw below (mod-eq_of_lt (ltb→lt c k below))
  | inr above ↦
      let d = c - k in
      let split : c ≡ d + k * 1 = ground arith in
      let small : d < k = ground arith in
      rw above (ap (λ x. x % k) split ∙ add-mul-mod_self_left d k 1 ∙ mod-eq_of_lt small)
]

visited_rest :
    (k w start n c : ℕ)
    → k ≡ 2 ^ w
    → start < k
    → c + n ≡ start + k
    → start < c
    → visited (suc n) (record { current = c; start = start; bitmask = k - 1; started = true })
      ≡ some (wrapped k c n)
unfolding visited
visited_rest k w start zero c power h e after =
    let back : bit_and c (k - 1) ≡ start =
      bit_and-mask k w c power ∙ mod_wrapped k c (omega arith) ∙ ground arith in
    let stop : ((bit_and c (k - 1) == start) && true) ≡ true = rw back (ground arith) in
    rw (stop, visit_rest)
visited_rest k w start (suc n) c power h e after =
    let at : bit_and c (k - 1) ≡ (if ltb c k then c else c - k) =
      bit_and-mask k w c power ∙ mod_wrapped k c (omega arith) in
    let going : ((bit_and c (k - 1) == start) && true) ≡ false = rw at (ground arith) in
    rw (going, at, visited_rest k w start n (c + 1) power h (omega arith) (omega arith))

length-wrapped : (k c n : ℕ) → length (wrapped k c n) ≡ n
length-wrapped k c zero = refl
length-wrapped k c (suc n) = ap suc (length-wrapped k (c + 1) n)

has-wrapped :
    (k c n j : ℕ) → c ≤ j → j < c + n → has (if ltb j k then j else j - k) (wrapped k c n) ≡ true
has-wrapped k c zero j low high = absurd (omega arith)
has-wrapped k c (suc n) j low high = elim (Bool-cases (c == j)) [
  | inl same ↦ rw (sym ((==_iff c j).0 same)) (ground arith)
  | inr other ↦
      let ih = has-wrapped k (c + 1) n j (ground arith) (omega arith) in
      elim (Bool-cases ((if ltb j k then j else j - k) == (if ltb c k then c else c - k))) [
        | inl t ↦ rw t refl
        | inr f ↦ rw f ih
      ]
]

-- For a size that is a power of 2 and a start below it, the iterator ends after as many indices as
-- the size, and each index below the size is among them: it visits each cell exactly once.
pub visited_complete :
    (start k w : ℕ)
    → k ≡ 2 ^ w
    → start < k
    → (is : List ℕ) × (visited (suc k) (iter (new_generator start k)) ≡ some is)
      × (length is ≡ k)
      × ((i : ℕ) → i < k → has i is ≡ true)
unfolding visited
visited_complete start zero w power h = absurd (omega arith)
visited_complete start (suc m) w power h = (
  start ∷ wrapped (suc m) (start + 1) m,
  (let at : bit_and start (suc m - 1) ≡ start =
        bit_and-mask (suc m) w start power ∙ mod-eq_of_lt h in
      let first : ((bit_and start (suc m - 1) == start) && false) ≡ false = ground arith in
      rw (
        first,
        at,
        visited_rest (suc m) w start m (start + 1) power h (omega arith) (omega arith),
      )),
  ap suc (length-wrapped (suc m) (start + 1) m),
  λ i below. elim (Bool-cases (start == i)) [
    | inl same ↦ ground (arith, same)
    | inr other ↦ elim (Bool-cases (ltb start i)) [
      | inl above ↦
          let found = has-wrapped (suc m) (start + 1) m i (ground arith) (ground arith) in
          ground (arith, found)
      | inr under ↦
          let found = has-wrapped (suc m) (start + 1) m (i + suc m) (ground arith) (ground arith) in
          ground (arith, found)
    ]
  ],
)
