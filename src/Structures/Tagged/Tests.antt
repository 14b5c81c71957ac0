-- ===== src/Structures/Tagged/Tests.antt =====
-- The arithmetic of the tagged pointers against the bit operations, and one address.
use Prim.Native.Nat.{bit_and, bit_or}
use rustcurrent.Prelude.{
  ℕ, zero, suc, ◌-◌, ◌*◌, ◌/◌, ◌%◌, ◌^◌, ◌≡◌, refl, Bool, true, false, ◌&&◌, ◌==◌,
}
use rustcurrent.Structures.Tagged.{
  is_marked, unmark, mark, is_marked_second, unmark_second, mark_second, dropped_by_map,
  mark-unmark,
}

all_below : ℕ → (ℕ → Bool) → Bool
all_below zero p = true
all_below (suc n) p = p n && all_below n p

-- The arithmetic forms are the bit operations of the source, here on the words below 256.
tags_are_bits :
    all_below 256 (λ p.
      (unmark p == bit_and p (2 ^ 64 - 2))
      && (mark p == bit_or p 1)
      && (unmark_second p == bit_and p (2 ^ 64 - 3))
      && (mark_second p == bit_or p 2)
      && (p % 2 == bit_and p 1)
      && (p / 2 % 2 * 2 == bit_and p 2))
    ≡ true
unfolding all_below mark mark_second unmark unmark_second
tags_are_bits = refl

mark-unmark_example :
    (is_marked (mark 0x1230) ≡ true)
    × (is_marked_second (mark 0x1230) ≡ false)
    × (unmark (mark 0x1230) ≡ 0x1230)
    × (is_marked (mark_second 0x1230) ≡ false)
    × (is_marked_second (mark_second 0x1230) ≡ true)
    × (unmark_second (mark_second 0x1230) ≡ 0x1230)
    × (is_marked (mark (mark_second 0x1230)) ≡ true)
    × (is_marked_second (mark (mark_second 0x1230)) ≡ true)
    × (dropped_by_map (mark (mark_second 0x1230)) ≡ 0x1230)
mark-unmark_example = mark-unmark 0x1230 refl
