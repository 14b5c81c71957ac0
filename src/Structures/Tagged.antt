-- ===== src/Structures/Tagged.antt =====
-- Pointers with two mark bits (src/structures/hash/atomic_markable.rs and
-- src/structures/utils/atomic_markable.rs). A pointer is its `usize`: `p & 1` is `p % 2`, and
-- `p & !2` takes bit 1 away. An allocated node lies at a multiple of 4.
mod Tests
use rustcurrent.Prelude.{
  ℕ, zero, suc, ◌+◌, ◌-◌, ◌*◌, ◌/◌, ◌%◌, ◌^◌, ◌≡◌, refl, arith, Bool, true, false, not, ◌&&◌, ◌==◌,
  if◌then◌else◌,
}

unfoldable pub is_marked : ℕ → Bool
is_marked p = not (p % 2 == 0)

unfoldable pub unmark : ℕ → ℕ
unmark p = p - p % 2

unfoldable pub mark : ℕ → ℕ
mark p = p - p % 2 + 1

unfoldable pub is_marked_second : ℕ → Bool
is_marked_second p = not (p / 2 % 2 == 0)

unfoldable pub unmark_second : ℕ → ℕ
unmark_second p = p - p / 2 % 2 * 2

unfoldable pub mark_second : ℕ → ℕ
mark_second p = p - p / 2 % 2 * 2 + 2

-- The drop of a slot of the hash map frees what it points at, with both marks taken away.
abbrev pub dropped_by_map : ℕ → ℕ
dropped_by_map p = unmark (unmark_second p)

-- The drop of a slot of the segmented queue frees what it points at only if it is not marked.
abbrev pub dropped_by_queue : ℕ → ℕ
dropped_by_queue p = if not (is_marked p) && not (p == 0) then p else 0

-- The marks are independent of each other and of the address, and each is undone by its unmarking:
-- for a node at a multiple of 4 the marks say what was set, and the address comes back.
pub mark-unmark :
    (a : ℕ)
    → a % 4 ≡ 0
    → (is_marked (mark a) ≡ true)
      × (is_marked_second (mark a) ≡ false)
      × (unmark (mark a) ≡ a)
      × (is_marked (mark_second a) ≡ false)
      × (is_marked_second (mark_second a) ≡ true)
      × (unmark_second (mark_second a) ≡ a)
      × (is_marked (mark (mark_second a)) ≡ true)
      × (is_marked_second (mark (mark_second a)) ≡ true)
      × (dropped_by_map (mark (mark_second a)) ≡ a)
unfolding is_marked is_marked_second mark mark_second unmark unmark_second
mark-unmark a h = ground arith
