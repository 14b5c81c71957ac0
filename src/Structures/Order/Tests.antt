-- ===== src/Structures/Order/Tests.antt =====
-- One order of four cells.
use rustcurrent.Prelude.{ℕ, ◌<◌, ◌≡◌, refl, arith, true, some, List, [], ◌∷◌, has, length}
use rustcurrent.Structures.Order.{new_generator, iter, visited, visited_complete}

four_cells : visited 5 (iter (new_generator 2 4)) ≡ some (2 ∷ 3 ∷ 0 ∷ 1 ∷ [])
unfolding visited
four_cells = refl

visited_complete_example :
    (is : List ℕ) × (visited 33 (iter (new_generator 12 32)) ≡ some is)
    × (length is ≡ 32)
    × ((i : ℕ) → i < 32 → has i is ≡ true)
visited_complete_example = visited_complete 12 32 5 refl (omega arith)
