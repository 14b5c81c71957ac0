-- ===== src/Structures/SegQueue/Tests.antt =====
-- The constructor, and attempts on a segmented queue with 2 cells a segment, by thread 1 with 3 rounds.
use rustcurrent.Prelude.{
  ℕ, zero, suc, ◌<◌, ◌≡◌, ◌≢◌, ◌⊎◌, refl, arith, false, returns, panics, some, ◌==◌,
}
use rustcurrent.Concurrent.Returns.{Returns}
use rustcurrent.Structures.Tagged.{is_marked}
use rustcurrent.Structures.Map.Alone.Samples.{served, served-Ready}
use rustcurrent.Structures.SegQueue.{
  SegQueue, built, new_seg_queue, set_cell, set_item, set_manager, try_enqueue,
}
use rustcurrent.Structures.SegQueue.Dequeue.{try_dequeue}
use rustcurrent.Structures.SegQueue.Placed.{Enqueued, try_enqueue-Enqueued}
use rustcurrent.Structures.SegQueue.Sized.{IsPower, new_seg_queue-sized}
use rustcurrent.Structures.SegQueue.Taken.{Dequeued, try_dequeue-Dequeued}

-- The item 9 has address 4 and is in the first cell.
abbrev nine : SegQueue ℕ
nine = set_manager served (set_item 4 (some 9) (set_cell 1 0 4 (built 2)))

size_of_a_power : new_seg_queue {T = ℕ} 2 ≡ returns (built 2)
size_of_a_power = refl

size_of_no_power : new_seg_queue {T = ℕ} 6 ≡ panics
size_of_no_power = refl

nine_items :
    (i : ℕ)
    → i < 2
    → (nine.segment 1).cells i ≢ 0
    → is_marked ((nine.segment 1).cells i) ≡ false
    → (v : ℕ) × (nine.item ((nine.segment 1).cells i) ≡ some v)
nine_items zero inside used unmarked = (9, refl)
nine_items (suc i) inside used unmarked =
    let off : (0 == suc i) ≡ false = ground arith in absurd (used (rw off refl))

try_enqueue-Enqueued_example : Returns (Enqueued 3 1 8 nine) (try_enqueue 3 1 5 8) nine
try_enqueue-Enqueued_example = try_enqueue-Enqueued 3 1 8 nine 5 1 served-Ready refl (omega arith)

try_dequeue-Dequeued_example : Returns (Dequeued 3 1 nine) (try_dequeue 3 1 5) nine
try_dequeue-Dequeued_example = try_dequeue-Dequeued 3 1 nine 5 1 served-Ready refl refl nine_items

new_seg_queue-sized_example :
    (IsPower 6 × (new_seg_queue {T = ℕ} 6 ≡ returns (built 6)))
    ⊎ (¬ (IsPower 6) × (new_seg_queue {T = ℕ} 6 ≡ panics))
new_seg_queue-sized_example = new_seg_queue-sized 6 (omega arith) (omega arith)
