-- ===== src/Structures/SegQueue/Dequeue.antt =====
-- `dequeue` of the segmented queue with its attempts.
use Prim.Native.Nat.{bit_and}
use rustcurrent.Prelude.{
  ℕ, zero, suc, ◌-◌, Bool, true, false, not, ◌||◌, Option, none, some, ◌==◌, if◌then◌else◌, Result,
  ok, err,
}
use rustcurrent.Concurrent.{Prog, ret, spin, ◌>>=◌, ◌>>◌, load, modify, compare_exchange, unwrap}
use rustcurrent.Memory.Hazard
use rustcurrent.Memory.Hazard.{Manager, new_manager}
use rustcurrent.Structures.Tagged.{is_marked, mark}
use rustcurrent.Structures.Order
use rustcurrent.Structures.Order.{OrderGeneratorIterator, new_generator, iter}
use rustcurrent.Structures.SegQueue.{
  SegQueue, set_head, set_tail, set_item, of_manager, get_cell, exchange_cell,
}

-- What the loop of `try_dequeue` ends with: a value, or whether it saw an empty cell.
pub data Search (T : Type 0) : Type 0 where
  got : T → Search T
  missed : (has_empty : Bool) → Search T

module _ {T : Type 0} where
  abbrev taken_or :
      (item_ptr : ℕ) → Prog (SegQueue T) (Search T) → Result ℕ ℕ → Prog (SegQueue T) (Search T)
  taken_or item_ptr rest (ok _) = do
    value ← load (λ s. s.item item_ptr)
    datum ← unwrap value
    modify (set_item item_ptr none)
    ret (got datum)
  taken_or item_ptr rest (err _) = rest

  -- One round of the loop of `try_dequeue`.
  abbrev pub take_cell :
      (head : ℕ) (has_empty : Bool)
      (rest : Bool → OrderGeneratorIterator → Prog (SegQueue T) (Search T))
      → Option ℕ × OrderGeneratorIterator
      → Prog (SegQueue T) (Search T)
  take_cell head has_empty rest (none, it) = ret (missed has_empty)
  take_cell head has_empty rest (some index, it) = do
    item_ptr ← get_cell head index
    if item_ptr == 0
        then rest true it
        else (if is_marked item_ptr then rest has_empty it else (do
          swapped ← exchange_cell head index item_ptr (mark item_ptr)
          taken_or item_ptr (rest has_empty it) swapped))

  unfoldable pub take_loop :
      (n : ℕ) → (head : ℕ) → Bool → OrderGeneratorIterator → Prog (SegQueue T) (Search T)
  take_loop zero head has_empty it = spin
  take_loop (suc n) head has_empty it = take_cell head has_empty (take_loop n head) (Order.next it)

  -- `while tail != self.tail.load(Acquire) { … }`
  unfoldable pub settle_tail : (rounds tid n : ℕ) → (tail : ℕ) → Prog (SegQueue T) ℕ
  settle_tail rounds tid zero tail = spin
  settle_tail rounds tid (suc n) tail = do
    now ← load (λ s. s.tail)
    if tail == now then ret tail else do
      tail' ← load (λ s. s.tail)
      of_manager (Hazard.protect rounds tid tail' 1)
      settle_tail rounds tid n tail'

  abbrev retired : (rounds tid head_old : ℕ) → Result ℕ ℕ → Prog (SegQueue T) (Unit {0})
  retired rounds tid head_old (ok _) = of_manager (Hazard.retire rounds tid head_old 0)
  retired rounds tid head_old (err _) = ret tt

  unfoldable pub move_head : (rounds tid head_old : ℕ) → Prog (SegQueue T) (Unit {0})
  move_head rounds tid head_old = do
    head_next ← load (λ s. (s.segment head_old).next)
    swapped ← compare_exchange (λ s. s.head) set_head head_old head_next
    retired rounds tid head_old swapped

  unfoldable pub advance_head : (rounds tid head_old : ℕ) → Prog (SegQueue T) (Unit {0})
  unfolding settle_tail move_head
  advance_head rounds tid head_old = do
    head ← load (λ s. s.head)
    if not (head_old == head) then ret tt else do
      first ← load (λ s. s.tail)
      of_manager (Hazard.protect rounds tid first 1)
      tail ← settle_tail rounds tid rounds first
      if tail == head_old
          then (do
            tail_next ← load (λ s. (s.segment tail).next)
            if tail_next == 0 then ret tt else do
              compare_exchange (λ s. s.tail) set_tail tail tail_next
              move_head rounds tid head_old)
          else move_head rounds tid head_old

  abbrev pub after_search :
      (rounds tid head : ℕ) → Search T → Prog (SegQueue T) (Result (Option T) (Unit {0}))
  after_search rounds tid head (got datum) = ret (ok (some datum))
  after_search rounds tid head (missed has_empty) = do
    tail ← load (λ s. s.tail)
    if (head == tail) || has_empty
        then ret (ok none)
        else advance_head rounds tid head >> ret (err tt)

  unfoldable pub try_dequeue :
      (rounds tid rand : ℕ) → Prog (SegQueue T) (Result (Option T) (Unit {0}))
  unfolding take_loop advance_head
  try_dequeue rounds tid rand = do
    head ← load (λ s. s.head)
    of_manager (Hazard.protect rounds tid head 0)
    now ← load (λ s. s.head)
    if not (head == now) then ret (err tt) else do
      k ← load (λ s. s.k)
      found ← take_loop (suc k) head false (iter (new_generator (bit_and rand (k - 1)) k))
      after_search rounds tid head found

  -- `dequeue` repeats the attempt, each time with another random number.
  unfoldable pub dequeue : (rounds tid n : ℕ) (rand : ℕ → ℕ) → Prog (SegQueue T) (Option T)
  unfolding try_dequeue
  dequeue rounds tid zero rand = spin
  dequeue rounds tid (suc n) rand = do
    result ← try_dequeue rounds tid (rand n)
    elim result [ ok val ↦ ret val | err _ ↦ dequeue rounds tid n rand ]
