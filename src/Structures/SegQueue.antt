-- ===== src/Structures/SegQueue.antt =====
-- The segmented queue (src/structures/seg_queue.rs), one access to shared memory a step. An address is
-- a number and 0 is null; the address of an item is a multiple of 4, and `item` gives what it holds.
-- A segment has `k` cells, each with a pointer to an item that may be marked as taken. A retired
-- segment keeps its address. The random number of an attempt is an argument.
pub mod Dequeue
pub mod Placed
pub mod Sized
pub mod Taken
mod Tests
use rustcurrent.Prelude.{
  ℕ, zero, suc, ◌+◌, ◌*◌, ◌%◌, ◌-◌, ◌^◌, ◌≡◌, Outcome, returns, panics, Bool, true, false, not,
  ◌||◌, Option, none, some, update, ltb, ◌==◌, if◌then◌else◌, Result, ok, err,
}
use Prim.Native.Nat.{bit_and}
use rustcurrent.Concurrent.{
  Prog, ret, act, crash, spin, ◌>>=◌, ◌>>◌, load, modify, compare_exchange, unwrap, zoom,
}
use rustcurrent.Memory.Hazard
use rustcurrent.Memory.Hazard.{Manager, new_manager}
use rustcurrent.Structures.Tagged.{is_marked, mark}
use rustcurrent.Structures.Order
use rustcurrent.Structures.Order.{OrderGeneratorIterator, new_generator, iter}

pub record Segment : Type 0 where
  pub cells : ℕ → ℕ
  pub next : ℕ

pub record SegQueue (T : Type 0) : Type 0 where
  pub head : ℕ
  pub tail : ℕ
  pub manager : Manager
  pub segment : ℕ → Segment
  pub last : ℕ
  pub item : ℕ → Option T
  pub last_item : ℕ
  pub k : ℕ

abbrev pub new_segment : Segment
new_segment = record { cells = λ _. 0; next = 0 }

-- `!n` on a word of 64 bits.
abbrev pub complement : ℕ → ℕ
complement n = 2 ^ 64 - 1 - n

-- What the constructor builds. The first segment has address 1.
abbrev pub built : {T : Type 0} → (k : ℕ) → SegQueue T
built k = record {
  head = 1;
  tail = 1;
  manager = new_manager 100 2;
  segment = λ _. new_segment;
  last = 1;
  item = λ _. none;
  last_item = 0;
  k = k;
}

-- `k - 1` wraps around at 0, as in a build without overflow checks.
abbrev pub new_seg_queue : {T : Type 0} → (k : ℕ) → Outcome (SegQueue T)
new_seg_queue k =
    if not (bit_and k (complement ((k + 2 ^ 64 - 1) % 2 ^ 64)) == k)
    then panics
    else returns (built k)

module _ {T : Type 0} where
  abbrev pub set_head : ℕ → SegQueue T → SegQueue T
  set_head p s = record s { head = p }

  abbrev pub set_tail : ℕ → SegQueue T → SegQueue T
  set_tail p s = record s { tail = p }

  abbrev pub set_next : ℕ → ℕ → SegQueue T → SegQueue T
  set_next a p s = record s { segment = update s.segment a (record (s.segment a) { next = p }) }

  abbrev pub set_cell : ℕ → ℕ → ℕ → SegQueue T → SegQueue T
  set_cell a i p s = record s {
    segment = update s.segment a (record (s.segment a) { cells = update (s.segment a).cells i p });
  }

  abbrev pub set_item : ℕ → Option T → SegQueue T → SegQueue T
  set_item p v s = record s { item = update s.item p v }

  abbrev pub set_manager : Manager → SegQueue T → SegQueue T
  set_manager m s = record s { manager = m }

  abbrev pub of_manager : {A : Type 0} → Prog Manager A → Prog (SegQueue T) A
  of_manager p = zoom (λ s. s.manager) set_manager p

  -- `Box::new(data)`
  unfoldable pub box_item : T → Prog (SegQueue T) ℕ
  box_item datum =
      act
        (λ s. record s {
          item = update s.item (4 * (s.last_item + 1)) (some datum);
          last_item = s.last_item + 1;
        })
        (λ s. ret (4 * (s.last_item + 1)))

  unfoldable pub box_segment : Prog (SegQueue T) ℕ
  box_segment =
      act (λ s. record s { segment = update s.segment (s.last + 1) new_segment; last = s.last + 1 })
        (λ s. ret (s.last + 1))

  -- `cells[index]`, which panics out of bounds.
  abbrev pub at_cell : {A : Type 0} → ℕ → Prog (SegQueue T) A → Prog (SegQueue T) A
  at_cell index p = act (λ s. s) (λ s. if ltb index s.k then p else crash)

  abbrev pub get_cell : (segment index : ℕ) → Prog (SegQueue T) ℕ
  get_cell a i = at_cell i (load (λ s. (s.segment a).cells i))

  abbrev pub exchange_cell : (segment index current new : ℕ) → Prog (SegQueue T) (Result ℕ ℕ)
  exchange_cell a i current new =
      compare_exchange (λ s. (s.segment a).cells i) (set_cell a i) current new

  abbrev placed_or : Prog (SegQueue T) Bool → Result ℕ ℕ → Prog (SegQueue T) Bool
  placed_or rest (ok _) = ret true
  placed_or rest (err _) = rest

  -- One round of the loop of `try_enqueue`; `rest` is the next.
  abbrev pub place :
      (tail datum : ℕ) (rest : OrderGeneratorIterator → Prog (SegQueue T) Bool)
      → Option ℕ × OrderGeneratorIterator
      → Prog (SegQueue T) Bool
  place tail datum rest (none, it) = ret false
  place tail datum rest (some index, it) = do
    cell ← get_cell tail index
    if cell == 0
        then (do swapped ← exchange_cell tail index 0 datum; placed_or (rest it) swapped)
        else rest it

  unfoldable pub place_loop :
      (n : ℕ) → (tail datum : ℕ) → OrderGeneratorIterator → Prog (SegQueue T) Bool
  place_loop zero tail datum it = spin
  place_loop (suc n) tail datum it = place tail datum (place_loop n tail datum) (Order.next it)

  abbrev linked : (tail_old new_seg_ptr : ℕ) → Result ℕ ℕ → Prog (SegQueue T) (Unit {0})
  linked tail_old new_seg_ptr (ok _) =
      compare_exchange (λ s. s.tail) set_tail tail_old new_seg_ptr >> ret tt
  linked tail_old new_seg_ptr (err _) = ret tt

  unfoldable pub advance_tail : (tail_old : ℕ) → Prog (SegQueue T) (Unit {0})
  unfolding box_segment
  advance_tail tail_old = do
    tail ← load (λ s. s.tail)
    if not (tail_old == tail) then ret tt else do
      next ← load (λ s. (s.segment tail_old).next)
      if next == 0
          then (do
            new_seg_ptr ← box_segment
            swapped ←
                compare_exchange (λ s. (s.segment tail_old).next) (set_next tail_old) next
                  new_seg_ptr
            linked tail_old new_seg_ptr swapped)
          else compare_exchange (λ s. s.tail) set_tail tail_old next >> ret tt

  -- The attempt gives its box back when it fails.
  unfoldable pub try_enqueue : (rounds tid rand : ℕ) → ℕ → Prog (SegQueue T) (Result (Unit {0}) ℕ)
  unfolding place_loop advance_tail
  try_enqueue rounds tid rand datum = do
    tail ← load (λ s. s.tail)
    of_manager (Hazard.protect rounds tid tail 0)
    now ← load (λ s. s.tail)
    if not (tail == now) then of_manager (Hazard.unprotect rounds tid 0) >> ret (err datum) else do
      k ← load (λ s. s.k)
      placed ← place_loop (suc k) tail datum (iter (new_generator (bit_and rand (k - 1)) k))
      if placed then ret (ok tt) else advance_tail tail >> ret (err datum)

  -- `enqueue` repeats the attempt, each time with another random number.
  unfoldable pub enqueue_loop : (rounds tid n : ℕ) (rand : ℕ → ℕ) → ℕ → Prog (SegQueue T) (Unit {0})
  unfolding try_enqueue
  enqueue_loop rounds tid zero rand data_box = spin
  enqueue_loop rounds tid (suc n) rand data_box = do
    result ← try_enqueue rounds tid (rand n) data_box
    elim result [ ok _ ↦ ret tt | err val ↦ enqueue_loop rounds tid n rand val ]

  unfoldable pub enqueue : (rounds tid n : ℕ) (rand : ℕ → ℕ) → T → Prog (SegQueue T) (Unit {0})
  unfolding box_item enqueue_loop
  enqueue rounds tid n rand datum = do
    data_box ← box_item datum
    enqueue_loop rounds tid n rand data_box
