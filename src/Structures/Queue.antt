-- ===== src/Structures/Queue.antt =====
-- The Michael-Scott queue (src/structures/queue.rs), one access to shared memory a
-- step. An address is a number and 0 is null. The head points at a dummy node, whose successors hold
-- the values. Nodes have the shape of those of the stack, and a retired node keeps its address. The
-- pauses of `enqueue` and `dequeue` between their attempts are left out.
pub mod Dequeue
pub mod Enqueue
mod Tests
use rustcurrent.Prelude.{
  ℕ, zero, suc, ◌+◌, not, Option, none, some, update, ◌==◌, if◌then◌else◌, Result, ok, err,
}
use rustcurrent.Concurrent.{Prog, ret, act, spin, ◌>>=◌, ◌>>◌, load, compare_exchange, zoom}
use rustcurrent.Memory.Hazard
use rustcurrent.Memory.Hazard.{Manager, new_manager}
use rustcurrent.Structures.Stack.{Node}

pub record Queue (T : Type 0) : Type 0 where
  pub head : ℕ
  pub tail : ℕ
  pub manager : Manager
  pub node : ℕ → Node T
  pub last : ℕ

-- `try_enqueue` gives its node back when it fails.
abbrev pub linked : ℕ → Result ℕ ℕ → Result (Unit {0}) ℕ
linked node_ptr (ok _) = ok tt
linked node_ptr (err _) = err node_ptr

module _ {T : Type 0} where
  abbrev pub new_dummy_node : Node T
  new_dummy_node = record { value = none; next = 0 }

  abbrev pub new_node : T → Node T
  new_node value = record { value = some value; next = 0 }

  -- The dummy node has address 1.
  abbrev pub new_queue : Queue T
  new_queue = record {
    head = 1;
    tail = 1;
    manager = new_manager 100 2;
    node = λ _. new_dummy_node;
    last = 1;
  }

  abbrev pub set_head : ℕ → Queue T → Queue T
  set_head p s = record s { head = p }

  abbrev pub set_tail : ℕ → Queue T → Queue T
  set_tail p s = record s { tail = p }

  abbrev pub set_next : ℕ → ℕ → Queue T → Queue T
  set_next a p s = record s { node = update s.node a (record (s.node a) { next = p }) }

  abbrev pub set_manager : Manager → Queue T → Queue T
  set_manager m s = record s { manager = m }

  abbrev pub of_manager : {A : Type 0} → Prog Manager A → Prog (Queue T) A
  of_manager p = zoom (λ s. s.manager) set_manager p

  -- `Box::new(Node::new(val))`
  unfoldable pub box_node : T → Prog (Queue T) ℕ
  box_node value =
      act (λ s. record s { node = update s.node (s.last + 1) (new_node value); last = s.last + 1 })
        (λ s. ret (s.last + 1))

  -- `let _ = self.tail.compare_exchange(tail, next, …)`
  abbrev pub swing_tail : (tail next : ℕ) → Prog (Queue T) (Result ℕ ℕ)
  swing_tail tail next = compare_exchange (λ s. s.tail) set_tail tail next

  -- After the exchange of the last link: on success the tail follows.
  abbrev pub enqueued : (tail node_ptr : ℕ) → Result ℕ ℕ → Prog (Queue T) (Result (Unit {0}) ℕ)
  enqueued tail node_ptr (ok _) = do swing_tail tail node_ptr; ret (ok tt)
  enqueued tail node_ptr (err _) = ret (err node_ptr)

  unfoldable pub try_enqueue : (rounds tid : ℕ) → ℕ → Prog (Queue T) (Result (Unit {0}) ℕ)
  try_enqueue rounds tid val = do
    tail ← load (λ s. s.tail)
    of_manager (Hazard.protect rounds tid tail 0)
    now ← load (λ s. s.tail)
    if not (tail == now) then ret (err val) else do
      next ← load (λ s. (s.node tail).next)
      if not (next == 0) then (do swing_tail tail next; ret (err val)) else (do
        swapped ← compare_exchange (λ s. (s.node tail).next) (set_next tail) 0 val
        enqueued tail val swapped)

  -- After the exchange of the head.
  abbrev pub dequeued :
      (rounds tid head next : ℕ) → Result ℕ ℕ → Prog (Queue T) (Result (Option T) (Unit {0}))
  dequeued rounds tid head next (err _) = ret (err tt)
  dequeued rounds tid head next (ok _) = do
    node ← load (λ s. s.node next)
    of_manager (Hazard.retire rounds tid head 0)
    ret (ok node.value)

  -- The end of `try_dequeue`, where `next` is the link that was read.
  unfoldable pub take_first :
      (rounds tid head next : ℕ) → Prog (Queue T) (Result (Option T) (Unit {0}))
  take_first rounds tid head next = do
    tail ← load (λ s. s.tail)
    if next == 0
        then ret (ok none)
        else (if head == tail then (do swing_tail tail next; ret (err tt)) else (do
          swapped ← compare_exchange (λ s. s.head) set_head head next
          dequeued rounds tid head next swapped))

  unfoldable pub try_dequeue : (rounds tid : ℕ) → Prog (Queue T) (Result (Option T) (Unit {0}))
  unfolding take_first
  try_dequeue rounds tid = do
    head ← load (λ s. s.head)
    of_manager (Hazard.protect rounds tid head 0)
    now ← load (λ s. s.head)
    if not (head == now) then ret (err tt) else do
      next ← load (λ s. (s.node head).next)
      of_manager (Hazard.protect rounds tid next 1)
      again ← load (λ s. (s.node head).next)
      if not (next == again) then ret (err tt) else take_first rounds tid head next

  -- `enqueue` and `dequeue` repeat the attempt, `n` times at most.
  unfoldable pub enqueue_loop : (rounds tid n : ℕ) → ℕ → Prog (Queue T) (Unit {0})
  unfolding try_enqueue
  enqueue_loop rounds tid zero node = spin
  enqueue_loop rounds tid (suc n) node = do
    result ← try_enqueue rounds tid node
    elim result [ ok _ ↦ ret tt | err old_node ↦ enqueue_loop rounds tid n old_node ]

  unfoldable pub enqueue : (rounds tid n : ℕ) → T → Prog (Queue T) (Unit {0})
  unfolding box_node enqueue_loop
  enqueue rounds tid n val = do node ← box_node val; enqueue_loop rounds tid n node

  unfoldable pub dequeue : (rounds tid n : ℕ) → Prog (Queue T) (Option T)
  unfolding try_dequeue
  dequeue rounds tid zero = spin
  dequeue rounds tid (suc n) = do
    result ← try_dequeue rounds tid
    elim result [ ok val ↦ ret val | err _ ↦ dequeue rounds tid n ]
