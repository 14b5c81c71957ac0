-- ===== src/Structures/Stack.antt =====
-- The attempts of the Treiber stack (src/structures/stack.rs), one access to shared memory a step.
-- An address is a number and 0 is null. A node that is retired keeps its address: the manager frees
-- it later. The field `data` of a node is `value` here. `Node::default()` is what a popped node is replaced by. The elimination layer, which the
-- loops of `push` and `pop` ask after a failed attempt, is not part of the model.
pub mod Chain
pub mod Linearized
mod Tests
use rustcurrent.Prelude.{
  ℕ, ◌+◌, Bool, not, Option, none, some, update, ◌==◌, if◌then◌else◌, Result, ok, err,
}
use rustcurrent.Concurrent.{Prog, ret, act, ◌>>=◌, ◌>>◌, load, modify, compare_exchange, zoom}
use rustcurrent.Memory.Hazard
use rustcurrent.Memory.Hazard.{Manager, new_manager}

pub record Node (T : Type 0) : Type 0 where
  pub value : Option T
  pub next : ℕ

pub record Stack (T : Type 0) : Type 0 where
  pub head : ℕ
  pub manager : Manager
  pub elimination_on : Bool
  pub node : ℕ → Node T
  pub last : ℕ

abbrev pub pushed : ℕ → Result ℕ ℕ → Result (Unit {0}) ℕ
pushed node_ptr (ok _) = ok tt
pushed node_ptr (err _) = err node_ptr

module _ {T : Type 0} where
  abbrev pub default_node : Node T
  default_node = record { value = none; next = 0 }

  abbrev pub new_node : T → Node T
  new_node val = record { value = some val; next = 0 }

  abbrev pub new_stack : (elimination_on : Bool) → Stack T
  new_stack elimination_on = record {
    head = 0;
    manager = new_manager 200 1;
    elimination_on = elimination_on;
    node = λ _. default_node;
    last = 0;
  }

  abbrev pub set_head : ℕ → Stack T → Stack T
  set_head p s = record s { head = p }

  abbrev pub set_node : ℕ → Node T → Stack T → Stack T
  set_node a n s = record s { node = update s.node a n }

  abbrev pub set_manager : Manager → Stack T → Stack T
  set_manager m s = record s { manager = m }

  -- `Box::into_raw(Box::new(Node::new(val)))`
  unfoldable pub new_as_pointer : T → Prog (Stack T) ℕ
  new_as_pointer val =
      act (λ s. record s { node = update s.node (s.last + 1) (new_node val); last = s.last + 1 })
        (λ s. ret (s.last + 1))

  unfoldable pub try_push : ℕ → Prog (Stack T) (Result (Unit {0}) ℕ)
  try_push node_ptr = do
    old_head ← load (λ s. s.head)
    modify (λ s. set_node node_ptr (record (s.node node_ptr) { next = old_head }) s)
    swapped ← compare_exchange (λ s. s.head) set_head old_head node_ptr
    ret (pushed node_ptr swapped)

  -- `ptr::replace(old_head, Node::default())`
  abbrev pub replace : ℕ → Prog (Stack T) (Node T)
  replace a = act (set_node a default_node) (λ s. ret (s.node a))

  abbrev pub of_manager : {A : Type 0} → Prog Manager A → Prog (Stack T) A
  of_manager p = zoom (λ s. s.manager) set_manager p

  abbrev pub popped : (rounds tid : ℕ) → Result ℕ ℕ → Prog (Stack T) (Result (Option T) (Unit {0}))
  popped rounds tid (err _) = ret (err tt)
  popped rounds tid (ok old_head) = do
    old_head_val ← replace old_head
    of_manager (Hazard.retire rounds tid old_head 0)
    ret (ok old_head_val.value)

  -- `compare_exchange_weak` of the head, which may fail with no reason.
  abbrev pub compare_exchange_weak :
      (spurious : Bool) → (current new : ℕ) → Prog (Stack T) (Result ℕ ℕ)
  compare_exchange_weak spurious current new =
      if spurious
      then act (λ s. s) (λ s. ret (err s.head))
      else compare_exchange (λ s. s.head) set_head current new

  -- `spurious` says whether the exchange at the end fails with no reason.
  unfoldable pub pop_head :
      (spurious : Bool) → (rounds tid : ℕ) → ℕ → Prog (Stack T) (Result (Option T) (Unit {0}))
  pop_head spurious rounds tid old_head = do
    of_manager (Hazard.protect rounds tid old_head 0)
    now ← load (λ s. s.head)
    if not (old_head == now) then ret (err tt) else do
      new_head ← load (λ s. (s.node old_head).next)
      swapped ← compare_exchange_weak spurious old_head new_head
      popped rounds tid swapped

  unfoldable pub try_pop :
      (spurious : Bool) → (rounds tid : ℕ) → Prog (Stack T) (Result (Option T) (Unit {0}))
  unfolding pop_head
  try_pop spurious rounds tid = do
    old_head ← load (λ s. s.head)
    if old_head == 0 then ret (ok none) else pop_head spurious rounds tid old_head
