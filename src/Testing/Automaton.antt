-- ===== src/Testing/Automaton.antt =====
-- The configurations of the solver (src/testing/automaton.rs): a sequential object, and what each
-- thread is doing. An index out of bounds and a `panic!` are `panics`.
use Prim.Native.String.{String}
use text.Mathlib.Text.{◌==◌ as str_eq}
use rustcurrent.Prelude.{
  ℕ, Bool, true, false, ◌&&◌, Option, none, some, List, get_elem?, set, replicate, length, ltb,
  if◌then◌else◌, Eq, option_beq, Result, ok, err, Outcome, returns, panics, ◌>>=◌,
}
use rustcurrent.Testing.TimeStamped.{Op, InvokeEvent}

pub data ThreadState (Seq Ret : Type 0) : Type 0 where
  called : String → Op Seq Ret → (res arg : Option Ret) → ThreadState Seq Ret
  linearized : Option Ret → ThreadState Seq Ret
  returned : ThreadState Seq Ret

pub record StatesWrapper (Seq Ret : Type 0) : Type 0 where
  pub states : List (ThreadState Seq Ret)

pub record Configuration (Seq Ret : Type 0) : Type 0 where
  pub sequential : Seq
  pub states : StatesWrapper Seq Ret

module _ {Seq Ret : Type 0} where
  -- `&self.states[thread_id]`
  abbrev pub state_at : StatesWrapper Seq Ret → ℕ → Outcome (ThreadState Seq Ret)
  state_at w t = elim (get_elem? w.states t) [ none ↦ panics | some s ↦ returns s ]

  -- `new_states[thread_id] = state` on a clone of the states
  abbrev pub with_state :
      StatesWrapper Seq Ret → ℕ → ThreadState Seq Ret → Outcome (StatesWrapper Seq Ret)
  with_state w t s =
      if ltb t (length w.states) then returns (record { states = set w.states t s }) else panics

  unfoldable pub new_states : ℕ → StatesWrapper Seq Ret
  new_states num_threads = record { states = replicate num_threads returned }

  unfoldable pub make_return : StatesWrapper Seq Ret → ℕ → Outcome (StatesWrapper Seq Ret)
  make_return w t = with_state w t returned

  unfoldable pub make_fire_return : StatesWrapper Seq Ret → ℕ → Outcome (StatesWrapper Seq Ret)
  make_fire_return w t = with_state w t returned

  unfoldable pub make_linearize :
      StatesWrapper Seq Ret → ℕ → Option Ret → Outcome (StatesWrapper Seq Ret)
  make_linearize w t result = with_state w t (linearized result)

  abbrev is_linearized : ThreadState Seq Ret → Bool
  is_linearized (linearized _) = true
  is_linearized _ = false

  abbrev is_called : ThreadState Seq Ret → Bool
  is_called (called _ _ _ _) = true
  is_called _ = false

  unfoldable pub new_configuration : Seq → ℕ → Configuration Seq Ret
  unfolding new_states
  new_configuration sequential num_threads = record {
    sequential = sequential;
    states = new_states num_threads;
  }

  unfoldable pub from_invoke :
      Configuration Seq Ret → InvokeEvent Seq Ret → Outcome (Configuration Seq Ret)
  from_invoke c i = do
    w ← with_state c.states i.id (called i.message i.op i.res i.arg)
    returns (record c { states = w })

  unfoldable pub has_called : Configuration Seq Ret → ℕ → Outcome Bool
  has_called c t = do s ← state_at c.states t; returns (is_called s)

  unfoldable pub can_return : Configuration Seq Ret → ℕ → Outcome Bool
  can_return c t = do s ← state_at c.states t; returns (is_linearized s)

module _ {Seq Ret : Type 0} ⦃e : Eq Ret⦄ where
  -- Run the called operation; if it gives the recorded result, go on with the new states.
  abbrev fire :
      Configuration Seq Ret
      → Op Seq Ret
      → (res arg : Option Ret) → (Option Ret → Outcome (StatesWrapper Seq Ret))
      → Outcome (Result (Configuration Seq Ret) (Option Ret))
  fire c op res arg new =
      let (new_seq, new_res) = op c.sequential arg in
      if option_beq new_res res
      then (do w ← new new_res; returns (ok (record { sequential = new_seq; states = w })))
      else returns (err new_res)

  abbrev pub return_from :
      Configuration Seq Ret
      → ℕ
      → ThreadState Seq Ret
      → Outcome (Result (Configuration Seq Ret) (Option Ret))
  return_from c t (linearized _) = do
    w ← make_return c.states t
    returns (ok (record c { states = w }))
  return_from c t (called _ op res arg) = fire c op res arg (λ _. make_fire_return c.states t)
  return_from c t returned = panics

  unfoldable pub try_return :
      Configuration Seq Ret → ℕ → Outcome (Result (Configuration Seq Ret) (Option Ret))
  unfolding make_return make_fire_return
  try_return c t = state_at c.states t >>= return_from c t

  abbrev pub linearize_from :
      Configuration Seq Ret
      → ℕ
      → ThreadState Seq Ret
      → Outcome (Result (Configuration Seq Ret) (Option Ret))
  linearize_from c t (called _ op res arg) = fire c op res arg (make_linearize c.states t)
  linearize_from c t _ = panics

  unfoldable pub try_linearize :
      Configuration Seq Ret → ℕ → Outcome (Result (Configuration Seq Ret) (Option Ret))
  unfolding make_linearize
  try_linearize c t = state_at c.states t >>= linearize_from c t

  -- `PartialEq` for the states of a thread: the operation itself is not compared.
  abbrev pub thread_state_eq : ThreadState Seq Ret → ThreadState Seq Ret → Bool
  thread_state_eq (called msg _ res arg) (called msg2 _ res2 arg2) =
      str_eq msg msg2 && option_beq res res2 && option_beq arg arg2
  thread_state_eq (linearized res) (linearized res2) = option_beq res res2
  thread_state_eq returned returned = true
  thread_state_eq _ _ = false

-- `PartialEq` for configurations: only the sequential objects are compared.
abbrev pub configuration_eq :
    {Seq Ret : Type 0} ⦃e : Eq Seq⦄ → Configuration Seq Ret → Configuration Seq Ret → Bool
configuration_eq ⦃e⦄ a b = e.beq a.sequential b.sequential
