-- ===== src/Testing/Solver.antt =====
-- The solver of the linearizability tester (`next_lin_attempt` and `solve` of
-- src/testing/linearizability_tester.rs): a depth-first search over configurations. The hash set
-- `seen` is the standard library's and enters as the section's parameter: `insert` says whether
-- the node was new. The vector `stack` has its last element first here.
mod Tests
mod Tracking
pub mod Soundness
pub mod Termination
use rustcurrent.Prelude.{
  ℕ, zero, suc, ◌+◌, Bool, true, false, not, ◌&&◌, ◌||◌, Option, none, some, List, [], ◌∷◌, map,
  get_elem?, length, is_some, ltb, ◌==◌, if◌then◌else◌, Eq, Result, ok, err, Outcome, returns,
  panics, ◌>>=◌,
}
use rustcurrent.Testing.TimeStamped.{Event, invoke, return, TimeStamped}
use rustcurrent.Testing.Automaton.{
  Configuration, new_configuration, from_invoke, has_called, can_return, try_return, try_linearize,
}

pub data Node (Seq Ret : Type 0) : Type 0 where
  history_event : Configuration Seq Ret → ℕ → Node Seq Ret
  lin_attempt : Configuration Seq Ret → (id start event_id : ℕ) → Node Seq Ret

pub data LinearizabilityResult : Type 0 where
  success failure timed_out : LinearizabilityResult

-- The variables of the loop in `solve`.
pub record Search (Seq Ret Seen : Type 0) : Type 0 where
  pub current : Option (Node Seq Ret)
  pub stack : List (Option (Node Seq Ret))
  pub seen : Seen

-- One turn of the loop goes on, or returns from `solve`.
pub data Turn (Seq Ret Seen : Type 0) : Type 0 where
  go_on : Search Seq Ret Seen → Turn Seq Ret Seen
  finish : LinearizabilityResult → Turn Seq Ret Seen

pub data Run : Type 0 where
  finished : LinearizabilityResult → Run
  panicked : Run
  out_of_fuel : Run

-- The thread to try after `start` when `id` is to return.
unfoldable pub next_thread : (id start : ℕ) → ℕ
next_thread id start =
    if (id == start) && not (start == 0)
    then 0
    else (if not (start + 1 == id) then start + 1 else start + 2)

module _ {Seq Ret : Type 0} where
  unfoldable pub next_lin_attempt :
      (num_threads : ℕ) → Configuration Seq Ret → (id start event_id : ℕ) → Option (Node Seq Ret)
  next_lin_attempt num_threads config id start event_id =
      if ltb (next_thread id start) num_threads
      then some (lin_attempt config id (next_thread id start) event_id)
      else none

  abbrev pub push_some :
      Option (Node Seq Ret) → List (Option (Node Seq Ret)) → List (Option (Node Seq Ret))
  push_some next stack = if is_some next then next ∷ stack else stack

module _ {Seq Ret Seen : Type 0} (insert : Option (Node Seq Ret) → Seen → Bool × Seen) where
  -- `current = node; if !seen.insert(current.clone()) { current = None }`
  abbrev pub enter : Node Seq Ret → List (Option (Node Seq Ret)) → Seen → Turn Seq Ret Seen
  enter node stack seen =
      let (fresh, seen') = insert (some node) seen in
      go_on (record { current = if fresh then some node else none; stack = stack; seen = seen' })

  abbrev pub handle_event :
      Configuration Seq Ret
      → ℕ
      → List (Option (Node Seq Ret))
      → Seen
      → Event Seq Ret
      → Outcome (Turn Seq Ret Seen)
  handle_event config event_id stack seen (invoke i) = do
    new_config ← from_invoke config i
    returns (enter (history_event new_config (event_id + 1)) stack seen)
  handle_event config event_id stack seen (return r) =
      let current = some (lin_attempt config r.id r.id event_id) in
      returns (go_on (record { current = current; stack = stack; seen = seen }))

  -- `match &log[event_id].event`
  abbrev pub event_turn :
      Configuration Seq Ret
      → ℕ
      → List (Option (Node Seq Ret))
      → Seen
      → Option (TimeStamped Seq Ret)
      → Outcome (Turn Seq Ret Seen)
  event_turn config event_id stack seen none = panics
  event_turn config event_id stack seen (some t) = handle_event config event_id stack seen t.event

  -- The arm for `Node::HistoryEvent`.
  unfoldable pub visit_event :
      List (TimeStamped Seq Ret)
      → Configuration Seq Ret
      → ℕ
      → List (Option (Node Seq Ret))
      → Seen
      → Outcome (Turn Seq Ret Seen)
  visit_event log config event_id stack seen =
      if event_id == length log
      then returns (finish success)
      else event_turn config event_id stack seen (get_elem? log event_id)

module _ {Seq Ret Seen : Type 0} ⦃e : Eq Ret⦄ (insert : Option (Node Seq Ret) → Seen → Bool × Seen)
    (num_threads : ℕ) where
  abbrev pub fired :
      Configuration Seq Ret
      → (id start event_id : ℕ) → Option (Node Seq Ret)
      → List (Option (Node Seq Ret))
      → Seen
      → Result (Configuration Seq Ret) (Option Ret)
      → Outcome (Turn Seq Ret Seen)
  fired config id start event_id next stack seen (ok new_config) =
      if id == start
      then returns
          (enter insert (history_event new_config (event_id + 1)) (push_some next stack) seen)
      else returns (
          go_on (record {
            current = some (lin_attempt new_config id id event_id);
            stack = push_some next stack;
            seen = seen;
          }))
  fired config id start event_id next stack seen (err _) = do
    can ← can_return config id
    returns (
        go_on (record {
          current = if can && (id == start) then none else next;
          stack = stack;
          seen = seen;
        }))

  -- `if config.has_called(start) || start == id { … } else { … }`
  abbrev pub attempt_fire :
      Configuration Seq Ret
      → (id start event_id : ℕ) → Option (Node Seq Ret)
      → List (Option (Node Seq Ret))
      → Seen
      → Bool
      → Outcome (Turn Seq Ret Seen)
  attempt_fire config id start event_id next stack seen true =
      (if id == start then try_return config id else try_linearize config start)
      >>= fired config id start event_id next stack seen
  attempt_fire config id start event_id next stack seen false =
      returns (go_on (record { current = next; stack = stack; seen = seen }))

  -- The arm for `Node::LinAttempt`.
  unfoldable pub visit_attempt :
      Configuration Seq Ret
      → (id start event_id : ℕ) → List (Option (Node Seq Ret))
      → Seen
      → Outcome (Turn Seq Ret Seen)
  visit_attempt config id start event_id stack seen = do
    let next = next_lin_attempt num_threads config id start event_id
    called ← has_called config start
    attempt_fire config id start event_id next stack seen (called || (start == id))

  unfoldable pub visit :
      List (TimeStamped Seq Ret)
      → Node Seq Ret
      → List (Option (Node Seq Ret))
      → Seen
      → Outcome (Turn Seq Ret Seen)
  visit log (history_event config event_id) stack seen =
      visit_event insert log config event_id stack seen
  visit log (lin_attempt config id start event_id) stack seen =
      visit_attempt config id start event_id stack seen

  -- `if current.is_none() { current = stack.pop().unwrap() }`, then `current.unwrap()`.
  abbrev pub turn : List (TimeStamped Seq Ret) → Search Seq Ret Seen → Outcome (Turn Seq Ret Seen)
  turn log s = elim (s.current) [
    | some node ↦ visit log node s.stack s.seen
    | none ↦ elim (s.stack) [
      | some node ∷ rest ↦ visit log node rest s.seen
      | none ∷ rest ↦ panics
      | [] ↦ panics
    ]
  ]

  abbrev pub is_empty : List (Option (Node Seq Ret)) → Bool
  is_empty [] = true
  is_empty (_ ∷ _) = false

  -- The end of a turn: leave `solve`, or count once more and go round by `rest`.
  abbrev pub after_turn :
      (limit iterations : ℕ) → (Search Seq Ret Seen → Run) → Outcome (Turn Seq Ret Seen) → Run
  after_turn limit iterations rest panics = panicked
  after_turn limit iterations rest (returns (finish r)) = finished r
  after_turn limit iterations rest (returns (go_on s)) = elim (iterations + 2 == limit) [
    | true ↦ finished timed_out
    | false ↦ rest s
  ]

  -- The loop of `solve`. `iterations` counts both increments of a turn, and `limit` is
  -- `self.iterations`.
  unfoldable pub search_loop :
      List (TimeStamped Seq Ret) → (limit fuel iterations : ℕ) → Search Seq Ret Seen → Run
  search_loop log limit zero iterations s = out_of_fuel
  search_loop log limit (suc fuel) iterations s =
      elim (is_some s.current || not (is_empty s.stack)) [
        | false ↦ finished failure
        | true ↦ elim (iterations + 1 == limit) [
          | true ↦ finished timed_out
          | false ↦
              after_turn limit iterations (λ s'. search_loop log limit fuel (iterations + 2) s')
                (turn log s)
        ]
      ]

  -- `solve` in `fuel` turns; `empty` is `HashSet::new()`. With a limit of 0 the source never times out.
  unfoldable pub solve : Seq → Seen → (limit fuel : ℕ) → List (TimeStamped Seq Ret) → Run
  unfolding search_loop
  solve sequential empty limit fuel log =
      let current = some (history_event (new_configuration sequential num_threads) 0) in
      search_loop log limit fuel 0
        (record { current = current; stack = []; seen = (insert current empty).1 })
