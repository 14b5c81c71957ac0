-- ===== src/Testing/Solver/Soundness.antt =====
-- What `solve` calls a success: the nodes that the search visits, and the marks of a linearization
-- of the events before them.
use mathlib.Core.Path.{subst}
use rustcurrent.Prelude.{
  ℕ, zero, suc, ◌+◌, ◌≡◌, refl, sym, ap, ◌∙◌, inl, inr, arith, Bool, true, false, not, ◌&&◌, ◌||◌,
  Option, none, some, List, [], ◌∷◌, ◌++◌, map, get_elem?, length, take, is_some, ltb, ◌==◌,
  if◌then◌else◌, ==_iff, Bool-cases, Option-cases, take-suc, take-length, Eq, Result, ok, err,
  Outcome, returns, panics, ◌>>=◌, >>=-eq-returns,
}
use rustcurrent.Testing.TimeStamped.{ReturnEvent, Event, invoke, return, TimeStamped}
use rustcurrent.Testing.Automaton.{
  Configuration, from_invoke, has_called, can_return, try_return, try_linearize,
}
use rustcurrent.Testing.History.{IsLinearizable}
use rustcurrent.Testing.Solver.{
  Node, history_event, lin_attempt, success, failure, timed_out, Search, Turn, go_on, finish, Run,
  finished, next_lin_attempt, push_some, next_thread, enter, handle_event, visit_event, fired,
  attempt_fire, visit_attempt, visit, turn, is_empty, after_turn, search_loop, solve,
}
use rustcurrent.Testing.Solver.Tracking.{
  Tracked, Tracked-new, from_invoke-Tracked, try_return-Tracked, try_linearize-Tracked,
}

module _ {Seq Ret : Type 0} ⦃e : Eq Ret⦄ (start : Seq) (log : List (TimeStamped Seq Ret)) where
  abbrev log_events : List (Event Seq Ret)
  log_events = map (λ t. t.event) log

  abbrev ReturnsAt : ℕ → ℕ → Type 0
  ReturnsAt id n = (r : ReturnEvent Ret) × (r.id ≡ id) × (get_elem? log_events n ≡ some (return r))

  -- A node of the search is reached by marks over the events before its own.
  abbrev IsReached : Node Seq Ret → Type 0
  IsReached (history_event c n) = Tracked start c (take n log_events)
  IsReached (lin_attempt c id _ n) = Tracked start c (take n log_events) × ReturnsAt id n

  abbrev IsReachedOption : Option (Node Seq Ret) → Type 0
  IsReachedOption none = Unit
  IsReachedOption (some n) = IsReached n

  abbrev AllReached : List (Option (Node Seq Ret)) → Type 0
  AllReached [] = Unit
  AllReached (n ∷ ns) = IsReachedOption n × AllReached ns

  length-log_events : (l : List (TimeStamped Seq Ret)) → length (map (λ t. t.event) l) ≡ length l
  length-log_events [] = refl
  length-log_events (t ∷ l) = ap suc (length-log_events l)

  get_elem?-log_events :
      (l : List (TimeStamped Seq Ret)) (n : ℕ) (t : TimeStamped Seq Ret)
      → get_elem? l n ≡ some t
      → get_elem? (map (λ t. t.event) l) n ≡ some t.event
  get_elem?-log_events [] n t h = absurd (cc)
  get_elem?-log_events (u ∷ l) zero t h = cc
  get_elem?-log_events (u ∷ l) (suc n) t h = get_elem?-log_events l n t h

  Tracked-next :
      (c : Configuration Seq Ret) (n : ℕ) (v : Event Seq Ret)
      → get_elem? log_events n ≡ some v
      → Tracked start c (take n log_events ++ (v ∷ []))
      → Tracked start c (take (n + 1) log_events)
  Tracked-next c n v at tr =
      let next : suc n ≡ n + 1 = omega arith in
      subst (λ k. Tracked start c (take k log_events)) next
        (subst (λ l. Tracked start c l) (sym (take-suc log_events n v at)) tr)

  module _ {Seen : Type 0} where
    -- A turn keeps the nodes reached, and finishes with success only at the end of the log.
    abbrev TurnReached : Turn Seq Ret Seen → Type 0
    TurnReached (go_on s) = IsReachedOption s.current × AllReached s.stack
    TurnReached (finish success) = (c : Configuration Seq Ret) × Tracked start c log_events
    TurnReached (finish _) = Unit

    module _ (insert : Option (Node Seq Ret) → Seen → Bool × Seen) (num_threads : ℕ) where
      enter-Reached :
          (node : Node Seq Ret) (stack : List (Option (Node Seq Ret))) (seen : Seen)
          → IsReached node
          → AllReached stack
          → TurnReached (enter insert node stack seen)
      enter-Reached node stack seen r rs =
          elim (insert (some node) seen).0
            as (λ fresh. IsReachedOption (if fresh then some node else none) × AllReached stack) [
              | true ↦ (r, rs)
              | false ↦ (tt, rs)
            ]

      handle_event-Reached :
          (c : Configuration Seq Ret) (n : ℕ) (stack : List (Option (Node Seq Ret))) (seen : Seen)
          (t : Turn Seq Ret Seen) (v : Event Seq Ret)
          → get_elem? log_events n ≡ some v
          → Tracked start c (take n log_events)
          → AllReached stack
          → handle_event insert c n stack seen v ≡ returns t
          → TurnReached t
      handle_event-Reached c n stack seen t (invoke i) at r rs h =
          let (c', called, e) = >>=-eq-returns (from_invoke c i) _ h in
          let same : enter insert (history_event c' (n + 1)) stack seen ≡ t = cc in
          subst (λ t. TurnReached t) same
            (enter-Reached (history_event c' (n + 1)) stack seen
              (Tracked-next c' n (invoke i) at (from_invoke-Tracked r i c' called)) rs)
      handle_event-Reached c n stack seen t (return v) at r rs h =
          let same : go_on
                (record { current = some (lin_attempt c v.id v.id n); stack = stack; seen = seen })
              ≡ t =
            cc in
          subst (λ t. TurnReached t) same ((r, (v, refl, at)), rs)

      visit_event-Reached :
          (c : Configuration Seq Ret) (n : ℕ) (stack : List (Option (Node Seq Ret))) (seen : Seen)
          (t : Turn Seq Ret Seen)
          → Tracked start c (take n log_events)
          → AllReached stack
          → visit_event insert log c n stack seen ≡ returns t
          → TurnReached t
      unfolding visit_event
      visit_event-Reached c n stack seen t r rs h = elim (Bool-cases (n == length log)) [
        | inl end ↦
            let same : finish success ≡ t = (let h' = rw end at h in cc) in
            let all : n ≡ length log_events =
              (==_iff n (length log)).0 end ∙ sym (length-log_events log) in
            subst (λ t. TurnReached t) same
              (
                c,
                subst (λ l. Tracked start c l)
                    (ap (λ k. take k log_events) all ∙ take-length log_events) r,
              )
        | inr more ↦ elim (Option-cases {A = TimeStamped Seq Ret} (get_elem? log n)) [
          | inl gone ↦ absurd (let h' = rw (more, gone, ◌>>=◌) at h in cc)
          | inr (v, at) ↦
              handle_event-Reached c n stack seen t v.event (get_elem?-log_events log n v at) r rs
                (rw (more, at, ◌>>=◌) at h)
        ]
      ]

      next-Reached :
          (c : Configuration Seq Ret) (id from n : ℕ)
          → Tracked start c (take n log_events)
          → ReturnsAt id n
          → IsReachedOption (next_lin_attempt num_threads c id from n)
      unfolding next_lin_attempt
      next-Reached c id from n r at =
          elim (ltb (next_thread id from) num_threads)
            as (λ b.
              IsReachedOption
                (if b then some (lin_attempt c id (next_thread id from) n) else none)) [
                  | true ↦ (r, at)
                  | false ↦ tt
                ]

      push_some-Reached :
          (next : Option (Node Seq Ret)) (stack : List (Option (Node Seq Ret)))
          → IsReachedOption next
          → AllReached stack
          → AllReached (push_some next stack)
      push_some-Reached none stack r rs = rs
      push_some-Reached (some n) stack r rs = (r, rs)

      -- What follows an attempt that fired: the thread `id` returned, or another was linearized.
      fired-Reached :
          (c c' : Configuration Seq Ret) (id from n : ℕ) (next : Option (Node Seq Ret))
          (stack : List (Option (Node Seq Ret))) (seen : Seen) (t : Turn Seq Ret Seen)
          → Tracked start c (take n log_events)
          → ReturnsAt id n
          → IsReachedOption next
          → AllReached stack
          → (if id == from then try_return c id else try_linearize c from) ≡ returns (ok c')
          → fired insert num_threads c id from n next stack seen (ok c') ≡ returns t
          → TurnReached t
      fired-Reached c c' id from n next stack seen t r (v, is, at) nr rs f h =
          elim (Bool-cases (id == from)) [
            | inl own ↦
                let same : enter insert (history_event c' (n + 1)) (push_some next stack) seen ≡ t =
                  (let h' = rw own at h in cc) in
                subst (λ t. TurnReached t) same
                  (enter-Reached (history_event c' (n + 1)) (push_some next stack) seen
                    (Tracked-next c' n (return v) at
                      (try_return-Tracked r v c' (rw is (rw own at f))))
                    (push_some-Reached next stack nr rs))
            | inr other ↦
                let same : go_on (record {
                  current = some (lin_attempt c' id id n);
                  stack = push_some next stack;
                  seen = seen;
                })
                    ≡ t =
                  (let h' = rw other at h in cc) in
                subst (λ t. TurnReached t) same
                  (
                    (try_linearize-Tracked r from c' (rw other at f), (v, is, at)),
                    push_some-Reached next stack nr rs,
                  )
          ]

      missed-Reached :
          (c : Configuration Seq Ret) (id from n : ℕ) (next : Option (Node Seq Ret))
          (stack : List (Option (Node Seq Ret))) (seen : Seen) (t : Turn Seq Ret Seen)
          (o : Option Ret)
          → IsReachedOption next
          → AllReached stack
          → fired insert num_threads c id from n next stack seen (err o) ≡ returns t
          → TurnReached t
      missed-Reached c id from n next stack seen t o nr rs h =
          let (can, known, e) = >>=-eq-returns (can_return c id) _ h in
          let same : go_on (record {
            current = if can && (id == from) then none else next;
            stack = stack;
            seen = seen;
          })
              ≡ t =
            cc in
          subst (λ t. TurnReached t) same
            (elim (can && (id == from))
              as (λ b. IsReachedOption (if b then none else next) × AllReached stack) [
                | true ↦ (tt, rs)
                | false ↦ (nr, rs)
              ])

      attempt_fire-Reached :
          (c : Configuration Seq Ret) (id from n : ℕ) (next : Option (Node Seq Ret))
          (stack : List (Option (Node Seq Ret))) (seen : Seen) (t : Turn Seq Ret Seen) (b : Bool)
          → Tracked start c (take n log_events)
          → ReturnsAt id n
          → IsReachedOption next
          → AllReached stack
          → attempt_fire insert num_threads c id from n next stack seen b ≡ returns t
          → TurnReached t
      attempt_fire-Reached c id from n next stack seen t false r at nr rs h =
          let same : go_on (record { current = next; stack = stack; seen = seen }) ≡ t = cc in
          subst (λ t. TurnReached t) same (nr, rs)
      attempt_fire-Reached c id from n next stack seen t true r at nr rs h =
          let (res, f, e) =
            >>=-eq-returns (if id == from then try_return c id else try_linearize c from) _ h in
          go res f e
        where
          go :
              (res : Result (Configuration Seq Ret) (Option Ret))
              → (if id == from then try_return c id else try_linearize c from) ≡ returns res
              → fired insert num_threads c id from n next stack seen res ≡ returns t
              → TurnReached t
          go (ok c') f e = fired-Reached c c' id from n next stack seen t r at nr rs f e
          go (err o) f e = missed-Reached c id from n next stack seen t o nr rs e

      visit_attempt-Reached :
          (c : Configuration Seq Ret) (id from n : ℕ) (stack : List (Option (Node Seq Ret)))
          (seen : Seen) (t : Turn Seq Ret Seen)
          → Tracked start c (take n log_events)
          → ReturnsAt id n
          → AllReached stack
          → visit_attempt insert num_threads c id from n stack seen ≡ returns t
          → TurnReached t
      unfolding visit_attempt
      visit_attempt-Reached c id from n stack seen t r at rs h =
          let (b, known, e) = >>=-eq-returns (has_called c from) _ h in
          attempt_fire-Reached c id from n (next_lin_attempt num_threads c id from n) stack seen t
            (b || (from == id)) r at (next-Reached c id from n r at) rs e

      visit-Reached :
          (node : Node Seq Ret) (stack : List (Option (Node Seq Ret))) (seen : Seen)
          (t : Turn Seq Ret Seen)
          → IsReached node
          → AllReached stack
          → visit insert num_threads log node stack seen ≡ returns t
          → TurnReached t
      unfolding visit
      visit-Reached (history_event c n) stack seen t r rs h =
          visit_event-Reached c n stack seen t r rs h
      visit-Reached (lin_attempt c id from n) stack seen t (r, at) rs h =
          visit_attempt-Reached c id from n stack seen t r at rs h

      abbrev turn_from :
          Option (Node Seq Ret) → List (Option (Node Seq Ret)) → Seen → Outcome (Turn Seq Ret Seen)
      turn_from current stack seen =
          turn insert num_threads log (record { current = current; stack = stack; seen = seen })

      turn-Reached :
          (current : Option (Node Seq Ret)) (stack : List (Option (Node Seq Ret))) (seen : Seen)
          (t : Turn Seq Ret Seen)
          → IsReachedOption current
          → AllReached stack
          → turn_from current stack seen ≡ returns t
          → TurnReached t
      turn-Reached (some node) stack seen t r rs h = visit-Reached node stack seen t r rs h
      turn-Reached none [] seen t r rs h = absurd (cc)
      turn-Reached none (none ∷ stack) seen t r rs h = absurd (cc)
      turn-Reached none (some node ∷ stack) seen t r (nr, rs) h =
          visit-Reached node stack seen t nr rs h

      abbrev EndsReached : Run → Type 0
      EndsReached run =
          run ≡ finished success → (c : Configuration Seq Ret) × Tracked start c log_events

      after_turn-Reached :
          (limit iterations : ℕ) (rest : Search Seq Ret Seen → Run)
          (o : Outcome (Turn Seq Ret Seen))
          → ((t : Turn Seq Ret Seen) → o ≡ returns t → TurnReached t)
          → ((s : Search Seq Ret Seen)
              → IsReachedOption s.current × AllReached s.stack
              → EndsReached (rest s))
          → EndsReached (after_turn insert num_threads limit iterations rest o)
      after_turn-Reached limit iterations rest panics reached ih h = absurd (cc)
      after_turn-Reached limit iterations rest (returns (finish success)) reached ih h =
          reached (finish success) refl
      after_turn-Reached limit iterations rest (returns (finish failure)) reached ih h = absurd (cc)
      after_turn-Reached limit iterations rest (returns (finish timed_out)) reached ih h =
          absurd (cc)
      after_turn-Reached limit iterations rest (returns (go_on s)) reached ih h =
          elim (Bool-cases (iterations + 2 == limit)) [
            | inl late ↦ absurd (let h' = rw (late, after_turn) at h in cc)
            | inr timely ↦ ih s (reached (go_on s) refl) (rw (timely, after_turn) at h)
          ]

      search_loop-Reached :
          (limit fuel iterations : ℕ) (s : Search Seq Ret Seen)
          → IsReachedOption s.current × AllReached s.stack
          → EndsReached (search_loop insert num_threads log limit fuel iterations s)
      unfolding search_loop
      search_loop-Reached limit zero iterations s r h = absurd (cc)
      search_loop-Reached limit (suc fuel) iterations s (r, rs) h =
          elim (Bool-cases (is_some s.current || not (is_empty insert num_threads s.stack))) [
            | inr over ↦ absurd (let h' = rw (over, search_loop) at h in cc)
            | inl running ↦ elim (Bool-cases (iterations + 1 == limit)) [
              | inl late ↦ absurd (let h' = rw (running, late, search_loop) at h in cc)
              | inr timely ↦
                  after_turn-Reached limit iterations _ (turn insert num_threads log s)
                    (λ t e. turn-Reached s.current s.stack s.seen t r rs e)
                    (search_loop-Reached limit fuel (iterations + 2))
                    (rw (running, timely, search_loop) at h)
            ]
          ]

-- If `solve` answers with success, the log is linearizable: linearization points can be put between
-- the call and the return of the operations such that the sequential object, run in their order,
-- gives each recorded result. This holds for any set `seen`, also one that confuses nodes.
pub solve-IsLinearizable :
    {Seq Ret Seen : Type 0} ⦃e : Eq Ret⦄ (insert : Option (Node Seq Ret) → Seen → Bool × Seen)
    (num_threads : ℕ) (start : Seq) (empty : Seen) (limit fuel : ℕ)
    (log : List (TimeStamped Seq Ret))
    → solve insert num_threads start empty limit fuel log ≡ finished success
    → IsLinearizable start (map (λ t. t.event) log)
unfolding solve
solve-IsLinearizable insert num_threads start empty limit fuel log h =
    let (c, tr) =
      search_loop-Reached start log insert num_threads limit fuel 0 _
        (Tracked-new start num_threads, tt) h in
    (tr.marks, (c.sequential, tr.phases), tr.erased, tr.legal)
