-- ===== src/Testing/Solver/Termination.antt =====
-- The loop of `solve` and its limit: each turn counts two iterations.
use rustcurrent.Prelude.{
  ℕ, zero, suc, ◌+◌, ◌≤◌, ◌<◌, ◌≡◌, ◌≢◌, inl, inr, arith, Bool, not, ◌||◌, Option, List, is_some,
  ◌==◌, false, Bool-cases, Eq, Outcome, returns, panics,
}
use rustcurrent.Testing.TimeStamped.{TimeStamped}
use rustcurrent.Testing.Solver.{
  Node, Search, Turn, go_on, finish, Run, out_of_fuel, turn, is_empty, after_turn, search_loop,
  solve,
}

module _ {Seq Ret Seen : Type 0} ⦃e : Eq Ret⦄ (insert : Option (Node Seq Ret) → Seen → Bool × Seen)
    (num_threads : ℕ) (log : List (TimeStamped Seq Ret)) (limit : ℕ) where
  after_turn_ends :
      (iterations : ℕ) (rest : Search Seq Ret Seen → Run) (o : Outcome (Turn Seq Ret Seen))
      → ((iterations + 2 == limit) ≡ false → (s : Search Seq Ret Seen) → rest s ≢ out_of_fuel)
      → after_turn insert num_threads limit iterations rest o ≢ out_of_fuel
  after_turn_ends iterations rest panics ih h = cc
  after_turn_ends iterations rest (returns (finish r)) ih h = cc
  after_turn_ends iterations rest (returns (go_on s)) ih h =
      elim (Bool-cases (iterations + 2 == limit)) [
        | inl late ↦ let h' = rw (late, after_turn) at h in cc
        | inr timely ↦ ih timely s (rw (timely, after_turn) at h)
      ]

  search_loop_ends :
      (fuel iterations : ℕ) (s : Search Seq Ret Seen)
      → iterations < limit
      → limit ≤ iterations + fuel + fuel
      → search_loop insert num_threads log limit fuel iterations s ≢ out_of_fuel
  unfolding search_loop
  search_loop_ends zero iterations s below enough h = omega arith
  search_loop_ends (suc fuel) iterations s below enough h =
      elim (Bool-cases (is_some s.current || not (is_empty insert num_threads s.stack))) [
        | inr over ↦ let h' = rw (over, search_loop) at h in cc
        | inl running ↦ elim (Bool-cases (iterations + 1 == limit)) [
          | inl late ↦ let h' = rw (running, late, search_loop) at h in cc
          | inr timely ↦
              after_turn_ends iterations _ (turn insert num_threads log s)
                (λ later s'. search_loop_ends fuel (iterations + 2) s' (ground arith) (omega arith))
                (rw (running, timely, search_loop) at h)
        ]
      ]

-- With a positive limit on the iterations `solve` ends within half as many turns, rounded up, on every
-- log and for every set `seen`: it answers or panics, and never runs on.
pub solve_ends :
    {Seq Ret Seen : Type 0} ⦃e : Eq Ret⦄ (insert : Option (Node Seq Ret) → Seen → Bool × Seen)
    (num_threads : ℕ) (start : Seq) (empty : Seen) (limit fuel : ℕ)
    (log : List (TimeStamped Seq Ret))
    → 0 < limit
    → limit ≤ fuel + fuel
    → solve insert num_threads start empty limit fuel log ≢ out_of_fuel
unfolding solve
solve_ends insert num_threads start empty limit fuel log positive enough =
    search_loop_ends insert num_threads log limit fuel 0 _ positive (omega arith)
