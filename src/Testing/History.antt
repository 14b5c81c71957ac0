-- ===== src/Testing/History.antt =====
-- What it means for a log to be linearizable, with no reference to the solver.
use rustcurrent.Prelude.{
  ℕ, Option, none, some, List, [], ◌∷◌, ◌==◌, if◌then◌else◌, ◌≡◌, Eq, option_beq,
}
use rustcurrent.Testing.TimeStamped.{Op, Event, invoke, return}

-- A log with linearization points put in: at `point t` the open operation of thread `t` takes place.
pub data Mark (Seq Ret : Type 0) : Type 0 where
  event : Event Seq Ret → Mark Seq Ret
  point : ℕ → Mark Seq Ret

-- An operation is open from its invocation to its point, and past it until the return.
pub data Phase (Seq Ret : Type 0) : Type 0 where
  idle : Phase Seq Ret
  pending : Op Seq Ret → (res arg : Option Ret) → Phase Seq Ret
  past : Phase Seq Ret

abbrev pub Phases : Type 0 → Type 0 → Type 0
Phases Seq Ret = ℕ → Phase Seq Ret

module _ {Seq Ret : Type 0} where
  -- The marks less the points.
  abbrev pub events : List (Mark Seq Ret) → List (Event Seq Ret)
  events [] = []
  events (event e ∷ ms) = e ∷ events ms
  events (point t ∷ ms) = events ms

  abbrev pub update : Phases Seq Ret → ℕ → Phase Seq Ret → Phases Seq Ret
  update ph t p u = if t == u then p else ph u

module _ {Seq Ret : Type 0} ⦃e : Eq Ret⦄ where
  abbrev point_at : Seq → Phases Seq Ret → ℕ → Phase Seq Ret → Option (Seq × Phases Seq Ret)
  point_at q ph t (pending op res arg) =
      let (q', out) = op q arg in if option_beq out res then some (q', update ph t past) else none
  point_at q ph t _ = none

  abbrev return_at : Seq → Phases Seq Ret → ℕ → Phase Seq Ret → Option (Seq × Phases Seq Ret)
  return_at q ph t past = some (q, update ph t idle)
  return_at q ph t _ = none

  -- One mark: a point runs the open operation on the sequential object and must give its recorded
  -- result; a thread returns only past its point.
  unfoldable pub apply : Seq → Phases Seq Ret → Mark Seq Ret → Option (Seq × Phases Seq Ret)
  apply q ph (event (invoke i)) = some (q, update ph i.id (pending i.op i.res i.arg))
  apply q ph (event (return r)) = return_at q ph r.id (ph r.id)
  apply q ph (point t) = point_at q ph t (ph t)

  abbrev and_replay :
      (Seq → Phases Seq Ret → Option (Seq × Phases Seq Ret))
      → Option (Seq × Phases Seq Ret)
      → Option (Seq × Phases Seq Ret)
  and_replay k none = none
  and_replay k (some (q, ph)) = k q ph

  unfoldable pub replay : List (Mark Seq Ret) → Seq → Phases Seq Ret → Option (Seq × Phases Seq Ret)
  replay [] q ph = some (q, ph)
  replay (m ∷ ms) q ph = and_replay (replay ms) (apply q ph m)

  -- Points can be put into the log such that each operation takes place between its call and its
  -- return, and the operations in the order of their points are a run of the sequential object.
  abbrev pub IsLinearizable : Seq → List (Event Seq Ret) → Type 0
  IsLinearizable q log =
      (ms : List (Mark Seq Ret)) × (end : Seq × Phases Seq Ret) × (events ms ≡ log)
      × (replay ms q (λ _. idle) ≡ some end)
