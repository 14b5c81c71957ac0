-- ===== src/Testing/ThreadLog/Merge.antt =====
-- The merge of the logs (`merge` of src/testing/linearizability_tester.rs). The stable sort of the
-- standard library is a parameter.
use rustcurrent.Prelude.{
  ℕ, ◌≤◌, ◌≡◌, refl, sym, ap, ◌∙◌, inl, inr, List, [], ◌∷◌, ◌++◌, ◌==◌, if◌then◌else◌, Bool-cases,
}
use rustcurrent.Testing.TimeStamped.{TimeStamped}
use rustcurrent.Testing.ThreadLog.{ThreadLog, append_all, merge}

module _ {Seq Ret : Type 0} where
  abbrev pub AllFrom : ℕ → List (TimeStamped Seq Ret) → Type 0
  AllFrom n [] = Unit
  AllFrom n (t ∷ ts) = (n ≤ t.stamp) × AllFrom n ts

  -- Each event is no later than all that follow it.
  abbrev pub IsSorted : List (TimeStamped Seq Ret) → Type 0
  IsSorted [] = Unit
  IsSorted (t ∷ ts) = AllFrom t.stamp ts × IsSorted ts

  -- The events with this time stamp, in their order.
  abbrev pub at_stamp : ℕ → List (TimeStamped Seq Ret) → List (TimeStamped Seq Ret)
  at_stamp n [] = []
  at_stamp n (t ∷ ts) = if t.stamp == n then t ∷ at_stamp n ts else at_stamp n ts

  -- `sort` of a slice in the standard library: the result is in order, and equal elements, which are
  -- those with the same time stamp, are the ones of the argument and keep their order.
  pub record IsStableSort (sort : List (TimeStamped Seq Ret) → List (TimeStamped Seq Ret))
      : Type 0 where
    pub sorted : (ts : List (TimeStamped Seq Ret)) → IsSorted (sort ts)
    pub stable : (n : ℕ) (ts : List (TimeStamped Seq Ret)) → at_stamp n (sort ts) ≡ at_stamp n ts

  at_stamp-append :
      (n : ℕ) (ts us : List (TimeStamped Seq Ret))
      → at_stamp n (ts ++ us) ≡ at_stamp n ts ++ at_stamp n us
  at_stamp-append n [] us = refl
  at_stamp-append n (t ∷ ts) us = elim (Bool-cases (t.stamp == n)) [
    | inl here ↦ rw here (ap (λ l. t ∷ l) (at_stamp-append n ts us))
    | inr not_here ↦ rw not_here (at_stamp-append n ts us)
  ]

  append_assoc : (ts us vs : List (TimeStamped Seq Ret)) → (ts ++ us) ++ vs ≡ ts ++ (us ++ vs)
  append_assoc [] us vs = refl
  append_assoc (t ∷ ts) us vs = ap (λ l. t ∷ l) (append_assoc ts us vs)

  append-nil : (ts : List (TimeStamped Seq Ret)) → ts ++ [] ≡ ts
  append-nil [] = refl
  append-nil (t ∷ ts) = ap (λ l. t ∷ l) (append-nil ts)

module _ {C Seq Ret : Type 0} where
  -- What the threads logged at this time, thread by thread.
  abbrev pub logged_at : ℕ → List (ThreadLog C Seq Ret) → List (TimeStamped Seq Ret)
  logged_at n [] = []
  logged_at n (l ∷ ls) = at_stamp n l.events ++ logged_at n ls

  -- A list of events is the history of the logs: it is in the order of the time stamps, and holds
  -- for each time what the threads logged at it.
  abbrev pub IsHistory : List (ThreadLog C Seq Ret) → List (TimeStamped Seq Ret) → Type 0
  IsHistory logs events = IsSorted events × ((n : ℕ) → at_stamp n events ≡ logged_at n logs)

  at_stamp-append_all :
      (n : ℕ) (done : List (TimeStamped Seq Ret)) (logs : List (ThreadLog C Seq Ret))
      → at_stamp n (append_all done logs) ≡ at_stamp n done ++ logged_at n logs
  unfolding append_all
  at_stamp-append_all n done [] = sym (append-nil (at_stamp n done))
  at_stamp-append_all n done (l ∷ ls) =
      at_stamp-append_all n (done ++ l.events) ls
      ∙ ap (λ ts. ts ++ logged_at n ls) (at_stamp-append n done l.events)
      ∙ append_assoc (at_stamp n done) (at_stamp n l.events) (logged_at n ls)

-- Merging gives the history of the logs: the events of all logs in the order of their time stamps,
-- and at each time stamp the events of the logs, log by log and each log in its order.
pub merge-IsHistory :
    {C Seq Ret : Type 0} (sort : List (TimeStamped Seq Ret) → List (TimeStamped Seq Ret))
    (logs : List (ThreadLog C Seq Ret))
    → IsStableSort sort
    → IsHistory logs (merge sort logs)
unfolding merge
merge-IsHistory sort logs std = (
  std.sorted (append_all [] logs),
  λ n. std.stable n (append_all [] logs) ∙ at_stamp-append_all n [] logs,
)
