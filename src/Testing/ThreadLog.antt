-- ===== src/Testing/ThreadLog.antt =====
-- The logs of the threads (`ThreadLog` and `LogsWrapper` of src/testing/linearizability_tester.rs).
-- `now` and `later` are what the two calls of `Instant::now()` return, and `conc_method` is the
-- method of the shared object. `sort` of `merge` is the
-- stable sort of the standard library.
pub mod InsertionSort
pub mod Merge
pub mod Pairs
pub mod Unique
mod Tests
use Prim.Native.String.{String}
use rustcurrent.Prelude.{
  ℕ, zero, suc, Option, none, some, List, [], ◌∷◌, ◌++◌, get_elem?, set, length, leb, if◌then◌else◌,
  Outcome, returns, panics, ◌>>=◌,
}
use rustcurrent.Testing.TimeStamped.{Op, Event, invoke, return, TimeStamped, new_invoke, new_return}

pub record ThreadLog (C Seq Ret : Type 0) : Type 0 where
  pub id : ℕ
  pub concurrent : C
  pub events : List (TimeStamped Seq Ret)

-- `match result { None => panic!(…), Some(_) => {} }`, and what follows.
abbrev pub expect_some {ℓ} : {Ret : Type 0} {A : Type ℓ} → Option Ret → Outcome A → Outcome A
expect_some none rest = panics
expect_some (some _) rest = rest

module _ {Seq Ret : Type 0} where
  -- `match event { Invoke(ref mut invoke) => invoke.res = result, Return(_) => panic!(…) }`
  abbrev pub patch_event :
      TimeStamped Seq Ret → Option Ret → Event Seq Ret → Outcome (TimeStamped Seq Ret)
  patch_event t result (invoke i) =
      returns (record t { event = invoke (record i { res = result }) })
  patch_event t result (return r) = panics

  -- The same at an index of the log.
  abbrev pub patch_at :
      List (TimeStamped Seq Ret)
      → ℕ
      → Option Ret
      → Option (TimeStamped Seq Ret)
      → Outcome (List (TimeStamped Seq Ret))
  patch_at ts n result none = panics
  patch_at ts n result (some t) = do t' ← patch_event t result t.event; returns (set ts n t')

  abbrev pub patch :
      List (TimeStamped Seq Ret) → ℕ → Option Ret → Outcome (List (TimeStamped Seq Ret))
  patch ts n result = patch_at ts n result (get_elem? ts n)

module _ {C Seq Ret : Type 0} where
  pub new_log : ℕ → C → ThreadLog C Seq Ret
  new_log id concurrent = record { id = id; concurrent = concurrent; events = [] }

  -- `LogsWrapper::new`: a log for each thread below `size`, from `first` on.
  pub new_logs : (size first : ℕ) → C → List (ThreadLog C Seq Ret)
  unfolding new_log
  new_logs zero first conc = []
  new_logs (suc size) first conc = new_log first conc ∷ new_logs size (suc first) conc

  pub log :
      (now later : ℕ)
      → ThreadLog C Seq Ret
      → ℕ
      → (C → Option Ret)
      → String
      → Op Seq Ret
      → Outcome (ThreadLog C Seq Ret)
  log now later l id conc_method message seq_method =
      let events_num = length l.events in
      let invoked = l.events ++ (new_invoke now id message seq_method none ∷ []) in
      let result = conc_method l.concurrent in
      let both = invoked ++ (new_return later id result ∷ []) in
      (patch both events_num result >>= λ events. returns (record l { events = events }))

  pub log_val :
      (now later : ℕ)
      → ThreadLog C Seq Ret
      → ℕ
      → (C → Ret → Unit {0})
      → Ret
      → String
      → Op Seq Ret
      → ThreadLog C Seq Ret
  log_val now later l id conc_method conc_val message seq_method =
      let invoked = l.events ++ (new_invoke now id message seq_method (some conc_val) ∷ []) in
      record l { events = invoked ++ (new_return later id none ∷ []) }

  pub log_val_result :
      (now later : ℕ)
      → ThreadLog C Seq Ret
      → ℕ
      → (C → Ret → Option Ret)
      → Ret
      → String
      → Op Seq Ret
      → Outcome (ThreadLog C Seq Ret)
  log_val_result now later l id conc_method conc_val message seq_method =
      let events_num = length l.events in
      let invoked = l.events ++ (new_invoke now id message seq_method (some conc_val) ∷ []) in
      let result = conc_method l.concurrent conc_val in
      let both = invoked ++ (new_return later id result ∷ []) in
      expect_some result
        (patch both events_num result >>= λ events. returns (record l { events = events }))

  -- The events of the logs, one after the other.
  -- The loop of `merge`, with what it has put into `result_vec` so far.
  unfoldable pub append_all :
      List (TimeStamped Seq Ret) → List (ThreadLog C Seq Ret) → List (TimeStamped Seq Ret)
  append_all result_vec [] = result_vec
  append_all result_vec (l ∷ ls) = append_all (result_vec ++ l.events) ls

  unfoldable pub merge :
      (sort : List (TimeStamped Seq Ret) → List (TimeStamped Seq Ret))
      → List (ThreadLog C Seq Ret)
      → List (TimeStamped Seq Ret)
  unfolding append_all
  merge sort logs = sort (append_all [] logs)
