-- ===== src/Testing/ThreadLog/Tests.antt =====
-- Logs of a shared number with two calls, and the merge of two logs.
use rustcurrent.Prelude.{ℕ, ◌+◌, ◌≡◌, refl, Option, none, some, [], ◌∷◌, returns}
use rustcurrent.Testing.TimeStamped.{Op, new_invoke, new_return}
use rustcurrent.Testing.ThreadLog.{ThreadLog, log, log_val, merge}
use rustcurrent.Testing.ThreadLog.Pairs.{IsPaired, log-IsPaired}
use rustcurrent.Testing.ThreadLog.InsertionSort.{sort, sort-IsStableSort}
use rustcurrent.Testing.ThreadLog.Merge.{IsHistory, merge-IsHistory}

abbrev get : Op ℕ ℕ
get n _ = (n, some n)

abbrev add : ℕ → ℕ → Option ℕ
add n v = some (n + v)

abbrev first_log : ThreadLog ℕ ℕ ℕ
first_log = record {
  id = 0;
  concurrent = 5;
  events = new_invoke 3 0 "get" get none ∷ new_return 6 0 none ∷ [];
}

abbrev second_log : ThreadLog ℕ ℕ ℕ
second_log = record {
  id = 1;
  concurrent = 5;
  events = new_invoke 1 1 "get" get none ∷ new_return 4 1 none ∷ [];
}

log-IsPaired_example :
    ((l' : ThreadLog ℕ ℕ ℕ) × (log 7 8 first_log 0 (λ n. some n) "get" get ≡ returns l')
      × IsPaired l'.events)
    × IsPaired (log_val 7 8 first_log 0 (λ _ _. tt) 9 "get" get).events
log-IsPaired_example =
    log-IsPaired 7 8 first_log 0 (λ n. some n) (λ _ _. tt) 9 "get" get (((refl, refl), tt))

merge-IsHistory_example :
    IsHistory (first_log ∷ second_log ∷ []) (merge sort (first_log ∷ second_log ∷ []))
merge-IsHistory_example = merge-IsHistory sort (first_log ∷ second_log ∷ []) sort-IsStableSort
