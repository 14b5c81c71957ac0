-- ===== src/Testing/ThreadLog/Pairs.antt =====
-- Logs as sequences of calls, each followed by its return.
use rustcurrent.Prelude.{
  ℕ, ◌≡◌, refl, ap, Option, none, some, List, [], ◌∷◌, ◌++◌, get_elem?, set, length, returns,
}
use Prim.Native.String.{String}
use mathlib.Core.List.{append_assoc}
use rustcurrent.Testing.TimeStamped.{Op, Event, invoke, return, TimeStamped, new_return}
use rustcurrent.Testing.ThreadLog.{ThreadLog, log, log_val}

module _ {Seq Ret : Type 0} where
  -- A call and its return: the same thread, and the result recorded on both.
  abbrev IsCall : Event Seq Ret → Event Seq Ret → Type 0
  IsCall (invoke i) (return r) = (i.id ≡ r.id) × (i.res ≡ r.result)
  IsCall _ _ = ⊥

  abbrev pub IsPaired : List (TimeStamped Seq Ret) → Type 0
  IsPaired [] = Unit
  IsPaired (_ ∷ []) = ⊥
  IsPaired (a ∷ b ∷ ts) = IsCall a.event b.event × IsPaired ts

  IsPaired-append :
      (ts us : List (TimeStamped Seq Ret)) → IsPaired ts → IsPaired us → IsPaired (ts ++ us)
  IsPaired-append [] us p q = q
  IsPaired-append (a ∷ []) us p q = absurd p
  IsPaired-append (a ∷ b ∷ ts) us (c, p) q = (c, IsPaired-append ts us p q)

  get_elem?-end :
      (ts us : List (TimeStamped Seq Ret)) (t : TimeStamped Seq Ret)
      → get_elem? (ts ++ (t ∷ us)) (length ts) ≡ some t
  get_elem?-end [] us t = refl
  get_elem?-end (_ ∷ ts) us t = get_elem?-end ts us t

  set-end :
      (ts us : List (TimeStamped Seq Ret)) (t v : TimeStamped Seq Ret)
      → set (ts ++ (t ∷ us)) (length ts) v ≡ ts ++ (v ∷ us)
  set-end [] us t v = refl
  set-end (s ∷ ts) us t v = ap (λ l. s ∷ l) (set-end ts us t v)

  -- The two events of a call whose result is known.
  abbrev call_events :
      (now later id : ℕ) → String → Op Seq Ret → (arg res : Option Ret) → List (TimeStamped Seq Ret)
  call_events now later id message op arg res =
      record {
        stamp = now;
        event = invoke (record { id = id; message = message; op = op; arg = arg; res = res });
      }
      ∷ new_return later id res
      ∷ []

  IsPaired-call :
      (ts : List (TimeStamped Seq Ret)) (now later id : ℕ) (message : String) (op : Op Seq Ret)
      (arg res : Option Ret)
      → IsPaired ts
      → IsPaired (ts ++ call_events now later id message op arg res)
  IsPaired-call ts now later id message op arg res p =
      IsPaired-append ts (call_events now later id message op arg res) p ((refl, refl), tt)

module _ {C Seq Ret : Type 0} where
  log-eq :
      (now later : ℕ) (l : ThreadLog C Seq Ret) (id : ℕ) (f : C → Option Ret) (message : String)
      (op : Op Seq Ret)
      → log now later l id f message op
        ≡ returns (record l {
          events = l.events ++ call_events now later id message op none (f l.concurrent);
        })
  unfolding log
  log-eq now later l id f message op = simp (append_assoc, get_elem?-end, set-end)

  -- `log` and `log_val` never panic, and keep a log a sequence of calls with their returns, each
  -- call with the thread and the result of its return.
  pub log-IsPaired :
      (now later : ℕ) (l : ThreadLog C Seq Ret) (id : ℕ) (f : C → Option Ret)
      (g : C → Ret → Unit {0}) (val : Ret) (message : String) (op : Op Seq Ret)
      → IsPaired l.events
      → ((l' : ThreadLog C Seq Ret) × (log now later l id f message op ≡ returns l')
          × IsPaired l'.events)
        × IsPaired (log_val now later l id g val message op).events
  unfolding log_val
  log-IsPaired now later l id f g val message op p = (
    (
      record l { events = l.events ++ call_events now later id message op none (f l.concurrent) },
      log-eq now later l id f message op,
      IsPaired-call l.events now later id message op none (f l.concurrent) p,
    ),
    rw (append_assoc l.events) (IsPaired-call l.events now later id message op (some val) none p),
  )
