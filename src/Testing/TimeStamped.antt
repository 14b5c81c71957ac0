-- ===== src/Testing/TimeStamped.antt =====
-- Logged events (src/testing/time_stamped.rs). `Instant` is read as a number.
use Prim.Native.String.{String}
use Prim.Native.Nat.{Ordering, compare}
use rustcurrent.Prelude.{ℕ, Option, none, Bool, ◌==◌}

-- `fn(&Seq, Option<Ret>) -> (Seq, Option<Ret>)`
abbrev pub Op : Type 0 → Type 0 → Type 0
Op Seq Ret = Seq → Option Ret → Seq × Option Ret

pub record InvokeEvent (Seq Ret : Type 0) : Type 0 where
  pub id : ℕ
  pub message : String
  pub op : Op Seq Ret
  pub arg : Option Ret
  pub res : Option Ret

pub record ReturnEvent (Ret : Type 0) : Type 0 where
  pub id : ℕ
  pub result : Option Ret

pub data Event (Seq Ret : Type 0) : Type 0 where
  invoke : InvokeEvent Seq Ret → Event Seq Ret
  return : ReturnEvent Ret → Event Seq Ret

pub record TimeStamped (Seq Ret : Type 0) : Type 0 where
  pub stamp : ℕ
  pub event : Event Seq Ret

module _ {Seq Ret : Type 0} where
  -- `now` is what `Instant::now()` returns.
  abbrev pub new_invoke : (now : ℕ) → ℕ → String → Op Seq Ret → Option Ret → TimeStamped Seq Ret
  new_invoke now id message seq_method arg = record {
    stamp = now;
    event = invoke (record { id = id; message = message; op = seq_method; arg = arg; res = none });
  }

  abbrev pub new_return : (now : ℕ) → ℕ → Option Ret → TimeStamped Seq Ret
  new_return now id result = record {
    stamp = now;
    event = return (record { id = id; result = result });
  }

  abbrev pub cmp : TimeStamped Seq Ret → TimeStamped Seq Ret → Ordering
  cmp a b = compare a.stamp b.stamp

  abbrev pub eq : TimeStamped Seq Ret → TimeStamped Seq Ret → Bool
  eq a b = a.stamp == b.stamp
