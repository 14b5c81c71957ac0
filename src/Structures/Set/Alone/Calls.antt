-- ===== src/Structures/Set/Alone/Calls.antt =====
-- Calls of the hash set one after the other, with no other thread at work.
use rustcurrent.Prelude.{ℕ, ◌^◌, ◌<◌, ◌≡◌, ◌∙◌, Option, none, ◌==◌, ==_refl, if◌then◌else◌, false}
use rustcurrent.Concurrent.{◌>>◌}
use rustcurrent.Concurrent.Returns.{Returns, Returns-weaken, Returns-bind}
use rustcurrent.Structures.Map.{Table}
use rustcurrent.Structures.Map.Alone.{Holds}
use rustcurrent.Structures.Set.{contains}
use rustcurrent.Structures.Set.Remove.{remove}
use rustcurrent.Structures.Set.Alone.{contains-Holds}
use rustcurrent.Structures.Set.Alone.Remove.{Emptied, remove-Emptied}

-- With no other thread at work, `contains` after `remove` of the same key returns false, whether the
-- element was there or not.
pub contains-remove :
    {T Q : Type 0} (hash_of : Q → ℕ) (rounds tid : ℕ) (key : Q) (held : ℕ → Option T) (t : Table T)
    → Holds rounds tid held t
    → hash_of key < 2 ^ 64
    → Returns
        (λ a _. a ≡ false)
        (remove hash_of rounds tid key >> contains hash_of rounds tid key)
        t
contains-remove hash_of rounds tid key held t before small =
    Returns-bind (Emptied rounds tid (hash_of key) held) _ (remove hash_of rounds tid key) _ t
      (remove-Emptied hash_of rounds tid key held t before small)
      λ r s (_, now).
        Returns-weaken _ _ (contains hash_of rounds tid key) s
          (λ a s (e, _). e ∙ rw (==_refl (hash_of key)))
          (contains-Holds hash_of rounds tid key (λ h. if hash_of key == h then none else held h) s
            now small)
