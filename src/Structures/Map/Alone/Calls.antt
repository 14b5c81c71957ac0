-- ===== src/Structures/Map/Alone/Calls.antt =====
-- Calls of the hash map one after the other, with no other thread at work.
use rustcurrent.Prelude.{
  ℕ, ◌^◌, ◌<◌, ◌≡◌, ◌∙◌, Option, none, some, ◌==◌, ==_refl, if◌then◌else◌, Result, ok, err,
}
use rustcurrent.Concurrent.{◌>>◌}
use rustcurrent.Concurrent.Returns.{Returns, Returns-weaken, Returns-bind}
use rustcurrent.Structures.Map.{Table}
use rustcurrent.Structures.Map.Insert.{insert}
use rustcurrent.Structures.Map.Lookup.{get_clone}
use rustcurrent.Structures.Map.Alone.{Holds}
use rustcurrent.Structures.Map.Alone.Insert.{KeyInserted, insert-KeyInserted}
use rustcurrent.Structures.Map.Alone.Lookup.{get_clone-Holds}

-- With no other thread at work, `get_clone` after an `insert` of the same key returns the value that
-- the table held for the hash before the insertion, and the inserted value when it held none.
pub get_clone-insert :
    {K V : Type 0} (hash_of : K → ℕ) (rounds tid : ℕ) (key : K) (value : V) (held : ℕ → Option V)
    (t : Table V)
    → Holds rounds tid held t
    → hash_of key < 2 ^ 64
    → Returns
        (λ a _. a ≡ (elim (held (hash_of key)) [ none ↦ some value | some w ↦ some w ]))
        (insert hash_of rounds tid key value >> get_clone hash_of rounds tid key)
        t
get_clone-insert {K} {V} hash_of rounds tid key value held t before small =
    Returns-bind (KeyInserted rounds tid (hash_of key) key value held) _
      (insert hash_of rounds tid key value) _ t
      (insert-KeyInserted hash_of rounds tid key value held t before small) after
  where
    after :
        (r : Result (Unit {0}) (K × V)) (s : Table V)
        → KeyInserted rounds tid (hash_of key) key value held r s
        → Returns
            (λ a _. a ≡ (elim (held (hash_of key)) [ none ↦ some value | some w ↦ some w ]))
            (get_clone hash_of rounds tid key)
            s
    after (ok _) s (fresh, now) =
        Returns-weaken _ _ (get_clone hash_of rounds tid key) s
          (λ a s (e, _). e ∙ rw (==_refl (hash_of key), fresh))
          (get_clone-Holds hash_of rounds tid key
            (λ h. if hash_of key == h then some value else held h) s now small)
    after (err (k, v)) s (_, _, w, found, now) =
        Returns-weaken _ _ (get_clone hash_of rounds tid key) s (λ a s (e, _). e ∙ rw found)
          (get_clone-Holds hash_of rounds tid key held s now small)
