-- ===== src/Structures/Set/Iter.antt =====
-- The iterators of the hash set over two sets, `Difference`, `Intersection` and `Union`. Each set has
-- its own table, manager and hash function; a method of one set is a method on the pair. The iterator
-- over one set is that of the hash map, whose code is the same.
use rustcurrent.Prelude.{ℕ, zero, suc, Option, none, some, not, if◌then◌else◌}
use rustcurrent.Concurrent.{Prog, ret, spin, ◌>>=◌, ◌>>◌, zoom}
use rustcurrent.Structures.Map.{Table}
use rustcurrent.Structures.Map.Iter
use rustcurrent.Structures.Map.Iter.{Iter, new_iter, drop_handle}
use rustcurrent.Structures.Set.{contains}

-- `HashSet::iter`
abbrev pub iter : Iter
iter = new_iter

abbrev pub next : {T : Type 0} → (rounds tid n : ℕ) → Iter → Prog (Table T) (Option (T × ℕ) × Iter)
next = Iter.next

-- The set that is iterated over, and the other one.
abbrev pub Sets : Type 0 → Type 0
Sets T = Table T × Table T

module _ {T : Type 0} where
  abbrev pub on_self : {A : Type 0} → Prog (Table T) A → Prog (Sets T) A
  on_self p = zoom (λ s. s.0) (λ t s. (t, s.1)) p

  abbrev pub on_other : {A : Type 0} → Prog (Table T) A → Prog (Sets T) A
  on_other p = zoom (λ s. s.1) (λ t s. (s.0, t)) p

  -- The sets in the other order.
  abbrev pub swapped : {A : Type 0} → Prog (Sets T) A → Prog (Sets T) A
  swapped p = zoom (λ s. (s.1, s.0)) (λ x s. (x.1, x.0)) p

-- `hash_of` is the hash function of the set that is asked; `calls` bounds the calls of `next` of the iterator
-- by itself, and `n` the rounds of the loop. An item that is not returned is dropped.
module _ {T : Type 0} (hash_of : T → ℕ) (rounds tid calls : ℕ) where
  unfoldable pub difference_next : (n : ℕ) → Iter → Prog (Sets T) (Option (T × ℕ) × Iter)
  unfolding Iter.next contains
  difference_next zero it = spin
  difference_next (suc n) it = do
    (item, it') ← on_self (next rounds tid calls it)
    elim item [
      | none ↦ ret (none, it')
      | some (v, handle) ↦ do
        found ← on_other (contains hash_of rounds tid v)
        if not found
            then ret (some (v, handle), it')
            else on_self (drop_handle rounds tid handle) >> difference_next n it'
    ]

  unfoldable pub intersection_next : (n : ℕ) → Iter → Prog (Sets T) (Option (T × ℕ) × Iter)
  unfolding Iter.next contains
  intersection_next zero it = spin
  intersection_next (suc n) it = do
    (item, it') ← on_self (next rounds tid calls it)
    elim item [
      | none ↦ ret (none, it')
      | some (v, handle) ↦ do
        found ← on_other (contains hash_of rounds tid v)
        if found
            then ret (some (v, handle), it')
            else on_self (drop_handle rounds tid handle) >> intersection_next n it'
    ]

-- `self.iter().chain(other.difference(self))`: the first iterator until it ends, then the second.
pub record Union : Type 0 where
  pub front : Option Iter
  pub back : Iter

abbrev pub new_union : Union
new_union = record { front = some iter; back = iter }

module _ {T : Type 0} (hash_of : T → ℕ) (rounds tid calls n : ℕ) where
  unfoldable pub back_next : Union → Prog (Sets T) (Option (T × ℕ) × Union)
  unfolding difference_next
  back_next u = do
    (item, it') ← swapped (difference_next hash_of rounds tid calls n u.back)
    ret (item, record u { back = it' })

  abbrev after_front : Iter → Option (T × ℕ) → Union → Prog (Sets T) (Option (T × ℕ) × Union)
  after_front it none u = back_next (record u { front = none })
  after_front it (some item) u = ret (some item, record u { front = some it })

  unfoldable pub union_next : Union → Prog (Sets T) (Option (T × ℕ) × Union)
  unfolding Iter.next back_next
  union_next u = elim u.front [
    | none ↦ back_next u
    | some it ↦ do (item, it') ← on_self (next rounds tid calls it); after_front it' item u
  ]
