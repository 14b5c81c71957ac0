-- ===== src/Structures/SegQueue/Placed.antt =====
-- An attempt to enqueue in the segmented queue with no other thread at work.
use rustcurrent.Prelude.{
  ℕ, zero, suc, ◌+◌, ◌-◌, ◌^◌, ◌<◌, ◌≤◌, ◌≡◌, ◌≢◌, refl, ap, sym, ◌∙◌, inl, inr, arith, Bool, true,
  false, ◌&&◌, Option, none, some, List, [], ◌∷◌, has, update, ltb, ◌==◌, ==_refl, ==_iff,
  if◌then◌else◌, Bool-cases, Result, ok, err,
}
use mathlib.Core.Option
use mathlib.Core.Path.{subst}
use Prim.Native.Nat.{bit_and}
use rustcurrent.Structures.Order.Mask.{bit_and_le, pow_pos}
use rustcurrent.Concurrent.{Prog, ret, ◌>>◌}
use rustcurrent.Concurrent.Returns.{Returns, Returns-bind, Returns-weaken, Returns-zoom}
use rustcurrent.Memory.Hazard
use rustcurrent.Memory.Hazard.{Manager}
use rustcurrent.Memory.Hazard.Ready.{Ready, protect-Ready}
use rustcurrent.Structures.Order.{
  OrderGeneratorIterator, visited, visited_complete, new_generator, iter,
}
use rustcurrent.Structures.SegQueue.{
  SegQueue, set_cell, set_tail, set_next, set_manager, place, place_loop, advance_tail, try_enqueue,
  new_segment,
}

module _ {T : Type 0} (a datum : ℕ) (s : SegQueue T) where
  -- The pointer is in one of the cells that was empty, or none of the cells visited is empty.
  abbrev pub Searched : List ℕ → Bool → SegQueue T → Type 0
  Searched is true s' =
      (i : ℕ) × (i < s.k) × ((s.segment a).cells i ≡ 0) × (s' ≡ set_cell a i datum s)
  Searched is false s' = (s' ≡ s) × ((i : ℕ) → has i is ≡ true → (s.segment a).cells i ≢ 0)

  Searched-cons :
      (i : ℕ) (is : List ℕ)
      → (s.segment a).cells i ≢ 0
      → (placed : Bool) (s' : SegQueue T) → Searched is placed s'
      → Searched (i ∷ is) placed s'
  Searched-cons i is full true s' found = found
  Searched-cons i is full false s' (same, others) = (
    same,
    λ j seen. elim (Bool-cases (j == i)) [
      | inl at ↦ subst (λ x. (s.segment a).cells x ≢ 0) (sym ((==_iff j i).0 at)) full
      | inr off ↦ others j (sym (ap (λ b. if b then true else has j is) off) ∙ seen)
    ],
  )

  abbrev stop : OrderGeneratorIterator → Bool
  stop it = (bit_and it.current it.bitmask == it.start) && it.started

  abbrev advanced : OrderGeneratorIterator → OrderGeneratorIterator
  advanced it = record it { current = it.current + 1; started = true }

  place-Returns :
      (rest : OrderGeneratorIterator → Prog (SegQueue T) Bool) (i : ℕ) (it : OrderGeneratorIterator)
      (is : List ℕ)
      → i < s.k
      → Returns (Searched is) (rest it) s
      → Returns (Searched (i ∷ is)) (place a datum rest (some i, it)) s
  place-Returns rest i it is inside h =
      let lt : ltb i s.k ≡ true = ground arith in
      elim (Bool-cases ((s.segment a).cells i == 0)) [
        | inl free ↦
            rw (Returns, lt, free, free)
              (i, inside, (==_iff ((s.segment a).cells i) 0).0 free, refl)
        | inr full ↦
            let used : (s.segment a).cells i ≢ 0 =
              λ e. let y = (==_iff ((s.segment a).cells i) 0).1 e in cc in
            rw (Returns, lt, full)
              (Returns-weaken (Searched is) (Searched (i ∷ is)) (rest it) s
                (Searched-cons i is used) h)
      ]

  place_loop-Returns :
      (n : ℕ) (it : OrderGeneratorIterator) (is : List ℕ)
      → it.bitmask + 1 ≡ s.k
      → visited n it ≡ some is
      → Returns (Searched is) (place_loop n a datum it) s
  unfolding place_loop visited
  place_loop-Returns zero it is size e = cc
  place_loop-Returns (suc n) it is size e = elim (Bool-cases (stop it)) [
    | inl last ↦
        let none_left : some [] ≡ some is = sym (rw last refl) ∙ e in
        let same : is ≡ [] = cc in
        rw last (refl, λ i seen. let x : has i [] ≡ true = ap (has i) (sym same) ∙ seen in cc)
    | inr more ↦
        let rest : Option.map (λ js. (bit_and it.current it.bitmask) ∷ js) (visited n (advanced it))
            ≡ some is =
          sym (rw more refl) ∙ e in
        rw more (
          continued (λ js now. place_loop-Returns n (advanced it) js size now)
            (visited n (advanced it)) refl rest)
  ]
    where
      continued :
          ((js : List ℕ)
            → visited n (advanced it) ≡ some js
            → Returns (Searched js) (place_loop n a datum (advanced it)) s)
          → (o : Option (List ℕ)) → visited n (advanced it) ≡ o
          → Option.map (λ js. (bit_and it.current it.bitmask) ∷ js) o ≡ some is
          → Returns
              (Searched is)
              (place a datum
                (place_loop n a datum)
                (some (bit_and it.current it.bitmask), advanced it))
              s
      continued ih none now e = cc
      continued ih (some js) now e =
          let index : ℕ = bit_and it.current it.bitmask in
          let whole : index ∷ js ≡ is = cc in
          subst
            (λ is.
              Returns (Searched is) (place a datum (place_loop n a datum) (some index, advanced it))
                s)
            whole
            (place-Returns (place_loop n a datum) index (advanced it) js
              (omega (arith, size, bit_and_le it.current it.bitmask)) (ih js now))

-- The tail moves on: to the next segment, or to a new one behind it.
abbrev pub grown : {T : Type 0} → SegQueue T → SegQueue T
grown s =
    if (s.segment s.tail).next == 0
    then set_tail (s.last + 1) (
        set_next s.tail (s.last + 1)
          (record s { segment = update s.segment (s.last + 1) new_segment; last = s.last + 1 }))
    else set_tail (s.segment s.tail).next s

advance_tail-Returns :
    {T : Type 0} (s : SegQueue T)
    → s.tail ≤ s.last
    → Returns (λ _ s'. s' ≡ grown s) (advance_tail s.tail) s
unfolding advance_tail
advance_tail-Returns s old = elim (Bool-cases ((s.segment s.tail).next == 0)) [
  | inr linked ↦ rw (Returns, ==_refl s.tail, linked, ==_refl s.tail) (sym (rw linked refl))
  | inl bare ↦
      let off : (s.last + 1 == s.tail) ≡ false = ground arith in
      rw (Returns, ==_refl s.tail, bare, off, ==_refl ((s.segment s.tail).next))
        (rw (Returns, ==_refl s.tail) (sym (rw (bare, off) refl)))
]

module _ {T : Type 0} (rounds tid datum : ℕ) (s : SegQueue T) where
  -- The box is in a cell of the last segment that was empty; or it comes back, when none was empty,
  -- and the tail has moved on.
  abbrev pub Enqueued : Result (Unit {0}) ℕ → SegQueue T → Type 0
  Enqueued (ok _) s' =
      (i : ℕ) × (i < s.k)
      × ((s.segment s.tail).cells i ≡ 0)
      × (m : Manager) × Ready rounds tid m
      × (s' ≡ set_manager m (set_cell s.tail i datum s))
  Enqueued (err d) s' =
      (d ≡ datum)
      × ((i : ℕ) → i < s.k → (s.segment s.tail).cells i ≢ 0)
      × (m : Manager) × Ready rounds tid m
      × (s' ≡ grown (set_manager m s))

  -- With no other thread at work, an attempt to enqueue returns, for any random number and a
  -- size that is a power of 2. When a cell of
  -- the last segment is empty, the box is then in one that was empty, and the result is `Ok`.
  -- Otherwise the box comes back, and the tail is the next segment or a new one.
  pub try_enqueue-Enqueued :
      (rand w : ℕ)
      → Ready rounds tid s.manager
      → s.k ≡ 2 ^ w
      → s.tail ≤ s.last
      → Returns Enqueued (try_enqueue rounds tid rand datum) s
  unfolding try_enqueue
  try_enqueue-Enqueued rand w ready power old =
      Returns-zoom (λ s. s.manager) set_manager (λ _ m. Ready rounds tid m) Enqueued
        (Hazard.protect rounds tid s.tail 0) _ s (λ m s. refl) (λ m m' s. refl) (λ s. refl)
        (protect-Ready rounds tid s.tail s.manager ready)
        λ _ m ready'.
          let sized : 0 < s.k = subst (λ k. 0 < k) (sym power) (pow_pos w) in
          let (is, all, _, complete) =
            visited_complete (bit_and rand (s.k - 1)) s.k w power
              (omega (arith, sized, bit_and_le rand (s.k - 1))) in
          rw (Returns, ==_refl s.tail)
            (Returns-bind (Searched s.tail datum (set_manager m s) is) Enqueued
              (place_loop (suc s.k) s.tail datum
                (iter (new_generator (bit_and rand (s.k - 1)) s.k)))
              _ (set_manager m s)
              (place_loop-Returns s.tail datum (set_manager m s) (suc s.k)
                (iter (new_generator (bit_and rand (s.k - 1)) s.k)) is (omega (arith, sized)) all)
              (after is complete m ready'))
    where
      after :
          (is : List ℕ)
          → ((i : ℕ) → i < s.k → has i is ≡ true)
          → (m : Manager) → Ready rounds tid m
          → (placed : Bool) (s' : SegQueue T) → Searched s.tail datum (set_manager m s) is placed s'
          → Returns Enqueued
              (if placed then ret (ok tt) else (advance_tail s.tail >> ret (err datum)))
              s'
      after is complete m ready' true s' (i, inside, free, same) =
          (i, inside, free, m, ready', same)
      after is complete m ready' false s' (same, full) =
          subst (λ s'. Returns Enqueued (advance_tail s.tail >> ret (err datum)) s') (sym same)
            (Returns-bind (λ _ s'. s' ≡ grown (set_manager m s)) Enqueued (advance_tail s.tail)
              (λ _. ret (err datum)) (set_manager m s) (advance_tail-Returns (set_manager m s) old)
              λ _ s' moved. (refl, λ i inside. full i (complete i inside), m, ready', moved))
