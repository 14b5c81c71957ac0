-- ===== src/Structures/SegQueue/Taken.antt =====
-- An attempt to dequeue from the segmented queue with no other thread at work.
use rustcurrent.Prelude.{
  ℕ, zero, suc, ◌+◌, ◌-◌, ◌^◌, ◌<◌, ◌≡◌, ◌≢◌, refl, ap, sym, ◌∙◌, ◌⊎◌, inl, inr, arith, Bool, true,
  false, ◌&&◌, Option, none, some, List, [], ◌∷◌, has, ltb, ◌==◌, ==_refl, ==_iff, if◌then◌else◌,
  Bool-cases, Result, ok, err,
}
use mathlib.Core.Option
use mathlib.Core.Path.{subst}
use Prim.Native.Nat.{bit_and}
use rustcurrent.Structures.Order.Mask.{bit_and_le, pow_pos}
use rustcurrent.Concurrent.{Prog}
use rustcurrent.Concurrent.Returns.{Returns, Returns-weaken, Returns-bind, Returns-zoom}
use rustcurrent.Memory.Hazard
use rustcurrent.Memory.Hazard.{Manager}
use rustcurrent.Memory.Hazard.Ready.{Ready, protect-Ready}
use rustcurrent.Structures.Tagged.{is_marked, mark}
use rustcurrent.Structures.Order.{
  OrderGeneratorIterator, visited, visited_complete, new_generator, iter,
}
use rustcurrent.Structures.SegQueue.{SegQueue, set_cell, set_item, set_manager}
use rustcurrent.Structures.SegQueue.Dequeue.{
  Search, got, missed, take_cell, take_loop, after_search, try_dequeue,
}

module _ {T : Type 0} (a : ℕ) (s : SegQueue T) where
  -- The pointer in a cell leads to an item that nobody has taken.
  abbrev pub Untaken : (i p : ℕ) → T → Type 0
  Untaken i p v =
      (i < s.k)
      × ((s.segment a).cells i ≡ p)
      × (p ≢ 0)
      × (is_marked p ≡ false)
      × (s.item p ≡ some v)

  abbrev pub NothingAt : ℕ → Type 0
  NothingAt i = ((s.segment a).cells i ≡ 0) ⊎ (is_marked ((s.segment a).cells i) ≡ true)

  -- The item is taken from its cell, which stays marked; or none of the cells visited has one.
  abbrev pub Taken : List ℕ → Search T → SegQueue T → Type 0
  Taken is (got v) s' =
      (i : ℕ) × (p : ℕ) × Untaken i p v × (s' ≡ set_item p none (set_cell a i (mark p) s))
  Taken is (missed _) s' = (s' ≡ s) × ((i : ℕ) → has i is ≡ true → NothingAt i)

  Taken-cons :
      (i : ℕ) (is : List ℕ)
      → NothingAt i
      → (found : Search T) (s' : SegQueue T) → Taken is found s'
      → Taken (i ∷ is) found s'
  Taken-cons i is nothing (got v) s' taken = taken
  Taken-cons i is nothing (missed b) s' (same, others) = (
    same,
    λ j seen. elim (Bool-cases (j == i)) [
      | inl at ↦ subst NothingAt (sym ((==_iff j i).0 at)) nothing
      | inr off ↦ others j (sym (ap (λ b. if b then true else has j is) off) ∙ seen)
    ],
  )

  abbrev stop : OrderGeneratorIterator → Bool
  stop it = (bit_and it.current it.bitmask == it.start) && it.started

  abbrev advanced : OrderGeneratorIterator → OrderGeneratorIterator
  advanced it = record it { current = it.current + 1; started = true }

  -- What is not taken is an item.
  module _
      (items : (i : ℕ)
        → i < s.k
        → (s.segment a).cells i ≢ 0
        → is_marked ((s.segment a).cells i) ≡ false
        → (v : T) × (s.item ((s.segment a).cells i) ≡ some v)) where
    take_cell-Returns :
        (rest : Bool → OrderGeneratorIterator → Prog (SegQueue T) (Search T)) (i : ℕ)
        (it : OrderGeneratorIterator) (has_empty : Bool) (is : List ℕ)
        → i < s.k
        → ((b : Bool) → Returns (Taken is) (rest b it) s)
        → Returns (Taken (i ∷ is)) (take_cell a has_empty rest (some i, it)) s
    take_cell-Returns rest i it has_empty is inside h =
        let lt : ltb i s.k ≡ true = ground arith in
        let p = (s.segment a).cells i in
        elim (Bool-cases (p == 0)) [
          | inl free ↦
              rw (Returns, lt, free)
                (Returns-weaken (Taken is) (Taken (i ∷ is)) (rest true it) s
                  (Taken-cons i is (inl ((==_iff p 0).0 free))) (h true))
          | inr full ↦ elim (Bool-cases (is_marked p)) [
            | inl gone ↦
                rw (Returns, lt, full, gone)
                  (Returns-weaken (Taken is) (Taken (i ∷ is)) (rest has_empty it) s
                    (Taken-cons i is (inr gone)) (h has_empty))
            | inr there ↦
                let used : p ≢ 0 = λ e. let y = (==_iff p 0).1 e in cc in
                let (v, holds) = items i inside used there in
                rw (Returns, lt, full, there, ==_refl p, holds)
                  (i, p, (inside, refl, used, there, holds), refl)
          ]
        ]

    take_loop-Returns :
        (n : ℕ) (it : OrderGeneratorIterator) (has_empty : Bool) (is : List ℕ)
        → it.bitmask + 1 ≡ s.k
        → visited n it ≡ some is
        → Returns (Taken is) (take_loop n a has_empty it) s
    unfolding take_loop visited
    take_loop-Returns zero it has_empty is size e = cc
    take_loop-Returns (suc n) it has_empty is size e = elim (Bool-cases (stop it)) [
      | inl last ↦
          let none_left : some [] ≡ some is = sym (rw last refl) ∙ e in
          let same : is ≡ [] = cc in
          rw last (refl, λ i seen. let x : has i [] ≡ true = ap (has i) (sym same) ∙ seen in cc)
      | inr more ↦
          let rest : Option.map (λ js. (bit_and it.current it.bitmask) ∷ js)
                (visited n (advanced it))
              ≡ some is =
            sym (rw more refl) ∙ e in
          rw more (
            continued (λ js b now. take_loop-Returns n (advanced it) b js size now)
              (visited n (advanced it)) refl rest)
    ]
      where
        continued :
            ((js : List ℕ) (b : Bool)
              → visited n (advanced it) ≡ some js
              → Returns (Taken js) (take_loop n a b (advanced it)) s)
            → (o : Option (List ℕ)) → visited n (advanced it) ≡ o
            → Option.map (λ js. (bit_and it.current it.bitmask) ∷ js) o ≡ some is
            → Returns
                (Taken is)
                (take_cell a has_empty
                  (take_loop n a)
                  (some (bit_and it.current it.bitmask), advanced it))
                s
        continued ih none now e = cc
        continued ih (some js) now e =
            let index : ℕ = bit_and it.current it.bitmask in
            let whole : index ∷ js ≡ is = cc in
            subst
              (λ is.
                Returns (Taken is) (take_cell a has_empty (take_loop n a) (some index, advanced it))
                  s)
              whole
              (take_cell-Returns (take_loop n a) index (advanced it) has_empty js
                (omega (arith, size, bit_and_le it.current it.bitmask)) (λ b. ih js b now))

module _ {T : Type 0} (rounds tid : ℕ) (s : SegQueue T) where
  -- A value that was there comes out, and its cell is marked; or nothing was there.
  abbrev pub Dequeued : Result (Option T) (Unit {0}) → SegQueue T → Type 0
  Dequeued (ok (some v)) s' =
      (i : ℕ) × (p : ℕ) × Untaken s.head s i p v
      × (m : Manager) × Ready rounds tid m
      × (s' ≡ set_manager m (set_item p none (set_cell s.head i (mark p) s)))
  Dequeued (ok none) s' =
      ((i : ℕ) → i < s.k → NothingAt s.head s i)
      × (m : Manager) × Ready rounds tid m
      × (s' ≡ set_manager m s)
  Dequeued (err _) s' = ⊥

  -- With no other thread at work, an attempt to dequeue from a queue with one segment returns `Ok`,
  -- for any random number and a size that is a power of 2. The value is that of an item of the segment that was not taken, whose cell
  -- is then marked; it is `None` when each cell is empty or marked, and then nothing has changed.
  pub try_dequeue-Dequeued :
      (rand w : ℕ)
      → Ready rounds tid s.manager
      → s.k ≡ 2 ^ w
      → s.head ≡ s.tail
      → ((i : ℕ)
          → i < s.k
          → (s.segment s.head).cells i ≢ 0
          → is_marked ((s.segment s.head).cells i) ≡ false
          → (v : T) × (s.item ((s.segment s.head).cells i) ≡ some v))
      → Returns Dequeued (try_dequeue rounds tid rand) s
  unfolding try_dequeue
  try_dequeue-Dequeued rand w ready power alone items =
      Returns-zoom (λ s. s.manager) set_manager (λ _ m. Ready rounds tid m) Dequeued
        (Hazard.protect rounds tid s.head 0) _ s (λ m s. refl) (λ m m' s. refl) (λ s. refl)
        (protect-Ready rounds tid s.head s.manager ready)
        λ _ m ready'.
          let sized : 0 < s.k = subst (λ k. 0 < k) (sym power) (pow_pos w) in
          let (is, all, _, complete) =
            visited_complete (bit_and rand (s.k - 1)) s.k w power
              (omega (arith, sized, bit_and_le rand (s.k - 1))) in
          rw (Returns, ==_refl s.head)
            (Returns-bind (Taken s.head (set_manager m s) is) Dequeued
              (take_loop (suc s.k) s.head false (iter (new_generator (bit_and rand (s.k - 1)) s.k)))
              _ (set_manager m s)
              (take_loop-Returns s.head (set_manager m s) items (suc s.k)
                (iter (new_generator (bit_and rand (s.k - 1)) s.k)) false is (omega (arith, sized))
                all)
              (after is complete m ready'))
    where
      after :
          (is : List ℕ)
          → ((i : ℕ) → i < s.k → has i is ≡ true)
          → (m : Manager) → Ready rounds tid m
          → (found : Search T) (s' : SegQueue T) → Taken s.head (set_manager m s) is found s'
          → Returns Dequeued (after_search rounds tid s.head found) s'
      after is complete m ready' (got v) s' (i, p, untaken, same) = (i, p, untaken, m, ready', same)
      after is complete m ready' (missed b) s' (same, nothing) =
          let last : (s.head == s.tail) ≡ true = (==_iff s.head s.tail).1 alone in
          subst (λ s'. Returns Dequeued (after_search rounds tid s.head (missed b)) s') (sym same)
            (rw (Returns, last) ((λ i inside. nothing i (complete i inside)), m, ready', refl))
