-- ===== src/Testing/ThreadLog/InsertionSort.antt =====
-- A stable sort, for the tests: events are inserted before those that are not earlier.
use rustcurrent.Prelude.{
  ℕ, ◌≤◌, ◌≡◌, refl, ap, ◌∙◌, inl, inr, arith, List, [], ◌∷◌, leb, false, ◌==◌, if◌then◌else◌,
  Bool-cases,
}
use rustcurrent.Testing.TimeStamped.{TimeStamped}
use rustcurrent.Testing.ThreadLog.Merge.{AllFrom, IsSorted, at_stamp, IsStableSort}

module _ {Seq Ret : Type 0} where
  abbrev insert_stamped :
      TimeStamped Seq Ret → List (TimeStamped Seq Ret) → List (TimeStamped Seq Ret)
  insert_stamped t [] = t ∷ []
  insert_stamped t (u ∷ ts) = if leb t.stamp u.stamp then t ∷ u ∷ ts else u ∷ insert_stamped t ts

  unfoldable pub sort : List (TimeStamped Seq Ret) → List (TimeStamped Seq Ret)
  sort [] = []
  sort (t ∷ ts) = insert_stamped t (sort ts)

  AllFrom-weaken : (m n : ℕ) (ts : List (TimeStamped Seq Ret)) → m ≤ n → AllFrom n ts → AllFrom m ts
  AllFrom-weaken m n [] h a = tt
  AllFrom-weaken m n (t ∷ ts) h (b, a) = (omega arith, AllFrom-weaken m n ts h a)

  AllFrom-insert :
      (n : ℕ) (t : TimeStamped Seq Ret) (ts : List (TimeStamped Seq Ret))
      → n ≤ t.stamp
      → AllFrom n ts
      → AllFrom n (insert_stamped t ts)
  AllFrom-insert n t [] h a = (h, tt)
  AllFrom-insert n t (u ∷ ts) h (b, a) = elim (Bool-cases (leb t.stamp u.stamp)) [
    | inl before ↦ rw before (h, (b, a))
    | inr after ↦ rw after (b, AllFrom-insert n t ts h a)
  ]

  IsSorted-insert :
      (t : TimeStamped Seq Ret) (ts : List (TimeStamped Seq Ret))
      → IsSorted ts
      → IsSorted (insert_stamped t ts)
  IsSorted-insert t [] s = (tt, tt)
  IsSorted-insert t (u ∷ ts) (a, s) = elim (Bool-cases (leb t.stamp u.stamp)) [
    | inl before ↦
        let le : t.stamp ≤ u.stamp = ground arith in
        rw before ((le, AllFrom-weaken t.stamp u.stamp ts le a), (a, s))
    | inr after ↦
        let le : u.stamp ≤ t.stamp = ground arith in
        rw after (AllFrom-insert u.stamp t ts le a, IsSorted-insert t ts s)
  ]

  sort-IsSorted : (ts : List (TimeStamped Seq Ret)) → IsSorted (sort ts)
  unfolding sort
  sort-IsSorted [] = tt
  sort-IsSorted (t ∷ ts) = IsSorted-insert t (sort ts) (sort-IsSorted ts)

  at_stamp-insert :
      (n : ℕ) (t : TimeStamped Seq Ret) (ts : List (TimeStamped Seq Ret))
      → at_stamp n (insert_stamped t ts) ≡ at_stamp n (t ∷ ts)
  at_stamp-insert n t [] = refl
  at_stamp-insert n t (u ∷ ts) = elim (Bool-cases (leb t.stamp u.stamp)) [
    | inl before ↦ rw before refl
    | inr after ↦ elim (Bool-cases (u.stamp == n)) [
      | inr other ↦ rw (after, other) (at_stamp-insert n t ts)
      | inl here ↦
          let earlier : (t.stamp == n) ≡ false = ground arith in
          rw (after, here, earlier) (ap (λ l. u ∷ l) (at_stamp-insert n t ts ∙ rw earlier refl))
    ]
  ]

  sort-stable : (n : ℕ) (ts : List (TimeStamped Seq Ret)) → at_stamp n (sort ts) ≡ at_stamp n ts
  unfolding sort
  sort-stable n [] = refl
  sort-stable n (t ∷ ts) =
      at_stamp-insert n t (sort ts) ∙ ap (λ l. if t.stamp == n then t ∷ l else l) (sort-stable n ts)

  pub sort-IsStableSort : IsStableSort sort
  sort-IsStableSort = record { sorted = sort-IsSorted; stable = sort-stable }
