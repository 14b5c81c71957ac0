-- ===== src/Testing/ThreadLog/Unique.antt =====
-- There is one history of the logs.
use rustcurrent.Prelude.{
  ℕ, ◌≤◌, ◌≡◌, refl, sym, ap, ◌∙◌, inl, inr, arith, List, [], ◌∷◌, ◌==◌, ==_refl, Bool-cases, true,
}
use rustcurrent.Testing.TimeStamped.{TimeStamped}
use rustcurrent.Testing.ThreadLog.{ThreadLog}
use rustcurrent.Testing.ThreadLog.Merge.{AllFrom, IsSorted, at_stamp, IsHistory}

module _ {Seq Ret : Type 0} where
  cons_eq :
      {t u : TimeStamped Seq Ret} {ts us : List (TimeStamped Seq Ret)}
      → t ∷ ts ≡ u ∷ us
      → (t ≡ u) × (ts ≡ us)
  cons_eq e = (cc, cc)

  AllFrom-at_stamp :
      (m n : ℕ) (ts : List (TimeStamped Seq Ret)) (u : TimeStamped Seq Ret)
      (us : List (TimeStamped Seq Ret))
      → AllFrom m ts
      → at_stamp n ts ≡ u ∷ us
      → m ≤ n
  AllFrom-at_stamp m n [] u us from e = absurd (cc)
  AllFrom-at_stamp m n (t ∷ ts) u us (le, from) e = elim (Bool-cases (t.stamp == n)) [
    | inl here ↦ ground (arith, le)
    | inr not_here ↦ AllFrom-at_stamp m n ts u us from (sym (rw not_here refl) ∙ e)
  ]

  -- The first event is no later than one that is in both lists.
  first_le :
      (t u : TimeStamped Seq Ret) (ts us : List (TimeStamped Seq Ret))
      → IsSorted (t ∷ ts)
      → ((n : ℕ) → at_stamp n (t ∷ ts) ≡ at_stamp n (u ∷ us))
      → t.stamp ≤ u.stamp
  first_le t u ts us (from, _) same =
      AllFrom-at_stamp t.stamp u.stamp (t ∷ ts) u (at_stamp u.stamp us) (omega arith, from)
        (same u.stamp ∙ rw (==_refl u.stamp) refl)

  sorted_eq :
      (ts us : List (TimeStamped Seq Ret))
      → IsSorted ts
      → IsSorted us
      → ((n : ℕ) → at_stamp n ts ≡ at_stamp n us)
      → ts ≡ us
  sorted_eq [] [] a b same = refl
  sorted_eq [] (u ∷ us) a b same =
      let e : [] ≡ u ∷ at_stamp u.stamp us = same u.stamp ∙ rw (==_refl u.stamp) refl in absurd (cc)
  sorted_eq (t ∷ ts) [] a b same =
      let e : t ∷ at_stamp t.stamp ts ≡ [] = sym (rw (==_refl t.stamp) refl) ∙ same t.stamp in
      absurd (cc)
  sorted_eq (t ∷ ts) (u ∷ us) a b same =
      let le = first_le t u ts us a same in
      let ge = first_le u t us ts b (λ n. sym (same n)) in
      let stamps : u.stamp ≡ t.stamp = omega arith in
      let both : (n : ℕ) → (t.stamp == n) ≡ true → t ∷ at_stamp n ts ≡ u ∷ at_stamp n us =
        λ n here. sym (rw here refl) ∙ same n ∙ rw (stamps, here) refl in
      ap (λ l. t ∷ l)
        (sorted_eq ts us a.1 b.1 λ n. elim (Bool-cases (t.stamp == n)) [
          | inl here ↦ (cons_eq (both n here)).1
          | inr not_here ↦ sym (rw not_here refl) ∙ same n ∙ rw (stamps, not_here) refl
        ])
      ∙ ap (λ x. x ∷ us) (cons_eq (both t.stamp (==_refl t.stamp))).0

-- Two histories of the same logs are the same.
pub IsHistory-unique :
    {C Seq Ret : Type 0} (logs : List (ThreadLog C Seq Ret)) (ts us : List (TimeStamped Seq Ret))
    → IsHistory logs ts
    → IsHistory logs us
    → ts ≡ us
IsHistory-unique logs ts us (a, e) (b, e') = sorted_eq ts us a b λ n. e n ∙ sym (e' n)
