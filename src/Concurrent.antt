-- ===== src/Concurrent.antt =====
-- Code over shared memory, one atomic access at a time. A program is a tree: each step changes the
-- shared state and goes on as what it has read says, so that other threads may act in between.
pub mod Guarantee
pub mod Linearization
pub mod Returns
use rustcurrent.Prelude.{
  ℕ, Bool, true, false, ◌≡◌, refl, ap, ◌==◌, if◌then◌else◌, Result, ok, err, Option, none, some,
}

-- `crash` is a panic, an index out of bounds or a null pointer that is followed; `spin` is a retry
-- loop at the end of the rounds that it is given.
pub data Prog (S A : Type 0) : Type 0 where
  ret : A → Prog S A
  act : (S → S) → (S → Prog S A) → Prog S A
  crash : Prog S A
  spin : Prog S A

infixl 5 ◌>>=◌ ◌>>◌
abbrev pub ◌>>=◌ : {S A B : Type 0} → Prog S A → (A → Prog S B) → Prog S B
ret a >>= g = g a
act f k >>= g = act f (λ s. k s >>= g)
crash >>= g = crash
spin >>= g = spin

abbrev pub ◌>>◌ : {S A B : Type 0} → Prog S A → Prog S B → Prog S B
m >> n = m >>= λ _. n

module _ {S : Type 0} where
  abbrev pub load : {A : Type 0} → (S → A) → Prog S A
  load g = act (λ s. s) (λ s. ret (g s))

  abbrev pub modify : (S → S) → Prog S (Unit {0})
  modify f = act f (λ _. ret tt)

  -- `compare_exchange` of a word that `get` reads and `put` writes: `Ok` with the old value, or
  -- `Err` with the value found.
  abbrev pub compare_exchange : (S → ℕ) → (ℕ → S → S) → (current new : ℕ) → Prog S (Result ℕ ℕ)
  compare_exchange get put current new =
      act (λ s. if get s == current then put new s else s)
        (λ s. ret (if get s == current then ok (get s) else err (get s)))

  -- `Option::unwrap` and an index out of bounds.
  abbrev pub unwrap : {A : Type 0} → Option A → Prog S A
  unwrap none = crash
  unwrap (some a) = ret a

-- A program over a part of the state.
abbrev pub zoom : {S T A : Type 0} → (S → T) → (T → S → S) → Prog T A → Prog S A
zoom get put (ret a) = ret a
zoom get put (act f k) = act (λ s. put (f (get s)) s) (λ s. zoom get put (k (get s)))
zoom get put crash = crash
zoom get put spin = spin

pub data Final (S A : Type 0) : Type 0 where
  done : A → S → Final S A
  crashed : Final S A
  spinning : Final S A

-- The program with no other thread.
unfoldable pub run : {S A : Type 0} → Prog S A → S → Final S A
run (ret a) s = done a s
run (act f k) s = run (k s) (f s)
run crash s = crashed
run spin s = spinning

abbrev pub and_then : {S A B : Type 0} → Final S A → (A → S → Final S B) → Final S B
and_then (done a s) k = k a s
and_then crashed k = crashed
and_then spinning k = spinning

pub run-bind :
    {S A B : Type 0} (p : Prog S A) (g : A → Prog S B) (s : S)
    → run (p >>= g) s ≡ and_then (run p s) (λ a s'. run (g a) s')
unfolding run
run-bind (ret a) g s = refl
run-bind (act f k) g s = run-bind (k s) g (f s)
run-bind crash g s = refl
run-bind spin g s = refl

pub run-if :
    {S A : Type 0} (b : Bool) (p q : Prog S A) (s : S)
    → run (if b then p else q) s ≡ (if b then run p s else run q s)
run-if true p q s = refl
run-if false p q s = refl

module _ {S B : Type 0} (get : S → ℕ) (put : ℕ → S → S) (current new : ℕ)
    (g : Result ℕ ℕ → Prog S B) (s : S) where
  pub compare_exchange-ok :
      (get s == current) ≡ true
      → run (compare_exchange get put current new >>= g) s ≡ run (g (ok (get s))) (put new s)
  unfolding run
  compare_exchange-ok e =
      ap (λ b. run (g (if b then ok (get s) else err (get s))) (if b then put new s else s)) e

  pub compare_exchange-err :
      (get s == current) ≡ false
      → run (compare_exchange get put current new >>= g) s ≡ run (g (err (get s))) s
  unfolding run
  compare_exchange-err e =
      ap (λ b. run (g (if b then ok (get s) else err (get s))) (if b then put new s else s)) e
