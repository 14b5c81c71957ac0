-- ===== src/Concurrent/Linearization.antt =====
-- Linearization points of a method that runs beside other threads.
use rustcurrent.Prelude.{
  ◌≡◌, refl, ◌⊎◌, inl, inr, ℕ, Bool, true, false, ◌==◌, if◌then◌else◌, Result, ok, err,
}
use rustcurrent.Concurrent.{Prog, ret, act, crash, spin, ◌>>=◌, zoom, compare_exchange}

module _ {S A : Type 0} where
  -- After its linearization point, with result `r`: the remaining steps are `Quiet`, and the method
  -- returns `r`, if no crash or spin ends it first. Between the steps the other threads act as `Rely`
  -- says.
  abbrev pub After : (Rely Quiet : S → S → Type 0) → A → Prog S A → S → Type 0
  After Rely Quiet r (ret a) s = a ≡ r
  After Rely Quiet r (act f k) s =
      (s' : S) → Rely s s' → Quiet s' (f s') × After Rely Quiet r (k s') (f s')
  After Rely Quiet r crash s = Unit
  After Rely Quiet r spin s = Unit

  -- Each step is `Quiet`, but for one, the linearization point, that has the effect of the result
  -- that the method returns. A method that returns with no such point gives a result that `Void`
  -- allows. The other threads act as `Rely` says before the point, and as `Owned` says after it.
  abbrev pub Linearizes :
      (Rely Owned Quiet : S → S → Type 0)
      → (Effect : A → S → S → Type 0) → (Void : A → Type 0) → Prog S A
      → S
      → Type 0
  Linearizes Rely Owned Quiet Effect Void (ret a) s = Void a
  Linearizes Rely Owned Quiet Effect Void (act f k) s =
      (s' : S)
      → Rely s s'
      → (Quiet s' (f s') × Linearizes Rely Owned Quiet Effect Void (k s') (f s'))
        ⊎ ((r : A) × Effect r s' (f s') × After Owned Quiet r (k s') (f s'))
  Linearizes Rely Owned Quiet Effect Void crash s = Unit
  Linearizes Rely Owned Quiet Effect Void spin s = Unit

  -- The same from the first step on, where `Rely` and `Owned` may speak of the state that it reads.
  abbrev pub LinearizesFrom :
      (Rely Owned : S → S → S → Type 0)
      → (Quiet : S → S → Type 0) → (Effect : A → S → S → Type 0) → (Void : A → Type 0) → Prog S A
      → Type 0
  LinearizesFrom Rely Owned Quiet Effect Void (ret a) = Void a
  LinearizesFrom Rely Owned Quiet Effect Void (act f k) =
      (s : S)
      → (Quiet s (f s) × Linearizes (Rely s) (Owned s) Quiet Effect Void (k s) (f s))
        ⊎ ((r : A) × Effect r s (f s) × After (Owned s) Quiet r (k s) (f s))
  LinearizesFrom Rely Owned Quiet Effect Void crash = Unit
  LinearizesFrom Rely Owned Quiet Effect Void spin = Unit

module _ {S A : Type 0} (Rely Owned Quiet : S → S → Type 0) (Effect : A → S → S → Type 0)
    (Void : A → Type 0) where
  pub Linearizes-split :
      (b : Bool) (p q : Prog S A) (s : S)
      → (b ≡ true → Linearizes Rely Owned Quiet Effect Void p s)
      → (b ≡ false → Linearizes Rely Owned Quiet Effect Void q s)
      → Linearizes Rely Owned Quiet Effect Void (if b then p else q) s
  Linearizes-split true p q s h k = h refl
  Linearizes-split false p q s h k = k refl

  -- A compare-exchange is the linearization point when it succeeds.
  pub Linearizes-exchange :
      (get : S → ℕ) (put : ℕ → S → S) (current new : ℕ) (g : Result ℕ ℕ → Prog S A) (s : S)
      → ((s' : S)
          → Rely s s'
          → (get s' == current) ≡ true
          → (r : A) × Effect r s' (put new s') × After Owned Quiet r (g (ok (get s'))) (put new s'))
      → ((s' : S)
          → Rely s s'
          → Quiet s' s' × Linearizes Rely Owned Quiet Effect Void (g (err (get s'))) s')
      → Linearizes Rely Owned Quiet Effect Void (compare_exchange get put current new >>= g) s
  Linearizes-exchange get put current new g s won lost =
      λ s' r. go s' (get s' == current) (won s' r) (λ _. lost s' r)
    where
      go :
          (s' : S) (b : Bool)
          → (b ≡ true
              → (r : A) × Effect r s' (put new s')
                × After Owned Quiet r (g (ok (get s'))) (put new s'))
          → (b ≡ false
              → Quiet s' s' × Linearizes Rely Owned Quiet Effect Void (g (err (get s'))) s')
          → let f = if b then put new s' else s' in
            let k = g (if b then ok (get s') else err (get s')) in
            (Quiet s' f × Linearizes Rely Owned Quiet Effect Void k f)
            ⊎ ((r : A) × Effect r s' f × After Owned Quiet r k f)
      go s' true won lost = inr (won refl)
      go s' false won lost = inl (lost refl)

-- Steps on another part of the state come before a method.
pub Linearizes-zoom :
    {S T A B : Type 0} (Rely Owned Quiet : S → S → Type 0) (Effect : B → S → S → Type 0)
    (Void : B → Type 0) (get : S → T) (put : T → S → S) (p : Prog T A) (g : A → Prog S B)
    (Inv : S → Type 0) (s : S)
    → ((t : T) (s : S) → Quiet s (put t s))
    → ((s s' : S) → Inv s → Rely s s' → Inv s')
    → ((t : T) (s : S) → Inv s → Inv (put t s))
    → Inv s
    → ((a : A) (s : S) → Inv s → Linearizes Rely Owned Quiet Effect Void (g a) s)
    → Linearizes Rely Owned Quiet Effect Void (zoom get put p >>= g) s
Linearizes-zoom R O Q E V get put (ret a) g Inv s quiet kept puts i next = next a s i
Linearizes-zoom R O Q E V get put (act f k) g Inv s quiet kept puts i next = λ s' r. inl (
  quiet (f (get s')) s',
  Linearizes-zoom R O Q E V get put (k (get s')) g Inv (put (f (get s')) s') quiet kept puts
      (puts (f (get s')) s' (kept s s' i r)) next,
)
Linearizes-zoom R O Q E V get put crash g Inv s quiet kept puts i next = tt
Linearizes-zoom R O Q E V get put spin g Inv s quiet kept puts i next = tt

pub After-zoom :
    {S T A B : Type 0} (Rely Quiet : S → S → Type 0) (r : B) (get : S → T) (put : T → S → S)
    (p : Prog T A) (g : A → Prog S B) (s : S)
    → ((t : T) (s : S) → Quiet s (put t s))
    → ((a : A) (s : S) → After Rely Quiet r (g a) s)
    → After Rely Quiet r (zoom get put p >>= g) s
After-zoom R Q r get put (ret a) g s quiet next = next a s
After-zoom R Q r get put (act f k) g s quiet next = λ s' _. (
  quiet (f (get s')) s',
  After-zoom R Q r get put (k (get s')) g (put (f (get s')) s') quiet next,
)
After-zoom R Q r get put crash g s quiet next = tt
After-zoom R Q r get put spin g s quiet next = tt
