-- ===== src/Concurrent/Returns.antt =====
-- Total correctness of a method that runs with no other thread.
use rustcurrent.Prelude.{ℕ, ◌≡◌, refl, sym, Bool, true, false, ◌==◌, if◌then◌else◌, Result, ok, err}
use mathlib.Core.Path.{subst}
use rustcurrent.Concurrent.{
  Prog, ret, act, crash, spin, ◌>>=◌, zoom, compare_exchange, Final, done, crashed, spinning, run,
}

module _ {S : Type 0} where
  -- The method returns, and `Post` holds of the result and the state.
  abbrev pub Returns : {A : Type 0} → (A → S → Type 0) → Prog S A → S → Type 0
  Returns Post (ret a) s = Post a s
  Returns Post (act f k) s = Returns Post (k s) (f s)
  Returns Post crash s = ⊥
  Returns Post spin s = ⊥

  abbrev pub DoneWith : {A : Type 0} → (A → S → Type 0) → Final S A → Type 0
  DoneWith Post (done a s) = Post a s
  DoneWith Post crashed = ⊥
  DoneWith Post spinning = ⊥

  pub Returns-run :
      {A : Type 0} (Post : A → S → Type 0) (p : Prog S A) (s : S)
      → DoneWith Post (run p s)
      → Returns Post p s
  unfolding run
  Returns-run Post (ret a) s h = h
  Returns-run Post (act f k) s h = Returns-run Post (k s) (f s) h
  Returns-run Post crash s h = h
  Returns-run Post spin s h = h

  pub run-Returns :
      {A : Type 0} (Post : A → S → Type 0) (p : Prog S A) (s : S)
      → Returns Post p s
      → DoneWith Post (run p s)
  unfolding run
  run-Returns Post (ret a) s h = h
  run-Returns Post (act f k) s h = run-Returns Post (k s) (f s) h
  run-Returns Post crash s h = h
  run-Returns Post spin s h = h

  pub Returns-done :
      {A : Type 0} (Post : A → S → Type 0) (p : Prog S A) (s : S) {a : A} {s' : S}
      → run p s ≡ done a s'
      → Post a s'
      → Returns Post p s
  Returns-done Post p s e h = Returns-run Post p s (subst (λ r. DoneWith Post r) (sym e) h)

  pub Returns-bind :
      {A B : Type 0} (Mid : A → S → Type 0) (Post : B → S → Type 0) (p : Prog S A)
      (g : A → Prog S B) (s : S)
      → Returns Mid p s
      → ((a : A) (s' : S) → Mid a s' → Returns Post (g a) s')
      → Returns Post (p >>= g) s
  Returns-bind Mid Post (ret a) g s h next = next a s h
  Returns-bind Mid Post (act f k) g s h next = Returns-bind Mid Post (k s) g (f s) h next
  Returns-bind Mid Post crash g s h next = h
  Returns-bind Mid Post spin g s h next = h

  pub Returns-weaken :
      {A : Type 0} (Pre Post : A → S → Type 0) (p : Prog S A) (s : S)
      → ((a : A) (s : S) → Pre a s → Post a s)
      → Returns Pre p s
      → Returns Post p s
  Returns-weaken Pre Post (ret a) s up h = up a s h
  Returns-weaken Pre Post (act f k) s up h = Returns-weaken Pre Post (k s) (f s) up h
  Returns-weaken Pre Post crash s up h = h
  Returns-weaken Pre Post spin s up h = h

  pub Returns-split :
      {A : Type 0} (Post : A → S → Type 0) (b : Bool) (p q : Prog S A) (s : S)
      → (b ≡ true → Returns Post p s)
      → (b ≡ false → Returns Post q s)
      → Returns Post (if b then p else q) s
  Returns-split Post true p q s h k = h refl
  Returns-split Post false p q s h k = k refl

  pub Returns-then :
      {A : Type 0} (Post : A → S → Type 0) {b : Bool} (p q : Prog S A) (s : S)
      → b ≡ true
      → Returns Post p s
      → Returns Post (if b then p else q) s
  Returns-then Post {b} p q s e h = subst (λ b. Returns Post (if b then p else q) s) (sym e) h

  pub Returns-else :
      {A : Type 0} (Post : A → S → Type 0) {b : Bool} (p q : Prog S A) (s : S)
      → b ≡ false
      → Returns Post q s
      → Returns Post (if b then p else q) s
  Returns-else Post {b} p q s e h = subst (λ b. Returns Post (if b then p else q) s) (sym e) h

  -- A compare-exchange that finds what it expects.
  pub Returns-exchange :
      {A : Type 0} (Post : A → S → Type 0) (get : S → ℕ) (put : ℕ → S → S) (current new : ℕ)
      (g : Result ℕ ℕ → Prog S A) (s : S)
      → (get s == current) ≡ true
      → Returns Post (g (ok (get s))) (put new s)
      → Returns Post (compare_exchange get put current new >>= g) s
  Returns-exchange Post get put current new g s e h =
      subst
        (λ b. Returns Post (g (if b then ok (get s) else err (get s))) (if b then put new s else s))
        (sym e) h

-- A method on a part of the state, before another.
pub Returns-zoom :
    {S T A B : Type 0} (get : S → T) (put : T → S → S) (Mid : A → T → Type 0)
    (Post : B → S → Type 0) (p : Prog T A) (g : A → Prog S B) (s : S)
    → ((t : T) (s : S) → get (put t s) ≡ t)
    → ((t t' : T) (s : S) → put t' (put t s) ≡ put t' s)
    → ((s : S) → put (get s) s ≡ s)
    → Returns Mid p (get s)
    → ((a : A) (t : T) → Mid a t → Returns Post (g a) (put t s))
    → Returns Post (zoom get put p >>= g) s
Returns-zoom get put Mid Post (ret a) g s gp pp pg h next =
    subst (λ x. Returns Post (g a) x) (pg s) (next a (get s) h)
Returns-zoom get put Mid Post (act f k) g s gp pp pg h next =
    Returns-zoom get put Mid Post (k (get s)) g (put (f (get s)) s) gp pp pg
      (subst (λ t. Returns Mid (k (get s)) t) (sym (gp (f (get s)) s)) h)
      λ a t m. subst (λ x. Returns Post (g a) x) (sym (pp (f (get s)) t s)) (next a t m)
Returns-zoom get put Mid Post crash g s gp pp pg h next = h
Returns-zoom get put Mid Post spin g s gp pp pg h next = h
