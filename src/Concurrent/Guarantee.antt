-- ===== src/Concurrent/Guarantee.antt =====
-- What a program does in the presence of other threads: between any two of its steps they may take
-- the state from `s` to `s'` where `Rely s s'`.
use rustcurrent.Prelude.{◌≡◌, refl, Bool, true, false, if◌then◌else◌}
use rustcurrent.Concurrent.{Prog, ret, act, crash, spin, ◌>>=◌}

module _ {S : Type 0} where
  -- Each step of the program, from any state that the others may leave, satisfies `Guar`; it does
  -- not crash; and when it returns, `Post` holds, also after further steps of the others.
  abbrev pub Ensures :
      {A : Type 0} → (Rely Guar : S → S → Type 0) → (A → S → Type 0) → Prog S A → S → Type 0
  Ensures Rely Guar Post (ret a) s = (s' : S) → Rely s s' → Post a s'
  Ensures Rely Guar Post (act f k) s =
      (s' : S) → Rely s s' → Guar s' (f s') × Ensures Rely Guar Post (k s') (f s')
  Ensures Rely Guar Post crash s = ⊥
  Ensures Rely Guar Post spin s = Unit

  pub Ensures-bind :
      {A B : Type 0} (Rely Guar : S → S → Type 0) (Mid : A → S → Type 0) (Post : B → S → Type 0)
      (p : Prog S A) (g : A → Prog S B) (s : S)
      → ((r : S) → Rely r r)
      → Ensures Rely Guar Mid p s
      → ((a : A) (s' : S) → Mid a s' → Ensures Rely Guar Post (g a) s')
      → Ensures Rely Guar Post (p >>= g) s
  Ensures-bind Rely Guar Mid Post (ret a) g s here e next = next a s (e s (here s))
  Ensures-bind Rely Guar Mid Post (act f k) g s here e next =
      λ s' r. ((e s' r).0, Ensures-bind Rely Guar Mid Post (k s') g (f s') here (e s' r).1 next)
  Ensures-bind Rely Guar Mid Post crash g s here e next = e
  Ensures-bind Rely Guar Mid Post spin g s here e next = e

  -- The same with no condition on the others, on the state or on the result.
  abbrev pub Runs : {A : Type 0} → (S → S → Type 0) → Prog S A → Type 0
  Runs Guar (ret a) = Unit
  Runs Guar (act f k) = ((s : S) → Guar s (f s)) × ((s : S) → Runs Guar (k s))
  Runs Guar crash = ⊥
  Runs Guar spin = Unit

  pub Runs-bind :
      {A B : Type 0} (Guar : S → S → Type 0) (p : Prog S A) (g : A → Prog S B)
      → Runs Guar p
      → ((a : A) → Runs Guar (g a))
      → Runs Guar (p >>= g)
  Runs-bind Guar (ret a) g kp next = next a
  Runs-bind Guar (act f k) g kp next = (kp.0, λ s. Runs-bind Guar (k s) g (kp.1 s) next)
  Runs-bind Guar crash g kp next = kp
  Runs-bind Guar spin g kp next = tt

  pub Runs-Ensures :
      {A : Type 0} (Rely Guar : S → S → Type 0) (p : Prog S A) (s : S)
      → Runs Guar p
      → Ensures Rely Guar (λ _ _. Unit) p s
  Runs-Ensures Rely Guar (ret a) s kp = λ s' r. tt
  Runs-Ensures Rely Guar (act f k) s kp =
      λ s' r. (kp.0 s', Runs-Ensures Rely Guar (k s') (f s') (kp.1 s'))
  Runs-Ensures Rely Guar crash s kp = kp
  Runs-Ensures Rely Guar spin s kp = tt

  -- Whatever the program reads it comes to its end, and never runs out of the rounds of a loop. The
  -- other threads may do anything between its steps that keeps `Inv`, as it does itself.
  abbrev pub Finishes : {A : Type 0} → (S → Type 0) → Prog S A → Type 0
  Finishes Inv (ret a) = Unit
  Finishes Inv (act f k) = (s : S) → Inv s → Inv (f s) × Finishes Inv (k s)
  Finishes Inv crash = Unit
  Finishes Inv spin = ⊥

  pub Finishes-bind :
      {A B : Type 0} (Inv : S → Type 0) (p : Prog S A) (g : A → Prog S B)
      → Finishes Inv p
      → ((a : A) → Finishes Inv (g a))
      → Finishes Inv (p >>= g)
  Finishes-bind Inv (ret a) g h next = next a
  Finishes-bind Inv (act f k) g h next =
      λ s i. ((h s i).0, Finishes-bind Inv (k s) g (h s i).1 next)
  Finishes-bind Inv crash g h next = tt
  Finishes-bind Inv spin g h next = h

  pub Finishes-if :
      {A : Type 0} (Inv : S → Type 0) (b : Bool) (p q : Prog S A)
      → Finishes Inv p
      → Finishes Inv q
      → Finishes Inv (if b then p else q)
  Finishes-if Inv true p q h k = h
  Finishes-if Inv false p q h k = k

  -- The same, where each branch knows its test.
  pub Finishes-split :
      {A : Type 0} (Inv : S → Type 0) (b : Bool) (p q : Prog S A)
      → (b ≡ true → Finishes Inv p)
      → (b ≡ false → Finishes Inv q)
      → Finishes Inv (if b then p else q)
  Finishes-split Inv true p q h k = h refl
  Finishes-split Inv false p q h k = k refl
