-- ===== src/Structures/Map/Alone/Levels.antt =====
-- The loop over the levels of the tree, as `remove` and `update` have it.
use rustcurrent.Prelude.{ℕ, zero, suc, ◌+◌, ◌*◌, ◌/◌, ◌≡◌, refl, sym, arith, Option, List}
use mathlib.Core.Path.{subst}
use rustcurrent.Concurrent.{Prog, ◌>>=◌}
use rustcurrent.Concurrent.Returns.{Returns}
use rustcurrent.Memory.Hazard.{Manager}
use rustcurrent.Memory.Hazard.Ready.{Ready}
use rustcurrent.Structures.Map.{Bucket, Table, Flow, and_descend}
use rustcurrent.Structures.Map.Tree.{shifted, child, contents, IsTree}
use rustcurrent.Structures.Map.Tree.Walk.{Reached, start, step}
use rustcurrent.Structures.Map.Alone.{with_manager, Holds, Descended, AtFlow, and_descend-Returns}

module _ {V A : Type 0} (rounds tid h : ℕ) (held : ℕ → Option V) (Post : A → Table V → Type 0)
    (level : Bucket → (r mut_hash : ℕ) → Prog (Table V) (Flow A))
    (bottom : Bucket → (mut_hash : ℕ) → Prog (Table V) A)
    (levels : (left : ℕ) → Bucket → (r mut_hash : ℕ) → Prog (Table V) A) where
  -- What is asked of a level and of the bottom, on a tree that the hash has come down.
  abbrev pub OnTree : ((n : ℕ) (b : Bucket) → Table V → Manager → Type 0) → Type 0
  OnTree Claim =
      (trail : ℕ → List ℕ) (place : ℕ → ℕ × ℕ) (t : Table V) (tree : IsTree trail place t)
      → ((h' : ℕ) → contents t h' ≡ held h')
      → (m : Manager) → Ready rounds tid m
      → (n : ℕ) (b : Bucket) → Reached t h n b
      → Claim n b t m

  module _ (at_bottom : (b : Bucket) (r x : ℕ) → levels 0 b r x ≡ bottom b x)
      (at_level : (left : ℕ) (b : Bucket) (r x : ℕ)
        → levels (suc left) b r x
          ≡ (level b r x >>= λ f. and_descend f (λ b'. levels left b' (r + 4) (x / 16))))
      (level-Returns : OnTree λ n b t m.
        (left r : ℕ)
        → n + suc left ≡ 15
        → Returns
            (AtFlow Post (Descended rounds tid held h n))
            (level b r (shifted n h))
            (with_manager m t))
      (bottom-Returns : OnTree λ n b t m.
        n + 0 ≡ 15 → b.len ≡ 16 → Returns Post (bottom b (shifted n h)) (with_manager m t)) where
    pub levels-Returns :
        (left : ℕ) {n : ℕ} {b : Bucket} (r : ℕ) (s : Table V)
        → (down : Holds rounds tid held s) → Reached down.table h n b
        → n + left ≡ 15
        → Returns Post (levels left b r (shifted n h)) s
    levels-Returns zero r s down start deep = absurd (omega arith)
    levels-Returns zero r s down (step {n = n} k way e) deep =
        let (trail, place, tree) = down.form in
        subst (λ p. Returns Post p s) (sym (at_bottom (child (4 * k)) r (shifted (suc n) h)))
          (subst (λ s. Returns Post (bottom (child (4 * k)) (shifted (suc n) h)) s) (sym down.same)
            (bottom-Returns trail place down.table tree down.agree down.manager down.ready (suc n)
              (child (4 * k)) (step k way e) deep refl))
    levels-Returns (suc left) {n} {b} r s down way deep =
        let (trail, place, tree) = down.form in
        subst (λ p. Returns Post p s) (sym (at_level left b r (shifted n h)))
          (and_descend-Returns Post (Descended rounds tid held h n) (level b r (shifted n h)) _ s
            (subst
              (λ s.
                Returns (AtFlow Post (Descended rounds tid held h n)) (level b r (shifted n h)) s)
              (sym down.same)
              (level-Returns trail place down.table tree down.agree down.manager down.ready n b way
                left r deep))
            λ b' s' (down', way'). levels-Returns left (r + 4) s' down' way' (omega arith))
