-- ===== src/Structures/Stack/Chain.antt =====
-- The nodes of the stack as a list.
use rustcurrent.Prelude.{
  ℕ, suc, ◌≤◌, ◌≡◌, ◌≢◌, refl, sym, ap, inl, inr, arith, true, false, Option, List, [], ◌∷◌, length,
  has, update, ◌==◌, ==_iff, Bool-cases,
}
use mathlib.Core.Path.{subst}
use rustcurrent.Structures.Stack.{Node, Stack}

module _ {T : Type 0} where
  -- From `q` the links lead through the nodes `rs` to null.
  pub data Chain (node : ℕ → Node T) : ℕ → List ℕ → Type 0 where
    nil : {q : ℕ} → q ≡ 0 → Chain node q []
    cons : {q : ℕ} {rs : List ℕ} → q ≢ 0 → Chain node (node q).next rs → Chain node q (q ∷ rs)

  abbrev pub values : (ℕ → Node T) → List ℕ → List (Option T)
  values node [] = []
  values node (a ∷ rs) = (node a).value ∷ values node rs

  -- The stack holds the values `l`, the top first.
  abbrev pub Contents : Stack T → List (Option T) → Type 0
  Contents s l = (rs : List ℕ) × Chain s.node s.head rs × (values s.node rs ≡ l)

  -- The node is on the stack.
  abbrev pub IsIn : Stack T → ℕ → Type 0
  IsIn s a = (rs : List ℕ) × Chain s.node s.head rs × (has a rs ≡ true)

  pub update-Chain :
      (node : ℕ → Node T) (a : ℕ) (n : Node T) {q : ℕ} {rs : List ℕ}
      → has a rs ≡ false
      → Chain node q rs
      → Chain (update node a n) q rs
  update-Chain node a n h (nil e) = nil e
  update-Chain node a n {q} h (cons {rs = rs} ne c) =
      let other : (a == q) ≡ false = ground arith in
      let rest : has a rs ≡ false = ground arith in
      let same : update node a n q ≡ node q = rw other in
      cons ne (rw same (update-Chain node a n rest c))

  pub update-values :
      (node : ℕ → Node T) (a : ℕ) (n : Node T) (rs : List ℕ)
      → has a rs ≡ false
      → values (update node a n) rs ≡ values node rs
  update-values node a n [] h = refl
  update-values node a n (b ∷ rs) h =
      let other : (a == b) ≡ false = ground arith in
      let rest : has a rs ≡ false = ground arith in rw (other, update-values node a n rs rest)

  -- A node on a chain starts a chain that is no longer.
  suffix :
      (node : ℕ → Node T) (a : ℕ) {q : ℕ} {rs : List ℕ}
      → Chain node q rs
      → has a rs ≡ true
      → (bs : List ℕ) × Chain node a bs × (length bs ≤ length rs)
  suffix node a (nil e) h = cc
  suffix node a {q} (cons {rs = rs} ne c) h = elim (Bool-cases (a == q)) [
    | inl same ↦ (
      q ∷ rs,
      subst (λ x. Chain node x (q ∷ rs)) (sym ((==_iff a q).0 same)) (cons ne c),
      omega arith,
    )
    | inr other ↦
        let rest : has a rs ≡ true = ground arith in
        let (bs, d, le) = suffix node a c rest in (bs, d, omega arith)
  ]

  pub Chain-unique :
      (node : ℕ → Node T) {q : ℕ} {rs bs : List ℕ}
      → Chain node q rs
      → Chain node q bs
      → length rs ≡ length bs
  Chain-unique node (nil e) (nil e') = refl
  Chain-unique node (nil e) (cons ne c) = absurd (ne e)
  Chain-unique node (cons ne c) (nil e) = absurd (ne e)
  Chain-unique node (cons ne c) (cons ne' c') = ap suc (Chain-unique node c c')

  -- The first node does not come again.
  pub Chain-once :
      (node : ℕ → Node T) {a : ℕ} {rs : List ℕ}
      → a ≢ 0
      → Chain node (node a).next rs
      → has a rs ≡ false
  Chain-once node {a} {rs} ne c = elim (Bool-cases (has a rs)) [
    | inr out ↦ out
    | inl again ↦
        let (bs, d, le) = suffix node a c again in
        let same = Chain-unique node d (cons ne c) in absurd (omega arith)
  ]
