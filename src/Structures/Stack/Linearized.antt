-- ===== src/Structures/Stack/Linearized.antt =====
-- `try_push` and `try_pop` (src/structures/stack.rs) beside other threads.
use rustcurrent.Prelude.{
  ℕ, ◌≡◌, ◌≢◌, refl, sym, ap, ◌∙◌, ◌⊎◌, inl, inr, arith, Bool, true, false, not, Option, none, List,
  [], ◌∷◌, has, ◌==◌, ==_iff, ==_refl, if◌then◌else◌, Bool-cases, Result, ok, err,
}
use mathlib.Core.Path.{subst}
use rustcurrent.Concurrent.{Prog, ret, ◌>>=◌}
use rustcurrent.Concurrent.Linearization.{
  After, Linearizes, LinearizesFrom, Linearizes-split, Linearizes-exchange, Linearizes-zoom,
  After-zoom,
}
use rustcurrent.Memory.Hazard
use rustcurrent.Structures.Stack.{
  Node, Stack, default_node, set_head, set_node, set_manager, pushed, try_push, popped,
  compare_exchange_weak, pop_head, try_pop,
}
use rustcurrent.Structures.Stack.Chain.{
  Chain, nil, cons, values, Contents, IsIn, update-Chain, update-values, Chain-once,
}

abbrev pub FailsWith : ℕ → Result (Unit {0}) ℕ → Type 0
FailsWith a (ok _) = ⊥
FailsWith a (err b) = b ≡ a

abbrev pub Fails : {A : Type 0} → Result A (Unit {0}) → Type 0
Fails (ok _) = ⊥
Fails (err _) = Unit

module _ {T : Type 0} where
  -- The values on the stack stay as they are.
  abbrev pub Quiet : Stack T → Stack T → Type 0
  Quiet s s' = (l : List (Option T)) → Contents s l → Contents s' l

  -- A write to a node that is not on the stack.
  set_node-Quiet : (s : Stack T) (a : ℕ) (n : Node T) → ¬ IsIn s a → Quiet s (set_node a n s)
  set_node-Quiet s a n out l (rs, c, e) = elim (Bool-cases (has a rs)) [
    | inl there ↦ absurd (out (rs, c, there))
    | inr away ↦ (rs, update-Chain s.node a n away c, update-values s.node a n rs away ∙ e)
  ]

  -- The other threads leave the node `a` alone, and off the stack.
  abbrev pub LeavesAlone : ℕ → Stack T → Stack T → Type 0
  LeavesAlone a s s' = (¬ IsIn s' a) × (s'.node a ≡ s.node a)

  -- `try_push` puts the value on top, or fails with the node.
  abbrev pub PushEffect : Option T → Result (Unit {0}) ℕ → Stack T → Stack T → Type 0
  PushEffect v (ok _) s s' = (l : List (Option T)) → Contents s l → Contents s' (v ∷ l)
  PushEffect v (err _) s s' = ⊥

  -- Beside other threads that leave its node alone, `try_push` either has one linearization point,
  -- at which the value of the node comes on top of the values on the stack, and returns `Ok`, or
  -- changes the values at no step, and gives the node back.
  pub try_push-Linearizes :
      (a : ℕ) (s : Stack T)
      → a ≢ 0
      → ¬ IsIn s a
      → Linearizes
          (LeavesAlone a)
          (λ _ _. Unit {0})
          Quiet
          (PushEffect (s.node a).value)
          (FailsWith a)
          (try_push a)
          s
  unfolding try_push
  try_push-Linearizes a s ne out = λ s1 r1. inl (
    λ l h. h,
    λ s2 r2. inl (
      set_node-Quiet s2 a (record (s2.node a) { next = s1.head }) r2.0,
      Linearizes-exchange (LeavesAlone a) (λ _ _. Unit) Quiet (PushEffect (s.node a).value)
          (FailsWith a) (λ m. m.head) set_head s1.head a (λ swapped. ret (pushed a swapped))
          (set_node a (record (s2.node a) { next = s1.head }) s2)
          (λ s3 r3 e.
            let written : s3.node a ≡ record (s2.node a) { next = s1.head } =
              r3.1 ∙ rw (==_refl a) in
            let value : (s3.node a).value ≡ (s.node a).value =
              ap (λ n. n.value) written ∙ ap (λ n. n.value) r2.1 ∙ ap (λ n. n.value) r1.1 in
            let next : (s3.node a).next ≡ s3.head =
              ap (λ n. n.next) written ∙ sym ((==_iff s3.head s1.head).0 e) in
            (
              ok tt,
              λ l (rs, c, v). (
                a ∷ rs,
                cons ne (subst (λ q. Chain s3.node q rs) (sym next) c),
                ap (λ x. x ∷ values s3.node rs) value ∙ ap (λ x. (s.node a).value ∷ x) v,
              ),
              refl,
            ))
          (λ s3 r3. (λ l h. h, refl)),
    ),
  )

  -- The other threads leave the stack a list. If they leave the node `h` on it, they leave its link.
  abbrev pub KeepsLink : ℕ → Stack T → Stack T → Type 0
  KeepsLink h s s' = ((rs : List ℕ) × Chain s'.node s'.head rs) × (IsIn s' h → s'.node h ≡ s.node h)

  -- Once the node is off the stack, it stays off and is not changed.
  abbrev pub LeavesPopped : ℕ → Stack T → Stack T → Type 0
  LeavesPopped h s s' = ¬ IsIn s h → (¬ IsIn s' h) × (s'.node h ≡ s.node h)

  -- A pop answers `None` for an empty stack, or takes the value on top.
  abbrev pub PopEffect : Result (Option T) (Unit {0}) → Stack T → Stack T → Type 0
  PopEffect (ok v) s s' =
      (l : List (Option T))
      → Contents s l
      → ((l ≡ []) × (v ≡ none) × Contents s' [])
        ⊎ ((l' : List (Option T)) × (l ≡ v ∷ l') × Contents s' l')
  PopEffect (err _) s s' = ⊥

  -- The exchange takes the node `h` off: its link is still the new head.
  module _ (s : Stack T) (h n : ℕ) (ne : h ≢ 0) (at : s.head ≡ h)
      (kept : IsIn s h → n ≡ (s.node h).next) where
    head_IsIn : {rs : List ℕ} → Chain s.node s.head rs → IsIn s h
    head_IsIn (nil e) = absurd (ne (sym at ∙ e))
    head_IsIn (cons {rs = rs} ne' c) = (s.head ∷ rs, cons ne' c, ground (arith, sym at))

    tail_Chain :
        {rs : List ℕ}
        → Chain s.node s.head rs
        → (rs' : List ℕ) × (values s.node rs ≡ (s.node h).value ∷ values s.node rs')
          × Chain s.node n rs'
    tail_Chain (nil e) = absurd (ne (sym at ∙ e))
    tail_Chain (cons {rs = rs} ne' c) =
        let link : (s.node s.head).next ≡ n =
          ap (λ a. (s.node a).next) at ∙ sym (kept (head_IsIn (cons ne' c))) in
        (
          rs,
          ap (λ a. (s.node a).value ∷ values s.node rs) at,
          subst (λ q. Chain s.node q rs) link c,
        )

    take-PopEffect : PopEffect (ok (s.node h).value) s (set_head n s)
    take-PopEffect l (rs, c, v) =
        let (rs', top, c') = tail_Chain c in inr (values s.node rs', sym v ∙ top, (rs', c', refl))

    taken_off : {rs : List ℕ} → Chain s.node s.head rs → ¬ IsIn (set_head n s) h
    taken_off c (qs, d, there) =
        let once = Chain-once s.node ne (subst (λ q. Chain s.node q qs) (kept (head_IsIn c)) d) in
        absurd (cc)

  module _ (rounds tid h : ℕ) (ne : h ≢ 0) where
    abbrev Pops : Prog (Stack T) (Result (Option T) (Unit {0})) → Stack T → Type 0
    Pops p s = Linearizes (KeepsLink h) (LeavesPopped h) Quiet PopEffect Fails p s

    -- What follows the exchange works on a node of its own.
    popped-After :
        (s : Stack T) (n : ℕ)
        → ¬ IsIn (set_head n s) h
        → After
            (LeavesPopped h)
            Quiet
            (ok (s.node h).value)
            (popped rounds tid (ok h))
            (set_head n s)
    popped-After s n out = λ s6 r6.
        let (out6, same) = r6 out in
        (
          set_node-Quiet s6 h default_node out6,
          After-zoom (LeavesPopped h) Quiet (ok (s.node h).value) (λ m. m.manager) set_manager
              (Hazard.retire rounds tid h 0) (λ _. ret (ok (s6.node h).value))
              (set_node h default_node s6) (λ m t l c. c) λ _ _. ap (λ x. ok x.value) same,
        )

    exchange-Pops :
        (spurious : Bool) (s4 : Stack T)
        → Pops (compare_exchange_weak spurious h (s4.node h).next >>= popped rounds tid) s4
    exchange-Pops true s4 = λ s5 r5. inl (λ l c. c, tt)
    exchange-Pops false s4 =
        Linearizes-exchange (KeepsLink h) (LeavesPopped h) Quiet PopEffect Fails (λ m. m.head)
          set_head h (s4.node h).next (popped rounds tid) s4
          (λ s5 r5 e.
            let at : s5.head ≡ h = (==_iff s5.head h).0 e in
            let kept : IsIn s5 h → (s4.node h).next ≡ (s5.node h).next =
              λ i. ap (λ x. x.next) (sym (r5.1 i)) in
            (
              ok (s5.node h).value,
              take-PopEffect s5 h (s4.node h).next ne at kept,
              subst
                  (λ q.
                    After (LeavesPopped h) Quiet (ok (s5.node h).value) (popped rounds tid (ok q))
                      (set_head (s4.node h).next s5))
                  (sym at)
                  (popped-After s5 (s4.node h).next
                    (taken_off s5 h (s4.node h).next ne at kept r5.0.1)),
            ))
          (λ s5 r5. (λ l c. c, tt))

    pop_head-Pops : (spurious : Bool) (s : Stack T) → Pops (pop_head spurious rounds tid h) s
    unfolding pop_head
    pop_head-Pops spurious s =
        Linearizes-zoom (KeepsLink h) (LeavesPopped h) Quiet PopEffect Fails (λ m. m.manager)
          set_manager (Hazard.protect rounds tid h 0) _ (λ _. Unit {0}) s (λ m t l c. c)
          (λ _ _ _ _. tt) (λ _ _ _. tt) tt
          λ _ s2 _ s3 r3. inl (
            λ l c. c,
            Linearizes-split (KeepsLink h) (LeavesPopped h) Quiet PopEffect Fails
                (not (h == s3.head)) _ _ s3 (λ _. tt)
                λ _ s4 r4. inl (λ l c. c, exchange-Pops spurious s4),
          )

  empty_pop : (s : Stack T) → s.head ≡ 0 → PopEffect (ok none) s s
  empty_pop s null l (_, nil e, v) = inl (sym v, refl, ([], nil e, refl))
  empty_pop s null l (_, cons ne c, v) = absurd (ne null)

  first_step :
      (spurious : Bool) (rounds tid : ℕ) (s : Stack T) (b : Bool)
      → (s.head == 0) ≡ b
      → let p = if b then ret (ok none) else pop_head spurious rounds tid s.head in
        (Quiet s s × Linearizes (KeepsLink s.head) (LeavesPopped s.head) Quiet PopEffect Fails p s)
        ⊎ ((r : Result (Option T) (Unit {0})) × PopEffect r s s
            × After (LeavesPopped s.head) Quiet r p s)
  first_step spurious rounds tid s true e = inr (ok none, empty_pop s ((==_iff s.head 0).0 e), refl)
  first_step spurious rounds tid s false e = inl (
    λ l c. c,
    pop_head-Pops rounds tid s.head (λ z. let t = (==_iff s.head 0).1 z in cc) spurious s,
  )

-- Beside other threads that leave the stack a list, keep the link of the node that the attempt has
-- found at the head while it is on the stack, and leave it alone once it is off, `try_pop` either
-- has one linearization point, at which the stack is empty and the answer `None`, or the value on
-- top goes and is the answer, and returns `Ok`; or it changes the values at no step, and fails. A
-- crash or a spin of the manager cuts it short.
pub try_pop-Linearizes :
    (T : Type 0) (spurious : Bool) (rounds tid : ℕ)
    → LinearizesFrom
        (λ s0. KeepsLink s0.head)
        (λ s0. LeavesPopped s0.head)
        Quiet
        PopEffect
        Fails
        (try_pop {T = T} spurious rounds tid)
unfolding try_pop
try_pop-Linearizes T spurious rounds tid =
    λ s0. first_step spurious rounds tid s0 (s0.head == 0) refl
