-- ===== src/Structures/Queue/Dequeue.antt =====
-- `try_dequeue` (src/structures/queue.rs) beside other threads.
use rustcurrent.Prelude.{
  ℕ, ◌≡◌, ◌≢◌, refl, sym, ap, ◌∙◌, ◌⊎◌, inl, inr, Bool, true, false, not, Option, none, List, [],
  ◌∷◌, ◌==◌, ==_iff, if◌then◌else◌, if_both, Bool-cases, Result, ok, err,
}
use mathlib.Core.Path.{subst}
use rustcurrent.Concurrent.{Prog, ret}
use rustcurrent.Concurrent.Linearization.{
  After, Linearizes, LinearizesFrom, Linearizes-split, Linearizes-exchange, Linearizes-zoom,
  After-zoom,
}
use rustcurrent.Memory.Hazard
use rustcurrent.Structures.Stack.Chain.{Chain, nil, cons, values}
use rustcurrent.Structures.Queue.{Queue, set_head, set_manager, dequeued, take_first, try_dequeue}

abbrev pub Fails : {A : Type 0} → Result A (Unit {0}) → Type 0
Fails (ok _) = ⊥
Fails (err _) = Unit

module _ {T : Type 0} where
  -- The queue holds the values `l`, the first at the front: those of the nodes behind the dummy.
  abbrev pub Contents : Queue T → List (Option T) → Type 0
  Contents s l = (rs : List ℕ) × Chain s.node (s.node s.head).next rs × (values s.node rs ≡ l)

  abbrev pub Quiet : Queue T → Queue T → Type 0
  Quiet s s' = (l : List (Option T)) → Contents s l → Contents s' l

  -- The other threads set the link of the node `h` once at most, and move the head on from it only
  -- when it has a link.
  abbrev pub KeepsLink : ℕ → Queue T → Queue T → Type 0
  KeepsLink h s s' =
      ((s.node h).next ≢ 0 → (s'.node h).next ≡ (s.node h).next)
      × (s.head ≡ h → (s'.head ≡ h) ⊎ ((s'.node h).next ≢ 0))

  -- They do not change the value of the dummy.
  abbrev pub KeepsValue : Queue T → Queue T → Type 0
  KeepsValue s s' = (s'.node s.head).value ≡ (s.node s.head).value

  -- An empty queue gives `None`, and any other its first value.
  abbrev pub TakeEffect : Result (Option T) (Unit {0}) → Queue T → Queue T → Type 0
  TakeEffect (ok v) s s' =
      (l : List (Option T))
      → Contents s l
      → ((l ≡ []) × (v ≡ none) × Contents s' [])
        ⊎ ((l' : List (Option T)) × (l ≡ v ∷ l') × Contents s' l')
  TakeEffect (err _) s s' = ⊥

  -- The head is still at `h`, or `h` has a link.
  abbrev IsFront : ℕ → Queue T → Type 0
  IsFront h s = (s.head ≡ h) ⊎ ((s.node h).next ≢ 0)

  IsFront-kept : (h : ℕ) (s s' : Queue T) → IsFront h s → KeepsLink h s s' → IsFront h s'
  IsFront-kept h s s' (inl e) r = r.1 e
  IsFront-kept h s s' (inr n) r = inr λ z. n (sym (r.0 n) ∙ z)

  -- The link that was read is that of `h`, unless it was null.
  abbrev IsLink : ℕ → ℕ → Queue T → Type 0
  IsLink h n s = n ≢ 0 → (s.node h).next ≡ n

  IsLink-kept : (h n : ℕ) (s s' : Queue T) → IsLink h n s → KeepsLink h s s' → IsLink h n s'
  IsLink-kept h n s s' k r ne = r.0 (λ z. ne (sym (k ne) ∙ z)) ∙ k ne

  take-TakeEffect :
      (s : Queue T) (h n : ℕ)
      → n ≢ 0
      → s.head ≡ h
      → (s.node h).next ≡ n
      → TakeEffect (ok (s.node n).value) s (set_head n s)
  take-TakeEffect s h n ne at link l (rs, c, v) =
      go rs (subst (λ q. Chain s.node q rs) (ap (λ a. (s.node a).next) at ∙ link) c) v
    where
      go :
          (rs : List ℕ)
          → Chain s.node n rs
          → values s.node rs ≡ l
          → ((l ≡ []) × ((s.node n).value ≡ none) × Contents (set_head n s) [])
            ⊎ ((l' : List (Option T)) × (l ≡ (s.node n).value ∷ l') × Contents (set_head n s) l')
      go _ (nil z) v = absurd (ne z)
      go _ (cons {rs = rs'} ne' c) v = inr (values s.node rs', sym v, (rs', c, refl))

  empty-TakeEffect :
      (s : Queue T) (h : ℕ) → IsFront h s → (s.node h).next ≡ 0 → TakeEffect (ok none) s s
  empty-TakeEffect s h (inr n) z l c = absurd (n z)
  empty-TakeEffect s h (inl at) z l (_, nil e, v) = inl (sym v, refl, ([], nil e, refl))
  empty-TakeEffect s h (inl at) z l (_, cons ne c, v) =
      absurd (ne (ap (λ a. (s.node a).next) at ∙ z))

  module _ (rounds tid h : ℕ) where
    abbrev Takes : Prog (Queue T) (Result (Option T) (Unit {0})) → Queue T → Type 0
    Takes p s = Linearizes (KeepsLink h) KeepsValue Quiet TakeEffect Fails p s

    take_first-Takes :
        (n : ℕ) (s : Queue T) → n ≢ 0 → IsLink h n s → Takes (take_first rounds tid h n) s
    unfolding take_first
    take_first-Takes n s ne k = λ s6 r6. inl (
      λ l c. c,
      Linearizes-split (KeepsLink h) KeepsValue Quiet TakeEffect Fails (n == 0) _ _ s6
          (λ z. absurd (ne ((==_iff n 0).0 z)))
          λ _.
            Linearizes-split (KeepsLink h) KeepsValue Quiet TakeEffect Fails (h == s6.tail) _ _ s6
              (λ _ s7 r7. inl (
                if_both {A = Queue T} (λ m. Quiet s7 m) (s7.tail == s6.tail) _ _ (λ l c. c)
                    (λ l c. c),
                tt,
              ))
              λ _.
                Linearizes-exchange (KeepsLink h) KeepsValue Quiet TakeEffect Fails (λ m. m.head)
                  set_head h n (dequeued rounds tid h n) s6
                  (λ s7 r7 e. (
                    ok (s7.node n).value,
                    take-TakeEffect s7 h n ne ((==_iff s7.head h).0 e)
                        (IsLink-kept h n s6 s7 (IsLink-kept h n s s6 k r6) r7 ne),
                    λ s8 r8. (
                      λ l c. c,
                      After-zoom KeepsValue Quiet (ok (s7.node n).value) (λ m. m.manager)
                          set_manager (Hazard.retire rounds tid h 0)
                          (λ _. ret (ok (s8.node n).value)) s8 (λ m t l c. c)
                          λ _ _. ap (λ x. ok x) r8,
                    ),
                  ))
                  (λ s7 r7. (λ l c. c, tt)),
    )

    empty-After : (s : Queue T) → After KeepsValue Quiet (ok none) (take_first rounds tid h 0) s
    unfolding take_first
    empty-After s = λ s6 r6. (λ l c. c, refl)

    -- The link is read again: an empty queue is seen here.
    again_step :
        (n : ℕ) (s : Queue T) (b : Bool)
        → (n == (s.node h).next) ≡ b
        → IsFront h s
        → IsLink h n s
        → let p = if not b then ret (err tt) else take_first rounds tid h n in
          (Quiet s s × Takes p s)
          ⊎ ((r : Result (Option T) (Unit {0})) × TakeEffect r s s × After KeepsValue Quiet r p s)
    again_step n s false e f k = inl (λ l c. c, tt)
    again_step n s true e f k = elim (Bool-cases (n == 0)) [
      | inl z ↦
          let null : n ≡ 0 = (==_iff n 0).0 z in
          inr (
            ok none,
            empty-TakeEffect s h f (sym ((==_iff n (s.node h).next).0 e) ∙ null),
            subst (λ q. After KeepsValue Quiet (ok none) (take_first rounds tid h q) s) (sym null)
                (empty-After s),
          )
      | inr z ↦ inl (λ l c. c, take_first-Takes n s (λ e0. let t = (==_iff n 0).1 e0 in cc) k)
    ]

-- Beside other threads that set the link of the node that the attempt has found at the head once at
-- most, move the head on from it only when it has a link, and leave the value of the dummy alone,
-- `try_dequeue` either has one linearization point, at which the queue is empty and the answer
-- `None`, or the first value goes and is the answer, and returns `Ok`; or it changes the values at no
-- step, and fails. A crash or a spin of the manager cuts it short.
pub try_dequeue-Linearizes :
    (T : Type 0) (rounds tid : ℕ)
    → LinearizesFrom
        (λ s0. KeepsLink s0.head)
        (λ _. KeepsValue)
        Quiet
        TakeEffect
        Fails
        (try_dequeue {T = T} rounds tid)
unfolding try_dequeue
try_dequeue-Linearizes T rounds tid = λ s0.
    let h = s0.head in
    inl (
      λ l c. c,
      Linearizes-zoom (KeepsLink h) KeepsValue Quiet TakeEffect Fails (λ m. m.manager) set_manager
          (Hazard.protect rounds tid h 0) _ (λ _. Unit {0}) s0 (λ m t l c. c) (λ _ _ _ _. tt)
          (λ _ _ _. tt) tt
          λ _ s1 _ s2 r2. inl (
            λ l c. c,
            Linearizes-split (KeepsLink h) KeepsValue Quiet TakeEffect Fails (not (h == s2.head)) _
                _ s2 (λ _. tt)
                λ e s3 r3. inl (
                  λ l c. c,
                  let n = (s3.node h).next in
                      let front : IsFront h s2 = inl (
                        sym (
                          (==_iff h s2.head).0
                            (elim (Bool-cases (h == s2.head)) [ inl t ↦ t | inr f ↦ cc ]))) in
                      Linearizes-zoom (KeepsLink h) KeepsValue Quiet TakeEffect Fails
                        (λ m. m.manager) set_manager (Hazard.protect rounds tid n 1) _
                        (λ s. IsFront h s × IsLink h n s) s3 (λ m t l c. c)
                        (λ s s' i r. (IsFront-kept h s s' i.0 r, IsLink-kept h n s s' i.1 r))
                        (λ _ _ i. i) (IsFront-kept h s2 s3 front r3, λ _. refl)
                        λ _ s4 i s5 r5.
                          again_step rounds tid h n s5 (n == (s5.node h).next) refl
                            (IsFront-kept h s4 s5 i.0 r5) (IsLink-kept h n s4 s5 i.1 r5),
                ),
          ),
    )
