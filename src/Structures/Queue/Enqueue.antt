-- ===== src/Structures/Queue/Enqueue.antt =====
-- `try_enqueue` (src/structures/queue.rs) beside other threads.
use rustcurrent.Prelude.{
  ℕ, ◌≡◌, ◌≢◌, refl, sym, ap, ◌∙◌, ◌⊎◌, inl, inr, arith, true, false, not, Option, List, [], ◌∷◌,
  ◌++◌, has, update, ◌==◌, ==_iff, if_both, Bool-cases, Result, ok, err,
}
use mathlib.Core.Path.{subst}
use rustcurrent.Concurrent.Linearization.{
  LinearizesFrom, Linearizes-split, Linearizes-exchange, Linearizes-zoom,
}
use rustcurrent.Memory.Hazard
use rustcurrent.Structures.Stack.{Node}
use rustcurrent.Structures.Stack.Chain.{Chain, nil, cons, values}
use rustcurrent.Structures.Queue.{Queue, set_next, set_manager, enqueued, try_enqueue}
use rustcurrent.Structures.Queue.Dequeue.{Contents, Quiet}

abbrev pub GivesBack : ℕ → Result (Unit {0}) ℕ → Type 0
GivesBack a (ok _) = ⊥
GivesBack a (err b) = b ≡ a

module _ {T : Type 0} where
  -- The node is the dummy or behind it.
  abbrev pub IsOn : Queue T → ℕ → Type 0
  IsOn s t = (rs : List ℕ) × Chain s.node (s.node s.head).next rs × (has t (s.head ∷ rs) ≡ true)

  -- The other threads leave the node `a` alone and off the queue, and its link null. They keep the
  -- tail on the queue, the node `t` on it until it has a link, and this link.
  pub record KeepsTail (a t : ℕ) (s s' : Queue T) : Type 0 where
    pub private : ¬ IsOn s' a
    pub same : s'.node a ≡ s.node a
    pub unlinked : (s'.node a).next ≡ 0
    pub valid : IsOn s' s'.tail
    pub stays : IsOn s t → IsOn s' t ⊎ ((s'.node t).next ≢ 0)
    pub linked : (s.node t).next ≢ 0 → (s'.node t).next ≢ 0

  -- The value of the node `a` comes last.
  abbrev pub EnqueueEffect : ℕ → Result (Unit {0}) ℕ → Queue T → Queue T → Type 0
  EnqueueEffect a (ok _) s s' =
      (l : List (Option T)) → Contents s l → Contents s' (l ++ ((s.node a).value ∷ []))
  EnqueueEffect a (err _) s s' = ⊥

  Chain-same :
      (node : ℕ → Node T) {q : ℕ} {rs bs : List ℕ} → Chain node q rs → Chain node q bs → rs ≡ bs
  Chain-same node (nil e) (nil e') = refl
  Chain-same node (nil e) (cons ne c) = absurd (ne e)
  Chain-same node (cons ne c) (nil e) = absurd (ne e)
  Chain-same node {q} (cons ne c) (cons ne' c') = ap (λ x. q ∷ x) (Chain-same node c c')

  -- The last node `t` gets the link `a`.
  module _ (node : ℕ → Node T) (t a : ℕ) (a_ne : a ≢ 0) (t_ne : t ≢ a) (t_last : (node t).next ≡ 0)
      (a_last : (node a).next ≡ 0) where
    abbrev extended : ℕ → Node T
    extended = update node t (record (node t) { next = a })

    extended-value : (x : ℕ) → (extended x).value ≡ (node x).value
    extended-value x = elim (Bool-cases (t == x)) [
      | inl at ↦ rw at (ap (λ y. (node y).value) ((==_iff t x).0 at))
      | inr off ↦ rw off
    ]

    values-extended :
        (rs : List ℕ) → values extended (rs ++ (a ∷ [])) ≡ values node rs ++ ((node a).value ∷ [])
    values-extended [] = ap (λ v. v ∷ []) (extended-value a)
    values-extended (x ∷ rs) =
        ap (λ v. v ∷ values extended (rs ++ (a ∷ []))) (extended-value x)
        ∙ ap (λ vs. (node x).value ∷ vs) (values-extended rs)

    last_Chain : Chain extended a (a ∷ [])
    last_Chain =
        let off : (t == a) ≡ false = ground arith in
        let link : (extended a).next ≡ 0 = rw off a_last in cons a_ne (nil link)

    at_end : {rs : List ℕ} → Chain node (node t).next rs → rs ≡ []
    at_end (nil e) = refl
    at_end (cons ne c) = absurd (ne t_last)

    extended-Chain :
        {q : ℕ} {rs : List ℕ}
        → Chain node q rs
        → has t rs ≡ true
        → Chain extended q (rs ++ (a ∷ []))
    extended-Chain (nil e) h = cc
    extended-Chain {q} (cons {rs = rs} ne c) h = elim (Bool-cases (t == q)) [
      | inl at ↦
          let e : q ≡ t = sym ((==_iff t q).0 at) in
          let done : rs ≡ [] = at_end (subst (λ x. Chain node (node x).next rs) e c) in
          let link : a ≡ (extended q).next = rw at refl in
          cons ne (
            subst (λ x. Chain extended x (rs ++ (a ∷ []))) link
              (subst (λ l. Chain extended a (l ++ (a ∷ []))) (sym done) last_Chain))
      | inr off ↦
          let rest : has t rs ≡ true = ground arith in
          let link : (node q).next ≡ (extended q).next = rw off refl in
          cons ne (subst (λ x. Chain extended x (rs ++ (a ∷ []))) link (extended-Chain c rest))
    ]

    -- The chain behind the dummy `h`.
    behind_Chain :
        (h : ℕ) {rs : List ℕ}
        → Chain node (node h).next rs
        → has t (h ∷ rs) ≡ true
        → Chain extended (extended h).next (rs ++ (a ∷ []))
    behind_Chain h {rs} c on = elim (Bool-cases (t == h)) [
      | inl at ↦
          let e : h ≡ t = sym ((==_iff t h).0 at) in
          let done : rs ≡ [] = at_end (subst (λ x. Chain node (node x).next rs) e c) in
          let link : a ≡ (extended h).next = rw at refl in
          subst (λ x. Chain extended x (rs ++ (a ∷ []))) link
            (subst (λ l. Chain extended a (l ++ (a ∷ []))) (sym done) last_Chain)
      | inr off ↦
          let rest : has t rs ≡ true = ground arith in
          let link : (node h).next ≡ (extended h).next = rw off refl in
          subst (λ x. Chain extended x (rs ++ (a ∷ []))) link (extended-Chain c rest)
    ]

  link-EnqueueEffect :
      (s : Queue T) (a t : ℕ)
      → a ≢ 0
      → IsOn s t
      → ¬ IsOn s a
      → (s.node t).next ≡ 0
      → (s.node a).next ≡ 0
      → EnqueueEffect a (ok tt) s (set_next t a s)
  link-EnqueueEffect s a t ne (qs, d, on) off t_last a_last l (rs, c, v) =
      let t_ne : t ≢ a = λ e. off (qs, d, subst (λ x. has x (s.head ∷ qs) ≡ true) e on) in
      let on' = subst (λ x. has t (s.head ∷ x) ≡ true) (Chain-same s.node d c) on in
      (
        rs ++ (a ∷ []),
        behind_Chain s.node t a ne t_ne t_last a_last s.head c on',
        values-extended s.node t a ne t_ne t_last a_last rs
            ∙ ap (λ x. x ++ ((s.node a).value ∷ [])) v,
      )

  -- The tail that was read is on the queue, or has a link by now.
  abbrev IsLate : ℕ → Queue T → Type 0
  IsLate t s = IsOn s t ⊎ ((s.node t).next ≢ 0)

  IsLate-kept : (a t : ℕ) (s s' : Queue T) → IsLate t s → KeepsTail a t s s' → IsLate t s'
  IsLate-kept a t s s' (inl on) r = r.stays on
  IsLate-kept a t s s' (inr n) r = inr (r.linked n)

  exchange_step :
      (a t : ℕ) (s s' : Queue T)
      → a ≢ 0
      → IsLate t s
      → KeepsTail a t s s'
      → ((s'.node t).next == 0) ≡ true
      → EnqueueEffect a (ok tt) s' (set_next t a s')
  exchange_step a t s s' ne late r e =
      let null = (==_iff (s'.node t).next 0).0 e in
      elim (IsLate-kept a t s s' late r) [
        | inl on ↦ link-EnqueueEffect s' a t ne on r.private null r.unlinked
        | inr n ↦ absurd (n null)
      ]

-- Beside other threads that leave its node `a` alone and keep the tail that it has found on the queue
-- until this has a link, `try_enqueue` either has one linearization point, at which the value of its
-- node comes behind the values of the queue, and returns `Ok`; or it changes the values at no step,
-- and gives the node back. A crash or a spin of the manager cuts it short.
pub try_enqueue-Linearizes :
    (T : Type 0) (rounds tid a : ℕ)
    → a ≢ 0
    → LinearizesFrom
        (λ s0. KeepsTail a s0.tail)
        (λ _ _ _. Unit {0})
        Quiet
        (EnqueueEffect a)
        (GivesBack a)
        (try_enqueue {T = T} rounds tid a)
unfolding try_enqueue
try_enqueue-Linearizes T rounds tid a ne = λ s0.
    let t = s0.tail in
    let Keeps = KeepsTail a t in
    inl (
      λ l c. c,
      Linearizes-zoom Keeps (λ _ _. Unit) Quiet (EnqueueEffect a) (GivesBack a) (λ m. m.manager)
          set_manager (Hazard.protect rounds tid t 0) _ (λ _. Unit {0}) s0 (λ m u l c. c)
          (λ _ _ _ _. tt) (λ _ _ _. tt) tt
          λ _ s1 _ s2 r2. inl (
            λ l c. c,
            Linearizes-split Keeps (λ _ _. Unit) Quiet (EnqueueEffect a) (GivesBack a)
                (not (t == s2.tail)) _ _ s2 (λ _. refl)
                λ e s3 r3. inl (
                  λ l c. c,
                  let found : s2.tail ≡ t = ground arith in
                      let late : IsLate t s3 =
                        IsLate-kept a t s2 s3 (inl (subst (λ q. IsOn s2 q) found r2.valid)) r3 in
                      Linearizes-split Keeps (λ _ _. Unit) Quiet (EnqueueEffect a) (GivesBack a)
                        (not ((s3.node t).next == 0)) _ _ s3
                        (λ _ s4 r4. inl (
                          if_both {A = Queue T} (λ m. Quiet s4 m) (s4.tail == t) _ _ (λ l c. c)
                              (λ l c. c),
                          refl,
                        ))
                        λ _.
                          Linearizes-exchange Keeps (λ _ _. Unit) Quiet (EnqueueEffect a)
                            (GivesBack a) (λ m. (m.node t).next) (set_next t) 0 a (enqueued t a) s3
                            (λ s4 r4 e4. (
                              ok tt,
                              exchange_step a t s3 s4 ne late r4 e4,
                              λ s5 _. (
                                if_both {A = Queue T} (λ m. Quiet s5 m) (s5.tail == t) _ _
                                    (λ l c. c) (λ l c. c),
                                refl,
                              ),
                            ))
                            (λ s4 r4. (λ l c. c, refl)),
                ),
          ),
    )
