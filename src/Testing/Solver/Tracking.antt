-- ===== src/Testing/Solver/Tracking.antt =====
-- The operations of a configuration, read as marks of a linearization.
use rustcurrent.Prelude.{
  ℕ, ◌<◌, ◌≡◌, refl, ap, ◌∙◌, inl, inr, arith, true, Option, none, some, List, [], ◌∷◌, ◌++◌,
  get_elem?, set, replicate, length, ltb, ltb→lt, ◌==◌, if◌then◌else◌, Bool-cases,
  get_elem?-set_self, set-set, length-set, get_elem?-set_ne, get_elem?-replicate, Option-cases, Eq,
  option_beq, ok, Outcome, returns, ◌>>=◌,
}
use mathlib.Core.Path.{subst}
use rustcurrent.Testing.TimeStamped.{Op, InvokeEvent, ReturnEvent, Event, invoke, return}
use rustcurrent.Testing.Automaton.{
  ThreadState, called, linearized, returned, StatesWrapper, Configuration, state_at, with_state,
  return_from, linearize_from, make_return, make_fire_return, make_linearize, new_states,
  new_configuration, from_invoke, try_return, try_linearize,
}
use Prim.Native.String.{String}
use mathlib.Core.List.{append-nil}
use rustcurrent.Testing.History.{
  Mark, event, point, Phase, idle, pending, past, Phases, events, update, apply, replay,
}

module _ {Seq Ret : Type 0} where
  abbrev pub phase_of : Option (ThreadState Seq Ret) → Phase Seq Ret
  phase_of none = idle
  phase_of (some (called _ op res arg)) = pending op res arg
  phase_of (some (linearized _)) = past
  phase_of (some returned) = idle

  -- The phases of the threads are those that the configuration keeps.
  abbrev pub Agrees : Configuration Seq Ret → Phases Seq Ret → Type 0
  Agrees c ph = (t : ℕ) → ph t ≡ phase_of (get_elem? c.states.states t)

  abbrev with_thread : Configuration Seq Ret → Seq → ℕ → ThreadState Seq Ret → Configuration Seq Ret
  with_thread c q t s = record {
    sequential = q;
    states = record { states = set c.states.states t s };
  }

  events-append : (ms ns : List (Mark Seq Ret)) → events (ms ++ ns) ≡ events ms ++ events ns
  events-append [] ns = refl
  events-append (event e ∷ ms) ns = ap (λ l. e ∷ l) (events-append ms ns)
  events-append (point t ∷ ms) ns = events-append ms ns

  with_state_inv {κ} :
      {B : Type κ} (w : StatesWrapper Seq Ret) (t : ℕ) (s : ThreadState Seq Ret)
      (k : StatesWrapper Seq Ret → Outcome B) (b : B)
      → (with_state w t s >>= k) ≡ returns b
      → (t < length w.states) × (k (record { states = set w.states t s }) ≡ returns b)
  with_state_inv w t s k b h = elim (Bool-cases (ltb t (length w.states))) [
    | inl inside ↦ (ltb→lt t (length w.states) inside, rw inside at h)
    | inr outside ↦ absurd (let h' = rw outside at h in cc)
  ]

  get_elem?-set :
      (l : List (ThreadState Seq Ret)) (t u : ℕ) (s : ThreadState Seq Ret)
      → t < length l
      → get_elem? (set l t s) u ≡ (if t == u then some s else get_elem? l u)
  get_elem?-set l t u s h = elim (Bool-cases (t == u)) [
    | inl e ↦ rw e (ground (arith, get_elem?-set_self l t s h))
    | inr e ↦ rw e (get_elem?-set_ne l t u s (ground arith))
  ]

  -- A write to the state of `t` moves the phase of `t`.
  Agrees-set :
      (c : Configuration Seq Ret) (ph : Phases Seq Ret) (q : Seq) (t : ℕ) (s : ThreadState Seq Ret)
      → t < length c.states.states
      → Agrees c ph
      → Agrees (with_thread c q t s) (update ph t (phase_of (some s)))
  Agrees-set c ph q t s h agrees u =
      rw (get_elem?-set c.states.states t u s h)
        (elim (Bool-cases (t == u)) [ inl e ↦ rw e | inr e ↦ rw e (agrees u) ])

module _ {Seq Ret : Type 0} ⦃e : Eq Ret⦄ where
  replay-append :
      (ms : List (Mark Seq Ret)) (m : Mark Seq Ret) (q : Seq) (ph : Phases Seq Ret) {q' : Seq}
      {ph' : Phases Seq Ret} {end : Seq × Phases Seq Ret}
      → replay ms q ph ≡ some (q', ph')
      → apply q' ph' m ≡ some end
      → replay (ms ++ (m ∷ [])) q ph ≡ some end
  unfolding replay
  replay-append [] m q ph h k = ground arith
  replay-append (n ∷ ms) m q ph h k = elim (Option-cases (apply q ph n)) [
    | inl e ↦ absurd (let h' = rw e at h in cc)
    | inr ((q1, ph1), e) ↦ rw e (replay-append ms m q1 ph1 (rw e at h) k)
  ]

  -- A run of marks over the events `es` that ends in the configuration `c`.
  pub record Tracked (start : Seq) (c : Configuration Seq Ret) (es : List (Event Seq Ret))
      : Type 0 where
    pub marks : List (Mark Seq Ret)
    pub phases : Phases Seq Ret
    pub erased : events marks ≡ es
    pub legal : replay marks start (λ _. idle) ≡ some (c.sequential, phases)
    pub agrees : Agrees c phases

  -- One more mark.
  Tracked-snoc :
      {start : Seq} {c : Configuration Seq Ret} {es : List (Event Seq Ret)} (m : Mark Seq Ret)
      (c' : Configuration Seq Ret) (ph' : Phases Seq Ret) (tr : Tracked start c es)
      → apply c.sequential tr.phases m ≡ some (c'.sequential, ph')
      → Agrees c' ph'
      → Tracked start c' (es ++ events (m ∷ []))
  Tracked-snoc m c' ph' tr step agrees = record {
    marks = tr.marks ++ (m ∷ []);
    phases = ph';
    erased = events-append tr.marks (m ∷ []) ∙ ap (λ l. l ++ events (m ∷ [])) tr.erased;
    legal = replay-append tr.marks m _ _ tr.legal step;
    agrees = agrees;
  }

  pub Tracked-new : (q : Seq) (n : ℕ) → Tracked q (new_configuration q n) []
  unfolding new_configuration new_states replay
  Tracked-new q n = record {
    marks = [];
    phases = λ _. idle;
    erased = refl;
    legal = refl;
    agrees = λ t.
        elim (Option-cases {A = ThreadState Seq Ret} (get_elem? (replicate n returned) t)) [
          | inl e ↦ rw e
          | inr (s, e) ↦ rw (e, get_elem?-replicate n t returned s e)
        ];
  }

  module _ {start : Seq} {c : Configuration Seq Ret} {es : List (Event Seq Ret)}
      (tr : Tracked start c es) where
    -- One more mark, which moves the state of one thread.
    Tracked-set :
        (m : Mark Seq Ret) (q : Seq) (t : ℕ) (s : ThreadState Seq Ret)
        → t < length c.states.states
        → apply c.sequential tr.phases m ≡ some (q, update tr.phases t (phase_of (some s)))
        → Tracked start (with_thread c q t s) (es ++ events (m ∷ []))
    Tracked-set m q t s inside step =
        Tracked-snoc m (with_thread c q t s) (update tr.phases t (phase_of (some s))) tr step
          (Agrees-set c tr.phases q t s inside tr.agrees)

    pub from_invoke-Tracked :
        (i : InvokeEvent Seq Ret) (c' : Configuration Seq Ret)
        → from_invoke c i ≡ returns c'
        → Tracked start c' (es ++ (invoke i ∷ []))
    unfolding from_invoke apply
    from_invoke-Tracked i c' h =
        let s = called i.message i.op i.res i.arg in
        let (inside, e) = with_state_inv c.states i.id s _ _ h in
        let same : with_thread c c.sequential i.id s ≡ c' = cc in
        subst (λ c'. Tracked start c' (es ++ (invoke i ∷ []))) same
          (Tracked-set (event (invoke i)) c.sequential i.id s inside refl)

    -- The point of the open operation of thread `t`.
    pub point-Tracked :
        (t : ℕ) (msg : String) (op : Op Seq Ret) (res arg out : Option Ret)
        → get_elem? c.states.states t ≡ some (called msg op res arg)
        → t < length c.states.states
        → option_beq (op c.sequential arg).1 res ≡ true
        → Tracked start (with_thread c (op c.sequential arg).0 t (linearized out)) es
    unfolding apply
    point-Tracked t msg op res arg out at inside fits =
        subst (λ l. Tracked start (with_thread c (op c.sequential arg).0 t (linearized out)) l)
          (append-nil es)
          (Tracked-set (point t) (op c.sequential arg).0 t (linearized out) inside
            (rw (tr.agrees t, at, fits)))

    -- The return of a thread past its point.
    pub return-Tracked :
        (r : ReturnEvent Ret) (out : Option Ret)
        → get_elem? c.states.states r.id ≡ some (linearized out)
        → r.id < length c.states.states
        → Tracked start (with_thread c c.sequential r.id returned) (es ++ (return r ∷ []))
    unfolding apply
    return-Tracked r out at inside =
        Tracked-set (event (return r)) c.sequential r.id returned inside (rw (tr.agrees r.id, at))

module _ {Seq Ret : Type 0} ⦃e : Eq Ret⦄ {start : Seq} {c : Configuration Seq Ret}
    {es : List (Event Seq Ret)} (tr : Tracked start c es) where
  -- An operation that has just taken place returns at once.
  fire_return-Tracked :
      (r : ReturnEvent Ret) (msg : String) (op : Op Seq Ret) (res arg : Option Ret)
      → get_elem? c.states.states r.id ≡ some (called msg op res arg)
      → r.id < length c.states.states
      → option_beq (op c.sequential arg).1 res ≡ true
      → Tracked start (with_thread c (op c.sequential arg).0 r.id returned) (es ++ (return r ∷ []))
  fire_return-Tracked r msg op res arg at inside fits =
      let l = c.states.states in
      let q = (op c.sequential arg).0 in
      rw (set-set l r.id (linearized res) returned) at (
        return-Tracked (point-Tracked tr r.id msg op res arg res at inside fits) r res
          (get_elem?-set_self l r.id (linearized res) inside)
          (omega (arith, length-set l r.id (linearized res))))

  return_from-Tracked :
      (r : ReturnEvent Ret) (s : ThreadState Seq Ret) (c' : Configuration Seq Ret)
      → get_elem? c.states.states r.id ≡ some s
      → return_from c r.id s ≡ returns (ok c')
      → Tracked start c' (es ++ (return r ∷ []))
  unfolding make_return make_fire_return
  return_from-Tracked r (linearized out) c' at h =
      let (inside, e) = with_state_inv c.states r.id returned _ _ h in
      let same : with_thread c c.sequential r.id returned ≡ c' = cc in
      subst (λ c'. Tracked start c' (es ++ (return r ∷ []))) same
        (return-Tracked tr r out at inside)
  return_from-Tracked r (called msg op res arg) c' at h =
      elim (Bool-cases (option_beq (op c.sequential arg).1 res)) [
        | inl fits ↦
            let (inside, e) = with_state_inv c.states r.id returned _ _ (rw fits at h) in
            let same : with_thread c (op c.sequential arg).0 r.id returned ≡ c' = cc in
            subst (λ c'. Tracked start c' (es ++ (return r ∷ []))) same
              (fire_return-Tracked r msg op res arg at inside fits)
        | inr misfit ↦ absurd (let h' = rw misfit at h in cc)
      ]
  return_from-Tracked r returned c' at h = absurd (cc)

  linearize_from-Tracked :
      (t : ℕ) (s : ThreadState Seq Ret) (c' : Configuration Seq Ret)
      → get_elem? c.states.states t ≡ some s
      → linearize_from c t s ≡ returns (ok c')
      → Tracked start c' es
  unfolding make_linearize
  linearize_from-Tracked t (linearized out) c' at h = absurd (cc)
  linearize_from-Tracked t returned c' at h = absurd (cc)
  linearize_from-Tracked t (called msg op res arg) c' at h =
      let (q, out) = op c.sequential arg in
      elim (Bool-cases (option_beq out res)) [
        | inl fits ↦
            let (inside, e) = with_state_inv c.states t (linearized out) _ _ (rw fits at h) in
            let same : with_thread c q t (linearized out) ≡ c' = cc in
            subst (λ c'. Tracked start c' es) same
              (point-Tracked tr t msg op res arg out at inside fits)
        | inr misfit ↦ absurd (let h' = rw misfit at h in cc)
      ]

  state_at_inv {κ} :
      {B : Type κ} (t : ℕ) (k : ThreadState Seq Ret → Outcome B) (b : B)
      → (state_at c.states t >>= k) ≡ returns b
      → (s : ThreadState Seq Ret) × (get_elem? c.states.states t ≡ some s) × (k s ≡ returns b)
  state_at_inv t k b h =
      elim (Option-cases {A = ThreadState Seq Ret} (get_elem? c.states.states t)) [
        | inl gone ↦ absurd (let h' = rw (gone, ◌>>=◌) at h in cc)
        | inr (s, at) ↦ (s, at, rw (at, ◌>>=◌) at h)
      ]

  pub try_return-Tracked :
      (r : ReturnEvent Ret) (c' : Configuration Seq Ret)
      → try_return c r.id ≡ returns (ok c')
      → Tracked start c' (es ++ (return r ∷ []))
  unfolding try_return
  try_return-Tracked r c' h =
      let (s, at, k) = state_at_inv r.id _ _ h in return_from-Tracked r s c' at k

  pub try_linearize-Tracked :
      (t : ℕ) (c' : Configuration Seq Ret)
      → try_linearize c t ≡ returns (ok c')
      → Tracked start c' es
  unfolding try_linearize
  try_linearize-Tracked t c' h =
      let (s, at, k) = state_at_inv t _ _ h in linearize_from-Tracked t s c' at k
