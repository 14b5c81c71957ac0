-- ===== src/Memory/Hazard/Safety.antt =====
-- `scan` (src/memory/hazardpointers.rs) beside other threads, and one protected record.
use rustcurrent.Prelude.{
  ℕ, zero, suc, ◌≡◌, ◌≢◌, sym, ◌∙◌, ◌⊎◌, inl, inr, arith, true, Option, none, some, List, [], ◌∷◌,
  has, ◌==◌, ==_iff, if◌then◌else◌, Bool-cases, if_both, Result, ok, err, ◌+◌,
}
use rustcurrent.Concurrent.{Prog, ret}
use rustcurrent.Concurrent.Guarantee.{Ensures, Ensures-bind, Runs, Runs-bind, Runs-Ensures}
use rustcurrent.Memory.Hazard.{
  Manager, ThreadLocalInfo, box_hp, push_hp, allocate_hps, info_or_new, get_mut_thread_info,
  collect, sweep, scan,
}

-- From the hazard pointer at `q` the links lead to the one at `h`.
pub data Leads (m : Manager) (h : ℕ) : ℕ → Type 0 where
  here : {q : ℕ} → q ≡ h → Leads m h q
  next : {q : ℕ} → q ≢ 0 → Leads m h ((m.hazards q).next) → Leads m h q

Leads-ne-null : {m : Manager} {h q : ℕ} → h ≢ 0 → Leads m h q → q ≢ 0
Leads-ne-null ne (here e) z = ne (sym e ∙ z)
Leads-ne-null ne (next n l) z = n z

module _ (h p : ℕ) where
  -- What the scanning thread relies on: `h` goes on to protect `p`, and stays on the list.
  pub record Rely (m m' : Manager) : Type 0 where
    pub kept : (m.hazards h).protected ≡ p → (m'.hazards h).protected ≡ p
    pub linked : (q : ℕ) → Leads m h q → Leads m' h q
    pub headed : Leads m h m.head → Leads m' h m'.head

  -- The step does not free `p`.
  abbrev pub Spares : Manager → Manager → Type 0
  Spares m m' = has p m'.freed ≡ true → has p m.freed ≡ true

  Rely-refl : (m : Manager) → Rely m m
  Rely-refl m = record { kept = λ e. e; linked = λ q l. l; headed = λ l. l }

  push_hp-Runs : (rounds hp : ℕ) → Runs Spares (push_hp rounds hp)
  unfolding push_hp
  push_hp-Runs zero hp = tt
  push_hp-Runs (suc rounds) hp = (
    λ m i. i,
    λ m. (
      λ m i. i,
      λ _. (
        λ m' i.
            if_both {A = Manager} (λ n. has p n.freed ≡ true → has p m'.freed ≡ true)
              (m'.head == m.head) _ _ (λ i. i) (λ i. i) i,
        λ m'.
            again (if m'.head == m.head then ok m'.head else err m'.head) (push_hp-Runs rounds hp),
      ),
    ),
  )
    where
      again :
          (x : Result ℕ ℕ)
          → Runs Spares (push_hp rounds hp)
          → Runs Spares
              (elim x as (λ _. Prog Manager ℕ) [ ok _ ↦ ret hp | err _ ↦ push_hp rounds hp ])
      again (ok _) ih = tt
      again (err _) ih = ih

  allocate_hps-Runs : (rounds n : ℕ) → Runs Spares (allocate_hps rounds n)
  unfolding allocate_hps box_hp
  allocate_hps-Runs rounds zero = tt
  allocate_hps-Runs rounds (suc n) = (
    λ m i. i,
    λ m.
        Runs-bind Spares (push_hp rounds (m.last + 1)) _ (push_hp-Runs rounds (m.last + 1))
          λ hp. Runs-bind Spares (allocate_hps rounds n) _ (allocate_hps-Runs rounds n) λ hps. tt,
  )

  get_mut_thread_info-Runs : (rounds tid : ℕ) → Runs Spares (get_mut_thread_info rounds tid)
  unfolding get_mut_thread_info
  get_mut_thread_info-Runs rounds tid = (λ m i. i, λ m. go (m.thread_info tid))
    where
      go : (o : Option ThreadLocalInfo) → Runs Spares (info_or_new rounds tid o)
      go (some info) = tt
      go none = (
        λ m i. i,
        λ m.
            Runs-bind Spares (allocate_hps rounds m.num_hp_per_thread) _
              (allocate_hps-Runs rounds m.num_hp_per_thread) λ hps. (λ m i. i, λ m. tt),
      )

  has_mono :
      (ptr : ℕ) (set : List ℕ)
      → has p set ≡ true
      → has p (if ptr == 0 then set else ptr ∷ set) ≡ true
  has_mono ptr set i = ground arith

  -- One hazard pointer further, its record is noted or `h` still lies ahead.
  collected :
      (current : ℕ) (set : List ℕ) (m m' : Manager)
      → p ≢ 0
      → (m.hazards h).protected ≡ p
      → (has p set ≡ true) ⊎ Leads m' h current
      → let ptr = (m.hazards current).protected in
        (has p (if ptr == 0 then set else ptr ∷ set) ≡ true) ⊎ Leads m' h (m'.hazards current).next
  collected current set m m' pn e (inl i) = inl (has_mono (m.hazards current).protected set i)
  collected current set m m' pn e (inr (here is)) =
      let found : (m.hazards current).protected ≡ p = rw is e in inl (rw found (ground arith))
  collected current set m m' pn e (inr (next n l)) = inr l

  collect-Ensures :
      h ≢ 0
      → p ≢ 0
      → (rounds current : ℕ) (set : List ℕ) (m : Manager) → (m.hazards h).protected ≡ p
      → (has p set ≡ true) ⊎ Leads m h current
      → Ensures Rely Spares (λ set' _. has p set' ≡ true) (collect rounds current set) m
  unfolding collect
  collect-Ensures hn pn zero current set m e l = tt
  collect-Ensures hn pn (suc rounds) current set m e l = elim (Bool-cases (current == 0)) [
    | inl end ↦
        rw (end, Ensures)
          (λ m' r. elim l [
            | inl i ↦ i
            | inr ld ↦ absurd (Leads-ne-null hn ld ((==_iff current 0).0 end))
          ])
    | inr more ↦
        rw (more, Ensures)
          (λ m1 r1. (
            λ i. i,
            λ m2 r2. (
              λ i. i,
              collect-Ensures hn pn rounds _ _ m2 (r2.kept (r1.kept e)) (
                  collected current set m1 m2 pn (r1.kept e) (elim l [
                    | inl i ↦ inl i
                    | inr ld ↦ inr (r2.linked current (r1.linked current ld))
                  ])),
            ),
          ))
  ]

  sweep-Ensures :
      (set l : List ℕ) (m : Manager)
      → has p set ≡ true
      → Ensures Rely Spares (λ _ _. Unit) (sweep set l) m
  unfolding sweep
  sweep-Ensures set [] m i = λ m' r. tt
  sweep-Ensures set (ptr ∷ l) m i = elim (Bool-cases (has ptr set)) [
    | inl stays ↦
        rw (stays, Ensures)
          (Ensures-bind Rely Spares (λ _ _. Unit) (λ _ _. Unit) (sweep set l) _ m Rely-refl
            (sweep-Ensures set l m i) λ kept m' u m'' r. tt)
    | inr goes ↦
        rw (goes, Ensures)
          (λ m1 r1.
            (λ q. ground arith, sweep-Ensures set l (record m1 { freed = ptr ∷ m1.freed }) i))
  ]

  -- Run `scan` beside any other threads. If at its start the hazard pointer at `h` is on the global
  -- list and protects the record `p`, and if the others leave `p` in it and `h` on the list, then
  -- `scan` does not crash and no step of it frees `p`.
  pub scan-Spares :
      h ≢ 0
      → p ≢ 0
      → (rounds tid : ℕ) (m : Manager) → (m.hazards h).protected ≡ p
      → Leads m h m.head
      → Ensures Rely Spares (λ _ _. Unit) (scan rounds tid) m
  unfolding scan
  scan-Spares hn pn rounds tid m e l = λ m1 r1. (
    λ i. i,
    Ensures-bind Rely Spares (λ set _. has p set ≡ true) (λ _ _. Unit) (collect rounds m1.head []) _
        m1 Rely-refl (collect-Ensures hn pn rounds m1.head [] m1 (r1.kept e) (inr (r1.headed l)))
        λ set m2 i.
          Ensures-bind Rely Spares (λ _ _. Unit) (λ _ _. Unit) (get_mut_thread_info rounds tid) _ m2
            Rely-refl
            (Runs-Ensures Rely Spares (get_mut_thread_info rounds tid) m2
              (get_mut_thread_info-Runs rounds tid))
            λ info m3 u.
              Ensures-bind Rely Spares (λ _ _. Unit) (λ _ _. Unit) (sweep set info.retired_list) _
                m3 Rely-refl (sweep-Ensures set info.retired_list m3 i)
                λ new m4 u' m5 r5. (λ q. q, λ m6 r6. tt),
  )
