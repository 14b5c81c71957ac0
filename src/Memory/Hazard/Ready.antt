-- ===== src/Memory/Hazard/Ready.antt =====
-- A manager that serves a thread: `protect` and `retire` return, with no other thread at work.
use rustcurrent.Prelude.{
  ℕ, suc, not, drop, Option, none, ◌+◌, ◌<◌, ◌≡◌, refl, ap, sym, ◌∙◌, inl, inr, some, List, [], ◌∷◌,
  ◌++◌, get_elem?, length, ltb, ◌==◌, ==_refl, ==_iff, Bool-cases,
}
use rustcurrent.Concurrent.{done, run}
use rustcurrent.Concurrent.Returns.{Returns, Returns-bind, Returns-done}
use rustcurrent.Memory.Hazard
use rustcurrent.Memory.Hazard.{
  Manager, ThreadLocalInfo, HazardPointer, set_info, set_protected, scan, reuse_dynamic,
  get_mut_thread_info, allocate_hp, box_hp, push_hp, dynamic_or_new,
}
use rustcurrent.Memory.Hazard.Scan.{
  Chain, nil, cons, is_protected, discard, scanned, retired, get_mut_thread_info-run, scan-run,
  retire-run,
}
use mathlib.Core.Path.{subst}

-- The thread has its information with a first hazard pointer, and the rounds exceed the hazard
-- pointers on the global list.
pub record Ready (rounds tid : ℕ) (m : Manager) : Type 0 where
  pub info : ThreadLocalInfo
  pub known : m.thread_info tid ≡ some info
  pub hp : ℕ
  pub first : get_elem? info.local_hazards 0 ≡ some hp
  pub hazard_list : List ℕ
  pub chain : Chain m m.head hazard_list
  pub enough : length hazard_list < rounds

pub Chain-keeps :
    (m m' : Manager) {q : ℕ} {hs : List ℕ}
    → ((a : ℕ) → (m'.hazards a).next ≡ (m.hazards a).next)
    → Chain m q hs
    → Chain m' q hs
Chain-keeps m m' {q} same (nil e) = nil e
Chain-keeps m m' {q} same (cons {hs = hs} ne c) =
    cons ne (subst (λ x. Chain m' x hs) (sym (same q)) (Chain-keeps m m' same c))

pub set_protected-next :
    (hp r : ℕ) (m : Manager) (a : ℕ) → ((set_protected hp r m).hazards a).next ≡ (m.hazards a).next
set_protected-next hp r m a = elim (Bool-cases (hp == a)) [
  | inl at ↦ rw at (ap (λ x. (m.hazards x).next) ((==_iff hp a).0 at))
  | inr off ↦ rw off
]

-- The thread's information may change in all but its hazard pointers.
with_info-Ready :
    (rounds tid : ℕ) (m : Manager) (ready : Ready rounds tid m) (info : ThreadLocalInfo)
    (freed : List ℕ)
    → info.local_hazards ≡ ready.info.local_hazards
    → Ready rounds tid (set_info tid info (record m { freed = freed }))
with_info-Ready rounds tid m ready info freed same = record {
  info = info;
  known = rw (==_refl tid);
  hp = ready.hp;
  first = ap (λ l. get_elem? l 0) same ∙ ready.first;
  hazard_list = ready.hazard_list;
  chain = Chain-keeps m (set_info tid info (record m { freed = freed })) (λ a. refl) ready.chain;
  enough = ready.enough;
}

set_protected-Ready :
    (rounds tid r hp : ℕ) (m : Manager)
    → Ready rounds tid m
    → Ready rounds tid (set_protected hp r m)
set_protected-Ready rounds tid r hp m ready = record {
  info = ready.info;
  known = ready.known;
  hp = ready.hp;
  first = ready.first;
  hazard_list = ready.hazard_list;
  chain = Chain-keeps m (set_protected hp r m) (set_protected-next hp r m) ready.chain;
  enough = ready.enough;
}

protect-run :
    (rounds tid r : ℕ) (m : Manager) (ready : Ready rounds tid m)
    → run (Hazard.protect rounds tid r 0) m ≡ done tt (set_protected ready.hp r m)
unfolding Hazard.protect run
protect-run rounds tid r m ready =
    get_mut_thread_info-run rounds tid m ready.info _ ready.known ∙ rw (ready.first)

pub protect-Ready :
    (rounds tid r : ℕ) (m : Manager)
    → Ready rounds tid m
    → Returns (λ _ m'. Ready rounds tid m') (Hazard.protect rounds tid r 0) m
protect-Ready rounds tid r m ready =
    Returns-done (λ _ m'. Ready rounds tid m') (Hazard.protect rounds tid r 0) m
      (protect-run rounds tid r m ready) (set_protected-Ready rounds tid r ready.hp m ready)

pub retire-Ready :
    (rounds tid r : ℕ) (m : Manager)
    → Ready rounds tid m
    → Returns (λ _ m'. Ready rounds tid m') (Hazard.retire rounds tid r 0) m
unfolding set_protected-Ready with_info-Ready
retire-Ready rounds tid r m ready = elim (retire-run rounds tid r 0 m ready.info ready.known) [
  | inl (gone, _) ↦ let clash = sym ready.first ∙ gone in absurd (cc)
  | inr (hp, _, runs) ↦
      let info' = record ready.info {
        retired_list = ready.info.retired_list ++ (r ∷ []);
        retired_number = ready.info.retired_number + 1;
      } in
      let m' = retired tid hp ready.info r m in
      let cleared = set_protected-Ready rounds tid 0 hp m ready in
      let ready' : Ready rounds tid m' =
        with_info-Ready rounds tid (set_protected hp 0 m) cleared info' m.freed refl in
      elim (Bool-cases (ltb m.max_retired (ready.info.retired_number + 1))) [
        | inr few ↦
            Returns-done (λ _ m'. Ready rounds tid m') (Hazard.retire rounds tid r 0) m
              (runs ∙ rw few) ready'
        | inl many ↦
            Returns-done (λ _ m'. Ready rounds tid m') (Hazard.retire rounds tid r 0) m
              (runs
                ∙ rw many (
                    scan-run rounds tid m' ready.hazard_list info' ready'.chain ready.enough
                      ready'.known))
              (with_info-Ready rounds tid m' ready' (scanned m' ready.hazard_list info')
                (discard (is_protected m' ready.hazard_list) info'.retired_list m'.freed) refl)
      ]
]

-- The thread has its information.
abbrev pub Known : (tid : ℕ) → Manager → Type 0
Known tid m = (info : ThreadLocalInfo) × (m.thread_info tid ≡ some info)

reuse_dynamic-Known :
    (tid i r : ℕ) (hps : List ℕ) (m : Manager)
    → Known tid m
    → Returns (λ _ m'. Known tid m') (reuse_dynamic i hps r) m
unfolding reuse_dynamic
reuse_dynamic-Known tid i r [] m known = known
reuse_dynamic-Known tid i r (hp ∷ hps) m known =
    elim (Bool-cases (not ((m.hazards hp).protected == 0))) [
      | inl free ↦ rw (Returns, free) known
      | inr taken ↦ rw (Returns, taken) (reuse_dynamic-Known tid (i + 1) r hps m known)
    ]

-- One round is enough to push a hazard pointer.
pub protect_dynamic-Known :
    (more tid r : ℕ) (m : Manager)
    → Known tid m
    → Returns (λ _ m'. Known tid m') (Hazard.protect_dynamic (suc more) tid r) m
unfolding Hazard.protect_dynamic get_mut_thread_info allocate_hp box_hp push_hp
protect_dynamic-Known more tid r m (info, known) =
    rw (Returns, known)
      (Returns-bind (λ _ m'. Known tid m') (λ _ m'. Known tid m')
        (reuse_dynamic info.starting_hazards_num (drop info.starting_hazards_num info.local_hazards)
          r)
        (dynamic_or_new (suc more) tid info) m
        (reuse_dynamic-Known tid info.starting_hazards_num r
          (drop info.starting_hazards_num info.local_hazards) m (info, known))
        new_or_not)
  where
    new_or_not :
        (found : Option ℕ) (m' : Manager)
        → Known tid m'
        → Returns (λ _ m'. Known tid m') (dynamic_or_new (suc more) tid info found) m'
    new_or_not (some i) m' k = k
    new_or_not none m' k =
        rw (Returns, ==_refl m'.head)
          (
            record info { local_hazards = info.local_hazards ++ ((m'.last + 1) ∷ []) },
            rw (==_refl tid),
          )
