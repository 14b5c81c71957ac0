-- ===== src/Memory/Hazard/Dynamic.antt =====
-- What `protect_dynamic` protects, with no other thread at work.
use rustcurrent.Prelude.{
  ℕ, zero, suc, ok, err, ◌+◌, ◌≡◌, ◌≢◌, refl, ap, ◌∙◌, arith, true, false, not, none, some, List,
  [], ◌∷◌, ◌++◌, get_elem?, length, drop, update, ◌==◌, ==_refl,
}
use rustcurrent.Concurrent.{Prog, ret, ◌>>=◌, compare_exchange-ok, done, run, run-bind}
use rustcurrent.Memory.Hazard.{
  Manager, ThreadLocalInfo, set_info, set_head, set_next, set_protected, push_hp, allocate_hp,
  reuse_dynamic, protect_dynamic, new_hazard_pointer,
}
use rustcurrent.Memory.Hazard.Scan.{get_mut_thread_info-run}

-- Each of the hazard pointers is null.
abbrev pub AllNull : Manager → List ℕ → Type 0
AllNull m [] = Unit
AllNull m (hp ∷ hps) = ((m.hazards hp).protected ≡ 0) × AllNull m hps

reuse_dynamic-none :
    (m : Manager) (i : ℕ) (hps : List ℕ) (r : ℕ)
    → AllNull m hps
    → run (reuse_dynamic i hps r) m ≡ done none m
unfolding reuse_dynamic run
reuse_dynamic-none m i [] r a = refl
reuse_dynamic-none m i (hp ∷ hps) r (z, a) =
    let null : not ((m.hazards hp).protected == 0) ≡ false = rw z in
    rw (null, run) (reuse_dynamic-none m (i + 1) hps r a)

-- A fresh hazard pointer at the head of the global list.
abbrev pub allocated : Manager → Manager
allocated m = set_head (m.last + 1) (
    set_next (m.last + 1) m.head
      (record m { hazards = update m.hazards (m.last + 1) new_hazard_pointer; last = m.last + 1 }))

allocate_hp-run :
    {B : Type 0} (rounds : ℕ) (m : Manager) (g : ℕ → Prog Manager B)
    → run (allocate_hp (suc rounds) >>= g) m ≡ run (g (m.last + 1)) (allocated m)
unfolding allocate_hp run
allocate_hp-run rounds m g =
    compare_exchange-ok (λ m. m.head) set_head m.head (m.last + 1)
      (λ swapped.
        elim swapped [ ok _ ↦ ret (m.last + 1) | err _ ↦ push_hp rounds (m.last + 1) ] >>= g)
      _ (==_refl m.head)

get_elem?-length : (l : List ℕ) (a : ℕ) → get_elem? (l ++ (a ∷ [])) (length l) ≡ some a
get_elem?-length [] a = refl
get_elem?-length (_ ∷ l) a = get_elem?-length l a

-- If no dynamic hazard pointer of the thread is in use, `protect_dynamic` returns a handle whose
-- hazard pointer is null: the record that it was to protect is not protected by it.
pub protect_dynamic-unprotected :
    (rounds tid r : ℕ) (m : Manager) (info : ThreadLocalInfo)
    → m.thread_info tid ≡ some info
    → AllNull m (drop info.starting_hazards_num info.local_hazards)
    → (m' : Manager) × (info' : ThreadLocalInfo) × (hp : ℕ) × (run
          (protect_dynamic (suc rounds) tid r)
          m
        ≡ done (length info.local_hazards) m')
      × (m'.thread_info tid ≡ some info')
      × (get_elem? info'.local_hazards (length info.local_hazards) ≡ some hp)
      × ((m'.hazards hp).protected ≡ 0)
unfolding protect_dynamic run
protect_dynamic-unprotected rounds tid r m info known null =
    let info' = record info { local_hazards = info.local_hazards ++ ((m.last + 1) ∷ []) } in
    (
      set_info tid info' (allocated m),
      info',
      m.last + 1,
      get_mut_thread_info-run (suc rounds) tid m info _ known
          ∙ run-bind
              (reuse_dynamic info.starting_hazards_num
                (drop info.starting_hazards_num info.local_hazards) r)
              _ m
          ∙ rw (reuse_dynamic-none m info.starting_hazards_num _ r null)
              (allocate_hp-run rounds m _),
      rw (==_refl tid),
      get_elem?-length info.local_hazards (m.last + 1),
      rw (==_refl (m.last + 1)),
    )

get_elem?-drop : (n i : ℕ) (l : List ℕ) → get_elem? l (n + i) ≡ get_elem? (drop n l) i
get_elem?-drop zero i l = let same : 0 + i ≡ i = omega arith in ap (λ x. get_elem? l x) same
get_elem?-drop (suc n) i [] = refl
get_elem?-drop (suc n) i (a ∷ l) =
    let next : suc n + i ≡ suc (n + i) = omega arith in
    ap (λ x. get_elem? (a ∷ l) x) next ∙ get_elem?-drop n i l

get_elem?-middle :
    (free hps : List ℕ) (hp : ℕ) → get_elem? (free ++ (hp ∷ hps)) (length free) ≡ some hp
get_elem?-middle [] hps hp = refl
get_elem?-middle (_ ∷ free) hps hp = get_elem?-middle free hps hp

-- The loop passes over null hazard pointers, and takes the first that is in use.
reuse_dynamic-first :
    (m : Manager) (i : ℕ) (free hps : List ℕ) (hp r : ℕ)
    → AllNull m free
    → (m.hazards hp).protected ≢ 0
    → run (reuse_dynamic i (free ++ (hp ∷ hps)) r) m
      ≡ done (some (i + length free)) (set_protected hp r m)
unfolding reuse_dynamic run
reuse_dynamic-first m i [] hps hp r _ busy =
    let used : not ((m.hazards hp).protected == 0) ≡ true = ground arith in
    let same : i ≡ i + 0 = omega arith in
    rw (used, run) (ap (λ n. done (some n) (set_protected hp r m)) same)
reuse_dynamic-first m i (f ∷ free) hps hp r (z, null) busy =
    let passed : not ((m.hazards f).protected == 0) ≡ false = rw z in
    let count : i + 1 + length free ≡ i + suc (length free) = omega arith in
    rw (passed, run)
      (reuse_dynamic-first m (i + 1) free hps hp r null busy
        ∙ ap (λ n. done (some n) (set_protected hp r m)) count)

-- If a dynamic hazard pointer of the thread is in use, `protect_dynamic` takes the first such, however
-- many null ones are before it, and returns its index: the record that it protected, whose handle may
-- still be alive, loses this protection to `r`. No other hazard pointer changes.
pub protect_dynamic-steals :
    (rounds tid r hp : ℕ) (free hps : List ℕ) (m : Manager) (info : ThreadLocalInfo)
    → m.thread_info tid ≡ some info
    → drop info.starting_hazards_num info.local_hazards ≡ free ++ (hp ∷ hps)
    → AllNull m free
    → (m.hazards hp).protected ≢ 0
    → (m' : Manager) × (i : ℕ) × (run (protect_dynamic rounds tid r) m ≡ done i m')
      × (get_elem? info.local_hazards i ≡ some hp)
      × ((m'.hazards hp).protected ≡ r)
      × ((a : ℕ) → a ≢ hp → m'.hazards a ≡ m.hazards a)
unfolding protect_dynamic run
protect_dynamic-steals rounds tid r hp free hps m info known at null busy = (
  set_protected hp r m,
  info.starting_hazards_num + length free,
  get_mut_thread_info-run rounds tid m info _ known
      ∙ run-bind
          (reuse_dynamic info.starting_hazards_num
            (drop info.starting_hazards_num info.local_hazards) r)
          _ m
      ∙ rw (at, reuse_dynamic-first m info.starting_hazards_num free hps hp r null busy) refl,
  get_elem?-drop info.starting_hazards_num (length free) info.local_hazards
      ∙ ap (λ l. get_elem? l (length free)) at
      ∙ get_elem?-middle free hps hp,
  rw (==_refl hp),
  λ a other. let off : (hp == a) ≡ false = ground arith in rw off,
)
