-- ===== src/Memory/Hazard/Scan.antt =====
-- `scan` and `retire` with no other thread at work: what is freed, what is kept, and the counts.
use rustcurrent.Prelude.{
  ℕ, zero, suc, ◌+◌, ◌<◌, ◌≡◌, ◌≢◌, refl, ap, ◌∙◌, inl, inr, arith, Bool, true, false, not, ◌&&◌,
  ◌||◌, none, some, List, [], ◌∷◌, ◌++◌, get_elem?, length, has, ltb, ◌==◌, if◌then◌else◌,
  Bool-cases, Option-cases, ◌⊎◌,
}
use mathlib.Core.Path.{fun_ext}
use rustcurrent.Concurrent.{Prog, ◌>>=◌, done, crashed, run, run-bind, run-if}
use rustcurrent.Memory.Hazard.{
  Manager, ThreadLocalInfo, set_info, set_protected, collect, sweep, get_mut_thread_info,
  info_or_new, scan, retire,
}

-- From `q` the links lead through the hazard pointers `hs` to null.
pub data Chain (m : Manager) : ℕ → List ℕ → Type 0 where
  nil : {q : ℕ} → q ≡ 0 → Chain m q []
  cons : {q : ℕ} {hs : List ℕ} → q ≢ 0 → Chain m ((m.hazards q).next) hs → Chain m q (q ∷ hs)

-- One of the hazard pointers `hs` protects the record `r`.
abbrev pub is_protected : Manager → List ℕ → ℕ → Bool
is_protected m [] r = false
is_protected m (q ∷ hs) r =
    (not ((m.hazards q).protected == 0) && (r == (m.hazards q).protected)) || is_protected m hs r

abbrev noted : Manager → List ℕ → List ℕ → List ℕ
noted m [] set = set
noted m (q ∷ hs) set =
    noted m hs (if (m.hazards q).protected == 0 then set else (m.hazards q).protected ∷ set)

collect-run :
    (rounds : ℕ) {q : ℕ} {hs : List ℕ} (m : Manager) (set : List ℕ)
    → Chain m q hs
    → length hs < rounds
    → run (collect rounds q set) m ≡ done (noted m hs set) m
unfolding collect run
collect-run zero m set c h = absurd (omega arith)
collect-run (suc rounds) {q} m set (nil e) h = let z : (q == 0) ≡ true = ground arith in rw (z, run)
collect-run (suc rounds) {q} m set (cons n c) h =
    let nz : (q == 0) ≡ false = ground arith in
    rw (nz, run) (collect-run rounds m _ c (omega arith))

has-noted :
    (m : Manager) (hs set : List ℕ) (r : ℕ)
    → has r (noted m hs set) ≡ (is_protected m hs r || has r set)
has-noted m [] set r = refl
has-noted m (q ∷ hs) set r =
    let p = (m.hazards q).protected in
    has-noted m hs (if p == 0 then set else p ∷ set) r ∙ ground arith

-- The retired records that a test keeps, in order.
abbrev pub keep : (ℕ → Bool) → List ℕ → List ℕ
keep test [] = []
keep test (r ∷ rs) = if test r then r ∷ keep test rs else keep test rs

-- The list of freed records after those have gone that the test does not keep.
abbrev pub discard : (ℕ → Bool) → List ℕ → List ℕ → List ℕ
discard test [] freed = freed
discard test (r ∷ rs) freed = discard test rs (if test r then freed else r ∷ freed)

sweep-run :
    (set rs : List ℕ) (m : Manager)
    → run (sweep set rs) m
      ≡ done (keep (λ r. has r set) rs) (record m { freed = discard (λ r. has r set) rs m.freed })
unfolding sweep run
sweep-run set [] m = refl
sweep-run set (r ∷ rs) m = elim (Bool-cases (has r set)) [
  | inl stays ↦ rw (stays, run) (run-bind (sweep set rs) _ m ∙ rw (sweep-run set rs m))
  | inr goes ↦ rw (goes, run) (sweep-run set rs (record m { freed = r ∷ m.freed }))
]

-- The information of a thread after its `scan`.
abbrev pub scanned : Manager → List ℕ → ThreadLocalInfo → ThreadLocalInfo
scanned m hs info = record info {
  retired_list = keep (is_protected m hs) info.retired_list;
  retired_number = length (keep (is_protected m hs) info.retired_list);
}

pub get_mut_thread_info-run :
    {B : Type 0} (rounds tid : ℕ) (m : Manager) (info : ThreadLocalInfo)
    (g : ThreadLocalInfo → Prog Manager B)
    → m.thread_info tid ≡ some info
    → run (get_mut_thread_info rounds tid >>= g) m ≡ run (g info) m
unfolding get_mut_thread_info run
get_mut_thread_info-run rounds tid m info g known =
    ap (λ o. run (info_or_new rounds tid o >>= g) m) known

-- With no other thread at work, `scan` returns when the rounds exceed the hazard pointers `hs` on
-- the global list. It frees exactly the retired records of the thread that none of `hs` protects,
-- keeps the others in their order, and counts them.
pub scan-run :
    (rounds tid : ℕ) (m : Manager) (hs : List ℕ) (info : ThreadLocalInfo)
    → Chain m m.head hs
    → length hs < rounds
    → m.thread_info tid ≡ some info
    → run (scan rounds tid) m
      ≡ done tt (
          set_info tid
            (scanned m hs info)
            (record m { freed = discard (is_protected m hs) info.retired_list m.freed }))
unfolding scan run
scan-run rounds tid m hs info c enough known =
    let test : (λ r. has r (noted m hs [])) ≡ is_protected m hs =
      fun_ext λ r. has-noted m hs [] r ∙ ground arith in
    run-bind (collect rounds m.head []) _ m
    ∙ rw (collect-run rounds m [] c enough) (
        get_mut_thread_info-run rounds tid m info _ known
        ∙ run-bind (sweep (noted m hs []) info.retired_list) _ m
        ∙ rw (sweep-run (noted m hs []) info.retired_list m, test))

-- The hazard pointer that `retire` clears, and the record that it adds to the list.
abbrev pub retired : ℕ → ℕ → ThreadLocalInfo → ℕ → Manager → Manager
retired tid hp info r m =
    set_info tid
      (record info {
        retired_list = info.retired_list ++ (r ∷ []);
        retired_number = info.retired_number + 1;
      })
      (set_protected hp 0 m)

-- With no other thread at work, `retire` clears the hazard pointer that it is given, adds the record
-- to the list of the thread, and counts it; it runs `scan` exactly when the count exceeds the
-- maximum. A hazard pointer that the thread does not have is a crash.
pub retire-run :
    (rounds tid r n : ℕ) (m : Manager) (info : ThreadLocalInfo)
    → m.thread_info tid ≡ some info
    → ((get_elem? info.local_hazards n ≡ none) × (run (retire rounds tid r n) m ≡ crashed))
      ⊎ ((hp : ℕ) × (get_elem? info.local_hazards n ≡ some hp)
          × (run (retire rounds tid r n) m ≡ (
              if ltb m.max_retired (info.retired_number + 1)
              then run (scan rounds tid) (retired tid hp info r m)
              else done tt (retired tid hp info r m))))
unfolding retire run
retire-run rounds tid r n m info known =
    elim (Option-cases {A = ℕ} (get_elem? info.local_hazards n)) [
      | inl gone ↦ inl (gone, get_mut_thread_info-run rounds tid m info _ known ∙ rw gone)
      | inr (hp, at) ↦ inr (
        hp,
        at,
        get_mut_thread_info-run rounds tid m info _ known
            ∙ rw at (run-if (ltb m.max_retired (info.retired_number + 1)) _ _ _),
      )
    ]
