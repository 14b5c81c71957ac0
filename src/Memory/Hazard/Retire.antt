-- ===== src/Memory/Hazard/Retire.antt =====
-- What becomes of retired records, with no other thread at work.
use rustcurrent.Prelude.{
  ℕ, ◌+◌, ◌<◌, ◌≤◌, ◌≡◌, refl, sym, ap, ◌∙◌, ◌⊎◌, inl, inr, arith, Bool, true, false, some, List,
  [], ◌∷◌, ◌++◌, get_elem?, length, has, ltb, ◌==◌, ==_refl, ==_iff, Bool-cases,
}
use mathlib.Core.Path.{subst}
use rustcurrent.Concurrent.{done, run}
use rustcurrent.Memory.Hazard.{Manager, ThreadLocalInfo, set_info, retire}
use rustcurrent.Memory.Hazard.Scan.{
  Chain, is_protected, keep, discard, scanned, retired, scan-run, retire-run,
}
use rustcurrent.Memory.Hazard.Ready.{Chain-keeps, set_protected-next}

-- A record that is not kept is freed.
keep-or-discard :
    (test : ℕ → Bool) (rs freed : List ℕ) (x : ℕ)
    → (has x rs ≡ true) ⊎ (has x freed ≡ true)
    → (has x (keep test rs) ≡ true) ⊎ (has x (discard test rs freed) ≡ true)
keep-or-discard test [] freed x (inr h) = inr h
keep-or-discard test [] freed x (inl h) = absurd (cc)
keep-or-discard test (r ∷ rs) freed x h = elim (Bool-cases (test r)) [
  | inl kept ↦ elim (Bool-cases (x == r)) [
    | inl here ↦ inl (rw (kept, here) refl)
    | inr other ↦
        let rest : (has x rs ≡ true) ⊎ (has x freed ≡ true) = elim h [
          | inl a ↦ inl (sym (rw other refl) ∙ a)
          | inr b ↦ inr b
        ] in
        elim (keep-or-discard test rs freed x rest) [
          | inl a ↦ inl (rw (kept, other) a)
          | inr b ↦ inr (rw kept b)
        ]
  ]
  | inr gone ↦
      let rest : (has x rs ≡ true) ⊎ (has x (r ∷ freed) ≡ true) = elim (Bool-cases (x == r)) [
        | inl here ↦ inr (rw here refl)
        | inr other ↦ elim h [ inl a ↦ inl (sym (rw other refl) ∙ a) | inr b ↦ inr (rw other b) ]
      ] in
      elim (keep-or-discard test rs (r ∷ freed) x rest) [
        | inl a ↦ inl (rw gone a)
        | inr b ↦ inr (rw gone b)
      ]
]

has-keep : (test : ℕ → Bool) (rs : List ℕ) (x : ℕ) → has x (keep test rs) ≡ true → test x ≡ true
has-keep test [] x h = absurd (cc)
has-keep test (r ∷ rs) x h = elim (Bool-cases (test r)) [
  | inr gone ↦ has-keep test rs x (rw (gone, keep) at h)
  | inl kept ↦ elim (Bool-cases (x == r)) [
    | inl here ↦ ap test ((==_iff x r).0 here) ∙ kept
    | inr other ↦ has-keep test rs x (rw (kept, keep, has, other) at h)
  ]
]

has-discard :
    (test : ℕ → Bool) (rs freed : List ℕ) (x : ℕ)
    → has x (discard test rs freed) ≡ true
    → (has x freed ≡ true) ⊎ (test x ≡ false)
has-discard test [] freed x h = inl h
has-discard test (r ∷ rs) freed x h = elim (Bool-cases (test r)) [
  | inl kept ↦ has-discard test rs freed x (rw (kept, discard) at h)
  | inr gone ↦ elim (has-discard test rs (r ∷ freed) x (rw (gone, discard) at h)) [
    | inr unprotected ↦ inr unprotected
    | inl among ↦ elim (Bool-cases (x == r)) [
      | inl here ↦ inr (ap test ((==_iff x r).0 here) ∙ gone)
      | inr other ↦ inl (rw (other, has) at among)
    ]
  ]
]

is_protected-same :
    (m m' : Manager) (hs : List ℕ) (x : ℕ)
    → ((q : ℕ) → (m'.hazards q).protected ≡ (m.hazards q).protected)
    → is_protected m' hs x ≡ is_protected m hs x
is_protected-same m m' [] x same = refl
is_protected-same m m' (q ∷ hs) x same = rw (same q, is_protected-same m m' hs x same) refl

-- Where the records `rs` are that the thread had retired in `m`, when it is done in `m'`: none is
-- lost, none is freed that a hazard pointer of `hs` protects, and they are counted. More than the
-- maximum are kept only when each of them is protected.
pub record Accounted (tid : ℕ) (hs rs : List ℕ) (m m' : Manager) : Type 0 where
  pub info : ThreadLocalInfo
  pub known : m'.thread_info tid ≡ some info
  pub counted : info.retired_number ≡ length info.retired_list
  pub kept :
      (x : ℕ)
      → (has x rs ≡ true) ⊎ (has x m.freed ≡ true)
      → (has x info.retired_list ≡ true) ⊎ (has x m'.freed ≡ true)
  pub unprotected :
      (x : ℕ) → has x m'.freed ≡ true → (has x m.freed ≡ true) ⊎ (is_protected m' hs x ≡ false)
  pub bounded :
      (info.retired_number ≤ m.max_retired)
      ⊎ ((x : ℕ) → has x info.retired_list ≡ true → is_protected m' hs x ≡ true)

length-snoc : (l : List ℕ) (a : ℕ) → length (l ++ (a ∷ [])) ≡ length l + 1
length-snoc [] a = refl
length-snoc (_ ∷ l) a = omega (arith, length-snoc l a)

module _ (rounds tid r hp : ℕ) (hs : List ℕ) (m : Manager) (info : ThreadLocalInfo)
    (counted : info.retired_number ≡ length info.retired_list) where
  abbrev added : ThreadLocalInfo
  added = record info {
    retired_list = info.retired_list ++ (r ∷ []);
    retired_number = info.retired_number + 1;
  }

  abbrev listed : Manager
  listed = retired tid hp info r m

  abbrev swept : Manager
  swept =
      set_info tid (scanned listed hs added)
        (record listed { freed = discard (is_protected listed hs) added.retired_list listed.freed })

  listed-Accounted :
      ltb m.max_retired (info.retired_number + 1) ≡ false
      → Accounted tid hs added.retired_list m listed
  listed-Accounted few = record {
    info = added;
    known = rw (==_refl tid);
    counted = omega (arith, counted, length-snoc info.retired_list r);
    kept = λ x h. h;
    unprotected = λ x h. inl h;
    bounded = inl (ground arith);
  }

  swept-Accounted : Accounted tid hs added.retired_list m swept
  swept-Accounted = record {
    info = scanned listed hs added;
    known = rw (==_refl tid);
    counted = refl;
    kept = keep-or-discard (is_protected listed hs) added.retired_list m.freed;
    unprotected = λ x h.
        elim (has-discard (is_protected listed hs) added.retired_list m.freed x h) [
          | inl before ↦ inl before
          | inr free ↦ inr (is_protected-same listed swept hs x (λ q. refl) ∙ free)
        ];
    bounded = inr λ x h.
        is_protected-same listed swept hs x (λ q. refl)
        ∙ has-keep (is_protected listed hs) added.retired_list x h;
  }

-- With no other thread at work, for a thread that the manager knows, whose count is that of its list,
-- and with rounds for more than the hazard pointers `hs` of the global list, `retire` with a hazard
-- pointer of the thread returns and has cleared it. The
-- record and those retired before are kept or freed, none of them is lost, and none is freed that a
-- hazard pointer then protects. The thread keeps no more than the maximum, unless each that it keeps
-- is protected, and its count is that of its list.
pub retire-Accounted :
    (rounds tid r n hp : ℕ) (hs : List ℕ) (m : Manager) (info : ThreadLocalInfo)
    → m.thread_info tid ≡ some info
    → get_elem? info.local_hazards n ≡ some hp
    → info.retired_number ≡ length info.retired_list
    → Chain m m.head hs
    → length hs < rounds
    → (m' : Manager) × (run (retire rounds tid r n) m ≡ done tt m')
      × ((m'.hazards hp).protected ≡ 0)
      × Accounted tid hs (info.retired_list ++ (r ∷ [])) m m'
retire-Accounted rounds tid r n hp hs m info known at counted chain enough =
    elim (retire-run rounds tid r n m info known) [
      | inl (gone, _) ↦ let clash = sym at ∙ gone in absurd (cc)
      | inr (hp', at', runs) ↦
          let same : hp' ≡ hp = let e = sym at' ∙ at in cc in
          let m1 = retired tid hp' info r m in
          let cleared : (m1.hazards hp).protected ≡ 0 =
            subst (λ q. (m1.hazards q).protected ≡ 0) same (rw (==_refl hp')) in
          elim (Bool-cases (ltb m.max_retired (info.retired_number + 1))) [
            | inr few ↦ (
              m1,
              runs ∙ rw few refl,
              cleared,
              listed-Accounted rounds tid r hp' hs m info counted few,
            )
            | inl many ↦ (
              swept rounds tid r hp' hs m info counted,
              runs
                  ∙ rw many (
                      scan-run rounds tid m1 hs (added rounds tid r hp' hs m info counted)
                        (Chain-keeps m m1 (set_protected-next hp' 0 m) chain) enough
                        (rw (==_refl tid))),
              cleared,
              swept-Accounted rounds tid r hp' hs m info counted,
            )
          ]
    ]
