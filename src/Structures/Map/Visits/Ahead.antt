-- ===== src/Structures/Map/Visits/Ahead.antt =====
-- The hashes that an iterator has ahead of it, and how its moves change them.
use rustcurrent.Prelude.{
  ℕ, ◌+◌, ◌%◌, ◌<◌, ◌≤◌, ◌≡◌, sym, ap, ◌∙◌, inl, inr, ◌⊎◌, arith, Option, none, some, List, [], ◌∷◌,
  length, ◌==◌, ==_iff, if◌then◌else◌, Bool-cases, Option-cases,
}
use mathlib.Core.Path.{subst}
use native.Mathlib.Nat.{mod-lt}
use rustcurrent.Structures.Map.{Bucket}
use rustcurrent.Structures.Map.Iter.{Iter, push_bucket}
use rustcurrent.Structures.Map.Tree.{shifted, size, path}
use rustcurrent.Structures.Map.Tree.Path.{cons-eq}

abbrev pub advanced : Iter → Iter
advanced it = record it { index = it.index + 1 }

-- All but this hash.
abbrev pub without : {V : Type 0} → ℕ → (ℕ → Option V) → ℕ → Option V
without h0 todo h = if h0 == h then none else todo h

module _ (trail : ℕ → List ℕ) where
  -- The hashes whose indices lead to a bucket, and their index there.
  abbrev pub Below : Bucket → ℕ → Type 0
  Below b h = path (length (trail b.addr)) h ≡ trail b.addr

  abbrev pub index_in : Bucket → ℕ → ℕ
  index_in b h = shifted (length (trail b.addr)) h % b.len

  abbrev pub InStack : List Bucket → ℕ → Type 0
  InStack [] h = ⊥
  InStack (b ∷ bs) h = Below b h ⊎ InStack bs h

  abbrev pub Ahead : Iter → ℕ → Type 0
  Ahead it h =
      (Below it.current_array h × (it.index ≤ index_in it.current_array h))
      ⊎ InStack it.node_stack h

  -- No hash comes twice.
  abbrev pub Apart : List Bucket → Type 0
  Apart [] = Unit
  Apart (b ∷ bs) = ((h : ℕ) → Below b h → ¬ (InStack bs h)) × Apart bs

  abbrev pub Disjoint : Iter → Type 0
  Disjoint it =
      ((h : ℕ)
        → Below it.current_array h
        → it.index ≤ index_in it.current_array h
        → ¬ (InStack it.node_stack h))
      × Apart it.node_stack

  -- `todo` is the part of `held` that the iterator has ahead of it.
  pub record Pending {V : Type 0} (held todo : ℕ → Option V) (it : Iter) : Type 0 where
    pub sound : (h : ℕ) (v : V) → todo h ≡ some v → (held h ≡ some v) × Ahead it h
    pub complete : (h : ℕ) (v : V) → held h ≡ some v → Ahead it h → todo h ≡ some v
    pub apart : Disjoint it

  module _ {V : Type 0} {held todo : ℕ → Option V} {it : Iter} (p : Pending held todo it) where
    moved :
        {it' : Iter}
        → Disjoint it'
        → ((h : ℕ) (v : V) → held h ≡ some v → Ahead it h → Ahead it' h)
        → ((h : ℕ) → Ahead it' h → Ahead it h)
        → Pending held todo it'
    moved apart on back = record {
      sound = λ h v e. ((p.sound h v e).0, on h v (p.sound h v e).0 (p.sound h v e).1);
      complete = λ h v e a. p.complete h v e (back h a);
      apart = apart;
    }

    advanced-back : (h : ℕ) → Ahead (advanced it) h → Ahead it h
    advanced-back h (inl (b, le)) = inl (b, omega arith)
    advanced-back h (inr s) = inr s

    advanced-Disjoint : Disjoint (advanced it)
    advanced-Disjoint = (λ h b le. p.apart.0 h b (omega arith), p.apart.1)

    -- A slot with nothing in it.
    pub skip-Pending :
        ((h : ℕ) (v : V)
          → held h ≡ some v
          → Below it.current_array h
          → index_in it.current_array h ≡ it.index
          → ⊥)
        → Pending held todo (advanced it)
    skip-Pending nothing = moved advanced-Disjoint on advanced-back
      where
        on : (h : ℕ) (v : V) → held h ≡ some v → Ahead it h → Ahead (advanced it) h
        on h v e (inr s) = inr s
        on h v e (inl (b, le)) = elim (Bool-cases (index_in it.current_array h == it.index)) [
          | inl here ↦ absurd (nothing h v e b ((==_iff _ it.index).0 here))
          | inr later ↦ inl (b, ground arith)
        ]

    -- A slot with a leaf.
    pub take-Pending :
        (h0 : ℕ) (v : V)
        → held h0 ≡ some v
        → Below it.current_array h0
        → index_in it.current_array h0 ≡ it.index
        → ((h : ℕ) (w : V)
            → held h ≡ some w
            → Below it.current_array h
            → index_in it.current_array h ≡ it.index
            → h ≡ h0)
        → (todo h0 ≡ some v) × Pending held (without h0 todo) (advanced it)
    take-Pending h0 v e b at only = (
      p.complete h0 v e (inl (b, omega (arith, at))),
      record { sound = sound; complete = complete; apart = advanced-Disjoint },
    )
      where
        sound :
            (h : ℕ) (w : V) → without h0 todo h ≡ some w → (held h ≡ some w) × Ahead (advanced it) h
        sound h w f = elim (Bool-cases (h0 == h)) [
          | inl same ↦ absurd (let g = rw (same, without) at f in cc)
          | inr other ↦
              let (holds_it, a) = p.sound h w (rw (other, without) at f) in
              (
                holds_it,
                elim a [
                  | inr s ↦ inr s
                  | inl (b', le) ↦ elim (Bool-cases (index_in it.current_array h == it.index)) [
                    | inl here ↦
                        let same : h ≡ h0 = only h w holds_it b' ((==_iff _ it.index).0 here) in
                        absurd (ground (arith, same))
                    | inr later ↦ inl (b', ground arith)
                  ]
                ],
              )
        ]

        complete :
            (h : ℕ) (w : V) → held h ≡ some w → Ahead (advanced it) h → without h0 todo h ≡ some w
        complete h w f a = elim (Bool-cases (h0 == h)) [
          | inr other ↦ rw other (p.complete h w f (advanced-back h a))
          | inl same ↦
              let is_h0 : h0 ≡ h = (==_iff h0 h).0 same in
              absurd (gone (subst (Ahead (advanced it)) (sym is_h0) a))
        ]
          where
            gone : ¬ (Ahead (advanced it) h0)
            gone (inl (_, le)) = omega (arith, at)
            gone (inr s) = p.apart.0 h0 b (omega (arith, at)) s

    -- A slot with an array node, which goes onto the stack.
    pub push-Pending :
        (c : Bucket)
        → it.current_array.len ≡ size (length (trail it.current_array.addr))
        → trail c.addr ≡ it.index ∷ trail it.current_array.addr
        → Pending held todo (push_bucket c (advanced it))
    push-Pending c len tr =
        moved
          (
            (λ h b le s. elim s [
              | inl under ↦ let (_, i) = up h under in omega (arith, i)
              | inr s' ↦ p.apart.0 h b (omega arith) s'
            ]),
            (
              (λ h under s. let (b, i) = up h under in p.apart.0 h b (omega (arith, i)) s),
              p.apart.1,
            ),
          )
          on back
      where
        up :
            (h : ℕ)
            → Below c h
            → Below it.current_array h × (index_in it.current_array h ≡ it.index)
        up h under =
            let goes = subst (λ l. path (length l) h ≡ l) tr under in
            let (i, rest) = cons-eq goes in
            (rest, ap (λ x. shifted (length (trail it.current_array.addr)) h % x) len ∙ i)

        down :
            (h : ℕ) → Below it.current_array h → index_in it.current_array h ≡ it.index → Below c h
        down h b i =
            let j = sym (ap (λ x. shifted (length (trail it.current_array.addr)) h % x) len) ∙ i in
            subst (λ l. path (length l) h ≡ l) (sym tr) (cc)

        on : (h : ℕ) (v : V) → held h ≡ some v → Ahead it h → Ahead (push_bucket c (advanced it)) h
        on h v e (inr s) = inr (inr s)
        on h v e (inl (b, le)) = elim (Bool-cases (index_in it.current_array h == it.index)) [
          | inl here ↦ inr (inl (down h b ((==_iff _ it.index).0 here)))
          | inr later ↦ inl (b, ground arith)
        ]

        back : (h : ℕ) → Ahead (push_bucket c (advanced it)) h → Ahead it h
        back h (inl (b, le)) = inl (b, omega arith)
        back h (inr (inr s)) = inr s
        back h (inr (inl under)) = let (b, i) = up h under in inl (b, omega (arith, i))

    module _ (over : it.current_array.len ≤ it.index) (some_slots : 0 < it.current_array.len) where
      in_stack : (h : ℕ) → Ahead it h → InStack it.node_stack h
      in_stack h (inr s) = s
      in_stack h (inl (b, le)) =
          let small : index_in it.current_array h < it.current_array.len = mod-lt _ some_slots in
          absurd (omega arith)

      -- The next bucket of the stack.
      pub pop-Pending :
          (b : Bucket) (bs : List Bucket)
          → it.node_stack ≡ b ∷ bs
          → Pending held todo (record { current_array = b; index = 0; node_stack = bs })
      pop-Pending b bs e =
          moved
            ((λ h under _ s. (subst Apart e p.apart.1).0 h under s), (subst Apart e p.apart.1).1)
            (λ h v _ a. elim (subst (λ l. InStack l h) e (in_stack h a)) [
              | inl under ↦ inl (under, omega arith)
              | inr s ↦ inr s
            ])
            (λ h a. inr (
              subst (λ l. InStack l h) (sym e)
                (elim a [ inl (under, _) ↦ inl under | inr s ↦ inr s ])))

      -- Nothing is left at the end.
      pub end-Pending : it.node_stack ≡ [] → (h : ℕ) → todo h ≡ none
      end-Pending e h = elim (Option-cases (todo h)) [
        | inl gone ↦ gone
        | inr (v, f) ↦ absurd (subst (λ l. InStack l h) e (in_stack h (p.sound h v f).1))
      ]
