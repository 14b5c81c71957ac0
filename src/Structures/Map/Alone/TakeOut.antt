-- ===== src/Structures/Map/Alone/TakeOut.antt =====
-- How a leaf is taken out of its slot, with no other thread at work.
use rustcurrent.Prelude.{
  ℕ, ◌+◌, ◌*◌, ◌%◌, ◌<◌, ◌≡◌, refl, ap, sym, ◌∙◌, Option, none, some, List, ◌==◌, if◌then◌else◌,
  Result, ok,
}
use mathlib.Core.Path.{subst}
use rustcurrent.Concurrent.{Prog, ◌>>=◌}
use rustcurrent.Concurrent.Returns.{Returns, Returns-bind}
use rustcurrent.Memory.Hazard.{Manager}
use rustcurrent.Memory.Hazard.Ready.{Ready}
use rustcurrent.Structures.Map.{Bucket, Table, set_slot, data_node, try_remove, removed}
use rustcurrent.Structures.Map.Remove.{replaced, take_out}
use rustcurrent.Structures.Map.Tree.{shifted, contents, IsTree}
use rustcurrent.Structures.Map.Tree.Walk.{Reached}
use rustcurrent.Structures.Map.Tree.Slots.{contents-leaf, contents-empty}
use rustcurrent.Structures.Map.Tree.Leaf.{take_leaf, take-IsTree, take-contents}
use rustcurrent.Structures.Map.Alone.{
  with_manager, Holds, slot_compare_exchange-Returns, retire-Returns,
}

module _ {V : Type 0} (rounds tid : ℕ) where
  -- The leaf is gone from its slot, and its value is handed over.
  abbrev pub TakenOut : Table V → (b i k : ℕ) → V → Option V → Table V → Type 0
  TakenOut t b i k v a s =
      (a ≡ some v)
      × (m : Manager) × Ready rounds tid m
      × (s ≡ with_manager m (take_leaf b i (4 * k) t))

  pub take_out-Returns :
      (t : Table V) (b i k : ℕ) (v : V) (h0 : ℕ) (m : Manager)
      → Ready rounds tid m
      → t.node (4 * k) ≡ some (data_node (some v) h0)
      → Returns
          (TakenOut t b i k v)
          (take_out rounds tid (4 * k))
          (set_slot b i 0 (with_manager m t))
  unfolding take_out
  take_out-Returns t b i k v h0 m ready nd =
      subst
        (λ n.
          Returns (TakenOut t b i k v) (replaced rounds tid (4 * k) n)
            (set_slot b i 0 (with_manager m t)))
        (sym nd)
        (retire-Returns (TakenOut t b i k v) rounds tid (4 * k) _
          (with_manager m (take_leaf b i (4 * k) t)) ready λ m' ready'. (refl, m', ready', refl))

module _ {V : Type 0} (rounds tid h : ℕ) (held : ℕ → Option V) (trail : ℕ → List ℕ)
    (place : ℕ → ℕ × ℕ) (t : Table V) (tree : IsTree trail place t)
    (agree : (h' : ℕ) → contents t h' ≡ held h') {n : ℕ} {b : Bucket} (way : Reached t h n b)
    (left : ℕ) (level : n + left ≡ 15) where
  abbrev index : ℕ
  index = shifted n h % b.len

  abbrev pub unchanged :
      (m : Manager) → Ready rounds tid m → Holds rounds tid held (with_manager m t)
  unchanged m ready = record {
    table = t;
    manager = m;
    ready = ready;
    form = (trail, place, tree);
    same = refl;
    agree = agree;
  }

  -- An empty slot, a leaf of another hash, and a leaf of the hash.
  pub held-empty : t.slot b.addr index ≡ 0 → held h ≡ none
  held-empty e = sym (agree h) ∙ contents-empty trail place t tree h way left level h refl e

  pub held-leaf :
      (k : ℕ) (v : V) (h0 : ℕ)
      → t.slot b.addr index ≡ 4 * k
      → 0 < k
      → t.node (4 * k) ≡ some (data_node (some v) h0)
      → held h ≡ (if h0 == h then some v else none)
  held-leaf k v h0 at pos nd =
      sym (agree h) ∙ contents-leaf trail place t tree h way left level h refl k at pos ∙ rw nd

  -- The table without the leaf.
  pub take-Holds :
      (k : ℕ) (v : V)
      → t.slot b.addr index ≡ 4 * k
      → 0 < k
      → t.node (4 * k) ≡ some (data_node (some v) h)
      → (m : Manager) → Ready rounds tid m
      → Holds rounds tid
          (λ h'. if h == h' then none else held h')
          (with_manager m (take_leaf b.addr index (4 * k) t))
  take-Holds k v at pos nd m ready = record {
    table = take_leaf b.addr index (4 * k) t;
    manager = m;
    ready = ready;
    form = (trail, place, take-IsTree trail place t tree h way left level k at pos);
    same = refl;
    agree = λ h'.
        take-contents trail place t tree h way left level k at pos v nd h'
        ∙ ap (λ o. if h == h' then none else o) (agree h');
  }

module _ {V : Type 0} (b : Bucket) (i k : ℕ) (s : Table V) (inside : i < b.len)
    (at : s.slot b.addr i ≡ 4 * k) where
  pub try_remove-Returns :
      {A : Type 0} (Post : A → Table V → Type 0) (g : Result (Unit {0}) ℕ → Prog (Table V) A)
      → Returns Post (g (ok tt)) (set_slot b.addr i 0 s)
      → Returns Post (try_remove b i (4 * k) >>= g) s
  unfolding try_remove
  try_remove-Returns Post g h =
      Returns-bind Gone Post (try_remove b i (4 * k)) g s
        (slot_compare_exchange-Returns Gone b i (4 * k) 0 removed s inside at (refl, refl))
        λ a s' (is_ok, state).
          subst (λ a. Returns Post (g a) s') (sym is_ok)
            (subst (λ s'. Returns Post (g (ok tt)) s') (sym state) h)
    where
      Gone : Result (Unit {0}) ℕ → Table V → Type 0
      Gone a s' = (a ≡ ok tt) × (s' ≡ set_slot b.addr i 0 s)
