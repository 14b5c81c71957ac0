-- ===== src/Structures/Map/Alone/InsertLoop.antt =====
-- The loop of `insert` on one level, with no other thread at work.
use rustcurrent.Prelude.{
  ℕ, suc, ◌+◌, ◌*◌, ◌%◌, ◌^◌, ◌<◌, ◌≤◌, ◌≡◌, refl, ap, sym, ◌∙◌, inl, inr, arith, Option, none,
  some, List, ◌∷◌, update, length, ◌==◌, ==_refl, ==_iff, if◌then◌else◌, Bool-cases, Result, ok,
  err,
}
use mathlib.Core.Path.{subst}
use rustcurrent.Concurrent.{Prog, ◌>>=◌}
use rustcurrent.Concurrent.Returns.{Returns, Returns-bind}
use rustcurrent.Memory.Hazard.{Manager}
use rustcurrent.Memory.Hazard.Ready.{Ready}
use rustcurrent.Structures.Tagged.{mark}
use rustcurrent.Structures.Map.{
  Bucket, Table, set_slot, data_node, array_node, try_insert, took_back, compare_and_mark, Flow,
  expand_map,
}
use rustcurrent.Structures.Map.Insert.{
  refresh, insert_empty, insert_full, insert_unmarked, insert_at_data, insert_loop, marked,
  inserted,
}
use rustcurrent.Structures.Map.Tree.{shifted, path, contents, SlotOk, empty, array, leaf, IsTree}
use rustcurrent.Structures.Map.Tree.Path.{array_tags, leaf_tags}
use rustcurrent.Structures.Map.Tree.Walk.{Reached, step, Reached-trail, index-lt}
use rustcurrent.Structures.Map.Tree.Slots.{contents-leaf, contents-empty, update_self}
use rustcurrent.Structures.Map.Tree.Leaf.{
  next_address, put_leaf, put-IsTree, put-contents, same_way, place',
}
use rustcurrent.Structures.Map.Tree.Expand.{
  expand_slot, expand-IsTree, expand-Reached, expand-contents, trail2, place2,
}
use rustcurrent.Structures.Map.Alone.{
  with_manager, Holds, Descended, AtFlow, get_ptr-Returns, slot_compare_exchange-Returns,
  with_data_node-Returns, get_bucket-Returns, protect-Returns,
}
use rustcurrent.Structures.Map.Alone.Expand.{Expanded, expand_map-Returns}

pub try_insert-Returns :
    {V A : Type 0} (Post : A → Table V → Type 0) (b : Bucket) (i hash : ℕ) (value : V)
    (g : Result (Unit {0}) V → Prog (Table V) A) (s : Table V)
    → i < b.len
    → s.slot b.addr i ≡ 0
    → Returns Post (g (ok tt)) (put_leaf b.addr i value hash s)
    → Returns Post (try_insert b i 0 hash value >>= g) s
unfolding try_insert
try_insert-Returns {V} Post b i hash value g s inside e h =
    Returns-bind Done Post (try_insert b i 0 hash value) g s
      (slot_compare_exchange-Returns Done b i 0 (next_address s) (took_back (next_address s) value)
        (record s {
          node = update s.node (next_address s) (some (data_node (some value) hash));
          last = s.last + 1;
        })
        inside e (refl, refl))
      λ a s' (is_ok, state).
        subst (λ a. Returns Post (g a) s') (sym is_ok)
          (subst (λ s'. Returns Post (g (ok tt)) s') (sym state) h)
  where
    Done : Result (Unit {0}) V → Table V → Type 0
    Done a s' = (a ≡ ok tt) × (s' ≡ put_leaf b.addr i value hash s)

module _ {V : Type 0} (tid h : ℕ) (value : V) (small : h < 2 ^ 64) (old : ℕ → Option V)
    (more : ℕ) where
  abbrev rounds : ℕ
  rounds = suc more

  abbrev pub Inserted : Result (Unit {0}) V → Table V → Type 0
  Inserted (ok _) s =
      (old h ≡ none) × Holds rounds tid (λ h'. if h == h' then some value else old h') s
  Inserted (err v) s = (v ≡ value) × (w : V) × (old h ≡ some w) × Holds rounds tid old s

  module _ (trail : ℕ → List ℕ) (place : ℕ → ℕ × ℕ) (t : Table V) (tree : IsTree trail place t)
      (agree : (h' : ℕ) → contents t h' ≡ old h') {n : ℕ} {b : Bucket} (way : Reached t h n b)
      (left : ℕ) (level : n + left ≡ 15) where
    abbrev index : ℕ
    index = shifted n h % b.len

    abbrev pub holds : (m : Manager) → Ready rounds tid m → Holds rounds tid old (with_manager m t)
    holds m ready = record {
      table = t;
      manager = m;
      ready = ready;
      form = (trail, place, tree);
      same = refl;
      agree = agree;
    }

    -- The slot was empty, and gets the new leaf.
    pub put_Inserted :
        (m : Manager)
        → Ready rounds tid m
        → t.slot b.addr index ≡ 0
        → Inserted (ok tt) (with_manager m (put_leaf b.addr index value h t))
    put_Inserted m ready e = (
      sym (agree h) ∙ contents-empty trail place t tree h way left level h refl e,
      record {
        table = put_leaf b.addr index value h t;
        manager = m;
        ready = ready;
        form = (
          trail,
          place' trail place t tree h way left level value small,
          put-IsTree trail place t tree h way left level value small,
        );
        same = refl;
        agree = λ h'.
            put-contents trail place t tree h way left level value small
              (λ h2 _ same. contents-empty trail place t tree h way left level h2 same e) h'
            ∙ ap (λ o. if h == h' then some value else o) (agree h');
      },
    )

    pub leaf_held :
        (k : ℕ) (v : V) (h0 : ℕ)
        → t.slot b.addr index ≡ 4 * k
        → 0 < k
        → t.node (4 * k) ≡ some (data_node (some v) h0)
        → h0 ≡ h
        → old h ≡ some v
    leaf_held k v h0 at pos nd same =
        sym (agree h)
        ∙ contents-leaf trail place t tree h way left level h refl k at pos
        ∙ rw (nd, same, ==_refl h)

    -- A leaf with another hash goes one level down, and the insertion follows it.
    marked-Returns :
        (m : Manager)
        → Ready rounds tid m
        → (r node fail_count : ℕ) → r ≡ 4 * n
        → (again : (node fail_count : ℕ) → Prog (Table V) (Flow (Result (Unit {0}) V)))
        → (below : ℕ) → left ≡ suc below
        → (k : ℕ) (v0 : V) (h0 : ℕ) → t.slot b.addr index ≡ 4 * k
        → (0 < k) × (k ≤ t.last)
        → t.node (4 * k) ≡ some (data_node (some v0) h0)
        → h0 < 2 ^ 64
        → path (suc (length (trail b.addr))) h0 ≡ index ∷ trail b.addr
        → Returns
            (AtFlow Inserted (Descended rounds tid old h n))
            (marked rounds tid h value b index r again node fail_count (ok (4 * k)))
            (set_slot b.addr index (4 * k + 1) (with_manager m t))
    marked-Returns m ready r node fail_count depth again below more_levels k v0 h0 at (pos, hi) nd
          small0 goes =
        subst
          (λ r.
            Returns (AtFlow Inserted (Descended rounds tid old h n))
              (marked rounds tid h value b index r again node fail_count (ok (4 * k)))
              (set_slot b.addr index (4 * k + 1) (with_manager m t)))
          (sym depth)
          (Returns-bind (Expanded rounds tid t b index n k v0 h0 inside near nd)
            (AtFlow Inserted (Descended rounds tid old h n)) (expand_map rounds tid b index (4 * n))
            _ (set_slot b.addr index (4 * k + 1) (with_manager m t))
            (expand_map-Returns rounds tid t b index n k v0 h0 inside near nd m ready)
            λ p s' (tagged, m', ready', state).
              rw (tagged, state, (array_tags (t.last + 1)).1)
                (get_bucket-Returns (AtFlow Inserted (Descended rounds tid old h n)) (t.last + 1) _
                  (with_manager m' t2) (update_self t.node (next_address t) (some (array_node 16)))
                  (
                    holds2 m' ready',
                    expand-Reached trail place t tree h way below deep k at pos hi v0 h0 nd small0
                        (same_way trail place t tree h way left level h0 goes) h refl,
                  )))
      where
        inside : index < b.len
        inside = index-lt trail place t tree h way

        near : b.addr ≤ 4 * t.last
        near = (Reached-trail trail place t tree h way).2

        deep : n + suc below ≡ 15
        deep = omega arith

        t2 : Table V
        t2 = expand_slot b.addr index (shifted (suc n) h0 % 16) (4 * k) t

        holds2 : (m : Manager) → Ready rounds tid m → Holds rounds tid old (with_manager m t2)
        holds2 m ready = record {
          table = t2;
          manager = m;
          ready = ready;
          form = (
            trail2 trail place t tree h way below deep k at pos hi v0 h0 nd small0
                (same_way trail place t tree h way left level h0 goes),
            place2 trail place t tree h way below deep k at pos hi v0 h0 nd small0
                (same_way trail place t tree h way left level h0 goes),
            expand-IsTree trail place t tree h way below deep k at pos hi v0 h0 nd small0
                (same_way trail place t tree h way left level h0 goes),
          );
          same = refl;
          agree = λ h'.
              expand-contents trail place t tree h way below deep k at pos hi v0 h0 nd small0
                (same_way trail place t tree h way left level h0 goes) h'
              ∙ agree h';
        }

    at_data-Returns :
        (m : Manager)
        → Ready rounds tid m
        → (r fail_count : ℕ) → r ≡ 4 * n
        → (again : (node fail_count : ℕ) → Prog (Table V) (Flow (Result (Unit {0}) V)))
        → (below : ℕ) → left ≡ suc below
        → (k : ℕ) (v : V) (h0 : ℕ) → t.slot b.addr index ≡ 4 * k
        → (0 < k) × (k ≤ t.last)
        → t.node (4 * k) ≡ some (data_node (some v) h0)
        → h0 < 2 ^ 64
        → path (suc (length (trail b.addr))) h0 ≡ index ∷ trail b.addr
        → Returns
            (AtFlow Inserted (Descended rounds tid old h n))
            (insert_at_data rounds tid h value b index r again (4 * k) (4 * k) fail_count)
            (with_manager m t)
    unfolding insert_at_data compare_and_mark
    at_data-Returns m ready r fail_count depth again below more_levels k v h0 e (pos, hi) nd small0
          goes =
        let (_, _, _, plain, tagged) = leaf_tags k pos in
        with_data_node-Returns (AtFlow Inserted (Descended rounds tid old h n)) (4 * k) (4 * k)
          (some v) h0 _ (with_manager m t) plain nd
          (elim (Bool-cases (h0 == h)) [
            | inl here ↦
                rw here (refl, v, leaf_held k v h0 e pos nd ((==_iff h0 h).0 here), holds m ready)
            | inr other ↦ rw other (
                slot_compare_exchange-Returns (AtFlow Inserted (Descended rounds tid old h n)) b
                  index (4 * k) (mark (4 * k))
                  (marked rounds tid h value b index r again (4 * k) fail_count) (with_manager m t)
                  (index-lt trail place t tree h way) e
                  (rw tagged (
                    marked-Returns m ready r (4 * k) fail_count depth again below more_levels k v h0
                      e (pos, hi) nd small0 goes)))
          ])

    pub insert_loop-Returns :
        (m : Manager)
        → Ready rounds tid m
        → (r : ℕ) → r ≡ 4 * n
        → (below : ℕ) → left ≡ suc below
        → SlotOk trail place t b.addr index (t.slot b.addr index)
        → Returns
            (AtFlow Inserted (Descended rounds tid old h n))
            (insert_loop rounds tid h value rounds b index r (t.slot b.addr index) 0)
            (with_manager m t)
    unfolding insert_loop refresh insert_empty insert_full insert_unmarked
    insert_loop-Returns m ready r depth below more_levels (empty e) = rw e (
        try_insert-Returns (AtFlow Inserted (Descended rounds tid old h n)) b index h value
          (inserted rounds tid h value b index r (insert_loop rounds tid h value more b index r) 0)
          (with_manager m t) (index-lt trail place t tree h way) e (put_Inserted m ready e))
    insert_loop-Returns m ready r depth below more_levels (array k e _ nd _ _ _) =
        let (nz, second, _, first, _) = array_tags k in
        rw (e, nz, first, second)
          (get_bucket-Returns (AtFlow Inserted (Descended rounds tid old h n)) k _
            (with_manager m t) nd (holds m ready, step k way e))
    insert_loop-Returns m ready r depth below more_levels
          (leaf k v h0 e (pos, hi) nd small0 goes _) =
        let (nz, second, first, plain, tagged) = leaf_tags k pos in
        rw (e, nz, first, second)
          (protect-Returns (AtFlow Inserted (Descended rounds tid old h n)) rounds tid (4 * k) _
            (with_manager m t) ready
            λ m' ready'.
              get_ptr-Returns (AtFlow Inserted (Descended rounds tid old h n)) b index _
                (with_manager m' t) (index-lt trail place t tree h way)
                (rw (e, ==_refl (4 * k))
                  (at_data-Returns m' ready' r 0 depth
                    (insert_loop rounds tid h value more b index r) below more_levels k v h0 e
                    (pos, hi) nd small0 goes)))
