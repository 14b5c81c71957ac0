-- ===== src/Structures/Map/Alone/Insert.antt =====
-- `insert` of the hash map and the hash set with no other thread at work.
use rustcurrent.Prelude.{
  ℕ, zero, suc, ◌+◌, ◌*◌, ◌%◌, ◌^◌, ◌<◌, ◌≡◌, refl, ap, sym, ◌∙◌, arith, Option, none, some, List,
  length, ◌==◌, if◌then◌else◌, Result, ok, err,
}
use mathlib.Core.Path.{subst}
use rustcurrent.Concurrent.{ret}
use rustcurrent.Concurrent.Returns.{Returns, Returns-bind}
use rustcurrent.Memory.Hazard.{Manager}
use rustcurrent.Memory.Hazard.Ready.{Ready}
use rustcurrent.Structures.Map.{Bucket, head, Table}
use rustcurrent.Structures.Map.Insert.{insert_loop, insert_bottom, insert_levels, insert}
use rustcurrent.Structures.Map.Tree.{shifted, child, contents, SlotOk, empty, array, leaf, IsTree}
use rustcurrent.Structures.Map.Tree.Path.{leaf_tags, length-path}
use rustcurrent.Structures.Map.Tree.Walk.{Reached, start, step, Reached-trail, index-lt}
use rustcurrent.Structures.Map.Tree.Leaf.{only_hash}
use rustcurrent.Structures.Map.Alone.{
  with_manager, Holds, Descended, and_descend-Returns, get_ptr-Returns,
}
use rustcurrent.Structures.Map.Alone.InsertLoop.{
  try_insert-Returns, Inserted, put_Inserted, leaf_held, holds, insert_loop-Returns,
}

module _ {V : Type 0} (tid h : ℕ) (value : V) (small : h < 2 ^ 64) (old : ℕ → Option V)
    (more : ℕ) where
  abbrev rounds : ℕ
  rounds = suc more

  insert_bottom-Returns :
      (trail : ℕ → List ℕ) (place : ℕ → ℕ × ℕ) (t : Table V) (tree : IsTree trail place t)
      (agree : (h' : ℕ) → contents t h' ≡ old h') {n a : ℕ} (way : Reached t h n (child a))
      (level : n + 0 ≡ 15) (m : Manager)
      → Ready rounds tid m
      → SlotOk trail place t a (shifted n h % 16) (t.slot a (shifted n h % 16))
      → Returns
          (Inserted tid h value small old more)
          (insert_bottom rounds tid h value (child a) (shifted n h))
          (with_manager m t)
  unfolding insert_bottom
  insert_bottom-Returns trail place t tree agree {n} {a} way level m ready (empty e) =
      get_ptr-Returns (Inserted tid h value small old more) (child a) (shifted n h % 16) _
        (with_manager m t) (omega arith)
        (rw e (
          try_insert-Returns (Inserted tid h value small old more) (child a) (shifted n h % 16) h
            value _ (with_manager m t) (omega arith) e
            (put_Inserted tid h value small old more trail place t tree agree way 0 level m ready
              e)))
  insert_bottom-Returns trail place t tree agree {n} way level m ready (array k e _ _ _ short _) =
      let (tr, _, _) = Reached-trail trail place t tree h way in
      let deep = ap length tr ∙ length-path n h in absurd (omega arith)
  insert_bottom-Returns trail place t tree agree {n} {a} way level m ready
        (leaf k v h0 e (pos, _) nd small0 goes _) =
      let (nz, _, _, _, _) = leaf_tags k pos in
      get_ptr-Returns (Inserted tid h value small old more) (child a) (shifted n h % 16) _
        (with_manager m t) (omega arith)
        (rw (e, nz)
          (
            refl,
            v,
            leaf_held tid h value small old more trail place t tree agree way 0 level k v h0 e pos
                nd (only_hash trail place t tree h way 0 level h0 small small0 refl goes),
            holds tid h value small old more trail place t tree agree way 0 level m ready,
          ))

  pub insert_levels-Returns :
      (left : ℕ) {n : ℕ} {b : Bucket} (r : ℕ) (s : Table V)
      → (down : Holds rounds tid old s) → Reached down.table h n b
      → n + left ≡ 15
      → r ≡ 4 * n
      → Returns
          (Inserted tid h value small old more)
          (insert_levels rounds tid h value left b r (shifted n h))
          s
  unfolding insert_levels
  insert_levels-Returns zero r s down start level depth = absurd (omega arith)
  insert_levels-Returns zero r s down (step {n = n} k way e) level depth =
      let (trail, place, tree) = down.form in
      subst
        (λ s.
          Returns (Inserted tid h value small old more)
            (insert_bottom rounds tid h value (child (4 * k)) (shifted (suc n) h)) s)
        (sym down.same)
        (insert_bottom-Returns trail place down.table tree down.agree (step k way e) level
          down.manager down.ready (tree.slots (4 * k) (shifted (suc n) h % 16)))
  insert_levels-Returns (suc left) {n} {b} r s down way level depth =
      let (trail, place, tree) = down.form in
      let t = down.table in
      let index : ℕ = shifted n h % b.len in
      let at_start : Returns (Inserted tid h value small old more)
          (insert_levels rounds tid h value (suc left) b r (shifted n h))
          (with_manager down.manager t) =
        get_ptr-Returns (Inserted tid h value small old more) b index _
          (with_manager down.manager t) (index-lt trail place t tree h way)
          (and_descend-Returns (Inserted tid h value small old more) (Descended rounds tid old h n)
            (insert_loop rounds tid h value rounds b index r (t.slot b.addr index) 0) _
            (with_manager down.manager t)
            (insert_loop-Returns tid h value small old more trail place t tree down.agree way
              (suc left) level down.manager down.ready r depth left refl (tree.slots b.addr index))
            λ b' s' (down', way').
              insert_levels-Returns left (r + 4) s' down' way' (omega arith) (omega arith)) in
      subst
        (λ s.
          Returns (Inserted tid h value small old more)
            (insert_levels rounds tid h value (suc left) b r (shifted n h)) s)
        (sym down.same) at_start

-- What an insertion leaves, of a table that holds `held`.
module _ {K V : Type 0} (rounds tid h : ℕ) (key : K) (value : V) (held : ℕ → Option V) where
  abbrev pub KeyInserted : Result (Unit {0}) (K × V) → Table V → Type 0
  KeyInserted (ok _) s =
      (held h ≡ none) × Holds rounds tid (λ h'. if h == h' then some value else held h') s
  KeyInserted (err (k, v)) s =
      (k ≡ key) × (v ≡ value) × (w : V) × (held h ≡ some w) × Holds rounds tid held s

-- With no other thread at work, `insert` of the hash map returns. When the table holds nothing for
-- the hash of the key, the result is `Ok`, and the table then holds the value for that hash and
-- what it held for all others. Otherwise the result is `Err` with the key and the value, and the
-- table holds what it held before.
pub insert-KeyInserted :
    {K V : Type 0} (hash_of : K → ℕ) (rounds tid : ℕ) (key : K) (value : V) (held : ℕ → Option V)
    (t : Table V)
    → Holds rounds tid held t
    → hash_of key < 2 ^ 64
    → Returns
        (KeyInserted rounds tid (hash_of key) key value held)
        (insert hash_of rounds tid key value)
        t
unfolding insert
insert-KeyInserted hash_of zero tid key value held t before small =
    let e = before.ready.enough in absurd (omega arith)
insert-KeyInserted {V = V} hash_of (suc more) tid key value held t before small =
    Returns-bind (Inserted tid (hash_of key) value small held more)
      (KeyInserted (suc more) tid (hash_of key) key value held)
      (insert_levels (suc more) tid (hash_of key) value 15 head 0 (hash_of key)) _ t
      (insert_levels-Returns tid (hash_of key) value small held more 15 0 t before start refl refl)
      wrapped
  where
    wrapped :
        (result : Result (Unit {0}) V) (s : Table V)
        → Inserted tid (hash_of key) value small held more result s
        → Returns
            (KeyInserted (suc more) tid (hash_of key) key value held)
            (elim result [ ok _ ↦ ret (ok tt) | err v ↦ ret (err (key, v)) ])
            s
    wrapped (ok _) s post = post
    wrapped (err v) s (same, w, found, after) = (refl, same, w, found, after)
