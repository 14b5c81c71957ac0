-- ===== src/Structures/Set/Alone.antt =====
-- `contains` of the hash set with no other thread at work.
pub mod Remove
pub mod Calls
mod Tests
use rustcurrent.Prelude.{
  ℕ, zero, suc, ◌+◌, ◌*◌, ◌%◌, ◌^◌, ◌<◌, ◌≡◌, refl, ap, sym, ◌∙◌, arith, Bool, true, false, Option,
  none, some, is_some, List, ◌∷◌, length, ◌==◌, ==_refl, if◌then◌else◌, Result, ok, err,
}
use mathlib.Core.Path.{subst}
use rustcurrent.Concurrent.{ret, ◌>>=◌}
use rustcurrent.Concurrent.Returns.{Returns, Returns-bind, Returns-weaken}
use rustcurrent.Memory.Hazard.{Manager}
use rustcurrent.Memory.Hazard.Ready.{Ready}
use rustcurrent.Structures.Map.{Bucket, Table, on_data, Flow, give, descend, head}
use rustcurrent.Structures.Map.Insert.{levels}
use rustcurrent.Structures.Map.Lookup.{lookup_level}
use rustcurrent.Structures.Map.Tree.{shifted, child, contents, SlotOk, empty, array, leaf, IsTree}
use rustcurrent.Structures.Map.Tree.Path.{leaf_tags, length-path}
use rustcurrent.Structures.Map.Tree.Walk.{Reached, start, step, Reached-trail}
use rustcurrent.Structures.Map.Tree.Leaf.{only_hash}
use rustcurrent.Structures.Map.Tree.Slots.{contents-leaf, contents-empty}
use rustcurrent.Structures.Map.Alone.{
  with_manager, AtFlow, Unchanged, Holds, Holds-Unchanged, get_ptr-Returns,
}
use rustcurrent.Structures.Map.Alone.Lookup.{answer, Given, Down, lookup_level-Returns}
use rustcurrent.Structures.Map.Alone.InsertLoop.{Inserted}
use rustcurrent.Structures.Map.Alone.Insert.{insert_levels-Returns}
use rustcurrent.Structures.Set.{insert, contains, contains_levels, contains_bottom, and_contains}

module _ {T : Type 0} (rounds tid : ℕ) (trail : ℕ → List ℕ) (place : ℕ → ℕ × ℕ) (t : Table T)
    (tree : IsTree trail place t) (h : ℕ) (small : h < 2 ^ 64) where
  abbrev Answered : Bool → Table T → Type 0
  Answered a s = Unchanged rounds tid t s × (a ≡ is_some (contents t h))

  contains_bottom-Returns :
      (m : Manager)
      → Ready rounds tid m
      → {n a : ℕ} → (way : Reached t h n (child a)) → n + 0 ≡ 15
      → SlotOk trail place t a (shifted n h % 16) (t.slot a (shifted n h % 16))
      → Returns Answered (contains_bottom rounds tid h (child a) (shifted n h)) (with_manager m t)
  unfolding contains_bottom
  contains_bottom-Returns m ready {n} {a} way level (empty e) =
      get_ptr-Returns Answered (child a) (shifted n h % 16) _ (with_manager m t) (omega arith) (
        rw e (
          (m, ready, refl),
          sym (ap is_some (contents-empty trail place t tree h way 0 level h refl e)),
        ))
  contains_bottom-Returns m ready {n} way level (array k e _ _ _ short _) =
      let (tr, _, _) = Reached-trail trail place t tree h way in
      let deep = ap length tr ∙ length-path n h in absurd (omega arith)
  contains_bottom-Returns m ready {n} {a} way level (leaf k v h0 e (pos, _) nd small0 p _) =
      let (nz, _, _, _, _) = leaf_tags k pos in
      let same : h0 ≡ h = only_hash trail place t tree h way 0 level h0 small small0 refl p in
      let held : contents t h ≡ some v =
        contents-leaf trail place t tree h way 0 level h refl k e pos ∙ rw (nd, same, ==_refl h) in
      get_ptr-Returns Answered (child a) (shifted n h % 16) _ (with_manager m t) (omega arith) (
        rw (e, nz)
          (subst
            (λ x. Returns Answered (on_data x (λ _ other. ret (other == h))) (with_manager m t))
            (sym nd) ((m, ready, refl), rw (held, same, ==_refl h))))

  contains_levels-Returns :
      (left : ℕ) (m : Manager)
      → Ready rounds tid m
      → {n : ℕ} {b : Bucket} (r : ℕ) → Reached t h n b
      → n + left ≡ 15
      → Returns Answered (contains_levels rounds tid h left b r (shifted n h)) (with_manager m t)
  unfolding contains_levels
  contains_levels-Returns zero m ready r start level = absurd (omega arith)
  contains_levels-Returns zero m ready r (step {n = n} k way e) level =
      contains_bottom-Returns m ready (step k way e) level
        (tree.slots (4 * k) (shifted (suc n) h % 16))
  contains_levels-Returns (suc left) m ready {n} {b} r way level =
      Returns-bind
        (AtFlow (Given rounds tid (λ _. some tt) trail place t tree h)
          (Down rounds tid (λ _. some tt) trail place t tree h n))
        Answered (lookup_level rounds tid h (λ _ _. ret (some tt)) b (shifted n h % b.len) r) _
        (with_manager m t)
        (lookup_level-Returns rounds tid (λ _. some tt) trail place t tree h m ready way (suc left)
          level r (tree.slots b.addr (shifted n h % b.len)))
        (after
          λ b' m' ready' way'. contains_levels-Returns left m' ready' (r + 4) way' (omega arith))
    where
      after :
          ((b' : Bucket) (m' : Manager)
            → Ready rounds tid m'
            → Reached t h (suc n) b'
            → Returns Answered
                (contains_levels rounds tid h left b' (r + 4) (shifted (suc n) h))
                (with_manager m' t))
          → (f : Flow (Option (Unit {0}))) (s : Table T)
          → AtFlow
              (Given rounds tid (λ _. some tt) trail place t tree h)
              (Down rounds tid (λ _. some tt) trail place t tree h n)
              f
              s
          → Returns Answered
              (and_contains rounds tid h f
                λ b'. contains_levels rounds tid h left b' (r + 4) (shifted (suc n) h))
              s
      after below (give a) s (same, e) = (same, ap is_some e ∙ is_some-answer (contents t h))
        where
          is_some-answer :
              (o : Option T) → is_some (answer {V = T} rounds tid (λ _. some tt) o) ≡ is_some o
          is_some-answer none = refl
          is_some-answer (some v) = refl
      after below (descend b') s ((m', ready', same), way') =
          subst
            (λ s.
              Returns Answered (contains_levels rounds tid h left b' (r + 4) (shifted (suc n) h)) s)
            (sym same) (below b' m' ready' way')

-- With no other thread at work, `contains` of the hash set returns whether the table holds anything
-- for the hash of the key, and the table holds the same as before.
pub contains-Holds :
    {T Q : Type 0} (hash_of : Q → ℕ) (rounds tid : ℕ) (key : Q) (held : ℕ → Option T) (t : Table T)
    → Holds rounds tid held t
    → hash_of key < 2 ^ 64
    → Returns
        (λ a s. (a ≡ is_some (held (hash_of key))) × Holds rounds tid held s)
        (contains hash_of rounds tid key)
        t
unfolding contains
contains-Holds hash_of rounds tid key held t before small =
    let (trail, place, tree) = before.form in
    subst
      (λ s.
        Returns (λ a s. (a ≡ is_some (held (hash_of key))) × Holds rounds tid held s)
          (contains hash_of rounds tid key) s)
      (sym before.same)
      (Returns-weaken (Answered rounds tid trail place before.table tree (hash_of key) small) _
        (contains hash_of rounds tid key) (with_manager before.manager before.table)
        (λ a s (same, e). (
          e ∙ ap is_some (before.agree (hash_of key)),
          Holds-Unchanged rounds tid held before.table s before.form before.agree same,
        ))
        (contains_levels-Returns rounds tid trail place before.table tree (hash_of key) small 15
          before.manager before.ready 0 start refl))

-- What an insertion leaves, of a table that holds `held`.
module _ {T : Type 0} (rounds tid h : ℕ) (value : T) (held : ℕ → Option T) where
  abbrev pub ValueInserted : Result (Unit {0}) T → Table T → Type 0
  ValueInserted (ok _) s =
      (held h ≡ none) × Holds rounds tid (λ h'. if h == h' then some value else held h') s
  ValueInserted (err v) s = (v ≡ value) × (w : T) × (held h ≡ some w) × Holds rounds tid held s

-- With no other thread at work, `insert` of the hash set returns. When the table holds nothing for
-- the hash of the value, the result is `Ok`, and the table then holds the value for that hash and
-- what it held for all others. Otherwise the result is `Err` with the value, and the table holds
-- what it held before.
pub insert-ValueInserted :
    {T : Type 0} (hash_of : T → ℕ) (rounds tid : ℕ) (value : T) (held : ℕ → Option T) (t : Table T)
    → Holds rounds tid held t
    → hash_of value < 2 ^ 64
    → Returns
        (ValueInserted rounds tid (hash_of value) value held)
        (insert hash_of rounds tid value)
        t
unfolding insert
insert-ValueInserted hash_of zero tid value held t before small =
    let e = before.ready.enough in absurd (omega arith)
insert-ValueInserted {T} hash_of (suc more) tid value held t before small =
    Returns-weaken (Inserted tid (hash_of value) value small held more) _
      (insert hash_of (suc more) tid value) t same_result
      (insert_levels-Returns tid (hash_of value) value small held more 15 0 t before start refl
        refl)
  where
    same_result :
        (result : Result (Unit {0}) T) (s : Table T)
        → Inserted tid (hash_of value) value small held more result s
        → ValueInserted (suc more) tid (hash_of value) value held result s
    same_result (ok _) s post = post
    same_result (err v) s post = post
