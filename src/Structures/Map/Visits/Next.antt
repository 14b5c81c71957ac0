-- ===== src/Structures/Map/Visits/Next.antt =====
-- `next` of an iterator over a table that no other thread is working on.
use rustcurrent.Prelude.{
  refl, inl, length, ℕ, suc, ◌*◌, ◌<◌, ◌≡◌, sym, ◌∙◌, arith, Option, none, some, List,
}
use mathlib.Core.Path.{subst}
use rustcurrent.Concurrent.Returns.{Returns, Returns-weaken}
use rustcurrent.Memory.Hazard.{Manager}
use rustcurrent.Memory.Hazard.Ready.{Known}
use rustcurrent.Structures.Map.{Table}
use rustcurrent.Structures.Map.Iter.{Iter, new_iter, next}
use rustcurrent.Structures.Map.Tree.{contents, IsTree}
use rustcurrent.Structures.Map.Alone.{with_manager, Holds}
use rustcurrent.Structures.Map.Visits.{slot_cost, Visits, new_iter-Visits}
use rustcurrent.Structures.Map.Tree.{path}
use rustcurrent.Structures.Map.Visits.Ahead.{Below, Pending, without}
use rustcurrent.Structures.Map.Visits.Slot.{Item}
use rustcurrent.Structures.Map.Visits.Step.{next-Again}

-- More calls than any iteration over the tree makes.
abbrev pub full_cost : ℕ
full_cost = 256 * slot_cost 15

-- An iterator over a well-formed table that holds what `held` says, which has still to give `todo`.
pub record Iterates {V : Type 0} (tid : ℕ) (held todo : ℕ → Option V) (it : Iter) (s : Table V)
    : Type 0 where
  pub table : Table V
  pub manager : Manager
  pub known : Known tid manager
  pub trail : ℕ → List ℕ
  pub place : ℕ → ℕ × ℕ
  pub tree : IsTree trail place table
  pub same : s ≡ with_manager manager table
  pub agree : (h : ℕ) → contents table h ≡ held h
  pub visits : Visits trail place table tree it full_cost
  pub pending : Pending trail (contents table) todo it

-- A new iterator has all the entries of the table to give.
pub new_iter-Iterates :
    {V : Type 0} (rounds tid : ℕ) (held : ℕ → Option V) (s : Table V)
    → Holds rounds tid held s
    → Iterates tid held held new_iter s
new_iter-Iterates limit tid held s holds =
    let (trail, place, tree) = holds.form in
    let below_head : (h : ℕ) → Below trail new_iter.current_array h =
      λ h. subst (λ l. path (length l) h ≡ l) (sym tree.root) refl in
    record {
      table = holds.table;
      manager = holds.manager;
      known = (holds.ready.info, holds.ready.known);
      trail = trail;
      place = place;
      tree = tree;
      same = holds.same;
      agree = holds.agree;
      visits = new_iter-Visits trail place holds.table tree;
      pending = record {
        sound = λ h v e. (holds.agree h ∙ e, inl (below_head h, omega arith));
        complete = λ h v e _. sym (holds.agree h) ∙ e;
        apart = (λ h _ _ s. s, tt);
      };
    }

-- The item is one of the entries that are left, and the iterator goes on over the others; `None` is
-- for when there are none left.
abbrev pub Yields :
    {V : Type 0} → ℕ → (held todo : ℕ → Option V) → Option (V × ℕ) → Iter → Table V → Type 0
Yields tid held todo none it s = ((h : ℕ) → todo h ≡ none) × Iterates tid held todo it s
Yields tid held todo (some (v, _)) it s =
    (h : ℕ) × (todo h ≡ some v) × Iterates tid held (without h todo) it s

-- With no other thread at work, `next` of an iterator over the table returns, when it may call itself
-- more often than `full_cost`. It gives the value of an entry that the iterator has not given before,
-- which it then does not give again, or `None` when it has given every entry of the table. The table
-- holds the same as before, and the iterator goes on over the entries that are left.
pub next-Iterates :
    {V : Type 0} (fuel more tid : ℕ) (held todo : ℕ → Option V) (it : Iter) (s : Table V)
    → Iterates tid held todo it s
    → full_cost < fuel
    → Returns (λ (item, it') s'. Yields tid held todo item it' s') (next (suc more) tid fuel it) s
next-Iterates {V} fuel more tid held todo it s before enough =
    subst (λ s. Returns Post (next (suc more) tid fuel it) s) (sym before.same)
      (Returns-weaken
        (Item before.trail before.place before.table before.tree more tid full_cost todo) Post
        (next (suc more) tid fuel it) (with_manager before.manager before.table) found
        (next-Again before.trail before.place before.table before.tree more tid full_cost todo fuel
          it full_cost before.visits before.pending enough (omega arith) before.manager
          before.known))
  where
    Post : Option (V × ℕ) × Iter → Table V → Type 0
    Post (item, it') s' = Yields tid held todo item it' s'

    after :
        {it' : Iter} {s' : Table V} {left : ℕ → Option V}
        → Visits before.trail before.place before.table before.tree it' full_cost
        → Pending before.trail (contents before.table) left it'
        → (m : Manager) → Known tid m
        → s' ≡ with_manager m before.table
        → Iterates tid held left it' s'
    after visits pending m known same = record {
      table = before.table;
      manager = m;
      known = known;
      trail = before.trail;
      place = before.place;
      tree = before.tree;
      same = same;
      agree = before.agree;
      visits = visits;
      pending = pending;
    }

    found :
        (r : Option (V × ℕ) × Iter) (s' : Table V)
        → Item before.trail before.place before.table before.tree more tid full_cost todo r s'
        → Post r s'
    found (none, it') s' ((last, pending), visits, m, known, same) =
        (last, after visits pending m known same)
    found (some (v, _), it') s' ((h, e, pending), visits, m, known, same) =
        (h, e, after visits pending m known same)
