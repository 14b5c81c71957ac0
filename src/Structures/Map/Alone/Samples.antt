-- ===== src/Structures/Map/Alone/Samples.antt =====
-- Tables for the examples: one with no entry, and one with an entry.
use rustcurrent.Prelude.{
  ℕ, ◌≡◌, refl, ap, ◌∙◌, arith, none, some, [], ◌∷◌, ◌==◌, if◌then◌else◌, update,
}
use rustcurrent.Memory.Hazard.{Manager, new_manager, new_hazard_pointer, new_info}
use rustcurrent.Memory.Hazard.Ready.{Ready}
use rustcurrent.Memory.Hazard.Scan.{nil, cons}
use rustcurrent.Structures.Map.{Table, new_table}
use rustcurrent.Structures.Map.Tree.{find, contents, empty, IsTree}
use rustcurrent.Structures.Map.Tree.Walk.{start}
use rustcurrent.Structures.Map.Tree.Leaf.{put_leaf, put-IsTree, put-contents}
use rustcurrent.Structures.Map.Tree.Expand.{expand_slot, expand-IsTree, expand-contents}
use rustcurrent.Structures.Map.Alone.{with_manager, Holds}
use rustcurrent.Structures.Map.Alone.InsertLoop.{put_Inserted}

-- Thread 1 has the hazard pointer at address 1, the only one on the list.
abbrev pub served : Manager
served = record (new_manager 100 1) {
  head = 1;
  hazards = λ _. new_hazard_pointer;
  last = 1;
  thread_info = update (λ _. none) 1 (some (new_info (1 ∷ [])));
}

abbrev pub no_entry : Table ℕ
no_entry = with_manager served new_table

abbrev pub one_entry : Table ℕ
one_entry = with_manager served (put_leaf 0 0x34 7 0x1234 new_table)

pub served-Ready : Ready 3 1 served
served-Ready = record {
  info = new_info (1 ∷ []);
  known = refl;
  hp = 1;
  first = refl;
  hazard_list = 1 ∷ [];
  chain = cons (λ e. omega arith) (nil refl);
  enough = omega arith;
}

new_table-IsTree : IsTree (λ _. []) (λ _. (0, 0)) (new_table {V = ℕ})
new_table-IsTree = record { root = refl; slots = λ b i. empty refl; fresh = λ b i far. refl }

contents-new_table : (h : ℕ) → contents (new_table {V = ℕ}) h ≡ none
unfolding find
contents-new_table h = refl

pub no_entry-Holds : Holds 3 1 (λ _. none) no_entry
no_entry-Holds = record {
  table = new_table;
  manager = served;
  ready = served-Ready;
  form = (λ _. [], λ _. (0, 0), new_table-IsTree);
  same = refl;
  agree = contents-new_table;
}

pub one_entry-Holds : Holds 3 1 (λ h. if 0x1234 == h then some 7 else none) one_entry
one_entry-Holds =
    (put_Inserted 1 0x1234 7 (omega arith) (λ _. none) 2 (λ _. []) (λ _. (0, 0)) new_table
      new_table-IsTree contents-new_table start 15 refl served served-Ready refl).1

-- The same entry, one level down.
abbrev leaf_table : Table ℕ
leaf_table = put_leaf 0 0x34 7 0x1234 new_table

abbrev pub one_array : Table ℕ
one_array = expand_slot 0 0x34 3 4 leaf_table

leaf_table-IsTree : IsTree (λ _. []) (update (λ _. (0, 0)) 4 (0, 0x34)) leaf_table
leaf_table-IsTree =
    put-IsTree (λ _. []) (λ _. (0, 0)) new_table new_table-IsTree 0x1234 start 15 refl 7
      (omega arith)

leaf_table-contents : (h : ℕ) → contents leaf_table h ≡ (if 0x1234 == h then some 7 else none)
leaf_table-contents h =
    put-contents (λ _. []) (λ _. (0, 0)) new_table new_table-IsTree 0x1234 start 15 refl 7
      (omega arith) (λ h' _ _. contents-new_table h') h
    ∙ ap (λ o. if 0x1234 == h then some 7 else o) (contents-new_table h)

pub one_array-Holds :
    Holds 3 1 (λ h. if 0x1234 == h then some 7 else none) (with_manager served one_array)
one_array-Holds = record {
  table = one_array;
  manager = served;
  ready = served-Ready;
  form = (
    _,
    _,
    expand-IsTree (λ _. []) (update (λ _. (0, 0)) 4 (0, 0x34)) leaf_table leaf_table-IsTree 0x1234
        start 14 refl 1 refl (omega arith) (omega arith) 7 0x1234 refl (omega arith) refl,
  );
  same = refl;
  agree = λ h.
      expand-contents (λ _. []) (update (λ _. (0, 0)) 4 (0, 0x34)) leaf_table leaf_table-IsTree
        0x1234 start 14 refl 1 refl (omega arith) (omega arith) 7 0x1234 refl (omega arith) refl h
      ∙ leaf_table-contents h;
}
