-- ===== src/Structures/Map/Alone.antt =====
-- The accesses of the hash map with no other thread at work: what is left to show after each.
pub mod Lookup
pub mod Expand
pub mod InsertLoop
pub mod Insert
pub mod Levels
pub mod TakeOut
pub mod Remove
pub mod Update
pub mod Samples
pub mod Calls
mod Tests
use rustcurrent.Prelude.{
  ℕ, suc, ◌+◌, ◌*◌, ◌<◌, ◌≡◌, refl, ap, sym, ◌∙◌, arith, true, false, Option, none, some, ltb, ◌==◌,
  ==_refl, if◌then◌else◌, Result, ok, err,
}
use mathlib.Core.Path.{subst}
use rustcurrent.Concurrent.{Prog, ◌>>=◌, crash, load, compare_exchange}
use rustcurrent.Concurrent.Returns.{Returns, Returns-bind, Returns-exchange, Returns-zoom}
use rustcurrent.Memory.Hazard
use rustcurrent.Memory.Hazard.{Manager}
use rustcurrent.Memory.Hazard.Ready.{Ready, protect-Ready, retire-Ready}
use rustcurrent.Structures.Tagged.{unmark, unmark_second}
use rustcurrent.Structures.Map.{
  Bucket, Table, set_slot, Node, data_node, array_node, at, on_data, bucket_at, get_ptr,
  slot_compare_exchange, with_data_node, get_bucket, protect, retire, Flow, give, descend,
  and_descend,
}
use rustcurrent.Structures.Map.Tree.{child, contents, WellFormed}
use rustcurrent.Structures.Map.Tree.Walk.{Reached}
use rustcurrent.Structures.Map.Tree.Path.{array_tags}

module _ {V : Type 0} where
  abbrev pub with_manager : Manager → Table V → Table V
  with_manager m t = record t { manager = m }

  module _ {A : Type 0} (Post : A → Table V → Type 0) where
    at-Returns :
        {B : Type 0} (b : Bucket) (pos : ℕ) (p : Prog (Table V) B) (g : B → Prog (Table V) A)
        (s : Table V)
        → pos < b.len
        → Returns Post (p >>= g) s
        → Returns Post (at b pos p >>= g) s
    at-Returns b pos p g s inside h =
        let e : ltb pos b.len ≡ true = ground arith in
        subst (λ c. Returns Post ((if c then p else crash) >>= g) s) (sym e) h

    pub get_ptr-Returns :
        (b : Bucket) (pos : ℕ) (g : ℕ → Prog (Table V) A) (s : Table V)
        → pos < b.len
        → Returns Post (g (s.slot b.addr pos)) s
        → Returns Post (get_ptr b pos >>= g) s
    unfolding get_ptr
    get_ptr-Returns b pos g s inside h =
        at-Returns b pos (load (λ t. t.slot b.addr pos)) g s inside h

    pub slot_compare_exchange-Returns :
        (b : Bucket) (pos current new : ℕ) (g : Result ℕ ℕ → Prog (Table V) A) (s : Table V)
        → pos < b.len
        → s.slot b.addr pos ≡ current
        → Returns Post (g (ok (s.slot b.addr pos))) (set_slot b.addr pos new s)
        → Returns Post (slot_compare_exchange b pos current new >>= g) s
    unfolding slot_compare_exchange
    slot_compare_exchange-Returns b pos current new g s inside e h =
        at-Returns b pos
          (compare_exchange (λ t. t.slot b.addr pos) (set_slot b.addr pos) current new) g s inside
          (Returns-exchange Post (λ t. t.slot b.addr pos) (set_slot b.addr pos) current new g s
            (rw (e, ==_refl current)) h)

    pub with_data_node-Returns :
        (p a : ℕ) (value : Option V) (hash : ℕ) (g : Option V → ℕ → Prog (Table V) A) (s : Table V)
        → unmark p ≡ a
        → s.node a ≡ some (data_node value hash)
        → Returns Post (g value hash) s
        → Returns Post (with_data_node p g) s
    unfolding with_data_node
    with_data_node-Returns p a value hash g s plain e h =
        subst (λ n. Returns Post (on_data n g) s) (sym (ap s.node plain ∙ e)) h

    pub get_bucket-Returns :
        (k : ℕ) (g : Bucket → Prog (Table V) A) (s : Table V)
        → s.node (4 * k) ≡ some (array_node 16)
        → Returns Post (g (child (4 * k))) s
        → Returns Post (get_bucket (4 * k + 2) >>= g) s
    unfolding get_bucket
    get_bucket-Returns k g s e h =
        let (_, _, plain, _, _) = array_tags k in
        subst (λ a. Returns Post (bucket_at a (s.node a) >>= g) s) (sym plain)
          (subst (λ n. Returns Post (bucket_at (4 * k) n >>= g) s) (sym e) h)

    module _ (rounds tid r : ℕ) (g : Unit {0} → Prog (Table V) A) (s : Table V)
        (ready : Ready rounds tid s.manager)
        (next : (m : Manager) → Ready rounds tid m → Returns Post (g tt) (with_manager m s)) where
      pub protect-Returns : Returns Post (protect rounds tid r >>= g) s
      unfolding protect
      protect-Returns =
          Returns-zoom (λ t. t.manager) with_manager (λ _ m. Ready rounds tid m) Post
            (Hazard.protect rounds tid r 0) g s (λ m t. refl) (λ m m' t. refl) (λ t. refl)
            (protect-Ready rounds tid r s.manager ready) λ a m. next m

      pub retire-Returns : Returns Post (retire rounds tid r >>= g) s
      unfolding retire
      retire-Returns =
          Returns-zoom (λ t. t.manager) with_manager (λ _ m. Ready rounds tid m) Post
            (Hazard.retire rounds tid r 0) g s (λ m t. refl) (λ m m' t. refl) (λ t. refl)
            (retire-Ready rounds tid r s.manager ready) λ a m. next m

    module _ (Down : Bucket → Table V → Type 0) where
      -- What holds at the end of a level.
      abbrev pub AtFlow : Flow A → Table V → Type 0
      AtFlow (give a) s = Post a s
      AtFlow (descend b) s = Down b s

      pub and_descend-Returns :
          (p : Prog (Table V) (Flow A)) (next : Bucket → Prog (Table V) A) (s : Table V)
          → Returns AtFlow p s
          → ((b : Bucket) (s' : Table V) → Down b s' → Returns Post (next b) s')
          → Returns Post (p >>= λ f. and_descend f next) s
      and_descend-Returns p next s h below =
          Returns-bind AtFlow Post p (λ f. and_descend f next) s h go
        where
          go : (f : Flow A) (s' : Table V) → AtFlow f s' → Returns Post (and_descend f next) s'
          go (give a) s' post = post
          go (descend b) s' post = below b s' post

  -- Only the manager has changed, and it serves the thread.
  abbrev pub Unchanged : (rounds tid : ℕ) → Table V → Table V → Type 0
  Unchanged rounds tid t s = (m : Manager) × Ready rounds tid m × (s ≡ with_manager m t)

-- The table is well formed and holds what `held` says, and the manager serves the thread.
pub record Holds {V : Type 0} (rounds tid : ℕ) (held : ℕ → Option V) (s : Table V) : Type 0 where
  pub table : Table V
  pub manager : Manager
  pub ready : Ready rounds tid manager
  pub form : WellFormed table
  pub same : s ≡ with_manager manager table
  pub agree : (h : ℕ) → contents table h ≡ held h

pub Holds-Unchanged :
    {V : Type 0} (rounds tid : ℕ) (held : ℕ → Option V) (t s : Table V)
    → WellFormed t
    → ((h : ℕ) → contents t h ≡ held h)
    → Unchanged rounds tid t s
    → Holds rounds tid held s
Holds-Unchanged rounds tid held t s form agree (m, ready, same) = record {
  table = t;
  manager = m;
  ready = ready;
  form = form;
  same = same;
  agree = agree;
}

-- A level is left at a bucket that the hash comes to.
abbrev pub Descended :
    {V : Type 0} (rounds tid : ℕ) (held : ℕ → Option V) (h : ℕ) → ℕ → Bucket → Table V → Type 0
Descended rounds tid held h n b s =
    (down : Holds rounds tid held s) × Reached down.table h (suc n) b

pub Holds-eq :
    {V : Type 0} {rounds tid : ℕ} {held other : ℕ → Option V} {s : Table V}
    → ((h : ℕ) → held h ≡ other h)
    → Holds rounds tid held s
    → Holds rounds tid other s
Holds-eq e holds = record {
  table = holds.table;
  manager = holds.manager;
  ready = holds.ready;
  form = holds.form;
  same = holds.same;
  agree = λ h. holds.agree h ∙ e h;
}
