-- ===== src/Structures/Map/WaitFree/Steps.antt =====
-- The accesses of the hash map, and `expand_map`, beside other threads.
use rustcurrent.Prelude.{
  ℕ, ◌+◌, ◌*◌, ◌/◌, ◌%◌, ◌^◌, ◌≡◌, refl, sym, not, Option, none, some, get_elem?, ltb, ◌==◌,
  if_both, Result, ok, err,
}
use mathlib.Core.Path.{subst}
use rustcurrent.Concurrent.{Prog, ret, act, ◌>>=◌, zoom, unwrap}
use rustcurrent.Concurrent.Guarantee.{Finishes, Finishes-bind, Finishes-if}
use rustcurrent.Memory.Hazard
use rustcurrent.Memory.Hazard.{
  Manager, ThreadLocalInfo, info_or_new, get_mut_thread_info, get_mut_hazard_pointer, hp_protect,
}
use rustcurrent.Structures.Tagged.{is_marked_second, unmark, unmark_second, mark_second}
use rustcurrent.Structures.Map.{
  Node, data_node, array_node, Bucket, Table, get_ptr, slot_compare_exchange, mark_slot, store,
  box_array, drop_node, on_data, with_data_node, bucket_at, get_bucket, protect, expanded,
  expand_map, shift_step, child_size,
}

-- The thread has its hazard pointers.
abbrev pub IsRegistered : ℕ → Manager → Type 0
IsRegistered tid m = (info : ThreadLocalInfo) × (m.thread_info tid ≡ some info)

zoom-Finishes :
    {S T A : Type 0} (get : S → T) (put : T → S → S) (Inv : T → Type 0) (p : Prog T A)
    → ((t : T) (s : S) → get (put t s) ≡ t)
    → Finishes Inv p
    → Finishes (λ s. Inv (get s)) (zoom get put p)
zoom-Finishes get put Inv (ret a) law h = tt
zoom-Finishes get put Inv (act f k) law h = λ s i. (
  subst (λ t. Inv t) (sym (law (f (get s)) s)) (h (get s) i).0,
  zoom-Finishes get put Inv (k (get s)) law (h (get s) i).1,
)
zoom-Finishes get put Inv Prog.crash law h = tt
zoom-Finishes get put Inv Prog.spin law h = h

module _ (rounds tid : ℕ) where
  hazard-Finishes :
      (o : Option ℕ) (r : ℕ)
      → Finishes (IsRegistered tid) (unwrap {S = Manager} o >>= λ hp. hp_protect hp r)
  hazard-Finishes none r = tt
  hazard-Finishes (some hp) r = λ m i. (i, tt)

  Hazard_protect-Finishes : (r : ℕ) → Finishes (IsRegistered tid) (Hazard.protect rounds tid r 0)
  unfolding Hazard.protect get_mut_thread_info
  Hazard_protect-Finishes r = λ m (info, known). (
    (info, known),
    subst
        (λ o. Finishes (IsRegistered tid) (
          info_or_new rounds tid o >>= λ info.
          get_mut_hazard_pointer info 0 >>= λ hp. hp_protect hp r))
        (sym known) (hazard-Finishes (get_elem? info.local_hazards 0) r),
  )

  module _ (V : Type 0) where
    abbrev pub Keeps : Table V → Type 0
    Keeps t = IsRegistered tid t.manager

    -- The program ends, whatever it reads.
    abbrev pub Ends : {A : Type 0} → Prog (Table V) A → Type 0
    Ends p = Finishes Keeps p

    pub protect-Ends : (r : ℕ) → Ends (protect rounds tid r)
    unfolding protect
    protect-Ends r =
        zoom-Finishes (λ t. t.manager) (λ m t. record t { manager = m }) (IsRegistered tid)
          (Hazard.protect rounds tid r 0) (λ m t. refl) (Hazard_protect-Finishes r)

    pub get_ptr-Ends : (b : Bucket) (pos : ℕ) → Ends (get_ptr b pos)
    unfolding get_ptr
    get_ptr-Ends b pos = Finishes-if Keeps (ltb pos b.len) _ _ (λ t i. (i, tt)) tt

    pub slot_compare_exchange-Ends :
        (b : Bucket) (pos current new : ℕ) → Ends (slot_compare_exchange b pos current new)
    unfolding slot_compare_exchange
    slot_compare_exchange-Ends b pos current new =
        Finishes-if Keeps (ltb pos b.len) _ _
          (λ t i. (if_both {A = Table V} Keeps (t.slot b.addr pos == current) _ _ i i, tt)) tt

    pub mark_slot-Ends : (b : Bucket) (pos : ℕ) → Ends (mark_slot b pos)
    unfolding mark_slot
    mark_slot-Ends b pos =
        Finishes-if Keeps (ltb pos b.len) _ _
          (λ t i. (
            i,
            Finishes-if Keeps (not (is_marked_second (t.slot b.addr pos))) _ _ (λ t i. (i, tt)) tt,
          ))
          tt

    pub on_data-Ends :
        {A : Type 0} (n : Option (Node V)) (g : Option V → ℕ → Prog (Table V) A)
        → ((v : Option V) (hash : ℕ) → Ends (g v hash))
        → Ends (on_data n g)
    on_data-Ends none g h = tt
    on_data-Ends (some (array_node _)) g h = tt
    on_data-Ends (some (data_node v hash)) g h = h v hash

    pub with_data_node-Ends :
        {A : Type 0} (p : ℕ) (g : Option V → ℕ → Prog (Table V) A)
        → ((v : Option V) (hash : ℕ) → Ends (g v hash))
        → Ends (with_data_node p g)
    unfolding with_data_node
    with_data_node-Ends p g h = λ t i. (i, on_data-Ends (t.node (unmark p)) g h)

    pub bucket_at-Ends : (a : ℕ) (n : Option (Node V)) → Ends (bucket_at a n)
    bucket_at-Ends a none = tt
    bucket_at-Ends a (some (array_node _)) = tt
    bucket_at-Ends a (some (data_node v hash)) = tt

    pub get_bucket-Ends : (p : ℕ) → Ends {A = Bucket} (get_bucket p)
    unfolding get_bucket
    get_bucket-Ends p = λ t i. (i, bucket_at-Ends (unmark_second p) (t.node (unmark_second p)))

    pub store-Ends : (b : Bucket) (pos p : ℕ) → Ends (store b pos p)
    unfolding store
    store-Ends b pos p = Finishes-if Keeps (ltb pos b.len) _ _ (λ t i. (i, tt)) tt

    pub expanded-Ends :
        (b : Bucket) (pos new_pos a : ℕ) (r : Result ℕ ℕ) → Ends (expanded b pos new_pos a r)
    unfolding drop_node
    expanded-Ends b pos new_pos a (ok _) = tt
    expanded-Ends b pos new_pos a (err current) =
        Finishes-bind Keeps (get_bucket a) _ (get_bucket-Ends a) λ vec.
          Finishes-bind Keeps (store vec new_pos 0) _ (store-Ends vec new_pos 0) λ _ t i. (i, tt)

    pub expand_map-Ends : (b : Bucket) (pos shift : ℕ) → Ends (expand_map rounds tid b pos shift)
    unfolding expand_map box_array
    expand_map-Ends b pos shift = Finishes-bind Keeps (get_ptr b pos) _ (get_ptr-Ends b pos) λ node.
        Finishes-if Keeps (node == 0) _ _ tt (
          Finishes-bind Keeps (protect rounds tid (unmark node)) _ (protect-Ends (unmark node)) λ _.
            Finishes-if Keeps (is_marked_second node) _ _ tt (
              Finishes-bind Keeps (get_ptr b pos) _ (get_ptr-Ends b pos) λ node2.
                Finishes-if Keeps (node2 == 0) _ _ tt (
                  Finishes-if Keeps (not (node == node2)) _ _ tt (
                    with_data_node-Ends node _ λ v hash t i. (
                      i,
                      Finishes-bind Keeps
                          (slot_compare_exchange b pos node (mark_second (4 * (t.last + 1)))) _
                          (slot_compare_exchange-Ends b pos node (mark_second (4 * (t.last + 1))))
                          (expanded-Ends b pos (hash / 2 ^ (shift + shift_step) % child_size)
                            (4 * (t.last + 1))),
                    )))))
