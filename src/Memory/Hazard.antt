-- ===== src/Memory/Hazard.antt =====
-- The hazard pointer manager (src/memory/hazardpointers.rs), one access to shared memory a step. An
-- address is a number and 0 is null. `hazards` holds the hazard pointers that were allocated, whose
-- addresses are 1 to `last`; `thread_info` is the thread-local storage; `freed` lists the records
-- that were given back, the latest first. `rounds` bounds the retries of the loops.
pub mod Dynamic
pub mod Safety
pub mod Scan
pub mod Ready
pub mod Retire
mod Tests
use rustcurrent.Prelude.{
  ℕ, zero, suc, ◌+◌, Bool, true, false, not, Option, none, some, List, [], ◌∷◌, ◌++◌, get_elem?,
  length, drop, has, update, ltb, ◌==◌, if◌then◌else◌, ok, err,
}
use rustcurrent.Concurrent.{
  Prog, ret, act, spin, ◌>>=◌, ◌>>◌, load, modify, compare_exchange, unwrap,
}

pub record HazardPointer : Type 0 where
  pub protected : ℕ
  pub next : ℕ
  pub active : Bool

pub record ThreadLocalInfo : Type 0 where
  pub local_hazards : List ℕ
  pub retired_list : List ℕ
  pub retired_number : ℕ
  pub starting_hazards_num : ℕ

pub record Manager : Type 0 where
  pub head : ℕ
  pub max_retired : ℕ
  pub num_hp_per_thread : ℕ
  pub hazards : ℕ → HazardPointer
  pub last : ℕ
  pub thread_info : ℕ → Option ThreadLocalInfo
  pub freed : List ℕ

abbrev pub new_hazard_pointer : HazardPointer
new_hazard_pointer = record { protected = 0; next = 0; active = false }

abbrev pub new_info : List ℕ → ThreadLocalInfo
new_info starting_hazards = record {
  local_hazards = starting_hazards;
  retired_list = [];
  retired_number = 0;
  starting_hazards_num = length starting_hazards;
}

abbrev pub new_manager : (max_retired num_hp_per_thread : ℕ) → Manager
new_manager max_retired num_hp_per_thread = record {
  head = 0;
  max_retired = max_retired;
  num_hp_per_thread = num_hp_per_thread;
  hazards = λ _. new_hazard_pointer;
  last = 0;
  thread_info = λ _. none;
  freed = [];
}

-- Writes of one word.
abbrev pub set_protected : ℕ → ℕ → Manager → Manager
set_protected hp r m = record m {
  hazards = update m.hazards hp (record (m.hazards hp) { protected = r });
}

abbrev pub set_next : ℕ → ℕ → Manager → Manager
set_next hp n m = record m { hazards = update m.hazards hp (record (m.hazards hp) { next = n }) }

abbrev pub set_head : ℕ → Manager → Manager
set_head p m = record m { head = p }

abbrev pub set_info : ℕ → ThreadLocalInfo → Manager → Manager
set_info tid info m = record m { thread_info = update m.thread_info tid (some info) }

-- `HazardPointer::protect` and `HazardPointer::unprotect`.
abbrev pub hp_protect : ℕ → ℕ → Prog Manager (Unit {0})
hp_protect hp r = modify (set_protected hp r)

abbrev pub hp_unprotect : ℕ → Prog Manager (Unit {0})
hp_unprotect hp = modify (set_protected hp 0)

-- `Box::into_raw(Box::new(HazardPointer::new()))`
unfoldable pub box_hp : Prog Manager ℕ
box_hp =
    act
      (λ m. record m {
        hazards = update m.hazards (m.last + 1) new_hazard_pointer;
        last = m.last + 1;
      })
      (λ m. ret (m.last + 1))

-- The loop of `allocate_hp`.
unfoldable pub push_hp : (rounds : ℕ) → ℕ → Prog Manager ℕ
push_hp zero hp = spin
push_hp (suc rounds) hp = do
  old_head ← load (λ m. m.head)
  modify (set_next hp old_head)
  swapped ← compare_exchange (λ m. m.head) set_head old_head hp
  elim swapped [ ok _ ↦ ret hp | err _ ↦ push_hp rounds hp ]

unfoldable pub allocate_hp : (rounds : ℕ) → Prog Manager ℕ
unfolding box_hp push_hp
allocate_hp rounds = do hp ← box_hp; push_hp rounds hp

-- `for _ in 0..num_hp_per_thread`
unfoldable pub allocate_hps : (rounds n : ℕ) → Prog Manager (List ℕ)
unfolding allocate_hp
allocate_hps rounds zero = ret []
allocate_hps rounds (suc n) = do
  hp ← allocate_hp rounds
  hps ← allocate_hps rounds n
  ret (hp ∷ hps)

abbrev pub info_or_new : (rounds tid : ℕ) → Option ThreadLocalInfo → Prog Manager ThreadLocalInfo
info_or_new rounds tid (some info) = ret info
info_or_new rounds tid none = do
  n ← load (λ m. m.num_hp_per_thread)
  hps ← allocate_hps rounds n
  modify (set_info tid (new_info hps))
  ret (new_info hps)

-- `get_or` of the thread-local storage, which runs its closure at the first access.
unfoldable pub get_mut_thread_info : (rounds tid : ℕ) → Prog Manager ThreadLocalInfo
unfolding allocate_hps
get_mut_thread_info rounds tid = do
  info ← load (λ m. m.thread_info tid)
  info_or_new rounds tid info

abbrev pub get_mut_hazard_pointer : ThreadLocalInfo → ℕ → Prog Manager ℕ
get_mut_hazard_pointer info hazard_index = unwrap (get_elem? info.local_hazards hazard_index)

unfoldable pub protect : (rounds tid : ℕ) → (r hazard_num : ℕ) → Prog Manager (Unit {0})
unfolding get_mut_thread_info
protect rounds tid r hazard_num = do
  info ← get_mut_thread_info rounds tid
  hp ← get_mut_hazard_pointer info hazard_num
  hp_protect hp r

unfoldable pub unprotect : (rounds tid : ℕ) → (hazard_num : ℕ) → Prog Manager (Unit {0})
unfolding get_mut_thread_info
unprotect rounds tid hazard_num = do
  info ← get_mut_thread_info rounds tid
  hp ← get_mut_hazard_pointer info hazard_num
  hp_unprotect hp

-- The first loop of `scan`: the records that the hazard pointers from `current` on protect.
unfoldable pub collect : (rounds : ℕ) → (current : ℕ) → List ℕ → Prog Manager (List ℕ)
collect zero current hazard_set = spin
collect (suc rounds) current hazard_set = elim (current == 0) [
  | true ↦ ret hazard_set
  | false ↦ do
    ptr ← load (λ m. (m.hazards current).protected)
    next ← load (λ m. (m.hazards current).next)
    collect rounds next (if ptr == 0 then hazard_set else ptr ∷ hazard_set)
]

abbrev pub free : ℕ → Prog Manager (Unit {0})
free garbage = modify (λ m. record m { freed = garbage ∷ m.freed })

-- The second loop of `scan`: free what is not protected, and give the rest, in order.
unfoldable pub sweep : List ℕ → List ℕ → Prog Manager (List ℕ)
sweep hazard_set [] = ret []
sweep hazard_set (ptr ∷ ptrs) = elim (has ptr hazard_set) [
  | true ↦ do kept ← sweep hazard_set ptrs; ret (ptr ∷ kept)
  | false ↦ do free ptr; sweep hazard_set ptrs
]

unfoldable pub scan : (rounds tid : ℕ) → Prog Manager (Unit {0})
unfolding collect sweep get_mut_thread_info
scan rounds tid = do
  current ← load (λ m. m.head)
  hazard_set ← collect rounds current []
  info ← get_mut_thread_info rounds tid
  new_retired_list ← sweep hazard_set info.retired_list
  modify (
      set_info tid
        (record info { retired_list = new_retired_list; retired_number = length new_retired_list }))

unfoldable pub retire : (rounds tid : ℕ) → (r hazard_num : ℕ) → Prog Manager (Unit {0})
unfolding get_mut_thread_info
retire rounds tid r hazard_num = do
  info ← get_mut_thread_info rounds tid
  hp ← get_mut_hazard_pointer info hazard_num
  hp_unprotect hp
  modify (
      set_info tid (record info {
        retired_list = info.retired_list ++ (r ∷ []);
        retired_number = info.retired_number + 1;
      }))
  max ← load (λ m. m.max_retired)
  if ltb max (info.retired_number + 1) then scan rounds tid else ret tt

-- The loop of `protect_dynamic` over the hazard pointers `hps` from index `i` on; `none` means that
-- it ended with no `return`.
unfoldable pub reuse_dynamic : (i : ℕ) → List ℕ → (r : ℕ) → Prog Manager (Option ℕ)
reuse_dynamic i [] r = ret none
reuse_dynamic i (hp ∷ hps) r = do
  protected ← load (λ m. (m.hazards hp).protected)
  elim (not (protected == 0)) [
    | true ↦ do hp_protect hp r; ret (some i)
    | false ↦ reuse_dynamic (i + 1) hps r
  ]

abbrev pub add_dynamic_hazard_pointer : ℕ → ThreadLocalInfo → ℕ → Prog Manager ℕ
add_dynamic_hazard_pointer tid info hp = do
  modify (set_info tid (record info { local_hazards = info.local_hazards ++ (hp ∷ []) }))
  ret (length info.local_hazards)

abbrev pub dynamic_or_new : (rounds tid : ℕ) → ThreadLocalInfo → Option ℕ → Prog Manager ℕ
dynamic_or_new rounds tid info (some i) = ret i
dynamic_or_new rounds tid info none = do
  hp ← allocate_hp rounds
  add_dynamic_hazard_pointer tid info hp

-- The index of the handle that `protect_dynamic` returns.
unfoldable pub protect_dynamic : (rounds tid : ℕ) → (r : ℕ) → Prog Manager ℕ
unfolding get_mut_thread_info reuse_dynamic allocate_hp
protect_dynamic rounds tid r = do
  info ← get_mut_thread_info rounds tid
  reused ←
      reuse_dynamic info.starting_hazards_num (drop info.starting_hazards_num info.local_hazards) r
  dynamic_or_new rounds tid info reused

-- Also the drop of a handle.
unfoldable pub unprotect_dynamic : (rounds tid : ℕ) → (hp_index : ℕ) → Prog Manager (Unit {0})
unfolding get_mut_thread_info
unprotect_dynamic rounds tid hp_index = do
  info ← get_mut_thread_info rounds tid
  hp ← get_mut_hazard_pointer info hp_index
  hp_unprotect hp

-- The handle is dropped at the end.
unfoldable pub retire_dynamic : (rounds tid : ℕ) → (hp_index : ℕ) → Prog Manager (Unit {0})
unfolding get_mut_thread_info retire unprotect_dynamic
retire_dynamic rounds tid hp_index = do
  info ← get_mut_thread_info rounds tid
  hp ← get_mut_hazard_pointer info hp_index
  ptr ← load (λ m. (m.hazards hp).protected)
  (if not (ptr == 0) then retire rounds tid ptr hp_index else ret tt)
  unprotect_dynamic rounds tid hp_index

-- `activate` answers with the flag as it was.
abbrev pub activate : ℕ → Prog Manager Bool
activate hp =
    act (λ m. record m { hazards = update m.hazards hp (record (m.hazards hp) { active = true }) })
      (λ m. ret (m.hazards hp).active)

-- The loop of `check_in_free_list` over the threads that have local information.
abbrev pub check_in_free_list : List ℕ → ℕ → Manager → Bool
check_in_free_list [] r m = false
check_in_free_list (tid ∷ tids) r m = elim (m.thread_info tid) [
  | none ↦ check_in_free_list tids r m
  | some info ↦ if has r info.retired_list then true else check_in_free_list tids r m
]
