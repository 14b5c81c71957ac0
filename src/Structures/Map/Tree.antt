-- ===== src/Structures/Map/Tree.antt =====
-- The tree of the hash map and the hash set as a finite map: what a table holds for a hash, and when
-- a table that no thread is working on is well formed.
pub mod Path
pub mod Change
pub mod Slots
pub mod Leaf
pub mod Expand
pub mod Walk
use rustcurrent.Prelude.{
  ℕ, zero, suc, ◌+◌, ◌/◌, ◌%◌, ◌*◌, ◌^◌, ◌≤◌, ◌<◌, ◌≡◌, Option, none, some, List, [], ◌∷◌, length,
  ◌==◌, if◌then◌else◌,
}
use rustcurrent.Structures.Tagged.{is_marked_second, unmark_second}
use rustcurrent.Structures.Map.{Bucket, head, Table, Node, data_node, array_node, child_size}

-- The part of the hash that is left at a level, and the index that it gives there.
abbrev pub shifted : (level hash : ℕ) → ℕ
shifted zero hash = hash
shifted (suc n) hash = shifted n hash / 16

abbrev pub size : (level : ℕ) → ℕ
size zero = 256
size (suc n) = 16

-- The indices on the way down to a level, the last first.
abbrev pub path : (level hash : ℕ) → List ℕ
path zero hash = []
path (suc n) hash = (shifted n hash % size n) ∷ path n hash

abbrev pub child : ℕ → Bucket
child a = record { addr = a; len = child_size }

module _ {V : Type 0} where
  abbrev pub value_of : Option (Node V) → (hash : ℕ) → Option V
  value_of (some (data_node value other)) hash = if other == hash then value else none
  value_of _ hash = none

  abbrev pub at_slot : Table V → (p hash : ℕ) → (ℕ → Option V) → Option V
  at_slot t p hash below =
      if p == 0
      then none
      else (if is_marked_second p then below (unmark_second p) else value_of (t.node p) hash)

  -- What is found for a hash from a bucket on, with `left` levels below it.
  unfoldable pub find : (left : ℕ) → Table V → Bucket → (mut_hash hash : ℕ) → Option V
  find zero t b mut_hash hash = at_slot t (t.slot b.addr (mut_hash % b.len)) hash (λ _. none)
  find (suc left) t b mut_hash hash =
      at_slot t (t.slot b.addr (mut_hash % b.len)) hash
        (λ a. find left t (child a) (mut_hash / 16) hash)

  -- The table as a map from hashes to values.
  abbrev pub contents : Table V → ℕ → Option V
  contents t hash = find 15 t head hash hash

  -- A slot is empty, or it holds an array node one level down, or a data node whose hash leads here.
  -- `trail` gives the indices on the way to an array, and `place` the one slot that an address is in.
  pub data SlotOk (trail : ℕ → List ℕ) (place : ℕ → ℕ × ℕ) (t : Table V) (b i p : ℕ) : Type 0 where
    empty : p ≡ 0 → SlotOk trail place t b i p
    array :
        (k : ℕ)
        → p ≡ 4 * k + 2
        → (0 < k) × (k ≤ t.last)
        → t.node (4 * k) ≡ some (array_node 16)
        → trail (4 * k) ≡ i ∷ trail b
        → length (trail b) < 15
        → place (4 * k) ≡ (b, i)
        → SlotOk trail place t b i p
    leaf :
        (k : ℕ) (value : V) (hash : ℕ)
        → p ≡ 4 * k
        → (0 < k) × (k ≤ t.last)
        → t.node (4 * k) ≡ some (data_node (some value) hash)
        → hash < 2 ^ 64
        → path (suc (length (trail b))) hash ≡ i ∷ trail b
        → place (4 * k) ≡ (b, i)
        → SlotOk trail place t b i p

  pub record IsTree (trail : ℕ → List ℕ) (place : ℕ → ℕ × ℕ) (t : Table V) : Type 0 where
    pub root : trail 0 ≡ []
    pub slots : (b i : ℕ) → SlotOk trail place t b i (t.slot b i)
    pub fresh : (b i : ℕ) → 4 * t.last < b → t.slot b i ≡ 0

  -- A table between two calls.
  abbrev pub WellFormed : Table V → Type 0
  WellFormed t = (trail : ℕ → List ℕ) × (place : ℕ → ℕ × ℕ) × IsTree trail place t
