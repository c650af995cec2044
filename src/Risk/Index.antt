-- ===== src/Risk/Index.antt =====
-- `ProbeIndex`: keys in an open-addressed table with linear probing. The nested planes are one flat
-- list, of CAPACITY slots; every index is below CAPACITY, so a read never misses.
pub mod Arc
pub mod Find
pub mod Insert
pub mod Update
pub mod Remove
pub mod Shift
pub mod Close
pub mod Removal
pub mod Fresh
use Prim.Native.Nat.{◌%◌}
use deterministic_exchange_r.Prelude.{
  ℕ, zero, suc, ◌+◌, ◌-◌, ◌*◌, ◌^◌, List, Option, none, some, Bool, not, ltb, leb, ◌==◌,
  if◌then◌else◌, length, get_or, set, replicate,
}
use deterministic_exchange_r.Prelude.Words.{u32_mod, u64_mod, checked_add}
use deterministic_exchange_r.Prelude.Outcome.{Outcome, ok, err}

-- A stored value is a slot number plus one (`NonZeroUsize`).
pub data IndexSlot : Type 0 where
  empty : IndexSlot
  occupied : ℕ → ℕ → IndexSlot

pub data ProbeError : Type 0 where
  full duplicate : ProbeError

abbrev pub Table : Type 0
Table = List IndexSlot

abbrev pub capacity : Table → ℕ
capacity t = length t

-- `ProbeIndex::new` at PLANE, with the two planes that both indexes have
unfoldable pub new : ℕ → Table
new plane = replicate (plane * 2) empty

-- `slot`
abbrev pub slot : Table → ℕ → IndexSlot
slot t i = get_or t i empty

unfoldable pub probe_start : ℕ → ℕ → ℕ
probe_start cap key = key * 0x9e37_79b9_7f4a_7c15 % u64_mod % cap

unfoldable pub probe_distance : ℕ → ℕ → ℕ → ℕ
probe_distance cap home current =
    if leb home current then current - home else cap - (home - current)

-- `start.wrapping_add(offset) % CAPACITY`
unfoldable pub advance : ℕ → ℕ → ℕ → ℕ
advance cap start offset = (start + offset) % u64_mod % cap

-- The `for` loop of `find_slot`, with the rounds that are left.
unfoldable pub find_from : Table → ℕ → ℕ → ℕ → ℕ → Option ℕ
find_from t key start zero offset = none
find_from t key start (suc rounds) offset =
    let flat = advance (capacity t) start offset in
    let rest = find_from t key start rounds (offset + 1) in
    elim (slot t flat) [
      | empty ↦ none
      | occupied indexed _ ↦ if indexed == key then some flat else rest
    ]

unfoldable pub find_slot : Table → ℕ → Option ℕ
unfolding find_from
find_slot t key =
    if capacity t == 0 then none else find_from t key (probe_start (capacity t) key) (capacity t) 0

unfoldable pub lookup : Table → ℕ → Option ℕ
unfolding find_slot
lookup t key = elim (find_slot t key) [
  | none ↦ none
  | some i ↦ elim (slot t i) [ occupied _ value ↦ some (value - 1) | empty ↦ none ]
]

-- The `for` loop of `insert`.
unfoldable pub insert_from : Table → ℕ → ℕ → ℕ → ℕ → ℕ → Outcome ProbeError ℕ × Table
insert_from t key value start zero offset = (err full, t)
insert_from t key value start (suc rounds) offset =
    let flat = advance (capacity t) start offset in
    let rest = insert_from t key value start rounds (offset + 1) in
    elim (slot t flat) [
      | empty ↦
          if ltb flat u32_mod then (ok flat, set t flat (occupied key value)) else (err full, t)
      | occupied indexed _ ↦ if indexed == key then (err duplicate, t) else rest
    ]

unfoldable pub insert : Table → ℕ → ℕ → Outcome ProbeError ℕ × Table
unfolding insert_from
insert t key value = if capacity t == 0 then (err full, t) else elim (checked_add u64_mod value 1) [
  | none ↦ (err full, t)
  | some stored ↦ insert_from t key stored (probe_start (capacity t) key) (capacity t) 0
]

-- `remove_at` reports each entry that it moves through a closure over some state of the caller's.
module _ {R : Type 0} (update_moved : ℕ → ℕ → ℕ → R → R) where
  -- The `loop` of `remove_at`, on fuel. `none`: the fuel is out, or `expect` found a hole that is no
  -- u32.
  unfoldable pub close_hole : ℕ → Table → ℕ → ℕ → R → Option (Table × R)
  close_hole zero t hole candidate r = none
  close_hole (suc fuel) t hole candidate r = elim (slot t candidate) [
    | empty ↦ some (set t hole empty, r)
    | occupied key value ↦
        let home = probe_start (capacity t) key in
        let next = advance (capacity t) candidate 1 in
        let moved =
          close_hole fuel (set t hole (occupied key value)) candidate next
            (update_moved key (value - 1) hole r) in
        let left = close_hole fuel t hole next r in
        if ltb (probe_distance (capacity t) home hole) (probe_distance (capacity t) home candidate)
        then (if ltb hole u32_mod then moved else none)
        else left
  ]

  unfoldable pub remove_at : Table → ℕ → ℕ → R → Option (Option ℕ × Table × R)
  unfolding close_hole
  remove_at t flat key r = if leb (capacity t) flat then some (none, t, r) else elim (slot t flat) [
    | empty ↦ some (none, t, r)
    | occupied indexed value ↦
        if indexed == key
        then (elim (close_hole (capacity t) t flat (advance (capacity t) flat 1) r) [
          | none ↦ none
          | some (t', r') ↦ some (some (value - 1), t', r')
        ])
        else some (none, t, r)
  ]
