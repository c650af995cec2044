-- ===== src/Book/LevelIndex.antt =====
-- `LevelIndex`: the occupied price levels of one side, best first, and the pool of free level
-- slots. `entries` is the part of the array that counts; `free` is the pool, the next to go first.
pub mod Search
pub mod Sorted
pub mod Update
use deterministic_exchange_r.Prelude.{
  ℕ, zero, suc, ◌+◌, ◌-◌, ◌/◌, List, [], ◌∷◌, ◌++◌, Bool, true, false, Option, none, some, ltb, leb,
  ◌==◌, if◌then◌else◌, take, drop, get_elem?, length,
}
use deterministic_exchange_r.Prelude.Int.{ℤ, ltb_ℤ}
use deterministic_exchange_r.Prelude.Outcome.{ok, panic}
use deterministic_exchange_r.Prelude.Effect.{Effect}
use deterministic_exchange_r.Types.{PriceTicks, RejectReason}
use deterministic_exchange_r.Book.Level.Fresh.{range}

abbrev pub Entry : Type 0
Entry = PriceTicks × ℕ

-- LEVELS is `levels`.
pub record LevelIndex : Type 0 where
  pub levels : ℕ
  pub entries : List Entry
  pub free : List ℕ

abbrev pub IndexCall : Type 0 → Type 0
IndexCall A = Effect LevelIndex RejectReason A

unfoldable pub new : ℕ → LevelIndex
new levels = record { levels = levels; entries = []; free = range 0 levels }

unfoldable pub is_full : LevelIndex → Bool
is_full x = length x.free == 0

abbrev pub eq_price : PriceTicks → PriceTicks → Bool
eq_price a b = if ltb_ℤ a b then false else if ltb_ℤ b a then false else true

-- the closure of `position`: whether a listed price comes before
abbrev pub comes_before : Bool → PriceTicks → PriceTicks → Bool
comes_before true listed price = ltb_ℤ price listed
comes_before false listed price = ltb_ℤ listed price

-- what the closure answers on the entry at an index, which is always in the array
abbrev pub entry_before : Bool → PriceTicks → List Entry → ℕ → Bool
entry_before descending price es i = elim (get_elem? es i) [
  | some e ↦ comes_before descending e.0 price
  | none ↦ false
]

-- The loop of the library's `partition_point`: it halves the stretch from `base` on, with the length
-- of the array as fuel, down to one entry.
abbrev pub search : Bool → PriceTicks → List Entry → ℕ → ℕ → ℕ → ℕ
search descending price es zero base size = base
search descending price es (suc fuel) base size =
    if leb size 1
    then base
    else let half = size / 2 in
      let mid = base + half in
      search descending price es fuel (if entry_before descending price es mid then mid else base)
        (size - half)

-- `entries.partition_point(..)`
unfoldable pub partition_point : Bool → PriceTicks → List Entry → ℕ
partition_point descending price es =
    let base = search descending price es (length es) 0 (length es) in
    if length es == 0 then 0 else if entry_before descending price es base then base + 1 else base

abbrev pub is_at : PriceTicks → Option Entry → Bool
is_at price none = false
is_at price (some e) = eq_price e.0 price

unfoldable pub position : PriceTicks → Bool → LevelIndex → ℕ × Bool
unfolding partition_point
position price descending x =
    let p = partition_point descending price x.entries in (p, is_at price (get_elem? x.entries p))

unfoldable pub find : PriceTicks → Bool → LevelIndex → Option ℕ
find price descending x =
    let (p, found) = position price descending x in
    if found then elim (get_elem? x.entries p) [ some e ↦ some e.1 | none ↦ none ] else none

-- Past the end of the array `copy_within` panics.
abbrev pub insert_at : ℕ → PriceTicks → IndexCall (Option ℕ)
insert_at p price x = elim x.free [
  | [] ↦ (ok none, x)
  | level ∷ free ↦
      if ltb (length x.entries) x.levels
      then (
        ok (some level),
        record x { entries = take p x.entries ++ (price, level) ∷ drop p x.entries; free = free },
      )
      else (panic, record x { free = free })
]

unfoldable pub insert : PriceTicks → Bool → IndexCall (Option ℕ)
insert price descending x = insert_at (position price descending x).0 price x

-- A pool that is full already panics.
abbrev pub remove_found : ℕ × Bool → IndexCall (Option ℕ)
remove_found at x =
    if at.1
    then elim (get_elem? x.entries at.0) [
      | none ↦ (ok none, x)
      | some e ↦
          let left = take at.0 x.entries ++ drop (suc at.0) x.entries in
          if ltb (length x.free) x.levels
          then (ok (some e.1), record x { entries = left; free = e.1 ∷ x.free })
          else (panic, record x { entries = left })
    ]
    else (ok none, x)

unfoldable pub remove : PriceTicks → Bool → IndexCall (Option ℕ)
remove price descending x = remove_found (position price descending x) x
