-- ===== src/Book/OrderIndex.antt =====
-- `OrderIndex`: order ids to the places of their orders. The probing is that of the risk engine's
-- index, written out a second time in the source, over slots that pack a side, a level and a slot
-- into one number; a slot with no location is an empty one.
pub mod Packing
use Prim.Native.Nat.{◌/◌, ◌%◌}
use deterministic_exchange_r.Prelude.{
  ℕ, zero, suc, ◌+◌, ◌-◌, ◌*◌, List, Bool, true, false, Option, none, some, ◌||◌, ltb, leb, ◌==◌,
  if◌then◌else◌, set, replicate,
}
use deterministic_exchange_r.Prelude.Words.{u32_mod, u64_mod, checked_add, checked_mul}
use deterministic_exchange_r.Prelude.Outcome.{Outcome, ok, err, map_err}
use deterministic_exchange_r.Types.{
  OrderId, Side, buy, sell, RejectReason, order_capacity, duplicate_order_id,
}
use deterministic_exchange_r.Risk.Index.{
  ProbeError, full, duplicate, Table, IndexSlot, empty, occupied, capacity, slot, probe_start,
  probe_distance, advance, find_slot, insert_from,
}

pub record OrderLocation : Type 0 where
  pub side : Side
  pub level_index : ℕ
  pub slot : ℕ

-- LEVELS and ORDERS
pub record Shape : Type 0 where
  pub levels : ℕ
  pub orders : ℕ

unfoldable pub new : Shape → Table
new n = replicate (n.levels * n.orders * 4) empty

abbrev pub side_bit : Side → ℕ
side_bit buy = 0
side_bit sell = 1

abbrev pub and_then : Option ℕ → (ℕ → Option ℕ) → Option ℕ
and_then none f = none
and_then (some x) f = f x

unfoldable pub encode_location : Shape → OrderLocation → Option ℕ
encode_location n p =
    if leb n.levels p.level_index || leb n.orders p.slot
    then none
    else and_then (checked_mul u64_mod p.level_index n.orders) λ base.
      and_then (checked_add u64_mod base p.slot) λ flat.
        and_then (checked_mul u64_mod flat 2) λ doubled.
          and_then (checked_add u64_mod doubled (side_bit p.side))
            λ packed. checked_add u64_mod packed 1

abbrev pub side_of_bit : ℕ → Side
side_of_bit b = if b == 0 then buy else sell

unfoldable pub decode_location : Shape → ℕ → Option OrderLocation
decode_location n encoded =
    let flat = (encoded - 1) / 2 in
    if n.orders == 0
    then none
    else if leb n.levels (flat / n.orders)
    then none
    else some (record {
      side = side_of_bit ((encoded - 1) % 2);
      level_index = flat / n.orders;
      slot = flat % n.orders;
    })

unfoldable pub location : Shape → Table → OrderId → Option OrderLocation
unfolding find_slot decode_location
location n t id = elim (find_slot t id) [
  | none ↦ none
  | some i ↦ elim (slot t i) [ occupied _ encoded ↦ decode_location n encoded | empty ↦ none ]
]

abbrev pub insert_error : ProbeError → RejectReason
insert_error full = order_capacity
insert_error duplicate = duplicate_order_id

unfoldable pub insert : Shape → Table → OrderId → OrderLocation → Outcome RejectReason ℕ × Table
unfolding encode_location insert_from
insert n t id p = if capacity t == 0 then (err order_capacity, t) else elim (encode_location n p) [
  | none ↦ (err order_capacity, t)
  | some encoded ↦
      let (result, t') = insert_from t id encoded (probe_start (capacity t) id) (capacity t) 0 in
      (map_err insert_error result, t')
]

-- How the loop of `remove_at` ends: with the hole closed, at an entry whose location does not
-- decode, or (`none`) in a panic or out of fuel.
module _ {R : Type 0} (n : Shape) (update_reverse_slot : OrderId → OrderLocation → ℕ → R → R) where
  unfoldable pub close_hole : ℕ → Table → ℕ → ℕ → R → Option (Bool × Table × R)
  unfolding decode_location
  close_hole zero t hole candidate r = none
  close_hole (suc fuel) t hole candidate r = elim (slot t candidate) [
    | empty ↦ some (true, set t hole empty, r)
    | occupied key encoded ↦
        let home = probe_start (capacity t) key in
        let next = advance (capacity t) candidate 1 in
        let moved = (λ (p : OrderLocation).
          close_hole fuel (set t hole (occupied key encoded)) candidate next
            (update_reverse_slot key p hole r)) in
        let left = close_hole fuel t hole next r in
        if ltb (probe_distance (capacity t) home hole) (probe_distance (capacity t) home candidate)
        then (elim (decode_location n encoded) [
          | none ↦ some (false, t, r)
          | some p ↦ if ltb hole u32_mod then moved p else none
        ])
        else left
  ]

  unfoldable pub remove_at : Table → ℕ → OrderId → R → Option (Option OrderLocation × Table × R)
  unfolding close_hole
  remove_at t flat id r = if leb (capacity t) flat then some (none, t, r) else elim (slot t flat) [
    | empty ↦ some (none, t, r)
    | occupied indexed encoded ↦ elim (decode_location n encoded) [
      | none ↦ some (none, t, r)
      | some p ↦
          if indexed == id
          then (elim (close_hole (capacity t) t flat (advance (capacity t) flat 1) r) [
            | none ↦ none
            | some (closed, t', r') ↦ some (if closed then some p else none, t', r')
          ])
          else some (none, t, r)
    ]
  ]
