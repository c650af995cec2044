-- ===== src/Book/Tests.antt =====
-- A book with two resting sell orders at one price, and orders that meet it.
use deterministic_exchange_r.Prelude.{
  ℕ, ◌<◌, ◌≡◌, refl, List, [], ◌∷◌, false, none, some, if◌then◌else◌, arith, length,
}
use deterministic_exchange_r.Prelude.Int.{pos}
use deterministic_exchange_r.Prelude.Outcome.{ok}
use deterministic_exchange_r.Types.{PriceTicks, sell}
use deterministic_exchange_r.Book.Level.{
  RestingOrder, free, live, nil, PriceLevel, push_tail, unlink, reduce_quantity, for_each_live,
}
use deterministic_exchange_r.Book.Level.Segment.{Cells, linked}
use deterministic_exchange_r.Book.Level.Queue.{Holds, Refines, push_tail-Holds}
use deterministic_exchange_r.Book.Level.Unlink.{unlink-Holds}
use deterministic_exchange_r.Book.Level.Visit.{
  SameOrders, for_each_live-SameOrders, with_quantity, reduce_quantity-Holds,
}
use deterministic_exchange_r.Book.LevelIndex.{LevelIndex, eq_price, find, insert, remove}
use deterministic_exchange_r.Book.LevelIndex.Sorted.{Sorted, listed, find-listed}
use deterministic_exchange_r.Book.LevelIndex.Update.{insert-Sorted, remove-Sorted}
use deterministic_exchange_r.Book.OrderIndex.{
  OrderLocation, Shape, encode_location, decode_location,
}
use deterministic_exchange_r.Book.OrderIndex.Packing.{decode-encode_location}

abbrev pub first_order : RestingOrder
first_order = record {
  id = 1;
  account_id = 7;
  index_slot = 0;
  quantity = 5;
  sequence = 1;
  prev = nil;
  next = 1;
}

abbrev pub second_order : RestingOrder
second_order = record {
  id = 2;
  account_id = 8;
  index_slot = 1;
  quantity = 4;
  sequence = 2;
  prev = 0;
  next = nil;
}

abbrev third_order : RestingOrder
third_order = record {
  id = 3;
  account_id = 7;
  index_slot = 2;
  quantity = 6;
  sequence = 3;
  prev = nil;
  next = nil;
}

abbrev pub two_orders : PriceLevel
two_orders = record {
  price = pos 100;
  aggregate_quantity = 9;
  slots = live first_order ∷ live second_order ∷ free nil ∷ [];
  head = 0;
  tail = 1;
  free_head = 2;
  len = 2;
}

abbrev pub two_cells : Cells
two_cells = (0, first_order) ∷ (1, second_order) ∷ []

pub two_orders-Holds : Holds two_orders two_cells (2 ∷ [])
two_orders-Holds = record {
  chain = (refl, 1, refl, (refl, nil, refl, (refl, refl)));
  free_chain = (refl, nil, refl, refl);
  distinct = (refl, (refl, tt));
  no_repeat = (refl, tt);
  counted = refl;
  len = refl;
  aggregate = refl;
  fit = (omega arith, (omega arith, tt));
  small = omega arith;
}

push_tail-Holds_example :
    (slot : ℕ) × (l : PriceLevel) × (push_tail third_order two_orders ≡ (ok (some slot), l))
    × (l.price ≡ pos 100)
    × (length l.slots ≡ 3)
    × Refines l ((0, first_order) ∷ (1, second_order) ∷ (slot, third_order) ∷ [])
push_tail-Holds_example =
    push_tail-Holds two_orders third_order two_cells (2 ∷ []) two_orders-Holds (omega arith)
      (omega arith)

unlink-Holds_example :
    (prev : ℕ) × (next : ℕ) × (l : PriceLevel) × (unlink 0 two_orders
      ≡ (ok (some (linked prev next first_order)), l))
    × (l.price ≡ pos 100)
    × (length l.slots ≡ 3)
    × Refines l ((1, second_order) ∷ [])
unlink-Holds_example =
    unlink-Holds two_orders 0 first_order [] ((1, second_order) ∷ []) (2 ∷ []) two_orders-Holds

for_each_live-SameOrders_example :
    (rs : List RestingOrder) × (for_each_live two_orders ≡ some rs) × SameOrders rs two_cells
for_each_live-SameOrders_example =
    for_each_live-SameOrders two_orders two_cells (2 ∷ [], two_orders-Holds)

reduce_quantity-Holds_example :
    (l : PriceLevel) × (reduce_quantity 1 3 two_orders ≡ (ok (some tt), l))
    × (l.price ≡ pos 100)
    × (length l.slots ≡ 3)
    × Holds l ((0, first_order) ∷ (1, with_quantity 1 second_order) ∷ []) (2 ∷ [])
reduce_quantity-Holds_example =
    reduce_quantity-Holds two_orders 1 3 second_order ((0, first_order) ∷ []) [] (2 ∷ [])
      two_orders-Holds (omega arith)

abbrev two_levels : LevelIndex
two_levels = record { levels = 3; entries = (pos 100, 0) ∷ (pos 102, 2) ∷ []; free = 1 ∷ [] }

two_levels-Sorted : Sorted false two_levels.entries
two_levels-Sorted = ((refl, tt), (tt, tt))

find-listed_example : find (pos 102) false two_levels ≡ listed (pos 102) two_levels.entries
find-listed_example = find-listed two_levels false (pos 102) two_levels-Sorted

insert-Sorted_example :
    (x : LevelIndex) × (insert (pos 101) false two_levels ≡ (ok (some 1), x))
    × (x.free ≡ [])
    × (x.levels ≡ 3)
    × Sorted false x.entries
    × ((q : PriceTicks)
        → listed q x.entries
          ≡ (if eq_price (pos 101) q then some 1 else listed q two_levels.entries))
insert-Sorted_example =
    insert-Sorted two_levels false (pos 101) 1 [] two_levels-Sorted refl refl (omega arith)

remove-Sorted_example :
    (x : LevelIndex) × (remove (pos 102) false two_levels ≡ (ok (some 2), x))
    × (x.free ≡ 2 ∷ 1 ∷ [])
    × (x.levels ≡ 3)
    × Sorted false x.entries
    × ((q : PriceTicks)
        → listed q x.entries ≡ (if eq_price (pos 102) q then none else listed q two_levels.entries))
remove-Sorted_example =
    remove-Sorted two_levels false (pos 102) 2 two_levels-Sorted refl (omega arith)

abbrev pub small_shape : Shape
small_shape = record { levels = 2; orders = 3 }

abbrev last_place : OrderLocation
last_place = record { side = sell; level_index = 1; slot = 2 }

decode-encode_location_example :
    (encoded : ℕ) × (encode_location small_shape last_place ≡ some encoded)
    × (0 < encoded)
    × (encoded < 13)
    × (decode_location small_shape encoded ≡ some last_place)
decode-encode_location_example =
    decode-encode_location small_shape last_place (omega arith) (omega arith) (omega arith)
