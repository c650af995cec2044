-- ===== src/Book/OrderBook/Tests.antt =====
-- The book with the two sell orders, and orders, cancellations and replacements that it meets.
use deterministic_exchange_r.Prelude.{ℕ, ◌≡◌, refl, ◌⊎◌, [], ◌∷◌, none, some, arith}
use deterministic_exchange_r.Prelude.Int.{pos}
use deterministic_exchange_r.Prelude.Outcome.{ok, err}
use deterministic_exchange_r.Types.{
  buy, sell, gtc, post_only, NewOrder, CancelOrder, ReplaceOrder, RejectReason, not_order_owner,
  invalid_quantity, insufficient_liquidity, fok,
}
use deterministic_exchange_r.Types.Reports
use deterministic_exchange_r.Types.Reports.{ReportBuffer}
use deterministic_exchange_r.Risk.Index.{Table, insert_from, probe_start, advance, find_slot}
use deterministic_exchange_r.Book.Tests.{
  first_order, two_orders, two_cells, two_orders-Holds, small_shape,
}
use deterministic_exchange_r.Book.Level.{PriceLevel, get_live}
use deterministic_exchange_r.Book.Level.Queue.{Holds}
use deterministic_exchange_r.Book.LevelIndex
use deterministic_exchange_r.Book.OrderIndex
use deterministic_exchange_r.Book.OrderBook.{OrderBook, BookSide, new_side, locate, contains_order}
use deterministic_exchange_r.Book.OrderBook.Plan.{
  Walk, MatchPlan, validate_order, walk_level, walk_levels, push_fill, settle_remainder, build_plan,
}
use deterministic_exchange_r.Book.OrderBook.Plan.Priority.{Backed, makers, accepted, by_priority}
use deterministic_exchange_r.Book.OrderBook.Plan.Fifo.{walk_levels-by_priority}
use deterministic_exchange_r.Book.OrderBook.Plan.Decision.{
  Sound, Refused, best_makers, build_plan-Sound,
}
use deterministic_exchange_r.Book.OrderBook.Owned.{cancel, replace}
use deterministic_exchange_r.Book.OrderBook.Refusal.{cancel-refused, replace-refused}
use deterministic_exchange_r.Book.OrderBook.Submit.{Desk, try_single_fill, submit_plan, submit}
use deterministic_exchange_r.Book.OrderBook.Submit.Refusal.{submit-refused}
use deterministic_exchange_r.Book.OrderBook.Submit.Single.{expected, try_single_fill-submit_plan}
use deterministic_exchange_r.Book.OrderBook.Submit.PostOnly.{validate_order-post_only}

abbrev ask_side : BookSide
ask_side = record {
  slots = some two_orders ∷ none ∷ [];
  sorted = record { levels = 2; entries = (pos 100, 0) ∷ []; free = 1 ∷ [] };
}

-- the two orders, at their homes in the index
abbrev indexed : Table
indexed =
    (OrderIndex.insert small_shape
      (OrderIndex.insert small_shape (OrderIndex.new small_shape) 1
        (record { side = sell; level_index = 0; slot = 0 })).1
      2 (record { side = sell; level_index = 0; slot = 1 })).1

abbrev asks_at_100 : OrderBook
asks_at_100 = record {
  shape = small_shape;
  instrument = 4;
  bids = new_side 2;
  asks = ask_side;
  index = indexed;
}

abbrev buy_six : NewOrder
buy_six = record {
  order_id = 9;
  account_id = 5;
  instrument_id = 4;
  side = buy;
  price = pos 101;
  quantity = 6;
  time_in_force = gtc;
  sequence = 20;
}

asks-Backed : Backed ask_side ask_side.sorted.entries (two_cells ∷ [])
asks-Backed = ((two_orders, refl, (2 ∷ [], two_orders-Holds)), tt)

-- the same orders at a higher price
abbrev dearer_orders : PriceLevel
dearer_orders = record two_orders { price = pos 102 }

dearer_orders-Holds : Holds dearer_orders two_cells (2 ∷ [])
dearer_orders-Holds =
    let h = two_orders-Holds in
    record {
      chain = h.chain;
      free_chain = h.free_chain;
      distinct = h.distinct;
      no_repeat = h.no_repeat;
      counted = h.counted;
      len = h.len;
      aggregate = h.aggregate;
      fit = h.fit;
      small = h.small;
    }

abbrev two_prices : BookSide
two_prices = record {
  slots = some dearer_orders ∷ some two_orders ∷ [];
  sorted = record { levels = 2; entries = (pos 100, 1) ∷ (pos 102, 0) ∷ []; free = [] };
}

two_prices-Backed : Backed two_prices two_prices.sorted.entries (two_cells ∷ two_cells ∷ [])
two_prices-Backed = (
  (two_orders, refl, (2 ∷ [], two_orders-Holds)),
  ((dearer_orders, refl, (2 ∷ [], dearer_orders-Holds)), tt),
)

-- a buyer of 20 at 101 at most, who gets the 9 that are offered at 100
walk_levels-by_priority_example :
    walk_levels two_prices buy
      (pos 101)
      8
      two_prices.sorted.entries
      (record { fills = []; remaining = 20 })
    ≡ by_priority 8 20
        (accepted buy (pos 101) (makers two_prices.sorted.entries (two_cells ∷ two_cells ∷ [])))
walk_levels-by_priority_example =
    walk_levels-by_priority two_prices buy (pos 101) 8 20 two_prices.sorted.entries
      (two_cells ∷ two_cells ∷ []) two_prices-Backed ((refl, tt), (tt, tt))

build_plan-Sound_example :
    ((plan : MatchPlan) × (build_plan 8 asks_at_100 buy_six sell 7 ≡ ok plan)
      × Sound asks_at_100 buy_six [] (best_makers asks_at_100 buy_six (two_cells ∷ [])) 7 plan)
    ⊎ ((why : RejectReason) × (build_plan 8 asks_at_100 buy_six sell 7 ≡ err why)
        × Refused asks_at_100 buy_six [] (best_makers asks_at_100 buy_six (two_cells ∷ [])) 7 why)
unfolding new_side LevelIndex.new
build_plan-Sound_example =
    build_plan-Sound 8 7 asks_at_100 buy_six (two_cells ∷ []) [] asks-Backed (tt, tt) tt tt

-- account 8 asks for the order of account 7
abbrev cancel_first : CancelOrder
cancel_first = record { order_id = 1; account_id = 8; instrument_id = 4; sequence = 21 }

cancel_first-not_owner : (cancel cancel_first asks_at_100).0 ≡ err not_order_owner
unfolding cancel locate get_live OrderIndex.insert OrderIndex.location OrderIndex.new
    OrderIndex.encode_location OrderIndex.decode_location insert_from probe_start advance find_slot
cancel_first-not_owner = refl

cancel-refused_example : (cancel cancel_first asks_at_100).1 ≡ asks_at_100
cancel-refused_example =
    cancel-refused asks_at_100 cancel_first not_order_owner cancel_first-not_owner

-- its owner asks for an empty order
abbrev replace_first : ReplaceOrder
replace_first = record {
  order_id = 1;
  account_id = 7;
  instrument_id = 4;
  sequence = 22;
  price = pos 99;
  quantity = 0;
}

replace_first-empty : (replace replace_first asks_at_100).0 ≡ err invalid_quantity
unfolding replace locate get_live OrderIndex.insert OrderIndex.location OrderIndex.new
    OrderIndex.encode_location OrderIndex.decode_location insert_from probe_start advance find_slot
replace_first-empty = refl

replace-refused_example : (replace replace_first asks_at_100).1 ≡ asks_at_100
replace-refused_example =
    replace-refused asks_at_100 replace_first invalid_quantity replace_first-empty

abbrev desk : Desk
desk = (asks_at_100, record { entries = Reports.empty_report ∷ Reports.empty_report ∷ []; len = 0 })

-- 20 at once, where 9 are offered
abbrev buy_all : NewOrder
buy_all = record buy_six { quantity = 20; time_in_force = fok }

buy_all-short : (submit buy_all desk).0 ≡ err insufficient_liquidity
unfolding submit validate_order contains_order try_single_fill submit_plan build_plan walk_levels
    walk_level push_fill settle_remainder get_live Reports.remaining_capacity OrderIndex.insert
    OrderIndex.location OrderIndex.new OrderIndex.encode_location OrderIndex.decode_location
    insert_from probe_start advance find_slot
buy_all-short = refl

submit-refused_example : (submit buy_all desk).1 ≡ desk
submit-refused_example = submit-refused desk buy_all insufficient_liquidity buy_all-short

-- 3, which the first maker covers
abbrev buy_three : NewOrder
buy_three = record buy_six { quantity = 3 }

first_in_queue : get_live two_orders 0 ≡ some first_order
unfolding get_live
first_in_queue = refl

try_single_fill-submit_plan_example :
    expected (try_single_fill buy_three sell desk) ≡ submit_plan buy_three sell desk
try_single_fill-submit_plan_example =
    try_single_fill-submit_plan asks_at_100 buy_three sell (pos 100, 0) [] two_orders first_order
      refl refl first_in_queue refl refl (omega arith) refl desk.1

abbrev buy_below : NewOrder
buy_below = record buy_six { price = pos 99; time_in_force = post_only }

buy_below-valid : validate_order asks_at_100 buy_below ≡ ok sell
unfolding validate_order contains_order OrderIndex.insert OrderIndex.location OrderIndex.new
    OrderIndex.encode_location OrderIndex.decode_location insert_from probe_start advance find_slot
buy_below-valid = refl

validate_order-post_only_example :
    (try_single_fill buy_below sell desk ≡ (ok none, desk))
    × ((capacity : ℕ) (w : Walk)
        → walk_levels ask_side buy (pos 99) capacity ask_side.sorted.entries w ≡ ok w)
validate_order-post_only_example = validate_order-post_only desk buy_below sell buy_below-valid refl
