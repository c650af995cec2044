-- ===== src/Book/Level.antt =====
-- `PriceLevel`: the orders at one price, first in first out, as a doubly linked list threaded
-- through fixed slots; the free slots are linked in a second list. An overflow of `len` or
-- `aggregate_quantity`, which the debug profile traps, is a panic.
pub mod Segment
pub mod Links
pub mod Cells
pub mod Queue
pub mod Unlink
pub mod Visit
pub mod Fresh
use deterministic_exchange_r.Prelude.{
  ℕ, zero, suc, ◌+◌, ◌-◌, ◌^◌, List, [], ◌∷◌, Bool, true, false, not, ◌||◌, ◌&&◌, Option, none,
  some, ltb, leb, ◌==◌, if◌then◌else◌, get_elem?, set, length,
}
use deterministic_exchange_r.Prelude.Words.{u64_mod, u128_mod}
use deterministic_exchange_r.Prelude.Outcome.{Outcome, ok, err, panic}
use deterministic_exchange_r.Prelude.Effect.{Effect}
use deterministic_exchange_r.Types.{
  OrderId, AccountId, PriceTicks, Quantity, SequenceNumber, RejectReason,
}

abbrev pub nil : ℕ
nil = 2 ^ 64 - 1

pub record RestingOrder : Type 0 where
  pub id : OrderId
  pub account_id : AccountId
  pub index_slot : ℕ
  pub quantity : Quantity
  pub sequence : SequenceNumber
  pub prev : ℕ
  pub next : ℕ

pub data OrderSlot : Type 0 where
  free : ℕ → OrderSlot
  live : RestingOrder → OrderSlot

-- ORDERS is the length of `slots`.
pub record PriceLevel : Type 0 where
  pub price : PriceTicks
  pub aggregate_quantity : ℕ
  pub slots : List OrderSlot
  pub head : ℕ
  pub tail : ℕ
  pub free_head : ℕ
  pub len : ℕ

abbrev pub LevelCall : Type 0 → Type 0
LevelCall A = Effect PriceLevel RejectReason A

-- The free list of a new level, from an index on, over the slots that are left.
abbrev pub free_from : ℕ → ℕ → ℕ → List OrderSlot
free_from orders i zero = []
free_from orders i (suc n) =
    free (if ltb (i + 1) orders then i + 1 else nil) ∷ free_from orders (i + 1) n

unfoldable pub new : ℕ → PriceTicks → PriceLevel
new orders price = record {
  price = price;
  aggregate_quantity = 0;
  slots = free_from orders 0 orders;
  head = nil;
  tail = nil;
  free_head = if orders == 0 then nil else 0;
  len = 0;
}

abbrev pub live_at : List OrderSlot → ℕ → Option RestingOrder
live_at slots i = elim (get_elem? slots i) [
  | some (live order) ↦ some order
  | some (free _) ↦ none
  | none ↦ none
]

abbrev pub free_at : List OrderSlot → ℕ → Option ℕ
free_at slots i = elim (get_elem? slots i) [
  | some (free next) ↦ some next
  | some (live _) ↦ none
  | none ↦ none
]

-- `get_live`
unfoldable pub get_live : PriceLevel → ℕ → Option RestingOrder
get_live l i = live_at l.slots i

abbrev pub set_next : List OrderSlot → ℕ → ℕ → List OrderSlot
set_next slots i next = elim (live_at slots i) [
  | some order ↦ set slots i (live (record order { next = next }))
  | none ↦ slots
]

abbrev pub set_prev : List OrderSlot → ℕ → ℕ → List OrderSlot
set_prev slots i prev = elim (live_at slots i) [
  | some order ↦ set slots i (live (record order { prev = prev }))
  | none ↦ slots
]

abbrev pub is_live : List OrderSlot → ℕ → Bool
is_live slots i = elim (live_at slots i) [ some _ ↦ true | none ↦ false ]

-- The writes of `push_tail`, once its tests have passed.
abbrev pub append_at : ℕ → ℕ → RestingOrder → PriceLevel → PriceLevel
append_at slot next_free order l =
    let linked = if l.tail == nil then l.slots else set_next l.slots l.tail slot in
    record l {
      slots = set linked slot (live (record order { prev = l.tail; next = nil }));
      free_head = next_free;
      head = if l.tail == nil then slot else l.head;
      tail = slot;
      len = l.len + 1;
      aggregate_quantity = l.aggregate_quantity + order.quantity;
    }

unfoldable pub push_tail : RestingOrder → LevelCall (Option ℕ)
push_tail order l =
    if l.free_head == nil || leb (length l.slots) l.len
    then (ok none, l)
    else elim (free_at l.slots l.free_head) [
      | none ↦ (ok none, l)
      | some next_free ↦
          if not (l.tail == nil) && not (is_live l.slots l.tail)
          then (ok none, l)
          else if ltb (l.aggregate_quantity + order.quantity) u128_mod && ltb (l.len + 1) u64_mod
          then (ok (some l.free_head), append_at l.free_head next_free order l)
          else (panic, l)
    ]

-- The writes of `unlink`, once its tests have passed.
abbrev pub detach : ℕ → RestingOrder → PriceLevel → PriceLevel
detach slot order l =
    let slots1 = if order.prev == nil then l.slots else set_next l.slots order.prev order.next in
    let slots2 = if order.next == nil then slots1 else set_prev slots1 order.next order.prev in
    record l {
      head = if order.prev == nil then order.next else l.head;
      tail = if order.next == nil then order.prev else l.tail;
      slots = set slots2 slot (free l.free_head);
      free_head = slot;
      len = l.len - 1;
      aggregate_quantity = l.aggregate_quantity - order.quantity;
    }

unfoldable pub unlink : ℕ → LevelCall (Option RestingOrder)
unlink slot l = elim (live_at l.slots slot) [
  | none ↦ (ok none, l)
  | some order ↦
      if not (order.prev == nil) && not (is_live l.slots order.prev)
      then (ok none, l)
      else if not (order.next == nil) && not (is_live l.slots order.next)
      then (ok none, l)
      else if leb 1 l.len && leb order.quantity l.aggregate_quantity
      then (ok (some order), detach slot order l)
      else (panic, l)
]

unfoldable pub reduce_quantity : ℕ → Quantity → LevelCall (Option (Unit {0}))
reduce_quantity slot quantity l = elim (live_at l.slots slot) [
  | none ↦ (ok none, l)
  | some order ↦
      if ltb order.quantity quantity
      then (ok none, l)
      else (let reduced = record l {
        slots = set l.slots slot (live (record order { quantity = order.quantity - quantity }));
      } in
          if leb quantity l.aggregate_quantity
          then (
            ok (some tt),
            record reduced { aggregate_quantity = l.aggregate_quantity - quantity },
          )
          else (panic, reduced))
]

-- The orders that the loop of `for_each_live` visits from a cursor, on fuel.
unfoldable pub visited : ℕ → List OrderSlot → ℕ → Option (List RestingOrder)
visited zero slots cursor = none
visited (suc fuel) slots cursor = if cursor == nil then some [] else elim (live_at slots cursor) [
  | none ↦ some []
  | some order ↦ elim (visited fuel slots order.next) [
    | none ↦ none
    | some rest ↦ some (order ∷ rest)
  ]
]

unfoldable pub for_each_live : PriceLevel → Option (List RestingOrder)
unfolding visited
for_each_live l = visited (length l.slots + 1) l.slots l.head
