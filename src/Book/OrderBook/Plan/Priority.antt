-- ===== src/Book/OrderBook/Plan/Priority.antt =====
-- Price-time priority, told without the book: all the makers in turn, those that the order's limit
-- price accepts, and what each of them gives.
use deterministic_exchange_r.Prelude.{
  ℕ, ◌+◌, ◌-◌, ◌≡◌, refl, sym, ap, ◌∙◌, List, [], ◌∷◌, ◌++◌, Bool, true, some, ltb, leb, ◌==◌,
  if◌then◌else◌, get_elem?, length, min, Bool-cases, inl, inr, arith,
}
use deterministic_exchange_r.Prelude.Int.{pos_part, neg_part, ◌≤ℤ◌}
use deterministic_exchange_r.Prelude.Outcome.{Outcome, ok, err}
use deterministic_exchange_r.Types.{PriceTicks, Side, buy, sell, RejectReason, report_capacity}
use deterministic_exchange_r.Book.Level.{RestingOrder, PriceLevel}
use deterministic_exchange_r.Book.Level.Segment.{Cells}
use deterministic_exchange_r.Book.Level.Queue.{Refines}
use deterministic_exchange_r.Book.LevelIndex.{Entry}
use deterministic_exchange_r.Book.OrderBook.{BookSide}
use deterministic_exchange_r.Book.OrderBook.Plan.{FillEntry, Walk}

-- Each entry's level is there, and holds its queue.
abbrev pub Backed : BookSide → List Entry → List Cells → Type 0
Backed s [] [] = Unit {0}
Backed s (e ∷ es) (cells ∷ queues) =
    ((l : PriceLevel) × (get_elem? s.slots e.1 ≡ some (some l)) × Refines l cells)
    × Backed s es queues
Backed s _ _ = ⊥

pub record Maker : Type 0 where
  pub level : ℕ
  pub price : PriceTicks
  pub slot : ℕ
  pub order : RestingOrder

-- One queue, first to last.
abbrev pub makers_at : ℕ → PriceTicks → Cells → List Maker
makers_at level price [] = []
makers_at level price ((slot, order) ∷ cells) =
    record { level = level; price = price; slot = slot; order = order }
    ∷ makers_at level price cells

-- All the queues, in the order of the entries.
abbrev pub makers : List Entry → List Cells → List Maker
makers (e ∷ es) (cells ∷ queues) = makers_at e.1 e.0 cells ++ makers es queues
makers _ _ = []

-- A buyer pays the limit price at most, a seller takes it at least.
abbrev pub Acceptable : Side → PriceTicks → PriceTicks → Type 0
Acceptable buy limit price = price ≤ℤ limit
Acceptable sell limit price = limit ≤ℤ price

abbrev le_ℤ : PriceTicks → PriceTicks → Bool
le_ℤ a b = leb (pos_part a + neg_part b) (pos_part b + neg_part a)

abbrev pub is_acceptable : Side → PriceTicks → PriceTicks → Bool
is_acceptable buy limit price = le_ℤ price limit
is_acceptable sell limit price = le_ℤ limit price

pub is_acceptable-Acceptable :
    (side : Side) (limit price : PriceTicks)
    → is_acceptable side limit price ≡ true
    → Acceptable side limit price
is_acceptable-Acceptable buy limit price h = ground (arith, h)
is_acceptable-Acceptable sell limit price h = ground (arith, h)

abbrev pub accepted : Side → PriceTicks → List Maker → List Maker
accepted side limit [] = []
accepted side limit (m ∷ ms) =
    if is_acceptable side limit m.price then m ∷ accepted side limit ms else accepted side limit ms

-- Each maker gives what it has, until nothing is wanted.
abbrev pub allot : ℕ → List Maker → List FillEntry
allot wanted [] = []
allot wanted (m ∷ ms) =
    if wanted == 0
    then []
    else (let given = min wanted m.order.quantity in
        record {
          level_index = m.level;
          slot = m.slot;
          order_id = m.order.id;
          price = m.price;
          quantity = given;
        }
        ∷ allot (wanted - given) ms)

abbrev pub traded : List FillEntry → ℕ
traded [] = 0
traded (fill ∷ fills) = fill.quantity + traded fills

abbrev pub supply : List Maker → ℕ
supply [] = 0
supply (m ∷ ms) = m.order.quantity + supply ms

-- The walk of an order for `wanted`: the fills, if they are no more than the room for reports.
abbrev pub by_priority : ℕ → ℕ → List Maker → Outcome RejectReason Walk
by_priority capacity wanted ms =
    let fills = allot wanted ms in
    if ltb capacity (length fills)
    then err report_capacity
    else ok (record { fills = fills; remaining = wanted - supply ms })

pub traded-append : (xs ys : List FillEntry) → traded (xs ++ ys) ≡ traded xs + traded ys
traded-append [] ys = omega arith
traded-append (f ∷ xs) ys = omega (arith, traded-append xs ys)

pub allot-zero : (ms : List Maker) → allot 0 ms ≡ []
allot-zero [] = refl
allot-zero (m ∷ ms) = refl

-- The fills give what is wanted, or all that there is.
pub traded-allot :
    (wanted : ℕ) (ms : List Maker) → traded (allot wanted ms) ≡ min wanted (supply ms)
traded-allot wanted [] = omega arith
traded-allot wanted (m ∷ ms) = elim (Bool-cases (wanted == 0)) [
  | inl nothing ↦
      let none_wanted : wanted ≡ 0 = ground (arith, nothing) in
      rw nothing (omega (arith, none_wanted))
  | inr more ↦
      let rest = traded-allot (wanted - min wanted m.order.quantity) ms in
      rw more (omega (arith, rest))
]

pub allot-append :
    (wanted : ℕ) (xs ys : List Maker)
    → allot wanted (xs ++ ys) ≡ allot wanted xs ++ allot (wanted - traded (allot wanted xs)) ys
allot-append wanted [] ys =
    let same : wanted ≡ wanted - 0 = omega arith in ap (λ k. allot k ys) same
allot-append wanted (m ∷ xs) ys = elim (Bool-cases (wanted == 0)) [
  | inl nothing ↦
      let none_left : 0 ≡ wanted - 0 = ground (arith, nothing) in
      rw nothing (rw (← none_left) (sym (allot-zero ys)))
  | inr more ↦
      let given = min wanted m.order.quantity in
      let rest = allot (wanted - given) xs in
      let left : wanted - given - traded rest ≡ wanted - (given + traded rest) = omega arith in
      let fill : FillEntry = record {
        level_index = m.level;
        slot = m.slot;
        order_id = m.order.id;
        price = m.price;
        quantity = given;
      } in
      rw more (
        ap (λ fills. fill ∷ fills)
          (allot-append (wanted - given) xs ys ∙ ap (λ k. rest ++ allot k ys) left))
]
