-- ===== src/Book/OrderBook/Plan/Conservation.antt =====
-- What the fills of makers in turn keep of the order: its limit price and its quantity.
use deterministic_exchange_r.Prelude.{ℕ, ◌-◌, List, [], ◌∷◌, ◌==◌, min, Bool-cases, inl, inr}
use deterministic_exchange_r.Types.{PriceTicks, Side}
use deterministic_exchange_r.Book.OrderBook.Plan.{FillEntry}
use deterministic_exchange_r.Book.OrderBook.Plan.Priority.{
  Maker, Acceptable, is_acceptable, is_acceptable-Acceptable, accepted, allot,
}

-- No fill is beyond the limit price of the order.
abbrev pub WithinLimit : Side → PriceTicks → List FillEntry → Type 0
WithinLimit side limit [] = Unit {0}
WithinLimit side limit (fill ∷ fills) =
    Acceptable side limit fill.price × WithinLimit side limit fills

abbrev AllAcceptable : Side → PriceTicks → List Maker → Type 0
AllAcceptable side limit [] = Unit {0}
AllAcceptable side limit (m ∷ ms) = Acceptable side limit m.price × AllAcceptable side limit ms

accepted-AllAcceptable :
    (side : Side) (limit : PriceTicks) (ms : List Maker)
    → AllAcceptable side limit (accepted side limit ms)
accepted-AllAcceptable side limit [] = tt
accepted-AllAcceptable side limit (m ∷ ms) = elim (Bool-cases (is_acceptable side limit m.price)) [
  | inl good ↦
      rw good
        (is_acceptable-Acceptable side limit m.price good, accepted-AllAcceptable side limit ms)
  | inr beyond ↦ rw beyond (accepted-AllAcceptable side limit ms)
]

allot-WithinLimit :
    (side : Side) (limit : PriceTicks) (wanted : ℕ) (ms : List Maker)
    → AllAcceptable side limit ms
    → WithinLimit side limit (allot wanted ms)
allot-WithinLimit side limit wanted [] h = tt
allot-WithinLimit side limit wanted (m ∷ ms) h = elim (Bool-cases (wanted == 0)) [
  | inl nothing ↦ rw nothing tt
  | inr more ↦
      rw more (h.0, allot-WithinLimit side limit (wanted - min wanted m.order.quantity) ms h.1)
]

pub allot-accepted :
    (side : Side) (limit : PriceTicks) (wanted : ℕ) (ms : List Maker)
    → WithinLimit side limit (allot wanted (accepted side limit ms))
allot-accepted side limit wanted ms =
    allot-WithinLimit side limit wanted (accepted side limit ms)
      (accepted-AllAcceptable side limit ms)
