-- ===== src/Book/OrderBook/Submit/Take.antt =====
-- The two ways to reduce a maker: in place, as a single fill does, and by `reduce_quantity`, as a plan.
use deterministic_exchange_r.Prelude.{
  ℕ, ◌≡◌, refl, inl, inr, none, some, ltb, leb, Bool-cases, Option-cases,
}
use deterministic_exchange_r.Prelude.Outcome
use deterministic_exchange_r.Prelude.Outcome.{Outcome, ok, err, panic, unwrap, outcome-cases}
use deterministic_exchange_r.Prelude.Effect.{◌>>=◌, return}
use deterministic_exchange_r.Types.{Quantity, Side, RejectReason}
use deterministic_exchange_r.Book.Level.{PriceLevel, live_at, reduce_quantity}
use deterministic_exchange_r.Book.OrderBook.{OrderBook, side_of, occupied_level, on_level, expect}
use deterministic_exchange_r.Book.OrderBook.Submit.{Desk, take_from}

-- Going on with nothing changes nothing.
pub returned :
    (r : Outcome RejectReason (Unit {0}) × Desk)
    → ((λ _. r) >>= (λ (_ : Unit {0}). return tt) >>= (λ (_ : Unit {0}). return tt)) r.1 ≡ r
returned (ok tt, d) = refl
returned (err why, d) = refl
returned (panic, d) = refl

pub returned_once :
    (r : Outcome RejectReason (Unit {0}) × Desk)
    → ((λ _. r) >>= (λ (_ : Unit {0}). return tt)) r.1 ≡ r
returned_once (ok tt, d) = refl
returned_once (err why, d) = refl
returned_once (panic, d) = refl

-- The direct writes to the maker are those of `reduce_quantity`, whose answer nothing becomes a panic.
take_from-reduce_quantity :
    (slot : ℕ) (quantity : Quantity) (l : PriceLevel)
    → take_from slot quantity l ≡ (
      Outcome.◌>>=◌ (reduce_quantity slot quantity l).0 unwrap,
      (reduce_quantity slot quantity l).1,
    )
unfolding take_from reduce_quantity
take_from-reduce_quantity slot quantity l = elim (Option-cases (live_at l.slots slot)) [
  | inl nobody ↦ rw (take_from, reduce_quantity, nobody) refl
  | inr (maker, here) ↦ elim (Bool-cases (ltb maker.quantity quantity)) [
    | inl short ↦ rw (take_from, reduce_quantity, here, short) refl
    | inr covers ↦ elim (Bool-cases (leb quantity l.aggregate_quantity)) [
      | inl fits ↦ rw (take_from, reduce_quantity, here, covers, fits) refl
      | inr past ↦ rw (take_from, reduce_quantity, here, covers, past) refl
    ]
  ]
]

-- So on the book a plan's `reduce_quantity(..).expect(..)` writes what a single fill writes.
pub take_from_expected :
    (side : Side) (i slot : ℕ) (quantity : Quantity) (b : OrderBook)
    → expect (on_level side i (reduce_quantity slot quantity)) b
      ≡ on_level side i (take_from slot quantity) b
take_from_expected side i slot quantity b =
    elim (outcome-cases (occupied_level {E = RejectReason} (side_of b side) i)) [
      | inl (l, there) ↦
          let same = take_from-reduce_quantity slot quantity l in
          elim (outcome-cases (reduce_quantity slot quantity l).0) [
            | inl (some _, done) ↦ rw (on_level, there, same, done) refl
            | inl (none, nobody) ↦ rw (on_level, there, same, nobody) refl
            | inr (inl (_, failed)) ↦ rw (on_level, there, same, failed) refl
            | inr (inr stuck) ↦ rw (on_level, there, same, stuck) refl
          ]
      | inr (inl (_, failed)) ↦ rw (on_level, failed) refl
      | inr (inr stuck) ↦ rw (on_level, stuck) refl
    ]
