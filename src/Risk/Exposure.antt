-- ===== src/Risk/Exposure.antt =====
-- What the limit checks and the fills guarantee of one account.
use deterministic_exchange_r.Prelude.{ℕ, ◌+◌, ◌*◌, ◌≤◌, ◌≡◌, ap, ◌∙◌, false, arith, not, leb, ◌||◌}
use deterministic_exchange_r.Prelude.Int.{
  ℤ, pos, negsuc, pos_part, neg_part, ltb_ℤ, ◌+ℤ◌, ◌-ℤ◌, ◌≤ℤ◌,
}
use deterministic_exchange_r.Prelude.Words.{u32_mod, checked_add}
use deterministic_exchange_r.Prelude.Outcome.{ok, ◌>>=◌, ◌>>◌, guard, ok_or, guard_then, >>=-eq-ok}
use deterministic_exchange_r.Types.{
  Side, buy, sell, NewOrder, arithmetic_overflow, open_order_limit,
}
use deterministic_exchange_r.Risk.Accounts.{AccountState}
use deterministic_exchange_r.Risk.Limits.{
  Reserved, add_reserved, sub_reserved, check_notional, check_position, evaluate_limits,
  exposure_after_fill,
}

abbrev pub magnitude : ℤ → ℕ
magnitude (pos n) = n
magnitude (negsuc n) = n + 1

-- Whatever of the reserved orders fills, the position stays between -max and max.
abbrev pub WithinPosition : ℕ → ℤ → ℕ → ℕ → Type 0
WithinPosition max settled buys sells =
    (pos_part settled + buys ≤ max + neg_part settled)
    × (neg_part settled + sells ≤ max + pos_part settled)

-- the reserved totals with a quantity added on a side
abbrev pub added : Side → AccountState → ℕ → Reserved
added buy a q = (a.reserved_buys + q, a.reserved_sells)
added sell a q = (a.reserved_buys, a.reserved_sells + q)

check_position-Within :
    (a : AccountState) (r : Reserved)
    → check_position a r ≡ ok tt
    → WithinPosition a.limits.max_abs_position a.settled_position r.0 r.1
unfolding check_position ◌+ℤ◌ ◌-ℤ◌
check_position-Within a r h = ground arith

add_reserved_lem :
    (a : AccountState) (side : Side) (q : ℕ) {r : Reserved}
    → add_reserved a side q ≡ ok r
    → r ≡ added side a q
unfolding add_reserved
add_reserved_lem a buy q h = ground arith
add_reserved_lem a sell q h = ground arith

check_notional-le :
    (a : AccountState) (price : ℤ) (q : ℕ)
    → check_notional a price q ≡ ok tt
    → magnitude price * q ≤ a.limits.max_notional
unfolding check_notional
check_notional-le a (pos n) q h = ground arith
check_notional-le a (negsuc n) q h = ground arith

-- The end of the check: one more open order, and the totals that are returned.
open_orders_then :
    (a : AccountState) (r : Reserved) {totals : ℕ × ℕ × ℕ}
    → (ok_or (checked_add u32_mod a.open_orders 1) arithmetic_overflow >>= λ n.
        guard (leb n a.limits.max_open_orders) open_order_limit >> ok (r.0, r.1, n))
      ≡ ok totals
    → ((a.open_orders + 1) ≤ a.limits.max_open_orders) × (totals ≡ (r.0, r.1, a.open_orders + 1))
open_orders_then a r h = ground arith

-- What acceptance means, and the totals that it returns: reserved buys, reserved sells, open orders.
pub record Affordable (a : AccountState) (o : NewOrder) (totals : ℕ × ℕ × ℕ) : Type 0 where
  pub alive : a.killed ≡ false
  pub size : o.quantity ≤ a.limits.max_quantity
  pub floor : a.limits.minimum_price ≤ℤ o.price
  pub ceiling : o.price ≤ℤ a.limits.maximum_price
  pub notional : magnitude o.price * o.quantity ≤ a.limits.max_notional
  pub buys : totals.0 ≡ (added o.side a o.quantity).0
  pub sells : totals.1 ≡ (added o.side a o.quantity).1
  pub position : WithinPosition a.limits.max_abs_position a.settled_position totals.0 totals.1
  pub opened : totals.2 ≡ a.open_orders + 1
  pub slots : totals.2 ≤ a.limits.max_open_orders

-- An order that passes `evaluate_limits` breaks none of the account's limits, in the worst case of
-- all its reserved orders on one side filling too, and the totals returned are the old ones with
-- this order added.
pub evaluate_limits-Affordable :
    (a : AccountState) (o : NewOrder) {totals : ℕ × ℕ × ℕ}
    → evaluate_limits a o ≡ ok totals
    → Affordable a o totals
unfolding evaluate_limits
evaluate_limits-Affordable a o {totals} h =
    let (alive, h1) = guard_then (not a.killed) _ _ h in
    let (size, h2) = guard_then (leb o.quantity a.limits.max_quantity) _ _ h1 in
    let (collar, h3) =
      guard_then
        (not (ltb_ℤ o.price a.limits.minimum_price || ltb_ℤ a.limits.maximum_price o.price)) _ _
        h2 in
    let (u, is_notional, h4) = >>=-eq-ok (check_notional a o.price o.quantity) _ h3 in
    let (r, is_reserved, h5) = >>=-eq-ok (add_reserved a o.side o.quantity) _ h4 in
    let (v, is_within, h6) = >>=-eq-ok (check_position a r) _ h5 in
    let reserved = add_reserved_lem a o.side o.quantity is_reserved in
    let within = check_position-Within a r is_within in
    let notional = check_notional-le a o.price o.quantity is_notional in
    let (slots, returned) = open_orders_then a r h6 in
    let t0 = ap (λ t. t.0) returned in
    let t1 = ap (λ t. t.1) returned in
    record {
      alive = ground arith;
      size = ground arith;
      floor = ground arith;
      ceiling = ground arith;
      notional = notional;
      buys = t0 ∙ ap (λ x. x.0) reserved;
      sells = t1 ∙ ap (λ x. x.1) reserved;
      position = rw (t0, t1) within;
      opened = ap (λ t. t.2) returned;
      slots = rw returned slots;
    }

-- A fill of no more than is released, when it succeeds, keeps an account within its position limit
-- that was within it before.
pub exposure_after_fill-Within :
    (a : AccountState) (side : Side) (filled released : ℕ) {settled : ℤ} {buys sells : ℕ}
    → filled ≤ released
    → WithinPosition a.limits.max_abs_position a.settled_position a.reserved_buys a.reserved_sells
    → exposure_after_fill a side filled released ≡ ok (settled, buys, sells)
    → WithinPosition a.limits.max_abs_position settled buys sells
unfolding exposure_after_fill sub_reserved ◌+ℤ◌ ◌-ℤ◌
exposure_after_fill-Within a buy filled released h w e = ground arith
exposure_after_fill-Within a sell filled released h w e = ground arith
