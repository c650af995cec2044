-- ===== src/Risk/Engine/Restored.antt =====
-- What the checks before a restore establish of each account.
use deterministic_exchange_r.Prelude.{
  ℕ, ◌+◌, ◌≤◌, ◌≡◌, List, [], ◌∷◌, ◌&&◌, leb, ◌==◌, if◌then◌else◌, Bool-cases, inl, inr, arith,
}
use deterministic_exchange_r.Prelude.Int.{◌+ℤ◌, ◌-ℤ◌}
use deterministic_exchange_r.Prelude.Words.{u32_mod, checked_add}
use deterministic_exchange_r.Prelude.Outcome.{ok, ok_or, guard_then, >>=-eq-ok}
use deterministic_exchange_r.Types.{Side, buy, sell, AccountId}
use deterministic_exchange_r.Risk.Exposure.{WithinPosition}
use deterministic_exchange_r.Risk.Engine.Snapshot.{
  AccountRiskState, ReservationRiskState, RiskStateError, arithmetic_overflow, add_side,
  reserved_totals, check_exposure, validate_account_state,
}

-- What an order of a side adds to the buys, and to the sells.
abbrev pub buy_part : Side → ℕ → ℕ
buy_part buy q = q
buy_part sell q = 0

abbrev pub sell_part : Side → ℕ → ℕ
sell_part buy q = 0
sell_part sell q = q

-- The sum of a part over the reservations of an account.
unfoldable pub total : (ReservationRiskState → ℕ) → AccountId → List ReservationRiskState → ℕ
total part id [] = 0
total part id (r ∷ rest) =
    if r.account_id == id then part r + total part id rest else total part id rest

abbrev pub total_buys : AccountId → List ReservationRiskState → ℕ
total_buys = total (λ r. buy_part r.side r.quantity)

abbrev pub total_sells : AccountId → List ReservationRiskState → ℕ
total_sells = total (λ r. sell_part r.side r.quantity)

abbrev pub total_orders : AccountId → List ReservationRiskState → ℕ
total_orders = total (λ r. 1)

add_side_lem :
    (side : Side) (buys sells q : ℕ) {r : ℕ × ℕ}
    → add_side side buys sells q ≡ ok r
    → (r.0 ≡ buys + buy_part side q) × (r.1 ≡ sells + sell_part side q)
unfolding add_side
add_side_lem buy buys sells q h = ground arith
add_side_lem sell buys sells q h = ground arith

one_more :
    (n : ℕ) {m : ℕ}
    → ok_or {E = RiskStateError} (checked_add u32_mod n 1) arithmetic_overflow ≡ ok m
    → m ≡ n + 1
one_more n h = ground arith

reserved_totals_lem :
    (id : AccountId) (buys sells orders : ℕ) (rs : List ReservationRiskState) {t : ℕ × ℕ × ℕ}
    → reserved_totals id buys sells orders rs ≡ ok t
    → (t.0 ≡ buys + total_buys id rs)
      × (t.1 ≡ sells + total_sells id rs)
      × (t.2 ≡ orders + total_orders id rs)
unfolding reserved_totals total
reserved_totals_lem id buys sells orders [] h = ground arith
reserved_totals_lem id buys sells orders (r ∷ rs) h = elim (Bool-cases (r.account_id == id)) [
  | inl own ↦
      let h1 = rw (reserved_totals, own) at h in
      let (reserved, is_added, h2) = >>=-eq-ok (add_side r.side buys sells r.quantity) _ h1 in
      let (more, is_more, h3) =
        >>=-eq-ok (ok_or (checked_add u32_mod orders 1) arithmetic_overflow) _ h2 in
      let (b, s) = add_side_lem r.side buys sells r.quantity is_added in
      let (tb, ts, to) = reserved_totals_lem id reserved.0 reserved.1 more rs h3 in
      let m = one_more orders is_more in
      rw own (
        omega (arith, b, s, tb, ts, to, m),
        omega (arith, b, s, tb, ts, to, m),
        omega (arith, b, s, tb, ts, to, m),
      )
  | inr other ↦
      let h1 = rw (reserved_totals, other) at h in
      rw other (reserved_totals_lem id buys sells orders rs h1)
]

check_exposure-Within :
    (a : AccountRiskState) (buys sells : ℕ)
    → check_exposure a buys sells ≡ ok tt
    → WithinPosition a.limits.max_abs_position a.settled_position buys sells
unfolding check_exposure ◌+ℤ◌ ◌-ℤ◌
check_exposure-Within a buys sells h = ground arith

-- An account that passes the check of a restored state carries exactly the buys, sells and open
-- orders of its reservations, no more orders than its limit, and stays within its position limit
-- whichever side fills.
pub validate_account_state-Within :
    (a : AccountRiskState) (rs : List ReservationRiskState)
    → validate_account_state rs a ≡ ok tt
    → (a.reserved_buys ≡ total_buys a.id rs)
      × (a.reserved_sells ≡ total_sells a.id rs)
      × (a.open_orders ≡ total_orders a.id rs)
      × (a.open_orders ≤ a.limits.max_open_orders)
      × WithinPosition a.limits.max_abs_position a.settled_position a.reserved_buys a.reserved_sells
unfolding validate_account_state
validate_account_state-Within a rs h =
    let (t, is_total, h1) = >>=-eq-ok (reserved_totals a.id 0 0 0 rs) _ h in
    let (same, h2) = guard_then (t.0 == a.reserved_buys && t.1 == a.reserved_sells) _ _ h1 in
    let (orders, h3) =
      guard_then (t.2 == a.open_orders && leb t.2 a.limits.max_open_orders) _ _ h2 in
    let (tb, ts, to) = reserved_totals_lem a.id 0 0 0 rs is_total in
    let within = check_exposure-Within a t.0 t.1 h3 in
    let buys : t.0 ≡ a.reserved_buys = ground (arith, same) in
    let sells : t.1 ≡ a.reserved_sells = ground (arith, same) in
    let count : t.2 ≡ a.open_orders = ground (arith, orders) in
    let limit : t.2 ≤ a.limits.max_open_orders = ground (arith, orders) in
    (
      omega (arith, tb, buys),
      omega (arith, ts, sells),
      omega (arith, to, count),
      omega (arith, count, limit),
      rw (buys, sells) at within,
    )
