-- ===== src/Risk/Engine/Snapshot.antt =====
-- What is exported of a risk engine, the checks before it is restored, and `account_snapshot`.
use deterministic_exchange_r.Prelude.{
  ℕ, List, [], ◌∷◌, Bool, true, false, not, ◌||◌, ◌&&◌, Option, none, some, ltb, leb, ◌==◌,
  if◌then◌else◌, get_elem?, length,
}
use deterministic_exchange_r.Prelude.Int.{ℤ, pos, ltb_ℤ, ◌-ℤ◌}
use deterministic_exchange_r.Prelude.Words.{
  u32_mod, u128_mod, checked_add, checked_add_i128, checked_sub_i128, i128_of_unsigned,
}
use deterministic_exchange_r.Prelude.Outcome.{Outcome, ok, ◌>>=◌, ◌>>◌, guard, ok_or, unwrap}
use deterministic_exchange_r.Types.{OrderId, AccountId, Quantity, Side, buy, sell}
use deterministic_exchange_r.Risk.Accounts.{RiskLimits, AccountState, ReservationSlot, free, live}
use deterministic_exchange_r.Risk.Engine.{RiskEngine, account_slot, limits_invalid}

pub record AccountRiskState : Type 0 where
  pub id : AccountId
  pub limits : RiskLimits
  pub settled_position : ℤ
  pub reserved_buys : ℕ
  pub reserved_sells : ℕ
  pub open_orders : ℕ
  pub killed : Bool

pub record ReservationRiskState : Type 0 where
  pub order_id : OrderId
  pub account_id : AccountId
  pub side : Side
  pub quantity : Quantity

pub record RiskEngineState : Type 0 where
  pub accounts : List AccountRiskState
  pub reservations : List ReservationRiskState
  pub maximum_order_id : Option OrderId
  pub killed : Bool

pub data RiskStateError : Type 0 where
  account_capacity reservation_capacity duplicate_account duplicate_order : RiskStateError
  non_canonical invalid_limits unknown_account invalid_watermark : RiskStateError
  exposure_mismatch open_order_mismatch position_limit arithmetic_overflow : RiskStateError
  invalid_quantity : RiskStateError

-- `sort_unstable_by_key`, on keys that differ
module _ {A : Type 0} (key : A → ℕ) where
  abbrev pub insert_by : A → List A → List A
  insert_by x [] = x ∷ []
  insert_by x (y ∷ ys) = if leb (key x) (key y) then x ∷ y ∷ ys else y ∷ insert_by x ys

  abbrev pub sort_by : List A → List A
  sort_by [] = []
  sort_by (x ∷ xs) = insert_by x (sort_by xs)

abbrev pub exported_account : AccountState → AccountRiskState
exported_account a = record {
  id = a.id;
  limits = a.limits;
  settled_position = a.settled_position;
  reserved_buys = a.reserved_buys;
  reserved_sells = a.reserved_sells;
  open_orders = a.open_orders;
  killed = a.killed;
}

abbrev pub exported_accounts : List (Option AccountState) → List AccountRiskState
exported_accounts [] = []
exported_accounts (none ∷ rest) = exported_accounts rest
exported_accounts (some a ∷ rest) = exported_account a ∷ exported_accounts rest

abbrev pub exported_reservations : List ReservationSlot → List ReservationRiskState
exported_reservations [] = []
exported_reservations (free _ ∷ rest) = exported_reservations rest
exported_reservations (live r ∷ rest) =
    record {
      order_id = r.order_id;
      account_id = r.account_id;
      side = r.side;
      quantity = r.quantity;
    }
    ∷ exported_reservations rest

unfoldable pub export_state : RiskEngine → RiskEngineState
export_state e = record {
  accounts = sort_by (λ a. a.id) (exported_accounts e.accounts);
  reservations = sort_by (λ r. r.order_id) (exported_reservations e.reservations);
  maximum_order_id = e.maximum_order_id;
  killed = e.killed;
}

abbrev pub Check : Type 0
Check = Outcome RiskStateError (Unit {0})

-- The loop over `windows(2)`: each key below the next.
unfoldable pub check_ascending : List ℕ → RiskStateError → Check
check_ascending [] duplicate = ok tt
check_ascending (k ∷ []) duplicate = ok tt
check_ascending (k ∷ k2 ∷ rest) duplicate =
    guard (not (k == k2)) duplicate
    >> guard (not (ltb k2 k)) non_canonical
    >> check_ascending (k2 ∷ rest) duplicate

-- The `match reservation.side` of the loop: buys, then sells.
unfoldable pub add_side : Side → ℕ → ℕ → ℕ → Outcome RiskStateError (ℕ × ℕ)
add_side buy buys sells quantity = do
  buys' ← ok_or (checked_add u128_mod buys quantity) arithmetic_overflow
  ok (buys', sells)
add_side sell buys sells quantity = do
  sells' ← ok_or (checked_add u128_mod sells quantity) arithmetic_overflow
  ok (buys, sells')

-- The totals over the account's reservations: buys, sells, and how many there are.
unfoldable pub reserved_totals :
    AccountId → ℕ → ℕ → ℕ → List ReservationRiskState → Outcome RiskStateError (ℕ × ℕ × ℕ)
unfolding add_side
reserved_totals id buys sells open_orders [] = ok (buys, sells, open_orders)
reserved_totals id buys sells open_orders (r ∷ rest) =
    if r.account_id == id
    then (do
      reserved ← add_side r.side buys sells r.quantity
      more ← ok_or (checked_add u32_mod open_orders 1) arithmetic_overflow
      reserved_totals id reserved.0 reserved.1 more rest)
    else reserved_totals id buys sells open_orders rest

-- The end of the check: the worst case on either side.
unfoldable pub check_exposure : AccountRiskState → ℕ → ℕ → Check
check_exposure account reserved_buys reserved_sells = do
  buys ← ok_or (i128_of_unsigned reserved_buys) arithmetic_overflow
  sells ← ok_or (i128_of_unsigned reserved_sells) arithmetic_overflow
  worst_long ← ok_or (checked_add_i128 account.settled_position buys) arithmetic_overflow
  worst_short ← ok_or (checked_sub_i128 account.settled_position sells) arithmetic_overflow
  let maximum = account.limits.max_abs_position
  guard (not (ltb_ℤ (pos maximum) worst_long || ltb_ℤ worst_short (pos 0 -ℤ pos maximum)))
      position_limit

unfoldable pub validate_account_state : List ReservationRiskState → AccountRiskState → Check
unfolding reserved_totals check_exposure
validate_account_state reservations account = do
  (buys, sells, open_orders) ← reserved_totals account.id 0 0 0 reservations
  guard (buys == account.reserved_buys && sells == account.reserved_sells) exposure_mismatch
  guard (open_orders == account.open_orders && leb open_orders account.limits.max_open_orders)
      open_order_mismatch
  check_exposure account buys sells

abbrev pub validate_accounts : List ReservationRiskState → List AccountRiskState → Check
validate_accounts reservations [] = ok tt
validate_accounts reservations (account ∷ rest) =
    validate_account_state reservations account >> validate_accounts reservations rest

module _ {A : Type 0} where
  abbrev pub any : (A → Bool) → List A → Bool
  any test [] = false
  any test (x ∷ xs) = test x || any test xs

  abbrev pub keys : (A → ℕ) → List A → List ℕ
  keys key [] = []
  keys key (x ∷ xs) = key x ∷ keys key xs

-- the watermark below the last order
abbrev pub is_watermark_low : Option OrderId → List ReservationRiskState → Bool
is_watermark_low maximum [] = false
is_watermark_low maximum (r ∷ r2 ∷ rest) = is_watermark_low maximum (r2 ∷ rest)
is_watermark_low none (r ∷ []) = true
is_watermark_low (some maximum) (r ∷ []) = ltb maximum r.order_id

-- The accounts are in order when they are searched, so the binary search misses an account exactly
-- when it is not there.
unfoldable pub validate_state :
    ℕ
    → ℕ
    → RiskEngineState
    → Outcome RiskStateError (List AccountRiskState × List ReservationRiskState)
unfolding check_ascending validate_account_state
validate_state accounts_max orders_max state = do
  guard (leb (length state.accounts) accounts_max) account_capacity
  guard (leb (length state.reservations) orders_max) reservation_capacity
  check_ascending (keys (λ a. a.id) state.accounts) duplicate_account
  guard (not (any (λ a. limits_invalid a.limits) state.accounts)) invalid_limits
  check_ascending (keys (λ r. r.order_id) state.reservations) duplicate_order
  guard (not (any (λ r. r.quantity == 0) state.reservations)) invalid_quantity
  guard (not (is_watermark_low state.maximum_order_id state.reservations)) invalid_watermark
  guard (not (any (λ r. not (any (λ a. a.id == r.account_id) state.accounts)) state.reservations))
      unknown_account
  validate_accounts state.reservations state.accounts
  ok (state.accounts, state.reservations)

-- The closure of `account_snapshot`: all that is reserved on both sides filled, and the open orders.
unfoldable pub projected : AccountState → Option (ℤ × ℕ)
projected a = elim (i128_of_unsigned a.reserved_buys) [
  | none ↦ none
  | some buys ↦ elim (i128_of_unsigned a.reserved_sells) [
    | none ↦ none
    | some sells ↦ elim (checked_add_i128 a.settled_position buys) [
      | none ↦ none
      | some long ↦ elim (checked_sub_i128 long sells) [
        | none ↦ none
        | some position ↦ some (position, a.open_orders)
      ]
    ]
  ]
]

unfoldable pub account_snapshot : {E : Type 0} → RiskEngine → AccountId → Outcome E (Option (ℤ × ℕ))
unfolding account_slot projected
account_snapshot e id = elim (account_slot e id) [
  | none ↦ ok none
  | some i ↦ unwrap (get_elem? e.accounts i) >>= λ entry.
      ok (elim entry [ none ↦ none | some a ↦ projected a ])
]
