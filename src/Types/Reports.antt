-- ===== src/Types/Reports.antt =====
-- `ReportBuffer<N>` of crates/hft-types: a fixed array of reports, of which the first `len` count.
use deterministic_exchange_r.Prelude.{
  ℕ, zero, suc, ◌+◌, ◌-◌, ◌≤◌, ◌<◌, ◌≡◌, refl, ap, List, [], ◌∷◌, ◌++◌, none, some, arith, length,
  length-set, take, set, get_elem?, get_elem?-lt, get_elem?-ge, replicate,
}
use native.Mathlib.Numerals.{add-one}
use deterministic_exchange_r.Prelude.Int.{pos}
use deterministic_exchange_r.Prelude.Outcome.{ok, err}
use deterministic_exchange_r.Prelude.Effect.{Effect}
use deterministic_exchange_r.Types.{ExecutionReport, RejectReason, report_capacity}

-- The array's length is the constant N.
pub record ReportBuffer : Type 0 where
  pub entries : List ExecutionReport
  pub len : ℕ

abbrev pub empty_report : ExecutionReport
empty_report = record {
  maker_order_id = 0;
  taker_order_id = 0;
  instrument_id = 0;
  price = pos 0;
  quantity = 0;
  sequence = 0;
}

unfoldable pub new : ℕ → ReportBuffer
new n = record { entries = replicate n empty_report; len = 0 }

unfoldable pub clear : ReportBuffer → ReportBuffer
clear b = record b { len = 0 }

unfoldable pub push : ExecutionReport → Effect ReportBuffer RejectReason (Unit {0})
push report b = elim (get_elem? b.entries b.len) [
  | none ↦ (err report_capacity, b)
  | some _ ↦ (ok tt, record { entries = set b.entries b.len report; len = b.len + 1 })
]

-- `N - self.len`, which cannot fall below 0 while the buffer is valid
unfoldable pub remaining_capacity : ReportBuffer → ℕ
remaining_capacity b = length b.entries - b.len

-- `iter`: the reports that count, in order
abbrev pub reports : ReportBuffer → List ExecutionReport
reports b = take b.len b.entries

abbrev pub IsValid : ReportBuffer → Type 0
IsValid b = b.len ≤ length b.entries

take-set {ℓ} :
    {A : Type ℓ} (xs : List A) (i : ℕ) (v : A)
    → i < length xs
    → take (suc i) (set xs i v) ≡ take i xs ++ v ∷ []
take-set [] i v h = absurd (omega arith)
take-set (x ∷ xs) zero v h = refl
take-set (x ∷ xs) (suc i) v h = ap (λ ys. x ∷ ys) (take-set xs i v (omega arith))

-- While there is room `push` appends the report, and keeps the buffer valid and of the same size.
pub push-room :
    (b : ReportBuffer) (r : ExecutionReport)
    → 0 < remaining_capacity b
    → let (result, b') = push r b in
      (result ≡ ok tt)
      × (reports b' ≡ reports b ++ r ∷ [])
      × IsValid b'
      × (remaining_capacity b' + 1 ≡ remaining_capacity b)
unfolding push remaining_capacity
push-room b r h =
    let (x, e) = get_elem?-lt b.entries b.len (omega arith) in
    ground (
      arith,
      e,
      length-set b.entries b.len r,
      take-set b.entries b.len r (omega arith),
      add-one b.len,
    )

-- A full valid buffer refuses a report and is left as it was.
pub push-full :
    (b : ReportBuffer) (r : ExecutionReport)
    → IsValid b
    → remaining_capacity b ≡ 0
    → push r b ≡ (err report_capacity, b)
unfolding push remaining_capacity
push-full b r v h =
    let e : get_elem? b.entries b.len ≡ none = get_elem?-ge b.entries b.len (omega arith) in
    rw (push, e)
