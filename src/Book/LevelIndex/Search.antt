-- ===== src/Book/LevelIndex/Search.antt =====
-- The binary search of `position` on entries of which the first so many come before a price.
use deterministic_exchange_r.Prelude.{
  ℕ, zero, suc, ◌+◌, ◌-◌, ◌/◌, ◌≤◌, ◌<◌, ◌≡◌, List, [], ◌∷◌, Bool, true, false, leb, ◌==◌,
  if◌then◌else◌, Bool-cases, inl, inr, arith, length,
}
use deterministic_exchange_r.Types.{PriceTicks}
use deterministic_exchange_r.Book.LevelIndex.{
  Entry, comes_before, entry_before, search, partition_point,
}

-- how many entries, from the first on, come before the price
abbrev pub prefix : Bool → PriceTicks → List Entry → ℕ
prefix descending price [] = 0
prefix descending price (e ∷ es) =
    if comes_before descending e.0 price then suc (prefix descending price es) else 0

pub prefix-le : (d : Bool) (p : PriceTicks) (es : List Entry) → prefix d p es ≤ length es
prefix-le d p [] = omega arith
prefix-le d p (e ∷ es) = elim (Bool-cases (comes_before d e.0 p)) [
  | inl before ↦ rw before (omega (arith, prefix-le d p es))
  | inr stop ↦ rw stop (omega arith)
]

-- The first `k` entries come before the price, and no other.
abbrev pub Splits : Bool → PriceTicks → List Entry → ℕ → Type 0
Splits d p es k =
    ((i : ℕ) → i < k → entry_before d p es i ≡ true)
    × ((i : ℕ) → k ≤ i → entry_before d p es i ≡ false)

inside :
    (d : Bool) (p : PriceTicks) (es : List Entry) (k i : ℕ)
    → Splits d p es k
    → entry_before d p es i ≡ true
    → i < k
inside d p es k i s before = elim (Bool-cases (leb k i)) [
  | inl past ↦ let clash = s.1 i (ground (arith, past)) in cc
  | inr within ↦ ground (arith, within)
]

outside :
    (d : Bool) (p : PriceTicks) (es : List Entry) (k i : ℕ)
    → Splits d p es k
    → entry_before d p es i ≡ false
    → k ≤ i
outside d p es k i s behind = elim (Bool-cases (leb k i)) [
  | inl past ↦ ground (arith, past)
  | inr within ↦ let clash = s.0 i (ground (arith, within)) in cc
]

search-Splits :
    (d : Bool) (p : PriceTicks) (es : List Entry) (k : ℕ) (fuel base size : ℕ)
    → Splits d p es k
    → base ≤ k
    → k ≤ base + size
    → size ≤ fuel
    → (search d p es fuel base size ≤ k) × (k ≤ search d p es fuel base size + 1)
search-Splits d p es k zero base size s low high enough = (low, omega (arith, high, enough))
search-Splits d p es k (suc fuel) base size s low high enough = elim (Bool-cases (leb size 1)) [
  | inl small ↦ let le : size ≤ 1 = ground (arith, small) in rw small (low, omega (arith, high, le))
  | inr more ↦
      let two : 1 < size = ground (arith, more) in
      let half = size / 2 in
      let lower : 1 ≤ half = omega (arith, two) in
      let upper : half + half ≤ size = omega arith in
      elim (Bool-cases (entry_before d p es (base + half))) [
        | inl before ↦
            let at = inside d p es k (base + half) s before in
            rw (more, before)
              (search-Splits d p es k fuel (base + half) (size - half) s (omega (arith, at))
                (omega (arith, high, upper)) (omega (arith, enough, lower)))
        | inr behind ↦
            let at = outside d p es k (base + half) s behind in
            rw (more, behind)
              (search-Splits d p es k fuel base (size - half) s low (omega (arith, at, upper))
                (omega (arith, enough, lower)))
      ]
]

-- On entries that a number of them splits, the binary search finds that number.
pub partition_point-Splits :
    (d : Bool) (p : PriceTicks) (es : List Entry) (k : ℕ)
    → Splits d p es k
    → k ≤ length es
    → partition_point d p es ≡ k
unfolding partition_point
partition_point-Splits d p es k s le = elim (Bool-cases (length es == 0)) [
  | inl empty ↦
      let none_there : 0 ≡ k = ground (arith, empty, le) in rw (partition_point, empty) none_there
  | inr some_there ↦
      let base = search d p es (length es) 0 (length es) in
      let (low, high) =
        search-Splits d p es k (length es) 0 (length es) s (omega arith) (omega (arith, le))
          (omega arith) in
      elim (Bool-cases (entry_before d p es base)) [
        | inl before ↦
            let at = inside d p es k base s before in
            rw (partition_point, some_there, before) (omega (arith, high, at))
        | inr behind ↦
            let at = outside d p es k base s behind in
            rw (partition_point, some_there, behind) (omega (arith, low, at))
      ]
]
