-- ===== src/Book/LevelIndex/Sorted.antt =====
-- The entries stay sorted, best first, so the binary search finds a price exactly when it is listed.
use deterministic_exchange_r.Prelude.{
  ℕ, zero, suc, ◌≤◌, ◌<◌, ◌≡◌, refl, sym, ap, List, [], ◌∷◌, Bool, true, false, Option, none, some,
  if◌then◌else◌, Bool-cases, inl, inr, arith, get_elem?,
}
use deterministic_exchange_r.Types.{PriceTicks}
use deterministic_exchange_r.Book.LevelIndex.{
  Entry, LevelIndex, eq_price, comes_before, entry_before, partition_point, is_at, position, find,
}
use deterministic_exchange_r.Book.LevelIndex.Search.{
  prefix, prefix-le, Splits, partition_point-Splits,
}

-- The listed prices that come behind a price.
abbrev pub AllBehind : Bool → PriceTicks → List Entry → Type 0
AllBehind d p [] = Unit {0}
AllBehind d p (e ∷ es) = (comes_before d p e.0 ≡ true) × AllBehind d p es

abbrev pub Sorted : Bool → List Entry → Type 0
Sorted d [] = Unit {0}
Sorted d (e ∷ es) = AllBehind d e.0 es × Sorted d es

-- the search from first to last
abbrev pub listed : PriceTicks → List Entry → Option ℕ
listed p [] = none
listed p (e ∷ es) = if eq_price e.0 p then some e.1 else listed p es

pub before_trans :
    (d : Bool) (a b c : PriceTicks)
    → comes_before d a b ≡ true
    → comes_before d b c ≡ true
    → comes_before d a c ≡ true
before_trans true a b c h k = ground arith
before_trans false a b c h k = ground arith

pub AllBehind-trans :
    (d : Bool) (a b : PriceTicks) (es : List Entry)
    → comes_before d a b ≡ true
    → AllBehind d b es
    → AllBehind d a es
AllBehind-trans d a b [] h k = tt
AllBehind-trans d a b (e ∷ es) h k = (before_trans d a b e.0 h k.0, AllBehind-trans d a b es h k.1)

-- A price that is not before an entry, nor at it, is not behind it either.
pub before_or :
    (d : Bool) (a b : PriceTicks)
    → comes_before d a b ≡ false
    → eq_price a b ≡ false
    → comes_before d b a ≡ true
before_or true a b h k = ground arith
before_or false a b h k = ground arith

pub before-not_eq : (d : Bool) (a b : PriceTicks) → comes_before d a b ≡ true → eq_price a b ≡ false
before-not_eq true a b h = ground arith
before-not_eq false a b h = ground arith

pub after-not_eq : (d : Bool) (a b : PriceTicks) → comes_before d b a ≡ true → eq_price a b ≡ false
after-not_eq true a b h = ground arith
after-not_eq false a b h = ground arith

pub eq_price_trans : (a b c : PriceTicks) → eq_price a b ≡ true → eq_price a c ≡ eq_price b c
eq_price_trans a b c h = ground arith

pub eq_price-before :
    (d : Bool) (a b c : PriceTicks)
    → eq_price a b ≡ true
    → comes_before d a c ≡ true
    → comes_before d b c ≡ true
eq_price-before true a b c h k = ground arith
eq_price-before false a b c h k = ground arith

-- What is behind a price is not at it.
pub listed-behind :
    (d : Bool) (p : PriceTicks) (es : List Entry) → AllBehind d p es → listed p es ≡ none
listed-behind d p [] h = refl
listed-behind d p (e ∷ es) h = rw (after-not_eq d e.0 p h.0) (listed-behind d p es h.1)

behind-entry_before :
    (d : Bool) (a p : PriceTicks) (es : List Entry) (i : ℕ)
    → AllBehind d a es
    → comes_before d a p ≡ false
    → entry_before d p es i ≡ false
behind-entry_before d a p [] i b stop = refl
behind-entry_before d a p (e ∷ es) zero b stop = elim (Bool-cases (comes_before d e.0 p)) [
  | inl earlier ↦ let clash = before_trans d a e.0 p b.0 earlier in cc
  | inr behind ↦ behind
]
behind-entry_before d a p (e ∷ es) (suc i) b stop = behind-entry_before d a p es i b.1 stop

cons-before :
    (d : Bool) (p : PriceTicks) (e : Entry) (es : List Entry) (k : ℕ)
    → comes_before d e.0 p ≡ true
    → ((i : ℕ) → i < k → entry_before d p es i ≡ true)
    → (i : ℕ) → i < suc k
    → entry_before d p (e ∷ es) i ≡ true
cons-before d p e es k earlier rest zero lt = earlier
cons-before d p e es k earlier rest (suc i) lt = rest i (omega (arith, lt))

cons-behind :
    (d : Bool) (p : PriceTicks) (e : Entry) (es : List Entry) (k : ℕ)
    → ((i : ℕ) → k ≤ i → entry_before d p es i ≡ false)
    → (i : ℕ) → suc k ≤ i
    → entry_before d p (e ∷ es) i ≡ false
cons-behind d p e es k rest zero le = absurd (omega (arith, le))
cons-behind d p e es k rest (suc i) le = rest i (omega (arith, le))

stopped :
    (d : Bool) (p : PriceTicks) (e : Entry) (es : List Entry) (i : ℕ)
    → AllBehind d e.0 es
    → comes_before d e.0 p ≡ false
    → entry_before d p (e ∷ es) i ≡ false
stopped d p e es zero b stop = stop
stopped d p e es (suc i) b stop = behind-entry_before d e.0 p es i b stop

prefix-Splits :
    (d : Bool) (p : PriceTicks) (es : List Entry) → Sorted d es → Splits d p es (prefix d p es)
prefix-Splits d p [] s = (λ i lt. absurd (omega (arith, lt)), λ i le. refl)
prefix-Splits d p (e ∷ es) s = elim (Bool-cases (comes_before d e.0 p)) [
  | inl earlier ↦
      let rest = prefix-Splits d p es s.1 in
      rw earlier (
        cons-before d p e es (prefix d p es) earlier rest.0,
        cons-behind d p e es (prefix d p es) rest.1,
      )
  | inr stop ↦ rw stop (λ i lt. absurd (omega (arith, lt)), λ i le. stopped d p e es i s.0 stop)
]

-- On sorted entries the halving search ends at the first entry that does not come before the price.
partition_point-prefix :
    (d : Bool) (p : PriceTicks) (es : List Entry)
    → Sorted d es
    → partition_point d p es ≡ prefix d p es
partition_point-prefix d p es s =
    partition_point-Splits d p es (prefix d p es) (prefix-Splits d p es s) (prefix-le d p es)

pub position-prefix :
    (x : LevelIndex) (d : Bool) (p : PriceTicks)
    → Sorted d x.entries
    → position p d x ≡ (prefix d p x.entries, is_at p (get_elem? x.entries (prefix d p x.entries)))
unfolding position
position-prefix x d p s =
    ap (λ k. (k, is_at p (get_elem? x.entries k))) (partition_point-prefix d p x.entries s)

find_at :
    (d : Bool) (p : PriceTicks) (es : List Entry)
    → Sorted d es
    → (if is_at p (get_elem? es (prefix d p es))
        then (elim (get_elem? es (prefix d p es)) [ some e ↦ some e.1 | none ↦ none ])
        else none)
      ≡ listed p es
find_at d p [] s = refl
find_at d p (e ∷ es) s = elim (Bool-cases (comes_before d e.0 p)) [
  | inl earlier ↦ rw (earlier, before-not_eq d e.0 p earlier) (find_at d p es s.1)
  | inr stop ↦ elim (Bool-cases (eq_price e.0 p)) [
    | inl here ↦ rw (stop, here)
    | inr past ↦
        let behind = before_or d e.0 p stop past in
        rw (stop, past) (sym (listed-behind d p es (AllBehind-trans d p e.0 es behind s.0)))
  ]
]

-- On sorted entries `find`, by binary search, gives what a search from first to last gives.
pub find-listed :
    (x : LevelIndex) (d : Bool) (p : PriceTicks)
    → Sorted d x.entries
    → find p d x ≡ listed p x.entries
unfolding find
find-listed x d p s = rw (find, position-prefix x d p s) (find_at d p x.entries s)
