-- ===== src/Book/Level/Cells.antt =====
-- Lists of slots with their orders, and the list of the free slots.
use deterministic_exchange_r.Prelude.{
  ℕ, ◌+◌, ◌*◌, ◌≤◌, ◌<◌, ◌≡◌, refl, ap, ◌∙◌, List, [], ◌∷◌, ◌++◌, Bool, true, false, ◌||◌, some,
  ◌==◌, Bool-cases, inl, inr, arith, get_elem?, length,
}
use deterministic_exchange_r.Prelude.Words.{u64_mod}
use deterministic_exchange_r.Book.Level.{RestingOrder, OrderSlot, free, nil}
use deterministic_exchange_r.Book.Level.Segment.{Cells, has, Distinct}

pub has-append : (a : ℕ) (xs ys : Cells) → has a (xs ++ ys) ≡ (has a xs || has a ys)
has-append a [] ys = refl
has-append a ((i, o) ∷ xs) ys = ground (arith, has-append a xs ys)

-- Of a list without repetitions, neither part shares a slot with what is between them.
pub record Parted (xs : Cells) (i : ℕ) (ys : Cells) : Type 0 where
  pub before : has i xs ≡ false
  pub behind : has i ys ≡ false
  pub left : Distinct xs
  pub right : Distinct ys
  pub both : Distinct (xs ++ ys)
  pub apart : (j : ℕ) → has j xs ≡ true → has j ys ≡ false

pub Distinct-Parted :
    (xs : Cells) (i : ℕ) (o : RestingOrder) (ys : Cells)
    → Distinct (xs ++ (i, o) ∷ ys)
    → Parted xs i ys
Distinct-Parted [] i o ys d = record {
  before = refl;
  behind = d.0;
  left = tt;
  right = d.1;
  both = d.1;
  apart = λ j h. cc;
}
Distinct-Parted ((k, p) ∷ xs) i o ys d =
    let rest = Distinct-Parted xs i o ys d.1 in
    let split = has-append k xs ((i, o) ∷ ys) in
    let whole = has-append k xs ys in
    record {
      before = ground (arith, d.0, split, rest.before);
      behind = rest.behind;
      left = (ground (arith, d.0, split), rest.left);
      right = rest.right;
      both = (ground (arith, d.0, split, whole), rest.both);
      apart = λ j h. elim (Bool-cases (j == k)) [
        | inl here ↦ let same : j ≡ k = ground arith in ground (arith, d.0, split, same)
        | inr there ↦ rest.apart j (ground arith)
      ];
    }

pub Distinct-push :
    (xs : Cells) (i : ℕ) (o : RestingOrder)
    → Distinct xs
    → has i xs ≡ false
    → Distinct (xs ++ (i, o) ∷ [])
Distinct-push [] i o d out = (refl, tt)
Distinct-push ((k, p) ∷ xs) i o d out =
    (ground (arith, has-append k xs ((i, o) ∷ []), d.0), Distinct-push xs i o d.1 (ground arith))

pub Distinct-change :
    (xs : Cells) (i : ℕ) (o o' : RestingOrder) (ys : Cells)
    → Distinct (xs ++ (i, o) ∷ ys)
    → Distinct (xs ++ (i, o') ∷ ys)
Distinct-change [] i o o' ys d = d
Distinct-change ((k, p) ∷ xs) i o o' ys d = (
  ground (arith, has-append k xs ((i, o) ∷ ys), has-append k xs ((i, o') ∷ ys), d.0),
  Distinct-change xs i o o' ys d.1,
)

-- the quantity of all the orders
abbrev pub total : Cells → ℕ
total [] = 0
total ((_, o) ∷ cells) = o.quantity + total cells

pub total-append : (xs ys : Cells) → total (xs ++ ys) ≡ total xs + total ys
total-append [] ys = omega arith
total-append ((i, o) ∷ xs) ys = omega (arith, total-append xs ys)

-- Quantities are u64.
abbrev pub AllFit : Cells → Type 0
AllFit [] = Unit {0}
AllFit ((_, o) ∷ cells) = (o.quantity < u64_mod) × AllFit cells

pub AllFit-append : (xs ys : Cells) → AllFit xs → AllFit ys → AllFit (xs ++ ys)
AllFit-append [] ys h k = k
AllFit-append ((i, o) ∷ xs) ys h k = (h.0, AllFit-append xs ys h.1 k)

pub AllFit-parts : (xs ys : Cells) → AllFit (xs ++ ys) → AllFit xs × AllFit ys
AllFit-parts [] ys h = (tt, h)
AllFit-parts ((i, o) ∷ xs) ys h = let (left, right) = AllFit-parts xs ys h.1 in ((h.0, left), right)

pub total-le : (xs : Cells) → AllFit xs → total xs ≤ u64_mod * length xs
total-le [] h = omega arith
total-le ((i, o) ∷ xs) h = omega (arith, total-le xs h.1, h.0)

-- The free slots, from the first on.
abbrev pub FreeChain : List OrderSlot → ℕ → List ℕ → Type 0
FreeChain slots cur [] = cur ≡ nil
FreeChain slots cur (i ∷ spare) =
    (cur ≡ i) × (next : ℕ) × (get_elem? slots i ≡ some (free next)) × FreeChain slots next spare

abbrev pub is_among : ℕ → List ℕ → Bool
is_among a [] = false
is_among a (i ∷ spare) = (a == i) || is_among a spare

abbrev pub NoRepeat : List ℕ → Type 0
NoRepeat [] = Unit {0}
NoRepeat (i ∷ spare) = (is_among i spare ≡ false) × NoRepeat spare

pub FreeChain-frame :
    (slots slots' : List OrderSlot) (cur : ℕ) (spare : List ℕ)
    → ((j : ℕ) → is_among j spare ≡ true → get_elem? slots' j ≡ get_elem? slots j)
    → FreeChain slots cur spare
    → FreeChain slots' cur spare
FreeChain-frame slots slots' cur [] same f = f
FreeChain-frame slots slots' cur (i ∷ spare) same f = (
  f.0,
  f.1,
  same i (ground arith) ∙ f.2,
  FreeChain-frame slots slots' f.1 spare (λ j h. same j (ground (arith, h))) f.3,
)

pub FreeChain-free :
    (slots : List OrderSlot) (cur j : ℕ) (spare : List ℕ)
    → is_among j spare ≡ true
    → FreeChain slots cur spare
    → (next : ℕ) × (get_elem? slots j ≡ some (free next))
FreeChain-free slots cur j [] h f = cc
FreeChain-free slots cur j (i ∷ spare) h f = elim (Bool-cases (j == i)) [
  | inl here ↦ let same : j ≡ i = ground arith in (f.1, ap (get_elem? slots) same ∙ f.2)
  | inr there ↦ FreeChain-free slots f.1 j spare (ground arith) f.3
]
