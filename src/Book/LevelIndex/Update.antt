-- ===== src/Book/LevelIndex/Update.antt =====
-- What an insertion or a removal does to the prices that are listed.
use deterministic_exchange_r.Prelude.{
  ℕ, suc, ◌<◌, ◌≡◌, refl, ap, ◌∙◌, List, [], ◌∷◌, ◌++◌, Bool, true, false, none, some, ltb,
  if◌then◌else◌, Bool-cases, inl, inr, arith, take, drop, get_elem?, length,
}
use deterministic_exchange_r.Prelude.Outcome.{ok}
use deterministic_exchange_r.Types.{PriceTicks}
use deterministic_exchange_r.Book.LevelIndex.{
  Entry, LevelIndex, eq_price, comes_before, is_at, insert, insert_at, remove, remove_found,
}
use deterministic_exchange_r.Book.LevelIndex.Search.{prefix}
use deterministic_exchange_r.Book.LevelIndex.Sorted.{
  position-prefix, AllBehind, Sorted, listed, AllBehind-trans, before_or, before-not_eq,
  eq_price_trans, listed-behind,
}

abbrev pub with_entry : Bool → PriceTicks → ℕ → List Entry → List Entry
with_entry d p v es = let at = prefix d p es in take at es ++ (p, v) ∷ drop at es

with_entry-AllBehind :
    (d : Bool) (a p : PriceTicks) (v : ℕ) (es : List Entry)
    → comes_before d a p ≡ true
    → AllBehind d a es
    → AllBehind d a (with_entry d p v es)
with_entry-AllBehind d a p v [] h k = (h, tt)
with_entry-AllBehind d a p v (e ∷ es) h k = elim (Bool-cases (comes_before d e.0 p)) [
  | inl earlier ↦ rw earlier (k.0, with_entry-AllBehind d a p v es h k.1)
  | inr stop ↦ rw stop (h, k)
]

with_entry-Sorted :
    (d : Bool) (p : PriceTicks) (v : ℕ) (es : List Entry)
    → Sorted d es
    → listed p es ≡ none
    → Sorted d (with_entry d p v es)
with_entry-Sorted d p v [] s new_price = (tt, tt)
with_entry-Sorted d p v (e ∷ es) s new_price = elim (Bool-cases (eq_price e.0 p)) [
  | inl here ↦ let clash = rw here at new_price in cc
  | inr past ↦
      let rest : listed p es ≡ none = rw past at new_price in
      elim (Bool-cases (comes_before d e.0 p)) [
        | inl earlier ↦
            rw earlier
              (with_entry-AllBehind d e.0 p v es earlier s.0, with_entry-Sorted d p v es s.1 rest)
        | inr stop ↦
            let behind = before_or d e.0 p stop past in
            rw stop ((behind, AllBehind-trans d p e.0 es behind s.0), s)
      ]
]

listed-with_entry :
    (d : Bool) (p q : PriceTicks) (v : ℕ) (es : List Entry)
    → listed p es ≡ none
    → listed q (with_entry d p v es) ≡ (if eq_price p q then some v else listed q es)
listed-with_entry d p q v [] new_price = refl
listed-with_entry d p q v (e ∷ es) new_price = elim (Bool-cases (eq_price e.0 p)) [
  | inl here ↦ let clash = rw here at new_price in cc
  | inr past ↦
      let rest : listed p es ≡ none = rw past at new_price in
      elim (Bool-cases (comes_before d e.0 p)) [
        | inr stop ↦ rw stop
        | inl earlier ↦
            let later = listed-with_entry d p q v es rest in
            elim (Bool-cases (eq_price e.0 q)) [
              | inr other ↦ rw (earlier, other) later
              | inl at_q ↦
                  let same : eq_price e.0 p ≡ eq_price q p = eq_price_trans e.0 q p at_q in
                  let apart : eq_price p q ≡ false = ground (arith, same, past) in
                  rw (earlier, at_q, apart)
            ]
      ]
]

-- A new price, while a level slot and a place for it are left, takes the first free level slot; the
-- entries stay sorted, the price is listed with that slot, and every other price as before.
pub insert-Sorted :
    (x : LevelIndex) (d : Bool) (p : PriceTicks) (level : ℕ) (rest : List ℕ)
    → Sorted d x.entries
    → listed p x.entries ≡ none
    → x.free ≡ level ∷ rest
    → length x.entries < x.levels
    → (x' : LevelIndex) × (insert p d x ≡ (ok (some level), x'))
      × (x'.free ≡ rest)
      × (x'.levels ≡ x.levels)
      × Sorted d x'.entries
      × ((q : PriceTicks)
          → listed q x'.entries ≡ (if eq_price p q then some level else listed q x.entries))
unfolding insert
insert-Sorted x d p level rest s new_price pool room =
    let has_room : ltb (length x.entries) x.levels ≡ true = ground (arith, room) in
    (
      record x { entries = with_entry d p level x.entries; free = rest },
      ap (λ at. insert_at at.0 p x) (position-prefix x d p s) ∙ rw (pool, has_room),
      refl,
      refl,
      with_entry-Sorted d p level x.entries s new_price,
      λ q. listed-with_entry d p q level x.entries new_price,
    )

abbrev pub without_entry : Bool → PriceTicks → List Entry → List Entry
without_entry d p es = let at = prefix d p es in take at es ++ drop (suc at) es

without_entry-AllBehind :
    (d : Bool) (a p : PriceTicks) (es : List Entry)
    → AllBehind d a es
    → AllBehind d a (without_entry d p es)
without_entry-AllBehind d a p [] k = tt
without_entry-AllBehind d a p (e ∷ es) k = elim (Bool-cases (comes_before d e.0 p)) [
  | inl earlier ↦ rw earlier (k.0, without_entry-AllBehind d a p es k.1)
  | inr stop ↦ rw stop k.1
]

without_entry-Sorted :
    (d : Bool) (p : PriceTicks) (es : List Entry) → Sorted d es → Sorted d (without_entry d p es)
without_entry-Sorted d p [] s = tt
without_entry-Sorted d p (e ∷ es) s = elim (Bool-cases (comes_before d e.0 p)) [
  | inl earlier ↦
      rw earlier (without_entry-AllBehind d e.0 p es s.0, without_entry-Sorted d p es s.1)
  | inr stop ↦ rw stop s.1
]

pub eq_price-eq : (a b : PriceTicks) → eq_price a b ≡ true → a ≡ b
eq_price-eq a b h = ground arith

-- The entry at a listed price is the one that is taken out.
listed-without_entry :
    (d : Bool) (p q : PriceTicks) (v : ℕ) (es : List Entry)
    → Sorted d es
    → listed p es ≡ some v
    → (is_at p (get_elem? es (prefix d p es)) ≡ true)
      × ((e : Entry) × (get_elem? es (prefix d p es) ≡ some e) × (e.1 ≡ v))
      × (listed q (without_entry d p es) ≡ (if eq_price p q then none else listed q es))
listed-without_entry d p q v [] s h = cc
listed-without_entry d p q v (e ∷ es) s h = elim (Bool-cases (eq_price e.0 p)) [
  | inl here ↦
      let value : some e.1 ≡ some v = rw here at h in
      let stop : comes_before d e.0 p ≡ false = (elim (Bool-cases (comes_before d e.0 p)) [
        | inl earlier ↦ let clash = before-not_eq d e.0 p earlier in cc
        | inr stop ↦ stop
      ]) in
      let gone : listed q es ≡ (if eq_price p q then none else listed q (e ∷ es)) =
        (elim (Bool-cases (eq_price p q)) [
          | inl at_q ↦
              let behind : AllBehind d q es =
                rw (eq_price-eq e.0 p here ∙ eq_price-eq p q at_q) at s.0 in
              rw at_q (listed-behind d q es behind)
          | inr other ↦
              let apart : eq_price e.0 q ≡ false = eq_price_trans e.0 p q here ∙ other in
              rw (other, apart)
        ]) in
      rw (stop, here) (refl, (e, refl, cc), gone)
  | inr past ↦
      let rest : listed p es ≡ some v = rw past at h in
      let earlier : comes_before d e.0 p ≡ true = (elim (Bool-cases (comes_before d e.0 p)) [
        | inl earlier ↦ earlier
        | inr stop ↦
            let behind = before_or d e.0 p stop past in
            let absent = listed-behind d p es (AllBehind-trans d p e.0 es behind s.0) in cc
      ]) in
      let (found, there, later) = listed-without_entry d p q v es s.1 rest in
      elim (Bool-cases (eq_price e.0 q)) [
        | inl at_q ↦
            let same : eq_price e.0 p ≡ eq_price q p = eq_price_trans e.0 q p at_q in
            let apart : eq_price p q ≡ false = ground (arith, same, past) in
            rw (earlier, at_q, apart) (found, there, refl)
        | inr other ↦ rw (earlier, other) (found, there, later)
      ]
]

-- A listed price goes, and its level slot is the next to be used; the entries stay sorted, and every
-- other price is listed as before.
pub remove-Sorted :
    (x : LevelIndex) (d : Bool) (p : PriceTicks) (level : ℕ)
    → Sorted d x.entries
    → listed p x.entries ≡ some level
    → length x.free < x.levels
    → (x' : LevelIndex) × (remove p d x ≡ (ok (some level), x'))
      × (x'.free ≡ level ∷ x.free)
      × (x'.levels ≡ x.levels)
      × Sorted d x'.entries
      × ((q : PriceTicks)
          → listed q x'.entries ≡ (if eq_price p q then none else listed q x.entries))
unfolding remove
remove-Sorted x d p level s is_listed room =
    let (found, (e, there, value), _) = listed-without_entry d p p level x.entries s is_listed in
    let has_room : ltb (length x.free) x.levels ≡ true = ground (arith, room) in
    (
      record x { entries = without_entry d p x.entries; free = level ∷ x.free },
      ap (λ at. remove_found at x) (position-prefix x d p s) ∙ rw (found, there, has_room, value),
      refl,
      refl,
      without_entry-Sorted d p x.entries s,
      λ q. (listed-without_entry d p q level x.entries s is_listed).2,
    )
