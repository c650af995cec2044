-- ===== src/Book/Level/Segment.antt =====
-- Stretches of a level's linked list, and what a write to one slot does to them.
use deterministic_exchange_r.Prelude.{
  ℕ, ◌≡◌, ◌≢◌, refl, sym, ap, ◌∙◌, List, [], ◌∷◌, ◌++◌, Bool, true, false, ◌||◌, some, ◌==◌,
  Bool-cases, inl, inr, arith, get_elem?, set, get_elem?-set_self, get_elem?-set_ne,
  get_elem?-some_lt,
}
use deterministic_exchange_r.Book.Level.{RestingOrder, OrderSlot, live}

-- The orders of a stretch with their slots. The links of an order in such a list do not count.
abbrev pub Cells : Type 0
Cells = List (ℕ × RestingOrder)

abbrev pub has : ℕ → Cells → Bool
has a [] = false
has a ((i, _) ∷ cells) = (a == i) || has a cells

abbrev pub Distinct : Cells → Type 0
Distinct [] = Unit {0}
Distinct ((i, _) ∷ cells) = (has i cells ≡ false) × Distinct cells

abbrev pub linked : ℕ → ℕ → RestingOrder → RestingOrder
linked prev next order = record order { prev = prev; next = next }

-- From the slot `cur`, which `prev` precedes, the links lead through the cells to the slot `last`,
-- which `after` follows.
abbrev pub Segment : List OrderSlot → ℕ → ℕ → ℕ → ℕ → Cells → Type 0
Segment slots prev cur last after [] = (prev ≡ last) × (cur ≡ after)
Segment slots prev cur last after ((i, order) ∷ cells) =
    (cur ≡ i)
    × (next : ℕ) × (get_elem? slots i ≡ some (live (linked prev next order)))
    × Segment slots i next last after cells

pub Segment-append :
    (slots : List OrderSlot) (prev cur mid between last after : ℕ) (xs ys : Cells)
    → Segment slots prev cur mid between xs
    → Segment slots mid between last after ys
    → Segment slots prev cur last after (xs ++ ys)
Segment-append slots prev cur mid between last after [] ys s t = rw (s.0, s.1) t
Segment-append slots prev cur mid between last after ((i, o) ∷ xs) ys s t =
    (s.0, s.1, s.2, Segment-append slots i s.1 mid between last after xs ys s.3 t)

pub Segment-split :
    (slots : List OrderSlot) (prev cur last after : ℕ) (xs ys : Cells)
    → Segment slots prev cur last after (xs ++ ys)
    → (mid : ℕ) × (between : ℕ) × Segment slots prev cur mid between xs
      × Segment slots mid between last after ys
Segment-split slots prev cur last after [] ys s = (prev, cur, (refl, refl), s)
Segment-split slots prev cur last after ((i, o) ∷ xs) ys s =
    let (mid, between, t, u) = Segment-split slots i s.1 last after xs ys s.3 in
    (mid, between, (s.0, s.1, s.2, t), u)

-- A stretch depends on its own slots alone.
pub Segment-frame :
    (slots slots' : List OrderSlot) (prev cur last after : ℕ) (xs : Cells)
    → ((j : ℕ) → has j xs ≡ true → get_elem? slots' j ≡ get_elem? slots j)
    → Segment slots prev cur last after xs
    → Segment slots' prev cur last after xs
Segment-frame slots slots' prev cur last after [] same s = s
Segment-frame slots slots' prev cur last after ((i, o) ∷ xs) same s = (
  s.0,
  s.1,
  same i (ground arith) ∙ s.2,
  Segment-frame slots slots' i s.1 last after xs (λ j h. same j (ground (arith, h))) s.3,
)

pub Segment-set :
    (slots : List OrderSlot) (prev cur last after j : ℕ) (x : OrderSlot) (xs : Cells)
    → has j xs ≡ false
    → Segment slots prev cur last after xs
    → Segment (set slots j x) prev cur last after xs
Segment-set slots prev cur last after j x xs out s =
    Segment-frame slots (set slots j x) prev cur last after xs
      (λ k inside. get_elem?-set_ne slots x (λ same. let clash = rw (← same) at inside in cc)) s

-- The slots of a stretch are live.
pub Segment-live :
    (slots : List OrderSlot) (prev cur last after j : ℕ) (xs : Cells)
    → has j xs ≡ true
    → Segment slots prev cur last after xs
    → (r : RestingOrder) × (get_elem? slots j ≡ some (live r))
Segment-live slots prev cur last after j [] h s = cc
Segment-live slots prev cur last after j ((i, o) ∷ xs) h s = elim (Bool-cases (j == i)) [
  | inl here ↦
      let same : j ≡ i = ground arith in (linked prev s.1 o, ap (get_elem? slots) same ∙ s.2)
  | inr there ↦ Segment-live slots i s.1 last after j xs (ground arith) s.3
]

-- The last slot of a stretch that is not empty is one of its own.
pub has_last :
    (slots : List OrderSlot) (prev cur last after i : ℕ) (o : RestingOrder) (xs : Cells)
    → Segment slots prev cur last after ((i, o) ∷ xs)
    → has last ((i, o) ∷ xs) ≡ true
has_last slots prev cur last after i o [] s = ground arith
has_last slots prev cur last after i o ((j, p) ∷ xs) s =
    let rest = has_last slots i s.1 last after j p xs s.3 in ground arith

-- Another slot may follow the last one.
pub set_after :
    (slots : List OrderSlot) (prev cur last after after' i : ℕ) (o : RestingOrder) (xs : Cells)
    → Distinct ((i, o) ∷ xs)
    → Segment slots prev cur last after ((i, o) ∷ xs)
    → (r : RestingOrder) × (get_elem? slots last ≡ some (live r))
      × Segment
          (set slots last (live (record r { next = after' })))
          prev
          cur
          last
          after'
          ((i, o) ∷ xs)
set_after slots prev cur last after after' i o [] d s =
    let at : i ≡ last = s.3.0 in
    let inside = get_elem?-some_lt slots i s.2 in
    (
      linked prev s.1 o,
      ap (get_elem? slots) (sym at) ∙ s.2,
      (
        s.0,
        after',
        ap (λ k. get_elem? (set slots k (live (linked prev after' o))) i) (sym at)
            ∙ get_elem?-set_self slots i (live (linked prev after' o)) inside,
        (at, refl),
      ),
    )
set_after slots prev cur last after after' i o ((j, p) ∷ xs) d s =
    let (r, there, t) = set_after slots i s.1 last after after' j p xs d.1 s.3 in
    let apart : last ≢ i = ground (arith, has_last slots i s.1 last after j p xs s.3) in
    (
      r,
      there,
      (s.0, s.1, get_elem?-set_ne slots (live (record r { next = after' })) apart ∙ s.2, t),
    )

-- Another slot may precede the first one.
pub set_before :
    (slots : List OrderSlot) (prev prev' cur last after i : ℕ) (o : RestingOrder) (xs : Cells)
    → Distinct ((i, o) ∷ xs)
    → Segment slots prev cur last after ((i, o) ∷ xs)
    → (r : RestingOrder) × (get_elem? slots i ≡ some (live r))
      × Segment (set slots i (live (record r { prev = prev' }))) prev' cur last after ((i, o) ∷ xs)
set_before slots prev prev' cur last after i o xs d s =
    let inside = get_elem?-some_lt slots i s.2 in
    (
      linked prev s.1 o,
      s.2,
      (
        s.0,
        s.1,
        get_elem?-set_self slots i (live (linked prev' s.1 o)) inside,
        Segment-set slots i s.1 last after i (live (linked prev' s.1 o)) xs d.0 s.3,
      ),
    )
