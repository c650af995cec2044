-- ===== src/Book/Level/Links.antt =====
-- The two writes that link a slot's neighbours to each other, past it.
use deterministic_exchange_r.Prelude.{
  ℕ, ◌<◌, ◌≡◌, refl, sym, ap, subst, ◌∙◌, List, [], ◌∷◌, true, false, some, ◌==◌, if◌then◌else◌,
  arith, get_elem?, set, length, length-set, get_elem?-set_ne, get_elem?-some_lt,
}
use deterministic_exchange_r.Book.Level.{RestingOrder, OrderSlot, live, nil, set_next, set_prev}
use deterministic_exchange_r.Book.Level.Segment.{
  Cells, has, Distinct, Segment, has_last, set_after, set_before,
}

abbrev pub link_next : List OrderSlot → ℕ → ℕ → List OrderSlot
link_next slots i next = if i == nil then slots else set_next slots i next

abbrev pub link_prev : List OrderSlot → ℕ → ℕ → List OrderSlot
link_prev slots i prev = if i == nil then slots else set_prev slots i prev

-- What a write to a stretch leaves alone.
pub record Touches (xs : Cells) (slots slots' : List OrderSlot) : Type 0 where
  pub same_length : length slots' ≡ length slots
  pub outside : (j : ℕ) → has j xs ≡ false → get_elem? slots' j ≡ get_elem? slots j

Touches-refl : (xs : Cells) (slots : List OrderSlot) → Touches xs slots slots
Touches-refl xs slots = record { same_length = refl; outside = λ j h. refl }

Touches-set :
    (xs : Cells) (slots : List OrderSlot) (i : ℕ) (x : OrderSlot)
    → has i xs ≡ true
    → Touches xs slots (set slots i x)
Touches-set xs slots i x inside = record {
  same_length = length-set slots i x;
  outside = λ j h. get_elem?-set_ne slots x (λ same. let clash = rw same at inside in cc);
}

module _ (slots : List OrderSlot) (small : length slots < nil) where
  ne_nil : (i : ℕ) {x : OrderSlot} → get_elem? slots i ≡ some x → (i == nil) ≡ false
  ne_nil i h = let inside = get_elem?-some_lt slots i h in ground (arith, inside)

  link_next-live :
      (i next : ℕ) {r : RestingOrder}
      → get_elem? slots i ≡ some (live r)
      → link_next slots i next ≡ set slots i (live (record r { next = next }))
  link_next-live i next h = let ne = ne_nil i h in ground (arith, h, ne)

  link_prev-live :
      (i prev : ℕ) {r : RestingOrder}
      → get_elem? slots i ≡ some (live r)
      → link_prev slots i prev ≡ set slots i (live (record r { prev = prev }))
  link_prev-live i prev h = let ne = ne_nil i h in ground (arith, h, ne)

  -- the stretch before a slot
  pub link_next_lem :
      (cur last after after' : ℕ) (xs : Cells)
      → Distinct xs
      → Segment slots nil cur last after xs
      → Segment
          (link_next slots last after')
          nil
          (if last == nil then after' else cur)
          last
          after'
          xs
        × Touches xs slots (link_next slots last after')
        × ((last == nil) ≡ false → (r : RestingOrder) × (get_elem? slots last ≡ some (live r)))
  link_next_lem cur last after after' [] d s =
      let same : (last == nil) ≡ true = ground (arith, s.0) in
      (rw same (s.0, refl), rw same (Touches-refl [] slots), λ h. cc)
  link_next_lem cur last after after' ((i, o) ∷ xs) d s =
      let (r, there, t) = set_after slots nil cur last after after' i o xs d s in
      let ne = ne_nil last there in
      let written = link_next-live last after' there in
      (
        subst
            (λ b.
              Segment (link_next slots last after') nil (if b then after' else cur) last after'
                ((i, o) ∷ xs))
            (sym ne) (subst (λ ss. Segment ss nil cur last after' ((i, o) ∷ xs)) (sym written) t),
        rw written (
            Touches-set ((i, o) ∷ xs) slots last (live (record r { next = after' }))
              (has_last slots nil cur last after i o xs s)),
        λ h. (r, there),
      )

  -- the stretch after it
  pub link_prev_lem :
      (prev prev' cur last : ℕ) (xs : Cells)
      → Distinct xs
      → Segment slots prev cur last nil xs
      → Segment (link_prev slots cur prev') prev' cur (if cur == nil then prev' else last) nil xs
        × Touches xs slots (link_prev slots cur prev')
        × ((cur == nil) ≡ false → (r : RestingOrder) × (get_elem? slots cur ≡ some (live r)))
  link_prev_lem prev prev' cur last [] d s =
      let same : (cur == nil) ≡ true = ground (arith, s.1) in
      (rw same (refl, s.1), rw same (Touches-refl [] slots), λ h. cc)
  link_prev_lem prev prev' cur last ((i, o) ∷ xs) d s =
      let (r, there, t) = set_before slots prev prev' cur last nil i o xs d s in
      let here : get_elem? slots cur ≡ some (live r) = ap (get_elem? slots) s.0 ∙ there in
      let ne = ne_nil cur here in
      let written = link_prev-live cur prev' here in
      let t' : Segment (set slots cur (live (record r { prev = prev' }))) prev' cur last nil
          ((i, o) ∷ xs) =
        subst
          (λ k.
            Segment (set slots k (live (record r { prev = prev' }))) prev' cur last nil
              ((i, o) ∷ xs))
          (sym s.0) t in
      (
        subst
            (λ b.
              Segment (link_prev slots cur prev') prev' cur (if b then prev' else last) nil
                ((i, o) ∷ xs))
            (sym ne) (subst (λ ss. Segment ss prev' cur last nil ((i, o) ∷ xs)) (sym written) t'),
        rw written (
            Touches-set ((i, o) ∷ xs) slots cur (live (record r { prev = prev' }))
              (ground (arith, s.0))),
        λ h. (r, here),
      )
