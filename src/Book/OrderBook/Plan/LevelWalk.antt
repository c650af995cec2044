-- ===== src/Book/OrderBook/Plan/LevelWalk.antt =====
-- The walk over one level against the makers of its queue, in turn.
use deterministic_exchange_r.Prelude.{
  ℕ, zero, suc, ◌+◌, ◌-◌, ◌≤◌, ◌<◌, ◌≡◌, refl, sym, ap, ◌∙◌, List, [], ◌∷◌, ◌++◌, append-nil,
  append_assoc, true, false, some, ltb, leb, ◌==◌, if◌then◌else◌, get_elem?, length, length-append,
  min, Bool-cases, inl, inr, arith, get_elem?-some_lt,
}
use deterministic_exchange_r.Prelude.Outcome.{Outcome, ok, err, ◌>>=◌}
use deterministic_exchange_r.Types.{PriceTicks, RejectReason, report_capacity}
use deterministic_exchange_r.Book.Level.{OrderSlot, live, nil}
use deterministic_exchange_r.Book.Level.Segment.{Cells, Segment, linked}
use deterministic_exchange_r.Book.OrderBook.Plan.{FillEntry, Walk, push_fill, walk_level}
use deterministic_exchange_r.Book.OrderBook.Plan.Priority.{makers_at, allot, traded, traded-append}

-- What a walk has come to with these fills added: too many for the reports, or a later point.
abbrev pub finish : ℕ → Walk → List FillEntry → Outcome RejectReason Walk
finish capacity w fills =
    if ltb capacity (length w.fills + length fills)
    then err report_capacity
    else ok (record { fills = w.fills ++ fills; remaining = w.remaining - traded fills })

pub finish-nil : (capacity : ℕ) (w : Walk) → length w.fills ≤ capacity → finish capacity w [] ≡ ok w
finish-nil capacity w room =
    let fits : ltb capacity (length w.fills + 0) ≡ false = ground (arith, room) in
    let left : w.remaining - 0 ≡ w.remaining = omega arith in
    rw (fits, left)
      (ap (λ fills. ok (record { fills = fills; remaining = w.remaining })) (append-nil w.fills))

-- Adding some fills and then others is adding all of them.
pub finish-append :
    (capacity : ℕ) (w : Walk) (xs ys : List FillEntry)
    → (finish capacity w xs >>= λ w'. finish capacity w' ys) ≡ finish capacity w (xs ++ ys)
finish-append capacity w xs ys =
    let size = length-append xs ys in
    elim (Bool-cases (ltb capacity (length w.fills + length xs))) [
      | inl over ↦
          let over_all : ltb capacity (length w.fills + length (xs ++ ys)) ≡ true =
            ground (arith, over, size) in
          rw (over, over_all) refl
      | inr within ↦
          let count : length (w.fills ++ xs) + length ys ≡ length w.fills + length (xs ++ ys) =
            omega (arith, size, length-append w.fills xs) in
          let left : w.remaining - traded xs - traded ys ≡ w.remaining - traded (xs ++ ys) =
            omega (arith, traded-append xs ys) in
          rw (within, count, left, append_assoc w.fills xs ys) refl
    ]

-- Adding one fill to a walk, and then others.
finish-cons :
    (capacity : ℕ) (w : Walk) (fill : FillEntry) (rest : List FillEntry)
    → finish capacity
        (record { fills = w.fills ++ fill ∷ []; remaining = w.remaining - fill.quantity })
        rest
      ≡ finish capacity w (fill ∷ rest)
finish-cons capacity w fill rest =
    let count : length (w.fills ++ fill ∷ []) + length rest ≡ length w.fills + suc (length rest) =
      omega (arith, length-append w.fills (fill ∷ [])) in
    let left : w.remaining - fill.quantity - traded rest
        ≡ w.remaining - (fill.quantity + traded rest) =
      omega arith in
    rw (count, left, append_assoc w.fills (fill ∷ []) rest) refl

pub walk_level-allot :
    (fuel capacity level : ℕ) (price : PriceTicks) (slots : List OrderSlot) (prev cur last : ℕ)
    (cells : Cells) (w : Walk)
    → length slots < nil
    → Segment slots prev cur last nil cells
    → length cells < fuel
    → length w.fills ≤ capacity
    → walk_level fuel capacity level price slots cur w
      ≡ finish capacity w (allot w.remaining (makers_at level price cells))
unfolding walk_level push_fill
walk_level-allot zero capacity level price slots prev cur last cells w small s enough room =
    absurd (omega arith)
walk_level-allot (suc fuel) capacity level price slots prev cur last [] w small s enough room =
    let stop : (cur == nil) ≡ true = ground (arith, s.1) in
    rw (walk_level, stop) (sym (finish-nil capacity w room))
walk_level-allot (suc fuel) capacity level price slots prev cur last ((i, o) ∷ cells) w small s
      enough room =
    let here : get_elem? slots cur ≡ some (live (linked prev s.1 o)) =
      ap (get_elem? slots) s.0 ∙ s.2 in
    let inside = get_elem?-some_lt slots cur here in
    let on : (cur == nil) ≡ false = ground (arith, inside, small) in
    elim (Bool-cases (w.remaining == 0)) [
      | inl done ↦ rw (walk_level, on, done) (sym (finish-nil capacity w room))
      | inr more ↦
          let given = min w.remaining o.quantity in
          let fill : FillEntry = record {
            level_index = level;
            slot = i;
            order_id = o.id;
            price = price;
            quantity = given;
          } in
          let rest = allot (w.remaining - given) (makers_at level price cells) in
          rw (walk_level, on, more, here, s.0, push_fill)
            (elim (Bool-cases (leb capacity (length w.fills))) [
              | inl full ↦
                  let over : ltb capacity (length w.fills + suc (length rest)) ≡ true =
                    ground (arith, full) in
                  rw (full, over) refl
              | inr free ↦
                  let w' : Walk = record {
                    fills = w.fills ++ fill ∷ [];
                    remaining = w.remaining - given;
                  } in
                  let room' : length w'.fills ≤ capacity =
                    ground (arith, free, length-append w.fills (fill ∷ [])) in
                  rw free (
                    walk_level-allot fuel capacity level price slots i s.1 last cells w' small s.3
                      (omega arith) room'
                    ∙ finish-cons capacity w fill rest)
            ])
    ]
