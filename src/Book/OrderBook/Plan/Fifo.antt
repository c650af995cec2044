-- ===== src/Book/OrderBook/Plan/Fifo.antt =====
-- The walk over the linked levels against the makers in price-time priority.
use deterministic_exchange_r.Prelude.{
  ℕ, ◌+◌, ◌-◌, ◌≤◌, ◌≡◌, refl, sym, ap, ◌∙◌, List, [], ◌∷◌, ◌++◌, true, false, ltb, ◌==◌,
  if◌then◌else◌, length, length-append, Bool-cases, inl, inr, arith,
}
use deterministic_exchange_r.Prelude.Outcome.{Outcome, ok, err, ◌>>=◌}
use deterministic_exchange_r.Types.{PriceTicks, Side, buy, sell, RejectReason, report_capacity}
use deterministic_exchange_r.Book.Level.{nil}
use deterministic_exchange_r.Book.Level.Segment.{Cells}
use deterministic_exchange_r.Book.LevelIndex.{Entry, comes_before}
use deterministic_exchange_r.Book.LevelIndex.Sorted.{Sorted, AllBehind}
use deterministic_exchange_r.Book.OrderBook.{BookSide, opposite, is_descending}
use deterministic_exchange_r.Book.OrderBook.Plan.{FillEntry, Walk, walk_levels, crosses}
use deterministic_exchange_r.Book.OrderBook.Plan.Priority.{
  Backed, Maker, makers_at, makers, is_acceptable, accepted, allot, traded, supply, by_priority,
  traded-allot, allot-zero, allot-append,
}
use deterministic_exchange_r.Book.OrderBook.Plan.LevelWalk.{
  finish, finish-nil, finish-append, walk_level-allot,
}

-- At one price all the makers are acceptable, or none is.
accepted-makers_at :
    (side : Side) (limit : PriceTicks) (level : ℕ) (price : PriceTicks) (cells : Cells)
    (ms : List Maker)
    → accepted side limit (makers_at level price cells ++ ms) ≡ (
        if is_acceptable side limit price
        then makers_at level price cells ++ accepted side limit ms
        else accepted side limit ms)
accepted-makers_at side limit level price [] ms =
    elim (Bool-cases (is_acceptable side limit price)) [
      | inl good ↦ rw good refl
      | inr beyond ↦ rw beyond refl
    ]
accepted-makers_at side limit level price ((i, o) ∷ cells) ms =
    let rest = accepted-makers_at side limit level price cells ms in
    elim (Bool-cases (is_acceptable side limit price)) [
      | inl good ↦
          let m : Maker = record { level = level; price = price; slot = i; order = o } in
          let rest' = rw good at rest in rw good (ap (λ xs. m ∷ xs) rest')
      | inr beyond ↦ let rest' = rw beyond at rest in rw beyond rest'
    ]

-- The code's test of the limit is the right one.
crosses-is_acceptable :
    (side : Side) (limit price : PriceTicks)
    → crosses side price limit ≡ is_acceptable side limit price
crosses-is_acceptable buy limit price = ground arith
crosses-is_acceptable sell limit price = ground arith

worse :
    (side : Side) (limit a b : PriceTicks)
    → comes_before (is_descending (opposite side)) a b ≡ true
    → is_acceptable side limit a ≡ false
    → is_acceptable side limit b ≡ false
worse buy limit a b h beyond = ground arith
worse sell limit a b h beyond = ground arith

-- What is behind an unacceptable price is not acceptable.
behind_unacceptable :
    (side : Side) (limit price : PriceTicks) (es : List Entry) (queues : List Cells)
    → AllBehind (is_descending (opposite side)) price es
    → is_acceptable side limit price ≡ false
    → accepted side limit (makers es queues) ≡ []
behind_unacceptable side limit price [] queues b beyond = refl
behind_unacceptable side limit price (e ∷ es) [] b beyond = refl
behind_unacceptable side limit price (e ∷ es) (q ∷ qs) b beyond =
    let beyond' = worse side limit price e.0 b.0 beyond in
    accepted-makers_at side limit e.1 e.0 q (makers es qs)
    ∙ rw beyond' (behind_unacceptable side limit price es qs b.1 beyond)

-- From any point of the walk, the fills are those of the acceptable makers of the other entries.
walk_levels-allot :
    (s : BookSide) (side : Side) (limit : PriceTicks) (capacity : ℕ) (es : List Entry)
    (queues : List Cells) (w : Walk)
    → Backed s es queues
    → Sorted (is_descending (opposite side)) es
    → length w.fills ≤ capacity
    → walk_levels s side limit capacity es w
      ≡ finish capacity w (allot w.remaining (accepted side limit (makers es queues)))
unfolding walk_levels
walk_levels-allot s side limit capacity [] queues w b sorted room = sym (finish-nil capacity w room)
walk_levels-allot s side limit capacity (e ∷ es) [] w b sorted room = absurd b
walk_levels-allot s side limit capacity (e ∷ es) (q ∷ qs) w b sorted room =
    let here = makers_at e.1 e.0 q in
    let later = accepted side limit (makers es qs) in
    let split = accepted-makers_at side limit e.1 e.0 q (makers es qs) in
    elim (Bool-cases (w.remaining == 0)) [
      | inl done ↦
          let none_left : w.remaining ≡ 0 = ground (arith, done) in
          let nothing =
            ap (λ k. allot k (accepted side limit (makers (e ∷ es) (q ∷ qs)))) none_left
            ∙ allot-zero _ in
          rw (walk_levels, done) (sym (ap (finish capacity w) nothing ∙ finish-nil capacity w room))
      | inr more ↦ elim (Bool-cases (is_acceptable side limit e.0)) [
        | inr beyond ↦
            let gone : later ≡ [] = behind_unacceptable side limit e.0 es qs sorted.0 beyond in
            let skipped = rw beyond at split in
            let all : accepted side limit (makers (e ∷ es) (q ∷ qs)) ≡ [] = skipped ∙ gone in
            rw (walk_levels, more, crosses-is_acceptable side limit e.0, beyond, all)
              (sym (finish-nil capacity w room))
        | inl good ↦
            let (l, there, refines) = b.0 in
            let h = refines.1 in
            let fills = allot w.remaining here in
            let one =
              walk_level-allot (length l.slots + 1) capacity e.1 e.0 l.slots nil l.head l.tail q w
                h.small h.chain (omega (arith, h.counted)) room in
            let all : accepted side limit (makers (e ∷ es) (q ∷ qs)) ≡ here ++ later =
              rw good at split in
            let step : (finish capacity w fills >>= λ w'. walk_levels s side limit capacity es w')
                ≡ (finish capacity w fills >>= λ w'.
                    finish capacity w' (allot (w.remaining - traded fills) later)) =
              (elim (Bool-cases (ltb capacity (length w.fills + length fills))) [
                | inl over ↦ rw over refl
                | inr within ↦
                    let w' : Walk = record {
                      fills = w.fills ++ fills;
                      remaining = w.remaining - traded fills;
                    } in
                    let room' : length w'.fills ≤ capacity =
                      ground (arith, within, length-append w.fills fills) in
                    rw within (walk_levels-allot s side limit capacity es qs w' b.1 sorted.1 room')
              ]) in
            let cut = finish-append capacity w fills (allot (w.remaining - traded fills) later) in
            rw
              (
                walk_levels,
                more,
                crosses-is_acceptable side limit e.0,
                good,
                there,
                one,
                all,
                allot-append w.remaining here later,
              )
              (step ∙ cut)
      ]
    ]

abbrev finished : ℕ → List FillEntry → ℕ → Outcome RejectReason Walk
finished capacity fills remaining =
    if ltb capacity (length fills)
    then err report_capacity
    else ok (record { fills = fills; remaining = remaining })

-- On a side whose levels hold their queues, its entries sorted, the walk is price-time priority: the fills
-- are what the makers give in turn, the best price first and the first of the queue before the others, as
-- far as the limit price accepts them; it refuses when the fills are more than the room for reports.
pub walk_levels-by_priority :
    (s : BookSide) (side : Side) (limit : PriceTicks) (capacity wanted : ℕ) (es : List Entry)
    (queues : List Cells)
    → Backed s es queues
    → Sorted (is_descending (opposite side)) es
    → walk_levels s side limit capacity es (record { fills = []; remaining = wanted })
      ≡ by_priority capacity wanted (accepted side limit (makers es queues))
walk_levels-by_priority s side limit capacity wanted es queues b sorted =
    let ms = accepted side limit (makers es queues) in
    let left : wanted - traded (allot wanted ms) ≡ wanted - supply ms =
      omega (arith, traded-allot wanted ms) in
    let count : 0 + length (allot wanted ms) ≡ length (allot wanted ms) = omega arith in
    let run =
      walk_levels-allot s side limit capacity es queues (record { fills = []; remaining = wanted })
        b sorted (omega arith) in
    let run' = rw count at run in run' ∙ ap (finished capacity (allot wanted ms)) left
