-- ===== src/Book/Level/Visit.antt =====
-- Reading a level's queue: one order, or all of them; a new level; and reducing an order in place.
use deterministic_exchange_r.Prelude.{
  ℕ, suc, ◌+◌, ◌-◌, ◌≤◌, ◌<◌, ◌≡◌, ◌≢◌, refl, sym, ap, ◌∙◌, List, [], ◌∷◌, ◌++◌, true, false, some,
  ◌==◌, ltb, leb, arith, get_elem?, set, length, length-append, length-set, get_elem?-set_self,
  get_elem?-set_ne, get_elem?-some_lt,
}
use deterministic_exchange_r.Prelude.Outcome.{ok}
use deterministic_exchange_r.Book.Level.{
  RestingOrder, OrderSlot, free, live, nil, PriceLevel, reduce_quantity,
}
use deterministic_exchange_r.Book.Level.Segment.{Cells, Distinct, linked, Segment, Segment-set}
use deterministic_exchange_r.Book.Level.Cells.{
  has-append, Distinct-change, total-append, AllFit-append, AllFit-parts, FreeChain-frame,
  FreeChain-free,
}
use deterministic_exchange_r.Prelude.{zero}
use deterministic_exchange_r.Book.Level.{visited, for_each_live}
use deterministic_exchange_r.Book.Level.Queue.{Holds, Refines}

-- The orders of the cells in turn, but for the links of each.
abbrev pub SameOrders : List RestingOrder → Cells → Type 0
SameOrders [] [] = Unit {0}
SameOrders (r ∷ rs) ((i, o) ∷ cells) = (linked 0 0 r ≡ linked 0 0 o) × SameOrders rs cells
SameOrders _ _ = ⊥

visited-SameOrders :
    (fuel : ℕ) (slots : List OrderSlot) (prev cur last : ℕ) (cells : Cells)
    → length slots < nil
    → Segment slots prev cur last nil cells
    → length cells < fuel
    → (rs : List RestingOrder) × (visited fuel slots cur ≡ some rs) × SameOrders rs cells
unfolding visited
visited-SameOrders zero slots prev cur last cells small s enough = absurd (omega arith)
visited-SameOrders (suc fuel) slots prev cur last [] small s enough =
    let stop : (cur == nil) ≡ true = ground (arith, s.1) in ([], rw (visited, stop), tt)
visited-SameOrders (suc fuel) slots prev cur last ((i, o) ∷ cells) small s enough =
    let here : get_elem? slots cur ≡ some (live (linked prev s.1 o)) =
      ap (get_elem? slots) s.0 ∙ s.2 in
    let inside = get_elem?-some_lt slots cur here in
    let on : (cur == nil) ≡ false = ground (arith, inside, small) in
    let (rs, rest, same) = visited-SameOrders fuel slots i s.1 last cells small s.3 (omega arith) in
    (linked prev s.1 o ∷ rs, rw (visited, on, here, rest), (refl, same))

-- `for_each_live` ends, and visits exactly the orders of the queue, first to last.
pub for_each_live-SameOrders :
    (l : PriceLevel) (cells : Cells)
    → Refines l cells
    → (rs : List RestingOrder) × (for_each_live l ≡ some rs) × SameOrders rs cells
unfolding for_each_live
for_each_live-SameOrders l cells r =
    let h = r.1 in
    visited-SameOrders (length l.slots + 1) l.slots nil l.head l.tail cells h.small h.chain
      (omega (arith, h.counted))

-- Changing an order where it stands, links and all, changes that cell.
pub change-Segment :
    (slots : List OrderSlot) (prev cur last after i : ℕ) (o o' : RestingOrder) (xs ys : Cells)
    → Distinct (xs ++ (i, o) ∷ ys)
    → Segment slots prev cur last after (xs ++ (i, o) ∷ ys)
    → (p : ℕ) × (n : ℕ) × (get_elem? slots i ≡ some (live (linked p n o)))
      × Segment (set slots i (live (linked p n o'))) prev cur last after (xs ++ (i, o') ∷ ys)
change-Segment slots prev cur last after i o o' [] ys d s = (
  prev,
  s.1,
  s.2,
  (
    s.0,
    s.1,
    get_elem?-set_self slots i (live (linked prev s.1 o')) (get_elem?-some_lt slots i s.2),
    Segment-set slots i s.1 last after i (live (linked prev s.1 o')) ys d.0 s.3,
  ),
)
change-Segment slots prev cur last after i o o' ((k, q) ∷ xs) ys d s =
    let (p, n, there, t) = change-Segment slots k s.1 last after i o o' xs ys d.1 s.3 in
    let apart : i ≢ k = ground (arith, d.0, has-append k xs ((i, o) ∷ ys)) in
    (p, n, there, (s.0, s.1, get_elem?-set_ne slots (live (linked p n o')) apart ∙ s.2, t))

abbrev pub with_quantity : ℕ → RestingOrder → RestingOrder
with_quantity q o = record o { quantity = q }

-- Reducing an order of the queue, by no more than its quantity, changes its quantity in place and
-- nothing else of the queue.
pub reduce_quantity-Holds :
    (l : PriceLevel) (i q : ℕ) (o : RestingOrder) (xs ys : Cells) (spare : List ℕ)
    → Holds l (xs ++ (i, o) ∷ ys) spare
    → q ≤ o.quantity
    → (l' : PriceLevel) × (reduce_quantity i q l ≡ (ok (some tt), l'))
      × (l'.price ≡ l.price)
      × (length l'.slots ≡ length l.slots)
      × Holds l' (xs ++ (i, with_quantity (o.quantity - q) o) ∷ ys) spare
unfolding reduce_quantity
reduce_quantity-Holds l i q o xs ys spare h small_q =
    let o' = with_quantity (o.quantity - q) o in
    let (p, n, there, chain) =
      change-Segment l.slots nil l.head l.tail nil i o o' xs ys h.distinct h.chain in
    let slots' = set l.slots i (live (linked p n o')) in
    let (fit_left, fit_right) = AllFit-parts xs ((i, o) ∷ ys) h.fit in
    let sums = total-append xs ((i, o) ∷ ys) in
    let sums' = total-append xs ((i, o') ∷ ys) in
    let counts = length-append xs ((i, o) ∷ ys) in
    let counts' = length-append xs ((i, o') ∷ ys) in
    let size = length-set l.slots i (live (linked p n o')) in
    let t1 : ltb o.quantity q ≡ false = ground (arith, small_q) in
    let t2 : leb q l.aggregate_quantity ≡ true =
      (let le : q ≤ l.aggregate_quantity = omega (arith, h.aggregate, sums, small_q) in
        ground (arith, le)) in
    (
      record l { slots = slots'; aggregate_quantity = l.aggregate_quantity - q },
      rw (reduce_quantity, there, t1, t2),
      refl,
      size,
      record {
        chain = chain;
        free_chain =
            FreeChain-frame l.slots slots' l.free_head spare
              (λ j m. get_elem?-set_ne l.slots (live (linked p n o')) (λ same.
                let (next, is_free) = FreeChain-free l.slots l.free_head j spare m h.free_chain in
                let clash : some (live (linked p n o)) ≡ some (free next) =
                  sym there ∙ ap (get_elem? l.slots) same ∙ is_free in
                cc))
              h.free_chain;
        distinct = Distinct-change xs i o o' ys h.distinct;
        no_repeat = h.no_repeat;
        counted = omega (arith, h.counted, counts, counts', size);
        len = omega (arith, h.len, counts, counts');
        aggregate = omega (arith, h.aggregate, sums, sums', small_q);
        fit = AllFit-append xs ((i, o') ∷ ys) fit_left (omega (arith, fit_right.0), fit_right.1);
        small = omega (arith, size, h.small);
      },
    )
