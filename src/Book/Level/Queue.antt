-- ===== src/Book/Level/Queue.antt =====
-- A level against the queue that it stands for.
use deterministic_exchange_r.Prelude.{
  ℕ, ◌+◌, ◌<◌, ◌≡◌, ◌≢◌, refl, sym, ap, ◌∙◌, List, [], ◌∷◌, ◌++◌, true, false, not, ◌||◌, ◌&&◌,
  some, ◌==◌, ltb, leb, if◌then◌else◌, Bool-cases, inl, inr, arith, get_elem?, set, length,
  length-append, length-set, get_elem?-set_self, get_elem?-set_ne, get_elem?-some_lt,
}
use deterministic_exchange_r.Prelude.Words.{u64_mod, u128_mod}
use deterministic_exchange_r.Prelude.Outcome.{ok}
use deterministic_exchange_r.Book.Level.{
  RestingOrder, OrderSlot, free, live, nil, PriceLevel, is_live, append_at, push_tail,
}
use deterministic_exchange_r.Book.Level.Segment.{
  Cells, has, Distinct, linked, Segment, Segment-append, Segment-set, Segment-live,
}
use deterministic_exchange_r.Book.Level.Links.{link_next, link_next_lem}
use deterministic_exchange_r.Book.Level.Cells.{
  Distinct-push, total, total-append, AllFit, AllFit-append, total-le, FreeChain, is_among,
  NoRepeat, FreeChain-frame, FreeChain-free,
}

-- The level holds the cells, first to last, and its other slots are free.
pub record Holds (l : PriceLevel) (cells : Cells) (spare : List ℕ) : Type 0 where
  pub chain : Segment l.slots nil l.head l.tail nil cells
  pub free_chain : FreeChain l.slots l.free_head spare
  pub distinct : Distinct cells
  pub no_repeat : NoRepeat spare
  pub counted : length cells + length spare ≡ length l.slots
  pub len : l.len ≡ length cells
  pub aggregate : l.aggregate_quantity ≡ total cells
  pub fit : AllFit cells
  pub small : length l.slots < nil

abbrev pub Refines : PriceLevel → Cells → Type 0
Refines l cells = (spare : List ℕ) × Holds l cells spare

-- No slot is both free and in the queue.
pub free-apart :
    (l : PriceLevel) (cells : Cells) (spare : List ℕ) (r : Holds l cells spare) (j : ℕ)
    → is_among j spare ≡ true
    → has j cells ≡ false
free-apart l cells spare r j h = elim (Bool-cases (has j cells)) [
  | inl inside ↦
      let (o, is_taken) = Segment-live l.slots nil l.head l.tail nil j cells inside r.chain in
      let (next, is_free) = FreeChain-free l.slots l.free_head j spare h r.free_chain in
      let clash : some (live o) ≡ some (free next) = sym is_taken ∙ is_free in cc
  | inr out ↦ out
]

module _ (l : PriceLevel) (order : RestingOrder) (cells : Cells) (f : ℕ) (rest : List ℕ)
    (next_free : ℕ) (chain : Segment l.slots nil l.head l.tail nil cells)
    (distinct : Distinct cells) (small : length l.slots < nil)
    (at_f : get_elem? l.slots f ≡ some (free next_free)) (apart : has f cells ≡ false)
    (rest_apart : (j : ℕ) → is_among j rest ≡ true → has j cells ≡ false)
    (f_apart : is_among f rest ≡ false) (rest_chain : FreeChain l.slots next_free rest) where
  abbrev relinked : List OrderSlot
  relinked = link_next l.slots l.tail f

  abbrev appended : List OrderSlot
  appended = set relinked f (live (linked l.tail nil order))

  append-Segment :
      Segment appended nil (if l.tail == nil then f else l.head) f nil (cells ++ (f, order) ∷ [])
  append-Segment =
      let (s, touched, _) = link_next_lem l.slots small l.head l.tail nil f cells distinct chain in
      let inside : f < length relinked =
        omega (arith, touched.same_length, get_elem?-some_lt l.slots f at_f) in
      Segment-append appended nil (if l.tail == nil then f else l.head) l.tail f f nil cells
        ((f, order) ∷ [])
        (Segment-set relinked nil (if l.tail == nil then f else l.head) l.tail f f
          (live (linked l.tail nil order)) cells apart s)
        (
          refl,
          nil,
          get_elem?-set_self relinked f (live (linked l.tail nil order)) inside,
          (refl, refl),
        )

  append-FreeChain : FreeChain appended next_free rest
  append-FreeChain =
      let (s, touched, _) = link_next_lem l.slots small l.head l.tail nil f cells distinct chain in
      FreeChain-frame l.slots appended next_free rest
        (λ j h.
          let ne : f ≢ j = λ same. let clash = rw (← same) at h in cc in
          get_elem?-set_ne relinked (live (linked l.tail nil order)) ne
          ∙ touched.outside j (rest_apart j h))
        rest_chain

  append-length : length appended ≡ length l.slots
  append-length =
      let (s, touched, _) = link_next_lem l.slots small l.head l.tail nil f cells distinct chain in
      length-set relinked f (live (linked l.tail nil order)) ∙ touched.same_length

is_live-some :
    (slots : List OrderSlot) (i : ℕ) {r : RestingOrder}
    → get_elem? slots i ≡ some (live r)
    → is_live slots i ≡ true
is_live-some slots i h = ground (arith, h)

-- the test on a neighbour's slot
pub neighbour_ok :
    (slots : List OrderSlot) (i : ℕ)
    → ((i == nil) ≡ false → (r : RestingOrder) × (get_elem? slots i ≡ some (live r)))
    → (not (i == nil) && not (is_live slots i)) ≡ false
neighbour_ok slots i h = elim (Bool-cases (i == nil)) [
  | inl none_there ↦ ground (arith, none_there)
  | inr there ↦
      let there_live = is_live-some slots i (h there).1 in ground (arith, there, there_live)
]

push_tail-taken :
    (l : PriceLevel) (order : RestingOrder) (next_free : ℕ)
    → (l.free_head == nil || leb (length l.slots) l.len) ≡ false
    → get_elem? l.slots l.free_head ≡ some (free next_free)
    → (not (l.tail == nil) && not (is_live l.slots l.tail)) ≡ false
    → (ltb (l.aggregate_quantity + order.quantity) u128_mod && ltb (l.len + 1) u64_mod) ≡ true
    → push_tail order l ≡ (ok (some l.free_head), append_at l.free_head next_free order l)
unfolding push_tail
push_tail-taken l order next_free t1 there t2 t3 = rw (push_tail, t1, there, t2, t3)

-- A level with a free slot takes an order at the end of its queue, and keeps its price and its size.
pub push_tail-Holds :
    (l : PriceLevel) (order : RestingOrder) (cells : Cells) (spare : List ℕ)
    → Holds l cells spare
    → order.quantity < u64_mod
    → length cells < length l.slots
    → (slot : ℕ) × (l' : PriceLevel) × (push_tail order l ≡ (ok (some slot), l'))
      × (l'.price ≡ l.price)
      × (length l'.slots ≡ length l.slots)
      × Refines l' (cells ++ (slot, order) ∷ [])
push_tail-Holds l order cells [] h fits room = absurd (omega (arith, h.counted))
push_tail-Holds l order cells (f ∷ rest) h fits room =
    let at_head = h.free_chain.0 in
    let next_free = h.free_chain.1 in
    let at_f : get_elem? l.slots f ≡ some (free next_free) = h.free_chain.2 in
    let inside = get_elem?-some_lt l.slots f at_f in
    let there : get_elem? l.slots l.free_head ≡ some (free next_free) =
      ap (get_elem? l.slots) at_head ∙ at_f in
    let apart = free-apart l cells (f ∷ rest) h f (ground arith) in
    let rest_apart : (j : ℕ) → is_among j rest ≡ true → has j cells ≡ false =
      λ j m. free-apart l cells (f ∷ rest) h j (ground (arith, m)) in
    let (s, touched, live_tail) =
      link_next_lem l.slots h.small l.head l.tail nil f cells h.distinct h.chain in
    let bound = total-le cells h.fit in
    let t1 : (l.free_head == nil || leb (length l.slots) l.len) ≡ false =
      ground (arith, inside, at_head, h.small, h.len, room) in
    let t2 = neighbour_ok l.slots l.tail live_tail in
    let t3 : (ltb (l.aggregate_quantity + order.quantity) u128_mod && ltb (l.len + 1) u64_mod)
        ≡ true =
      (let t3a : l.aggregate_quantity + order.quantity < u128_mod =
          omega (arith, bound, h.aggregate, h.small, room, fits) in
        let t3b : l.len + 1 < u64_mod = omega (arith, h.len, h.small, room) in
        ground (arith, t3a, t3b)) in
    let sized =
      append-length l order cells f rest next_free h.chain h.distinct h.small at_f apart rest_apart
        h.no_repeat.0 h.free_chain.3 in
    (
      f,
      append_at f next_free order l,
      push_tail-taken l order next_free t1 there t2 t3
          ∙ ap (λ k. (ok (some k), append_at k next_free order l)) at_head,
      refl,
      sized,
      (
        rest,
        record {
          chain =
              append-Segment l order cells f rest next_free h.chain h.distinct h.small at_f apart
                rest_apart h.no_repeat.0 h.free_chain.3;
          free_chain =
              append-FreeChain l order cells f rest next_free h.chain h.distinct h.small at_f apart
                rest_apart h.no_repeat.0 h.free_chain.3;
          distinct = Distinct-push cells f order h.distinct apart;
          no_repeat = h.no_repeat.1;
          counted = omega (arith, h.counted, sized, length-append cells ((f, order) ∷ []));
          len = omega (arith, h.len, length-append cells ((f, order) ∷ []));
          aggregate = omega (arith, h.aggregate, total-append cells ((f, order) ∷ []));
          fit = AllFit-append cells ((f, order) ∷ []) h.fit (fits, tt);
          small = omega (arith, sized, h.small);
        },
      ),
    )
