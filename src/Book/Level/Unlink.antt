-- ===== src/Book/Level/Unlink.antt =====
-- `unlink` takes one order out of the queue, wherever it stands.
use deterministic_exchange_r.Prelude.{
  ℕ, ◌≤◌, ◌<◌, ◌≡◌, ◌≢◌, refl, sym, ◌∙◌, List, ◌∷◌, ◌++◌, true, false, ◌&&◌, some, ◌==◌, leb,
  if◌then◌else◌, Bool-cases, inl, inr, arith, get_elem?, set, length, length-append, length-set,
  get_elem?-set_self, get_elem?-set_ne, get_elem?-some_lt,
}
use deterministic_exchange_r.Prelude.Outcome.{ok}
use deterministic_exchange_r.Book.Level.{
  RestingOrder, OrderSlot, free, live, nil, PriceLevel, detach, unlink,
}
use deterministic_exchange_r.Book.Level.Segment.{
  Cells, has, linked, Segment, Segment-append, Segment-split, Segment-frame, Segment-set,
}
use deterministic_exchange_r.Book.Level.Links.{link_next, link_prev, link_next_lem, link_prev_lem}
use deterministic_exchange_r.Book.Level.Cells.{
  has-append, Parted, Distinct-Parted, total-append, AllFit-append, AllFit-parts, FreeChain,
  is_among, FreeChain-frame, FreeChain-free,
}
use deterministic_exchange_r.Book.Level.Queue.{Holds, Refines, free-apart, neighbour_ok}

module _ (l : PriceLevel) (i : ℕ) (o : RestingOrder) (xs ys : Cells) (spare : List ℕ)
    (h : Holds l (xs ++ (i, o) ∷ ys) spare) (p n : ℕ)
    (at_i : get_elem? l.slots i ≡ some (live (linked p n o)))
    (left : Segment l.slots nil l.head p i xs) (right : Segment l.slots i n l.tail nil ys) where
  abbrev bridged_left : List OrderSlot
  bridged_left = link_next l.slots p n

  abbrev bridged : List OrderSlot
  bridged = link_prev bridged_left n p

  abbrev detached : List OrderSlot
  detached = set bridged i (free l.free_head)

  parted : Parted xs i ys
  parted = Distinct-Parted xs i o ys h.distinct

  -- What the two writes leave of the stretches, and of all else.
  record Bridged : Type 0 where
    whole :
        Segment detached nil
          (if p == nil then n else l.head)
          (if n == nil then p else l.tail)
          nil
          (xs ++ ys)
    size : length bridged ≡ length l.slots
    else_same :
        (j : ℕ) → has j xs ≡ false → has j ys ≡ false → get_elem? bridged j ≡ get_elem? l.slots j

  is_bridged : Bridged
  is_bridged =
      let (s1, touched1, _) = link_next_lem l.slots h.small l.head p i n xs parted.left left in
      let small1 : length bridged_left < nil = omega (arith, touched1.same_length, h.small) in
      let right1 : Segment bridged_left i n l.tail nil ys =
        Segment-frame l.slots bridged_left i n l.tail nil ys
          (λ j m. touched1.outside j (elim (Bool-cases (has j xs)) [
            | inl both ↦ let clash = parted.apart j both in cc
            | inr out ↦ out
          ]))
          right in
      let (s2, touched2, _) =
        link_prev_lem bridged_left small1 i p n l.tail ys parted.right right1 in
      let s1' : Segment bridged nil (if p == nil then n else l.head) p n xs =
        Segment-frame bridged_left bridged nil (if p == nil then n else l.head) p n xs
          (λ j m. touched2.outside j (parted.apart j m)) s1 in
      record {
        whole =
            Segment-append detached nil (if p == nil then n else l.head) p n
              (if n == nil then p else l.tail) nil xs ys
              (Segment-set bridged nil (if p == nil then n else l.head) p n i (free l.free_head) xs
                parted.before s1')
              (Segment-set bridged p n (if n == nil then p else l.tail) nil i (free l.free_head) ys
                parted.behind s2);
        size = touched2.same_length ∙ touched1.same_length;
        else_same =
            λ j out_left out_right. touched2.outside j out_right ∙ touched1.outside j out_left;
      }

  not_spare : is_among i spare ≡ false
  not_spare = elim (Bool-cases (is_among i spare)) [
    | inl m ↦
        let (next, is_free) = FreeChain-free l.slots l.free_head i spare m h.free_chain in
        let clash : some (live (linked p n o)) ≡ some (free next) = sym at_i ∙ is_free in cc
    | inr out ↦ out
  ]

  detached-FreeChain : FreeChain detached i (i ∷ spare)
  detached-FreeChain =
      let inside : i < length bridged =
        omega (arith, is_bridged.size, get_elem?-some_lt l.slots i at_i) in
      (
        refl,
        l.free_head,
        get_elem?-set_self bridged i (free l.free_head) inside,
        FreeChain-frame l.slots detached l.free_head spare
            (λ j m.
              let out = free-apart l (xs ++ (i, o) ∷ ys) spare h j m in
              let split = has-append j xs ((i, o) ∷ ys) in
              let ne : i ≢ j = λ same. let clash = rw same at not_spare in cc in
              get_elem?-set_ne bridged (free l.free_head) ne
              ∙ is_bridged.else_same j (ground (arith, out, split)) (ground (arith, out, split)))
            h.free_chain,
      )

  detach-Holds : Holds (detach i (linked p n o) l) (xs ++ ys) (i ∷ spare)
  detach-Holds =
      let counts = length-append xs ((i, o) ∷ ys) in
      let counts' = length-append xs ys in
      let sums = total-append xs ((i, o) ∷ ys) in
      let sums' = total-append xs ys in
      let size : length detached ≡ length l.slots =
        length-set bridged i (free l.free_head) ∙ is_bridged.size in
      let (fit_left, fit_right) = AllFit-parts xs ((i, o) ∷ ys) h.fit in
      record {
        chain = is_bridged.whole;
        free_chain = detached-FreeChain;
        distinct = parted.both;
        no_repeat = (not_spare, h.no_repeat);
        counted = omega (arith, h.counted, size, counts, counts');
        len = omega (arith, h.len, counts, counts');
        aggregate = omega (arith, h.aggregate, sums, sums');
        fit = AllFit-append xs ys fit_left fit_right.1;
        small = omega (arith, size, h.small);
      }

  unlink_taken : unlink i l ≡ (ok (some (linked p n o)), detach i (linked p n o) l)
  unfolding unlink
  unlink_taken =
      let (_, _, live_left) = link_next_lem l.slots h.small l.head p i n xs parted.left left in
      let (_, _, live_right) = link_prev_lem l.slots h.small i p n l.tail ys parted.right right in
      let t1 = neighbour_ok l.slots p live_left in
      let t2 = neighbour_ok l.slots n live_right in
      let count : 1 ≤ l.len = omega (arith, h.len, length-append xs ((i, o) ∷ ys)) in
      let sum : o.quantity ≤ l.aggregate_quantity =
        omega (arith, h.aggregate, total-append xs ((i, o) ∷ ys)) in
      let t3 : (leb 1 l.len && leb o.quantity l.aggregate_quantity) ≡ true =
        ground (arith, count, sum) in
      rw (unlink, at_i, t1, t2, t3)

-- Unlinking an order of the queue returns it with its links, and leaves the queue without it.
pub unlink-Holds :
    (l : PriceLevel) (i : ℕ) (o : RestingOrder) (xs ys : Cells) (spare : List ℕ)
    → Holds l (xs ++ (i, o) ∷ ys) spare
    → (prev : ℕ) × (next : ℕ) × (l' : PriceLevel) × (unlink i l
        ≡ (ok (some (linked prev next o)), l'))
      × (l'.price ≡ l.price)
      × (length l'.slots ≡ length l.slots)
      × Refines l' (xs ++ ys)
unlink-Holds l i o xs ys spare h =
    let (p, between, left, t) =
      Segment-split l.slots nil l.head l.tail nil xs ((i, o) ∷ ys) h.chain in
    let left' : Segment l.slots nil l.head p i xs = rw t.0 at left in
    let n = t.1 in
    let holds = detach-Holds l i o xs ys spare h p n t.2 left' t.3 in
    let size : length (detach i (linked p n o) l).slots ≡ length l.slots =
      length-set _ i (free l.free_head) ∙ (is_bridged l i o xs ys spare h p n t.2 left' t.3).size in
    (
      p,
      n,
      detach i (linked p n o) l,
      unlink_taken l i o xs ys spare h p n t.2 left' t.3,
      refl,
      size,
      (i ∷ spare, holds),
    )
