-- ===== src/Book/Level/Fresh.antt =====
-- `PriceLevel::new`: an empty queue, with every slot on the free list.
use deterministic_exchange_r.Prelude.{
  ℕ, zero, suc, ◌+◌, ◌<◌, ◌≡◌, refl, ap, ◌∙◌, List, [], ◌∷◌, false, some, ◌==◌, ltb, if◌then◌else◌,
  arith, get_elem?, length,
}
use deterministic_exchange_r.Types.{PriceTicks}
use deterministic_exchange_r.Book.Level.{free, nil, free_from, new}
use deterministic_exchange_r.Book.Level.Cells.{FreeChain, is_among, NoRepeat}
use deterministic_exchange_r.Book.Level.Queue.{Refines}

abbrev pub range : ℕ → ℕ → List ℕ
range i zero = []
range i (suc n) = i ∷ range (i + 1) n

length-range : (i n : ℕ) → length (range i n) ≡ n
length-range i zero = refl
length-range i (suc n) = ap suc (length-range (i + 1) n)

range_above : (i j n : ℕ) → j < i → is_among j (range i n) ≡ false
range_above i j zero h = refl
range_above i j (suc n) h = ground (arith, range_above (i + 1) j n (omega arith))

range-NoRepeat : (i n : ℕ) → NoRepeat (range i n)
range-NoRepeat i zero = tt
range-NoRepeat i (suc n) = (range_above (i + 1) i n (omega arith), range-NoRepeat (i + 1) n)

length-free_from : (orders i n : ℕ) → length (free_from orders i n) ≡ n
length-free_from orders i zero = refl
length-free_from orders i (suc n) = ap suc (length-free_from orders (i + 1) n)

abbrev link_of : ℕ → ℕ → ℕ
link_of orders i = if ltb (i + 1) orders then i + 1 else nil

get_elem?-free_from :
    (orders i n j : ℕ)
    → j < n
    → get_elem? (free_from orders i n) j ≡ some (free (link_of orders (i + j)))
get_elem?-free_from orders i zero j h = absurd (omega arith)
get_elem?-free_from orders i (suc n) zero h =
    let same : i ≡ i + 0 = omega arith in ap (λ k. some (free (link_of orders k))) same
get_elem?-free_from orders i (suc n) (suc j) h =
    let same : i + 1 + j ≡ i + suc j = omega arith in
    get_elem?-free_from orders (i + 1) n j (omega arith)
    ∙ ap (λ k. some (free (link_of orders k))) same

free_chain :
    (orders i n : ℕ)
    → i + suc n ≡ orders
    → FreeChain (free_from orders 0 orders) i (range i (suc n))
free_chain orders i zero e =
    let last : link_of orders (0 + i) ≡ nil = ground (arith, e) in
    (refl, link_of orders (0 + i), get_elem?-free_from orders 0 orders i (omega (arith, e)), last)
free_chain orders i (suc n) e =
    let on : link_of orders (0 + i) ≡ i + 1 = ground (arith, e) in
    (
      refl,
      i + 1,
      get_elem?-free_from orders 0 orders i (omega (arith, e)) ∙ ap (λ k. some (free k)) on,
      free_chain orders (i + 1) n (omega (arith, e)),
    )

pub new-Refines : (orders : ℕ) (price : PriceTicks) → orders < nil → Refines (new orders price) []
unfolding new
new-Refines zero price small = (
  [],
  record {
    chain = (refl, refl);
    free_chain = refl;
    distinct = tt;
    no_repeat = tt;
    counted = refl;
    len = refl;
    aggregate = refl;
    fit = tt;
    small = omega arith;
  },
)
new-Refines (suc n) price small = (
  range 0 (suc n),
  record {
    chain = (refl, refl);
    free_chain =
        let some_slot : (suc n == 0) ≡ false = ground arith in
        rw some_slot (free_chain (suc n) 0 n (omega arith));
    distinct = tt;
    no_repeat = range-NoRepeat 0 (suc n);
    counted = omega (arith, length-range 0 (suc n), length-free_from (suc n) 0 (suc n));
    len = refl;
    aggregate = refl;
    fit = tt;
    small = omega (arith, length-free_from (suc n) 0 (suc n), small);
  },
)
