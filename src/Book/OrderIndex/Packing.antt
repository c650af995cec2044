-- ===== src/Book/OrderIndex/Packing.antt =====
-- A place in the book survives its packing into one number.
use Prim.Native.Nat.{◌/◌, ◌%◌}
use native.Mathlib.Nat.{
  div-eq_of_lt, div-eq-sub-div, mod-eq_of_lt, mod-eq-sub-mod, mul-le-mul_right, suc-mul, zero-mul,
}
use deterministic_exchange_r.Prelude.{
  ℕ, zero, suc, ◌+◌, ◌-◌, ◌*◌, ◌≤◌, ◌<◌, ◌≡◌, refl, ap, ◌∙◌, true, false, ◌||◌, some, ltb, leb,
  ◌==◌, lt→ltb, arith,
}
use deterministic_exchange_r.Prelude.Words.{u64_mod}
use deterministic_exchange_r.Types.{Side, buy, sell}
use deterministic_exchange_r.Book.OrderIndex.{
  OrderLocation, Shape, side_bit, side_of_bit, encode_location, decode_location,
}

drop_one : (l o s : ℕ) → suc l * o + s - o ≡ l * o + s
drop_one l o s = omega (arith, suc-mul l o)

div-pack : (l o s : ℕ) → s < o → (l * o + s) / o ≡ l
div-pack zero o s h =
    let none_yet : 0 * o + s ≡ s = omega (arith, zero-mul o) in
    ap (λ k. k / o) none_yet ∙ div-eq_of_lt h
div-pack (suc l) o s h =
    let more : o ≤ suc l * o + s = omega (arith, suc-mul l o) in
    let once = div-eq-sub-div {m = o} {n = suc l * o + s} (omega arith) more in
    let rest : (suc l * o + s - o) / o ≡ l = ap (λ k. k / o) (drop_one l o s) ∙ div-pack l o s h in
    omega (arith, once, rest)

mod-pack : (l o s : ℕ) → s < o → (l * o + s) % o ≡ s
mod-pack zero o s h =
    let none_yet : 0 * o + s ≡ s = omega (arith, zero-mul o) in
    ap (λ k. k % o) none_yet ∙ mod-eq_of_lt h
mod-pack (suc l) o s h =
    let more : o ≤ suc l * o + s = omega (arith, suc-mul l o) in
    mod-eq-sub-mod more ∙ ap (λ k. k % o) (drop_one l o s) ∙ mod-pack l o s h

side_bit-lt : (x : Side) → side_bit x < 2
side_bit-lt buy = omega arith
side_bit-lt sell = omega arith

side_of-side_bit : (x : Side) → side_of_bit (side_bit x) ≡ x
side_of-side_bit buy = refl
side_of-side_bit sell = refl

-- Every place within the bounds of a book whose slots can be numbered twice over in a u64 is packed,
-- and unpacks to itself.
pub decode-encode_location :
    (n : Shape) (p : OrderLocation)
    → p.level_index < n.levels
    → p.slot < n.orders
    → n.levels * n.orders * 2 < u64_mod
    → (encoded : ℕ) × (encode_location n p ≡ some encoded)
      × (0 < encoded)
      × (encoded < n.levels * n.orders * 2 + 1)
      × (decode_location n encoded ≡ some p)
unfolding encode_location decode_location
decode-encode_location n p level_in slot_in fits =
    let flat = p.level_index * n.orders + p.slot in
    let packed = flat * 2 + side_bit p.side in
    let rows : suc p.level_index * n.orders ≤ n.levels * n.orders =
      mul-le-mul_right n.orders (omega (arith, level_in)) in
    let inside : flat < n.levels * n.orders =
      omega (arith, rows, suc-mul p.level_index n.orders, slot_in) in
    let bit = side_bit-lt p.side in
    let whole : packed + 1 - 1 ≡ packed = omega arith in
    let half = div-pack flat 2 (side_bit p.side) bit in
    let low = mod-pack flat 2 (side_bit p.side) bit in
    let row = div-pack p.level_index n.orders p.slot slot_in in
    let column = mod-pack p.level_index n.orders p.slot slot_in in
    let t1 : (leb n.levels p.level_index || leb n.orders p.slot) ≡ false =
      ground (arith, level_in, slot_in) in
    let t2 : ltb (p.level_index * n.orders) u64_mod ≡ true =
      lt→ltb _ _ (omega (arith, inside, fits)) in
    let t3 : ltb flat u64_mod ≡ true = lt→ltb _ _ (omega (arith, inside, fits)) in
    let t4 : ltb (flat * 2) u64_mod ≡ true = lt→ltb _ _ (omega (arith, inside, fits)) in
    let t5 : ltb packed u64_mod ≡ true = lt→ltb _ _ (omega (arith, inside, fits, bit)) in
    let t6 : ltb (packed + 1) u64_mod ≡ true = lt→ltb _ _ (omega (arith, inside, fits, bit)) in
    let t7 : (n.orders == 0) ≡ false = ground (arith, slot_in) in
    let t8 : leb n.levels p.level_index ≡ false = ground (arith, level_in) in
    (
      packed + 1,
      rw (encode_location, t1, t2, t3, t4, t5, t6),
      omega arith,
      omega (arith, inside, bit),
      rw (decode_location, whole, half, low, row, column, t7, t8, side_of-side_bit p.side),
    )
