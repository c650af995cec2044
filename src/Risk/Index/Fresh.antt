-- ===== src/Risk/Index/Fresh.antt =====
-- `ProbeIndex::new`: a table with no entry.
use deterministic_exchange_r.Prelude.{
  ℕ, zero, suc, ◌*◌, ◌≤◌, ◌≡◌, refl, sym, ◌∙◌, arith, replicate, length-replicate,
}
use deterministic_exchange_r.Prelude.Words.{u32_mod}
use deterministic_exchange_r.Risk.Index.{empty, occupied, slot, new}
use deterministic_exchange_r.Risk.Index.Find.{IsValid}
use deterministic_exchange_r.Risk.Index.Insert.{Absent}

slot-replicate : (n p : ℕ) → slot (replicate n empty) p ≡ empty
slot-replicate zero p = refl
slot-replicate (suc n) zero = refl
slot-replicate (suc n) (suc p) = slot-replicate n p

pub slot-new : (plane p : ℕ) → slot (new plane) p ≡ empty
unfolding new
slot-new plane p = slot-replicate (plane * 2) p

pub new-Absent : (plane key : ℕ) → Absent (new plane) key
new-Absent plane key p value h =
    let clash : empty ≡ occupied key value = sym (slot-new plane p) ∙ h.entry in cc

pub new-IsValid : (plane : ℕ) → plane * 2 ≤ u32_mod → IsValid (new plane)
unfolding new
new-IsValid plane small = record {
  small = omega (arith, small, length-replicate (plane * 2) empty);
  no_gap = λ p q key value h. absurd (new-Absent plane key p value h);
  unique = λ p q key v w h. absurd (new-Absent plane key p v h);
  positive = λ p key value h. absurd (new-Absent plane key p value h);
}
