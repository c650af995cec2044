-- ===== src/Risk/Engine/Moves.antt =====
-- The closure of `release_reservation`: what it does to the reservations is what `remove_at` needs.
use deterministic_exchange_r.Prelude.{
  ℕ, ◌<◌, ◌≡◌, ◌≢◌, refl, sym, ap, ◌∙◌, List, Option, none, some, ==_iff, length, set, get_elem?,
  get_elem?-set_self, get_elem?-set_ne, get_elem?-some_lt,
}
use native.Mathlib.Decide.{ℕ_discrete}
use deterministic_exchange_r.Risk.Accounts.{Reservation, ReservationSlot, free, live}
use deterministic_exchange_r.Risk.Index.Close.{Tracks}
use deterministic_exchange_r.Risk.Engine.{update_moved}

-- The slot holds a live reservation of the order, which knows its place in the index.
pub record LiveAt (rs : List ReservationSlot) (key i flat : ℕ) : Type 0 where
  pub reservation : Reservation
  pub entry : get_elem? rs i ≡ some (live reservation)
  pub is_of : reservation.order_id ≡ key
  pub placed : reservation.index_slot ≡ flat

-- the slot without its place in the index
abbrev pub unplaced : ReservationSlot → ReservationSlot
unplaced (free next) = free next
unplaced (live r) = live (record r { index_slot = 0 })

abbrev pub unplaced_entry : Option ReservationSlot → Option ReservationSlot
unplaced_entry none = none
unplaced_entry (some s) = some (unplaced s)

abbrev pub unplaced_at : List ReservationSlot → ℕ → Option ReservationSlot
unplaced_at rs i = unplaced_entry (get_elem? rs i)

-- Two lists of slots that differ in places in the index at most.
abbrev pub SameBut : List ReservationSlot → List ReservationSlot → Type 0
SameBut before after = (i : ℕ) → unplaced_at after i ≡ unplaced_at before i

module _ (rs : List ReservationSlot) (k s p p' : ℕ) (at_s : LiveAt rs k s p) where
  abbrev moved : ReservationSlot
  moved = live (record at_s.reservation { index_slot = p' })

  update_moved-set : update_moved k s p' rs ≡ set rs s moved
  unfolding update_moved
  update_moved-set = rw (update_moved, at_s.entry, at_s.is_of, (==_iff k k).1 refl)

  in_range : s < length rs
  in_range = get_elem?-some_lt rs s at_s.entry

  pub told_place : LiveAt (update_moved k s p' rs) k s p'
  told_place = record {
    reservation = record at_s.reservation { index_slot = p' };
    entry = rw update_moved-set (get_elem?-set_self rs s moved in_range);
    is_of = at_s.is_of;
    placed = refl;
  }

  pub other_place :
      (k2 s2 p2 : ℕ) → LiveAt rs k2 s2 p2 → k ≢ k2 → LiveAt (update_moved k s p' rs) k2 s2 p2
  other_place k2 s2 p2 h ne =
      let apart : s ≢ s2 = λ same.
        let clash : some (live at_s.reservation) ≡ some (live h.reservation) =
          sym at_s.entry ∙ ap (get_elem? rs) same ∙ h.entry in
        let one : at_s.reservation ≡ h.reservation = cc in
        ne (sym at_s.is_of ∙ ap (λ r. r.order_id) one ∙ h.is_of) in
      record {
        reservation = h.reservation;
        entry = rw update_moved-set (get_elem?-set_ne rs moved apart ∙ h.entry);
        is_of = h.is_of;
        placed = h.placed;
      }

  pub same_but : SameBut rs (update_moved k s p' rs)
  same_but i = rw update_moved-set (elim (ℕ_discrete s i) [
    | yes e ↦
        ap unplaced_entry
          (ap (get_elem? (set rs s moved)) (sym e) ∙ get_elem?-set_self rs s moved in_range)
        ∙ sym (ap unplaced_entry (ap (get_elem? rs) (sym e) ∙ at_s.entry))
    | no e ↦ ap unplaced_entry (get_elem?-set_ne rs moved e)
  ])

-- `remove_at` may be given the closure, whatever the reservations were at the start.
abbrev pub moved_tracks : (start : List ReservationSlot) → Tracks update_moved
moved_tracks start = record {
  Pos = LiveAt;
  Kept = SameBut start;
  told = λ rs k s p p' h. told_place rs k s p p' h;
  others = λ rs k s p p' k2 s2 p2 h h2 ne. other_place rs k s p p' h k2 s2 p2 h2 ne;
  keeps = λ rs k s p p' h kept i. same_but rs k s p p' h i ∙ kept i;
}
