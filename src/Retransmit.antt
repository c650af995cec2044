-- ===== src/Retransmit.antt =====
-- crates/hft-session/src/retransmit.rs: the bounded retransmission buffer.
pub mod Window
pub mod History
mod Tests
use deterministic_exchange_r.Prelude.{
  ℕ, ◌+◌, ◌-◌, List, [], ◌∷◌, ◌++◌, Bool, not, Option, none, some, ltb, leb, ◌==◌, if◌then◌else◌,
  length, take, replicate,
}
use deterministic_exchange_r.Prelude.Words.{u64_mod, checked_add}
use deterministic_exchange_r.Prelude.Outcome.{Outcome, ok, err, ok_or}
use deterministic_exchange_r.Prelude.Effect.{Effect, ◌>>=◌, ◌>>◌, lift, put, guard}
use deterministic_exchange_r.Types.{SequenceNumber}

abbrev pub max_frame : ℕ
max_frame = 46

pub record RetainedFrame : Type 0 where
  pub sequence : SequenceNumber
  pub bytes : List ℕ
  pub len : ℕ

-- `RetainedFrame::slice`
abbrev pub payload : RetainedFrame → List ℕ
payload frame = take frame.len frame.bytes

pub data RetainError : Type 0 where
  full : RetainError
  not_in_order : SequenceNumber → SequenceNumber → RetainError
  sequence_overflow : RetainError

-- The deque is the list of its entries, front first.
pub record RetransmitBuffer : Type 0 where
  pub entries : List RetainedFrame
  pub capacity : ℕ
  pub next_sequence : ℕ

unfoldable pub new : ℕ → RetransmitBuffer
new capacity = record { entries = []; capacity = capacity; next_sequence = 1 }

-- A zeroed array of 46 bytes with the payload copied to its front.
abbrev pub stored : SequenceNumber → List ℕ → RetainedFrame
stored sequence bytes = record {
  sequence = sequence;
  bytes = bytes ++ replicate (max_frame - length bytes) 0;
  len = length bytes;
}

unfoldable pub retain : SequenceNumber → List ℕ → Effect RetransmitBuffer RetainError (Unit {0})
retain sequence bytes b =
    (do
      guard (leb (length bytes) max_frame) full
      guard (sequence == b.next_sequence) (not_in_order b.next_sequence sequence)
      guard (not (length b.entries == b.capacity)) full
      next ← lift (ok_or (checked_add u64_mod sequence 1) sequence_overflow)
      put (record b { entries = b.entries ++ stored sequence bytes ∷ []; next_sequence = next }))
      b

-- The `while` loop over the front of the deque: what is left, and how many were dropped.
unfoldable pub drop_confirmed : ℕ → List RetainedFrame → List RetainedFrame × ℕ
drop_confirmed confirmed [] = ([], 0)
drop_confirmed confirmed (frame ∷ rest) =
    let (kept, dropped) = drop_confirmed confirmed rest in
    if leb frame.sequence confirmed then (kept, dropped + 1) else (frame ∷ rest, 0)

unfoldable pub confirm_through : ℕ → RetransmitBuffer → RetransmitBuffer × ℕ
unfolding drop_confirmed
confirm_through confirmed b =
    let (kept, dropped) = drop_confirmed confirmed b.entries in
    (record b { entries = kept }, dropped)

unfoldable pub since : ℕ → List RetainedFrame → List RetainedFrame
since from [] = []
since from (frame ∷ rest) =
    if leb from frame.sequence then frame ∷ since from rest else since from rest

-- `capacity - entries.len()`, which cannot fall below 0 while the window is valid
unfoldable pub remaining_capacity : RetransmitBuffer → ℕ
remaining_capacity b = b.capacity - length b.entries
