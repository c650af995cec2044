-- ===== src/Wire/Encode.antt =====
-- The `encode_*` functions: a zeroed array, written slice by slice.
use deterministic_exchange_r.Prelude.{ℕ, ◌+◌, List, ◌++◌, length, take, drop, replicate, set}
use deterministic_exchange_r.Prelude.Bytes.{to_be_bytes, bits_of_i64}
use deterministic_exchange_r.Types.{
  NewOrder, CancelOrder, ReplaceOrder, Command, new_order, cancel_order, replace_order, side_code,
  tif_code,
}
use deterministic_exchange_r.Wire.Decode.{
  protocol_version, new_order_type, cancel_order_type, replace_order_type, new_order_len,
  cancel_order_len, replace_order_len,
}

-- `bytes[from..from + n].copy_from_slice(xs)`, where n is the length of `xs`
abbrev pub copy_from_slice : ℕ → List ℕ → List ℕ → List ℕ
copy_from_slice from xs bytes = take from bytes ++ xs ++ drop (from + length xs) bytes

-- What all three write first: the version, the kind and the length.
abbrev pub header : ℕ → ℕ → List ℕ
header kind len =
    let zeroed = replicate len 0 in
    let bytes = set (set zeroed 0 protocol_version) 1 kind in
    copy_from_slice 2 (to_be_bytes 2 len) bytes

unfoldable pub encode_new_order : NewOrder → List ℕ
encode_new_order order =
    let b0 = header new_order_type new_order_len in
    let b1 = copy_from_slice 4 (to_be_bytes 8 order.order_id) b0 in
    let b2 = copy_from_slice 12 (to_be_bytes 4 order.account_id) b1 in
    let b3 = copy_from_slice 16 (to_be_bytes 4 order.instrument_id) b2 in
    let b4 = copy_from_slice 20 (to_be_bytes 8 (bits_of_i64 order.price)) b3 in
    let b5 = copy_from_slice 28 (to_be_bytes 8 order.quantity) b4 in
    let b6 = copy_from_slice 36 (to_be_bytes 8 order.sequence) b5 in
    let b7 = set b6 44 (side_code order.side) in set b7 45 (tif_code order.time_in_force)

unfoldable pub encode_cancel_order : CancelOrder → List ℕ
encode_cancel_order cancel =
    let b0 = header cancel_order_type cancel_order_len in
    let b1 = copy_from_slice 4 (to_be_bytes 8 cancel.order_id) b0 in
    let b2 = copy_from_slice 12 (to_be_bytes 4 cancel.account_id) b1 in
    let b3 = copy_from_slice 16 (to_be_bytes 4 cancel.instrument_id) b2 in
    copy_from_slice 20 (to_be_bytes 8 cancel.sequence) b3

unfoldable pub encode_replace_order : ReplaceOrder → List ℕ
encode_replace_order replace =
    let b0 = header replace_order_type replace_order_len in
    let b1 = copy_from_slice 4 (to_be_bytes 8 replace.order_id) b0 in
    let b2 = copy_from_slice 12 (to_be_bytes 4 replace.account_id) b1 in
    let b3 = copy_from_slice 16 (to_be_bytes 4 replace.instrument_id) b2 in
    let b4 = copy_from_slice 20 (to_be_bytes 8 replace.sequence) b3 in
    let b5 = copy_from_slice 28 (to_be_bytes 8 (bits_of_i64 replace.price)) b4 in
    copy_from_slice 36 (to_be_bytes 8 replace.quantity) b5

-- The encoder that a command's kind selects.
unfoldable pub encode : Command → List ℕ
unfolding encode_new_order encode_cancel_order encode_replace_order
encode (new_order order) = encode_new_order order
encode (cancel_order cancel) = encode_cancel_order cancel
encode (replace_order replace) = encode_replace_order replace
