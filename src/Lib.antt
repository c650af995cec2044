-- ===== src/Lib.antt =====
-- A model of the core of this exchange: the shared types, the wire protocol, the session layer, the
-- pre-trade risk engine, the order book and the ring between threads.
--
-- A command arrives as a frame, which the wire protocol parses into a command. The session decides
-- whether the command is the next one, and keeps the frames that the peer may ask for again. The risk
-- engine checks an order against the limits of its account and reserves its exposure, and fills and
-- cancellations settle what was reserved. The order book of the instrument matches the order, or
-- keeps what is left of it. Threads hand messages on through a ring.
--
-- Files, and the code that they model:
--   Types, Types/Reports: crates/hft-types/src/lib.rs. The identifiers are numbers, `PriceTicks` an
--     integer. `ReportBuffer` keeps its array with the count of the entries in use.
--   Wire/Decode, Wire/Encode: crates/hft-wire/src/lib.rs. A frame is a list of bytes; an index out of
--     range is a panic. Wire/Slices, Wire/Fields and Wire/Parsed hold lemmas on frames, and
--     Wire/RoundTrip, Wire/Canonical and Wire/Total the theorems.
--   Session: crates/hft-session/src/lib.rs. `handle` and `tick` are methods on the session's record;
--     `dispatch` is the match of `handle`, `timed_out` that of `tick`. Session/Refusal,
--     Session/Invariant, Session/Sequencing, Session/Runs and Session/Timeouts are about it.
--   Retransmit: crates/hft-session/src/retransmit.rs. Retransmit/Window has the numbering of the
--     entries, Retransmit/History the abstract log.
--   Risk/Index: `ProbeIndex` of crates/hft-risk/src/lib.rs, its planes as one list. Below it, Arc has
--     the distances on the ring, Find lookups, Insert and Update insertions, and Remove, Shift, Close
--     and Removal the deletion that shifts entries back.
--   Risk/Accounts, Risk/Limits, Risk/Exposure: the records of that file, `evaluate_limits` and
--     `exposure_after_fill`, and what they guarantee.
--   Risk/Engine: `RiskEngine` of that file and its operations, the amends in Risk/Engine/Amend, the
--     export and the checks before a restore in Risk/Engine/Snapshot. Moves, Consistent, Release and
--     Fills are about the agreement of the reservation index with the reservation slots, Restored
--     about the checks, Refusal about refused orders.
--   Book/Level: `PriceLevel` of crates/hft-book/src/lib.rs. Queue has the level as a queue of orders,
--     Segment, Links and Cells the lists threaded through its slots, Unlink, Visit and Fresh its
--     operations.
--   Book/LevelIndex: `LevelIndex` of that file; `search` is the halving loop of `partition_point`.
--     Search has what that loop finds, Sorted and Update are about the order of the entries.
--   Book/OrderIndex: `OrderIndex` of that file, with Packing about the packed locations. The probing
--     is that of Risk/Index, which the source repeats.
--   Book/OrderBook: `OrderBook` of that file. Plan has `validate_order` and `build_plan`, Submit
--     `submit` and its two paths, Owned `cancel` and `replace`. Below Plan, Priority tells price-time
--     priority without the book, LevelWalk, Fifo and Conservation are about what a plan trades,
--     Remainder about what is left over and Decision about the whole plan; below Submit, Take and
--     Single compare the two paths, PostOnly is about post-only orders and Refusal about refused ones.
--     Errorless and Refusal are about refused cancellations and replacements.
--   Spsc: crates/hft-spsc/src/lib.rs. Ring is about positions that wrap around, Holds about the values
--     between them, Fresh about a new ring, Endpoints and Fifo about a push and a pop. An operation
--     takes effect at its Release store; its Acquire load is an argument, any position since the last
--     one seen.
--   Prelude: the shared library. `Outcome` is a value, an error or a panic; `Effect` is a method on
--     `&mut self`, whose state stays as it was left when the call fails; Words has the checked
--     arithmetic of the machine integers, over naturals with the bounds written out; Refusal has calls
--     that change nothing when they fail.
--   Tests modules: concrete runs.
--
-- Loops are structural recursion, on a list or on the number of rounds that the code's own bound
-- gives. A loop with no bound in the code runs on fuel. In `remove_at` of both indexes that is the
-- capacity of the table, which is enough as long as a slot is free, since every step comes closer to
-- the free slot ahead; this is proved for the risk engine's index. On the list of a price level it is
-- one more than the number of its slots, which is enough for a level that holds a queue. In the binary
-- search it is the number of the entries, which is enough since each round shortens the stretch.
--
-- The model of `remove_at` ignores what the closure returns, which the code only reads in a
-- `debug_assert!`, and the book's debug assertions, which compare and write nothing, are left out. The
-- session's u32 count of timeouts wraps around, as in a release build.
--
-- Not modelled: Debug and Display output; the rebuilding of an engine from a checked state and its
-- stable digest; the book's export, restore, top level and stable digest; the emptying and dropping of
-- a ring; the gateway, events, journal, recovery, router, runtime and replay; the benchmark and soak
-- harnesses, the command line and the C bindings, which carry no exchange logic.
pub mod Prelude
pub mod Types
pub mod Wire
pub mod Session
pub mod Retransmit
pub mod Risk
pub mod Book
pub mod Spsc
