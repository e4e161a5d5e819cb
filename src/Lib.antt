-- ===== src/Lib.antt =====
-- Verification library of dcb-layer, an event store with dynamic consistency boundaries on
-- FoundationDB. Paths below are from the repository's root.
--
-- The program. A store keeps the events of a namespace, each at the 12-byte position that its
-- commit gives it: under `[ns, "e", position]` with its value, and under
-- `[ns, "i", tags.., "_", type, position]` with no value for every subset of its tags
-- (dcb-layer/src/encoding.rs, dcb-layer/src/append.rs). A query item asks for types and tags. It is
-- answered by ranges of the second kind of keys, one for each type; where it names no types, these
-- are found by a scan (dcb-layer/src/query.rs). An append checks its conditions by such ranges in
-- the transaction that writes, and tries again on errors of the database. A read merges the ranges
-- of its items by position and fetches the events (dcb-layer/src/read.rs).
--
-- The files.
--   Common, Common/Tests, Common/Lists, Common/Results, Common/Collect, Common/Bytes: lists measured
--     by native numbers, results with do blocks, byte strings in their order (`Vec<u8>`, `&str`).
--   Types: dcb-layer/src/types.rs. Error: dcb-layer/src/error.rs.
--   Tuple, Fdb: the crate `foundationdb`, a parameter. `Codec` is its tuple layer, `Transaction` and
--     `Database` its client. Tuple/Laws and Fdb/Laws state what it documents: `CodecLaws`, the
--     format of a packed tuple; `Sees`, that the reads of a transaction, those that are snapshots or
--     those that are not, see one set of pairs; `RetriesAtMost` and `IdempotentCommits`, what the
--     options of a retry limit and of automatic idempotency do where they are set.
--   Encoding/Tags, Encoding/Keys, Encoding/Values: dcb-layer/src/encoding.rs and the prefix builders
--     of dcb-layer/src/query.rs. Query: the rest of that file.
--   Append: dcb-layer/src/append.rs. Read, Read/Keys, Read/Heap, Read/Merge: dcb-layer/src/read.rs.
--   System: the store as a whole. A step is a round of `append` on a transaction whose reads, its
--     snapshot reads aside, see the current pairs, or the commit of a cursor, one after the other
--     as the database serializes transactions; `Commits` (Append/Commit) is what it documents of a
--     commit. A step is labelled by its `Action`, and `LeadsTo` is any actions of any clients.
--     Beside it stands the event store of the documentation, a list of events to which an append
--     adds unless an event conflicts with its conditions, by steps with the same labels.
--     System/Serving is a call of `append` through its retries, other clients acting between, and
--     System/Attempts what becomes of it; System/CursorCalls the same for `set_cursor`.
--     System/Decisions is about a client that reads and then appends or reads on, System/Reads
--     about reads, System/Watches about watches, System/CursorMap about cursors.
--   Subscribe: dcb-layer/src/subscribe.rs. Nif: the Elixir binding,
--     dcb-layer-ex/native/dcb_layer_nif/src/lib.rs, over Nif/Rustler, the terms of the crate
--     `rustler` as a parameter with their documented laws; Nif/Shapes are the terms that its
--     functions document, Nif/Calls its calls on such terms.
--   Store: the abstract view. `Matches` is what a query item asks of an event, `Holds` says that the
--     pairs of the database are the index of a history of events, `HoldsEvents` that its values
--     are those of the events; `Reads` (Store/Reads) is what a list of ranges reads of a history.
--   Encoding/Tags/Sorted, Encoding/Tags/Subsets, Encoding/Keys/Layout, Encoding/Values/RoundTrip,
--     Query/Strinc, Query/After, Store/*, Append/*, Subscribe/*, System/*, Nif/*,
--     Fdb/Lookup, Read/Heap/Pop, Read/Merge/* and what else is below Read: proofs. `IsFirst`
--     (Read/Order) is what a read selects, Read/Reference the same as a function of the history.
--   Tests/Plain is a codec in the published binary format with all the laws; Tests/Scene is a
--     store with one event, Tests/Running a run from an empty database, Tests/Histories a call
--     that retries, Tests/Binding terms as a data type; they, Tests/Reading, Tests/Decisions,
--     Tests/Signals, Tests/Calls and Tests/Examples apply the theorems.
--
-- How the code is modelled. Functions keep their names. A `Result` is a result, `?` is a do
-- block, a stream is the list of what it yields, errors included. Writes are the list of
-- mutations that the transaction has buffered at its commit. `usize` arithmetic is on natural
-- numbers where nothing can wrap; casts to `u16` and the shift of `generate_superset_presorted`
-- are written out. The loops of `append`, of `set_cursor` and of the merge run on fuel, where
-- `none` is a loop that has not ended: 101 rounds are enough for `append`, the client giving up
-- after 100 resets; one round more than there are keys is enough for the merge; `set_cursor` sets
-- no such limit, and takes one round more than it is made to retry. The futures of the condition
-- checks are evaluated in order; all of them are awaited before any result is looked at.
--
-- Texts are lists of bytes. `Holds` assumes texts without NUL, which the code does not check.
-- Positions are 12 bytes, and an event has fewer than 64 distinct tags (the code allows 10).
--
-- A transaction has the options that were set on it, and its commit and `on_error` are given them.
-- A commit that fails with an error that leaves its outcome open, `maybe_committed`, may have taken
-- effect, and so has one after which the future for its version fails; both are steps of the
-- system, and attempts of a call. What the client documents of automatic idempotency, that a commit
-- under it does not leave its outcome open, is assumed only of transactions that have it set, and
-- likewise the retry limit. Keys are watched before the commit that makes the watch.
--
-- A version is documented to be 10 bytes; the panic of `copy_from_slice` on a version of another
-- length is not modelled.
--
-- Not modelled: in the binding, `load`, which boots the client and the runtime, and what the task
-- that a watch spawns does when its future is done; the text of error messages; and the database
-- itself: how it keeps transactions serializable, how it notices that the value of a watched key has
-- changed, and what a commit does beyond `Commits`. `transact_boxed` and `watch` of the client are
-- parameters, as are the ways to open a database.
pub mod Common
pub mod Types
pub mod Tuple
pub mod Error
pub mod Fdb
pub mod Encoding
pub mod Query
pub mod Store
pub mod Append
pub mod Read
pub mod Subscribe
pub mod System
pub mod Nif
mod Tests
