-- ===== src/Lib.antt =====
-- indexset: an ordered set and map over a two-level B-tree, with access by position.
--
-- A set keeps its items in a vector of sorted nodes (`inner`), each node a vector of at most
-- `node_capacity` items, and beside it a Fenwick tree (`index`) of the nodes' lengths, which turns a
-- position in the order into a node and a place within it. A lookup finds a node by a binary search
-- on the nodes' greatest items and then searches the node; an insertion into a full node halves it
-- and builds the index again; a removal that empties a node drops it, unless it is the last one.
--
-- Files, and the code that they model (paths from the repository's root):
-- - Base, Base/*: shared names; `Run` is the result of code that may panic, with what the loops on
--   fuel add; `Vec` is `std::vec::Vec` as a list, with its panics as faults.
-- - Order: the traits `Ord` and `Borrow`, with their documented laws. `Order/Spec` is the reference:
--   lookups, insertion and removal on one ordered list; the other files relate it to places in a list.
-- - Fenwick: the crate `ftree` is a parameter (`FenwickTree`, its operations) with its documented
--   behaviour (`Counts`: the tree of a list of counts answers prefix sums and index queries).
-- - Node: src/core/node.rs, the node operations over `Vec<T>`.
-- - Set: the struct `BTreeSet` of src/lib.rs and its constructors; Set/Locate the searches for a
--   place, Set/Update the methods that change the set, Set/Query those that read it,
--   Set/Iter its iterator, Set/Merge the set operations and Set/Range the ranges. Set/Valid is the
--   invariant: there is a node, no node is empty unless it is the only one, all items in order are
--   strictly sorted, the index holds the nodes' lengths, `len` is their sum, and the capacity is at
--   least 2.
-- - Pair, Map: src/core/pair.rs and `BTreeMap` of src/lib.rs, a set of entries ordered by key; Map/Entry
--   its entries. Map/Refines, Map/Insertion and Map/Entry/Laws hold its methods to the list of entries.
--   Set/Cursor and Map/Cursor are `Cursor` and `CursorMap`, whose position a caller may set at will: they
--   are followed to the end of a set, not to the end of `usize`. Set/IntoIter owns a set; Map/Iter,
--   Map/Keys, Map/Values, Map/IntoIter, Map/IntoKeys and Map/IntoValues are the iterators over a map.
-- - MultiPair: src/core/multipair, the entries of a multi-map. Cdc: src/cdc/change.rs, change events.
-- - Concurrent: src/concurrent/set.rs, operation.rs, ref.rs and map.rs, with the feature `cdc`. A set is
--   an index of nodes by their greatest items and a store of the nodes by address, which stands for the
--   `Arc` of a node's mutex (`Shared`). A call is one step for each time that it holds `index_lock`:
--   `put_begin` and `remove_begin` look for a node and change it, and `put_first`, `put_finish` and
--   `remove_finish` change the index; other threads may run in between, as a sequence of such steps.
--   The crate `crossbeam_skiplist` is a parameter (`SkipMap`, its operations) with its documented
--   behaviour (`Ordered`: its entries are an ordered list). Event ids are numbers modulo 2^64.
--   Concurrent/Coherent is the invariant of a set between calls, with the lemmas on a change of one
--   node; Concurrent/Races and Concurrent/Stale are runs of two calls. Concurrent/Iter and
--   Concurrent/Span are `Iter` and `Range`, Concurrent/Range is `remove_range`, Concurrent/MultiMap
--   src/concurrent/multimap.rs.
-- - Tests: concrete runs, a Fenwick tree that is a list of counts, and the results at concrete inputs.
--
-- Numbers are natural numbers: `usize` arithmetic of the code stays below the length of a vector, and
-- where the code subtracts (`len - 1`, `rank - 1`) what happens at 0 is written out. `node_capacity`
-- is at least 2 in every result, since with a capacity of 1 items get lost (see Tests/Sets). Loops run on
-- fuel, which they are given at their call: the binary search of a node one more than the length of
-- the slice; `append` the length of the other set and one more; `next` of an iterator the number of
-- nodes and one more; the set operations the lengths of both sets and two more, since each round takes
-- an item of one of them; the insertion into a concurrent set as many rounds as the caller says, of
-- which a call that runs alone takes one; `next` of a concurrent iterator likewise, of which it takes
-- three at most; the removal of the nodes within a range the number of nodes and one more.
--
-- Not modelled: serde and `Debug` implementations, the benches, the mutable iterators' pointers, the
-- blocking of locks (a step is taken where it would not block), and searches of a multimap by a key
-- alone, whose order is coarser than that of the pairs.
pub mod Base
pub mod Order
pub mod Node
pub mod Fenwick
pub mod Set
pub mod Pair
pub mod Map
pub mod MultiPair
pub mod Cdc
pub mod Concurrent
pub mod Tests
