-- ===== src/Lib.antt =====
-- Verification of moka, a concurrent cache library (src/).
--
-- A cache keeps its entries in a concurrent hash table. Reads and writes go to the table at once and
-- are recorded in two channels; a maintenance run drains the channels and applies them, under locks,
-- to the policies: the frequency sketch that estimates popularity, the deques in access order and in
-- write order, the timer wheel of the entries that expire one by one, and the counters. The table and
-- the policies share one `EntryInfo` per entry. What is modelled is the synchronous cache: its
-- insertions, removals and lookups, its maintenance, the data structures that they work on, and the
-- table of waiters by which calls for one key share an initialization.
--
--   Base          lists, tests and machine words that the other modules share
--   Time          src/common/time/instant.rs and atomic_time.rs: instants in nanoseconds, 2^64 - 1
--                 of an atomic instant for one that is not set
--   EntryInfo     src/common/concurrent/entry_info.rs: a record with one field for each atomic; the
--                 16-bit generations in EntryInfo/Generations, the packed expiration state in
--                 EntryInfo/Expiration
--   Sketch        src/common/frequency_sketch.rs: a table of 64-bit words of sixteen 4-bit counters.
--                 Sketch/Word and Sketch/Table have the laws of a word and of the table,
--                 Sketch/Estimate the estimates, Sketch/Aging the reset, Sketch/Capacity the sizing
--   Concurrent    src/common/concurrent.rs: value entries, queue nodes and the messages of the
--                 channels. `MiniArc` and raw pointers are addresses: `Shared` maps those of infos
--                 and of queue nodes to their contents
--   Queue         the list view of src/common/deque.rs: the nodes from front to back, each with its
--                 address. Queue/Laws and Queue/Cursor have its laws
--   Deque         src/common/deque.rs itself: nodes linked both ways in a heap, head, tail, length and
--                 cursor. Deque/Segment has linked lists in a heap, Deque/Parts and Deque/Places the
--                 steps of the operations, Deque/Refines and Deque/Runs what ties them to Queue,
--                 Deque/Iteration the iterator
--   TimerWheel    src/common/timer_wheel.rs: five wheels of buckets, a bucket a deque with a
--                 sentinel. TimerWheel/Iter is `advance` with its iterator, TimerWheel/Buckets,
--                 TimerWheel/Advance, TimerWheel/Links, TimerWheel/Pointers and TimerWheel/Steps have
--                 the laws
--   Deques        src/common/concurrent/deques.rs: the deques of the regions
--   Cache         src/sync/base_cache.rs: `State` is what `Inner` keeps under its locks, `Config` what
--                 it is configured with. Cache/Expiry has the expiry tests, Cache/Timer
--                 `update_timer_wheel`, Cache/Policy `handle_admit`, the removals and `apply_reads`,
--                 Cache/Admission `admit`, Cache/Handle `handle_upsert` and `apply_writes`,
--                 Cache/Evict `evict_lru_entries` and `remove_expired_ao`, Cache/WriteOrder
--                 `remove_expired_wo` and the sweep over both orders, Cache/Maintenance the steps of
--                 a maintenance run. Cache/Admission/Sums, Cache/Admission/Loop,
--                 Cache/Admission/First, Cache/Map,
--                 Cache/Links and Cache/Retired have laws of single operations. Cache/Linked ties the
--                 infos, the queue nodes, the deques and the wheel together, and Cache/Invariant,
--                 with one module for each group of operations, is about what a run keeps
--   Invalidator   src/sync/invalidator.rs: the registry of the predicates, and the scan that applies
--                 them to the entries of a Cache
--   Get           src/sync/base_cache.rs, the lookups: `do_get_with_hash`, `contains_key_with_hash`,
--                 `scanning_get`, `invalidate_all`, and what a read does to the expiration.
--                 Get/Expired says which entries are live, Get/Found and Get/Live what the lookups
--                 return, Get/Agree what they have in common
--   Client        src/sync/base_cache.rs and src/sync/cache.rs, the writes: `do_insert_with_hash`,
--                 `invalidate_with_hash` and what they tell the listener. Client/System is the whole
--                 cache with its two channels, whose steps are the calls of the clients, the sending
--                 of their messages and the work of the maintenance; Client/Contents is its contract,
--                 a map that may lose entries. Client/Insert, Client/Invalidate, Client/Messages,
--                 Client/Refines, Client/Steps and Client/Runs relate the two, Client/Reads is about
--                 a lookup after an insertion
--   Initializer   src/sync/value_initializer.rs: `try_init_or_read`, as calls that go from phase to
--                 phase over one table of waiters, and may be left by a panic of the user's code.
--                 Initializer/Safety, Initializer/Steps,
--                 Initializer/Runs and Initializer/Reachable are about the states that they reach,
--                 Initializer/Progress about the steps that are possible
--   KeyLock       src/sync/key_lock.rs: the locks that calls for one key share, with the reference counts
--                 of their mutexes and the steps of their drops. KeyLock/Shared, KeyLock/Drops and
--                 KeyLock/Reachable are about the maps that calls and drops reach
--   Housekeeper   src/common/concurrent/housekeeper.rs: when a maintenance run is due. The cache that
--                 it runs is a record of two operations
--   Tests         runs at concrete inputs
--
-- Conventions. Numbers are natural numbers; what a machine width adds (a wrap, a saturation, a mask) is
-- written out at the operation. An operation that may panic, reach `unreachable!` or follow a pointer
-- to no node has an `Option` as its result, with `none` for that. A new node gets an address that the
-- caller gives, in Cache the next one of the state. A compare-and-exchange loop takes the list of the
-- values that other threads store between its attempts; apart from that a maintenance operation runs
-- alone, and so does a call of a client up to the sending of its message. The hash table is the list of
-- its entries. The weigher's result, the readings of the clock, the user's `Expiry` and closures and
-- the addresses of new infos are arguments. Debug assertions are left out.
--
-- Fuel. `Sketch.ensure_capacity` needs none. `TimerWheel.rotate` gets the length of the bucket and one
-- more round; TimerWheel/Advance has the rounds that are needed, the nodes in front of the sentinel and
-- two. The loop of `admit` gets `admit_fuel`, seven rounds for a node and seven more: a round skips a
-- node, at most six times in a row, or passes one for good. `TimerWheel.Iter.next` takes the number of
-- rounds as an argument.
--
-- A state is consistent (Cache/Invariant) if the nodes of the probation deque and of the write-order
-- deque are those of the admitted entries, each pointed to by its own entry and by no other; if the
-- entry count is the number of the nodes; if the pointers to timer nodes reach nodes of the wheel, no
-- two the same; and if the entries of the map have queue nodes of their own.
-- The invariant takes a predicate that every entry of the map has to meet; Client/Contents gives it one
-- that compares the entry with the contract.
--
-- Not modelled: the hash table and its reclamation (src/cht), the asynchronous cache, builders,
-- listeners and logging; of the value initializer, `try_compute`; of the cache's interface, the
-- entry selectors and iterators, which call the operations above; of a maintenance run, the walk of the
-- timer wheel that finds the expired timers, the choice of the candidates of a scan, and the loop
-- around the steps.
mod Base
pub mod Time
pub mod EntryInfo
pub mod Sketch
pub mod Client
pub mod Initializer
pub mod KeyLock
pub mod Concurrent
pub mod Queue
pub mod TimerWheel
pub mod Deque
pub mod Housekeeper
pub mod Deques
pub mod Cache
pub mod Invalidator
pub mod Get
mod Tests
