-- ===== src/Lib.antt =====
-- Lock-free and wait-free data structures, the memory manager that they share, and a tester for
-- linearizability.
--
-- How code over shared memory is modelled (Concurrent.antt): a method is a tree of steps (`Prog`),
-- each of which reads and writes the shared state once, as an atomic access does. `run` is the
-- method with no other thread, and Concurrent/Returns.antt says what it returns then.
-- Concurrent/Guarantee.antt says what a method does when other threads act between its steps:
-- `Ensures` has a condition on what they do, a condition on each step, and a condition on the
-- result; `Finishes` says that it never runs out of the rounds of a loop. A panic, an index out of
-- bounds and a bad pointer are a `crash`.
--
-- Memory, src/memory/hazardpointers.rs:
--   Memory/Hazard.antt is the hazard pointer manager `HPBRManager`: the global list of hazard pointers,
--   the information of each thread, and `allocate_hp`, `protect`, `unprotect`, `retire`, `scan`,
--   `protect_dynamic`, `unprotect_dynamic`, `retire_dynamic` and `check_in_free_list`. An address is a
--   number, and records that are freed are listed. Its proofs: Safety (`scan` beside other threads),
--   Scan (`scan` alone), Retire (`retire` alone), Dynamic (`protect_dynamic`).
--
-- Structures, src/structures/:
--   Structures/Tagged.antt has the pointers with two mark bits (hash/atomic_markable.rs and
--   utils/atomic_markable.rs). A pointer is its number, and Tagged/Tests compares the arithmetic with
--   the bit operations.
--   Structures/Map.antt is the shared table of the hash map (hash/hash_map.rs), the operations on a
--   slot, `expand_map`, `try_insert`, `try_update` and `try_remove`; Map/Insert, Map/Lookup (`get` and
--   `get_clone`), Map/Update and Map/Remove are its methods, which call the manager with hazard
--   pointer 0 of the thread. Keys are given by the function that hashes them. Map/WaitFree is about the
--   loops of `get_clone`. Map/Tree has the table as a map from hashes to values and says when it is
--   well formed, and Map/Alone is about the methods with no other thread at work (`Holds`). Map/Iter
--   is the iterator; Map/Visits is about it: a tree walk with a stack, and the entries ahead of it
--   (Visits/Ahead).
--   Structures/Set.antt and Set/Remove are the hash set (hash/hash_set.rs), over the table and the
--   definitions of the map where its code is the same; Set/Alone and Set/WaitFree are about it. Set/Iter
--   has the iterators over two sets.
--   Structures/Stack.antt has `try_push` and `try_pop` of the stack (stack.rs). Stack/Linearized is
--   about their linearization points. A linearization point (Concurrent/Linearization.antt) is a step
--   of the method that has the effect of its result on the values.
--   Structures/Queue.antt has the queue (queue.rs), and Queue/Enqueue and Queue/Dequeue are about the
--   linearization points of `try_enqueue` and `try_dequeue`.
--   Structures/SegQueue.antt is the segmented queue (seg_queue.rs) with `enqueue`, and
--   SegQueue/Dequeue has `dequeue`; SegQueue/Placed and SegQueue/Taken are about them, and
--   SegQueue/Sized about the constructor.
--   Structures/Order.antt has the order in which the segmented queue tries its cells (seg_queue.rs),
--   and Order/Mask its bit mask.
--
-- Testing, src/testing/:
--   Testing/TimeStamped.antt has the events (time_stamped.rs), where an `Instant` is a number;
--   Testing/Automaton.antt the configurations of the search (automaton.rs); Testing/ThreadLog.antt the
--   logs of the threads and their merge (ThreadLog/Unique: it is the one history of the logs), and
--   Testing/Solver.antt the search itself (linearizability_tester.rs). The threads write logs by
--   `ThreadLog`, `merge` sorts them, and `solve` searches the sorted log by the operations of the
--   automaton; Testing/Tester.antt has `run`, which puts them together. Testing/History.antt defines
--   what a linearizable log is, with no reference to the search.
--
-- Bounds. The retry loops over shared memory take a number of rounds, and end with `spin` when it
-- is used up: one round for each hazard pointer on the list and one more is enough for `scan`
-- alone, and 11 rounds, one more than MAX_FAILURES, for `get_clone`. The levels of the tree of the
-- hash map are counted down from 15, as r goes from 0 below KEY_SIZE - 4 by 4. The iterator takes a
-- number of calls of itself, and Map/Visits/Next has a number that is enough. The search takes a
-- number of turns, of which half its limit on the iterations, rounded up, is enough when the limit is not 0;
-- with a limit of 0 the source goes on until its counter overflows. Numbers are unbounded: an
-- address, a hash or a count of the source is below 2 ^ 64, and no operation of the model exceeds
-- its operands but by the counts of events, retired records and failures.
--
-- What enters from outside: the hash function of the keys, the hash set `seen` of the search (what
-- an insertion answers), the clock, the random numbers of the segmented queue, what the threads of
-- a test have logged, the stable sort of the standard library, and the methods of the tested
-- objects are parameters; the comparison of the values of the hash map (`PartialEq`) is a parameter
-- that decides equality. ThreadLog/InsertionSort is a stable sort for the tests. Memory is
-- sequentially consistent: the acquire and release orderings of the source are not distinguished.
--
-- Not modelled: the loops of `push` and `pop` of the stack with its elimination layer, the pauses of
-- the queue between its attempts, the destructors, `Debug`, the scheduling of the threads of a test,
-- and the benchmarks.
pub mod Concurrent
pub mod Memory
pub mod Prelude
pub mod Structures
pub mod Testing
