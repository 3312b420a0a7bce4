-- ===== src/Lib.antt =====
-- A model of libchan, a C library of channels between threads in the manner of Go: bounded or
-- unbuffered channels, blocking, timed and non-blocking calls, bursts, close, and select.
--
-- The parts, from below, and the files that model them:
--   * Ring (src/ring_lf.c, src/ring_lf.h, and the SPSC operations and tests of
--     src/libchan_internal.h): the lock-free ring. `Ring` is `chan_ring_lf_t`; cursors are
--     `uint32_t` numbers with their wrap written out. `push`, `pop`, `enqueue_burst`,
--     `dequeue_burst`, `init`, `count`, `is_full`, `is_empty`, `spsc_push` and `spsc_pop` carry the
--     names of the C functions without their prefix. `Ring.Valid` has the invariant and the
--     contents, `Fifo` the bounded queue that they are compared with. `Ring.Threads` has the push and
--     the pop access by access, with any number of threads between the accesses.
--   * WaitQueue (`waitq_push` to `waitq_empty` of src/libchan_internal.h): the linked list with its
--     head and tail pointers, against lists of addresses.
--   * Chan (the rest of src/libchan_internal.h, and src/chan_core.c, src/chan_send.c,
--     src/chan_recv.c): `Chan` is `struct chan` with each wait queue as the list of its waiters,
--     `World` the memory: elements in cells, waiter nodes, park words and the shared states of
--     selects. `Chan.Core` has creation, reference counts and close, `Chan.Send` and `Chan.Recv`
--     the calls.
--   * Select (src/select.c): `Select` has the lock order, readiness and the execution of one case,
--     `Select.Fast` the pass without locks, `Select.Call` the call.
--   * Park (src/park.c and src/util.c): `Park.Futex` and `Park.Pthread` are the two builds of
--     `chan_park_wait` and `chan_park_wake`, two threads that move one access or one system call at a
--     time, in the order of a list of `Park.Schedule.Event`s. The kernel's FUTEX_WAIT and FUTEX_WAKE,
--     and the mutex and the condition variable, are parameters, with what is documented of them as
--     hypotheses.
--   * Pipeline (examples/dplane_pipeline.c): `Pipeline.Topology` has the paths, the channels and where
--     each node sends a packet, `Pipeline.Plane` the channels and accounts with the events that the
--     six threads make, `Pipeline.Nodes` a turn of each node's loop, `Pipeline.Totals` what `main`
--     sums up, `Pipeline.Latency` the times, `Pipeline.Modes`, `Pipeline.PathList` and `Pipeline.Args`
--     the options.
--     A channel is there the bounded queue that `Chan` shows it to be for one producer and one
--     consumer.
--   * Mpsc (examples/dplane_pipeline_mpsc.c): `Mpsc.Boxes` has the inboxes and the events of the six
--     threads, over the paths, packets and accounts of `Pipeline`, whose code the program repeats;
--     `Mpsc.Links` sorts the inboxes by the links of the other program, so that its invariant serves
--     here too; `Mpsc.Traffic` has the loops of `main`, over a list of `Moment`s, which hold what the
--     nodes do meanwhile and the clock; `Mpsc.Nodes` has a turn of a node's loop,
--     and `Mpsc.Stuck`, `Mpsc.Filling` and `Mpsc.Standstill` a run with a slow `forward_node`.
--   * Snake (examples/snake_chan.c): `Snake.Keys` is the input thread, `Snake.Game` the board and the
--     loop of `main`.
--   * Sieve (examples/sieve_primes.c): the chain of threads as a recursive type, with the channel behind
--     each; `Sieve.Stream` has what a chain still has to give.
--   * Base: what the parts share, on machine words, bits, memory and lists of addresses.
--
-- How a call is modelled. The code between a lock and the unlock, or one lock-free operation, is a
-- function from the channel and the memory to the same and a result. A blocking call runs to its
-- return or to its wait (`send_start`, `recv_start`, `select_start`), and the code behind the wait
-- is another function that is told whether it was woken (`resume`, `select_resume`); what other
-- threads do in between is another step on the same state. A spin loop, and a burst or an operation
-- of the ring, runs there without other threads between its rounds and phases; `Ring.Threads` is
-- where several threads are inside `ring_lf_push` and `ring_lf_pop` at once.
--
-- Bounds and fuel. A capacity is at most 2 ^ 31 where a theorem says so. A schedule of
-- `Ring.Threads` has fewer than 2 ^ 32 accesses less the capacity: no cursor that a thread has read
-- then comes round to the same number while the thread waits. The loops that serve or admit waiters
-- take one off the queue in each round, so they run as many rounds as there are waiters;
-- `waitq_remove` takes a bound on its rounds, for which one more than the number of waiters is
-- enough; the spin loops have the 65 rounds of LIBCHAN_FASTPATH_SPIN. The wait on
-- a park has as many rounds of its spin loop as the build says. The doubling of an
-- array of times takes 33 rounds, one more than a sequence number has bits. A timed traffic loop
-- makes at most as many rounds as there are moments to come, and one more for the last look.
-- `place_food` has its 1000 tries.
--
-- The memory allocator is a parameter: a function that may give memory or nothing. Elements have a
-- type of their own, and a copy of `elem_size` bytes is a copy of one element.
--
-- Parameters besides: `strtol` and its kin, `getopt`, `rand` and what uninitialised memory holds.
--
-- Not modelled: bursts between the accesses of other threads, and the memory orders of the atomics;
-- the mutex calls outside a park; of the pipelines the percentiles, which are floating point, the printing, and
-- what is sent after the inboxes are closed, when the nodes were told to stop; of the game the
-- drawing and the terminal; the other programs under examples, and those under bench and tests,
-- which use the library and hold no logic of its own.
pub mod Base
pub mod Fifo
pub mod Ring
pub mod WaitQueue
pub mod Chan
pub mod Select
pub mod Park
pub mod Pipeline
pub mod Mpsc
pub mod Snake
pub mod Sieve
