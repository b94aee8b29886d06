-- ===== src/Lib.antt =====
-- Verification of serious-execution-library, a C++ library of signals, executors and channels.
--
-- Parts of the program and of this development:
-- - Slot, Signal (include/sl/exec/model/slot.hpp; include/sl/exec/algo/make/result.hpp,
--   include/sl/exec/algo/make/schedule.hpp, include/sl/exec/algo/sched/on.hpp,
--   include/sl/exec/algo/tf/seq/, include/sl/exec/algo/tf/type/, include/sl/exec/algo/emit/get.hpp,
--   include/sl/exec/algo/emit/detach.hpp, include/sl/exec/algo/emit/subscribe.hpp): a slot is a
--   function of its completion, a signal is what it does once a slot is subscribed and the
--   connection emitted, and a task given to an executor is a node with two continuations, `execute`
--   and `cancel`. `Signal.Laws` states what a signal completes with as an operation on results;
--   which executors execute their tasks and which cancel them is a parameter.
-- - Force, Promise (include/sl/exec/algo/emit/force.hpp, include/sl/exec/algo/make/contract.hpp):
--   the hand-over of a result between the thread that completes and the one that subscribes, one
--   access of the shared word per step, and the end of a contract that completes it.
-- - Share (include/sl/exec/algo/emit/share.hpp, include/sl/exec/algo/tf/par/fork.hpp): the storage
--   that shares one completion among several signals, with its chain of callbacks and its reference
--   count, one deciding access per step.
-- - Channel (include/sl/exec/algo/sync/channel.hpp): `channel_impl`, one function per operation
--   under its mutex. The nodes, which live in connections, are tables indexed by numbers; the
--   callbacks that an operation calls are appended to a log. `Channel.System` lets clients emit,
--   cancel and close in any order, and lets selects be claimed from outside. `Channel.Completion`,
--   `Channel.Consensus` and `Channel.Rendezvous` hold the theorems.
-- - Serial (include/sl/exec/algo/sync/serial.hpp,
--   include/sl/exec/thread/detail/lock_free_stack.hpp): the serial executor, one atomic access per
--   step; `work` wraps around at 2 ^ 32 as `uint32_t` does. Clients may call `stop`; the theorems
--   are about runs in which none does.
-- - Parallel (include/sl/exec/algo/sync/detail/parallel.hpp): the three tasks that the serial
--   executor runs for a group of connections.
-- - Ordered (include/sl/exec/algo/sync/detail/parallel.hpp, include/sl/exec/model/connection.hpp):
--   the sorted emission of connections; `std::stable_sort` is a parameter.
-- - Race, Par (include/sl/exec/algo/sync/detail/parallel.hpp, include/sl/exec/algo/tf/par/any.hpp,
--   include/sl/exec/algo/tf/par/all.hpp, include/sl/exec/algo/sync/select.hpp): the counter and the
--   flag that the handlers of the inner slots share, with the handlers interleaved step by step.
--   `Race.Group` adds the tasks that they schedule, and `Race.Box` the box that owns the connection.
--   A channel may claim the flag of a select for a case beforehand. `Par.Select.Cases` puts a select
--   together and emits its cases in order, for one thread.
-- - Pool, Manual (include/sl/exec/thread/pool/monolithic.hpp,
--   include/sl/exec/thread/detail/unbound_blocking_queue.hpp,
--   include/sl/exec/thread/sync/wait_group.hpp, src/thread/pool/config.cpp;
--   src/algo/sched/manual.cpp): the two executors that keep a queue of tasks. `Pool` counts tasks,
--   and `Pool.Workers` has the threads, which sleep on the condition variable of the queue, are
--   woken and joined.
-- - Event (include/sl/exec/thread/event/atomic.hpp, include/sl/exec/thread/event/mutex.hpp): one
--   thread that sets an event and one that waits.
-- - Mutex (include/sl/exec/algo/sync/mutex.hpp): the lock and its signals, over `Signal`.
-- - Arc (include/sl/exec/thread/detail/arc.hpp): the storage of a shared value and the handles that
--   are made, copied, moved and destroyed.
-- - Words, Descriptor (include/sl/exec/thread/detail/multiword.hpp): the layout of words on a 64-bit
--   system, and a descriptor that its owner creates again while another thread reads it.
-- - Coro (include/sl/exec/coro/detail.hpp, include/sl/exec/coro/generator.hpp,
--   include/sl/exec/coro/async_gen.hpp, include/sl/exec/coro/coroutine.hpp,
--   include/sl/exec/coro/async.hpp, src/coro/async.cpp): generators, and coroutines that await one
--   another, as frames with their continuations. The bodies of coroutines belong to the user and are
--   trees of what they do next.
-- - Coro.Await (include/sl/exec/coro/await.hpp, include/sl/exec/coro/as_signal.hpp): a coroutine
--   that awaits a signal, and the signal of a coroutine, over `Signal`.
-- - Stack (include/sl/exec/sim/stack.hpp, src/sim/stack/mmap.cpp, src/sim/stack/malloc.cpp): the two
--   ways to allocate the stacks of the simulated machine, with the calls of the system as
--   parameters.
-- - Dcss, Kcas (include/sl/exec/thread/detail/multiword_dcss.hpp,
--   include/sl/exec/thread/detail/multiword_kcas.hpp, src/thread/detail/multiword_dcss.cpp,
--   src/thread/detail/multiword_kcas.cpp): the operations on several words as one thread runs them,
--   which may find a kcas that another thread has left at any point. Whether a weak compare-exchange
--   fails spuriously is a parameter of the thread; the theorems are about threads for which none
--   does.
-- - Intrusive: the lists of `sl::meta`, which come from outside, as an interface with laws.
-- - Prelude: Boolean tests, lists, tables and loops over the native numbers.
--
-- Interaction: a channel's connections are cases of a select, whose flags `Channel` and `Par.Select`
-- both claim; `kcas` stands there for what it promises, all flags or none, and `Kcas` is about that
-- promise. The parallel connections schedule their tasks on a serial executor, so that `Parallel`
-- runs them one after the other.
--
-- Bounds and fuel: the loops of `send` and `receive` run on fuel, one more than the nodes that wait;
-- each round removes one of them. The loops of kcas have fuel for a few rounds more than it has
-- words, each of which they visit once, and a loop over a generator for one round more than its body
-- yields. Counters are kept modulo 2 ^ 32; the number of inner slots, of threads inside `schedule`,
-- of outstanding tasks and of references to a shared storage is below that. Sizes of stacks are kept
-- modulo 2 ^ 64.
--
-- Not modelled: the connections and signals of the channel and of force, which own the states above,
-- dcss and kcas with several threads that move, and the switching of contexts in the simulated
-- machine. Memory orders are read as sequentially consistent.
pub mod Prelude
pub mod Intrusive
pub mod Channel
pub mod Serial
pub mod Slot
pub mod Signal
pub mod Parallel
pub mod Ordered
pub mod Force
pub mod Promise
pub mod Share
pub mod Pool
pub mod Manual
pub mod Words
pub mod Descriptor
pub mod Race
pub mod Par
pub mod Coro
pub mod Stack
pub mod Dcss
pub mod Kcas
pub mod Event
pub mod Arc
pub mod Mutex
