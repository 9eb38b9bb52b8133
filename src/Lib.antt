-- ===== src/Lib.antt =====
-- fastipc: inter-process communication over POSIX shared memory.
--
-- The parts, and the files that model them:
--
-- * src/fastipc/utils.py is `Utils`: `align_to_cacheline_size`, and the rounding that it shares
--   with the layouts.
-- * src/fastipc/nptree/schema.py is `Nptree`. A tree of numpy arrays is described by a layout, one
--   line of text for each array (`Nptree/Layout`: `build_nptree_layout`, `_parse_arr_desc`,
--   `calc_buffer_size`), and copied into a buffer and out of it (`Nptree/Transfer`:
--   `validate_layout`, `serialize_nptree`, `deserialize_nptree`). `Nptree/Numpy` and
--   `Nptree/Optree` say what is used of the two packages that the code stands on: their operations
--   as parameters, and the behaviour relied on as laws. The nested functions of the source are
--   functions here, and the variables that they change (`offset`, `max_offset`, `buffer`) are a
--   state that `tree_map` passes along. `Nptree/Desc`, `Laid`, `Copies`, `RoundTrip`, `Offsets`,
--   `Refusals` and `Alignment` hold the proofs.
-- * src/fastipc/guarded_shared_memory.py is `Shm`. `Shm/World` is what the operating system keeps:
--   the names of shared memory, the bytes of the segments, the pid directories and the number of
--   open descriptors. `Shm/Open` is `GuardedSharedMemory.__init__`: `find_segment` is the loop over
--   the attempts, `try_attempt` the body of its `try`, `after_attempt` its handlers. `Shm/Close`
--   has `close`, `unlink`, `detach`, `__del__` and the functions on pid files, and `construct`, a
--   call of the class together with the `__del__` of an object that its constructor gave up.
--   `Shm/Library` is `_load_posix_shm_lib`, with `ctypes` as a parameter. The other proofs are in
--   `Shm/Attempts`, `Quiet`, `Refusals`, `Leave`, `LastLeave`, `Overtaken`, `Among` and `Refused`.
-- * src/fastipc/data/named_history_buffer.py is `History`, on the bytes of a mapping (`Memory`:
--   loads and stores of little-endian fields). `History/Header` has the two structures and the
--   places that they compute, `History/Buffer` the operations `create`, `__init__`, `publish`,
--   `get_latest` and `get_meta`. The proofs are in `History/Slot`, `Publish`, `Release`, `Create`,
--   `Meta`, `Log`, `Session` and `Reopen`. `Log` has the abstract view, a list of all messages that
--   were published. `Accesses` has the stores of `publish` one by one, and `Racing` a `get_latest`
--   that sees another memory at each of its accesses; `Replayed`, `Overlap`, `Ordered`, `Untorn`
--   and `Torn` have the proofs on the two together. `Writers` has `publish` as steps of many
--   processes, on the mutex of `Primitives/Interleaved` and the bytes of the mapping; `Serial`,
--   `Filling`, `Publishers` and `Crowd` say what all orders of the steps keep, and `Solo`, `Alone`
--   and `Refined` relate the steps to `publish`. `Named` has `create`, `publish` and `__init__` by
--   name, on the segments of `Shm`, with the proofs in `Agree`, `Held` and `Shared`.
-- * src/fastipc/_primitives/_primitives.c has the mutex that `publish` takes, `Primitives/Mutex`,
--   with `acquire` (`FutexMutex_acquire_fast`), `try_acquire`, `release` and `force_release`, on
--   its 64 bytes of the mapping; `Primitives/Timed` has `acquire_ns` and `enter`.
--   `Primitives/Cycle` and `Primitives/SelfWait` have the proofs. `Primitives/Interleaved` has
--   every access of `acquire`, `acquire_ns`, `try_acquire` and `release` to the shared words as a
--   step of one process among others, on a memory that all see alike; `Primitives/Exclusion` and
--   `Primitives/Clobbered` say what all orders of the steps keep, and what one order does.
--   `Primitives/Futex` is the futex word. Its semaphore is `Primitives/Semaphore`, with the proofs
--   in `Primitives/Tokens`, and `Primitives/Atomics` has `AtomicU32` and `AtomicU64`, with the
--   proofs in `Primitives/AtomicWords`; `Primitives/Tally` has the accesses of the semaphore as
--   steps of many processes, with the proofs in `Primitives/Conserved` and `Primitives/Unwoken`.
-- * src/fastipc/sync/named_mutex.py is `Sync/NamedMutex`, the mutex in a segment of its own;
--   `Sync/MutexCycle` and `Sync/WithMutex` have the proofs. src/fastipc/sync/named_semaphore.py is
--   `Sync/NamedSemaphore`, with `Sync/SemaphoreStart`. src/fastipc/sync/named_event.py is
--   `Sync/NamedEvent`, with `Sync/EventCycle`.
-- * src/fastipc/data/named_queue.py is `Queue`: `Queue/Modes` has `QueueMode`, `Queue/Header` the
--   structures, `create` and `__init__`, `Queue/Created` the proof. The class has no operation that
--   moves a message.
-- * `Base` has what the parts share: results with the exceptions of the source, lists over the
--   native numbers, slices, and strings as lists of code points with `split`, `join` and decimal
--   numbers.
--
-- Bounds: nothing runs on fuel. The attempts of a constructor are a list with one entry for each,
-- the entry saying what other processes do before each call of that attempt and which calls fail.
-- Sizes and alignments are natural numbers: that the guard of `build_nptree_layout` refuses an
-- alignment below 0 is left out. The size of an array is computed by numpy in 64 bits, and the
-- model says nothing (the error `unmodelled`) of one that does not fit 63 bits.
--
-- A process that waits for the mutex or a token is given a list of turns, what other processes do
-- to the memory during each wait (and, in `acquire_ns`, around the two accesses of each turn of the
-- spinning loop, and how each call of futex ends); where the list ends and the process still waits,
-- `acquire` and `publish` have no result; `post` is given what happens in the races that it loses.
-- The clocks are arguments. Machine words are 4 or 8 bytes, and a store keeps the value modulo 2 ^
-- 32 or 2 ^ 64; the signed message index is read from its 64 bits.
--
-- Not modelled: time and sleeping, text encodings and floating-point numbers. A constructor is one
-- step but for the turns of others before each call of its attempts; `close` is one step, but for
-- `Shm/Overtaken`, where others act between its look at the register and its unlinking, and
-- `Shm/Among`, where they act before each of its calls. That somebody has an export of the view,
-- with which `detach` raises `BufferError`, is left out. In `Primitives/Timed` the exchange that
-- takes the mutex and the stores of the owner and the time behind it are one step;
-- `Primitives/Interleaved` has them apart, but has no step for `force_release`, nor for an
-- `acquire_ns` of the process that has the mutex and is its owner. By which stores, and in which
-- order, the C library copies the bytes of a payload is a parameter (`Memory.Copy`). In
-- `History/Writers` the words of the mutex are kept beside the memory, where its bytes stand still.
-- Memory is sequentially consistent where several processes act.
pub mod Base
pub mod Utils
pub mod Shm
pub mod Nptree
pub mod Memory
pub mod Primitives
pub mod History
pub mod Sync
pub mod Queue
