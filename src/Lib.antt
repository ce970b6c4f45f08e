-- ===== src/Lib.antt =====
-- Verification library of the distributed search engine simulator, a discrete-event simulator in C.
--
-- An event loop (Event) takes events from a priority queue and runs their continuations, which
-- schedule others. The simulated collection has workers (Logical/Worker), each with a pool of
-- processors (Physical/Cpu, Physical/CpuPool), memory (Physical/Ram) and a disk (Physical/Disk), and
-- indices (Index), whose shards (Logical/Shard) have replicas on workers. A request is routed to a
-- shard by a hash, and takes memory, then a processor or the disk, of a worker: a GET reads from one
-- worker, a PUT writes to a primary and then to its replicas, a SEARCH asks one worker of each
-- relevant shard and then collates (Requests). The requests come from a file (Util/JsonScan,
-- Workload), and an agent (Agent) asks for a scaling of the collection, in which new workers replace
-- the old ones (Collection/Scaling).
--
-- The files, and the code that they model:
--   Base, Base/*           shared names, tests, lists, permutations, integers; Store has objects by
--                          their pointers, with their freeing
--   Double, Double/Sample  the C type double as a parameter with laws, and an instance for tests
--   Types                  include/types.h
--   Config                 include/config.h
--   Actor                  include/collection/actor.h
--   Util/BoundedQueue      include/util/bounded_queue.h; Refine relates the ring to a sequence
--   Util/DynArray          include/util/dynarray.h; Remove has what the removals keep
--   Util/Pool              include/util/pool.h
--   Util/Rng               include/util/rng.h, src/util/rng.c; Draws has those that call sqrt and log
--   Util/JsonScan          include/util/json_scan.h, src/util/json_scan.c; Print prints an object,
--                          RoundTrip scans what is printed, Ends has where the scanner stops
--   Event/Pq               include/event/pq.h, src/event/pq.c; Order, Up, Down and Laws have the
--                          order of the heap, the two sifts and the operations
--   Event/Clock            include/event/clock.h, src/event/clock.c; Schedule and Run have the
--                          scheduling and the loop
--   Event/Gather           the gather of include/event/continuation.h
--   Physical/Ram           include/components/physical/ram.h, src/components/physical/ram.c
--   Physical/Disk          include/components/physical/disk.h, src/components/physical/disk.c
--   Physical/Cpu, CpuPool  include/components/physical/cpu.h, src/components/physical/cpu.c;
--                          Handover has who gets a processor, SpinUp and Shutdown the start
--                          and the end of a pool
--   Logical/Shard          include/components/logical/shard.h, src/components/logical/shard.c
--   Logical/Worker         include/components/logical/worker.h, src/components/logical/worker.c;
--                          Tasks and DiskTasks have the tasks on processors and on the disk, Sample
--                          a worker for tests
--   Index                  include/collection/index.h, src/collection/index.c; Routing has where a
--                          document goes, Transfer the creation of shards and the change of
--                          their workers in a blue-green deployment
--   Collection             src/collection/actor.c, and the actors and indices of
--                          include/collection/collection.h, src/collection/collection.c; Actors has
--                          what registration keeps
--   Collection/Scaling     the blue-green scaling of src/collection/collection.c; Start has its first
--                          phase, Finish its end, with Retire for one old worker and Overrun for
--                          the loop over all of them, and the context that it frees
--   Requests/World         the state that requests share, and the running of what a step calls
--   Requests/Get           src/requests/http/get.c; Phases has what becomes of a request
--   Requests/Put           src/requests/http/put.c; Fanout and Replies have the writes to replicas and
--                          their answers, Overrun the answer that comes when the request is gone
--   Requests/Search        src/requests/http/search.c; Select has the choice of shards and workers,
--                          with Shards and Best on it, Answers the gathering of the answers
--   Workload               the dispatch of src/generator/workload.c, include/generator/workload.h; Load
--                          has the loading of its file, Dispatch the order of the dispatch, Poisson
--                          the generator that draws the requests
--   Agent                  include/agent/agent.h, src/agent/agent.c; Oblivious has the planned actions
--   Profiler               include/profiler/profiler.h, src/profiler/profiler.c; History has what a
--                          profile adds to the history
--   */Tests                runs, and instances of the theorems
--
-- Operations have the names of the C functions without the prefix of their component. A pointer is
-- the number of its object. An array that grows is the list of its live entries; its capacity is kept
-- as a field, and allocation is taken to succeed. An Option that is none is a failed assertion,
-- undefined behaviour, or fuel that ran out. A continuation is of an abstract type; a component gives
-- back what it schedules and invokes, in order, and the component above interprets it. The context of
-- a PUT or of a SEARCH is an entry of a store, which is none when its memory is freed.
--
-- Fuel: sift_up and sift_down of the priority queue run on the number of entries, which they never use
-- up; the loop of clock_run runs on a number of rounds, which the hypotheses of its theorems bound;
-- the loop of cpu_pool_spin_down runs on the length of its queue; the scanner of an object on a number
-- of rounds, for which the length of the text is enough; the handling of what a request calls directly
-- on a depth; the draws of random numbers that repeat until one is in range, on a number of tries,
-- after which they give none; the loops over replicas, shards, workers and actions on their number.
--
-- Laws assumed of double are named records in Double: the order of the values that are not NaN, exact
-- arithmetic on whole numbers up to 2^53, and the sign of -1.0. Of the C library strtod, strtol,
-- strstr, sqrt, log, sin, snprintf and the conversion of a double to an int are parameters. Sums over
-- workers are taken to be within the range of int.
--
-- Not modelled: collection_init with its workers, worker_init and workers_spin_up, which is an effect
-- of the scaling; the lines that the profiler writes; the freeing of memory that nothing reads later.
-- Input, output and the command line are left out.
pub mod Base
pub mod Double
pub mod Types
pub mod Util
pub mod Event
pub mod Actor
pub mod Physical
pub mod Config
pub mod Logical
pub mod Index
pub mod Requests
pub mod Collection
pub mod Agent
pub mod Workload
pub mod Profiler
