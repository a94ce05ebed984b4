-- ===== src/Lib.antt =====
-- A verification library for go-daily-learning, a collection of small Go programs. Each directory of
-- the repository is a program of its own; the programs share no code. The library takes those with
-- logic of their own: simulators, queues, locks, counters, a small service and pure formulas.
--
-- Which file models which program:
-- - Tricolor: adv027_gc_tricolor/main.go, the tricolor marking machine with its five write barriers
--   (`machine`, `alloc`, `shade`, `storeHeap`, `storeStack`, `loadHeap`, `startMark`, `scanStack`,
--   `step`, `drainN`, `drainAll`, `finishMark`). Tricolor/Reachable is the search `reachable` and the
--   verdict of `verify`, Tricolor/Scenarios the five scenarios, Tricolor/Cycle the interleavings of
--   the mutator and the marker as a step relation. An object is its index in `objs`.
-- - Stealing: adv002_work_stealing/main.go, the run queues with the runnext slot, stealing, and the
--   two-processor run `runHotLatency`.
-- - Group: adv021_errgroup/main.go, `NewGroup`, `SetLimit`, `Go` and `Wait`. Every atomic action of a
--   goroutine is a step of its own, and Group/Safety lets them interleave in any order, with `Wait`
--   and the cancellation of the parent context.
-- - Pipeline: adv020_pipeline_shutdown/main.go. A state has the shared part of `main`, `Produce` and
--   `Merge` and one stage for each worker with its output goroutine; Steps runs any list of moves.
-- - Leaks: adv024_goroutine_leak/main.go, the parser of goroutine dumps, the leak checker and the
--   loops that wait for it; Leaks/Release is the four functions that leak and the four that do not.
-- - Schedtrace: adv008_schedtrace/main.go, the parser of scheduler trace lines, the worker pool of
--   `runSchedulerDemo`, `runCPUWorkers` and `runChannelBurst`.
-- - Pauses: adv029_stw_phases/main.go, the summary of the pauses of the collector.
-- - Parallel: adv001_gmp_model/main.go, `cpuBound` and `runParallel`.
-- - Rates: adv022_rate_limiting/main.go, two semaphores behind one interface, the goroutines that
--   measure how many run at once, and (Rates/Bucket) the token bucket. A `sync.Cond` is its tickets:
--   `Wait` takes one and sleeps, `Broadcast` wakes all who hold one.
-- - Counters: adv013_atomics_ordering/main.go and the counters of adv010_race_detector/main.go.
-- - Once, WaitGroup: adv014_waitgroup_once/main.go.
-- - Backpressure: adv023_backpressure/main.go, the unbounded, the dropping and the blocking queue.
--   Backpressure/Scenarios is `runDropScenario` and `runBlockingScenario`.
-- - Cancel: adv019_context_cancel/main.go, `observeCancel` with its three contexts and goroutines.
-- - Handoff: adv017_hchan_internals/main.go, the events around an unbuffered and a buffered channel.
-- - Memory: adv009_memory_model/main.go, values published by a channel, a mutex and a `sync.Once`.
-- - Cgroup: adv007_gomaxprocs_container/main.go, CPU limits, GOMAXPROCS and the thread count.
-- - Select: adv018_select_impl/main.go, polling in a fixed order and `select`.
-- - Gogc: adv028_gogc_memlimit/main.go, the formulas of the heap goals.
-- - SizeClass: adv026_mallocgc/main.go, `classFor`; SizeClass/Gaps has the class table, the ranking
--   of fragmentation, the gaps between addresses and the count of different ones.
-- - Todo: day035_http_server/main.go, the three handlers.
-- - Server: day041_functional_options/main.go.
-- - Containers: the list of day054_linked_list_with_generics/main.go and the stack of
--   day027_generics_types/main.go.
-- - Sequences: day053_range_over_func/main.go.
-- - Grades: basic008_switch/main.go.
-- Prelude has the shared names, numbers and list lemmas; Sorting is `sort.Slice`; Channel is the
-- buffered channel of the language; Threads runs copies of one goroutine under a schedule, Steps
-- any program with several kinds of moves, and Parties one with local states and a shared part;
-- Text has byte strings and what is used of `strings` and `strconv`. The modules called Examples
-- have runs at concrete inputs.
--
-- Conventions. A Go `int` is a natural number where the code keeps it from going below 0, and an
-- integer of Prelude/Int otherwise; 64-bit arithmetic that can wrap is written with its wrap-around
-- (Gogc, WaitGroup, the drop counter of Backpressure). Counters that only grow by one for each
-- operation stay unbounded. A pointer that may be nil, a panic and a call that blocks are `none`, or
-- a constructor of their own where a function can do several of them. A section under a mutex and
-- an atomic operation are one action; the memory model is sequentially consistent, which is what
-- the language gives to programs without data races.
--
-- Fuel. `drain_all` runs `step` once for each object and each entry of the work list; the search of
-- `reachable` has one round for each object; the loop of `runHotLatency` has the bound of the
-- source; `sort.Search` has the length of its interval; `parseStacks` has the number of its lines;
-- the buffer of `goroutineStacks` doubles once for each unit. A theorem says of each that what it
-- has is enough, or gives its result outright. A schedule is any list of turns.
--
-- Parameters. JSON decoding and number parsing (Todo), the dumps and the clock (Leaks) and the
-- floating-point numbers (Pauses, Rates/Bucket, Cgroup, SizeClass/Gaps) are functions that the
-- theorems take. The runtime's choice of a
-- ready case (Select) and its table of size classes (SizeClass) are inputs.
--
-- Not modelled: printing, the measurements of the real runtime, sockets, subprocesses, timers, and
-- the lessons that only print what a feature of the language does.
pub mod Backpressure
pub mod Cancel
pub mod Cgroup
pub mod Channel
pub mod Containers
pub mod Counters
pub mod Examples
pub mod Gogc
pub mod Grades
pub mod Group
pub mod Handoff
pub mod Leaks
pub mod Memory
pub mod Once
pub mod Parallel
pub mod Parties
pub mod Pauses
pub mod Pipeline
pub mod Prelude
pub mod Rates
pub mod Schedtrace
pub mod Select
pub mod Sequences
pub mod Server
pub mod SizeClass
pub mod Sorting
pub mod Stealing
pub mod Steps
pub mod Text
pub mod Threads
pub mod Todo
pub mod Tricolor
pub mod WaitGroup
