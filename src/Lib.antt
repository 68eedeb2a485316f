-- ===== src/Lib.antt =====
-- Aquifer is a durable queue in front of the HTTP services that its callers use. A caller posts a job
-- (internal/core); the node decides whether to take it (internal/admission), stores it
-- (internal/storage) and hands it to the worker of the job's target (internal/dispatch), which keeps
-- one queue for each tenant or one for all of them. A queue's run loop paces its jobs by its own rate
-- and by a pace that all queues of a target share, makes the request, and ends the job, retries it or
-- gives it up; the end is told over a stream or by a webhook, which is a job of its own. Connections
-- over WebSocket have a scheduler of their own (internal/websocket).
--
-- The files and the code that they model:
--   Jobs (internal/jobs/job.go): requests and their checks, jobs, deadlines, retries left, identity.
--   Retry (internal/retry/retry.go): the jitter of a delay.
--   Admission/Controller (internal/admission/admission.go): the checks of memory, disk and sync lag,
--     and Retry-After. Admission/Fair (internal/admission/fair.go): fair admission to a target.
--   Admission/Inbound (internal/admission/inbound_rate.go): the rate advertised to callers.
--   Dispatch/SharedPace (internal/dispatch/shared_pace.go): the pace that the queues of a target share.
--   Dispatch/Target (internal/dispatch/account_queue.go and dead_target.go): the counters and the
--     health that they share.
--   Dispatch/Execute (internal/dispatch/account_queue.go, execute and what it calls): one attempt at a
--     job; Effects has the ends of a job, Delay the wait before a retry, Signals the pacing headers.
--   Dispatch/Queue (internal/dispatch/account_queue.go, run): the run loop. Defs has its sweeps and
--     failDeadTarget of dead_target.go, Rate its pace, Loop the pass before the select, Select the
--     cases of the select, Run a whole run in which dispatched jobs end by Execute.
--   Dispatch/Recovery (internal/dispatch/paged_recovery.go): a queue whose jobs are partly on disk. Defs
--     has its sources, hand-offs and one row of a page, Loops the refill and the sweep.
--   Dispatch/Broker (internal/dispatch/broker.go): the streams of events of jobs. Defs has one function
--     per critical section, Steps the steps of streams and publishers and the invariant, which
--     Entries, Sends, Waits, Slices, Keeps, Rooms and Runs prove; Delivery is about what arrives.
--   Dispatch/Worker (internal/dispatch/url_worker.go): the worker of a target: places for jobs by fair
--     admission, the budget and its floor, the mode of its queues, the breaker.
--   Dispatch/UserLoad (internal/dispatch/user_load.go): the unfinished work of each user.
--   Dispatch/DrainRate (internal/dispatch/drain_rate.go): how fast a target finishes jobs.
--   Cluster (internal/cluster/router.go): which node owns a key. Routing has the ranking, pruning and
--     the keys that this node works on; Order, Pruning and Iteration are about the ranking.
--   Region (internal/region/redirect.go, internal/core/region_redirect.go): a job that another region
--     may serve. Redirect has the gate and the order of the candidates, Tour the hops of an attempt,
--     Candidates, Outcomes and Attempts what is proved of them.
--   Storage/Pebble (internal/storage/pebble.go): the store of jobs. Engine is the interface of the
--     key-value engine below it and its laws, Memory an engine that meets them; Defs has the
--     operations on one job, Scans those on ranges of keys, Expiry the deletion of expired jobs and
--     the ledger of drain events. Indexes, Steps and Runs are about the indexes under any calls, Swept,
--     Sweeps and Stranded about expiry, Inserts about idempotency and results, Pages and Dropped about
--     the pages of a queue.
--   Websocket/Scheduler (internal/websocket/queue.go): the scheduler of upstream connections.
--   Base: the names and lemmas that these share.
--
-- A method is a function from the state to the new state and the result, with a mutex's critical
-- section as one step; goroutines interleave as lists of steps or calls. What a method does to the
-- store, the streams and the webhooks is a list of effects in the order of the code. The sweep of
-- expired jobs, which the code does not lock against other calls, is one step too. The clock, the
-- random draws, the environment's settings, the readers of header values, SHA-256 and the answers of
-- targets are arguments. Times are nanoseconds and natural numbers (the time of a retry, which may wrap, is an integer); durations of which the sign
-- matters, counters that may fall and header values are integers; where an int64 wraps this is written
-- out (Dispatch/Execute/Delay), and elsewhere the values stay far from 2^63.
--
-- A float64 (Base/Float) is NaN or a number of an interface, FloatArith, which stands for the
-- hardware's arithmetic on the other values. Theorems that need its order take FloatLaws, and those on
-- a queue's pace RateLaws; both hold of IEEE 754, and a concrete arithmetic in thousandths meets them
-- in the examples.
--
-- Two kinds of loop take fuel. The dispatch loop of a queue gets one turn more than there are jobs in
-- the queue, and it never runs out of that; the loops over pages on disk get a number of pages, and
-- one more than the sources and the rows that the store has left to serve is enough for a refill.
-- All other loops are structural.
--
-- Not modelled: metrics, logs and traces; the pages of jobs on disk as part of the run loop (its
-- spills are empty there); pools, the registry, the heartbeats and rebalancing of a cluster,
-- SQLite and the opening and syncing of Pebble, the bytes of its keys (a key is kept apart in its
-- parts), the HTTP server, the WebSocket streams, and the adapters. They are I/O, or state that
-- the parts above only read through arguments.
pub mod Base
pub mod Retry
pub mod Jobs
pub mod Admission
pub mod Dispatch
pub mod Websocket
pub mod Cluster
pub mod Region
pub mod Storage
