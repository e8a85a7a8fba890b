-- ===== src/Lib.antt =====
-- flock: the routing core of the proxy, as executable functions with their properties.
--
-- The proxy (proxy/) puts many API keys of several model providers behind one address. A request is
-- admitted by the governor of its model, given a slot of one key by the key pool of its provider, and
-- its outcome is recorded by the circuit breaker of the provider. Each part is a state that the other
-- parts share behind a lock, and each method here is one step on that state.
--
--   Pool      proxy/src/pool.rs       One lane per key with a sliding window of 61 s. Pool/Lanes is a
--             lane (`take_slot` is the body of `try_take`), Pool the methods, Pool/Persist the hooks of
--             persistence and the statistics. `reserve` composes `reserve_preferred` and `reserve_any`
--             (`scan`, `sort_loads`, `first_ready`) as the method's body does.
--   Governor  proxy/src/governor.rs   The cap on the requests in flight of a model. Governor/Model is
--             the state of one model and the parts of `admit_at`, `release` and `note_exhausted_at`
--             that change it; Governor has the methods on the map of the models; Governor/Permits
--             follows the permits, whose drop is the call of `release`; Governor/Persist has the
--             snapshots.
--   Circuit   proxy/src/circuit.rs    The breaker: closed, open, half open. Circuit has every method,
--             Circuit/Persist the snapshots.
--   Observer  proxy/src/observation.rs  What is read off a response on its way. Observer/Json has the
--             values that serde_json gives, Observer/Usage the token counts, Observer/State the finishes and
--             the tool calls, Observer/Choices one event or body, Observer/Sse the bytes of a stream and
--             `finish`. The decoding of an event's bytes is the parameter `parse`.
--   Dispatch  proxy/src/dispatch.rs   The queue before the pool: `turn` is one pass of the loop in `run`,
--             `step` one event (a call of `acquire`, a settings swap, a turn). Whether a client is gone and
--             what the clock reads are in the events. A swap falls before or after a turn, not between its
--             reservation and the send of the reply.
--   Providers proxy/src/providers.rs  The keys of a provider and the lanes they make (`lane_specs`), which
--             is what the pool is built of. The environment is the parameter `env`.
--   Coalescer proxy/src/coalescer.rs  Identical buffered requests in flight share one call (`register`,
--             `complete`, and `drop_lead` for the drop of a lead). A watch channel is a number.
--   Health    proxy/src/health.rs     The health map (`HealthDb`) with the ops that each method sends to the
--             writer thread. Health/Store is the SQLite schema as tables by primary key, `apply_op` and
--             `writer_loop`; Health/Restore is `restore`; Health/Changes has the calls in any order,
--             Health/Mirror, Replay and Restart compare memory with the database, Health/Runtime follows the
--             circuits and governors; Health/Dates is the date arithmetic of the legacy import.
--   Router    proxy/src/router.rs     Router has the state and `candidate_ok`, Router/Order the strategies'
--             orders, Router/Select `select`, Router/Finish `finish_success`, `finish_failure` and
--             `record_attempt`, Router/Acquire the gates of `acquire`, Router/Failover the loop of
--             failover, Router/Strikes the strikes for empty completions, Router/Execute
--             `execute_buffered` with the coalescer before the loop. A turn of that loop is given the
--             clocks, the answers of the token bucket and of the dispatcher, and the upstream's reply;
--             Router/Ending shows that it ends. Router/Lifecycle is `rebuild`, whose effect on a runtime is
--             in Router/Swapped and on selection in Router/Removed, and Router/Persist `build` and `persist_once`. It calls Circuit, Governor,
--             Pool, Providers, Coalescer and Health. A pool behind an `Arc` is an index into `pools`, which
--             a runtime and a slot may share.
--   Base      Names passed on, Boolean tests, lists, association lists (for HashMap), clocks.
--
-- Time. `Instant::now()` and the Unix time are arguments. An `Instant` is a number of nanoseconds
-- since the earliest instant of the platform; `Instant - Duration` before it is a panic.
--
-- Errors. A panic is `none`: an index out of bounds, a slice past the end, an instant before the
-- earliest one or past the latest one (`after`), which is that of a Unix platform, with 64-bit
-- seconds.
--
-- Integers. The breaker's counters wrap at 2^32 and the governor's at 2^64, as in a release build.
-- A sum of an instant and a duration that an upstream or the database gives panics past the latest
-- instant; a sum with one of the program's own short durations does not come near it.
--
-- Floating point. Latencies, weights and rolls are `f64` in the source: the type and the operations
-- on it are parameters (`Host`, `Weights`), as is the JSON text of a lane's stamps. The standard
-- sort is written as an insertion sort, which is stable as it is.
--
-- Bounds. The observer's limits are the source's: 1048576 bytes of an event, 128 indexes.
--
-- Loops. Most loops of the modelled code go once over a list, so recursion on the list is the loop.
-- `order_elo` takes one provider a round, and has as many rounds as providers. The dispatcher's
-- endless loop is a list of turns, and so is the failover loop, with a theorem on how many it takes.
--
-- Locks and tasks. A mutex is held over the whole of each step that is modelled as one; the read
-- lock of the pool handle keeps a settings swap out of a reservation, so calls are sequences.
--
-- Not modelled: exported metrics and logs, which no state depends on; HTTP, the asynchronous tasks, statements
-- that SQLite fails to run and file input and output; the token bucket of proxy/src/ratelimit.rs,
-- which is in floating point; the router's views for the admin API and its probe.
pub mod Base
pub mod Circuit
pub mod Governor
pub mod Pool
pub mod Observer
pub mod Dispatch
pub mod Providers
pub mod Coalescer
pub mod Health
pub mod Router
