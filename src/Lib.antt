-- ===== src/Lib.antt =====
-- The adaptive admission controller (README.md): a reverse proxy that admits requests to backends
-- under a concurrency limit, in the order of a reputation score, and spreads the admitted ones over
-- the instances of a backend.
--
-- A request passes the ingress middleware, is routed to a backend, is scored, waits for a slot of
-- the backend's capacity controller and is sent to an instance that the load balancer selects.
--
--   Ingress    app/ingress.py         `dispatch` is TrustedProxyMiddleware.dispatch
--   Registry   app/registry.py        `registry` and `match_path` are the constructor and `match`
--   Scoring    app/scoring.py, app/penalty_store.py    `score` is ScoreEngine.score
--   Capacity   app/capacity.py        `acquire`, `release_fixed`, `release_adaptive`, `adjust`
--   Balancer   app/load_balancer.py   `select`, `release`, `check_down_instances`, `sweep_expired`
--   Scheduler  app/scheduler.py, app/errors.py    `enqueue` and `worker_round` (run_worker)
--   Dispatcher app/dispatcher.py      `dispatch_queued`, and `upstream_arguments` and
--              `stream_response` (_send_and_stream)
--   Classifier app/classifier.py      `classify`
--   Auth       app/auth.py            `verify` and `refresh_loop` of JWTVerifier
--   Geoip      app/geoip.py           `locate` is GeoIPLookup.lookup
--   Config     app/config.py          `check_backends`, `resolve_scoring_config`
--   Handler    app/main.py            `proxy_handler`
--   Startup    app/main.py            `lifespan`, and `start`, its part that builds the
--              parts of the backends
--   Admin      app/admin.py           `require_admin_auth` and the four routes
--   Monitor    app/health.py, app/metrics.py, app/observability.py    `readyz`, `info`, `format`
--   GeoipUpdate   scripts/update_geoip_db.py    `main`
--   LoadTest      scripts/load_test.py          `fire_all`, `ramp_up`, `percentile`
--   Interfaces app/interfaces.py      the CapacityController of the scheduler and the dispatcher
--   Base       shared helpers: texts, dictionaries, integers, floats
--
-- State is a record, and a method is a function from the state to the new one. The clock, the
-- outcome of a probe and what a callback returns are arguments. Each method that holds a lock runs
-- as one step, and a run of the program is a sequence of steps in any order (`Step`, `FixedStep`,
-- `AdaptiveStep`).
--
-- Parameters: floats (Base/Float), with their order and the rounding of `int(limit * factor)` as
-- hypotheses and a fixed-point instance; `ipaddress` (Ingress); `urlsplit` (Balancer); Redis, any
-- call of which may fail (Scoring); `asyncio.PriorityQueue`, which may raise a TypeError where two
-- entries have the same score and arrival, with a list as an instance (Scheduler, Startup); the HTTP client (Dispatcher); the JWT library (Auth); `maxminddb` (Geoip);
-- what the network, `tarfile`, `maxminddb` and the disk do in a refresh of a database
-- (GeoipUpdate); the attributes of every log record (Monitor).
-- `int(0.95 * n)` is written in integers, which agrees with the double product for every window of
-- at most 100 samples. Integers are unbounded, as in Python; the bound 2^32 on a limit and on the
-- concurrency of a load test is where the hypotheses on rounding hold. The one function on fuel
-- prints a number n with fuel n + 1, and n has at most as many digits.
--
-- Not modelled: cancellation of a task that waits for a slot, how the requests of a load test wait
-- for the semaphore, what httpx makes of the arguments of a request, NaN, logging and metrics apart
-- from Monitor and the events of the dispatcher and the handler, the shutdown, the parsing of YAML
-- and of arguments, and the printed reports of the scripts.
mod Base
pub mod Admin
pub mod Auth
pub mod Balancer
pub mod Capacity
pub mod Classifier
pub mod Config
pub mod Dispatcher
pub mod Geoip
pub mod GeoipUpdate
pub mod Handler
pub mod Ingress
pub mod Interfaces
pub mod LoadTest
pub mod Monitor
pub mod Registry
pub mod Scheduler
pub mod Scoring
pub mod Startup
