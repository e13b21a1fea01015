-- ===== src/Lib.antt =====
-- The gateway in front of a few GPU replicas that serve an OpenAI-style chat API (gateway/). A
-- request is authenticated, checked, counted against its API key's quotas and sent to a replica
-- whose circuit breaker is closed; a scraper reads each replica's own metrics, from which a
-- prober learns that a replica is wedged, and it probes the replicas whose breaker is open.
--
-- Breaker models gateway/upstream/breaker.py: ReplicaBreaker is the record of that name, with one
-- function per method, and Breaker.Registry the registry. Breaker.Events has the calls of a
-- breaker as events. Client models gateway/upstream/client.py: the pool is a record that every
-- operation takes and returns, Client.Outcomes has classify, _should_retry and _retry_delay, and
-- Client.Retry has _with_retry, of which request and open_stream are the two uses.
-- Client.Reachability has health and probe, and the readiness route of gateway/routes/health.py.
-- Quota models gateway/quota.py, Scraper gateway/upstream/metrics_scraper.py, with
-- Scraper.Polling for the poller and the gauges it sets, and Prober one pass of _breaker_prober
-- in gateway/main.py. Auth models gateway/auth: Auth.Keys is keys.py, Auth.Tokens is jwt.py and
-- Auth.Dispatch is require_principal. Chat models gateway/routes/chat.py: Chat itself has the
-- checks of the body, Chat.Values the JSON values they look at, Chat.Quotas the two gates that
-- know the keys, Chat.Serving what happens once they are passed, with the records that it makes
-- for the audit log, and Chat.Serving.Relay and Chat.Frames the relay of a stream and the events
-- it reads in it; Chat.Handler puts them together as chat_completions. Audit models
-- AuditLog.write of gateway/audit.py, with the JSON text that it appends; Audit.Writing has what
-- the file is after many writes. Metrics has the closed vocabularies of gateway/metrics.py and
-- Metrics.Middleware its MetricsMiddleware. Config models gateway/config.py, where Config.load is
-- the construction of the settings from an environment, and Client.Connection the start and the
-- stop of the pool, which read the certificates that the settings name. Ops has the liveness
-- route, the list of models, which takes a caller that has been authenticated, and the metrics
-- route.
--
-- Stub models stub/server.py, the double of vLLM that the gateway is tried against: Stub.Filler
-- the text it makes up, Stub.Completions a chat completion up to the point where it is decoded,
-- with Stub.Completions.Slots for requests that share its semaphore, Stub.Replies the JSON or the
-- stream that it answers with, and Stub.Wedged a stub that has been wedged as the scraper sees
-- it. Loadgen models scripts/loadgen.py: Loadgen.Percentile is pct, Loadgen.Requests is
-- one_request and Loadgen.Levels the summary of a level and the exit codes. ThinkProbe models
-- scripts/b3_probe.py. Dict is a Python dict, and Prelude what the files share.
--
-- Times are whole milliseconds, except in Auth.Keys, where they are seconds. In Loadgen,
-- quantiles, rates and what pct gives are whole hundredths, and the values that pct is given are
-- millionths of their unit, so nanoseconds for times; the values of the stub's metrics are
-- millionths. Counts, budgets and metric values are natural numbers, so a subtraction that Python
-- caps with max(0, ...) is the subtraction of natural numbers. An exception is a value of Result.
-- A method that is written as one function in Python may be several here, one for each test it
-- makes.
--
-- What happens while a coroutine waits is an argument: Client.Retry takes for each attempt the
-- reply, the jitter and what other tasks do to the pool, and Quota.Slots has interleaved requests
-- as the steps of a relation. A pass of the prober is modelled without other tasks in between.
-- The HTTP client, the exposition parser, the JSON parser, argon2, PyJWT, str of a value that is
-- no text, int and float of a text, the text of a number in JSON, how a write to a file ends, the
-- digest that seeds the stub's filler and what prometheus_client's Counter.inc takes a value as,
-- in tokens, are arguments too. A stream is the list of its chunks and the way it ends; a call
-- can be cancelled, and the closing of a response can return, raise or be cancelled.
--
-- Fuel bounds the printing of a number in Prelude.Text, which is given more rounds than the
-- number has digits, and the inner loop of the relay in Chat.Frames, which is given as many
-- rounds as the buffer has bytes, where every round but the last takes an event off it.
-- ThinkProbe.without_sections has a round for each character of the text, and each round takes at
-- least one. The attempts of _with_retry are bounded by the source's MAX_ATTEMPTS.
--
-- Not modelled: a task that is cancelled at another place than the upstream call, the reading of
-- an error response or the closing of a stream's response; the declarations of the gateway's own
-- metrics and their exposition text (gateway/metrics.py); the start of the process and its loops,
-- which are wiring (gateway/main.py); log lines; the command lines, the HTTP traffic and the
-- printing of the scripts; the shell scripts, the tests and the deployment files.
pub mod Prelude
pub mod Dict
pub mod Config
pub mod Breaker
pub mod Quota
pub mod Client
pub mod Scraper
pub mod Prober
pub mod Auth
pub mod Metrics
pub mod Chat
pub mod Ops
pub mod Stub
pub mod Loadgen
pub mod ThinkProbe
pub mod Audit
