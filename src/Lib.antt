-- ===== src/Lib.antt =====
-- A model of the Go library proxy-common, with the properties that make its parts correct.
--
-- The parts, and the files that model them:
--   * auth/: a service that hands out puzzles, takes solutions for tokens and counts the uses of
--     each token. Auth/Config is auth/config/config.go, Auth/Puzzle is auth/puzzle/puzzle.go,
--     Auth/Jwt is auth/jwt/jwt.go, and Auth/Handlers (with Issue for the handlers that issue puzzles
--     and tokens) is auth/handlers/handlers.go. The handlers call the other three. Auth/Metrics is
--     auth/metrics/metrics.go, the recorders that the handlers report to, and Auth/Server is
--     auth/server/server.go, which builds handlers of options and sends each request to one
--     (Auth/Server/Serving), with the command auth/cmd/server/main.go. Auth/Client is the client
--     auth/cmd/test-puzzle-auth/main.go over any service, of which Auth/Client/Local is one,
--     and Auth/Benchmark, with Report for its table, is auth/cmd/benchmark-puzzle/main.go.
--   * cache/: the interface `Cache` with its laws is Cache. Cache/L1, Cache/L2, Cache/Noop and
--     Cache/Multi are its implementations in cache/l1/bigcache.go, cache/l2/keydb.go,
--     cache/noop/noop.go and cache/multi/multi.go; Cache/Level is a value of the interface, of which
--     a multi-level cache is built. Cache/L1/Collect is the construction of the first level and its
--     metrics task, Cache/L1/Closing the events of a level up to its end, and Cache/L2/Connect the
--     connection to KeyDB (cache/l2/keydb_client.go). Cache/Config is cache/config.go, and
--     Cache/Metrics is cache/metrics/metrics.go. Models is models/cache.go, the entries that they
--     hold. Cache/History has sequences of calls of a cache, whose entries Cache/Provenance traces
--     through the levels by their Held modules and Cache/Multi/Traces; Cache/Deadlines has how long
--     their copies last.
--   * apikeys/: ApiKeys is the key manager and the loop over the keys (apikeys/manager.go,
--     apikeys/rotator.go).
--   * ratelimit/: RateLimit is the manager of limiters (ratelimit/manager.go, ratelimit/config.go).
--   * httpclient/: HttpClient is the retry loop with its limiter and backoff, HttpClient/Client the
--     client with its status handler (httpclient/client.go, httpclient/backoff.go,
--     httpclient/options.go, httpclient/handler.go).
--   * scheduler/: Scheduler is scheduler/scheduler.go, as a step relation.
--   * batch/: Batch, with Batch/Merge, is batch/chunker.go.
-- Common has what these share: Go strings as lists of bytes, maps as association lists, 64-bit
-- integers, numbers of `float64`, decimal and hexadecimal text, `strconv.Atoi`. Tests has concrete
-- runs.
--
-- How code becomes a definition. A method is a function from its receiver's state to its result and
-- the new state, under the Go name in snake case. An error is a value of the result. What acts on
-- the outside (`fetchFunc`, an executor, the KeyDB client) acts on a world whose type is a
-- parameter. An operation reads the clock once, as the argument `now`. Times and durations are
-- nanoseconds in ℤ, with a location where the code formats them, or Unix seconds in the cache.
-- Where an `int64` can overflow, the arithmetic wraps (Common/Int64). A `float64` is rounded as the
-- code rounds it, at every quotient and sum (Common/Double): in `Duration.Seconds`, in the backoff, in
-- the index of a percentile, and in what `fmt.Sprintf` prints of it. The store of the in-memory level
-- evicts by age, so its `Get` and `Set` take the time; a read finds what was set up to 10 minutes ago.
--
-- Parameters, since their code is elsewhere: HMAC-SHA256, Argon2, RFC 3339 and the package
-- golang-jwt (`Platform`, `Library`); bigcache, the KeyDB client and the JSON encoding of entries
-- (`Store` and `StoreControl`, `Client` and `Dialer`, `Codec`); the exchanges of a client over HTTP
-- (`Service`), and what a client with retries meets (`Outside`). What they document are
-- `PlatformLaws`, `LibraryLaws`, `StoreLaws` and `CodecLaws`, and for histories `StoreKeeps` and
-- `ServerKeeps`; `ClientLaws` holds as long as no call of the client fails. A limiter of golang.org/x/time/rate is its place among those made,
-- or its `Wait`.
--
-- Fuel. The loop of `process_in_chunks` runs on the number of its items. The search for a nonce runs
-- on the number of attempts, which is an argument of `solve_within` and 1000000 in `solve`, as in
-- the source. The retry loop runs on the attempts that are left. Decimal text of n runs on n + 1,
-- and the binary digits of a double below 2^64 on 160.
--
-- Metrics. What the code calls of the package `prometheus` is a list of samples (Common/Samples).
-- The handlers log the methods of the recorder that they call, and a recorder turns the log into
-- samples.
--
-- Not modelled: logging and what the commands print, but for the table of the benchmark; the
-- transport of HTTP and the registration of metrics; the generated mocks (cache/mock); how long a
-- request of the HTTP client took, and its error texts.
pub mod Common
pub mod Batch
pub mod ApiKeys
pub mod Models
pub mod Cache
pub mod Auth
pub mod RateLimit
pub mod HttpClient
pub mod Scheduler
pub mod Tests
