-- ===== src/Lib.antt =====
-- Shadowstep is a caching reverse proxy. A request to the proxy is looked up in an in-memory cache;
-- what the cache cannot answer goes to the origin, whose answer is streamed to the client and
-- copied into the cache when a shared cache may store it. Requests for one key wait for the first
-- of them, stale responses are served while they are revalidated or when the origin fails, and
-- static files are served through the same cache.
--
-- Which file models which part:
--   Cache/Directives   src/cache.rs `Directives`, `split_outside_quotes`
--   Cache/Policy       src/cache.rs `RequestPolicy`
--   Cache/Vary         src/cache.rs `Vary`, `vary_values`, `vary_names`
--   Cache/Stale        src/cache.rs `StaleRules`
--   Cache/Storable     src/cache.rs `storable`, `freshness_lifetime`
--   Cache/Response     src/cache.rs keys, entries, `StoredResponse`, weights
--   Cache/Store        src/cache.rs `Store`: Defs has its state and the methods that read, Writes
--                      those that change what it holds
--   Coalesce           src/coalesce.rs `Flights`, `FlightGuard`, `Waiter`
--   Metrics            src/metrics.rs, and `health_check` of src/lib.rs
--   Forwarded          src/forwarded.rs `ClientInfo` and the lists of headers
--   Proxy/Headers      src/proxy.rs fields to the origin and to the client
--   Proxy/Tee          src/proxy.rs `Tee`, `BodyCopy`
--   Proxy/Idle         src/proxy.rs `IdleTimeout`
--   Proxy/Answer       src/proxy.rs `cached_response`, `client_response`, `store_plan`
--   Proxy/Exchange     src/proxy.rs `Exchange`
--   Proxy/Serving      src/proxy.rs `from_cache`, `refresh_in_background`, `refresh`
--   Proxy/Waiting      src/proxy.rs `serve_from_cache`
--   Proxy/Payload      src/proxy.rs `request_body`, `pump_request_body`
--   Proxy/Streaming    src/proxy.rs `Storing::holding`, the response while it streams
--   Proxy/Forward      src/proxy.rs `forward_to_upstream`, `forward`, `send_to_origin`
--   Proxy/System       any number of requests at once, step by step
--   Assets             src/assets.rs
--   Config             src/config.rs
--   Tls                src/tls.rs
--   Server             src/lib.rs `build_state`, `app`, `health_check`; src/main.rs
-- Http, Moka, Watch and Prometheus are interfaces: what the program relies on of the crates
-- `http`, `actix-web` and `httpdate`, of `moka`, of `tokio::sync::watch` and of `prometheus`, as
-- operations with laws. Http/Listed, Moka/Timed, Watch/Opened and Prometheus/Tallied are
-- implementations, with which Tests runs the model. Prelude, Text, Time, Run and Io are helpers.
--
-- How the state corresponds: a method of a struct that changes it takes the value and returns the
-- next one. A method is one step, and it reads the clock once, at the time that it is given;
-- Cache/Store/Steps also has `insert_response` and `lookup` call by call, and Cache/Store/Races
-- lets the calls of several threads come in any order. Each `Arc` has an address of its own, which
-- stands for its identity. moka may evict an entry at any time, so its laws say only what a lookup
-- that finds something has found, and the store's reachability relation (Cache/Store/Reach) lets
-- entries vanish between any two steps. The counter of generations wraps around at 2^64, as
-- `fetch_add` does. A `Duration` is its nanoseconds: `+` panics (`Run.panic`) over `Duration::MAX`,
-- other operations saturate or check as the source's. Lengths and weights do not wrap: they are
-- sizes of memory that is in use. Texts and header values are lists of codes; a `char` that is not
-- ASCII stands for itself in a text. An `Instant` is a number without a greatest one, so the idle
-- timeout's deadline is exact where `Instant::now() + idle` panics past the platform's last
-- instant.
--
-- No definition needs fuel but the printing of a number in decimal digits, which gets the number
-- itself: each round divides it by ten.
--
-- A request in the proxy is a task: the code between two waits is one step, a background
-- revalidation is one step up to its wait for the body and one after it, and Proxy/System lets the
-- steps of all tasks, of background refreshes and of the other users of the store come in any
-- order, and lets a task be dropped at any wait. What comes back from the origin, and when, is an
-- argument of its step. Within the step that ends a copy, other threads may run between its calls;
-- Proxy/Streaming has the worlds after each of them.
--
-- Not modelled: the reading of the command line, the workers and middleware of actix-web and the
-- text of `/metrics`, which are calls of libraries, and interleavings within a method of the store
-- other than `insert_response` and `lookup`.
mod Prelude
pub mod Text
pub mod Run
pub mod Io
pub mod Time
pub mod Http
pub mod Moka
pub mod Watch
pub mod Cache
pub mod Coalesce
pub mod Prometheus
pub mod Metrics
pub mod Forwarded
pub mod Proxy
pub mod Assets
pub mod Config
pub mod Tls
pub mod Server
mod Tests
