-- ===== src/Lib.antt =====
-- SwayRider API gateway: the HTTP gateway in front of the SwayRider services.
--
-- A request passes CORS, then Auth, Logging, RateLimit and BodyLimit (internal/middleware), then the
-- mux with the routes of internal/server/routes.go and the extension routes of an operator's file
-- (internal/extension). Routing and search requests become jobs on Redis streams (internal/queue),
-- which workers process, and the hub (internal/sse) delivers a job's result to the request that waits.
-- The rate limiter (internal/ratelimit) counts in Redis and degrades to a counter in the process.
-- Account and region requests are answered at once by calls of authservice and regionservice; calls of
-- the services other than authservice carry the gateway's own token (internal/servicetoken), and those
-- of routerservice and searchservice pass a circuit breaker (internal/circuitbreaker).
--
-- The files:
--   Base: numbers, lists, texts (package strings) and prefixes, shared by all.
--   Http: the parts of net/http and of the request context that the code uses.
--   Extension: internal/extension/extension.go. validate is Validate with one problem for each return;
--     Extension/Routing has Match, BodyLimit, RateClass, Names and Register; Extension/Paths,
--     Validation, Choice and Reserved hold the proofs.
--   RateLimit/Memory: internal/ratelimit/memory.go; RateLimit/Limiter: internal/ratelimit/limiter.go,
--     each with its proofs below.
--   Middleware/RateLimit, Middleware/Auth, Middleware/Access: internal/middleware/ratelimit.go, auth.go
--     and bodylimit.go.
--   Queue: internal/queue/stream.go, worker.go and the jobs of result.go; Queue/Pool: the
--     goroutines of a worker pool; Queue/Depth: handlers and workers on one stream. Sse: internal/sse/hub.go.
--   Handlers/Stream: streamJob and Route of internal/handlers/route.go, decodeBody of auth.go.
--   Handlers/Cookies: internal/handlers/proxy.go, tiles.go and web.go.
--   Grpc: the errors of internal/handlers/auth.go and internal/queue/result.go.
--   Server: internal/server/routes.go and the parsing of settings in server.go.
--   Extension/Upstream: the handler of an extension route and the headers that it sends.
--   Server/Chain: the middleware chain and the rate-limit settings of Run in server.go; Chain/Budgeted
--     describes the limits of ratelimit.go apart from its code.
--   Config: internal/config/config.go.
--   Handlers/Answers: writeJSON, writeError and the steps that most handlers share, of auth.go.
--   Handlers/Auth: internal/handlers/auth.go and auth_admin.go: Service has the requests and AuthClient,
--     Session, Account and Admin have the handlers, Tokens and Failing the proofs.
--   Handlers/Search: internal/handlers/search.go without enqueueAndStream, which is in Handlers/Stream.
--   Handlers/Upstream: UserMetadataCtx of internal/queue/result.go and BreakerExecutor of route.go.
--   Handlers/Trip: the conversion of trips in internal/handlers/route.go, to Queue/Results.
--   Handlers/Route: the requests, queries and worker functions of route.go and reroute.go.
--   Handlers/Reroute: the validation and the handler of reroute.go.
--   Handlers/Regions: internal/handlers/region.go.
--   ServiceToken: internal/servicetoken/manager.go, with the loop of run as a step relation in Loop.
--   RateLimit/Redis: the pipeline of redisAllow in internal/ratelimit/limiter.go.
--   Circuit: internal/circuitbreaker/registry.go.
--   Sse/Subscription: WaitForResult of hub.go and the worker of its job as one step relation.
--   RateLimit/Limiter/Threads: the calls of Allow in limiter.go at work together, a step for each section
--     under the mutex.
--   Middleware/Logging: internal/middleware/logging.go and the recorder of extension.go.
--   Handlers/Static: internal/handlers/health.go and openapi.go.
--   Extension/Registered: NewSet, Register, Describe and the transport of extension.go.
--   Server/Run: Run of internal/server/server.go up to ListenAndServe.
--   Main: cmd/swayrider-api/main.go.
--   Server/Mux: the mux of net/http, for the patterns of routes.go and of the extension routes.
--   Examples: the theorems at concrete inputs.
--
-- State is passed on explicitly: an operation takes the state and returns the new one. Code that is not
-- in the repository is a parameter: Redis (RateLimit.Limiter.Backend, Queue.Redis), encoding/json
-- (Queue.Codec and the codecs of the handlers), the clients of the services (AuthClient, SearchClient,
-- RouterClient, RegionClient), gobreaker, net and the key cache (Middleware.Auth.Env), url.Parse,
-- net.ParseCIDR. A float64 is a value of a type F, whose operations are a parameter where the code uses
-- any. Messages of those clients have the fields that the code reads or sets. The order in which Go
-- visits a map is the parameter visit.
--
-- Bounds and fuel: times, limits and sizes are far below 2^63, so int and int64 are unbounded here; a
-- limit that can be negative is an integer of Base.Int. The only recursion that is not on a list or a
-- text is that of Limiter.Allow through a successful probe back to Redis: it takes fuel, and two units
-- are enough where the threshold is at least two.
--
-- Not modelled: log lines but those of requests and of the start, the interleavings inside the token
-- manager and the in-process counter, whose calls follow one another, what Run does from ListenAndServe
-- on, the reverse proxies of net/http, the redirects and the own answers of its mux, and the restart of
-- the token's loop after a panic. Queue.enqueue has the two calls of Enqueue one after the other, with
-- no other client between them, which is how one request sees them; Queue/Depth has them as separate
-- steps of any number of handlers. A stored result does not expire, SET and PUBLISH of a worker do not
-- fail and the results are those that encode to JSON (worker.go ignores the errors of these). EXPIRE
-- keeps the milliseconds that go-redis cuts off, which are none for the windows of a minute in use.
pub mod Base
pub mod Http
pub mod Extension
pub mod RateLimit
pub mod Middleware
pub mod Grpc
pub mod Queue
pub mod Sse
pub mod Handlers
pub mod Server
pub mod Circuit
pub mod Config
pub mod Main
pub mod ServiceToken
pub mod Examples
