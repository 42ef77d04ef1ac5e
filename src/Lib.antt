-- ===== src/Lib.antt =====
-- Verification of the service-forge gateway runtime.
--
-- The repository is a Go framework for services behind an HTTP gateway. A request that reaches the
-- gateway is matched to a route, passes its plugins, and is proxied to a gRPC service: the route's
-- circuit breaker admits or rejects it, the retry policy makes attempts, and each attempt picks a pooled
-- connection with the route's balancer (or dials one), forwards claims of the caller as metadata and
-- runs the invoker of the RPC. Errors travel as AppError values, which map to HTTP statuses and to gRPC
-- status codes.
--
-- Which file models which part:
--   Breaker    transport/gateway/circuitbreaker.go: the record CircuitBreaker and one function for each
--              method. Instants and durations are numbers of nanoseconds; the zero time is 0. The clock
--              is an argument. Breaker.System has the runs of concurrent callers: calls that arrive
--              take a token, and outcomes are recorded in any order.
--   Errors     core/errors/errors.go: AppError, the two code maps (CodeMaps, a state), ToGRPCError and
--              FromGRPCError, and the response envelopes. Errors.Status describes the status package of
--              gRPC, a parameter.
--   Retry      transport/gateway/retry.go, and isBreakerFailure of circuitbreaker.go
--   Balancer   transport/gateway/balancer.go: the three strategies are constructors of Balancer, and a
--              release callback is a value of Release.
--   Claims     transport/gateway/claimforward.go
--   Dialer     transport/grpcclient/client.go; the network is a parameter with a state of its own.
--   Proxy      transport/gateway/proxy.go: pickConn, dial, invokeOnce, invokeWithRetry and Invoke as
--              functions from a session (what the calls of a route change) to a reply and a session.
--              Proxy.Handled is the handler that transport/gateway/gateway.go mounts for a route.
--   App        core/app/app.go, core/module/module.go and core/health/health.go: the lifecycle of the
--              modules, with a log of events for its theorems, the health report, and New
--              with its options (App.Construct)
--   Cache      adapters/memory/cache.go: entries, locks and the rate limiter; a panic is `none`.
--   Bus        adapters/memory/eventbus.go and adapters/memory/registry.go
--   Settings   transport/gateway/plugin/settings.go
--   Plugins    transport/gateway/plugin/plugin.go and transport/gateway/plugin_chain.go
--   Skips      transport/gateway/pluginskip.go
--   Routes     transport/gateway/proxy.go: newProxyRoute, the RPC names and the registered invokers;
--              transport/gateway/gateway.go: the response of Handle
--   Gateway    transport/gateway/gateway.go: the mounting of the configured routes (Gateway.Mounting)
--              and their pools, opened and closed, and Init (Gateway.Startup)
--   Catalog    core/module/catalog.go
--   Todo       templates/generator.go: the generated example service, its store (Todo), its service
--              (Todo.Service) and its handler (Todo.Handler). Todo.Abstract says what the store promises.
--   Items      templates/generator.go: the service that GenerateService scaffolds, beside that of todos
--   Streams    transport/gateway/proxy_stream.go: the codecs, the opening and the release of a stream, and
--              the two pumps of a WebSocket (Streams.Bidi), a state machine whose events interleave
--   Config     core/config/config.go: the files in their order, normalised and merged, and the loading
--   Builtins   transport/gateway/plugins: the settings that the built-in plugins accept and what their
--              handlers decide
--   Generator  templates/generator.go: GenerateService, with the names that it derives
--   GrpcServer transport/grpcserver/server.go: the module's lifecycle and its registration
--   Payload    transport/gateway/proxy.go: bindProtoRequest, with the payload that it makes of a request,
--              and the response
--   Unary      transport/gateway/proxy.go: the invokers of unary calls and their pools of messages
--   Adapters   adapters: the modules of the external systems, with their client libraries as parameters,
--              what their modules share (Adapters.Holder), and the catalog (Adapters.Defaults)
--   Prelude    what the parts share: tests on numbers, lists, maps, texts (the functions of Go's strings
--              package), integers, float64 (a parameter), and values of type `any`.
--
-- Bounds and fuel. The generation of a breaker wraps at 2 ^ 64, as does the counter of the round-robin
-- balancer; theorems that need a fresh generation say so. The counters of a breaker are a Go int, which
-- a window cannot fill, and are not wrapped. Loops are recursion on their list or on the number of the
-- attempts left, which is the loop's own bound, so no fuel is used there; the only fuel is that of the
-- decimal digits of a number n, where n + 1 is given and n is enough. A subscriber of the
-- RabbitMQ bus, whose loop need not end, is run for a number of deliveries.
--
-- A call of a method under its mutex is one step; the two pumps of a stream are a state machine whose
-- events interleave in any order. A Go map is an association list, whose order stands
-- for the order of ranging, which Go leaves open.
--
-- Not modelled: fiber, gRPC, protobuf, YAML, gorm and the other libraries (what is used of them is a
-- parameter); the metrics plugin, which records into Prometheus; of the code generator the writing of a
-- project; the command line; the listening, the deadline and the body and query parsers of the gateway;
-- the example programs; the logging. A request to the generated service is one step, so another request
-- between two locks of one is left out.
pub mod Adapters
pub mod App
pub mod Balancer
pub mod Breaker
pub mod Builtins
pub mod Bus
pub mod Cache
pub mod Catalog
pub mod Claims
pub mod Config
pub mod Dialer
pub mod Errors
pub mod Gateway
pub mod Generator
pub mod GrpcServer
pub mod Items
pub mod Payload
pub mod Plugins
pub mod Prelude
pub mod Proxy
pub mod Retry
pub mod Routes
pub mod Settings
pub mod Skips
pub mod Streams
pub mod Todo
pub mod Unary
