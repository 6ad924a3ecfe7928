-- ===== src/Lib.antt =====
-- YoMo moves data frames between sources, zippers and stream functions. A client (a source, a stream
-- function, or another zipper) connects to a zipper over QUIC and sends a handshake frame. The
-- zipper's server negotiates the version, authenticates the client, stores its connection in the
-- connector and, for a stream function, its tags in the router. From then on each data frame that
-- arrives is routed to the connections that observe its tag or that are its target, and dispatched
-- to the downstream zippers. The AI service asks a model with the functions that are registered, sends
-- the calls that the model wants through a source to these functions, gathers their answers in a
-- reducer, and asks the model again with them. This library models these parts in Go's order of steps, as functions
-- that can be run.
--
-- Which file models which part:
-- - Common: names, tests and list lemmas that all modules share. GoMap: `map[K]V` and `sync.Map`.
-- - Errors: the error types of core/version.go and core/frame/frame.go.
-- - Frame: core/frame/frame.go, the frames, `NewFrame` and `IsReservedTag`.
-- - Codec: pkg/frame-codec/y3codec, `Encode` (Codec), `Decode` and `ReadPacket` (Codec.Decode).
-- - Quic: pkg/listener/quic/quic.go, `ReadFrame`, `WriteFrame` and `handleError`.
-- - Metadata: core/metadata/metadata.go and core/metadata.go.
-- - Router: core/router/router.go, the default router. Router.Rules has the abstract rules that it
--   promises, Router.Refine and Router.Routing the refinement.
-- - Connection: core/connection.go and core/client_type.go. Connector: core/connector.go.
-- - Version: core/version.go. Auth: core/auth/auth.go and pkg/auth/token.go.
-- - Trace: pkg/trace/trace.go, what a span writes into the metadata. Context: core/context.go.
-- - Server: core/server.go. Server.Routers is the interface to a router with its laws, Server.State the
--   server's fields, Server.Handshake `handshake` and what it calls, Server.Frames `handleFrame`,
--   `routingDataFrame` and `dispatchToDownstreams`, Server.Loop `handleConn` and `handleFrameConn`,
--   Server.Threads the interleavings of the connections' goroutines and `Close`.
-- - Client: core/client.go and core/client_options.go. Client.Connect has `connect` and
--   `handleConnectResult`, Client.Serve `serveConn` and `handleFrame`, Client.Background `Connect`,
--   `runBackground` and `handleConn`.
-- - Source: source.go.
-- - Serverless: core/serverless/context.go, the writes of a handler, and `onDataFrame` of sfn.go.
--   Serverless.Handed says what a write hands over.
-- - Sfn: sfn.go, the setters, `Connect`, `Close` and `Wait`. Sfn.Cron: core/serverless/cron_context.go
--   and the function of the cron. Sfn.Pipe: the loop that sends the outputs of a pipe function.
-- - Wasm: cli/serverless/wasm/wazero.go, the host functions. Wasm.Guest: serverless/guest/context.go and
--   serverless/guest/memory.go, the guest's side of them. Wasm.Served:
--   cli/serverless/wasm/serverless.go, `Run`.
-- - Deno: cli/serverless/deno/runtime.go, `accept` and the handler of `startSfn`; Deno.Start: `startSfn`.
-- - Drivers: cli/serverless/serverless.go. Tls: pkg/tls/tls.go. Lower: `strings.ToLower` in a test.
-- - Rx: rx/stream_operator.go, rx/factory.go and rx/runtime.go. Rx.Sliding: `SlidingWindowWithCount`.
--   Rx.Timed: `SlidingWindowWithTime`, with the turns of its two goroutines and the lock that they share.
-- - Register: pkg/bridge/ai/register/register.go.
-- - Ai: ai/model.go and ai/function_call.go. Ai.Convert: ai/openai.go. Of pkg/bridge/ai/service.go,
--   Ai.Prompt has the messages and tools of a request, Ai.Stream the tool calls of a stream, Ai.Fan
--   `runFunctionCalls` and the handler of the reducer, Ai.Complete `GetChatCompletions`, `GetInvoke`
--   and `GetOverview`, Ai.Services `LoadOrCreateService`, `newService` and `Release`.
-- - Ai.Llm: core/serverless/context_llm.go, and `Bytes` and `FromBytes` of ai/function_call.go.
-- - Ai.Providers: pkg/bridge/ai/provider.go. Ai.Middleware: pkg/bridge/ai/ai.go, `ConnMiddleware`.
--   Ai.Api: pkg/bridge/ai/api_server.go, the handlers. Ai.Config: `ParseConfig`, `parseZipperAddr`
--   and `getLocalIP` of these files.
-- - Try: what a function that may panic returns.
-- - Zipper: zipper.go and pkg/config/config.go, the configuration and the mesh.
-- - Examples: the theorems at concrete inputs.
--
-- How the code is represented:
-- - A method that changes state is a function from the state to the state; what it does outside is a
--   list of effects, in order. Fallible code returns an option, a result, or a verdict that can also
--   be a panic. The errors of a call that the code ignores are ignored here.
-- - Numbers are natural; the connection number and the reconnection counter wrap at 2^64, the frame
--   counter of the server at 2^64 as the bits of an int64, and the tags of a handshake are written
--   and read as 32 bits.
-- - The iteration order of a map is the order of its list; statements are about every list.
-- - Loops over the network are recursion over what the network gives: the frames that are read, the
--   attempts to connect, or the turns of a `select`, of which each is a case that it takes. A run
--   for more of them is a longer list, so that no fuel is needed. The decimal digits of the
--   reconnection counter are made with 20 steps, which is enough below 2^64. The loop that reads the
--   replies of a script has one step more than there are bytes, and each reply takes eight or more.
-- - A mutex or a `sync.Map` makes each of its methods one step. Server.Threads interleaves these
--   steps for any number of connections, as a step relation with reachability; there the connection
--   number is taken not to wrap.
-- - Ai.Fan interleaves the goroutine of a request with the handlers of the reducer in the same way; the
--   environment chooses which answers a call gets and when they arrive, and what the register says
--   when a call is counted. What a request gets there is an argument of Ai.Complete.
-- - A channel of the client that Close waits for is a flag that tells whether it has been closed.
--
-- What is a parameter: the y3 library (Codec.Y3, with its promises in Codec.Roundtrip.IsY3), msgpack
-- (Metadata.Msgpack), the tracer's `Start`, the JSON of a function definition, the identifiers of
-- `id.New`, the authentications (Auth.Authentication), the version negotiation, a router other than
-- the default one (Server.Routers.RouterImpl), the provider of a model and its streams
-- (Ai.Complete.Provider), the JSON of function calls (Ai.Llm.Json), the LRU cache of the services
-- (Ai.Services.Lru), the memory of wazero (Wasm.Wazero), the environment, files and crypto of the
-- TLS configuration (Tls.Platform), and yaml and the net package (Ai.Config.Yaml and Ai.Config.Net).
-- The records of go-openai have the fields that the code reads; the index of a piece of a tool call
-- is a natural number or missing.
--
-- What is not modelled: logging, TLS and QUIC themselves, signals, the times at which a cron runs,
-- the reading of configuration files, the deadlines of the AI service, the providers of models
-- (pkg/bridge/ai/provider), the command line, builds and child processes (cli), the hosts of
-- wasmtime and wasmedge, which are behind build tags, the HTTP of guests and contexts, and the
-- operators of rx that only call rxgo.
pub mod Common
pub mod GoMap
pub mod Errors
pub mod Try
pub mod Frame
pub mod Codec
pub mod Quic
pub mod Metadata
pub mod Router
pub mod Connection
pub mod Connector
pub mod Version
pub mod Auth
pub mod Trace
pub mod Context
pub mod Server
pub mod Client
pub mod Register
pub mod Zipper
pub mod Ai
pub mod Source
pub mod Serverless
pub mod Sfn
pub mod Wasm
pub mod Lower
pub mod Tls
pub mod Drivers
pub mod Deno
pub mod Rx
pub mod Examples
