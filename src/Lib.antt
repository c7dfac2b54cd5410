-- ===== src/Lib.antt =====
-- The Inngest SDK for Go: functions made of steps, which an executor calls again and again until
-- they end, over HTTP or through a worker that takes its calls from a gateway over a WebSocket.
--
-- A request from the executor holds an event and the results of the steps that have run. `invoke`
-- of handler.go calls the function with it under a fresh manager (internal/sdkrequest). Each tool
-- of the package step gets its op's id from the manager, answers from the stored results, or
-- reports an op to the manager and ends the call with a panic that `invoke` recovers. The package
-- connect keeps a connection to a gateway: a run loop starts connections and reacts to their
-- reports, a worker pool runs the requests, and a buffer keeps the replies that no gateway has
-- acknowledged. The handler of handler.go serves the same functions over HTTP: it checks a
-- request's signature, calls `invoke`, and answers with a status and headers; it tells the API
-- about its functions, each with a URL that leads back to it.
--
-- Errors        errors/errors.go
-- SdkRequest    internal/sdkrequest: Request, Manager (requestCtxManager), UnhashedOp
-- Step          step: Step.Core (step.go), Step.Run (run.go), Step.Tools (sleep.go,
--               wait_for_event.go, invoke.go), Step.Infer (infer.go)
-- Group         experimental/group
-- Funcs         funcs.go
-- Registry      handler.go, Register, and connect.go, getServableFunctionBySlug
-- Execution     handler.go, the function invoke; Execution.Program has functions as trees of calls
--               of the tools, Execution.Replay the executor's side
-- Signature     signature.go; Signature.Query has what it uses of net/url and strconv,
--               Signature.Hashed the hashes of keys
-- Options       HandlerOpts of handler.go, env.go, platform.go, consts.go
-- Http          headers.go, and what is used of net/http
-- Handler       handler.go: Handler.Core (the state), Handler.Invoke (POST), Handler.Trust and
--               Handler.Inspect (the probe, GET), Handler.Sync and Handler.Register (PUT,
--               with internal/types),
--               Handler.Configs (createFunctionConfigs), Handler.Serve (ServeHTTP); Handler.Fetch
--               is net.go, Handler.Worker is Connect of connect.go
-- Client        client.go, event.go; Client.Generic is GenericEvent
-- Connect       connect: Connect.Buffer (buffer.go), Connect.WorkerPool (worker_pool.go),
--               Connect.RunLoop (handler.go), Connect.Handshake (workerapi.go, handshake.go,
--               connection.go), Connect.Reading (the read loop of connection.go),
--               Connect.Heartbeats (the goroutines beside it), Connect.Gateways (connections, their
--               replacement while a gateway drains, and the run loop together), Connect.Setup (a
--               worker's start), Connect.Lifetime (its end), Connect.Invoke (invoke.go, and
--               InvokeFunction of connect.go), Connect.Delivery (the way of a response)
--
-- Stateful code is a function of the state: a tool is a function from a manager to an outcome, a
-- result or a panic, and the new manager. The goroutines of the worker pool and those of the
-- connections are step relations; the run loop, the goroutines beside the read loop and the end of
-- a worker are functions of the events that they meet. JSON is a data type; encoding and decoding
-- of a Go type is a codec that the tools take as an argument, and Json.Interface decodes into
-- interface values. SHA-1, SHA-256, HMAC, jcs.Transform, slug.Make, url.Parse, the texts of URLs
-- and durations, float64s, the API client and the order of a map's iteration are parameters; what
-- the network answers is an input.
--
-- The one fuel is the number of executions in Execution.Replay: one more than the ops on the path
-- is enough. A flush has the five attempts of the source.
--
-- Not modelled: the blanks of a streamed response, and what is only logged or passed on. The texts
-- of errors that carry other errors are kept as parts and not put together. That the text of a
-- step's error cannot always be taken is modelled for what a function returns, and not within
-- step.Run.
pub mod Prelude
pub mod Json
pub mod Errors
pub mod Results
pub mod Http
pub mod Handler
pub mod Client
pub mod SdkRequest
pub mod Step
pub mod Group
pub mod Funcs
pub mod Execution
pub mod Connect
pub mod Signature
pub mod Options
pub mod Registry
