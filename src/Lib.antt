-- ===== src/Lib.antt =====
-- webpipe: a model of the pipeline executor and its laws.
--
-- A webpipe program is a set of routes whose pipelines are lists of steps. A step calls a middleware
-- or another pipeline, or it branches, loops or chooses the response. The executor threads one JSON
-- state through the steps of a pipeline, beside the context of the request.
--
-- The files and the code they model (paths from the root of the repository):
--   Base        lists, maps, text and the monad of stateful computations that may fail
--   Json        serde_json values; Json.Path is src/runtime/json_path.rs
--   Ast         src/ast/types.rs: steps, tags, locations; Ast.Program is the rest of a parsed file,
--               Ast.Fmt src/ast/fmt.rs, Ast.Parser what src/ast/parser.rs reads without nom
--   Executor.Error     src/error.rs
--   Executor.Modules   src/executor/modules.rs
--   Executor.Context   src/executor/context.rs, src/executor/types.rs, the records of
--                      src/runtime/pipeline_context.rs
--   Executor.Env       src/executor/env.rs: what all requests share, and the services called
--   Executor.Tags      src/executor/tags.rs: when a step runs
--   Executor.Resolver  src/executor/resolver.rs: references, error envelopes, result branches
--   Executor.State     merge, transform and render of src/runtime/pipeline_context.rs and
--                      `update_pipeline_state` of src/executor/step.rs
--   Executor.Tasks     src/executor/tasks.rs
--   Executor.Step      src/executor/step.rs; Step.Regular is `RegularStepExecutor` and the calls and
--                      tasks under it, Step.Control the control-flow steps
--   Executor.Run       src/executor/mod.rs: `execute_step`, the loop over the steps, cache saves;
--                      Run.Replay is a cache hit on its way through both files
--   Executor.Shown     the contexts of a script and `to_value` of src/executor/context.rs
--   Runtime.Cache      `CacheStore` of src/runtime/context.rs
--   Runtime.RateLimit  `RateLimitStore` of src/runtime/context.rs
--   Middleware.RateLimit  src/middleware/rate_limit.rs, over Runtime.RateLimit
--   Middleware.Cache   src/middleware/cache.rs, over Runtime.Cache
--   Middleware.Validate  src/middleware/validate.rs
--   Middleware.Assert  `validate_value` and the error of src/middleware/assert.rs
--   Config             src/config/mod.rs; the environment variables are an argument
--   CliArgs            src/cli_args.rs, `parse`
--   Http               src/http/request.rs; Http.Request assembles the request object
--   Server.Flags       `pipeline_needs_flags` of src/server.rs
--   Server.Modules     src/server.rs: the ids of modules and the program merged from them
--   Server.Runtime     src/server.rs: `build_runtime`, on the tree that the loader answers
--   Server.Respond     src/server.rs: `respond_with_pipeline`, from a matched route to the response
--   Server.Static      src/server.rs: the files of the public folder
--   TestRunner.Mocks   `MockResolver` of src/test_runner.rs
--   Loader             src/loader.rs, over the files and the parser, which are arguments (`Files`)
--   Runtime.Lru        the interface of the `lru` crate that both stores are built on
--
-- The stores take the cache of the `lru` crate as an argument: its operations (`LruCache`) and what
-- the crate documents of them (`LruLaws`). Runtime.Lru.Bounded is a concrete one, a list of entries
-- with a capacity. The clock is an argument too. A time is a number of nanoseconds; sums of `u64` wrap
-- around. The loop that evicts entries takes as many turns as the cache has entries, since each turn
-- takes one out. The executor does not name a store: it is a part of its world `W`.
--
-- State. `Sys` is what all pipelines of one request share: the request context and a world `W`, which
-- stands for the shared stores and for what the middleware reach. `StepState` is `StepContext`: `Sys`,
-- the pipeline's own context, and the output of the step. A computation is an `Effect`: a function
-- from a state to a state and a result, an error included, or `none` where the fuel is used up.
--
-- Fuel. Named pipelines may call themselves, so `execute_pipeline` takes the depth of pipelines
-- within pipelines that it may reach. `Ranked` (Executor.Run.Ends) bounds that depth for a program; a
-- pipeline that calls itself for ever has no rank, and in the code its run does not end. The search for
-- feature flags (Server.Flags) takes that depth too; `Bounded` says that it is enough.
--
-- Services. Middleware, jq, the cache store, the clock and the JSON parser of task names are
-- arguments (`Services`): they may do to the state what their types allow.
--
-- Choices. A task that `@async` spawns runs when it is joined, which is one of its interleavings with
-- the request; a task that is never joined is not run. Panics are not modelled, and no debugger is
-- attached. JSON numbers are held as printed text. A map is an association list; no modelled code
-- but the search for scoped mocks (TestRunner.Mocks) depends on the order of its keys. Deferred actions
-- are functions on the world.
--
-- Not modelled: the parser as far as it is built of nom's combinators, routing and the HTTP server,
-- the middleware themselves except where a part is named above, the debug adapter, the test
-- runner but for its mocks, migrations and the command line.
pub mod Ast
pub mod Base
pub mod CliArgs
pub mod Config
pub mod Executor
pub mod Http
pub mod Json
pub mod Loader
pub mod Middleware
pub mod Runtime
pub mod Server
pub mod TestRunner
