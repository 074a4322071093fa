-- ===== src/Server/Respond/Laws.antt =====
-- server.rs: every request to a route is answered.
use webpipe.Base.{ℕ, String, Option, none, some, ◌≡◌}
use webpipe.Base.Effect.{Result, ok, err}
use webpipe.Json.{Value}
use webpipe.Executor.Error.{WebPipeError}
use webpipe.Executor.Context.{run_deferred}
use webpipe.Executor.Env.{ExecutionEnv, Sys}
use webpipe.Executor.Nested.{Answer}
use webpipe.Executor.Run.{execute_pipeline}
use webpipe.Server.Respond.{RoutePayload, Response, Library, http_status, Preflight, route_context}

-- How the run of a route's pipeline ends, and what world and response it leaves.
module _ {W : Type 0} (env : ExecutionEnv W) (fuel : ℕ) (lib : Library) where
  abbrev Run : Type 0
  Run = Option (Sys W × Result WebPipeError Answer)

  abbrev pub AnsweredWith : Run → W → Response → Type 0
  AnsweredWith run w r =
      (s : Sys W) × (result : Value) × (content_type : String) × (code : Option ℕ) × (run
        ≡ some (s, ok (result, content_type, code)))
      × (w ≡ run_deferred s.req.deferred result content_type s.world)
      × (r.status ≡ http_status lib code)

  abbrev pub FailedWith : Run → W → Response → Type 0
  FailedWith run w r =
      (s : Sys W) × (e : WebPipeError) × (run ≡ some (s, err e)) × (w ≡ s.world) × (r.status ≡ 500)

  abbrev pub main_run : String → RoutePayload → Preflight W → Run
  main_run label payload (w, flags, request) =
      execute_pipeline env fuel payload.pipeline request none
        (record { world = w; req = route_context label flags request })
