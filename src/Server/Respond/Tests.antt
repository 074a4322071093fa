-- ===== src/Server/Respond/Tests.antt =====
-- A route whose middleware answers, and one whose rate limit is exceeded.
use webpipe.Base.{ℕ, true, Option, none, some, ◌≡◌, refl}
use webpipe.Base.Text.{split_once, is_whitespace}
use webpipe.Base.Effect.{ok, err, zoom, ◌>>=◌, finally, rescue}
use webpipe.Json.{null}
use webpipe.Ast.{Pipeline}
use webpipe.Executor.Env.{ExecutionEnv}
use webpipe.Executor.Example.{env, services, greeting}
use webpipe.Executor.Step.{
  detect_execution_mode, check_cache_stop, apply_result_to_state, cleanup, determine_step_name,
  updated_output, is_effectively_last_step,
}
use webpipe.Executor.Resolver.{
  determine_target_name, resolve_config_and_autoname, parse_scoped_ref, override_error_type,
  extract_error_type,
}
use webpipe.Executor.Tags.{should_execute_step}
use webpipe.Executor.Run.{execute_pipeline, pipeline_once, execute_step}
use webpipe.Server.Respond.{
  RoutePayload, Library, Response, preflight, respond_with_pipeline, run_route, failed,
}
use webpipe.Executor.Error.{rate_limit_exceeded, status_code, with_source_location, error_label}

abbrev quiet : ExecutionEnv ℕ
quiet = record env {
  services = record services { call = λ name args config target s. some (s, ok none) };
}

abbrev library : Library
library = record {
  is_status = λ code. true;
  header_name = λ name. some name;
  header_value = λ v. some v;
  decode_base64 = λ s. none;
  to_text = λ v. "";
}

abbrev payload : RoutePayload
payload = record { pipeline = greeting; needs_flags = true }

abbrev Anything : Pipeline → Type 0
Anything p = Unit

abbrev limited : ExecutionEnv ℕ
limited = record env {
  services = record services {
    call = λ name args config target s. some (s, err (rate_limit_exceeded "slow"));
  };
}

abbrev told_status : Option (ℕ × Response) → Option ℕ
told_status none = none
told_status (some (w, r)) = some r.status

too_many_requests : status_code (rate_limit_exceeded "slow") ≡ 429
unfolding status_code
too_many_requests = refl

-- An error that asks for 429 is answered with 500.
limited_with_500 :
    told_status (respond_with_pipeline limited 1 library none none payload "GET" "/" null 3)
    ≡ some 500
unfolding respond_with_pipeline preflight run_route failed execute_pipeline pipeline_once zoom ◌>>=◌
    execute_step finally rescue should_execute_step detect_execution_mode check_cache_stop
    apply_result_to_state determine_target_name resolve_config_and_autoname parse_scoped_ref
    split_once is_whitespace cleanup override_error_type determine_step_name updated_output
    is_effectively_last_step extract_error_type with_source_location error_label
limited_with_500 = refl
