-- ===== src/Executor/Context.antt =====
-- executor/context.rs, executor/types.rs and the state of runtime/pipeline_context.rs: what one
-- request carries. `W` is the state of the world outside: the shared stores and what middleware do.
use webpipe.Base.{ℕ, String, Bool, Option, none, List, [], ◌∷◌, ◌++◌, is_empty, if◌then◌else◌}
use webpipe.Base.Text.{format}
use webpipe.Json.{Value, null}
use webpipe.Ast.{SourceLocation}

pub data InvocationKind : Type 0 where
  http script : InvocationKind

pub data StepMode : Type 0 where
  step_over step_in step_out : StepMode

pub record CachePolicy : Type 0 where
  pub enabled : Bool
  pub ttl : ℕ
  pub key_template : Option String

pub record LogConfig : Type 0 where
  pub level : String
  pub include_body : Bool
  pub include_headers : Bool

pub record RateLimitStatus : Type 0 where
  pub allowed : Bool
  pub current_count : ℕ
  pub limit : ℕ
  pub retry_after_secs : ℕ
  pub key : String
  pub scope : Option String

pub record RequestMetadata : Type 0 where
  pub start_time : Option ℕ
  pub cache_policy : Option CachePolicy
  pub log_config : Option LogConfig
  pub rate_limit_status : Option RateLimitStatus

pub record Profiler : Type 0 where
  pub stack : List String
  pub samples : List (String × ℕ)

abbrev pub no_samples : Profiler
no_samples = record { stack = []; samples = [] }

unfoldable pub push : Profiler → String → Profiler
push p name = record p { stack = p.stack ++ name ∷ [] }

-- `Vec::pop`
unfoldable pub without_last : List String → List String
without_last [] = []
without_last (x ∷ []) = []
without_last (x ∷ y ∷ r) = x ∷ without_last (y ∷ r)

unfoldable pub pop : Profiler → Profiler
unfolding without_last
pop p = record p { stack = without_last p.stack }

-- `join(sep)`
unfoldable pub join : String → List String → String
unfolding format
join sep [] = ""
join sep (x ∷ []) = x
join sep (x ∷ y ∷ r) = format (x ∷ sep ∷ join sep (y ∷ r) ∷ [])

unfoldable pub record_sample : Profiler → ℕ → Profiler
unfolding join
record_sample p micros =
    if is_empty p.stack
    then p
    else record p { samples = p.samples ++ (join ";" p.stack, micros) ∷ [] }

-- A spawned task: what `spawn_async_step` moves into it. It is run when it is joined.
pub record Task : Type 0 where
  pub name : String
  pub args : List String
  pub config : String
  pub location : SourceLocation
  pub input : Value

pub record ScriptArgs : Type 0 where
  pub args : List String
  pub options : List (String × Value)

pub record RequestContext (W : Type 0) : Type 0 where
  pub invocation : InvocationKind
  pub feature_flags : List (String × Bool)
  pub conditions : List (String × Bool)
  pub async_registry : List (String × Task)
  pub deferred : List (Value → String → W → W)
  pub metadata : RequestMetadata
  pub call_log : List (String × List Value)
  pub profiler : Profiler
  pub request : Value
  pub stdin_bytes : Option (List ℕ)
  pub debug_thread_id : Option ℕ
  pub debug_step_mode : Option StepMode
  pub script_args_override : Option ScriptArgs

-- `RequestContext::new`
abbrev pub new_context : (W : Type 0) → RequestContext W
new_context W = record {
  invocation = http;
  feature_flags = [];
  conditions = [];
  async_registry = [];
  deferred = [];
  metadata = record {
    start_time = none;
    cache_policy = none;
    log_config = none;
    rate_limit_status = none;
  };
  call_log = [];
  profiler = no_samples;
  request = null;
  stdin_bytes = none;
  debug_thread_id = none;
  debug_step_mode = none;
  script_args_override = none;
}

-- `run_deferred`: every action in the order of its registration.
unfoldable pub run_deferred : {W : Type 0} → List (Value → String → W → W) → Value → String → W → W
run_deferred [] result content_type w = w
run_deferred (action ∷ rest) result content_type w =
    run_deferred rest result content_type (action result content_type w)

pub record CachedResponse : Type 0 where
  pub body : Value
  pub content_type : String
  pub status_code : Option ℕ

pub record PendingCacheSave : Type 0 where
  pub key : String
  pub ttl : ℕ
  pub refreshing : Bool

pub record PipelineContext : Type 0 where
  pub state : Value
  pub pending_cache_saves : List PendingCacheSave
  pub cache_hit : Option CachedResponse
  pub current_step_id : Option String

abbrev pub new_pipeline_context : Value → PipelineContext
new_pipeline_context state = record {
  state = state;
  pending_cache_saves = [];
  cache_hit = none;
  current_step_id = none;
}

pub record PipelineOutput : Type 0 where
  pub state : Value
  pub content_type : String
  pub status_code : Option ℕ

pub data StepOutcome : Type 0 where
  continue : StepOutcome
  return : PipelineOutput → StepOutcome

pub data ExecutionMode : Type 0 where
  standard : ExecutionMode
  async : String → ExecutionMode
  join_mode : ExecutionMode
  recursive : ExecutionMode

pub record StepResult : Type 0 where
  pub value : Value
  pub content_type : String
  pub status_code : Option ℕ

pub data StateBehavior : Type 0 where
  merge transform render read_only : StateBehavior
