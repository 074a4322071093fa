-- ===== src/Executor/Step.antt =====
-- executor/step.rs: the state of a step, and the pure parts of a regular step.
pub mod Regular
pub mod Control
use webpipe.Base.{
  ℕ, ◌+◌, String, Bool, true, false, not, ◌&&◌, ◌||◌, Option, none, some, List, [], ◌∷◌, ◌++◌, ◌==◌,
  drop, if◌then◌else◌, or_else, and_then, is_some, lookup, insert,
}
use webpipe.Base.Text.{format, trim, split, decimal}
use webpipe.Json.{Value, null, object, Fields, field, end, get_field, insert_field, remove_field}
use webpipe.Ast
use webpipe.Ast.{PipelineStep, regular, result, if_else, dispatch, foreach, SourceLocation, TagExpr}
use webpipe.Ast.{location}
use webpipe.Executor.Context.{
  PipelineContext, PipelineOutput, StepOutcome, return, ExecutionMode, standard, async, join_mode,
  recursive, RequestContext, CachedResponse, StateBehavior, merge,
}
use webpipe.Executor.Env.{ExecutionEnv, Sys}
use webpipe.Executor.Tags.{should_execute_step, get_async_from_tag_expr}
use webpipe.Executor.Resolver.{extract_error_type}
use webpipe.Executor.State.{update_pipeline_state}

-- The mutable part of `StepContext`: the request and the world, the pipeline, and the output.
pub record StepState (W : Type 0) : Type 0 where
  pub sys : Sys W
  pub pipe : PipelineContext
  pub output : PipelineOutput

module _ {W : Type 0} where
  abbrev pub set_req : RequestContext W → StepState W → StepState W
  set_req req s = record s { sys = record s.sys { req = req } }

  abbrev pub set_pipe : PipelineContext → StepState W → StepState W
  set_pipe pipe s = record s { pipe = pipe }

  abbrev pub set_state : Value → StepState W → StepState W
  set_state v s = record s { pipe = record s.pipe { state = v } }

  -- `take_state`: the state, with null left in its place.
  unfoldable pub take_state : StepState W → StepState W × Value
  take_state s = (set_state null s, s.pipe.state)

  unfoldable pub runs_later : PipelineStep → ExecutionEnv W → RequestContext W → Value → Bool
  unfolding should_execute_step
  runs_later (regular r) env ctx state = should_execute_step r.condition env ctx state
  runs_later _ env ctx state = true

  none_runs : List PipelineStep → ExecutionEnv W → RequestContext W → Value → Bool
  unfolding runs_later
  none_runs [] env ctx state = true
  none_runs (s ∷ rest) env ctx state =
      if runs_later s env ctx state then false else none_runs rest env ctx state

  unfoldable pub is_effectively_last_step :
      ℕ → List PipelineStep → ExecutionEnv W → RequestContext W → Value → Bool
  unfolding none_runs
  is_effectively_last_step idx all env ctx state = none_runs (drop (idx + 1) all) env ctx state

unfoldable pub detect_execution_mode : String → Option TagExpr → ExecutionMode
unfolding get_async_from_tag_expr
detect_execution_mode name condition = elim (and_then condition get_async_from_tag_expr) [
  | some async_name ↦ async async_name
  | none ↦ if name == "join" then join_mode else if name == "pipeline" then recursive else standard
]

module _ {W : Type 0} where
  unfoldable pub is_pipeline_shorthand : ExecutionEnv W → Ast.Regular → Bool
  is_pipeline_shorthand env r =
      not r.config_present
      && not (r.name == "pipeline")
      && not (r.name == "loader")
      && not (is_some (env.services.get_behavior r.name))

  unfoldable pub effective_name : ExecutionEnv W → Ast.Regular → String
  unfolding is_pipeline_shorthand
  effective_name env r =
      if r.name == "pipeline" || is_pipeline_shorthand env r then "pipeline" else r.name

  unfoldable pub raw_config : ExecutionEnv W → Ast.Regular → String
  unfolding is_pipeline_shorthand
  raw_config env r =
      if r.name == "pipeline"
      then r.config
      else if is_pipeline_shorthand env r
      then r.name
      else r.config

abbrev pub data_fields : Option Value → Fields
data_fields (some (object fs)) = fs
data_fields _ = end

-- The value under `.data.<target>` of the state; a state or `data` that is no object is replaced.
unfoldable pub data_wrapped : Value → Value → String → Value
unfolding get_field insert_field
data_wrapped (object fs) value target = object (
    insert_field "data" (object (insert_field target value (data_fields (get_field "data" fs)))) fs)
data_wrapped state value target = object (field "data" (object (field target value end)) end)

abbrev pub wraps_data : String → Bool
wraps_data name = name == "pg" || name == "fetch" || name == "graphql"

abbrev pub behavior_or_merge : Option StateBehavior → StateBehavior
behavior_or_merge none = merge
behavior_or_merge (some b) = b

module _ {W : Type 0} where
  apply_plain : ExecutionEnv W → String → Value → Bool → StepState W → StepState W
  unfolding update_pipeline_state
  apply_plain env name value last s =
      set_pipe
        (update_pipeline_state s.pipe value (behavior_or_merge (env.services.get_behavior name))
          last)
        s

  unfoldable pub apply_result_to_state :
      ExecutionEnv W → String → Value → Option String → Bool → StepState W → StepState W
  unfolding apply_plain data_wrapped extract_error_type
  apply_result_to_state env name value none last s = apply_plain env name value last s
  apply_result_to_state env name value (some target) last s =
      if wraps_data name && not (is_some (extract_error_type value))
      then set_state (data_wrapped s.pipe.state value target) s
      else apply_plain env name value last s

abbrev keeps_content_type : String → Bool → Bool
keeps_content_type name last =
    name == "pipeline"
    || last
    || name == "handlebars"
    || name == "gg"
    || name == "algraf"
    || name == "ag"

unfoldable pub updated_output : String → String → Option ℕ → Bool → PipelineOutput → PipelineOutput
updated_output name content_type status last out = record out {
  content_type =
      if (not (content_type == "application/json") || last) && keeps_content_type name last
      then content_type
      else out.content_type;
  status_code = or_else status out.status_code;
}

-- Removes `resultName` again, if the step put it there.
abbrev pub without_result_name : Value → Value
without_result_name (object fs) = object (remove_field "resultName" fs)
without_result_name v = v

abbrev pushed : Value → Option (List Value) → List Value
pushed v none = v ∷ []
pushed v (some vs) = vs ++ v ∷ []

module _ {W : Type 0} where
  abbrev pub update_metadata : String → String → Option ℕ → Bool → StepState W → StepState W
  update_metadata name content_type status last s = record s {
    output = updated_output name content_type status last s.output;
  }

  abbrev replay : StepState W → Option CachedResponse → StepState W × Option StepOutcome
  replay s none = (s, none)
  replay s (some hit) = (
    record s { pipe = record s.pipe { cache_hit = none } },
    some (
        return (record {
          state = hit.body;
          content_type = hit.content_type;
          status_code = or_else hit.status_code s.output.status_code;
        })),
  )

  unfoldable pub check_cache_stop : StepState W → StepState W × Option StepOutcome
  check_cache_stop s = replay s s.pipe.cache_hit

  unfoldable pub cleanup : Bool → StepState W → StepState W
  unfolding remove_field
  cleanup should s = if should then set_state (without_result_name s.pipe.state) s else s

  -- The log of pipeline calls.
  unfoldable pub log_call : String → Value → StepState W → StepState W
  unfolding format lookup insert
  log_call pipeline_name input s =
      let key = format ("pipeline." ∷ pipeline_name ∷ []) in
      set_req
        (record s.sys.req {
          call_log = insert key (pushed input (lookup key s.sys.req.call_log)) s.sys.req.call_log;
        })
        s

last_component : List String → Option String → Option String
last_component [] found = found
last_component (c ∷ cs) found =
    last_component cs (if c == "" || c == "." then found else if c == ".." then none else some c)

-- `Path::file_name`, and the whole path where there is none.
file_name : String → String
unfolding last_component split
file_name path = elim (last_component (split b'/' path) none) [ none ↦ path | some n ↦ n ]

base_name : PipelineStep → String
unfolding format trim
base_name (regular r) =
    if r.name == "pipeline" then format ("pipeline:" ∷ trim r.config ∷ []) else r.name
base_name (result _ _) = "result"
base_name (if_else _ _ _ _) = "if"
base_name (dispatch _ _ _) = "dispatch"
base_name (foreach _ _ _) = "foreach"

abbrev at_file : String → Option String → String
at_file name none = name
at_file name (some path) = format (name ∷ "@" ∷ file_name path ∷ [])

unfoldable pub determine_step_name : PipelineStep → String
unfolding base_name file_name location format
determine_step_name s = at_file (base_name s) (location s).file_path

-- The identity of a step, which names its default cache key.
unfoldable pub step_id : SourceLocation → ℕ → String
unfolding format decimal
step_id l idx = format (
    elim l.file_path [ none ↦ "?" | some path ↦ path ]
    ∷ ":"
    ∷ decimal l.line
    ∷ ":"
    ∷ decimal l.column
    ∷ "#"
    ∷ decimal idx
    ∷ [])
