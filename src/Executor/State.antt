-- ===== src/Executor/State.antt =====
-- runtime/pipeline_context.rs and `update_pipeline_state` of executor/step.rs: how the result of a
-- step becomes the state of the pipeline.
pub mod Laws
use webpipe.Base.{String, Bool, Option, none, some, List, [], ◌∷◌, if◌then◌else◌}
use webpipe.Json.{Value, object, Fields, get, has_field, insert_field, extend}
use webpipe.Executor.Context.{PipelineContext, StateBehavior, merge, transform, render, read_only}

abbrev pub runtime_keys : List String
runtime_keys =
    "async" ∷ "data" ∷ "originalRequest" ∷ "query" ∷ "params" ∷ "body" ∷ "headers" ∷ "cookies"
    ∷ "method" ∷ "path" ∷ "ip" ∷ "content_type" ∷ []

-- The fields of the second value over those of the first, if both are objects; else the second.
unfoldable pub merged : Value → Value → Value
unfolding extend
merged (object current) (object incoming) = object (extend current incoming)
merged current incoming = incoming

unfoldable pub merge_state : PipelineContext → Value → PipelineContext
unfolding merged
merge_state ctx incoming = record ctx { state = merged ctx.state incoming }

unfoldable pub replace_state : PipelineContext → Value → PipelineContext
replace_state ctx new_state = record ctx { state = new_state }

abbrev keep_found : String → Option Value → List (String × Value) → List (String × Value)
keep_found k none rest = rest
keep_found k (some v) rest = (k, v) ∷ rest

unfoldable pub backup_keys : List String → Value → List (String × Value)
unfolding get
backup_keys [] state = []
backup_keys (k ∷ ks) state = keep_found k (get k state) (backup_keys ks state)

unfoldable pub backup_system_keys : PipelineContext → List (String × Value)
unfolding backup_keys
backup_system_keys ctx = backup_keys runtime_keys ctx.state

unfoldable pub restore_fields : List (String × Value) → Fields → Fields
unfolding has_field insert_field
restore_fields [] fs = fs
restore_fields ((k, v) ∷ rest) fs =
    restore_fields rest (if has_field k fs then fs else insert_field k v fs)

unfoldable pub restored : List (String × Value) → Value → Value
unfolding restore_fields
restored backups (object fs) = object (restore_fields backups fs)
restored backups state = state

unfoldable pub restore_system_keys : PipelineContext → List (String × Value) → PipelineContext
unfolding restored
restore_system_keys ctx backups = record ctx { state = restored backups ctx.state }

unfoldable pub update_pipeline_state :
    PipelineContext → Value → StateBehavior → Bool → PipelineContext
unfolding merge_state replace_state backup_system_keys restore_system_keys
update_pipeline_state ctx value merge last = merge_state ctx value
update_pipeline_state ctx value transform last =
    if last
    then replace_state ctx value
    else restore_system_keys (replace_state ctx value) (backup_system_keys ctx)
update_pipeline_state ctx value render last = replace_state ctx value
update_pipeline_state ctx value read_only last = ctx
