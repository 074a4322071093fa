-- ===== src/Executor/Shown.antt =====
-- executor/context.rs: the contexts of a script, its standard input, and what `$context` shows of a
-- request. `global` is the process-wide bundle of arguments; a read of the standard input gives its
-- bytes or the text of the failure.
mod Tests
use webpipe.Base.{ℕ, ◌-◌, String, Bool, Option, none, some, List, [], ◌∷◌, ◌++◌, get_or, map}
use webpipe.Base.Text.{format, decimal}
use webpipe.Base.Effect.{Result, ok, err}
use webpipe.Json.{
  Value, Fields, null, bool, number, string, array, object, end, field, items, get, insert_field,
}
use webpipe.Executor.Error.{WebPipeError, middleware_execution_error}
use webpipe.Executor.Context.{
  script, CachePolicy, LogConfig, RateLimitStatus, RequestMetadata, ScriptArgs, RequestContext,
  new_context,
}
use webpipe.Executor.Env.{ExecutionEnv}

module _ (W : Type 0) where
  abbrev pub for_script : Value → RequestContext W
  for_script request = record (new_context W) { invocation = script; request = request }

  abbrev pub for_script_with_stdin : Value → List ℕ → RequestContext W
  for_script_with_stdin request stdin = record (for_script request) { stdin_bytes = some stdin }

module _ {W : Type 0} where
  abbrev pub defer : (Value → String → W → W) → RequestContext W → RequestContext W
  defer f ctx = record ctx { deferred = ctx.deferred ++ f ∷ [] }

  abbrev pub filled :
      RequestContext W → Result String (List ℕ) → RequestContext W × Result WebPipeError (List ℕ)
  filled ctx (ok bytes) = (record ctx { stdin_bytes = some bytes }, ok bytes)
  filled ctx (err e) =
      (ctx, err (middleware_execution_error (format ("failed to read stdin: " ∷ e ∷ []))))

  abbrev pub known_or :
      RequestContext W
      → Result String (List ℕ)
      → Option (List ℕ)
      → RequestContext W × Result WebPipeError (List ℕ)
  known_or ctx read (some bytes) = (ctx, ok bytes)
  known_or ctx read none = filled ctx read

  -- `stdin_bytes`: `read` is what a read would give now.
  unfoldable pub stdin_bytes :
      Result String (List ℕ) → RequestContext W → RequestContext W × Result WebPipeError (List ℕ)
  unfolding format
  stdin_bytes read ctx = known_or ctx read ctx.stdin_bytes

abbrev pub text_or_null : Option String → Value
text_or_null none = null
text_or_null (some s) = string s

unfoldable pub cache_value : Option CachePolicy → Value
unfolding decimal
cache_value none = null
cache_value (some cp) = object (
    field "enabled" (bool cp.enabled) (
      field "ttl" (number (decimal cp.ttl))
        (field "key_template" (text_or_null cp.key_template) end)))

unfoldable pub log_value : Option LogConfig → Value
log_value none = null
log_value (some lc) = object (
    field "level" (string lc.level) (
      field "include_body" (bool lc.include_body)
        (field "include_headers" (bool lc.include_headers) end)))

unfoldable pub rate_limit_value : Option RateLimitStatus → Value
unfolding decimal
rate_limit_value none = null
rate_limit_value (some rl) = object (
    field "allowed" (bool rl.allowed) (
      field "remaining" (number (decimal (rl.limit - rl.current_count))) (
        field "limit" (number (decimal rl.limit)) (
          field "retry_after" (number (decimal rl.retry_after_secs))
            (field "key" (string rl.key) (field "scope" (text_or_null rl.scope) end))))))

-- `RequestMetadata::to_value`
unfoldable pub metadata_value : RequestMetadata → Value
unfolding cache_value log_value rate_limit_value
metadata_value m = object (
    field "cache" (cache_value m.cache_policy) (
      field "log" (log_value m.log_config)
        (field "rate_limit" (rate_limit_value m.rate_limit_status) end)))

-- `collect` of the pairs of a hash map
unfoldable pub flag_fields : List (String × Bool) → Fields
flag_fields [] = end
flag_fields ((k, b) ∷ more) = field k (bool b) (flag_fields more)

unfoldable pub value_fields : List (String × Value) → Fields
value_fields [] = end
value_fields ((k, v) ∷ more) = field k v (value_fields more)

-- A key that is put in unless its value is null.
abbrev pub insert_present : String → Option Value → Fields → Fields
insert_present k none context = context
insert_present k (some null) context = context
insert_present k (some v) context = insert_field k v context

abbrev pub insert_text : String → Option String → Fields → Fields
insert_text k none context = context
insert_text k (some s) context = insert_field k (string s) context

module _ {W : Type 0} (global : ScriptArgs) where
  -- The entries up to the arguments of a script.
  unfoldable pub request_entries : RequestContext W → Option String → Fields
  unfolding flag_fields value_fields insert_field items
  request_entries ctx environment =
      let args = get_or ctx.script_args_override global in
      let flags = field "flags" (object (flag_fields ctx.feature_flags)) end in
      let conditions = insert_field "conditions" (object (flag_fields ctx.conditions)) flags in
      let request = insert_present "request" (some ctx.request) conditions in
      let env = insert_text "env" environment request in
      insert_field "options" (object (value_fields args.options))
        (insert_field "args" (array (items (map string args.args))) env)

  -- `to_value`
  unfoldable pub to_value : RequestContext W → ExecutionEnv W → Value
  unfolding request_entries metadata_value get insert_field
  to_value ctx env =
      let metadata = metadata_value ctx.metadata in
      let entries = request_entries ctx env.environment in
      object (
        insert_present "rate_limit" (get "rate_limit" metadata) (
          insert_present "log" (get "log" metadata)
            (insert_present "cache" (get "cache" metadata) entries)))
