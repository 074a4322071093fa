-- ===== src/Executor/Shown/Tests.antt =====
-- A script that reads its input twice, and what it sees of its request.
use webpipe.Base.{ℕ, true, none, some, List, [], ◌∷◌, ◌≡◌, refl}
use webpipe.Base.Text.{format, decimal}
use webpipe.Base.Effect.{ok, err}
use webpipe.Json.{
  number, string, array, object, end, field, cons, nil, items, get, get_field, insert_field,
}
use webpipe.Executor.Context.{RequestContext, RateLimitStatus, ScriptArgs}
use webpipe.Executor.Shown.{
  for_script, for_script_with_stdin, stdin_bytes, rate_limit_value, request_entries, flag_fields,
  value_fields,
}

abbrev script_context : RequestContext ℕ
script_context = for_script ℕ (string "run")

abbrev bytes : List ℕ
bytes = 1 ∷ 2 ∷ []

reads_once :
    stdin_bytes (err "closed") (stdin_bytes (ok bytes) script_context).0
    ≡ (for_script_with_stdin ℕ (string "run") bytes, ok bytes)
unfolding stdin_bytes
reads_once = refl

abbrev status : RateLimitStatus
status = record {
  allowed = true;
  current_count = 9;
  limit = 5;
  retry_after_secs = 0;
  key = "k";
  scope = none;
}

-- The count of a request past the limit leaves nothing.
nothing_remains : get "remaining" (rate_limit_value (some status)) ≡ some (number "0")
unfolding rate_limit_value decimal format get get_field
nothing_remains = refl

abbrev arguments : ScriptArgs
arguments = record { args = "a" ∷ []; options = [] }

environment_shown :
    request_entries arguments script_context (some "dev")
    ≡ field "flags" (object end) (
        field "conditions" (object end) (
          field "request" (string "run") (
            field "env"
              (string "dev")
              (field "args" (array (cons (string "a") nil)) (field "options" (object end) end)))))
unfolding request_entries flag_fields value_fields insert_field items
environment_shown = refl
