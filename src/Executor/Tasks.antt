-- ===== src/Executor/Tasks.antt =====
-- executor/tasks.rs: the registry of asynchronous tasks and the names of a `join` step.
use webpipe.Base.{
  String, Option, none, some, List, [], ◌∷◌, ◌==◌, if◌then◌else◌, lookup, insert, remove, is_empty,
}
use webpipe.Base.Effect.{Result, ok, err}
use webpipe.Base.Text.{trim, split, starts_with}
use webpipe.Executor.Error.{WebPipeError, config_error}
use webpipe.Executor.Context.{Task, RequestContext}

module _ {W : Type 0} where
  -- A second task of the same name replaces the first, which then cannot be joined.
  unfoldable pub register : RequestContext W → String → Task → RequestContext W
  unfolding insert
  register ctx name task = record ctx { async_registry = insert name task ctx.async_registry }

  unfoldable pub take : RequestContext W → String → RequestContext W × Option Task
  unfolding lookup remove
  take ctx name = (
    record ctx { async_registry = remove name ctx.async_registry },
    lookup name ctx.async_registry,
  )

unfoldable pub non_empty_trimmed : List String → List String
unfolding trim
non_empty_trimmed [] = []
non_empty_trimmed (s ∷ r) =
    let rest = non_empty_trimmed r in if trim s == "" then rest else trim s ∷ rest

-- `parse_names` is serde_json's reading of an array of texts.
unfoldable pub parse_join_task_names :
    (String → Option (List String)) → String → Result WebPipeError (List String)
unfolding trim split starts_with non_empty_trimmed
parse_join_task_names parse_names config =
    let trimmed = trim config in
    let names = non_empty_trimmed (split b',' trimmed) in
    if starts_with trimmed "["
    then elim (parse_names trimmed) [
      | some listed ↦ ok listed
      | none ↦ err (config_error "Invalid JSON array for join config")
    ]
    else if is_empty names
    then err (config_error "join config must specify at least one task name")
    else ok names
