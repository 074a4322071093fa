-- ===== src/Executor/Tests/Rules.antt =====
-- The laws of tags, references, branches and state at concrete values.
use webpipe.Base.{ℕ, true, false, none, some, [], ◌∷◌, ◌≡◌, refl, lookup}
use webpipe.Base.Text.{trim, split_once, is_whitespace, contains}
use webpipe.Base.Effect.{err}
use webpipe.Json.{null, string, number, object, field, end, get, get_field}
use webpipe.Ast.{Tag, result_branches}
use webpipe.Executor.Error.{bad_request}
use webpipe.Executor.Context.{RequestContext, new_context, new_pipeline_context, merge, transform}
use webpipe.Executor.Env.{ExecutionEnv}
use webpipe.Executor.Example.{env, envelope, branches}
use webpipe.Executor.Tags.{check_when_tag}
use webpipe.Executor.Tags.Laws.{when_mixed}
use webpipe.Executor.Resolver.{
  extract_error_type, select_branch, parse_scoped_ref, is_valid_identifier_part,
}
use webpipe.Executor.Resolver.Errors.{Selection, select_branch-Selection}
use webpipe.Executor.Resolver.Scoped.{reference, parse_scoped_ref-reference}
use webpipe.Executor.State.{update_pipeline_state}
use webpipe.Executor.State.Laws.{get-merge, get-transform}

abbrev request : RequestContext ℕ
request = record (new_context ℕ) {
  conditions = ("beta", true) ∷ ("old", false) ∷ [];
  feature_flags = ("dark", true) ∷ [];
}

abbrev not_when : Tag
not_when = record { name = "when"; negated = true; args = "old" ∷ "unknown" ∷ [] }

abbrev flag : Tag
flag = record { name = "flag"; negated = false; args = "dark" ∷ [] }

when_mixed_example :
    (check_when_tag (record { name = "when"; negated = false; args = "beta" ∷ "old" ∷ [] }) request
      ≡ false)
    × (check_when_tag (record { name = "when"; negated = true; args = "beta" ∷ "old" ∷ [] }) request
        ≡ false)
unfolding lookup
when_mixed_example =
    when_mixed "when" ("beta" ∷ "old" ∷ []) request 0 1 "beta" "old" refl refl refl refl

abbrev failing : ExecutionEnv ℕ
failing = record env {
  services = record env.services { evaluate = λ filter v. err (bad_request filter) };
}

select_branch-Selection_example :
    Selection
      (result_branches branches)
      (some "gone")
      (select_branch (result_branches branches) (some "gone"))
select_branch-Selection_example = select_branch-Selection (result_branches branches) (some "gone")

is_gone : extract_error_type envelope ≡ some "gone"
unfolding extract_error_type
is_gone = refl

auth : is_valid_identifier_part "auth" ≡ true
unfolding is_valid_identifier_part
auth = refl

login : is_valid_identifier_part "log-in" ≡ true
unfolding is_valid_identifier_part
login = refl

parse_scoped_ref-reference_example :
    parse_scoped_ref (reference "auth" "log-in") ≡ (some "auth", "log-in")
parse_scoped_ref-reference_example = parse_scoped_ref-reference "auth" "log-in" auth login

template : parse_scoped_ref "a::b::c" ≡ (none, "a::b::c")
unfolding parse_scoped_ref split_once is_whitespace contains trim
template = refl

get-merge_example :
    get "a"
      (update_pipeline_state
        (new_pipeline_context (object (field "a" null (field "b" null end))))
        (object (field "a" (number "1") end))
        merge
        false).state
    ≡ some (number "1")
unfolding get_field
get-merge_example =
    get-merge "a" (new_pipeline_context (object (field "a" null (field "b" null end))))
      (field "a" null (field "b" null end)) (field "a" (number "1") end) false (refl, tt) refl

get-transform_example :
    get "query"
      (update_pipeline_state
        (new_pipeline_context (object (field "query" (string "p") end)))
        (object (field "a" null end))
        transform
        false).state
    ≡ some (string "p")
unfolding get_field get
get-transform_example =
    get-transform "query" (new_pipeline_context (object (field "query" (string "p") end)))
      (field "a" null end)
