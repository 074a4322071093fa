-- ===== src/Executor/Run/Errors.antt =====
-- Error envelopes in a pipeline: which steps they skip, how a failing middleware becomes one, and
-- what a `result` step answers.
use webpipe.Base.{
  ℕ, suc, ◌+◌, String, false, Option, none, some, List, [], ◌∷◌, ◌++◌, ◌≡◌, refl, sym, ap, ◌∙◌,
  arith, All, length, if◌then◌else◌, ◌==◌, and_then, append-nil, Option-cases, inl, inr, or_else,
  eq_iff, Bool-cases,
}
use native.Mathlib.Nat.{add-zero}
use webpipe.Base.Text.{format}
use webpipe.Base.Effect.{ok, err, zoom, rescue, ◌>>=◌}
use webpipe.Json.{
  Value, get, null, bool, number, string, array, object, Fields, get_field, insert_field, has_field,
}
use webpipe.Json.Laws.{get_field-insert_field}
use webpipe.Ast
use webpipe.Ast.{Pipeline, PipelineStep, regular, steps, ResultBranch}
use webpipe.Ast.{ResultBranches, result_branches}
use webpipe.Executor.Error.{middleware_execution_error, with_source_location, error_label}
use webpipe.Executor.Context.{continue, return, PipelineOutput}
use webpipe.Executor.Env.{ExecutionEnv, Sys}
use webpipe.Executor.Tags.{get_error_from_tag_expr}
use webpipe.Executor.Resolver.{extract_error_type, make_middleware_error_value, select_branch}
use webpipe.Executor.Resolver.Errors.{
  extract-override, extract-make_middleware_error_value, final_type,
}
use webpipe.Executor.Step.{StepState, set_state, take_state}
use webpipe.Executor.Step.Regular.{execute, retyped}
use webpipe.Executor.Step.Control.{handle_result_step, run_branch, inherit_cookies}
use webpipe.Executor.Nested.{Nested}
use webpipe.Executor.Run.{
  is_result, run_steps, execute_pipeline, dispatch_step, extract_middleware_failure, initial,
}

abbrev pub NoResult : List PipelineStep → Type 0
NoResult = All (λ s. is_result s ≡ false)

module _ {W : Type 0} (env : ExecutionEnv W) where
  run_steps-skip :
      (nested : Nested W) (all : List PipelineStep) (idx : ℕ) (s : PipelineStep)
      (ss : List PipelineStep) (st : StepState W) (e : String)
      → extract_error_type st.pipe.state ≡ some e
      → is_result s ≡ false
      → run_steps env nested all idx (s ∷ ss) none st
        ≡ run_steps env nested all (idx + 1) ss none st
  unfolding run_steps ◌>>=◌
  run_steps-skip nested all idx s ss st e h plain = rw (h, plain)

  -- A state that shows an error type that is not handled passes over all steps up to a `result` step:
  -- the run goes on with the steps behind them, from the same state.
  pub run_steps-skip_all :
      (nested : Nested W) (all : List PipelineStep) (idx : ℕ) (skipped rest : List PipelineStep)
      (st : StepState W) (e : String)
      → extract_error_type st.pipe.state ≡ some e
      → NoResult skipped
      → run_steps env nested all idx (skipped ++ rest) none st
        ≡ run_steps env nested all (idx + length skipped) rest none st
  run_steps-skip_all nested all idx [] rest st e h _ = rw (add-zero idx)
  run_steps-skip_all nested all idx (s ∷ ss) rest st e h (plain, more) =
      run_steps-skip nested all idx s (ss ++ rest) st e h plain
      ∙ (run_steps-skip_all nested all (idx + 1) ss rest st e h more
          ∙ ap (λ n. run_steps env nested all n rest none st) (omega arith))

  end_of_steps :
      (nested : Nested W) (all : List PipelineStep) (idx : ℕ) (v : Value) (e : String) (s : Sys W)
      → extract_error_type v ≡ some e
      → run_steps env nested all idx [] none (initial env v s)
        ≡ some (initial env v s, ok (v, "application/json", none))
  unfolding run_steps ◌>>=◌
  end_of_steps nested all idx v e s h = rw h

  all_skipped :
      (nested : Nested W) (all ss : List PipelineStep) (v : Value) (e : String) (s : Sys W)
      → extract_error_type v ≡ some e
      → NoResult ss
      → run_steps env nested all 0 ss none (initial env v s)
        ≡ some (initial env v s, ok (v, "application/json", none))
  all_skipped nested all ss v e s h plain =
      ap (λ l. run_steps env nested all 0 l none (initial env v s)) (sym (append-nil ss))
      ∙ (run_steps-skip_all nested all 0 ss [] (initial env v s) e h plain
          ∙ end_of_steps nested all (0 + length ss) v e s h)

  -- A pipeline without a `result` step that is given an error envelope, and does not handle an error
  -- already, runs no step: it answers the envelope itself, as JSON with no status, and leaves the
  -- request and the world as they were.
  pub envelope_passes :
      (fuel : ℕ) (p : Pipeline) (v : Value) (e : String) (s : Sys W)
      → extract_error_type v ≡ some e
      → NoResult (steps p)
      → execute_pipeline env (suc fuel) p v none s ≡ some (s, ok (v, "application/json", none))
  unfolding execute_pipeline zoom
  envelope_passes fuel p v e s h plain =
      rw (all_skipped (execute_pipeline env fuel) (steps p) (steps p) v e s h plain)

  located_failure :
      (r : Ast.Regular) (message : String)
      → (location : Option String) × (extract_middleware_failure
            (with_source_location (middleware_execution_error message) r.location)
          ≡ some (message, location))
  unfolding extract_middleware_failure with_source_location
  located_failure r message = elim (Option-cases (error_label r.location)) [
    | inl unknown ↦ (none, ground arith)
    | inr (label, known) ↦ (some label, ground arith)
  ]

  -- A middleware failure of a regular step is no error of the pipeline: the step goes on with an
  -- envelope whose type is the step's name followed by `Error`, or what an `@error` tag says; the
  -- request, the world and the output are as the failing middleware left them.
  pub failure_caught :
      (nested : Nested W) (idx : ℕ) (all : List PipelineStep) (r : Ast.Regular)
      (st st' : StepState W) (message : String)
      → execute env nested idx all r st ≡ some (st', err (middleware_execution_error message))
      → (v : Value) × (dispatch_step env nested idx all (regular r) st
          ≡ some (set_state v st', ok continue))
        × (extract_error_type v
            ≡ some (
                final_type
                  (format (r.name ∷ "Error" ∷ []))
                  (and_then r.condition get_error_from_tag_expr)))
  unfolding dispatch_step ◌>>=◌ rescue
  failure_caught nested idx all r st st' message h =
      let (location, failed) = located_failure r message in
      (
        retyped env r.condition (make_middleware_error_value r.name message location),
        rw (h, failed),
        extract-override _ _ (and_then r.condition get_error_from_tag_expr)
            (extract-make_middleware_error_value r.name message location),
      )

-- The answer with the cookies of the state before, unless it has its own: the rest of it is the same.
abbrev pub WithCookies : Option Value → Value → Value → Type 0
WithCookies before (object fs) w =
    (fs' : Fields) × (w ≡ object fs')
    × ((k : String)
        → get_field k fs' ≡ or_else (get_field k fs) (if k == "setCookies" then before else none))
WithCookies before v w = w ≡ v

or_else-none : {A : Type 0} (q : Option A) → or_else q none ≡ q
or_else-none none = refl
or_else-none (some a) = refl

own_cookies :
    (cookies own : Value) (fs : Fields)
    → get_field "setCookies" fs ≡ some own
    → WithCookies (some cookies) (object fs) (object fs)
own_cookies cookies own fs has = (
  fs,
  refl,
  λ k. elim (Bool-cases (k == "setCookies")) [
    | inl is_it ↦
        let same : k ≡ "setCookies" = ground (arith, eq_iff k "setCookies") in
        rw (is_it, same, has) refl
    | inr other ↦ rw other (sym (or_else-none (get_field k fs)))
  ],
)

added_cookies :
    (cookies : Value) (fs : Fields)
    → get_field "setCookies" fs ≡ none
    → WithCookies (some cookies) (object fs) (object (insert_field "setCookies" cookies fs))
added_cookies cookies fs lacks = (
  insert_field "setCookies" cookies fs,
  refl,
  λ k.
      let inserted = get_field-insert_field "setCookies" k cookies fs in
      elim (Bool-cases (k == "setCookies")) [
        | inl is_it ↦
            let same : k ≡ "setCookies" = ground (arith, eq_iff k "setCookies") in
            rw (is_it, same, lacks) (get_field-insert_field "setCookies" "setCookies" cookies fs)
        | inr other ↦
            let apart : ("setCookies" == k) ≡ false =
              ground (arith, eq_iff k "setCookies", eq_iff "setCookies" k) in
            rw other (inserted ∙ rw apart (sym (or_else-none (get_field k fs))))
      ],
)

module _ {W : Type 0} (env : ExecutionEnv W) (nested : Nested W) where
  inherit_cookies-WithCookies :
      (before : Option Value) (v : Value)
      → WithCookies before v (inherit_cookies env nested before v)
  unfolding inherit_cookies
  inherit_cookies-WithCookies none null = refl
  inherit_cookies-WithCookies none (bool b) = refl
  inherit_cookies-WithCookies none (number n) = refl
  inherit_cookies-WithCookies none (string s) = refl
  inherit_cookies-WithCookies none (array vs) = refl
  inherit_cookies-WithCookies none (object fs) = (fs, refl, λ k. ground arith)
  inherit_cookies-WithCookies (some cookies) null = refl
  inherit_cookies-WithCookies (some cookies) (bool b) = refl
  inherit_cookies-WithCookies (some cookies) (number n) = refl
  inherit_cookies-WithCookies (some cookies) (string s) = refl
  inherit_cookies-WithCookies (some cookies) (array vs) = refl
  inherit_cookies-WithCookies (some cookies) (object fs) =
      elim (Option-cases (get_field "setCookies" fs)) [
        | inl lacks ↦ rw (has_field, lacks) (added_cookies cookies fs lacks)
        | inr (own, has) ↦ rw (has_field, has) (own_cookies cookies own fs has)
      ]

  -- A `result` step whose branch runs to an answer ends the pipeline with the branch's status, not
  -- the answer's; with the branch's content type if that is not JSON, else the pipeline's own; and
  -- with the answer, to which it adds, if it is an object without `setCookies`, those of the state
  -- before.
  pub result_answers :
      (branches : ResultBranches) (st : StepState W) (b : ResultBranch) (sys : Sys W) (v : Value)
      (content_type : String) (status : Option ℕ)
      → select_branch (result_branches branches) (extract_error_type st.pipe.state) ≡ some b
      → nested b.pipeline st.pipe.state (extract_error_type st.pipe.state) st.sys
        ≡ some (sys, ok (v, content_type, status))
      → (st' : StepState W) × (out : PipelineOutput) × (handle_result_step env nested branches st
          ≡ some (st', ok (return out)))
        × (out.status_code ≡ some b.status_code)
        × (out.content_type
            ≡ (if content_type == "application/json" then st.output.content_type else content_type))
        × WithCookies (get "setCookies" st.pipe.state) v out.state
        × (st'.sys ≡ sys)
  unfolding handle_result_step run_branch take_state zoom ◌>>=◌
  result_answers branches st b sys v content_type status chosen runs =
      let result = inherit_cookies env nested (get "setCookies" st.pipe.state) v in
      (
        record (set_state result (set_state null st)) { sys = sys },
        record {
          state = result;
          content_type =
              if content_type == "application/json" then st.output.content_type else content_type;
          status_code = some b.status_code;
        },
        rw (chosen, runs),
        refl,
        refl,
        inherit_cookies-WithCookies (get "setCookies" st.pipe.state) v,
        refl,
      )
