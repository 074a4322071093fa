-- ===== src/Server/Flags.antt =====
-- server.rs: which pipelines need the feature flags.
pub mod Asks
pub mod Found
pub mod Tested
pub mod Matches
pub mod Laws
mod Tests
use webpipe.Base.{
  ℕ, zero, suc, String, Bool, true, false, not, ◌&&◌, ◌||◌, Option, none, some, List, ◌==◌, any,
  if◌then◌else◌, is_some,
}
use webpipe.Base.Text.{trim}
use webpipe.Ast.{
  TagExpr, tag, and, or, Regular, Pipeline, done, step, PipelineStep, regular, result, if_else,
  dispatch, foreach, OptPipeline, no_pipeline, a_pipeline, ResultBranches, no_branch, branch,
  DispatchBranches, no_case, case,
}
use webpipe.Executor.Context.{StateBehavior}
use webpipe.Executor.Env.{PipelineKey, find_pipeline}

unfoldable pub tag_expr_has_flag : TagExpr → Bool
tag_expr_has_flag (tag t) = t.name == "flag"
tag_expr_has_flag (and left right) = tag_expr_has_flag left || tag_expr_has_flag right
tag_expr_has_flag (or left right) = tag_expr_has_flag left || tag_expr_has_flag right

unfoldable pub tag_expr_has_needs_flags : TagExpr → Bool
tag_expr_has_needs_flags (tag t) = t.name == "needs" && any (λ a. a == "flags") t.args
tag_expr_has_needs_flags (and left right) =
    tag_expr_has_needs_flags left || tag_expr_has_needs_flags right
tag_expr_has_needs_flags (or left right) =
    tag_expr_has_needs_flags left || tag_expr_has_needs_flags right

-- A test that may run without end, as `none`; the next one runs only if the first says no.
abbrev pub or_then : Option Bool → Option Bool → Option Bool
or_then none later = none
or_then (some true) later = some true
or_then (some false) later = later

abbrev pub condition_needs : Option TagExpr → Bool
condition_needs none = false
condition_needs (some e) = tag_expr_has_flag e || tag_expr_has_needs_flags e

module _ (named_pipelines : List (PipelineKey × Pipeline))
    (get_behavior : String → Option StateBehavior) where
  abbrev pub is_shorthand : Regular → Bool
  is_shorthand r =
      not r.config_present && not (r.name == "loader") && not (is_some (get_behavior r.name))

  -- A pipeline of the module, or else one of the root.
  unfoldable pub find_target : Option ℕ → String → Option Pipeline
  unfolding find_pipeline
  find_target module_id target = elim (find_pipeline (module_id, target) named_pipelines) [
    | some p ↦ some p
    | none ↦ elim module_id [ some _ ↦ find_pipeline (none, target) named_pipelines | none ↦ none ]
  ]

  -- The pipeline that a step names, if it names one.
  unfoldable pub referenced : Regular → Option Pipeline
  unfolding find_target trim
  referenced r =
      if r.name == "pipeline"
      then find_target r.location.module_id (trim r.config)
      else if is_shorthand r
      then find_target r.location.module_id (trim r.name)
      else none

  -- `needs` is the recursive call on a pipeline that a step names.
  module _ (needs : Pipeline → Option Bool) where
    abbrev pub referenced_needs : Option Pipeline → Option Bool
    referenced_needs none = some false
    referenced_needs (some sub) = needs sub

    unfoldable pub regular_needs : Regular → Option Bool
    unfolding tag_expr_has_flag tag_expr_has_needs_flags referenced
    regular_needs r = or_then (some (condition_needs r.condition)) (referenced_needs (referenced r))

    unfoldable mutual
      unfolding regular_needs tag_expr_has_flag

      pub scan_steps : Pipeline → Option Bool
      scan_steps done = some false
      scan_steps (step s p) = or_then (scan_step s) (scan_steps p)

      pub scan_step : PipelineStep → Option Bool
      scan_step (regular r) = regular_needs r
      scan_step (result branches _) = scan_branches branches
      scan_step (if_else condition then_branch else_branch _) =
          or_then (scan_steps condition)
            (or_then (scan_steps then_branch) (scan_optional else_branch))
      scan_step (dispatch branches default_pipe _) =
          or_then (scan_cases branches) (scan_optional default_pipe)
      scan_step (foreach _ pipeline _) = scan_steps pipeline

      pub scan_optional : OptPipeline → Option Bool
      scan_optional no_pipeline = some false
      scan_optional (a_pipeline p) = scan_steps p

      pub scan_branches : ResultBranches → Option Bool
      scan_branches no_branch = some false
      scan_branches (branch _ _ pipeline _ more) =
          or_then (scan_steps pipeline) (scan_branches more)

      pub scan_cases : DispatchBranches → Option Bool
      scan_cases no_case = some false
      scan_cases (case condition pipeline _ more) =
          or_then (some (tag_expr_has_flag condition))
            (or_then (scan_steps pipeline) (scan_cases more))

  -- Each named pipeline within another takes a unit of fuel.
  unfoldable pub pipeline_needs_flags : ℕ → Pipeline → Option Bool
  unfolding scan_steps
  pipeline_needs_flags zero p = none
  pipeline_needs_flags (suc fuel) p = scan_steps (pipeline_needs_flags fuel) p
