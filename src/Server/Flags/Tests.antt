-- ===== src/Server/Flags/Tests.antt =====
-- Pipelines that ask for feature flags, and one that names itself.
use mathlib.Core.Path.{subst}
use webpipe.Base.{
  String, Bool, true, false, Option, none, some, List, [], ◌∷◌, ◌≡◌, refl, sym, ◌↔◌, inl, inr,
  arith,
}
use webpipe.Base.Text.{trim, is_whitespace}
use webpipe.Ast.{TagExpr, tag, quoted, Regular, Pipeline, done, step, regular}
use webpipe.Executor.Example.{unknown}
use webpipe.Executor.Context.{StateBehavior}
use webpipe.Executor.Env.{PipelineKey, find_pipeline}
use webpipe.Server.Flags.{
  pipeline_needs_flags, scan_steps, referenced, find_target, tag_expr_has_flag,
  tag_expr_has_needs_flags,
}
use webpipe.Server.Flags.Asks.{Needs, Bounded, NamesIn, Somewhere}
use webpipe.Server.Flags.Matches.{Names-referenced}
use webpipe.Server.Flags.Found.{found_steps}
use webpipe.Server.Flags.Laws.{pipeline_needs_flags_decides, pipeline_needs_flags_endless}

abbrev call : String → Option TagExpr → Regular
call target condition = record {
  name = "pipeline";
  args = [];
  config = target;
  config_type = quoted;
  config_present = true;
  condition = condition;
  parsed_join_targets = none;
  location = unknown;
}

abbrev calls : String → Option TagExpr → Pipeline
calls target condition = step (regular (call target condition)) done

abbrev flagged : Option TagExpr
flagged = some (tag (record { name = "flag"; negated = false; args = "beta" ∷ [] }))

abbrev looping : Pipeline
looping = calls "looping" none

abbrev beta : Pipeline
beta = calls "missing" flagged

abbrev named_pipelines : List (PipelineKey × Pipeline)
named_pipelines = ((none, "looping"), looping) ∷ ((none, "beta"), beta) ∷ []

abbrev no_behavior : String → Option StateBehavior
no_behavior name = none

abbrev calls_beta : Pipeline
calls_beta = calls " beta " none

names_beta : (q : Pipeline) → NamesIn named_pipelines no_behavior q calls_beta → q ≡ beta
unfolding Somewhere referenced find_target find_pipeline trim is_whitespace
names_beta q (inl named) =
    let found : some beta ≡ some q =
      Names-referenced named_pipelines no_behavior (call " beta " none) q named in
    cc
names_beta q (inr none_else) = absurd none_else

names_missing : (q : Pipeline) → NamesIn named_pipelines no_behavior q beta → ⊥
unfolding Somewhere referenced find_target find_pipeline trim is_whitespace
names_missing q (inl named) =
    let found : none ≡ some q =
      Names-referenced named_pipelines no_behavior (call "missing" flagged) q named in
    absurd (ground (arith, found))
names_missing q (inr none_else) = none_else

calls_beta-Bounded : Bounded named_pipelines no_behavior 2 calls_beta
unfolding Bounded
calls_beta-Bounded q there =
    subst (λ q. Bounded named_pipelines no_behavior 1 q) (sym (names_beta q there)) names_missing

pipeline_needs_flags_decides_example :
    (b : Bool) × (pipeline_needs_flags named_pipelines no_behavior 2 calls_beta ≡ some b)
    × ((b ≡ true) ↔ Needs named_pipelines no_behavior calls_beta)
pipeline_needs_flags_decides_example =
    pipeline_needs_flags_decides named_pipelines no_behavior 2 calls_beta calls_beta-Bounded

answer : pipeline_needs_flags named_pipelines no_behavior 2 (calls " beta " none) ≡ some true
unfolding pipeline_needs_flags scan_steps referenced find_target find_pipeline trim is_whitespace
    tag_expr_has_flag tag_expr_has_needs_flags
answer = refl

pipeline_needs_flags_endless_example :
    pipeline_needs_flags named_pipelines no_behavior 7 looping ≡ none
unfolding found_steps referenced find_target find_pipeline trim is_whitespace
pipeline_needs_flags_endless_example =
    pipeline_needs_flags_endless named_pipelines no_behavior looping refl 7
