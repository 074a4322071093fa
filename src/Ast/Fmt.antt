-- ===== src/Ast/Fmt.antt =====
-- ast/fmt.rs: the printing of pipelines, steps and tags. Each `fmt_x` is what `to_string()` answers for
-- an `x`. `alphanumeric` is `char::is_alphanumeric` of Unicode, on code points.
pub mod Tags
pub mod Programs
mod Tests
use Prim.Native.Char.{code}
use Prim.Native.String
use webpipe.Base.{
  ℕ, String, Bool, true, ◌&&◌, Option, none, some, List, [], ◌∷◌, ◌==◌, nat_eq, if◌then◌else◌,
  is_empty, map,
}
use webpipe.Base.Text.{format, decimal, all_chars, split}
use webpipe.Executor.Context.{join}
use webpipe.Ast.{
  Tag, TagExpr, tag, and, or, ConfigType, backtick, quoted, identifier, Regular, Pipeline, done,
  step, PipelineStep, regular, result, if_else, dispatch, foreach, OptPipeline, no_pipeline,
  a_pipeline, ResultBranches, no_branch, branch, DispatchBranches, no_case, case, ResultBranchType,
  ok, custom, default,
}

-- `for x in xs { writeln!(f, "{prefix}{x}") }`
unfoldable pub lines_with : String → List String → String
unfolding format
lines_with prefix [] = ""
lines_with prefix (x ∷ xs) = format (prefix ∷ x ∷ "\n" ∷ lines_with prefix xs ∷ [])

-- `lines()`: the parts between line feeds, without a last one that is empty and without a carriage
-- return at the end of each.
unfoldable pub without_return : String → String
without_return String.[] = ""
without_return (String.◌∷◌ c s) =
    let rest = without_return s in if nat_eq (code c) 13 && s == "" then "" else String.◌∷◌ c rest

unfoldable pub text_lines : List String → List String
unfolding without_return
text_lines [] = []
text_lines (last ∷ []) = if last == "" then [] else last ∷ []
text_lines (l ∷ m ∷ more) = without_return l ∷ text_lines (m ∷ more)

unfoldable pub lines : String → List String
unfolding text_lines split
lines s = text_lines (split 10 s)

abbrev pub fmt_branch_type : ResultBranchType → String
fmt_branch_type ok = "ok"
fmt_branch_type (custom name) = name
fmt_branch_type default = "default"

abbrev pub fmt_step_config : ConfigType → String → String
fmt_step_config backtick config = format ("`" ∷ config ∷ "`" ∷ [])
fmt_step_config quoted config = format ("\"" ∷ config ∷ "\"" ∷ [])
fmt_step_config identifier config = config

-- Within an `and`, an `or` stands in parentheses.
abbrev pub grouped : TagExpr → String → String
grouped (or _ _) text = format ("(" ∷ text ∷ ")" ∷ [])
grouped _ text = text

module _ (alphanumeric : ℕ → Bool) where
  abbrev is_simple : ℕ → Bool
  is_simple c = if alphanumeric c then true else if nat_eq c b'_' then true else nat_eq c b'-'

  unfoldable pub fmt_tag_arg : String → String
  unfolding all_chars format
  fmt_tag_arg arg = if all_chars is_simple arg then arg else format ("`" ∷ arg ∷ "`" ∷ [])

  unfoldable pub fmt_tag : Tag → String
  unfolding fmt_tag_arg join format
  fmt_tag t = format (
      "@"
      ∷ (if t.negated then "!" else "")
      ∷ t.name
      ∷ (if is_empty t.args
          then ""
          else format ("(" ∷ join "," (map fmt_tag_arg t.args) ∷ ")" ∷ []))
      ∷ [])

  unfoldable pub fmt_tag_expr : TagExpr → String
  unfolding fmt_tag format
  fmt_tag_expr (tag t) = fmt_tag t
  fmt_tag_expr (and left right) =
      format (grouped left (fmt_tag_expr left) ∷ " and " ∷ grouped right (fmt_tag_expr right) ∷ [])
  fmt_tag_expr (or left right) = format (fmt_tag_expr left ∷ " or " ∷ fmt_tag_expr right ∷ [])

  abbrev fmt_condition : Option TagExpr → String
  fmt_condition none = ""
  fmt_condition (some e) = format (" " ∷ fmt_tag_expr e ∷ [])

  unfoldable pub fmt_regular : Regular → String
  unfolding fmt_tag_expr join format
  fmt_regular r = format (
      "  |> "
      ∷ r.name
      ∷ (if is_empty r.args then "" else format ("(" ∷ join ", " r.args ∷ ")" ∷ []))
      ∷ (if r.config_present
          then format (": " ∷ fmt_step_config r.config_type r.config ∷ [])
          else "")
      ∷ fmt_condition r.condition
      ∷ [])

  -- A branch with one step prints it behind the case.
  abbrev fmt_case_steps : List String → String
  fmt_case_steps [] = "\n"
  fmt_case_steps (s ∷ []) = format (s ∷ "\n" ∷ [])
  fmt_case_steps (s ∷ t ∷ more) = format ("\n" ∷ lines_with "    " (s ∷ t ∷ more) ∷ [])

  unfoldable mutual
    unfolding fmt_regular fmt_tag_expr lines_with lines join format decimal

    -- The steps of a pipeline, each printed.
    pub step_texts : Pipeline → List String
    step_texts done = []
    step_texts (step s p) = fmt_step s ∷ step_texts p

    pub fmt_step : PipelineStep → String
    fmt_step (regular r) = fmt_regular r
    fmt_step (result branches _) = format ("  |> result\n" ∷ fmt_result_branches branches ∷ [])
    fmt_step (if_else condition then_branch else_branch _) = format (
        "  |> if\n"
        ∷ lines_with "  " (step_texts condition)
        ∷ "    then:\n"
        ∷ lines_with "    " (step_texts then_branch)
        ∷ fmt_optional "    else:\n" else_branch
        ∷ [])
    fmt_step (dispatch branches default_pipe _) =
        format
          ("  |> dispatch\n" ∷ fmt_cases branches ∷ fmt_optional "    default:\n" default_pipe ∷ [])
    fmt_step (foreach selector pipeline _) =
        format
          ("  |> foreach " ∷ selector ∷ "\n" ∷ lines_with "  " (step_texts pipeline) ∷ "  end" ∷ [])

    pub fmt_optional : String → OptPipeline → String
    fmt_optional head no_pipeline = ""
    fmt_optional head (a_pipeline p) = format (head ∷ lines_with "    " (step_texts p) ∷ [])

    pub fmt_result_branches : ResultBranches → String
    fmt_result_branches no_branch = ""
    fmt_result_branches (branch branch_type status_code pipeline _ more) = format (
        "    "
        ∷ fmt_branch_type branch_type
        ∷ "("
        ∷ decimal status_code
        ∷ "):\n"
        ∷ lines_with "    " (lines (join "\n" (step_texts pipeline)))
        ∷ fmt_result_branches more
        ∷ [])

    pub fmt_cases : DispatchBranches → String
    fmt_cases no_case = ""
    fmt_cases (case condition pipeline _ more) = format (
        "    case "
        ∷ fmt_tag_expr condition
        ∷ ": "
        ∷ fmt_case_steps (step_texts pipeline)
        ∷ fmt_cases more
        ∷ [])

  unfoldable pub fmt_pipeline : Pipeline → String
  unfolding step_texts join
  fmt_pipeline p = join "\n" (step_texts p)
