-- ===== src/Ast/Fmt/Programs.antt =====
-- ast/fmt.rs: the printing of a parsed file, with its configurations, routes, resolvers and tests.
use webpipe.Base.{
  ℕ, String, Bool, true, false, Option, none, some, List, [], ◌∷◌, ◌==◌, if◌then◌else◌, map,
}
use webpipe.Base.Text.{format, split}
use webpipe.Config.{int_text}
use webpipe.Executor.Context.{join}
use webpipe.Ast.{Variable, Pipeline}
use webpipe.Ast.Program
use webpipe.Ast.Program.{
  Program, GraphQlSchema, QueryResolver, MutationResolver, TypeResolver, Config, ConfigProperty,
  ConfigValue, env_var, boolean, NamedPipeline, Route, PipelineRef, inline, named, LetValueFormat,
  quoted, backtick, bare, Describe, Mock, It, When, calling_route, executing_pipeline,
  executing_variable, Condition, ConditionType, DomAssertType, exists, text, count, attribute,
}
use webpipe.Ast.Fmt.{lines_with, fmt_pipeline}

unfoldable pub fmt_config_value : ConfigValue → String
unfolding int_text format
fmt_config_value (Program.string s) = format ("\"" ∷ s ∷ "\"" ∷ [])
fmt_config_value (env_var var (some def)) = format ("$" ∷ var ∷ " || \"" ∷ def ∷ "\"" ∷ [])
fmt_config_value (env_var var none) = format ("$" ∷ var ∷ [])
fmt_config_value (boolean true) = "true"
fmt_config_value (boolean false) = "false"
fmt_config_value (Program.number n) = int_text n

unfoldable pub fmt_config_property : ConfigProperty → String
unfolding fmt_config_value format
fmt_config_property p = format (p.key ∷ ": " ∷ fmt_config_value p.value ∷ [])

unfoldable pub fmt_config : Config → String
unfolding fmt_config_property lines_with format
fmt_config c = format (
    "config " ∷ c.name ∷ " {\n" ∷ lines_with "  " (map fmt_config_property c.properties) ∷ "}" ∷ [])

unfoldable pub fmt_variable : Variable → String
unfolding format
fmt_variable v = format (v.var_type ∷ " " ∷ v.name ∷ " = `" ∷ v.value ∷ "`" ∷ [])

unfoldable pub fmt_schema : GraphQlSchema → String
unfolding format
fmt_schema s = format ("graphqlSchema = `" ∷ s.sdl ∷ "`" ∷ [])

unfoldable pub fmt_mock : Mock → String
unfolding format
fmt_mock m = format ("with mock " ∷ m.target ∷ " returning `" ∷ m.return_value ∷ "`" ∷ [])

unfoldable pub fmt_when : When → String
unfolding format
fmt_when (calling_route method path) = format ("calling " ∷ method ∷ " " ∷ path ∷ [])
fmt_when (executing_pipeline name) = format ("executing pipeline " ∷ name ∷ [])
fmt_when (executing_variable var_type name) =
    format ("executing variable " ∷ var_type ∷ " " ∷ name ∷ [])

abbrev fmt_condition_type : ConditionType → String
fmt_condition_type Program.then = "then"
fmt_condition_type Program.and = "and"

-- `target.replace('.', " ")`
abbrev spaced : String → String
spaced target = join " " (split b'.' target)

abbrev fmt_dom_assert : DomAssertType → Condition → String
fmt_dom_assert exists c = if c.comparison == "exists" then "exists" else "does not exist"
fmt_dom_assert text c = format ("text " ∷ c.comparison ∷ " " ∷ c.value ∷ [])
fmt_dom_assert count c = format ("count " ∷ c.comparison ∷ " " ∷ c.value ∷ [])
fmt_dom_assert (attribute name) c =
    format ("attribute \"" ∷ name ∷ "\" " ∷ c.comparison ∷ " " ∷ c.value ∷ [])

abbrev fmt_call : Option String → Condition → String
fmt_call (some target) c = format (
    fmt_condition_type c.condition_type
    ∷ " call "
    ∷ spaced target
    ∷ " "
    ∷ c.comparison
    ∷ " "
    ∷ c.value
    ∷ [])
fmt_call none c =
    format (fmt_condition_type c.condition_type ∷ " call " ∷ c.comparison ∷ " " ∷ c.value ∷ [])

abbrev fmt_field : Option String → Option String → String → String
fmt_field (some header) jq_expr field = format (field ∷ " \"" ∷ header ∷ "\"" ∷ [])
fmt_field none (some expr) field = format (field ∷ " `" ∷ expr ∷ "`" ∷ [])
fmt_field none none field = field

abbrev fmt_plain_condition : Condition → String
fmt_plain_condition c =
    if c.is_call_assertion
    then fmt_call c.call_target c
    else format (
        fmt_condition_type c.condition_type
        ∷ " "
        ∷ fmt_field c.header_name c.jq_expr c.field
        ∷ " "
        ∷ c.comparison
        ∷ " "
        ∷ c.value
        ∷ [])

abbrev fmt_selected : Option String → Option DomAssertType → Condition → String
fmt_selected (some selector) (some dom_assert) c = format (
    fmt_condition_type c.condition_type
    ∷ " selector \""
    ∷ selector
    ∷ "\" "
    ∷ fmt_dom_assert dom_assert c
    ∷ [])
fmt_selected _ _ c = fmt_plain_condition c

unfoldable pub fmt_condition : Condition → String
unfolding join split format
fmt_condition c = fmt_selected c.selector c.dom_assert c

abbrev fmt_let_value : String → LetValueFormat → String
fmt_let_value value quoted = format ("\"" ∷ value ∷ "\"" ∷ [])
fmt_let_value value backtick = format ("`" ∷ value ∷ "`" ∷ [])
fmt_let_value value bare = value

abbrev fmt_let : String × String × LetValueFormat → String
fmt_let (name, value, form) = format ("let " ∷ name ∷ " = " ∷ fmt_let_value value form ∷ [])

-- A line for what a test gives, if it gives it.
abbrev given : String → String → Option String → String
given before behind none = ""
given before behind (some value) = format ("    " ∷ before ∷ value ∷ behind ∷ "\n" ∷ [])

unfoldable pub fmt_it : It → String
unfolding fmt_mock fmt_when fmt_condition lines_with format
fmt_it t = format (
    "it \""
    ∷ t.name
    ∷ "\"\n"
    ∷ lines_with "    " (map fmt_mock t.mocks)
    ∷ "    when "
    ∷ fmt_when t.when
    ∷ "\n"
    ∷ lines_with "    " (map fmt_let t.variables)
    ∷ given "with input `" "`" t.input
    ∷ given "with body `" "`" t.body
    ∷ given "with headers `" "`" t.headers
    ∷ given "with cookies `" "`" t.cookies
    ∷ given "and stdin is \"" "\"" t.stdin
    ∷ given "and args are `" "`" t.args
    ∷ given "and options are `" "`" t.options
    ∷ lines_with "    " (map fmt_condition t.conditions)
    ∷ [])

unfoldable pub fmt_describe : Describe → String
unfolding fmt_mock fmt_it lines_with format
fmt_describe d = format (
    "describe \""
    ∷ d.name
    ∷ "\"\n"
    ∷ lines_with "  " (map fmt_mock d.mocks)
    ∷ lines_with "  " (map fmt_it d.tests)
    ∷ [])

module _ (alphanumeric : ℕ → Bool) where
  unfoldable pub fmt_named_pipeline : NamedPipeline → String
  unfolding fmt_pipeline format
  fmt_named_pipeline p =
      format ("pipeline " ∷ p.name ∷ " = " ∷ fmt_pipeline alphanumeric p.pipeline ∷ [])

  unfoldable pub fmt_pipeline_ref : PipelineRef → String
  unfolding fmt_pipeline format
  fmt_pipeline_ref (inline p) = fmt_pipeline alphanumeric p
  fmt_pipeline_ref (named name) = format ("  |> pipeline: " ∷ name ∷ [])

  unfoldable pub fmt_route : Route → String
  unfolding fmt_pipeline_ref format
  fmt_route r = format (r.method ∷ " " ∷ r.path ∷ "\n" ∷ fmt_pipeline_ref r.pipeline ∷ [])

  unfoldable pub fmt_query : QueryResolver → String
  unfolding fmt_pipeline format
  fmt_query q = format ("query " ∷ q.name ∷ " =\n" ∷ fmt_pipeline alphanumeric q.pipeline ∷ [])

  unfoldable pub fmt_mutation : MutationResolver → String
  unfolding fmt_pipeline format
  fmt_mutation m =
      format ("mutation " ∷ m.name ∷ " =\n" ∷ fmt_pipeline alphanumeric m.pipeline ∷ [])

  unfoldable pub fmt_resolver : TypeResolver → String
  unfolding fmt_pipeline format
  fmt_resolver r = format (
      "resolver "
      ∷ r.type_name
      ∷ "."
      ∷ r.field_name
      ∷ " =\n"
      ∷ fmt_pipeline alphanumeric r.pipeline
      ∷ [])

  abbrev fmt_flags : Option Pipeline → String
  fmt_flags none = ""
  fmt_flags (some p) = format ("featureFlags =\n" ∷ fmt_pipeline alphanumeric p ∷ "\n" ∷ [])

  abbrev fmt_optional_schema : Option GraphQlSchema → String
  fmt_optional_schema none = ""
  fmt_optional_schema (some s) = format (fmt_schema s ∷ "\n\n" ∷ [])

  -- Texts with an empty line after each.
  abbrev spaced_lines : List String → List String
  spaced_lines = map (λ s. format (s ∷ "\n" ∷ []))

  unfoldable pub fmt_program : Program → String
  unfolding fmt_config fmt_variable fmt_schema fmt_describe fmt_named_pipeline fmt_route fmt_query
      fmt_mutation fmt_resolver fmt_pipeline lines_with format
  fmt_program p = format (
      lines_with "" (map fmt_config p.configs)
      ∷ lines_with "" (map fmt_named_pipeline p.pipelines)
      ∷ lines_with "" (map fmt_variable p.variables)
      ∷ fmt_flags p.feature_flags
      ∷ fmt_optional_schema p.graphql_schema
      ∷ lines_with "" (spaced_lines (map fmt_query p.queries))
      ∷ lines_with "" (spaced_lines (map fmt_mutation p.mutations))
      ∷ lines_with "" (spaced_lines (map fmt_resolver p.resolvers))
      ∷ lines_with "" (map fmt_route p.routes)
      ∷ lines_with "" (map fmt_describe p.describes)
      ∷ [])
