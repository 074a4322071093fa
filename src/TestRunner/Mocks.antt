-- ===== src/TestRunner/Mocks.antt =====
-- test_runner.rs: `MockResolver`. A hash map is a list of its entries in the order in which it is
-- gone through. `to_lowercase` is the one of Unicode, `evaluate` a jq expression over the variables.
mod Laws
mod Tests
use webpipe.Base.{
  String, Bool, Option, none, some, List, [], ◌∷◌, ◌==◌, ◌&&◌, if◌then◌else◌, lookup, insert,
  and_then, or_else,
}
use webpipe.Base.Text.{split_once, behind_last}
use webpipe.Base.Effect.{Result, ok, err}
use webpipe.Json.{Value, get, as_str}
use webpipe.Ast.Program.{Mock}
use webpipe.Executor.Error.{WebPipeError}

abbrev pub MockKey : Type 0
MockKey = String × String

abbrev pub same_key : MockKey → MockKey → Bool
same_key (a, b) (c, d) = a == c && b == d

unfoldable pub get_variable_mock : MockKey → List (MockKey × Value) → Option Value
get_variable_mock k [] = none
get_variable_mock k ((j, v) ∷ more) = if same_key j k then some v else get_variable_mock k more

unfoldable pub insert_variable_mock :
    MockKey → Value → List (MockKey × Value) → List (MockKey × Value)
insert_variable_mock k v [] = (k, v) ∷ []
insert_variable_mock k v ((j, w) ∷ more) =
    if same_key j k then (k, v) ∷ more else (j, w) ∷ insert_variable_mock k v more

pub record MockResolver : Type 0 where
  pub middleware_mocks : List (String × Value)
  pub variable_mocks : List (MockKey × Value)
  pub pipeline_mocks : List (String × Value)

abbrev pub no_mocks : MockResolver
no_mocks = record { middleware_mocks = []; variable_mocks = []; pipeline_mocks = [] }

-- One mock goes where its target says.
abbrev pub add_to : MockResolver → String → Value → Option (String × String) → MockResolver
add_to resolver target value none = record resolver {
  middleware_mocks = insert target value resolver.middleware_mocks;
}
add_to resolver target value (some (left, right)) =
    if left == "pipeline"
    then record resolver { pipeline_mocks = insert right value resolver.pipeline_mocks }
    else record resolver {
      variable_mocks = insert_variable_mock (left, right) value resolver.variable_mocks;
    }

unfoldable pub add_mock : MockResolver → String → Value → MockResolver
unfolding insert insert_variable_mock split_once
add_mock resolver target value = add_to resolver target value (split_once "." target)

module _ (evaluate : String → Result WebPipeError Value) where
  -- The loop over the mocks: the first value that fails ends it.
  unfoldable pub add_mocks : MockResolver → List Mock → Result WebPipeError MockResolver
  unfolding add_mock
  add_mocks resolver [] = ok resolver
  add_mocks resolver (m ∷ mocks) = elim (evaluate m.return_value) [
    | err e ↦ err e
    | ok value ↦ add_mocks (add_mock resolver m.target value) mocks
  ]

  unfoldable pub from_mocks : List Mock → Result WebPipeError MockResolver
  unfolding add_mocks
  from_mocks mocks = add_mocks no_mocks mocks

-- `HashMap::extend`: the keys of a hash map are told apart, so that their order does not count.
unfoldable pub extend_mocks : List (String × Value) → List (String × Value) → List (String × Value)
unfolding insert
extend_mocks m [] = m
extend_mocks m ((k, v) ∷ more) = insert k v (extend_mocks m more)

unfoldable pub extend_variable_mocks :
    List (MockKey × Value) → List (MockKey × Value) → List (MockKey × Value)
unfolding insert_variable_mock
extend_variable_mocks m [] = m
extend_variable_mocks m ((k, v) ∷ more) = insert_variable_mock k v (extend_variable_mocks m more)

unfoldable pub overlay : MockResolver → MockResolver → MockResolver
unfolding extend_mocks extend_variable_mocks
overlay self other = record {
  middleware_mocks = extend_mocks self.middleware_mocks other.middleware_mocks;
  variable_mocks = extend_variable_mocks self.variable_mocks other.variable_mocks;
  pipeline_mocks = extend_mocks self.pipeline_mocks other.pipeline_mocks;
}

unfoldable pub get_pipeline_mock : MockResolver → String → Option Value
unfolding lookup
get_pipeline_mock self name = lookup name self.pipeline_mocks

-- The mock of a scoped reference to `var_name`.
unfoldable pub scoped_mock : String → String → List (MockKey × Value) → Option Value
unfolding behind_last
scoped_mock middleware var_name [] = none
scoped_mock middleware var_name (((mw, name), v) ∷ more) =
    let later = scoped_mock middleware var_name more in
    elim (behind_last "::" name) [
      | none ↦ later
      | some simple_name ↦ if mw == middleware && simple_name == var_name then some v else later
    ]

abbrev pub named_mock : MockResolver → String → Option String → Option Value
named_mock self middleware none = none
named_mock self middleware (some var_name) =
    or_else (get_variable_mock (middleware, var_name) self.variable_mocks)
      (scoped_mock middleware var_name self.variable_mocks)

unfoldable pub get_middleware_mock : MockResolver → String → Value → Option Value
unfolding get get_variable_mock scoped_mock lookup
get_middleware_mock self middleware input =
    or_else (named_mock self middleware (and_then (get "resultName" input) λ v. as_str v))
      (lookup middleware self.middleware_mocks)

module _ (to_lowercase : String → String) where
  abbrev pub lowered_mock : MockResolver → String → String → Option Value
  lowered_mock self prefix name =
      if to_lowercase prefix == prefix
      then none
      else get_variable_mock (to_lowercase prefix, name) self.variable_mocks

  abbrev pub dotted_mock : MockResolver → String → Option (String × String) → Option Value
  dotted_mock self key none = lookup key self.middleware_mocks
  dotted_mock self key (some (prefix, name)) =
      if prefix == "pipeline"
      then get_pipeline_mock self name
      else or_else
          (or_else (get_variable_mock (prefix, name) self.variable_mocks)
            (lowered_mock self prefix name))
          (lookup key self.middleware_mocks)

  -- The mock of a resolver of GraphQL.
  unfoldable pub get_mock_by_key : MockResolver → String → Option Value
  unfolding get_pipeline_mock get_variable_mock lookup split_once
  get_mock_by_key self key = dotted_mock self key (split_once "." key)
