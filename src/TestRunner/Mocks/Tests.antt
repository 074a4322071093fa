-- ===== src/TestRunner/Mocks/Tests.antt =====
-- The mocks of the tests of test_runner.rs, and a scoped one.
use webpipe.Base.{String, some, List, [], ◌∷◌, ◌≡◌, refl, insert, lookup, or_else}
use webpipe.Base.Text.{split_once, strip_prefix, behind_last}
use webpipe.Base.Effect.{Result, ok}
use webpipe.Json.{Value, string, object, field, end, get, get_field}
use webpipe.Ast.Program.{Mock}
use webpipe.Executor.Error.{WebPipeError}
use webpipe.TestRunner.Mocks.{
  MockResolver, from_mocks, add_mocks, add_mock, insert_variable_mock, get_middleware_mock,
  get_variable_mock, scoped_mock, get_mock_by_key, get_pipeline_mock, no_mocks, overlay,
}
use webpipe.TestRunner.Mocks.Laws.{overlay_precedence}

abbrev read : String → Result WebPipeError Value
read s = ok (string s)

abbrev mocks : List Mock
mocks =
    record { target = "pipeline.inner"; return_value = "p" }
    ∷ record { target = "pg.db::users"; return_value = "u" }
    ∷ record { target = "cache"; return_value = "c" }
    ∷ []

abbrev resolver : MockResolver
resolver = record {
  middleware_mocks = ("cache", string "c") ∷ [];
  variable_mocks = (("pg", "db::users"), string "u") ∷ [];
  pipeline_mocks = ("inner", string "p") ∷ [];
}

sorted_by_target : from_mocks read mocks ≡ ok resolver
unfolding from_mocks add_mocks add_mock insert_variable_mock insert split_once strip_prefix
sorted_by_target = refl

scoped_found :
    get_middleware_mock resolver "pg" (object (field "resultName" (string "users") end))
    ≡ some (string "u")
unfolding get_middleware_mock get get_field get_variable_mock scoped_mock behind_last strip_prefix
    lookup
scoped_found = refl

abbrev same : String → String
same s = s

by_key : get_mock_by_key same resolver "pipeline.inner" ≡ some (string "p")
unfolding get_mock_by_key get_pipeline_mock lookup split_once strip_prefix
by_key = refl

abbrev above : MockResolver
above = record no_mocks { pipeline_mocks = ("inner", string "q") ∷ [] }

overlay_precedence_example :
    (get_pipeline_mock (overlay resolver above) "inner"
      ≡ or_else (get_pipeline_mock above "inner") (get_pipeline_mock resolver "inner"))
    × (lookup "inner" (overlay resolver above).middleware_mocks
        ≡ or_else
            (lookup "inner" above.middleware_mocks)
            (lookup "inner" resolver.middleware_mocks))
    × (get_variable_mock ("pg", "db::users") (overlay resolver above).variable_mocks
        ≡ or_else
            (get_variable_mock ("pg", "db::users") above.variable_mocks)
            (get_variable_mock ("pg", "db::users") resolver.variable_mocks))
overlay_precedence_example = overlay_precedence resolver above "inner" ("pg", "db::users")
