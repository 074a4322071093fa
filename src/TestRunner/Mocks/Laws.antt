-- ===== src/TestRunner/Mocks/Laws.antt =====
-- test_runner.rs: a resolver over another.
use webpipe.Base.{
  String, Bool, true, false, Option, some, List, [], ◌∷◌, ◌≡◌, refl, ◌∙◌, ◌==◌, eq_iff, arith,
  if◌then◌else◌, lookup, lookup-insert, or_else,
}
use webpipe.Json.{Value}
use webpipe.TestRunner.Mocks.{
  MockKey, same_key, get_variable_mock, insert_variable_mock, MockResolver, extend_mocks,
  extend_variable_mocks, overlay, get_pipeline_mock,
}

-- A value that is found first, or else what two other searches find.
chosen-or_else :
    (b : Bool) (v : Value) (merged theirs ours : Option Value)
    → merged ≡ or_else theirs ours
    → (if b then some v else merged) ≡ or_else (if b then some v else theirs) ours
chosen-or_else true v merged theirs ours h = refl
chosen-or_else false v merged theirs ours h = h

lookup-extend_mocks :
    (name : String) (m other : List (String × Value))
    → lookup name (extend_mocks m other) ≡ or_else (lookup name other) (lookup name m)
unfolding extend_mocks lookup
lookup-extend_mocks name m [] = refl
lookup-extend_mocks name m ((k, v) ∷ more) =
    lookup-insert (extend_mocks m more) k name v
    ∙ chosen-or_else (k == name) v (lookup name (extend_mocks m more)) (lookup name more)
        (lookup name m) (lookup-extend_mocks name m more)

get_variable_mock-insert :
    (k other : MockKey) (v : Value) (m : List (MockKey × Value))
    → get_variable_mock other (insert_variable_mock k v m)
      ≡ (if same_key k other then some v else get_variable_mock other m)
unfolding get_variable_mock insert_variable_mock
get_variable_mock-insert k other v [] = refl
get_variable_mock-insert (a, b) (e, f) v (((c, d), w) ∷ m) =
    let later = get_variable_mock-insert (a, b) (e, f) v m in
    ground (arith, later, eq_iff a e, eq_iff b f, eq_iff c a, eq_iff d b, eq_iff c e, eq_iff d f)

get_variable_mock-extend_variable_mocks :
    (k : MockKey) (m other : List (MockKey × Value))
    → get_variable_mock k (extend_variable_mocks m other)
      ≡ or_else (get_variable_mock k other) (get_variable_mock k m)
unfolding extend_variable_mocks get_variable_mock
get_variable_mock-extend_variable_mocks k m [] = refl
get_variable_mock-extend_variable_mocks k m ((j, v) ∷ more) =
    get_variable_mock-insert j k v (extend_variable_mocks m more)
    ∙ chosen-or_else (same_key j k) v (get_variable_mock k (extend_variable_mocks m more))
        (get_variable_mock k more) (get_variable_mock k m)
        (get_variable_mock-extend_variable_mocks k m more)

-- In a resolver over another, a mock of the one above takes precedence, and otherwise the one below
-- answers: for a pipeline, for a middleware, and for a variable under its exact name.
pub overlay_precedence :
    (self other : MockResolver) (name : String) (key : MockKey)
    → (get_pipeline_mock (overlay self other) name
        ≡ or_else (get_pipeline_mock other name) (get_pipeline_mock self name))
      × (lookup name (overlay self other).middleware_mocks
          ≡ or_else (lookup name other.middleware_mocks) (lookup name self.middleware_mocks))
      × (get_variable_mock key (overlay self other).variable_mocks
          ≡ or_else
              (get_variable_mock key other.variable_mocks)
              (get_variable_mock key self.variable_mocks))
unfolding overlay get_pipeline_mock
overlay_precedence self other name key = (
  lookup-extend_mocks name self.pipeline_mocks other.pipeline_mocks,
  lookup-extend_mocks name self.middleware_mocks other.middleware_mocks,
  get_variable_mock-extend_variable_mocks key self.variable_mocks other.variable_mocks,
)
