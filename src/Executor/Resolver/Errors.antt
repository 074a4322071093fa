-- ===== src/Executor/Resolver/Errors.antt =====
-- Error envelopes and the result branch that they select.
use webpipe.Base.{
  String, Bool, true, false, Option, none, some, List, [], ◌∷◌, ◌≡◌, refl, arith, All, eq_refl,
  find, or_else, Bool-cases, inl, inr, ◌⊎◌,
}
use mathlib.Core.Path.{subst}
use webpipe.Base.Text.{format}
use webpipe.Json.{Value, string, array, object, Fields, get_field, insert_field, cons}
use webpipe.Json.Laws.{get_field-insert_field}
use webpipe.Ast.{ResultBranch}
use webpipe.Executor.Resolver.{
  extract_error_type, override_error_type, make_middleware_error_value, retype_errors,
  select_branch, is_custom, is_ok_branch, is_default,
}

-- The type that an error envelope ends with: the `@error` tag's, if the step has one.
abbrev pub final_type : String → Option String → String
final_type t none = t
final_type t (some e) = e

retype-extract :
    (fs : Fields) (t e : String) (q : Option Value)
    → get_field "errors" fs ≡ q
    → extract_error_type (object fs) ≡ some t
    → extract_error_type (retype_errors e fs q) ≡ some e
unfolding extract_error_type
retype-extract fs t e (some (array (cons (object error) rest))) found h = ground (
  arith,
  get_field-insert_field "errors" "errors"
      (array (cons (object (insert_field "type" (string e) error)) rest)) fs,
  get_field-insert_field "type" "type" (string e) error,
  eq_refl "errors",
  eq_refl "type",
)
retype-extract fs t e q found h = ground arith

-- A value that shows an error type shows the tag's type after `override_error_type`.
pub extract-override :
    (v : Value) (t : String) (tag : Option String)
    → extract_error_type v ≡ some t
    → extract_error_type (override_error_type v tag) ≡ some (final_type t tag)
unfolding extract_error_type override_error_type
extract-override v t none h = h
extract-override (object fs) t (some e) h = retype-extract fs t e (get_field "errors" fs) refl h
extract-override v t (some e) h = ground arith

pub extract-make_middleware_error_value :
    (name message : String) (location : Option String)
    → extract_error_type (make_middleware_error_value name message location)
      ≡ some (format (name ∷ "Error" ∷ []))
unfolding extract_error_type make_middleware_error_value
extract-make_middleware_error_value name message location = ground arith

-- The first branch, in the order of the source, that a test accepts.
pub data FirstWith (p : ResultBranch → Bool) : List ResultBranch → ResultBranch → Type 0 where
  here : {b : ResultBranch} {bs : List ResultBranch} → p b ≡ true → FirstWith p (b ∷ bs) b
  there :
      {b c : ResultBranch} {bs : List ResultBranch}
      → p c ≡ false
      → FirstWith p bs b
      → FirstWith p (c ∷ bs) b

abbrev pub NoneWith : (ResultBranch → Bool) → List ResultBranch → Type 0
NoneWith p bs = All (λ b. p b ≡ false) bs

find-FirstWith :
    (p : ResultBranch → Bool) (bs : List ResultBranch) (b : ResultBranch)
    → find p bs ≡ some b
    → FirstWith p bs b
find-FirstWith p [] b h = cc
find-FirstWith p (c ∷ cs) b h = elim (Bool-cases (p c)) [
  | inl hit ↦ subst (FirstWith p (c ∷ cs)) (found hit) (here hit)
  | inr miss ↦ there miss (find-FirstWith p cs b (ground arith))
]
  where
    found : p c ≡ true → c ≡ b
    found hit = ground arith

find-NoneWith :
    (p : ResultBranch → Bool) (bs : List ResultBranch) → find p bs ≡ none → NoneWith p bs
find-NoneWith p [] h = tt
find-NoneWith p (c ∷ cs) h = ground (arith, find-NoneWith p cs)

-- The test that a state's error type puts to the branches of a `result` step.
abbrev pub wanted : Option String → ResultBranch → Bool
wanted none = is_ok_branch
wanted (some e) = is_custom e

-- How a `result` step came to its branch: by the error type, by `default`, or not at all.
abbrev pub Selection : List ResultBranch → Option String → Option ResultBranch → Type 0
Selection bs e none = NoneWith (wanted e) bs × NoneWith is_default bs
Selection bs e (some b) =
    FirstWith (wanted e) bs b ⊎ (NoneWith (wanted e) bs × FirstWith is_default bs b)

choose-Selection :
    (bs : List ResultBranch) (e : Option String) (q r : Option ResultBranch)
    → find (wanted e) bs ≡ q
    → find is_default bs ≡ r
    → Selection bs e (or_else q r)
choose-Selection bs e (some b) r hq hr = inl (find-FirstWith (wanted e) bs b hq)
choose-Selection bs e none (some b) hq hr =
    inr (find-NoneWith (wanted e) bs hq, find-FirstWith is_default bs b hr)
choose-Selection bs e none none hq hr =
    (find-NoneWith (wanted e) bs hq, find-NoneWith is_default bs hr)

-- `select_branch` answers the first branch that names the error type (the first `ok` branch if
-- there is none), else the first `default` branch; it answers nothing only if there is neither.
pub select_branch-Selection :
    (bs : List ResultBranch) (e : Option String) → Selection bs e (select_branch bs e)
unfolding select_branch
select_branch-Selection bs none = choose-Selection bs none _ _ refl refl
select_branch-Selection bs (some e) = choose-Selection bs (some e) _ _ refl refl
