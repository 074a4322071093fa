-- ===== src/Executor/Tags/Laws.antt =====
-- What `@when`, `@flag` and `@guard` tags decide.
use mathlib.Core.Bool.{and-eq-true_iff}
use webpipe.Base.{
  String, Bool, true, false, not, List, [], ◌∷◌, ◌≡◌, ◌↔◌, refl, arith, All, lookup_or, inl, inr,
  Bool-cases, ℕ, zero, suc, get_elem?, some,
}
use webpipe.Base.Effect.{Result, ok, err}
use webpipe.Json.{Value}
use webpipe.Ast.{Tag}
use webpipe.Executor.Error.{WebPipeError}
use webpipe.Executor.Context.{RequestContext}
use webpipe.Executor.Env.{ExecutionEnv, eval_bool, truthy}
use webpipe.Executor.Tags.{
  check_names, check_when_tag, check_flag_tag, check_guard_tag, flip, guard_result,
}

-- Every name is met, or, under a negation, every name is unmet. A name that is not listed is unmet.
abbrev pub AllMet : Bool → List (String × Bool) → List String → Type 0
AllMet negated known = All (λ n. lookup_or false n known ≡ not negated)

flip-eq-true : (negated b : Bool) → flip negated b ≡ true → b ≡ not negated
flip-eq-true negated b h = ground arith

flip_of_eq : (negated b : Bool) → b ≡ not negated → flip negated b ≡ true
flip_of_eq negated b h = ground arith

check_names_iff :
    (negated : Bool) (known : List (String × Bool)) (names : List String)
    → (check_names negated known names ≡ true) ↔ AllMet negated known names
unfolding check_names
check_names_iff negated known [] = (λ _. tt, λ _. refl)
check_names_iff negated known (n ∷ ns) =
    let (sound, complete) = check_names_iff negated known ns in
    (
      λ h. let parts = (and-eq-true_iff _ _).0 h in (flip-eq-true negated _ parts.0, sound parts.1),
      λ a. (and-eq-true_iff _ _).1 (flip_of_eq negated _ a.0, complete a.1),
    )

module _ {W : Type 0} (t : Tag) (ctx : RequestContext W) where
  -- `@when(names)` lets a step run exactly when every named condition of the request is set, and
  -- `@!when(names)` exactly when none of them is. A condition that was never set counts as unset.
  pub check_when_tag_iff : (check_when_tag t ctx ≡ true) ↔ AllMet t.negated ctx.conditions t.args
  unfolding check_when_tag
  check_when_tag_iff = check_names_iff t.negated ctx.conditions t.args

  -- `@flag(names)` lets a step run exactly when every named feature flag of the request is on, and
  -- `@!flag(names)` exactly when none of them is. A flag that was never set counts as off.
  pub check_flag_tag_iff : (check_flag_tag t ctx ≡ true) ↔ AllMet t.negated ctx.feature_flags t.args
  unfolding check_flag_tag
  check_flag_tag_iff = check_names_iff t.negated ctx.feature_flags t.args

AllMet-get_elem? :
    (negated : Bool) (known : List (String × Bool)) (names : List String) (i : ℕ) (n : String)
    → get_elem? names i ≡ some n
    → AllMet negated known names
    → lookup_or false n known ≡ not negated
AllMet-get_elem? negated known [] i n h a = cc
AllMet-get_elem? negated known (m ∷ ms) zero n h a = ground arith
AllMet-get_elem? negated known (m ∷ ms) (suc i) n h a = AllMet-get_elem? negated known ms i n h a.1

check_names_fails :
    (negated : Bool) (known : List (String × Bool)) (names : List String) (i : ℕ) (n : String)
    → get_elem? names i ≡ some n
    → lookup_or false n known ≡ negated
    → check_names negated known names ≡ false
check_names_fails negated known names i n at same =
    elim (Bool-cases (check_names negated known names)) [
      | inr no_run ↦ no_run
      | inl runs ↦
          let met = AllMet-get_elem? negated known names i n at ((check_names_iff _ _ _).0 runs) in
          absurd (ground arith)
    ]

-- If `@when` names a condition that is set and one that is not, neither the tag nor its negation
-- lets the step run: `@!when` does not invert the result of `@when`.
pub when_mixed :
    {W : Type 0} (name : String) (args : List String) (ctx : RequestContext W) (i j : ℕ)
    (a b : String)
    → get_elem? args i ≡ some a
    → lookup_or false a ctx.conditions ≡ true
    → get_elem? args j ≡ some b
    → lookup_or false b ctx.conditions ≡ false
    → (check_when_tag (record { name = name; negated = false; args = args }) ctx ≡ false)
      × (check_when_tag (record { name = name; negated = true; args = args }) ctx ≡ false)
unfolding check_when_tag
when_mixed name args ctx i j a b at_a set at_b unset = (
  check_names_fails false ctx.conditions args j b at_b unset,
  check_names_fails true ctx.conditions args i a at_a set,
)

abbrev judged : Result WebPipeError Value → Result WebPipeError Bool
judged r = elim r [ ok v ↦ ok (truthy v) | err e ↦ err e ]

guard_result_iff :
    (negated : Bool) (r : Result WebPipeError Value)
    → (guard_result negated (judged r) ≡ true)
      ↔ ((v : Value) × (r ≡ ok v) × (truthy v ≡ not negated))
guard_result_iff negated (ok v) = (
  λ h. (v, refl, flip-eq-true negated (truthy v) h),
  λ k. flip_of_eq negated (truthy v) (let (w, same, met) = k in cc),
)
guard_result_iff negated (err e) = (λ h. absurd (ground arith), λ k. let (w, same, met) = k in cc)

-- A `@guard` with a filter lets its step run exactly when the filter evaluates on the state, to a
-- value that jq counts as true, or, if the tag is negated, as false. A filter that fails to evaluate
-- skips the step, whether the tag is negated or not.
pub check_guard_tag_iff :
    {W : Type 0} (t : Tag) (filter : String) (rest : List String) (env : ExecutionEnv W)
    (input : Value)
    → t.args ≡ filter ∷ rest
    → (check_guard_tag t env input ≡ true)
      ↔ ((v : Value) × (env.services.evaluate filter input ≡ ok v) × (truthy v ≡ not t.negated))
unfolding check_guard_tag eval_bool
check_guard_tag_iff t filter rest env input args =
    rw args (guard_result_iff t.negated (env.services.evaluate filter input))
