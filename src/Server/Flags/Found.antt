-- ===== src/Server/Flags/Found.antt =====
-- server.rs: what the search for feature flags finds in one pipeline, apart from the search.
use mathlib.Core.List.{Memᴰ}
use mathlib.Core.List.Memᴰ
use webpipe.Base.{
  String, Bool, true, false, ◌||◌, Option, none, some, List, [], ◌∷◌, ◌++◌, ◌≡◌, refl, ◌⊎◌, inl,
  inr, All, All-append, arith,
}
use webpipe.Ast.{
  Regular, Pipeline, done, step, PipelineStep, regular, result, if_else, dispatch, foreach,
  OptPipeline, no_pipeline, a_pipeline, ResultBranches, no_branch, branch, DispatchBranches,
  no_case, case,
}
use webpipe.Executor.Context.{StateBehavior}
use webpipe.Executor.Env.{PipelineKey}
use webpipe.Server.Flags.{
  or_then, condition_needs, referenced, referenced_needs, regular_needs, scan_steps, scan_step,
  scan_optional, scan_branches, scan_cases, tag_expr_has_flag,
}

-- Whether a condition of the pipeline itself asks for flags, within its branches too, and the
-- pipelines that its steps name.
abbrev pub Found : Type 0
Found = Bool × List Pipeline

abbrev pub both : Found → Found → Found
both (b, ps) (c, qs) = (b || c, ps ++ qs)

abbrev pub listed : Option Pipeline → List Pipeline
listed none = []
listed (some p) = p ∷ []

module _ (named_pipelines : List (PipelineKey × Pipeline))
    (get_behavior : String → Option StateBehavior) where
  unfoldable mutual
    pub found_steps : Pipeline → Found
    found_steps done = (false, [])
    found_steps (step s p) = both (found_step s) (found_steps p)

    pub found_step : PipelineStep → Found
    found_step (regular r) =
        both (condition_needs r.condition, [])
          (false, listed (referenced named_pipelines get_behavior r))
    found_step (result branches _) = found_branches branches
    found_step (if_else condition then_branch else_branch _) =
        both (found_steps condition) (both (found_steps then_branch) (found_optional else_branch))
    found_step (dispatch branches default_pipe _) =
        both (found_cases branches) (found_optional default_pipe)
    found_step (foreach _ pipeline _) = found_steps pipeline

    pub found_optional : OptPipeline → Found
    found_optional no_pipeline = (false, [])
    found_optional (a_pipeline p) = found_steps p

    pub found_branches : ResultBranches → Found
    found_branches no_branch = (false, [])
    found_branches (branch _ _ pipeline _ more) = both (found_steps pipeline) (found_branches more)

    pub found_cases : DispatchBranches → Found
    found_cases no_case = (false, [])
    found_cases (case condition pipeline _ more) =
        both (tag_expr_has_flag condition, []) (both (found_steps pipeline) (found_cases more))

  module _ (needs : Pipeline → Option Bool) where
    -- How an answer comes from what was found.
    abbrev pub Explains : Found → Option Bool → Type 0
    Explains (b, ps) none = (q : Pipeline) × Memᴰ q ps × (needs q ≡ none)
    Explains (b, ps) (some true) = (b ≡ true) ⊎ ((q : Pipeline) × Memᴰ q ps × (needs q ≡ some true))
    Explains (b, ps) (some false) = (b ≡ false) × All (λ q. needs q ≡ some false) ps

    Explains-both :
        (f g : Found) (o later : Option Bool)
        → Explains f o
        → Explains g later
        → Explains (both f g) (or_then o later)
    Explains-both (b, ps) (c, qs) none later (q, m, e) k = (q, Memᴰ.append_left qs m, e)
    Explains-both (b, ps) (c, qs) (some true) later (inl e) k = inl (ground (arith, e))
    Explains-both (b, ps) (c, qs) (some true) later (inr (q, m, e)) k =
        inr (q, Memᴰ.append_left qs m, e)
    Explains-both (b, ps) (c, qs) (some false) none h (q, m, e) = (q, Memᴰ.append_right ps m, e)
    Explains-both (b, ps) (c, qs) (some false) (some true) h (inl e) = inl (ground (arith, e, h.0))
    Explains-both (b, ps) (c, qs) (some false) (some true) h (inr (q, m, e)) =
        inr (q, Memᴰ.append_right ps m, e)
    Explains-both (b, ps) (c, qs) (some false) (some false) (own, all) (own', all') =
        (ground (arith, own, own'), All-append (λ q. needs q ≡ some false) ps qs all all')

    Explains-own : (b : Bool) → Explains (b, []) (some b)
    Explains-own true = inl refl
    Explains-own false = (refl, tt)

    Explains-listed :
        (o : Option Pipeline)
        → Explains (false, listed o) (referenced_needs named_pipelines get_behavior needs o)
    Explains-listed none = (refl, tt)
    Explains-listed (some p) = asked (needs p) refl
      where
        asked : (answer : Option Bool) → needs p ≡ answer → Explains (false, p ∷ []) answer
        asked none e = (p, Memᴰ.head refl, e)
        asked (some true) e = inr (p, Memᴰ.head refl, e)
        asked (some false) e = (refl, (e, tt))

    Explains-regular :
        (r : Regular)
        → Explains (found_step (regular r)) (regular_needs named_pipelines get_behavior needs r)
    unfolding regular_needs found_step
    Explains-regular r =
        Explains-both (condition_needs r.condition, [])
          (false, listed (referenced named_pipelines get_behavior r))
          (some (condition_needs r.condition))
          (referenced_needs named_pipelines get_behavior needs
            (referenced named_pipelines get_behavior r))
          (Explains-own (condition_needs r.condition))
          (Explains-listed (referenced named_pipelines get_behavior r))

    pub scan_steps-Explains :
        (p : Pipeline) → Explains (found_steps p) (scan_steps named_pipelines get_behavior needs p)
    unfolding scan_steps found_steps
    scan_steps-Explains p =
        elim p
          as (λ p. Explains (found_steps p) (scan_steps named_pipelines get_behavior needs p)) (λ s.
            Explains (found_step s) (scan_step named_pipelines get_behavior needs s)) (λ o.
              Explains (found_optional o)
                (scan_optional named_pipelines get_behavior needs o)) (λ bs.
                  Explains (found_branches bs)
                    (scan_branches named_pipelines get_behavior needs bs)) (λ cs.
                      Explains (found_cases cs)
                        (scan_cases named_pipelines get_behavior needs cs)) [
                          | done ↦ (refl, tt)
                          | step (s → first) (p → rest) ↦ Explains-both _ _ _ _ first rest
                          | regular r ↦ Explains-regular r
                          | result (bs → h) l ↦ h
                          | if_else (c → hc) (a → ha) (e → he) l ↦
                              Explains-both _ _ _ _ hc (Explains-both _ _ _ _ ha he)
                          | dispatch (cs → hc) (d → hd) l ↦ Explains-both _ _ _ _ hc hd
                          | foreach _ (p → h) _ ↦ h
                          | no_pipeline ↦ (refl, tt)
                          | a_pipeline (p → h) ↦ h
                          | no_branch ↦ (refl, tt)
                          | branch _ _ (p → h) _ (more → hm) ↦ Explains-both _ _ _ _ h hm
                          | no_case ↦ (refl, tt)
                          | case c (p → h) _ (more → hm) ↦
                              Explains-both (tag_expr_has_flag c, []) _ (some (tag_expr_has_flag c))
                                _ (Explains-own (tag_expr_has_flag c)) (Explains-both _ _ _ _ h hm)
                        ]
