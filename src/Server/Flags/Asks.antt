-- ===== src/Server/Flags/Asks.antt =====
-- server.rs: what it is for a pipeline to need the feature flags, apart from the search for it.
use mathlib.Core.List.{Memᴰ}
use webpipe.Base.{ℕ, zero, suc, String, false, Option, none, some, List, ◌≡◌, ◌⊎◌}
use webpipe.Base.Text.{trim}
use webpipe.Ast.{
  Tag, TagExpr, tag, and, or, Regular, Pipeline, done, step, PipelineStep, regular, result, if_else,
  dispatch, foreach, OptPipeline, no_pipeline, a_pipeline, ResultBranches, no_branch, branch,
  DispatchBranches, no_case, case,
}
use webpipe.Executor.Context.{StateBehavior}
use webpipe.Executor.Env.{PipelineKey, find_pipeline}

-- One of the tags of an expression, negated or not.
unfoldable pub SomeTag : (Tag → Type 0) → TagExpr → Type 0
SomeTag P (tag t) = P t
SomeTag P (and left right) = SomeTag P left ⊎ SomeTag P right
SomeTag P (or left right) = SomeTag P left ⊎ SomeTag P right

-- `@flag(...)`, and `@needs(...)` with `flags` among what it needs.
abbrev pub IsFlag : Tag → Type 0
IsFlag t = t.name ≡ "flag"

abbrev pub IsNeedsFlags : Tag → Type 0
IsNeedsFlags t = (t.name ≡ "needs") × Memᴰ "flags" t.args

abbrev pub Asks : Option TagExpr → Type 0
Asks none = ⊥
Asks (some e) = SomeTag IsFlag e ⊎ SomeTag IsNeedsFlags e

-- A step of the pipeline, within its branches too, or the condition of a case.
module _ (Step : Regular → Type 0) (Case : TagExpr → Type 0) where
  unfoldable mutual
    pub Somewhere : Pipeline → Type 0
    Somewhere done = ⊥
    Somewhere (step s p) = InStep s ⊎ Somewhere p

    pub InStep : PipelineStep → Type 0
    InStep (regular r) = Step r
    InStep (result branches _) = InBranches branches
    InStep (if_else condition then_branch else_branch _) =
        Somewhere condition ⊎ (Somewhere then_branch ⊎ InOptional else_branch)
    InStep (dispatch branches default_pipe _) = InCases branches ⊎ InOptional default_pipe
    InStep (foreach _ pipeline _) = Somewhere pipeline

    pub InOptional : OptPipeline → Type 0
    InOptional no_pipeline = ⊥
    InOptional (a_pipeline p) = Somewhere p

    pub InBranches : ResultBranches → Type 0
    InBranches no_branch = ⊥
    InBranches (branch _ _ pipeline _ more) = Somewhere pipeline ⊎ InBranches more

    pub InCases : DispatchBranches → Type 0
    InCases no_case = ⊥
    InCases (case condition pipeline _ more) = Case condition ⊎ (Somewhere pipeline ⊎ InCases more)

module _ (named_pipelines : List (PipelineKey × Pipeline))
    (get_behavior : String → Option StateBehavior) where
  -- The name as it stands, without an alias taken off: of a pipeline of the module, or else, for a
  -- step of a module, of one that belongs to no module.
  abbrev pub Resolves : Option ℕ → String → Pipeline → Type 0
  Resolves module_id name q =
      (find_pipeline (module_id, name) named_pipelines ≡ some q)
      ⊎ ((find_pipeline (module_id, name) named_pipelines ≡ none)
          × (¬ (module_id ≡ none))
          × (find_pipeline (none, name) named_pipelines ≡ some q))

  -- `|> pipeline: name`, and `|> name` where no middleware has the name.
  abbrev pub Names : Pipeline → Regular → Type 0
  Names q r =
      ((r.name ≡ "pipeline") × Resolves r.location.module_id (trim r.config) q)
      ⊎ ((¬ (r.name ≡ "pipeline"))
          × (r.config_present ≡ false)
          × (¬ (r.name ≡ "loader"))
          × (get_behavior r.name ≡ none)
          × Resolves r.location.module_id (trim r.name) q)

  -- The conditions of the pipeline itself, and the pipelines that its steps name.
  abbrev pub AsksItself : Pipeline → Type 0
  AsksItself = Somewhere (λ r. Asks r.condition) (λ c. SomeTag IsFlag c)

  abbrev pub NamesIn : Pipeline → Pipeline → Type 0
  NamesIn q = Somewhere (Names q) (λ c. ⊥)

  pub data Needs : Pipeline → Type 0 where
    itself : {p : Pipeline} → AsksItself p → Needs p
    named : {p q : Pipeline} → NamesIn q p → Needs q → Needs p

  -- Names lead from the pipeline to a depth below `n`.
  unfoldable pub Bounded : ℕ → Pipeline → Type 0
  Bounded zero p = ⊥
  Bounded (suc n) p = (q : Pipeline) → NamesIn q p → Bounded n q
