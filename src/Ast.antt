-- ===== src/Ast.antt =====
-- ast/types.rs: the syntax tree that the executor runs. Fields that only the debugger or the
-- formatter read are kept, so that each type has the source's fields.
pub mod Program
pub mod Parser
pub mod Fmt
use webpipe.Base.{ℕ, String, Bool, Option, none, some, List, [], ◌∷◌}

pub record SourceLocation : Type 0 where
  pub line : ℕ
  pub column : ℕ
  pub end_line : ℕ
  pub end_column : ℕ
  pub offset : ℕ
  pub file_path : Option String
  pub module_id : Option ℕ

pub record Tag : Type 0 where
  pub name : String
  pub negated : Bool
  pub args : List String

pub data TagExpr : Type 0 where
  tag : Tag → TagExpr
  and or : TagExpr → TagExpr → TagExpr

pub data ConfigType : Type 0 where
  backtick quoted identifier : ConfigType

pub record Variable : Type 0 where
  pub var_type : String
  pub name : String
  pub value : String

pub data ResultBranchType : Type 0 where
  ok : ResultBranchType
  custom : String → ResultBranchType
  default : ResultBranchType

-- The fields of a `Regular` step.
pub record Regular : Type 0 where
  pub name : String
  pub args : List String
  pub config : String
  pub config_type : ConfigType
  pub config_present : Bool
  pub condition : Option TagExpr
  pub parsed_join_targets : Option (List String)
  pub location : SourceLocation

-- A pipeline is its list of steps. `no_pipeline` and `a_pipeline` are an `Option<Pipeline>`.
mutual
  pub data Pipeline : Type 0 where
    done : Pipeline
    step : PipelineStep → Pipeline → Pipeline

  pub data PipelineStep : Type 0 where
    regular : Regular → PipelineStep
    result : ResultBranches → SourceLocation → PipelineStep
    if_else : Pipeline → Pipeline → OptPipeline → SourceLocation → PipelineStep
    dispatch : DispatchBranches → OptPipeline → SourceLocation → PipelineStep
    foreach : String → Pipeline → SourceLocation → PipelineStep

  pub data OptPipeline : Type 0 where
    no_pipeline : OptPipeline
    a_pipeline : Pipeline → OptPipeline

  pub data ResultBranches : Type 0 where
    no_branch : ResultBranches
    branch : ResultBranchType → ℕ → Pipeline → SourceLocation → ResultBranches → ResultBranches

  pub data DispatchBranches : Type 0 where
    no_case : DispatchBranches
    case : TagExpr → Pipeline → SourceLocation → DispatchBranches → DispatchBranches

-- One `ResultBranch` and one `DispatchBranch` of a list.
pub record ResultBranch : Type 0 where
  pub branch_type : ResultBranchType
  pub status_code : ℕ
  pub pipeline : Pipeline
  pub location : SourceLocation

pub record DispatchBranch : Type 0 where
  pub condition : TagExpr
  pub pipeline : Pipeline
  pub location : SourceLocation

unfoldable pub result_branches : ResultBranches → List ResultBranch
result_branches no_branch = []
result_branches (branch t s p l rest) =
    (record { branch_type = t; status_code = s; pipeline = p; location = l }) ∷ result_branches rest

unfoldable pub dispatch_branches : DispatchBranches → List DispatchBranch
dispatch_branches no_case = []
dispatch_branches (case c p l rest) =
    (record { condition = c; pipeline = p; location = l }) ∷ dispatch_branches rest

abbrev pub optional : OptPipeline → Option Pipeline
optional no_pipeline = none
optional (a_pipeline p) = some p

unfoldable pub steps : Pipeline → List PipelineStep
steps done = []
steps (step s p) = s ∷ steps p

unfoldable pub pipeline_of : List PipelineStep → Pipeline
pipeline_of [] = done
pipeline_of (s ∷ ss) = step s (pipeline_of ss)

-- `PipelineStep::location`
unfoldable pub location : PipelineStep → SourceLocation
location (regular r) = r.location
location (result _ l) = l
location (if_else _ _ _ l) = l
location (dispatch _ _ l) = l
location (foreach _ _ l) = l
