-- ===== src/Server/Modules.antt =====
-- server.rs: the modules of a program put together. Paths come in the order of `PathBuf`, and a
-- module's place in that order is its id, with which its steps are marked.
pub mod Example
pub mod Paths
mod Tests
use webpipe.Base.{
  ℕ, suc, String, Option, none, some, List, [], ◌∷◌, ◌++◌, lookup, insert, is_some, map,
  if◌then◌else◌,
}
use webpipe.Ast.{
  SourceLocation, Pipeline, done, step, PipelineStep, regular, result, if_else, dispatch, foreach,
  OptPipeline, no_pipeline, a_pipeline, ResultBranches, no_branch, branch, DispatchBranches,
  no_case, case,
}
use webpipe.Ast.Program.{
  Program, Describe, It, QueryResolver, MutationResolver, TypeResolver, Route, NamedPipeline,
  PipelineRef, inline, named, GraphQlSchema,
}
use webpipe.Executor.Context.{join}
use webpipe.Loader.Tree.{ModuleInfo, Registry}
use webpipe.Server.Modules.Paths.{sort_paths}

module _ (file_path : String) (module_id : ℕ) where
  abbrev pub in_module : SourceLocation → SourceLocation
  in_module l = record l { file_path = some file_path; module_id = some module_id }

  -- The locations of branches stay as they are.
  unfoldable mutual
    pub set_pipeline_module_info : Pipeline → Pipeline
    set_pipeline_module_info done = done
    set_pipeline_module_info (step s p) = step (set_step s) (set_pipeline_module_info p)

    pub set_step : PipelineStep → PipelineStep
    set_step (regular r) = regular (record r { location = in_module r.location })
    set_step (result branches l) = result (set_branches branches) (in_module l)
    set_step (if_else condition then_branch else_branch l) =
        if_else (set_pipeline_module_info condition) (set_pipeline_module_info then_branch)
          (set_optional else_branch) (in_module l)
    set_step (dispatch branches default_pipe l) =
        dispatch (set_cases branches) (set_optional default_pipe) (in_module l)
    set_step (foreach selector pipeline l) =
        foreach selector (set_pipeline_module_info pipeline) (in_module l)

    pub set_optional : OptPipeline → OptPipeline
    set_optional no_pipeline = no_pipeline
    set_optional (a_pipeline p) = a_pipeline (set_pipeline_module_info p)

    pub set_branches : ResultBranches → ResultBranches
    set_branches no_branch = no_branch
    set_branches (branch t status p l more) =
        branch t status (set_pipeline_module_info p) l (set_branches more)

    pub set_cases : DispatchBranches → DispatchBranches
    set_cases no_case = no_case
    set_cases (case condition p l more) =
        case condition (set_pipeline_module_info p) l (set_cases more)

abbrev pub in_file : String → SourceLocation → SourceLocation
in_file path l = if is_some l.file_path then l else record l { file_path = some path }

abbrev pub set_test_path : String → It → It
set_test_path path test = record test { location = in_file path test.location }

abbrev pub set_describe_file_path : String → Describe → Describe
set_describe_file_path path d = record d {
  location = in_file path d.location;
  tests = map (set_test_path path) d.tests;
}

abbrev pub module_pipeline : String → ℕ → NamedPipeline → NamedPipeline
module_pipeline path id p = record p { pipeline = set_pipeline_module_info path id p.pipeline }

abbrev pub module_query : String → ℕ → QueryResolver → QueryResolver
module_query path id q = record q { pipeline = set_pipeline_module_info path id q.pipeline }

abbrev pub module_mutation : String → ℕ → MutationResolver → MutationResolver
module_mutation path id q = record q { pipeline = set_pipeline_module_info path id q.pipeline }

abbrev pub module_resolver : String → ℕ → TypeResolver → TypeResolver
module_resolver path id q = record q { pipeline = set_pipeline_module_info path id q.pipeline }

abbrev pub module_ref : String → ℕ → PipelineRef → PipelineRef
module_ref path id (inline p) = inline (set_pipeline_module_info path id p)
module_ref path id (named n) = named n

abbrev pub module_route : String → ℕ → Route → Route
module_route path id r = record r { pipeline = module_ref path id r.pipeline }

-- Every path with its place; a later one counts, were there two the same.
unfoldable pub number_paths : ℕ → List String → List (String × ℕ) → List (String × ℕ)
unfolding insert
number_paths i [] ids = ids
number_paths i (path ∷ paths) ids = number_paths (suc i) paths (insert path i ids)

abbrev pub paths_of : Registry → List String
paths_of tree = sort_paths (map (λ (path, _). path) tree)

unfoldable pub path_to_id : Registry → List (String × ℕ)
unfolding number_paths sort_paths
path_to_id tree = number_paths 0 (paths_of tree) []

abbrev pub sdl_of : Option GraphQlSchema → List String
sdl_of none = []
sdl_of (some schema) = schema.sdl ∷ []

-- One turn of the loop over the modules, on the program so far and the parts of its schema.
abbrev pub merge_module : String → ℕ → Program → Program × List String → Program × List String
merge_module path id m (merged, parts) = (
  record merged {
    queries = merged.queries ++ map (module_query path id) m.queries;
    mutations = merged.mutations ++ map (module_mutation path id) m.mutations;
    resolvers = merged.resolvers ++ map (module_resolver path id) m.resolvers;
    routes = merged.routes ++ map (module_route path id) m.routes;
    pipelines = merged.pipelines ++ map (module_pipeline path id) m.pipelines;
    variables = merged.variables ++ m.variables;
    describes = merged.describes ++ map (set_describe_file_path path) m.describes;
  },
  parts ++ sdl_of m.graphql_schema,
)

-- Each path is a key of the tree and has an id.
abbrev pub merge_known :
    String → Option ModuleInfo → Option ℕ → Program × List String → Program × List String
merge_known path (some info) (some id) merged = merge_module path id info.program merged
merge_known path _ _ merged = merged

unfoldable pub merge_modules :
    Registry → List (String × ℕ) → List String → Program × List String → Program × List String
unfolding set_pipeline_module_info lookup
merge_modules tree ids [] merged = merged
merge_modules tree ids (path ∷ paths) merged =
    merge_modules tree ids paths (merge_known path (lookup path tree) (lookup path ids) merged)

abbrev pub with_schema : Program × List String → Program
with_schema (merged, []) = merged
with_schema (merged, parts) = record merged {
  graphql_schema = some (record { sdl = join "\n\n" parts });
}

-- What the modules are merged into: the parts of the main file that are kept.
abbrev pub kept_of : Program → Program
kept_of main_program = record main_program {
  variables = [];
  pipelines = [];
  routes = [];
  queries = [];
  mutations = [];
  resolvers = [];
  describes = [];
  graphql_schema = none;
}

unfoldable pub merge_from_module_tree_for_tests : Program → Registry → Program
unfolding merge_modules path_to_id sort_paths join
merge_from_module_tree_for_tests main_program tree =
    with_schema (merge_modules tree (path_to_id tree) (paths_of tree) (kept_of main_program, []))
