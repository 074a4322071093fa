-- ===== src/Server/Runtime.antt =====
-- server.rs: `build_runtime`, which gives every module of a program an id and registers the pipelines
-- and variables of each under it. The tree of modules is what the loader answers.
mod Numbers
mod Table
pub mod Ids
pub mod Symbols
pub mod Laws
mod Tests
use webpipe.Base.{
  ℕ, String, Option, none, some, List, [], ◌∷◌, ◌==◌, ◌&&◌, lookup, insert, and_then, if◌then◌else◌,
}
use webpipe.Base.Text.{format}
use webpipe.Base.Effect.{Result, ok, err}
use webpipe.Ast.{Variable, Pipeline}
use webpipe.Ast.Program.{Program, NamedPipeline, QueryResolver, MutationResolver}
use webpipe.Executor.Error.{WebPipeError}
use webpipe.Executor.Modules.{ModuleRegistry, register, get_id_by_path, empty}
use webpipe.Executor.Env.{ExecutionEnv, Services, PipelineKey, VariableKey, same_module}
use webpipe.Loader.{Files, ModuleLoader, new}
use webpipe.Loader.Tree.{ModuleInfo, Registry, load_module_tree}
use webpipe.Server.Modules.{set_pipeline_module_info, path_to_id, paths_of}

abbrev pub Pipelines : Type 0
Pipelines = List (PipelineKey × Pipeline)

abbrev pub Variables : Type 0
Variables = List (VariableKey × Variable)

unfoldable pub insert_pipeline : PipelineKey → Pipeline → Pipelines → Pipelines
insert_pipeline (m, n) p [] = ((m, n), p) ∷ []
insert_pipeline (m, n) p (((m', n'), q) ∷ rest) =
    if same_module m' m && n' == n
    then ((m, n), p) ∷ rest
    else ((m', n'), q) ∷ insert_pipeline (m, n) p rest

unfoldable pub insert_variable : VariableKey → Variable → Variables → Variables
insert_variable (m, t, n) v [] = ((m, t, n), v) ∷ []
insert_variable (m, t, n) v (((m', t', n'), w) ∷ rest) =
    if same_module m' m && t' == t && n' == n
    then ((m, t, n), v) ∷ rest
    else ((m', t', n'), w) ∷ insert_variable (m, t, n) v rest

-- The loops over the pipelines, variables and resolvers of a program, which put each under its module;
-- `mark` is what is done to a pipeline first.
unfoldable pub add_pipelines :
    Option ℕ → (Pipeline → Pipeline) → List NamedPipeline → Pipelines → Pipelines
unfolding insert_pipeline
add_pipelines m mark [] table = table
add_pipelines m mark (p ∷ ps) table =
    add_pipelines m mark ps (insert_pipeline (m, p.name) (mark p.pipeline) table)

unfoldable pub add_variables : Option ℕ → List Variable → Variables → Variables
unfolding insert_variable
add_variables m [] table = table
add_variables m (v ∷ vs) table =
    add_variables m vs (insert_variable (m, v.var_type, v.name) v table)

unfoldable pub add_queries : (Pipeline → Pipeline) → List QueryResolver → Pipelines → Pipelines
unfolding insert_pipeline format
add_queries mark [] table = table
add_queries mark (q ∷ qs) table =
    add_queries mark qs
      (insert_pipeline (none, format ("query::" ∷ q.name ∷ [])) (mark q.pipeline) table)

unfoldable pub add_mutations : (Pipeline → Pipeline) → List MutationResolver → Pipelines → Pipelines
unfolding insert_pipeline format
add_mutations mark [] table = table
add_mutations mark (q ∷ qs) table =
    add_mutations mark qs
      (insert_pipeline (none, format ("mutation::" ∷ q.name ∷ [])) (mark q.pipeline) table)

abbrev pub as_is : Pipeline → Pipeline
as_is p = p

unfoldable pub local_pipelines : Program → Pipelines
unfolding add_pipelines add_queries add_mutations
local_pipelines program =
    add_mutations as_is program.mutations
      (add_queries as_is program.queries (add_pipelines none as_is program.pipelines []))

abbrev pub with_import : String → Option ℕ → List (String × ℕ) → List (String × ℕ)
with_import alias none import_map = import_map
with_import alias (some id) import_map = insert alias id import_map

-- The aliases of a hash map are told apart, so that their order does not count.
unfoldable pub resolve_imports : List (String × ℕ) → List (String × String) → List (String × ℕ)
unfolding insert lookup
resolve_imports ids [] = []
resolve_imports ids ((alias, target) ∷ more) =
    with_import alias (lookup target ids) (resolve_imports ids more)

module _ (tree : Registry) (ids : List (String × ℕ)) where
  -- Each path is a key of the tree.
  abbrev pub register_known : String → Option ModuleInfo → ModuleRegistry → ModuleRegistry
  register_known path none registry = registry
  register_known path (some info) registry =
      (register registry path (resolve_imports ids info.imports)).0

  unfoldable pub register_modules : List String → ModuleRegistry → ModuleRegistry
  unfolding register resolve_imports lookup
  register_modules [] registry = registry
  register_modules (path ∷ paths) registry =
      register_modules paths (register_known path (lookup path tree) registry)

  abbrev pub module_pipelines : String → ℕ → Program → Pipelines → Pipelines
  module_pipelines path id m table =
      let mark = set_pipeline_module_info path id in
      add_mutations mark m.mutations
        (add_queries mark m.queries (add_pipelines (some id) mark m.pipelines table))

  abbrev pub register_symbols :
      String → Option ModuleInfo → Option ℕ → Pipelines × Variables → Pipelines × Variables
  register_symbols path (some info) (some id) (pipelines, variables) = (
    module_pipelines path id info.program pipelines,
    add_variables (some id) info.program.variables variables,
  )
  register_symbols path _ _ tables = tables

  unfoldable pub register_all_symbols : List String → Pipelines × Variables → Pipelines × Variables
  unfolding add_pipelines add_variables add_queries add_mutations set_pipeline_module_info lookup
  register_all_symbols [] tables = tables
  register_all_symbols (path ∷ paths) tables =
      register_all_symbols paths (register_symbols path (lookup path tree) (lookup path ids) tables)

-- A tree that does not load is left aside; `none` is a loader without end.
abbrev pub loaded : Option (ModuleLoader × Result WebPipeError Registry) → Option (Option Registry)
loaded none = none
loaded (some (_, ok tree)) = some (some tree)
loaded (some (_, err e)) = some none

unfoldable pub module_tree : Files → ℕ → Option String → Option (Option Registry)
unfolding load_module_tree
module_tree files fuel none = some none
module_tree files fuel (some file_path) = loaded (load_module_tree files fuel file_path new)

abbrev pub registry_of : Option Registry → ModuleRegistry
registry_of none = empty
registry_of (some tree) = register_modules tree (path_to_id tree) (paths_of tree) empty

abbrev pub tables_of : Program → Option Registry → Pipelines × Variables
tables_of program none = (local_pipelines program, add_variables none program.variables [])
tables_of program (some tree) =
    register_all_symbols tree (path_to_id tree) (paths_of tree)
      (local_pipelines program, add_variables none program.variables [])

pub record BuiltRuntime (W : Type 0) : Type 0 where
  pub env : ExecutionEnv W
  pub root_module_id : Option ℕ

-- `root` is the canonical path of the main file, if there is one.
module _ {W : Type 0} (services : Services W) (environment : Option String) where
  unfoldable pub build_runtime : Program → Option Registry → Option String → BuiltRuntime W
  unfolding register_modules register_all_symbols local_pipelines add_variables path_to_id
      get_id_by_path
  build_runtime program tree root = record {
    env = record {
      variables = (tables_of program tree).1;
      named_pipelines = (tables_of program tree).0;
      module_registry = registry_of tree;
      environment = environment;
      services = services;
    };
    root_module_id = and_then root (get_id_by_path (registry_of tree));
  }

abbrev pub marked_as_root : Option String → Option ℕ → Pipeline → Pipeline
marked_as_root (some path) (some id) pipeline = set_pipeline_module_info path id pipeline
marked_as_root _ _ pipeline = pipeline

unfoldable pub feature_flags_pipeline : Program → Option String → Option ℕ → Option Pipeline
unfolding set_pipeline_module_info
feature_flags_pipeline program root root_module_id =
    and_then program.feature_flags λ pipeline. some (marked_as_root root root_module_id pipeline)
