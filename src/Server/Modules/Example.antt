-- ===== src/Server/Modules/Example.antt =====
-- Two modules, of which `/app/b.wp` has a pipeline and `/app/a.wp` imports it.
use webpipe.Base.{none, List, [], ◌∷◌}
use webpipe.Ast.Program.{Program, NamedPipeline}
use webpipe.Executor.Example.{greeting}
use webpipe.Loader.Tree.{ModuleInfo, Registry}

abbrev pub program_of : List NamedPipeline → Program
program_of pipelines = record {
  configs = [];
  imports = [];
  pipelines = pipelines;
  variables = [];
  routes = [];
  describes = [];
  graphql_schema = none;
  queries = [];
  mutations = [];
  resolvers = [];
  feature_flags = none;
}

abbrev pub module_a : ModuleInfo
module_a = record {
  path = "/app/a.wp";
  program = program_of [];
  imports = ("lib", "/app/b.wp") ∷ [];
}

abbrev pub module_b : ModuleInfo
module_b = record {
  path = "/app/b.wp";
  program = program_of (record { name = "greet"; pipeline = greeting } ∷ []);
  imports = [];
}

-- The last module comes first: ids do not go by the order of the tree.
abbrev pub tree : Registry
tree = ("/app/b.wp", module_b) ∷ ("/app/a.wp", module_a) ∷ []
