-- ===== src/Server/Runtime/Laws.antt =====
-- server.rs: what a pipeline of a module and a reference to an imported one stand for at run time.
use mathlib.Core.Path.{subst}
use mathlib.Core.List.{Memᴰ}
use mathlib.Core.List.Memᴰ.{head, tail}
use webpipe.Base.{
  ℕ, String, Bool, true, false, Option, none, some, List, [], ◌∷◌, ◌≡◌, refl, sym, ◌∙◌, ◌==◌, map,
  All, All-of, lookup, lookup-insert, eq_iff, arith, if◌then◌else◌,
}
use webpipe.Ast.{SourceLocation}
use webpipe.Ast.Program.{Program}
use webpipe.Executor.Modules.{get_module, get_id_by_path}
use webpipe.Executor.Env.{Services, find_pipeline}
use webpipe.Executor.Resolver.{parse_scoped_ref, resolve_alias}
use webpipe.Executor.Step.Regular.{resolve_named_pipeline}
use webpipe.Loader.Tree.{ModuleInfo, Registry}
use webpipe.Server.Modules.{set_pipeline_module_info, path_to_id, paths_of}
use webpipe.Server.Modules.Paths.{Memᴰ-sort_paths, All-sort_paths}
use webpipe.Server.Runtime.{resolve_imports, with_import, build_runtime, BuiltRuntime}
use webpipe.Server.Runtime.Ids.{registered_path, registered_module}
use webpipe.Server.Runtime.Numbers.{Known, described, number_paths-Distinct, number_paths-Memᴰ}
use webpipe.Server.Runtime.Symbols.{find_pipeline-register_all_symbols}
use webpipe.Server.Runtime.Table.{last_named, marked}

abbrev keys : Registry → List String
keys tree = map (λ (path, _). path) tree

lookup-Memᴰ :
    (path : String) (tree : Registry) (info : ModuleInfo)
    → lookup path tree ≡ some info
    → Memᴰ path (keys tree)
unfolding lookup
lookup-Memᴰ path [] info h = ground (arith, h)
lookup-Memᴰ path ((k, other) ∷ tree) info h =
    placed (k == path) refl h (λ e. lookup-Memᴰ path tree info e)
  where
    placed :
        (b : Bool)
        → (k == path) ≡ b
        → (if b then some other else lookup path tree) ≡ some info
        → (lookup path tree ≡ some info → Memᴰ path (keys tree))
        → Memᴰ path (k ∷ keys tree)
    placed true e h later = head (ground (arith, e, eq_iff k path))
    placed false e h later = tail (later h)

Memᴰ-Known : (path : String) (tree : Registry) → Memᴰ path (keys tree) → Known tree path
unfolding lookup
Memᴰ-Known path [] m = elim m [ ]
Memᴰ-Known path ((k, info) ∷ tree) m = placed (k == path) refl m (λ m'. Memᴰ-Known path tree m')
  where
    placed :
        (b : Bool)
        → (k == path) ≡ b
        → Memᴰ path (k ∷ keys tree)
        → (Memᴰ path (keys tree) → Known tree path)
        → (found : ModuleInfo) × ((if b then some info else lookup path tree) ≡ some found)
    placed true e m later = (info, refl)
    placed false e (head e') later = ground (arith, e, e', eq_iff k path)
    placed false e (tail m) later = later m

paths_of-Known : (tree : Registry) → All (Known tree) (paths_of tree)
paths_of-Known tree =
    All-sort_paths (Known tree) (keys tree)
      (All-of (Known tree) (keys tree) (λ path m. Memᴰ-Known path tree m))

lookup-resolve_imports :
    (ids : List (String × ℕ)) (imports : List (String × String)) (alias target : String) (i : ℕ)
    → lookup alias imports ≡ some target
    → lookup target ids ≡ some i
    → lookup alias (resolve_imports ids imports) ≡ some i
unfolding resolve_imports lookup
lookup-resolve_imports ids [] alias target i h k = ground (arith, h)
lookup-resolve_imports ids ((a, t) ∷ more) alias target i h k =
    placed (a == alias) refl h (λ e. lookup-resolve_imports ids more alias target i e k)
  where
    later : List (String × ℕ)
    later = resolve_imports ids more

    past :
        (o : Option ℕ)
        → (a == alias) ≡ false
        → lookup alias later ≡ some i
        → lookup alias (with_import a o later) ≡ some i
    past none e h' = h'
    past (some j) e h' = lookup-insert later a alias j ∙ rw e h'

    placed :
        (b : Bool)
        → (a == alias) ≡ b
        → (if b then some t else lookup alias more) ≡ some target
        → (lookup alias more ≡ some target → lookup alias later ≡ some i)
        → lookup alias (with_import a (lookup t ids) later) ≡ some i
    placed true e h ih =
        let same : t ≡ target = ground (arith, h) in
        rw (same, k) (lookup-insert later a alias i ∙ rw e refl)
    placed false e h ih = past (lookup t ids) e (ih h)

module _ (tree : Registry) where
  ids : List (String × ℕ)
  ids = path_to_id tree

  -- Each module of the tree has an id, which is of no other path.
  numbered :
      (path : String) (info : ModuleInfo)
      → lookup path tree ≡ some info
      → (i : ℕ) × (lookup path ids ≡ some i)
  unfolding ids path_to_id
  numbered path info h =
      number_paths-Memᴰ path 0 (paths_of tree) []
        (Memᴰ-sort_paths path (keys tree) (lookup-Memᴰ path tree info h))

  ids-once : (p q : String) (i : ℕ) → lookup p ids ≡ some i → lookup q ids ≡ some i → q ≡ p
  unfolding ids path_to_id lookup
  ids-once p q i h k =
      let (n, distinct) =
        number_paths-Distinct 0 (paths_of tree) []
          ((λ p' k' e. ground (arith, e)), (λ p' q' k' e e'. ground (arith, e))) in
      distinct.1 q p i k h

  module _ {W : Type 0} (services : Services W) (environment : Option String) (program : Program)
      (root : Option String) where
    abbrev pub runtime : BuiltRuntime W
    runtime = build_runtime services environment program (some tree) root

    found_under :
        (path : String) (info : ModuleInfo) (i : ℕ) (name : String)
        → lookup path tree ≡ some info
        → lookup path ids ≡ some i
        → find_pipeline (some i, name) runtime.env.named_pipelines
          ≡ marked (set_pipeline_module_info path i) (last_named name info.program.pipelines)
    unfolding ids build_runtime
    found_under path info i name h k =
        find_pipeline-register_all_symbols tree (path_to_id tree) program _ (paths_of tree) path i
          info name (Memᴰ-sort_paths path (keys tree) (lookup-Memᴰ path tree info h)) h k
          (λ q e. ids-once path q i k e)

    known_id :
        (path : String) (i : ℕ)
        → lookup path ids ≡ some i
        → get_id_by_path runtime.env.module_registry path ≡ some i
    unfolding ids build_runtime path_to_id
    known_id path i h =
        registered_path tree (path_to_id tree) (paths_of tree) path i (paths_of-Known tree) h

    known_module :
        (path : String) (info : ModuleInfo) (i : ℕ)
        → lookup path tree ≡ some info
        → lookup path ids ≡ some i
        → get_module runtime.env.module_registry i ≡ some (described ids i path info)
    unfolding ids build_runtime path_to_id
    known_module path info i h k =
        registered_module tree (path_to_id tree) (paths_of tree) path i info (paths_of-Known tree) h
          k

    -- Every module of the tree has an id in the registry, and under that id the runtime finds the last
    -- pipeline of each name in the module's own program, marked as the module's, and nothing else.
    pub build_runtime_finds :
        (path : String) (info : ModuleInfo)
        → lookup path tree ≡ some info
        → (i : ℕ) × (get_id_by_path runtime.env.module_registry path ≡ some i)
          × ((name : String)
              → find_pipeline (some i, name) runtime.env.named_pipelines
                ≡ marked (set_pipeline_module_info path i) (last_named name info.program.pipelines))
    build_runtime_finds path info h =
        let (i, k) = numbered path info h in
        (i, known_id path i k, λ name. found_under path info i name h k)

    -- In a step of a module, `alias::name` stands for the last pipeline of that name in the program of
    -- the module that the alias imports, marked as that module's; if the tree has both modules.
    pub resolve_named_pipeline-import :
        (path : String) (info target_info : ModuleInfo) (alias target text name : String) (i : ℕ)
        (location : SourceLocation)
        → lookup path tree ≡ some info
        → lookup alias info.imports ≡ some target
        → lookup target tree ≡ some target_info
        → get_id_by_path runtime.env.module_registry path ≡ some i
        → location.module_id ≡ some i
        → parse_scoped_ref text ≡ (some alias, name)
        → (j : ℕ) × (get_id_by_path runtime.env.module_registry target ≡ some j)
          × (resolve_named_pipeline runtime.env location text
              ≡ marked
                  (set_pipeline_module_info target j)
                  (last_named name target_info.program.pipelines))
    unfolding resolve_named_pipeline resolve_alias
    resolve_named_pipeline-import path info target_info alias target text name i location h imported
          h' k in_module scoped =
        let (i', numbered_i) = numbered path info h in
        let (j, numbered_j) = numbered target target_info h' in
        let same : some i ≡ some i' = sym k ∙ known_id path i' numbered_i in
        let here : get_module runtime.env.module_registry i ≡ some (described ids i' path info) =
          subst (λ n. get_module runtime.env.module_registry n ≡ some (described ids i' path info))
            (ground (arith, same)) (known_module path info i' h numbered_i) in
        (
          j,
          known_id target j numbered_j,
          rw
              (
                scoped,
                in_module,
                here,
                lookup-resolve_imports ids info.imports alias target j imported numbered_j,
              )
              (found_under target target_info j name h' numbered_j),
        )
