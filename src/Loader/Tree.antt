-- ===== src/Loader/Tree.antt =====
-- loader.rs: `load_module_tree`, which collects a module and all that it imports.
use webpipe.Base.{
  ℕ, zero, suc, String, Bool, true, false, Option, none, some, List, [], ◌∷◌, is_some, lookup,
  insert,
}
use webpipe.Base.Effect.{
  Effect, Result, ok, err, pure, lift, gets, modify, diverge, zoom, ◌>>=◌, ◌>>◌,
}
use webpipe.Ast.Program.{Import, Program}
use webpipe.Executor.Error.{WebPipeError}
use webpipe.Loader.{Files, ModuleLoader, canonical, resolve_import_path, load_module}

pub record ModuleInfo : Type 0 where
  pub path : String
  pub program : Program
  pub imports : List (String × String)

abbrev pub Registry : Type 0
Registry = List (String × ModuleInfo)

-- On the loader and the registry.
abbrev pub Collect : Type 0 → Type 0
Collect = Effect (ModuleLoader × Registry) WebPipeError

abbrev is_registered : String → ModuleLoader × Registry → Bool
is_registered path (loader, registry) = is_some (lookup path registry)

abbrev register :
    String → Program → List (String × String) → ModuleLoader × Registry → ModuleLoader × Registry
register path program import_map (loader, registry) =
    (loader, insert path (record { path = path; program = program; imports = import_map }) registry)

abbrev with_loader : ModuleLoader → ModuleLoader × Registry → ModuleLoader × Registry
with_loader loader (_, registry) = (loader, registry)

abbrev the_loader : ModuleLoader × Registry → ModuleLoader
the_loader (loader, _) = loader

module _ (files : Files) where
  -- The loop over the imports, on the import map so far; `collect` is the recursive call.
  unfoldable pub collect_imports :
      (String → Collect (Unit {0}))
      → String
      → List (String × String)
      → List Import
      → Collect (List (String × String))
  unfolding resolve_import_path
  collect_imports collect current import_map [] = pure import_map
  collect_imports collect current import_map (i ∷ is) = do
    import_path ← lift (resolve_import_path files current i.path)
    collect import_path
    collect_imports collect current (insert i.alias import_path import_map) is

  abbrev collect_new : ℕ → (String → Collect (Unit {0})) → String → Bool → Collect (Unit {0})
  collect_new fuel collect path true = pure tt
  collect_new fuel collect path false = do
    program ← zoom the_loader with_loader (load_module files fuel path)
    import_map ← collect_imports collect path [] program.imports
    modify (register path program import_map)

  -- `load_recursive`: each call within another takes a unit of fuel.
  unfoldable pub load_recursive : ℕ → String → Collect (Unit {0})
  unfolding canonical load_module collect_imports
  load_recursive zero path = diverge
  load_recursive (suc fuel) path = do
    abs_path ← lift (canonical files path)
    known ← gets (is_registered abs_path)
    collect_new (suc fuel) (load_recursive fuel) abs_path known

  abbrev collected :
      Option ((ModuleLoader × Registry) × Result WebPipeError (Unit {0}))
      → Option (ModuleLoader × Result WebPipeError Registry)
  collected none = none
  collected (some ((loader, registry), ok _)) = some (loader, ok registry)
  collected (some ((loader, registry), err e)) = some (loader, err e)

  unfoldable pub load_module_tree : ℕ → String → Effect ModuleLoader WebPipeError Registry
  unfolding load_recursive
  load_module_tree fuel root_path loader = collected (load_recursive fuel root_path (loader, []))
