-- ===== src/Loader/Tests.antt =====
-- The loader on four files: `a.wp` imports `b.wp`, `c.wp` imports itself, `d.wp` does not parse.
use mathlib.Core.List.Memᴰ
use mathlib.Core.Path.{subst}
use webpipe.Base.{
  Bool, any, String, true, false, none, some, List, [], ◌∷◌, ◌≡◌, refl, ◌==◌, if◌then◌else◌,
  is_some, insert, lookup,
}
use webpipe.Base.Text.{format}
use webpipe.Base.Effect.{Result, ok, err, pure, throw, lift, gets, modify, diverge, zoom, ◌>>=◌}
use webpipe.Ast.Program.{Import, Program}
use webpipe.Executor.Error.{circular_import, parse_error}
use webpipe.Executor.Example.{unknown}
use webpipe.Loader.{
  Files, ModuleLoader, new, load_module, format_import_cycle, get_cached, canonical, load_canonical,
  load_file, load_imports, read_program, resolve_import_path, resolve_in, without_last, from_target,
  join_arrows,
}
use webpipe.Loader.Imports.{Ordered, listed, Imports, Reach, direct, imports}
use webpipe.Loader.Invariant.{IsValid}
use webpipe.Loader.Paths.{Finite}
use webpipe.Loader.Laws.{
  new-IsValid, load_module_ends, load_module-IsValid, load_module-acyclic, circular_import-Reach,
  load_module-load_module,
}
use webpipe.Loader.Tree.{ModuleInfo, load_module_tree, load_recursive, collect_imports}

abbrev program_of : List Import → Program
program_of is = record {
  configs = [];
  imports = is;
  pipelines = [];
  variables = [];
  routes = [];
  describes = [];
  graphql_schema = none;
  queries = [];
  mutations = [];
  resolvers = [];
  feature_flags = none;
}

abbrev import : String → Import
import path = record { path = path; alias = path; location = unknown }

abbrev all : List String
all = "a.wp" ∷ "b.wp" ∷ "c.wp" ∷ "d.wp" ∷ []

abbrev resolved : Bool → String → Result String String
resolved true path = ok path
resolved false path = err "No such file or directory"

abbrev here : String → Result String String
here path = resolved (any (λ p. p == path) all) path

abbrev source : String → Result String Program
source text =
    if text == "a.wp"
    then ok (program_of (import "b.wp" ∷ []))
    else if text == "c.wp"
    then ok (program_of (import "c.wp" ∷ []))
    else if text == "b.wp"
    then ok (program_of [])
    else err "expected a route"

abbrev files : Files
files = record {
  canonicalize = here;
  parent = λ path. some "";
  join = λ dir path. path;
  file_name = λ path. some path;
  read_to_string = λ path. ok path;
  parse_program = source;
}

abbrev the_a : Program
the_a = program_of (import "b.wp" ∷ [])

abbrev the_b : Program
the_b = program_of []

abbrev loaded_a : ModuleLoader
loaded_a = record { cache = ("b.wp", the_b) ∷ ("a.wp", the_a) ∷ []; loading_stack = [] }

abbrev stuck : String → ModuleLoader
stuck path = record { cache = []; loading_stack = path ∷ [] }

load_a : load_module files 2 "a.wp" new ≡ some (loaded_a, ok the_a)
unfolding load_module canonical load_canonical load_file load_imports read_program
    resolve_import_path resolve_in get_cached insert lookup ◌>>=◌ lift gets modify pure throw
    diverge without_last
load_a = refl

short_of_fuel : load_module files 1 "a.wp" new ≡ none
unfolding load_module canonical load_canonical load_file load_imports read_program
    resolve_import_path resolve_in get_cached insert lookup ◌>>=◌ lift gets modify pure throw
    diverge without_last
short_of_fuel = refl

load_c : load_module files 2 "c.wp" new ≡ some (stuck "c.wp", err (circular_import "c.wp -> c.wp"))
unfolding load_module canonical load_canonical load_file load_imports read_program
    resolve_import_path resolve_in get_cached insert lookup ◌>>=◌ lift gets modify pure throw
    diverge without_last format_import_cycle from_target join_arrows format
load_c = refl

load_d :
    load_module files 1 "d.wp" new
    ≡ some (stuck "d.wp", err (parse_error "Failed to parse 'd.wp': expected a route"))
unfolding load_module canonical load_canonical load_file load_imports read_program
    resolve_import_path resolve_in get_cached insert lookup ◌>>=◌ lift gets modify pure throw
    diverge without_last format
load_d = refl

resolved-listed :
    (b : Bool) (path a : String)
    → any (λ p. p == path) all ≡ b
    → resolved b path ≡ ok a
    → (listed a all ≡ true) × (here a ≡ ok a)
unfolding listed
resolved-listed true path a h e =
    subst (λ (p : String). (listed p all ≡ true) × (here p ≡ ok p)) {x = path} (cc) (h, rw h refl)
resolved-listed false path a h e = cc

files-Finite : Finite files all
files-Finite = record {
  canonical_listed = λ path a h. (resolved-listed _ path a refl h).0;
  canonical_again = λ path a h. (resolved-listed _ path a refl h).1;
}

stuck-IsValid : IsValid files (stuck "d.wp")
unfolding Ordered lookup
stuck-IsValid = record { ordered = tt; disjoint = λ k h. refl }

a-Imports-b : Imports files "a.wp" "b.wp"
unfolding read_program resolve_import_path resolve_in
a-Imports-b = imports the_a (import "b.wp") refl (Memᴰ.head refl) refl

abbrev info : String → Program → List (String × String) → ModuleInfo
info path program targets = record { path = path; program = program; imports = targets }

tree_a :
    load_module_tree files 3 "a.wp" new
    ≡ some (
      loaded_a,
      ok (
          ("b.wp", info "b.wp" the_b [])
          ∷ ("a.wp", info "a.wp" the_a (("b.wp", "b.wp") ∷ []))
          ∷ []),
    )
unfolding load_module_tree load_recursive collect_imports load_module canonical load_canonical
    load_file load_imports read_program resolve_import_path resolve_in get_cached insert lookup
    ◌>>=◌ lift gets modify pure throw diverge without_last zoom
tree_a = refl

load_module_ends_example : is_some (load_module files 5 "c.wp" (stuck "d.wp")) ≡ true
load_module_ends_example =
    load_module_ends files all files-Finite "c.wp" (stuck "d.wp") stuck-IsValid

load_module-IsValid_example :
    IsValid files loaded_a
    × (loaded_a.loading_stack ≡ [])
    × (lookup "a.wp" loaded_a.cache ≡ some the_a)
load_module-IsValid_example =
    load_module-IsValid files all files-Finite 2 "a.wp" "a.wp" the_a new loaded_a refl
      (new-IsValid files) load_a

load_module-acyclic_example :
    (is_some (lookup "b.wp" loaded_a.cache) ≡ true) × (¬ Reach files "b.wp" "b.wp")
load_module-acyclic_example =
    load_module-acyclic files all files-Finite 2 "a.wp" "a.wp" "b.wp" the_a new loaded_a refl
      (new-IsValid files) load_a (direct a-Imports-b)

circular_import-Reach_example : (k : String) × Reach files k k
circular_import-Reach_example =
    circular_import-Reach files all files-Finite 2 "c.wp" "c.wp -> c.wp" (stuck "c.wp") load_c

load_module-load_module_example :
    load_module files 1 "d.wp" (stuck "d.wp")
    ≡ some (stuck "d.wp", err (circular_import (format_import_cycle files "d.wp" (stuck "d.wp"))))
load_module-load_module_example =
    load_module-load_module files all files-Finite 1 0 "d.wp" "d.wp"
      (parse_error "Failed to parse 'd.wp': expected a route") new (stuck "d.wp") refl
      (new-IsValid files) load_d
