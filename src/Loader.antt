-- ===== src/Loader.antt =====
-- loader.rs: the loader of modules, over the files that the operating system and the parser show.
-- Paths are their texts, and `path.display()` is the path.
pub mod Imports
pub mod Order
pub mod Invariant
pub mod Paths
pub mod Left
pub mod Loads
pub mod Laws
pub mod Tree
pub mod Tests
use webpipe.Base.{
  ℕ, zero, suc, String, Bool, true, false, Option, none, some, List, [], ◌∷◌, ◌++◌, map, ◌==◌,
  if◌then◌else◌, any, lookup, insert,
}
use webpipe.Base.Text.{format}
use webpipe.Base.Effect.{
  Effect, Result, ok, err, pure, throw, lift, gets, modify, diverge, ◌>>=◌, ◌>>◌,
}
use webpipe.Ast.Program.{Import, Program}
use webpipe.Executor.Error.{WebPipeError, import_not_found, circular_import, parse_error}

-- What the loader asks of `std::path`, `std::fs` and the parser; an error is its text.
pub record Files : Type 0 where
  pub canonicalize : String → Result String String
  pub parent : String → Option String
  pub join : String → String → String
  pub file_name : String → Option String
  pub read_to_string : String → Result String String
  pub parse_program : String → Result String Program

pub record ModuleLoader : Type 0 where
  pub cache : List (String × Program)
  pub loading_stack : List String

abbrev pub new : ModuleLoader
new = record { cache = []; loading_stack = [] }

unfoldable pub get_cached : String → ModuleLoader → Option Program
get_cached path loader = lookup path loader.cache

unfoldable pub clear_cache : ModuleLoader → ModuleLoader
clear_cache loader = record loader { cache = [] }

-- `loading_stack.contains(path)`
abbrev pub is_loading : String → ModuleLoader → Bool
is_loading path loader = any (λ p. p == path) loader.loading_stack

abbrev pub push_path : String → ModuleLoader → ModuleLoader
push_path path loader = record loader { loading_stack = loader.loading_stack ++ path ∷ [] }

-- `Vec::pop`
unfoldable pub without_last : List String → List String
without_last [] = []
without_last (p ∷ []) = []
without_last (p ∷ q ∷ ps) = p ∷ without_last (q ∷ ps)

abbrev pub finish : String → Program → ModuleLoader → ModuleLoader
finish path program loader = record {
  cache = insert path program loader.cache;
  loading_stack = without_last loader.loading_stack;
}

abbrev pub map_err :
    {A : Type 0} → (String → WebPipeError) → Result String A → Result WebPipeError A
map_err f (ok a) = ok a
map_err f (err e) = err (f e)

-- `skip_while(|p| p != target)`
unfoldable pub from_target : String → List String → List String
from_target target [] = []
from_target target (p ∷ ps) = if p == target then p ∷ ps else from_target target ps

unfoldable pub join_arrows : List String → String
unfolding format
join_arrows [] = ""
join_arrows (s ∷ []) = s
join_arrows (s ∷ t ∷ rest) = format (s ∷ " -> " ∷ join_arrows (t ∷ rest) ∷ [])

module _ (files : Files) where
  abbrev pub part_name : String → String
  part_name p = elim (files.file_name p) [ none ↦ "?" | some n ↦ n ]

  abbrev pub last_name : String → List String
  last_name p = elim (files.file_name p) [ none ↦ [] | some n ↦ n ∷ [] ]

  unfoldable pub format_import_cycle : String → ModuleLoader → String
  unfolding from_target join_arrows
  format_import_cycle target loader =
      join_arrows (map part_name (from_target target loader.loading_stack) ++ last_name target)

  unfoldable pub canonical : String → Result WebPipeError String
  unfolding format
  canonical path =
      map_err (λ e. import_not_found (format ("Cannot resolve path '" ∷ path ∷ "': " ∷ e ∷ [])))
        (files.canonicalize path)

  unfoldable pub resolve_in : String → String → Option String → Result WebPipeError String
  unfolding format
  resolve_in current import_path none =
      err
        (import_not_found (format ("Cannot determine parent directory of '" ∷ current ∷ "'" ∷ [])))
  resolve_in current import_path (some dir) =
      map_err
        (λ e. import_not_found (
          format ("Cannot resolve import '" ∷ import_path ∷ "' from '" ∷ current ∷ "': " ∷ e ∷ [])))
        (files.canonicalize (files.join dir import_path))

  unfoldable pub resolve_import_path : String → String → Result WebPipeError String
  unfolding resolve_in
  resolve_import_path current import_path = resolve_in current import_path (files.parent current)

  abbrev pub parsed : String → Result WebPipeError String → Result WebPipeError Program
  parsed path (err e) = err e
  parsed path (ok content) =
      map_err (λ e. parse_error (format ("Failed to parse '" ∷ path ∷ "': " ∷ e ∷ [])))
        (files.parse_program content)

  -- The file is read and parsed.
  unfoldable pub read_program : String → Result WebPipeError Program
  unfolding format
  read_program path = parsed path (
      map_err (λ e. import_not_found (format ("Cannot read file '" ∷ path ∷ "': " ∷ e ∷ [])))
        (files.read_to_string path))

  abbrev pub Load : Type 0 → Type 0
  Load = Effect ModuleLoader WebPipeError

  -- The loop over the imports of the file at `current`; `load` is the recursive call.
  unfoldable pub load_imports : (String → Load Program) → String → List Import → Load (Unit {0})
  unfolding resolve_import_path
  load_imports load current [] = pure tt
  load_imports load current (i ∷ is) = do
    import_path ← lift (resolve_import_path current i.path)
    load import_path
    load_imports load current is

  -- From the push on the loading stack on.
  unfoldable pub load_file : (String → Load Program) → String → Load Program
  unfolding read_program load_imports
  load_file load path = do
    modify (push_path path)
    program ← lift (read_program path)
    load_imports load path program.imports
    modify (finish path program)
    pure program

  abbrev pub load_uncached : (String → Load Program) → String → Bool → Load Program
  load_uncached load path true = gets (format_import_cycle path) >>= λ c. throw (circular_import c)
  load_uncached load path false = load_file load path

  abbrev pub load_or_cached : (String → Load Program) → String → Option Program → Load Program
  load_or_cached load path (some program) = pure program
  load_or_cached load path none = gets (is_loading path) >>= load_uncached load path

  unfoldable pub load_canonical : (String → Load Program) → String → Load Program
  unfolding get_cached load_file format_import_cycle
  load_canonical load path = gets (get_cached path) >>= load_or_cached load path

  -- Each call within another takes a unit of fuel.
  unfoldable pub load_module : ℕ → String → Load Program
  unfolding canonical load_canonical
  load_module zero path = diverge
  load_module (suc fuel) path = lift (canonical path) >>= load_canonical (load_module fuel)
