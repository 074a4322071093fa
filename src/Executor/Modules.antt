-- ===== src/Executor/Modules.antt =====
-- executor/modules.rs: the registry of loaded modules. Paths are their texts.
use webpipe.Base.{
  ℕ, String, Option, none, some, List, [], ◌∷◌, nat_eq, if◌then◌else◌, lookup, insert, length,
}

pub record ModuleMetadata : Type 0 where
  pub id : ℕ
  pub path : String
  pub import_map : List (String × ℕ)

pub record ModuleRegistry : Type 0 where
  pub modules : List (ℕ × ModuleMetadata)
  pub path_to_id : List (String × ℕ)

abbrev pub empty : ModuleRegistry
empty = record { modules = []; path_to_id = [] }

unfoldable pub lookup_id : ℕ → List (ℕ × ModuleMetadata) → Option ModuleMetadata
lookup_id i [] = none
lookup_id i ((j, m) ∷ rest) = if nat_eq j i then some m else lookup_id i rest

unfoldable pub get_module : ModuleRegistry → ℕ → Option ModuleMetadata
unfolding lookup_id
get_module r id = lookup_id id r.modules

unfoldable pub get_id_by_path : ModuleRegistry → String → Option ℕ
get_id_by_path r path = lookup path r.path_to_id

unfoldable pub insert_id :
    ℕ → ModuleMetadata → List (ℕ × ModuleMetadata) → List (ℕ × ModuleMetadata)
insert_id i m [] = (i, m) ∷ []
insert_id i m ((j, n) ∷ rest) = if nat_eq j i then (i, m) ∷ rest else (j, n) ∷ insert_id i m rest

unfoldable pub register : ModuleRegistry → String → List (String × ℕ) → ModuleRegistry × ℕ
unfolding insert_id insert
register r path imports =
    let id = length r.modules in
    (
      record {
        modules = insert_id id (record { id = id; path = path; import_map = imports }) r.modules;
        path_to_id = insert path id r.path_to_id;
      },
      id,
    )
