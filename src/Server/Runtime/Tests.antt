-- ===== src/Server/Runtime/Tests.antt =====
-- The runtime of two modules, and a reference from one to the other.
use webpipe.Base.{ℕ, String, none, some, [], ◌≡◌, refl, insert, lookup}
use webpipe.Base.Text.{split, split_once, trim, is_whitespace, contains}
use webpipe.Ast.{SourceLocation}
use webpipe.Executor.Env.{find_pipeline}
use webpipe.Executor.Example.{services, unknown}
use webpipe.Executor.Modules.{register, insert_id, get_id_by_path}
use webpipe.Executor.Resolver.{parse_scoped_ref, is_valid_identifier_part}
use webpipe.Executor.Step.Regular.{resolve_named_pipeline}
use webpipe.Server.Modules.{set_pipeline_module_info, path_to_id, number_paths}
use webpipe.Server.Modules.Example.{tree, program_of, module_a, module_b}
use webpipe.Server.Modules.Paths.{sort_paths, insert_path, path_le, components_le, text_le}
use webpipe.Server.Runtime.{build_runtime, register_modules, resolve_imports}
use webpipe.Server.Runtime.Laws.{runtime, build_runtime_finds, resolve_named_pipeline-import}
use webpipe.Server.Runtime.Table.{last_named, marked}

abbrev in_a : SourceLocation
in_a = record unknown { module_id = some 0 }

id_of_a :
    get_id_by_path (runtime tree services none (program_of []) none).env.module_registry "/app/a.wp"
    ≡ some 0
unfolding build_runtime get_id_by_path path_to_id number_paths sort_paths insert_path path_le
    components_le text_le split insert lookup register register_modules insert_id resolve_imports
id_of_a = refl

build_runtime_finds_example :
    (i : ℕ) × (get_id_by_path
        (runtime tree services none (program_of []) none).env.module_registry
        "/app/b.wp"
      ≡ some i)
    × ((name : String)
        → find_pipeline
            (some i, name)
            (runtime tree services none (program_of []) none).env.named_pipelines
          ≡ marked
              (set_pipeline_module_info "/app/b.wp" i)
              (last_named name module_b.program.pipelines))
unfolding lookup
build_runtime_finds_example =
    build_runtime_finds tree services none (program_of []) none "/app/b.wp" module_b refl

resolve_named_pipeline-import_example :
    (j : ℕ) × (get_id_by_path
        (runtime tree services none (program_of []) none).env.module_registry
        "/app/b.wp"
      ≡ some j)
    × (resolve_named_pipeline
          (runtime tree services none (program_of []) none).env
          in_a
          "lib::greet"
        ≡ marked
            (set_pipeline_module_info "/app/b.wp" j)
            (last_named "greet" module_b.program.pipelines))
unfolding lookup parse_scoped_ref split_once trim is_whitespace contains is_valid_identifier_part
resolve_named_pipeline-import_example =
    resolve_named_pipeline-import tree services none (program_of []) none "/app/a.wp" module_a
      module_b "lib" "/app/b.wp" "lib::greet" "greet" 0 in_a refl refl refl id_of_a refl refl
