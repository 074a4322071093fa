-- ===== src/Server/Runtime/Symbols.antt =====
-- server.rs: the table of named pipelines, against a lookup in the programs of the modules.
use mathlib.Core.List.{Memᴰ}
use mathlib.Core.List.Memᴰ.{head, tail}
use webpipe.Base.{
  ℕ, String, Bool, true, false, Option, none, some, List, [], ◌∷◌, ◌≡◌, refl, ap, ◌∙◌, ◌==◌, ◌⊎◌,
  inl, inr, lookup, nat_eq, arith, eq_iff, or_else,
}
use webpipe.Ast.{Pipeline}
use webpipe.Ast.Program.{Program}
use webpipe.Executor.Env.{find_pipeline}
use webpipe.Loader.Tree.{ModuleInfo, Registry}
use webpipe.Server.Modules.{set_pipeline_module_info}
use webpipe.Server.Runtime.{
  Pipelines, Variables, local_pipelines, module_pipelines, register_symbols, register_all_symbols,
}
use webpipe.Server.Runtime.Table.{
  last_named, marked, find_pipeline-add_pipelines, find_pipeline-add_other,
  find_pipeline-add_queries, find_pipeline-add_mutations, find_pipeline-local_pipelines,
}

module _ (tree : Registry) (ids : List (String × ℕ)) where
  module _ (path : String) (id : ℕ) (program : Program) (table : Pipelines) (name : String) where
    find_pipeline-own :
        find_pipeline (some id, name) (module_pipelines tree ids path id program table)
        ≡ or_else
            (marked (set_pipeline_module_info path id) (last_named name program.pipelines))
            (find_pipeline (some id, name) table)
    find_pipeline-own =
        find_pipeline-add_mutations (set_pipeline_module_info path id) id name program.mutations _
        ∙ find_pipeline-add_queries (set_pipeline_module_info path id) id name program.queries _
        ∙ find_pipeline-add_pipelines (set_pipeline_module_info path id) (some id) name
            program.pipelines table

    find_pipeline-elsewhere :
        (i : ℕ)
        → nat_eq id i ≡ false
        → find_pipeline (some i, name) (module_pipelines tree ids path id program table)
          ≡ find_pipeline (some i, name) table
    find_pipeline-elsewhere i h =
        find_pipeline-add_mutations (set_pipeline_module_info path id) i name program.mutations _
        ∙ find_pipeline-add_queries (set_pipeline_module_info path id) i name program.queries _
        ∙ find_pipeline-add_other (set_pipeline_module_info path id) (some id) (some i) name
            program.pipelines table h

  -- The module whose pipelines are looked for. Its id is its own.
  module _ (path : String) (i : ℕ) (info : ModuleInfo) (name : String)
      (known : lookup path tree ≡ some info) (numbered : lookup path ids ≡ some i)
      (once : (q : String) → lookup q ids ≡ some i → q ≡ path) where
    told : Option Pipeline
    told = marked (set_pipeline_module_info path i) (last_named name info.program.pipelines)

    found : Pipelines × Variables → Option Pipeline
    found (table, _) = find_pipeline (some i, name) table

    -- A path's turn finds what was there, unless it is the module's own turn.
    turn_elsewhere :
        (q : String) (tables : Pipelines × Variables)
        → (q == path) ≡ false
        → found (register_symbols tree ids q (lookup q tree) (lookup q ids) tables) ≡ found tables
    unfolding found
    turn_elsewhere q (table, vs) h = turn (lookup q tree) (lookup q ids) refl
      where
        turn :
            (o : Option ModuleInfo) (id : Option ℕ)
            → lookup q ids ≡ id
            → found (register_symbols tree ids q o id (table, vs))
              ≡ find_pipeline (some i, name) table
        turn none id e = refl
        turn (some other) none e = refl
        turn (some other) (some j) e =
            find_pipeline-elsewhere q j other.program table name i (apart (nat_eq j i) refl)
          where
            apart : (b : Bool) → nat_eq j i ≡ b → nat_eq j i ≡ false
            apart false k = k
            apart true k =
                let same : j ≡ i = ground (arith, k) in
                let same_path : q ≡ path = once q (e ∙ ap some same) in
                ground (arith, h, eq_iff q path, same_path)

    turn_own :
        (q : String) (tables : Pipelines × Variables)
        → (q == path) ≡ true
        → found (register_symbols tree ids q (lookup q tree) (lookup q ids) tables)
          ≡ or_else told (found tables)
    unfolding found told
    turn_own q (table, vs) h =
        let same : q ≡ path = ground (arith, h, eq_iff q path) in
        rw (same, known, numbered) (find_pipeline-own path i info.program table name)

    Good : Pipelines × Variables → Type 0
    Good tables = (found tables ≡ none) ⊎ (found tables ≡ told)

    or_else-Good :
        (o before : Option Pipeline) → (before ≡ none) ⊎ (before ≡ o) → or_else o before ≡ o
    or_else-Good none before (inl e) = e
    or_else-Good none before (inr e) = e
    or_else-Good (some p) before h = refl

    after_turn : String → Pipelines × Variables → Pipelines × Variables
    after_turn q tables = register_symbols tree ids q (lookup q tree) (lookup q ids) tables

    -- A turn leaves a good table good, and its own turn tells what the module has.
    turn-Good :
        (q : String) (tables : Pipelines × Variables) → Good tables → Good (after_turn q tables)
    unfolding Good after_turn
    turn-Good q tables h = by_path (q == path) refl
      where
        by_path : (b : Bool) → (q == path) ≡ b → Good (after_turn q tables)
        by_path true e = inr (turn_own q tables e ∙ or_else-Good told (found tables) h)
        by_path false e = elim h [
          | inl k ↦ inl (turn_elsewhere q tables e ∙ k)
          | inr k ↦ inr (turn_elsewhere q tables e ∙ k)
        ]

    found-after_turn :
        (q : String) (tables : Pipelines × Variables)
        → found tables ≡ told
        → found (after_turn q tables) ≡ told
    unfolding after_turn
    found-after_turn q tables h = by_path (q == path) refl
      where
        by_path : (b : Bool) → (q == path) ≡ b → found (after_turn q tables) ≡ told
        by_path true e = turn_own q tables e ∙ or_else-Good told (found tables) (inr h)
        by_path false e = turn_elsewhere q tables e ∙ h

    found_after :
        (paths : List String) (tables : Pipelines × Variables)
        → found tables ≡ told
        → found (register_all_symbols tree ids paths tables) ≡ told
    unfolding register_all_symbols after_turn
    found_after [] tables h = h
    found_after (q ∷ paths) tables h =
        found_after paths (after_turn q tables) (found-after_turn q tables h)

    found-Memᴰ :
        (paths : List String) (tables : Pipelines × Variables)
        → Memᴰ path paths
        → Good tables
        → found (register_all_symbols tree ids paths tables) ≡ told
    unfolding register_all_symbols after_turn Good
    found-Memᴰ [] tables m h = elim m [ ]
    found-Memᴰ (q ∷ paths) tables (head e) h =
        found_after paths (after_turn q tables) (
          turn_own q tables (ground (arith, e, eq_iff q path)) ∙ or_else-Good told (found tables) h)
    found-Memᴰ (q ∷ paths) tables (tail m) h =
        found-Memᴰ paths (after_turn q tables) m (turn-Good q tables h)

  -- A module's pipelines are found under its id: the last one of a name, marked as the module's.
  pub find_pipeline-register_all_symbols :
      (program : Program) (vs : Variables) (paths : List String) (path : String) (i : ℕ)
      (info : ModuleInfo) (name : String)
      → Memᴰ path paths
      → lookup path tree ≡ some info
      → lookup path ids ≡ some i
      → ((q : String) → lookup q ids ≡ some i → q ≡ path)
      → find_pipeline
          (some i, name)
          (register_all_symbols tree ids paths (local_pipelines program, vs)).0
        ≡ marked (set_pipeline_module_info path i) (last_named name info.program.pipelines)
  unfolding found told Good
  find_pipeline-register_all_symbols program vs paths path i info name m known numbered once =
      found-Memᴰ path i info name known numbered once paths (local_pipelines program, vs) m
        (inl (find_pipeline-local_pipelines i name program))
