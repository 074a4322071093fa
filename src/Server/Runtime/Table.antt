-- ===== src/Server/Runtime/Table.antt =====
-- server.rs: the table of named pipelines, under insertions and the loops that fill it.
use mathlib.Core.Path.{subst}
use webpipe.Base.{
  ℕ, String, Bool, true, false, Option, none, some, List, [], ◌∷◌, ◌≡◌, refl, ap, ◌∙◌, ◌==◌, ◌&&◌,
  if◌then◌else◌, arith, eq_iff, eq_refl, or_else,
}
use webpipe.Ast.{Pipeline}
use webpipe.Ast.Program.{Program, NamedPipeline, QueryResolver, MutationResolver}
use webpipe.Executor.Env.{PipelineKey, same_module, find_pipeline}
use webpipe.Server.Runtime.{
  Pipelines, insert_pipeline, add_pipelines, add_queries, add_mutations, as_is, local_pipelines,
}

-- The last pipeline of a name.
unfoldable pub last_named : String → List NamedPipeline → Option Pipeline
last_named name [] = none
last_named name (p ∷ ps) =
    or_else (last_named name ps) (if p.name == name then some p.pipeline else none)

abbrev pub marked : (Pipeline → Pipeline) → Option Pipeline → Option Pipeline
marked mark none = none
marked mark (some p) = some (mark p)

abbrev same_key : PipelineKey → PipelineKey → Bool
same_key (m', n') (m, n) = same_module m' m && n' == n

same_key-eq : (k l : PipelineKey) → same_key k l ≡ true → k ≡ l
same_key-eq (none, n) (none, n') h =
    let e : n ≡ n' = ground (arith, h, eq_iff n n') in ap (λ s. (none, s)) e
same_key-eq (some i, n) (some j, n') h =
    let e : n ≡ n' = ground (arith, h, eq_iff n n') in
    let e' : i ≡ j = ground (arith, h) in cc (e, e')
same_key-eq (none, n) (some j, n') h = ground (arith, h)
same_key-eq (some i, n) (none, n') h = ground (arith, h)

same_key_refl : (k : PipelineKey) → same_key k k ≡ true
same_key_refl (none, n) = eq_refl n
same_key_refl (some i, n) = ground (arith, eq_refl n)

-- A test that fails where the other holds may come first.
swapped :
    (a b : Bool) (x y later z : Option Pipeline)
    → (a ≡ true → b ≡ false)
    → later ≡ (if a then x else z)
    → (if b then y else later) ≡ (if a then x else if b then y else z)
swapped true true x y later z apart h = ground (arith, apart refl)
swapped true false x y later z apart h = h
swapped false true x y later z apart h = refl
swapped false false x y later z apart h = h

same_key-apart :
    (key k other : PipelineKey)
    → same_key key k ≡ false
    → same_key k other ≡ true
    → same_key key other ≡ false
same_key-apart key k other h e =
    let k_is : k ≡ other = same_key-eq k other e in subst (λ o. same_key key o ≡ false) k_is h

find_pipeline-insert_pipeline :
    (key other : PipelineKey) (p : Pipeline) (table : Pipelines)
    → find_pipeline other (insert_pipeline key p table)
      ≡ (if same_key key other then some p else find_pipeline other table)
unfolding find_pipeline insert_pipeline
find_pipeline-insert_pipeline (m, n) (m', n') p [] = refl
find_pipeline-insert_pipeline (m, n) (m', n') p ((key, q) ∷ table) =
    placed (same_key key (m, n)) refl (find_pipeline-insert_pipeline (m, n) (m', n') p table)
  where
    placed :
        (b : Bool)
        → same_key key (m, n) ≡ b
        → find_pipeline (m', n') (insert_pipeline (m, n) p table)
          ≡ (if same_key (m, n) (m', n') then some p else find_pipeline (m', n') table)
        → find_pipeline
            (m', n')
            (if b then ((m, n), p) ∷ table else (key, q) ∷ insert_pipeline (m, n) p table)
          ≡ (if same_key (m, n) (m', n')
              then some p
              else if same_key key (m', n')
              then some q
              else find_pipeline (m', n') table)
    placed true h later =
        let alike : same_key key (m', n') ≡ same_key (m, n) (m', n') =
          ap (λ k. same_key k (m', n')) (same_key-eq key (m, n) h) in
        replaced (same_key (m, n) (m', n')) (same_key key (m', n')) alike
      where
        replaced :
            (a b : Bool)
            → b ≡ a
            → (if a then some p else find_pipeline (m', n') table)
              ≡ (if a then some p else if b then some q else find_pipeline (m', n') table)
        replaced true b e = refl
        replaced false true e = ground (arith, e)
        replaced false false e = refl
    placed false h later =
        swapped (same_key (m, n) (m', n')) (same_key key (m', n')) (some p) (some q) _ _
          (same_key-apart key (m, n) (m', n') h) later

find_pipeline-insert_self :
    (key : PipelineKey) (p : Pipeline) (table : Pipelines)
    → find_pipeline key (insert_pipeline key p table) ≡ some p
find_pipeline-insert_self key p table =
    find_pipeline-insert_pipeline key key p table ∙ rw (same_key_refl key) refl

find_pipeline-insert_other :
    (key other : PipelineKey) (p : Pipeline) (table : Pipelines)
    → same_key key other ≡ false
    → find_pipeline other (insert_pipeline key p table) ≡ find_pipeline other table
find_pipeline-insert_other key other p table h =
    find_pipeline-insert_pipeline key other p table ∙ rw h refl

same_key-in_module : (m : Option ℕ) (a b : String) → same_key (m, a) (m, b) ≡ (a == b)
same_key-in_module none a b = refl
same_key-in_module (some i) a b = ground arith

module _ (mark : Pipeline → Pipeline) where
  -- A pipeline that is put in counts unless a later one has its name.
  later_counts :
      (later : Option Pipeline) (b : Bool) (p : Pipeline) (found old : Option Pipeline)
      → found ≡ (if b then some (mark p) else old)
      → or_else (marked mark later) found
        ≡ or_else (marked mark (or_else later (if b then some p else none))) old
  later_counts (some q) b p found old h = refl
  later_counts none true p found old h = h
  later_counts none false p found old h = h

  pub find_pipeline-add_pipelines :
      (m : Option ℕ) (name : String) (ps : List NamedPipeline) (table : Pipelines)
      → find_pipeline (m, name) (add_pipelines m mark ps table)
        ≡ or_else (marked mark (last_named name ps)) (find_pipeline (m, name) table)
  unfolding add_pipelines last_named
  find_pipeline-add_pipelines m name [] table = refl
  find_pipeline-add_pipelines m name (p ∷ ps) table =
      find_pipeline-add_pipelines m name ps (insert_pipeline (m, p.name) (mark p.pipeline) table)
      ∙ later_counts (last_named name ps) (p.name == name) p.pipeline _
          (find_pipeline (m, name) table)
          (find_pipeline-insert_pipeline (m, p.name) (m, name) (mark p.pipeline) table
            ∙ rw (same_key-in_module m p.name name) refl)

  pub find_pipeline-add_other :
      (m other : Option ℕ) (name : String) (ps : List NamedPipeline) (table : Pipelines)
      → same_module m other ≡ false
      → find_pipeline (other, name) (add_pipelines m mark ps table)
        ≡ find_pipeline (other, name) table
  unfolding add_pipelines
  find_pipeline-add_other m other name [] table h = refl
  find_pipeline-add_other m other name (p ∷ ps) table h =
      find_pipeline-add_other m other name ps (insert_pipeline (m, p.name) (mark p.pipeline) table)
        h
      ∙ find_pipeline-insert_other (m, p.name) (other, name) (mark p.pipeline) table
          (ground (arith, h))

  pub find_pipeline-add_queries :
      (i : ℕ) (name : String) (qs : List QueryResolver) (table : Pipelines)
      → find_pipeline (some i, name) (add_queries mark qs table)
        ≡ find_pipeline (some i, name) table
  unfolding add_queries
  find_pipeline-add_queries i name [] table = refl
  find_pipeline-add_queries i name (q ∷ qs) table =
      find_pipeline-add_queries i name qs _
      ∙ find_pipeline-insert_other _ (some i, name) (mark q.pipeline) table refl

  pub find_pipeline-add_mutations :
      (i : ℕ) (name : String) (qs : List MutationResolver) (table : Pipelines)
      → find_pipeline (some i, name) (add_mutations mark qs table)
        ≡ find_pipeline (some i, name) table
  unfolding add_mutations
  find_pipeline-add_mutations i name [] table = refl
  find_pipeline-add_mutations i name (q ∷ qs) table =
      find_pipeline-add_mutations i name qs _
      ∙ find_pipeline-insert_other _ (some i, name) (mark q.pipeline) table refl

-- Outside a module's id nothing is put under it.
pub find_pipeline-local_pipelines :
    (i : ℕ) (name : String) (program : Program)
    → find_pipeline (some i, name) (local_pipelines program) ≡ none
unfolding local_pipelines find_pipeline
find_pipeline-local_pipelines i name program =
    find_pipeline-add_mutations as_is i name program.mutations _
    ∙ find_pipeline-add_queries as_is i name program.queries _
    ∙ find_pipeline-add_other as_is none (some i) name program.pipelines [] refl
