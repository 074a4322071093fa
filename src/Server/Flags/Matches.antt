-- ===== src/Server/Flags/Matches.antt =====
-- server.rs: the search finds in a pipeline what the pipeline asks for, and the pipelines it names.
use mathlib.Core.List.{Memᴰ}
use mathlib.Core.List.Memᴰ
use webpipe.Base.{
  ℕ, String, false, Option, none, some, List, [], ◌≡◌, refl, sym, ap, ◌⊎◌, inl, inr, arith, ◌==◌,
  eq_iff, Bool-cases, Option-cases,
}
use webpipe.Base.Text.{trim}
use webpipe.Ast.{
  TagExpr, Regular, Pipeline, done, step, regular, result, if_else, dispatch, foreach, no_pipeline,
  a_pipeline, no_branch, branch, no_case, case,
}
use webpipe.Executor.Context.{StateBehavior}
use webpipe.Executor.Env.{PipelineKey, find_pipeline}
use webpipe.Server.Flags.{tag_expr_has_flag, find_target, is_shorthand, referenced}
use webpipe.Server.Flags.Found.{
  Found, both, listed, found_steps, found_step, found_optional, found_branches, found_cases,
}
use webpipe.Server.Flags.Asks.{
  SomeTag, IsFlag, Asks, Somewhere, InStep, InOptional, InBranches, InCases, Resolves, Names,
}
use webpipe.Server.Flags.Tested.{Tests, Tests-or, Tests-tag_expr_has_flag, Tests-condition_needs}

-- What was found says whether there is a proof of the one, and whether `q` has one of the other.
abbrev Matches : Pipeline → Found → Type 0 → Type 0 → Type 0
Matches q (b, ps) X Y = Tests b X × ((Memᴰ q ps → Y) × (Y → Memᴰ q ps))

Matches-both :
    (q : Pipeline) (f g : Found) (X X' Y Y' : Type 0)
    → Matches q f X Y
    → Matches q g X' Y'
    → Matches q (both f g) (X ⊎ X') (Y ⊎ Y')
Matches-both q (b, ps) (c, qs) X X' Y Y' (t, (h, k)) (t', (h', k')) = (
  Tests-or b c X X' t t',
  (
    (λ m. elim (Memᴰ.append_cases ps m) [ inl l ↦ inl (h l) | inr r ↦ inr (h' r) ]),
    (λ y. elim y [ inl l ↦ Memᴰ.append_left qs (k l) | inr r ↦ Memᴰ.append_right ps (k' r) ]),
  ),
)

Matches-nothing : (q : Pipeline) → Matches q (false, []) ⊥ ⊥
Matches-nothing q = (
  ((λ e. absurd (ground arith)), (λ k. absurd k)),
  ((λ m. absurd (Memᴰ.not-nil m)), (λ k. absurd k)),
)

listed-some : (o : Option Pipeline) (q : Pipeline) → Memᴰ q (listed o) → o ≡ some q
listed-some none q m = absurd (Memᴰ.not-nil m)
listed-some (some p) q m = elim (Memᴰ.cases_cons m) [
  | inl same ↦ ap some (sym same)
  | inr later ↦ absurd (Memᴰ.not-nil later)
]

some-listed : (o : Option Pipeline) (q : Pipeline) → o ≡ some q → Memᴰ q (listed o)
some-listed none q e = absurd (ground arith)
some-listed (some p) q e = Memᴰ.head (ground arith)

module _ (named_pipelines : List (PipelineKey × Pipeline))
    (get_behavior : String → Option StateBehavior) where
  find_target-Resolves :
      (module_id : Option ℕ) (name : String) (q : Pipeline)
      → find_target named_pipelines get_behavior module_id name ≡ some q
      → Resolves named_pipelines get_behavior module_id name q
  unfolding find_target
  find_target-Resolves module_id name q h =
      elim (Option-cases (find_pipeline (module_id, name) named_pipelines)) [
        | inr (p, here) ↦ inl (ground arith)
        | inl missing ↦ elim (Option-cases module_id) [
          | inl root ↦ absurd (ground arith)
          | inr (id, own) ↦ inr (missing, (λ e. ground arith), ground arith)
        ]
      ]

  Resolves-find_target :
      (module_id : Option ℕ) (name : String) (q : Pipeline)
      → Resolves named_pipelines get_behavior module_id name q
      → find_target named_pipelines get_behavior module_id name ≡ some q
  unfolding find_target
  Resolves-find_target none name q (inl own) = rw (find_target, own) refl
  Resolves-find_target (some id) name q (inl own) = rw (find_target, own) refl
  Resolves-find_target none name q (inr (missing, inside, root)) = absurd (inside refl)
  Resolves-find_target (some id) name q (inr (missing, inside, root)) =
      rw (find_target, missing, root) refl

  referenced-Names :
      (r : Regular) (q : Pipeline)
      → referenced named_pipelines get_behavior r ≡ some q
      → Names named_pipelines get_behavior q r
  unfolding referenced
  referenced-Names r q h = elim (Bool-cases (r.name == "pipeline")) [
    | inl call ↦ inl (
      ground (arith, eq_iff r.name "pipeline"),
      find_target-Resolves r.location.module_id (trim r.config) q (ground arith),
    )
    | inr plain ↦ elim (Bool-cases (is_shorthand named_pipelines get_behavior r)) [
      | inr other ↦ absurd (ground arith)
      | inl short ↦ elim (Option-cases (get_behavior r.name)) [
        | inr (b, known) ↦ absurd (ground arith)
        | inl unknown ↦ inr (
          (λ e. ground (arith, eq_iff r.name "pipeline")),
          ground arith,
          (λ e. ground (arith, eq_iff r.name "loader")),
          unknown,
          find_target-Resolves r.location.module_id (trim r.name) q (ground arith),
        )
      ]
    ]
  ]

  pub Names-referenced :
      (r : Regular) (q : Pipeline)
      → Names named_pipelines get_behavior q r
      → referenced named_pipelines get_behavior r ≡ some q
  unfolding referenced
  Names-referenced r q (inl (call, target)) =
      let found = Resolves-find_target r.location.module_id (trim r.config) q target in
      ground (arith, eq_iff r.name "pipeline")
  Names-referenced r q (inr (plain, bare, no_loader, unknown, target)) =
      let found = Resolves-find_target r.location.module_id (trim r.name) q target in
      ground (arith, eq_iff r.name "pipeline", eq_iff r.name "loader")

  module _ (q : Pipeline) where
    abbrev Step : Regular → Type 0
    Step r = Asks r.condition

    abbrev HasFlag : TagExpr → Type 0
    HasFlag c = SomeTag IsFlag c

    abbrev Named : Regular → Type 0
    Named r = Names named_pipelines get_behavior q r

    abbrev Nothing : TagExpr → Type 0
    Nothing c = ⊥

    Matches-regular :
        (r : Regular)
        → Matches q (found_step named_pipelines get_behavior (regular r)) (Step r) (Named r)
    unfolding found_step
    Matches-regular r =
        let o = referenced named_pipelines get_behavior r in
        let (f, g) = Tests-condition_needs r.condition in
        (
          ((λ e. f (ground arith)), (λ k. let own = g k in ground arith)),
          (
            (λ m. referenced-Names r q (listed-some o q m)),
            (λ k. some-listed o q (Names-referenced r q k)),
          ),
        )

    Matches-case : (c : TagExpr) → Matches q (tag_expr_has_flag c, []) (HasFlag c) (Nothing c)
    Matches-case c = (Tests-tag_expr_has_flag c, ((λ m. absurd (Memᴰ.not-nil m)), (λ k. absurd k)))

    -- What is found in a pipeline is what it asks for and names.
    pub found_steps-Matches :
        (p : Pipeline)
        → Matches q
            (found_steps named_pipelines get_behavior p)
            (Somewhere Step HasFlag p)
            (Somewhere Named Nothing p)
    unfolding found_steps Somewhere
    found_steps-Matches p =
        elim p
          as (λ p.
            Matches q (found_steps named_pipelines get_behavior p) (Somewhere Step HasFlag p)
              (Somewhere Named Nothing p)) (λ s.
                Matches q (found_step named_pipelines get_behavior s) (InStep Step HasFlag s)
                  (InStep Named Nothing s)) (λ o.
                    Matches q (found_optional named_pipelines get_behavior o)
                      (InOptional Step HasFlag o) (InOptional Named Nothing o)) (λ bs.
                        Matches q (found_branches named_pipelines get_behavior bs)
                          (InBranches Step HasFlag bs) (InBranches Named Nothing bs)) (λ cs.
                            Matches q (found_cases named_pipelines get_behavior cs)
                              (InCases Step HasFlag cs) (InCases Named Nothing cs)) [
                                | done ↦ Matches-nothing q
                                | step (s → first) (p → rest) ↦
                                    Matches-both q _ _ _ _ _ _ first rest
                                | regular r ↦ Matches-regular r
                                | result (bs → h) l ↦ h
                                | if_else (c → hc) (a → ha) (e → he) l ↦
                                    Matches-both q _ _ _ _ _ _ hc (Matches-both q _ _ _ _ _ _ ha he)
                                | dispatch (cs → hc) (d → hd) l ↦ Matches-both q _ _ _ _ _ _ hc hd
                                | foreach _ (p → h) _ ↦ h
                                | no_pipeline ↦ Matches-nothing q
                                | a_pipeline (p → h) ↦ h
                                | no_branch ↦ Matches-nothing q
                                | branch _ _ (p → h) _ (more → hm) ↦ Matches-both q _ _ _ _ _ _ h hm
                                | no_case ↦ Matches-nothing q
                                | case c (p → h) _ (more → hm) ↦
                                    Matches-both q _ _ _ _ _ _ (Matches-case c)
                                      (Matches-both q _ _ _ _ _ _ h hm)
                              ]
