-- ===== src/Server/Flags/Laws.antt =====
-- server.rs: the answer of the search for feature flags, and when it comes to an end.
use mathlib.Core.List.{Memᴰ}
use mathlib.Core.Path.{subst}
use webpipe.Base.{
  ℕ, zero, suc, String, Bool, true, false, Option, none, some, List, [], ◌∷◌, ◌≡◌, refl, ◌↔◌, inl,
  inr, All, All-Memᴰ, arith,
}
use webpipe.Ast.{Pipeline}
use webpipe.Executor.Context.{StateBehavior}
use webpipe.Executor.Env.{PipelineKey}
use webpipe.Server.Flags.{scan_steps, pipeline_needs_flags}
use webpipe.Server.Flags.Asks.{Needs, itself, named, Bounded}
use webpipe.Server.Flags.Found.{found_steps, Explains, scan_steps-Explains}
use webpipe.Server.Flags.Matches.{found_steps-Matches}

module _ (named_pipelines : List (PipelineKey × Pipeline))
    (get_behavior : String → Option StateBehavior) where
  abbrev Answers : Pipeline → Option Bool → Type 0
  Answers p none = ⊥
  Answers p (some true) = Needs named_pipelines get_behavior p
  Answers p (some false) = ¬ Needs named_pipelines get_behavior p

  module _ (needs : Pipeline → Option Bool) (p : Pipeline)
      (within : (q : Pipeline)
        → Memᴰ q (found_steps named_pipelines get_behavior p).1
        → Answers q (needs q)) where
    unneeded :
        (found_steps named_pipelines get_behavior p).0 ≡ false
        → All (λ q. needs q ≡ some false) (found_steps named_pipelines get_behavior p).1
        → Needs named_pipelines get_behavior p
        → ⊥
    unneeded own all (itself e) =
        let e' = (found_steps-Matches named_pipelines get_behavior p p).0.1 e in
        ground (arith, own, e')
    unneeded own all (named {q = q} there k) =
        let m = (found_steps-Matches named_pipelines get_behavior q p).1.1 there in
        subst (Answers q)
          (All-Memᴰ (λ q. needs q ≡ some false) q (found_steps named_pipelines get_behavior p).1 all
            m)
          (within q m) k

    Explains-Answers :
        (o : Option Bool)
        → Explains named_pipelines get_behavior needs (found_steps named_pipelines get_behavior p) o
        → Answers p o
    Explains-Answers none (q, m, e) = subst (Answers q) e (within q m)
    Explains-Answers (some true) (inl e) =
        itself ((found_steps-Matches named_pipelines get_behavior p p).0.0 e)
    Explains-Answers (some true) (inr (q, m, e)) =
        named ((found_steps-Matches named_pipelines get_behavior q p).1.0 m)
          (subst (Answers q) e (within q m))
    Explains-Answers (some false) (own, all) = unneeded own all

  pipeline_needs_flags-Answers :
      (n : ℕ) (p : Pipeline)
      → Bounded named_pipelines get_behavior n p
      → Answers p (pipeline_needs_flags named_pipelines get_behavior n p)
  unfolding Bounded pipeline_needs_flags
  pipeline_needs_flags-Answers zero p h = absurd h
  pipeline_needs_flags-Answers (suc n) p h =
      let needs = pipeline_needs_flags named_pipelines get_behavior n in
      Explains-Answers needs p
        (λ q m.
          pipeline_needs_flags-Answers n q
            (h q ((found_steps-Matches named_pipelines get_behavior q p).1.0 m)))
        (scan_steps named_pipelines get_behavior needs p)
        (scan_steps-Explains named_pipelines get_behavior needs p)

  -- The search comes to an end if names lead from the pipeline to a depth below the fuel. It says
  -- whether, in the pipeline or in one that it names, directly or not, a step has a `@flag` tag or a
  -- `@needs` tag for `flags`, or a case of a `dispatch` has a `@flag` tag. A name counts as it stands:
  -- the alias of `alias::name` is not resolved.
  pub pipeline_needs_flags_decides :
      (n : ℕ) (p : Pipeline)
      → Bounded named_pipelines get_behavior n p
      → (b : Bool) × (pipeline_needs_flags named_pipelines get_behavior n p ≡ some b)
        × ((b ≡ true) ↔ Needs named_pipelines get_behavior p)
  pipeline_needs_flags_decides n p h =
      decided (pipeline_needs_flags named_pipelines get_behavior n p)
        (pipeline_needs_flags-Answers n p h)
    where
      decided :
          (o : Option Bool)
          → Answers p o
          → (b : Bool) × (o ≡ some b) × ((b ≡ true) ↔ Needs named_pipelines get_behavior p)
      decided none k = absurd k
      decided (some true) k = (true, refl, ((λ e. k), (λ k'. refl)))
      decided (some false) k = (false, refl, ((λ e. ground (arith, e)), (λ k'. absurd (k k'))))

  -- Of a pipeline that only names itself, an answer must come from itself.
  Explains-cycle :
      (needs : Pipeline → Option Bool) (p : Pipeline) (o : Option Bool)
      → needs p ≡ none
      → Explains named_pipelines get_behavior needs (false, p ∷ []) o
      → o ≡ none
  Explains-cycle needs p none h k = refl
  Explains-cycle needs p (some true) h (inl e) = ground (arith, e)
  Explains-cycle needs p (some true) h (inr (q, m, e)) =
      let none_either : needs q ≡ none = All-Memᴰ (λ q. needs q ≡ none) q (p ∷ []) (h, tt) m in
      cc (none_either, e)
  Explains-cycle needs p (some false) h (own, (e, _)) = cc (h, e)

  -- A pipeline whose conditions ask for no flags and whose one named pipeline is itself is searched
  -- without end: no fuel is enough.
  pub pipeline_needs_flags_endless :
      (p : Pipeline)
      → found_steps named_pipelines get_behavior p ≡ (false, p ∷ [])
      → (n : ℕ) → pipeline_needs_flags named_pipelines get_behavior n p ≡ none
  unfolding pipeline_needs_flags
  pipeline_needs_flags_endless p h zero = refl
  pipeline_needs_flags_endless p h (suc n) =
      let needs = pipeline_needs_flags named_pipelines get_behavior n in
      let answer = scan_steps named_pipelines get_behavior needs p in
      Explains-cycle needs p answer (pipeline_needs_flags_endless p h n) (
        subst (λ f. Explains named_pipelines get_behavior needs f answer) h
          (scan_steps-Explains named_pipelines get_behavior needs p))
