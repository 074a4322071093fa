-- ===== src/Ast/Fmt/Tags.antt =====
-- ast/fmt.rs with ast/parser.rs and executor/tags.rs: a printed tag expression, by the grammar of the
-- parser, and what it means for a step.
use text.Mathlib.TextLemmas.{append-nil, append_assoc}
use webpipe.Base.{ℕ, String, Bool, ◌&&◌, ◌||◌, [], ◌∷◌, ◌≡◌, refl, arith}
use mathlib.Core.Path.{subst}
use webpipe.Base.Text.{format}
use webpipe.Json.{Value}
use webpipe.Executor.Env.{ExecutionEnv}
use webpipe.Executor.Context.{RequestContext}
use webpipe.Executor.Tags.{check_tag_expr}
use webpipe.Ast.{Tag, TagExpr, tag, and, or}
use webpipe.Ast.Fmt.{fmt_tag, fmt_tag_expr, grouped}

pub data Level : Type 0 where
  or_level and_level primary : Level

-- The grammar of `parse_or_expr`, `parse_and_expr` and `parse_tag_primary`, whose folds group to the
-- left, with one space around an operator and the text of a tag for the tag.
pub data Reads (alphanumeric : ℕ → Bool) : Level → String → TagExpr → Type 0 where
  one_tag : (t : Tag) → Reads alphanumeric primary (fmt_tag alphanumeric t) (tag t)
  group :
      {s : String} {e : TagExpr}
      → Reads alphanumeric or_level s e
      → Reads alphanumeric primary (format ("(" ∷ s ∷ ")" ∷ [])) e
  one_primary :
      {s : String} {e : TagExpr} → Reads alphanumeric primary s e → Reads alphanumeric and_level s e
  and_more :
      {s t : String} {e f : TagExpr}
      → Reads alphanumeric and_level s e
      → Reads alphanumeric primary t f
      → Reads alphanumeric and_level (format (s ∷ " and " ∷ t ∷ [])) (and e f)
  one_and :
      {s : String} {e : TagExpr}
      → Reads alphanumeric and_level s e
      → Reads alphanumeric or_level s e
  or_more :
      {s t : String} {e f : TagExpr}
      → Reads alphanumeric or_level s e
      → Reads alphanumeric and_level t f
      → Reads alphanumeric or_level (format (s ∷ " or " ∷ t ∷ [])) (or e f)

-- The expression with its operators grouped to the left.
mutual
  pub regrouped : TagExpr → TagExpr
  regrouped (tag t) = tag t
  regrouped (and l r) = and_onto (regrouped l) r
  regrouped (or l r) = or_onto (regrouped l) r

  and_onto : TagExpr → TagExpr → TagExpr
  and_onto acc (tag t) = and acc (tag t)
  and_onto acc (and l r) = and_onto (and_onto acc l) r
  and_onto acc (or l r) = and acc (or_onto (regrouped l) r)

  or_onto : TagExpr → TagExpr → TagExpr
  or_onto acc (tag t) = or acc (tag t)
  or_onto acc (and l r) = or acc (and_onto (regrouped l) r)
  or_onto acc (or l r) = or_onto (or_onto acc l) r

format_assoc :
    (s op a b : String)
    → format (format (s ∷ op ∷ a ∷ []) ∷ op ∷ b ∷ [])
      ≡ format (s ∷ op ∷ format (a ∷ op ∷ b ∷ []) ∷ [])
unfolding format
format_assoc s op a b = simp (append_assoc, append-nil)

module _ (alphanumeric : ℕ → Bool) where
  -- How an expression reads by itself, and behind an operator.
  record Readable (e : TagExpr) : Type 0 where
    alone : Reads alphanumeric or_level (fmt_tag_expr alphanumeric e) (regrouped e)
    within : Reads alphanumeric and_level (grouped e (fmt_tag_expr alphanumeric e)) (regrouped e)
    behind_and :
        (s : String) (acc : TagExpr)
        → Reads alphanumeric and_level s acc
        → Reads alphanumeric and_level
            (format (s ∷ " and " ∷ grouped e (fmt_tag_expr alphanumeric e) ∷ []))
            (and_onto acc e)
    behind_or :
        (s : String) (acc : TagExpr)
        → Reads alphanumeric or_level s acc
        → Reads alphanumeric or_level
            (format (s ∷ " or " ∷ fmt_tag_expr alphanumeric e ∷ []))
            (or_onto acc e)

  readable : (e : TagExpr) → Readable e
  unfolding fmt_tag_expr regrouped
  readable (tag t) = record {
    alone = one_and (one_primary (one_tag t));
    within = one_primary (one_tag t);
    behind_and = λ s acc h. and_more h (one_tag t);
    behind_or = λ s acc h. or_more h (one_primary (one_tag t));
  }
  readable (and l r) =
      let first = readable l in
      let second = readable r in
      let left = grouped l (fmt_tag_expr alphanumeric l) in
      let right = grouped r (fmt_tag_expr alphanumeric r) in
      let whole = second.behind_and left (regrouped l) first.within in
      record {
        alone = one_and whole;
        within = whole;
        behind_and = λ s acc h.
            subst
              (λ (text : String). Reads alphanumeric and_level text (and_onto (and_onto acc l) r))
              (format_assoc s " and " left right)
              (second.behind_and _ (and_onto acc l) (first.behind_and s acc h));
        behind_or = λ s acc h. or_more h whole;
      }
  readable (or l r) =
      let first = readable l in
      let second = readable r in
      let left = fmt_tag_expr alphanumeric l in
      let right = fmt_tag_expr alphanumeric r in
      let whole = second.behind_or left (regrouped l) first.alone in
      record {
        alone = whole;
        within = one_primary (group whole);
        behind_and = λ s acc h. and_more h (group whole);
        behind_or = λ s acc h.
            subst (λ (text : String). Reads alphanumeric or_level text (or_onto (or_onto acc l) r))
              (format_assoc s " or " left right)
              (second.behind_or _ (or_onto acc l) (first.behind_or s acc h));
      }

module _ {W : Type 0} (env : ExecutionEnv W) (ctx : RequestContext W) (input : Value) where
  abbrev holds : TagExpr → Bool
  holds e = check_tag_expr e env ctx input

  record SameMeaning (e : TagExpr) : Type 0 where
    alone : holds (regrouped e) ≡ holds e
    behind_and : (acc : TagExpr) → holds (and_onto acc e) ≡ (holds acc && holds e)
    behind_or : (acc : TagExpr) → holds (or_onto acc e) ≡ (holds acc || holds e)

  same_meaning : (e : TagExpr) → SameMeaning e
  unfolding check_tag_expr regrouped
  same_meaning (tag t) = record { alone = refl; behind_and = λ acc. refl; behind_or = λ acc. refl }
  same_meaning (and l r) =
      let first = same_meaning l in
      let second = same_meaning r in
      let whole = second.behind_and (regrouped l) in
      record {
        alone = ground (arith, whole, first.alone);
        behind_and =
            λ acc. ground (arith, second.behind_and (and_onto acc l), first.behind_and acc);
        behind_or = λ acc. ground (arith, whole, first.alone);
      }
  same_meaning (or l r) =
      let first = same_meaning l in
      let second = same_meaning r in
      let whole = second.behind_or (regrouped l) in
      record {
        alone = ground (arith, whole, first.alone);
        behind_and = λ acc. ground (arith, whole, first.alone);
        behind_or = λ acc. ground (arith, second.behind_or (or_onto acc l), first.behind_or acc);
      }

  -- A printed tag expression reads, by the grammar of the parser and with the text of each tag read as
  -- that tag, as an expression that lets a step run in the same cases: an `or` within an `and` stands
  -- in parentheses, and operators of one kind are only grouped anew, to the left.
  pub fmt_tag_expr-Reads :
      (alphanumeric : ℕ → Bool) (e : TagExpr)
      → Reads alphanumeric or_level (fmt_tag_expr alphanumeric e) (regrouped e)
        × (check_tag_expr (regrouped e) env ctx input ≡ check_tag_expr e env ctx input)
  fmt_tag_expr-Reads alphanumeric e = ((readable alphanumeric e).alone, (same_meaning e).alone)
