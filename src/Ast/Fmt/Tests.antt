-- ===== src/Ast/Fmt/Tests.antt =====
-- The printer on concrete pieces of a program.
use webpipe.Base.{ℕ, Bool, true, false, [], ◌∷◌, ◌≡◌, refl}
use webpipe.Base.Text.{format, all_chars, split, is_ascii_alphanumeric, decimal}
use webpipe.Json.{null}
use webpipe.Executor.Context.{join, new_context}
use webpipe.Executor.Example.{env, say, unknown}
use webpipe.Executor.Tags.{check_tag_expr}
use webpipe.Ast.{
  TagExpr, tag, and, or, Pipeline, done, step, foreach, result, branch, no_branch, ok,
}
use webpipe.Ast.Fmt.{
  fmt_tag, fmt_tag_arg, fmt_tag_expr, fmt_step, fmt_pipeline, lines_with, lines, text_lines,
  without_return, fmt_regular,
}
use webpipe.Ast.Fmt.Tags.{Reads, or_level, regrouped, fmt_tag_expr-Reads}

abbrev is_alphanumeric : ℕ → Bool
is_alphanumeric = is_ascii_alphanumeric

abbrev dev : TagExpr
dev = tag (record { name = "dev"; negated = true; args = [] })

abbrev guarded : TagExpr
guarded = tag (record { name = "guard"; negated = false; args = ".a > 1" ∷ [] })

abbrev mixed : TagExpr
mixed = and dev (and (or dev guarded) guarded)

mixed_text :
    fmt_tag_expr is_alphanumeric mixed
    ≡ "@!dev and (@!dev or @guard(`.a > 1`)) and @guard(`.a > 1`)"
unfolding fmt_tag_expr fmt_tag fmt_tag_arg all_chars join format
mixed_text = refl

abbrev looped : Pipeline
looped =
    step (foreach "rows" (step (say "jq" ".") done) unknown)
      (step (result (branch ok 200 (step (say "log" "x") done) unknown no_branch) unknown) done)

looped_text :
    fmt_pipeline is_alphanumeric looped
    ≡ "  |> foreach rows\n    |> jq: \".\"\n  end\n  |> result\n    ok(200):\n      |> log: \"x\"\n"
unfolding fmt_pipeline fmt_step fmt_regular lines_with lines text_lines without_return split join
    format decimal
looped_text = refl

fmt_tag_expr-Reads_example :
    Reads is_alphanumeric or_level (fmt_tag_expr is_alphanumeric mixed) (regrouped mixed)
    × (check_tag_expr (regrouped mixed) env (new_context ℕ) null
        ≡ check_tag_expr mixed env (new_context ℕ) null)
fmt_tag_expr-Reads_example = fmt_tag_expr-Reads env (new_context ℕ) null is_alphanumeric mixed
