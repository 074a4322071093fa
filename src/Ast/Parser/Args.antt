-- ===== src/Ast/Parser/Args.antt =====
-- ast/parser.rs with ast/fmt.rs: the arguments of a step, as they are printed and read back.
use Prim.Native.String
use text.Mathlib.TextLemmas.{nil-append, cons-append, append-nil}
use webpipe.Base.{String, false, List, [], ◌∷◌, ◌≡◌, refl, sym, ap, ◌∙◌, ◌==◌, arith, All, eq_iff}
use webpipe.Base.Text.{trim, trim_end, trim_start, format, is_whitespace}
use webpipe.Base.Text.Blank.{trim-append, trim-cons}
use webpipe.Executor.Context.{join}
use webpipe.Ast.Parser.{scan_char, scan_args, split_balanced_args}
use webpipe.Ast.Parser.Balanced.{Balanced, at_depth, scan_args-Balanced}

-- An argument: not empty, without white space at its ends, its brackets and quotes closed, and no
-- comma outside of them.
pub record IsArg (a : String) : Type 0 where
  pub balanced : Balanced false a
  pub trimmed : trim a ≡ a
  pub not_empty : (a == "") ≡ false

abbrev Lead : String → Type 0
Lead lead = (a : String) → trim (String.◌++◌ lead a) ≡ trim a

no-Lead : Lead ""
no-Lead a = ap trim (nil-append a)

space-Lead : Lead " "
unfolding is_whitespace
space-Lead a =
    ap trim (cons-append " " String.[] a ∙ ap (String.◌∷◌ " ") (nil-append a))
    ∙ trim-cons " " a refl

Lead-arg : (lead a : String) → Lead lead → IsArg a → trim (String.◌++◌ lead a) ≡ a
Lead-arg lead a leads arg = leads a ∙ arg.trimmed

scan_args-last :
    (lead a : String)
    → Lead lead
    → IsArg a
    → scan_args (at_depth (String.◌++◌ lead a) 0 false) String.[] ≡ a ∷ []
unfolding scan_args
scan_args-last lead a leads arg = rw (Lead-arg lead a leads arg, arg.not_empty) refl

scan_args-comma :
    (lead a rest : String)
    → Lead lead
    → IsArg a
    → scan_args (at_depth (String.◌++◌ lead a) 0 false) (String.◌∷◌ "," (String.◌∷◌ " " rest))
      ≡ a ∷ scan_args (at_depth " " 0 false) rest
unfolding scan_args scan_char
scan_args-comma lead a rest leads arg =
    rw (Lead-arg lead a leads arg)
      (ap (λ r. a ∷ scan_args (at_depth r 0 false) rest) (nil-append " "))

join-cons :
    (a b : String) (args : List String)
    → join ", " (a ∷ b ∷ args)
      ≡ String.◌++◌ a (String.◌∷◌ "," (String.◌∷◌ " " (join ", " (b ∷ args))))
unfolding join format
join-cons a b args =
    let rest = join ", " (b ∷ args) in
    ap (λ r. String.◌++◌ a r)
      (cons-append "," " " (String.◌++◌ rest "")
        ∙ ap (String.◌∷◌ ",") (
            cons-append " " "" (String.◌++◌ rest "")
            ∙ ap (String.◌∷◌ " ") (nil-append (String.◌++◌ rest "") ∙ append-nil rest)))

scan_args-join :
    (lead a : String) (args : List String)
    → Lead lead
    → IsArg a
    → All IsArg args
    → scan_args (at_depth lead 0 false) (join ", " (a ∷ args)) ≡ a ∷ args
unfolding join
scan_args-join lead a [] leads arg all =
    ap (scan_args (at_depth lead 0 false)) (sym (append-nil a))
    ∙ (scan_args-Balanced arg.balanced lead 0 String.[] refl ∙ scan_args-last lead a leads arg)
scan_args-join lead a (b ∷ args) leads arg (next, all) =
    ap (scan_args (at_depth lead 0 false)) (join-cons a b args)
    ∙ (scan_args-Balanced arg.balanced lead 0 _ refl
        ∙ (scan_args-comma lead a (join ", " (b ∷ args)) leads arg
            ∙ ap (λ r. a ∷ r) (scan_args-join " " b args space-Lead next all)))

not_blank : (a rest : String) → IsArg a → (trim (String.◌++◌ a rest) == "") ≡ false
not_blank a rest arg =
    let blank = trim-append a rest in
    ground
      (arith, blank, eq_iff (trim (String.◌++◌ a rest)) "", arg.trimmed, arg.not_empty, eq_iff a "")

join-not_blank :
    (a : String) (args : List String) → IsArg a → (trim (join ", " (a ∷ args)) == "") ≡ false
unfolding join
join-not_blank a [] arg = rw (arg.trimmed) arg.not_empty
join-not_blank a (b ∷ args) arg = rw (join-cons a b args) (not_blank a _ arg)

-- Arguments of a step that are printed one after another, with a comma and a space between them, are
-- read back as they were: if none is empty or begins or ends with white space, the brackets and the
-- quotes of each are closed, and its commas stand within brackets or quotes.
pub split_balanced_args-join :
    (args : List String) → All IsArg args → split_balanced_args (join ", " args) ≡ args
unfolding split_balanced_args join trim trim_end trim_start
split_balanced_args-join [] all = refl
split_balanced_args-join (a ∷ args) (arg, all) =
    rw (join-not_blank a args arg) (scan_args-join "" a args no-Lead arg all)
