-- ===== src/Ast/Parser/Tests.antt =====
-- The readers of parser.rs on concrete texts.
use webpipe.Base.{[], ◌∷◌, ◌≡◌, refl}
use webpipe.Base.Text.{trim, trim_end, trim_start, is_whitespace}
use webpipe.Executor.Context.{join}
use webpipe.Ast.Parser.{split_balanced_args, scan_args, scan_char}
use webpipe.Ast.Parser.Args.{IsArg, split_balanced_args-join}
use webpipe.Ast.Parser.Balanced.{empty, plain, quoted, brackets, end, within}

-- The comma within the call and the one within the text are kept.
two_args : split_balanced_args "f(1,2) , \"x,y\"" ≡ "f(1,2)" ∷ "\"x,y\"" ∷ []
unfolding split_balanced_args scan_args scan_char trim trim_end trim_start is_whitespace
two_args = refl

call-IsArg : IsArg "f(1,2)"
unfolding trim trim_end trim_start is_whitespace
call-IsArg = record {
  balanced = plain "f" "(1,2)" refl (
      brackets "(" ")" "1,2" "" refl
        (plain "1" ",2" refl (plain "," "2" refl (plain "2" "" refl empty))) refl empty);
  trimmed = refl;
  not_empty = refl;
}

text-IsArg : IsArg "\"x,y\""
unfolding trim trim_end trim_start is_whitespace
text-IsArg = record {
  balanced =
      quoted "\"" "x,y\"" "" refl
        (within "x" ",y\"" refl refl
          (within "," "y\"" refl refl (within "y" "\"" refl refl (end "\"" refl))))
        empty;
  trimmed = refl;
  not_empty = refl;
}

split_balanced_args-join_example :
    split_balanced_args (join ", " ("f(1,2)" ∷ "\"x,y\"" ∷ [])) ≡ "f(1,2)" ∷ "\"x,y\"" ∷ []
split_balanced_args-join_example =
    split_balanced_args-join ("f(1,2)" ∷ "\"x,y\"" ∷ []) (call-IsArg, (text-IsArg, tt))
