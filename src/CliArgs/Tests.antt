-- ===== src/CliArgs/Tests.antt =====
-- The command lines of the tests of cli_args.rs.
use webpipe.Base.{true, List, [], ◌∷◌, ◌≡◌, refl, insert}
use webpipe.Base.Text.{split_once, strip_prefix, starts_with, all_chars}
use webpipe.Json.{bool, string}
use webpipe.CliArgs.{parse, parse_from, token_of, with_option, no_args}
use webpipe.CliArgs.Laws.{
  Item, argument, flag, setting, option_value, tokens, said, AllSayable, parse-tokens,
}

repeated :
    (parse ("--a=1" ∷ "x" ∷ "--a" ∷ "2" ∷ "--v" ∷ [])).options
    ≡ ("a", string "2") ∷ ("v", bool true) ∷ []
unfolding parse parse_from token_of with_option insert split_once strip_prefix starts_with
repeated = refl

abbrev items : List Item
items = argument "run" ∷ setting "env" "a=b" ∷ option_value "out" "x.txt" ∷ flag "verbose" ∷ []

items-AllSayable : AllSayable items
unfolding strip_prefix starts_with all_chars
items-AllSayable = (refl, (refl, (((refl, refl), refl), (((refl, refl), tt), tt))))

parse-tokens_example : parse (tokens items) ≡ said no_args items
parse-tokens_example = parse-tokens items items-AllSayable
