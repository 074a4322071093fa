-- ===== src/CliArgs.antt =====
-- cli_args.rs: the arguments and options of a script, after the `--` of the command line.
pub mod Laws
mod Tests
use Prim.Native.String
use webpipe.Base.{
  String, true, false, Option, none, some, List, [], ◌∷◌, ◌++◌, ◌==◌, insert, if◌then◌else◌,
}
use webpipe.Base.Text.{split_once, strip_prefix, starts_with}
use webpipe.Json.{Value, bool, string}
use webpipe.Executor.Context.{ScriptArgs}

abbrev pub no_args : ScriptArgs
no_args = record { args = []; options = [] }

abbrev pub with_arg : String → ScriptArgs → ScriptArgs
with_arg tok out = record out { args = out.args ++ tok ∷ [] }

unfoldable pub with_option : String → Value → ScriptArgs → ScriptArgs
unfolding insert
with_option k v out = record out { options = insert k v out.options }

-- What a token is by itself.
pub data Token : Type 0 where
  positional : Token
  assigned : String → String → Token
  named : String → Token

abbrev pub named_or_assigned : String → Option (String × String) → Token
named_or_assigned rest none = named rest
named_or_assigned rest (some (k, v)) = assigned k v

abbrev pub token_behind : Option String → Token
token_behind none = positional
token_behind (some rest) =
    if rest == "" then positional else named_or_assigned rest (split_once "=" rest)

unfoldable pub token_of : String → Token
unfolding strip_prefix split_once
token_of tok = token_behind (strip_prefix "--" tok)

-- The loop over the tokens, on what it has read. A name takes the next token for its value, unless
-- that one begins with `--`.
unfoldable pub parse_from : ScriptArgs → List String → ScriptArgs
unfolding token_of with_option starts_with
parse_from out [] = out
parse_from out (tok ∷ []) = elim (token_of tok) [
  | positional ↦ with_arg tok out
  | assigned k v ↦ with_option k (string v) out
  | named k ↦ with_option k (bool true) out
]
parse_from out (tok ∷ next ∷ rest) = elim (token_of tok) [
  | positional ↦ parse_from (with_arg tok out) (next ∷ rest)
  | assigned k v ↦ parse_from (with_option k (string v) out) (next ∷ rest)
  | named k ↦ elim (starts_with next "--") [
    | true ↦ parse_from (with_option k (bool true) out) (next ∷ rest)
    | false ↦ parse_from (with_option k (string next) out) rest
  ]
]

unfoldable pub parse : List String → ScriptArgs
unfolding parse_from
parse tokens = parse_from no_args tokens
