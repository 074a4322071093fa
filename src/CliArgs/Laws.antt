-- ===== src/CliArgs/Laws.antt =====
-- cli_args.rs: tokens that are made of arguments and options read back as them.
use Prim.Native.String
use text.Mathlib.TextLemmas.{cons-ne-nil, nil-append, cons-append}
use webpipe.Base.{String, true, false, none, List, [], ◌∷◌, ◌≡◌, refl, ◌∙◌, ◌==◌, arith, eq_iff}
use webpipe.Base.Text.{strip_prefix, starts_with, all_chars}
use webpipe.Base.Text.Laws.{lacks, split_once-append, split_once-lacks, strip_prefix-append}
use webpipe.Json.{bool, string}
use webpipe.Executor.Context.{ScriptArgs}
use webpipe.CliArgs.{
  no_args, with_arg, with_option, positional, assigned, named, token_of, parse_from, parse,
}

-- One thing that the tokens say, the tokens that say it, and what it adds.
pub data Item : Type 0 where
  argument flag : String → Item
  setting option_value : String → String → Item

abbrev pub dashed : String → String
dashed k = String.◌++◌ "--" k

abbrev pub equation : String → String → String
equation k v = String.◌++◌ k (String.◌++◌ "=" v)

abbrev pub onto : Item → List String → List String
onto (argument a) ts = a ∷ ts
onto (flag k) ts = dashed k ∷ ts
onto (setting k v) ts = dashed (equation k v) ∷ ts
onto (option_value k v) ts = dashed k ∷ v ∷ ts

abbrev pub tokens : List Item → List String
tokens [] = []
tokens (item ∷ items) = onto item (tokens items)

abbrev pub say : Item → ScriptArgs → ScriptArgs
say (argument a) out = with_arg a out
say (flag k) out = with_option k (bool true) out
say (setting k v) out = with_option k (string v) out
say (option_value k v) out = with_option k (string v) out

abbrev pub said : ScriptArgs → List Item → ScriptArgs
said out [] = out
said out (item ∷ items) = said (say item out) items

abbrev IsName : String → Type 0
IsName k = ((k == "") ≡ false) × (all_chars (lacks "=") k ≡ true)

-- No value stands first.
abbrev NoValue : List String → Type 0
NoValue [] = Unit
NoValue (t ∷ ts) = starts_with t "--" ≡ true

-- An argument or a value does not begin with `--`, a name is not empty and has no `=`, and a flag is
-- not followed by what would be its value.
abbrev pub Sayable : Item → List String → Type 0
Sayable (argument a) ts = strip_prefix "--" a ≡ none
Sayable (flag k) ts = IsName k × NoValue ts
Sayable (setting k v) ts = all_chars (lacks "=") k ≡ true
Sayable (option_value k v) ts = IsName k × (starts_with v "--" ≡ false)

abbrev pub AllSayable : List Item → Type 0
AllSayable [] = Unit
AllSayable (item ∷ items) = Sayable item (tokens items) × AllSayable items

token_of-named : (k : String) → IsName k → token_of (dashed k) ≡ named k
unfolding token_of
token_of-named k (not_empty, name) =
    rw (strip_prefix-append "--" k, not_empty, split_once-lacks "=" "" k name) refl

token_of-assigned :
    (k v : String)
    → all_chars (lacks "=") k ≡ true
    → (equation k v == "") ≡ false
    → token_of (dashed (equation k v)) ≡ assigned k v
unfolding token_of
token_of-assigned k v name not_empty =
    rw (strip_prefix-append "--" (equation k v), not_empty, split_once-append "=" "" k v name) refl

module _ (out : ScriptArgs) (tok : String) where
  parse_from-positional :
      (ts : List String)
      → token_of tok ≡ positional
      → parse_from out (tok ∷ ts) ≡ parse_from (with_arg tok out) ts
  unfolding parse_from
  parse_from-positional [] h = rw (parse_from, h) refl
  parse_from-positional (t ∷ ts) h = rw (parse_from, h) refl

  parse_from-assigned :
      (k v : String) (ts : List String)
      → token_of tok ≡ assigned k v
      → parse_from out (tok ∷ ts) ≡ parse_from (with_option k (string v) out) ts
  unfolding parse_from
  parse_from-assigned k v [] h = rw (parse_from, h) refl
  parse_from-assigned k v (t ∷ ts) h = rw (parse_from, h) refl

  parse_from-flag :
      (k : String) (ts : List String)
      → token_of tok ≡ named k
      → NoValue ts
      → parse_from out (tok ∷ ts) ≡ parse_from (with_option k (bool true) out) ts
  unfolding parse_from
  parse_from-flag k [] h last = rw (parse_from, h) refl
  parse_from-flag k (t ∷ ts) h next = rw (parse_from, h, next) refl

  parse_from-value :
      (k v : String) (ts : List String)
      → token_of tok ≡ named k
      → starts_with v "--" ≡ false
      → parse_from out (tok ∷ v ∷ ts) ≡ parse_from (with_option k (string v) out) ts
  unfolding parse_from
  parse_from-value k v [] h value = rw (parse_from, h, value) refl
  parse_from-value k v (t ∷ ts) h value = rw (parse_from, h, value) refl

not_empty_equation : (k v : String) → (equation k v == "") ≡ false
not_empty_equation String.[] v = ground (
  arith,
  eq_iff (equation "" v) "",
  nil-append (String.◌++◌ "=" v),
  cons-append "=" "" v,
  cons-ne-nil "=" (String.◌++◌ "" v),
)
not_empty_equation (String.◌∷◌ c k) v = ground (
  arith,
  eq_iff (equation (String.◌∷◌ c k) v) "",
  cons-append c k (String.◌++◌ "=" v),
  cons-ne-nil c (equation k v),
)

parse_from-onto :
    (item : Item) (out : ScriptArgs) (ts : List String)
    → Sayable item ts
    → parse_from out (onto item ts) ≡ parse_from (say item out) ts
unfolding token_of
parse_from-onto (argument a) out ts h = parse_from-positional out a ts (rw h refl)
parse_from-onto (flag k) out ts (name, next) =
    parse_from-flag out (dashed k) k ts (token_of-named k name) next
parse_from-onto (setting k v) out ts name =
    parse_from-assigned out (dashed (equation k v)) k v ts
      (token_of-assigned k v name (not_empty_equation k v))
parse_from-onto (option_value k v) out ts (name, value) =
    parse_from-value out (dashed k) k v ts (token_of-named k name) value

parse_from-tokens :
    (items : List Item) (out : ScriptArgs)
    → AllSayable items
    → parse_from out (tokens items) ≡ said out items
unfolding parse_from
parse_from-tokens [] out h = refl
parse_from-tokens (item ∷ items) out (first, rest) =
    parse_from-onto item out (tokens items) first ∙ parse_from-tokens items (say item out) rest

-- Tokens read back as what they were made of: arguments in their order, flags, `--key=value` and
-- `--key value`, a later option replacing an earlier one of the same name; if arguments and values
-- do not begin with `--`, names have no `=`, and no argument follows a flag.
pub parse-tokens :
    (items : List Item) → AllSayable items → parse (tokens items) ≡ said no_args items
unfolding parse
parse-tokens items h = parse_from-tokens items no_args h
