-- ===== src/Middleware/RateLimit.antt =====
-- middleware/rate_limit.rs: its configuration, its keys, and its execution on the shared store.
pub mod Keys
pub mod Execute
use Prim.Native.Nat.{◌*◌, ◌/◌, ◌%◌}
use Prim.Native.Char.{code}
use Prim.Native.String
use webpipe.Base.{
  ℕ, ◌+◌, String, Bool, true, false, Option, none, some, List, [], ◌∷◌, ◌==◌, nat_eq, ltb,
  if◌then◌else◌, and_then, ◌&&◌, ◌++◌, or_else,
}
use webpipe.Base.Text.{trim, split, split_once, parse_u64}
use webpipe.Base.Effect.{◌>>=◌}
use webpipe.Json.{Value, null, bool, number, string, array, object, get_field, get_item}

pub record RateLimitConfig : Type 0 where
  pub key_template : Option String
  pub limit : Option ℕ
  pub window_secs : Option ℕ
  pub burst : Option ℕ
  pub scope : Option String
  pub enabled : Option Bool

-- `strip_suffix(suffix)`
unfoldable pub strip_suffix : String → String → Option String
strip_suffix suffix String.[] = if suffix == "" then some "" else none
strip_suffix suffix (String.◌∷◌ c s) =
    let later = strip_suffix suffix s in
    if String.◌∷◌ c s == suffix
    then some ""
    else elim later [ none ↦ none | some rest ↦ some (String.◌∷◌ c rest) ]

-- The product of two `u64`, which wraps around.
abbrev mul_u64 : ℕ → ℕ → ℕ
mul_u64 a b = (a * b) % 18446744073709551616

abbrev seconds : (ℕ → ℕ) → String → Option ℕ
seconds unit num = and_then (parse_u64 (trim num)) λ n. some (unit n)

-- The units that are tried in turn: the first suffix that fits decides.
unfoldable pub with_unit : List (String × (ℕ → ℕ)) → String → Option ℕ
unfolding strip_suffix parse_u64
with_unit [] s = none
with_unit ((suffix, unit) ∷ units) s = elim (strip_suffix suffix s) [
  | none ↦ with_unit units s
  | some num ↦ seconds unit num
]

abbrev units : List (String × (ℕ → ℕ))
units =
    ("ms", λ n. n / 1000)
    ∷ ("s", λ n. n)
    ∷ ("m", λ n. mul_u64 n 60)
    ∷ ("h", λ n. mul_u64 n 3600)
    ∷ ("d", λ n. mul_u64 n 86400)
    ∷ []

unfoldable pub parse_duration : String → Option ℕ
unfolding with_unit parse_u64 trim
parse_duration text =
    let s = trim text in if s == "" then none else or_else (parse_u64 s) (with_unit units s)

-- `to_ascii_lowercase() == word`, for a word of small letters.
unfoldable pub eq_ignore_case : String → String → Bool
eq_ignore_case String.[] String.[] = true
eq_ignore_case (String.◌∷◌ c s) (String.◌∷◌ d word) =
    let rest = eq_ignore_case s word in
    if nat_eq (code c) (code d)
    then rest
    else if nat_eq (code c + 32) (code d) && ltb (code c) 91 && ltb 64 (code c)
    then rest
    else false
eq_ignore_case _ _ = false

unfoldable pub parse_bool : String → Option Bool
unfolding eq_ignore_case trim
parse_bool s =
    if eq_ignore_case (trim s) "true"
    then some true
    else if eq_ignore_case (trim s) "false"
    then some false
    else none

abbrev pub default_config : RateLimitConfig
default_config = record {
  key_template = none;
  limit = none;
  window_secs = none;
  burst = none;
  scope = none;
  enabled = none;
}

-- One `key: value`; a later one replaces an earlier one, also where it does not parse.
unfoldable pub set_option : String → String → RateLimitConfig → RateLimitConfig
unfolding parse_duration parse_bool parse_u64
set_option key val lc =
    if key == "keyTemplate"
    then record lc { key_template = some val }
    else if key == "limit"
    then record lc { limit = parse_u64 val }
    else if key == "window"
    then record lc { window_secs = parse_duration val }
    else if key == "burst"
    then record lc { burst = parse_u64 val }
    else if key == "scope"
    then record lc { scope = some val }
    else if key == "enabled"
    then record lc { enabled = parse_bool val }
    else lc

abbrev set_part : Option (String × String) → RateLimitConfig → RateLimitConfig
set_part none lc = lc
set_part (some (k, v)) lc = set_option (trim k) (trim v) lc

unfoldable pub set_parts : List String → RateLimitConfig → RateLimitConfig
unfolding set_option split_once trim
set_parts [] lc = lc
set_parts (part ∷ parts) lc = set_parts parts (set_part (split_once ":" (trim part)) lc)

-- `replace('\n', ",").split(',')`: the parts between commas, and the lines of each.
unfoldable pub split_all : ℕ → List String → List String
unfolding split
split_all ch [] = []
split_all ch (s ∷ rest) = split ch s ++ split_all ch rest

unfoldable pub parse_config : String → RateLimitConfig
unfolding set_parts split_all split
parse_config cfg = set_parts (split_all b',' (split 10 cfg)) default_config

unfoldable pub resolve_parts : List String → Value → Option Value
unfolding get_field get_item parse_u64
resolve_parts [] v = some v
resolve_parts (part ∷ parts) (object fs) = and_then (get_field part fs) (resolve_parts parts)
resolve_parts (part ∷ parts) (array vs) =
    and_then (parse_u64 part) λ i. and_then (get_item vs i) (resolve_parts parts)
resolve_parts (part ∷ parts) v = none

unfoldable pub resolve_path : Value → String → Option Value
unfolding resolve_parts split
resolve_path v path = resolve_parts (split b'.' path) v

-- `print` is serde_json's text of an array or an object.
module _ (print : Value → String) where
  abbrev pub shown : Option Value → String
  shown none = "unknown"
  shown (some (string s)) = s
  shown (some (number n)) = n
  shown (some (bool true)) = "true"
  shown (some (bool false)) = "false"
  shown (some null) = "null"
  shown (some v) = print v

  -- One pass over the template: outside of braces, or within them, after the text of a name. An
  -- opening brace that is never closed is kept, with what follows it.
  unfoldable pub interpolate : Value → Option String → String → String
  unfolding resolve_path
  interpolate input none String.[] = ""
  interpolate input (some name) String.[] = String.◌++◌ "{" name
  interpolate input none (String.◌∷◌ c s) =
      let outside = interpolate input none s in
      let within = interpolate input (some "") s in
      if nat_eq (code c) b'{' then within else String.◌∷◌ c outside
  interpolate input (some name) (String.◌∷◌ c s) =
      let outside = interpolate input none s in
      let within = interpolate input (some (String.◌++◌ name (String.◌∷◌ c String.[]))) s in
      if nat_eq (code c) b'}' then String.◌++◌ (shown (resolve_path input name)) outside else within

  unfoldable pub interpolate_key : String → Value → String
  unfolding interpolate
  interpolate_key template input = interpolate input none template
