-- ===== src/Config.antt =====
-- config/mod.rs: the configurations that a program declares. `env_var` is `std::env::var`, an error
-- as `none`.
pub mod Tests
use webpipe.Base.{
  ℕ, zero, suc, ◌^◌, String, Bool, Option, none, some, List, [], ◌∷◌, ltb, leb, if◌then◌else◌,
  and_then, lookup, insert,
}
use webpipe.Base.Text.{format, decimal, strip_prefix, parse_u64}
use webpipe.Base.Effect.{Result, ok, err}
use webpipe.Json.{Value, Fields, bool, number, string, object, end, insert_field, get, as_str}
use webpipe.Ast.Program.{ℤ, pos, negsuc, Config, ConfigProperty, ConfigValue, env_var, boolean}
use webpipe.Ast.Program
use webpipe.Executor.Error.{WebPipeError, config_error}

pub record ConfigManager : Type 0 where
  pub configs : List (String × Config)

-- `to_string()` of an `i64`
unfoldable pub int_text : ℤ → String
unfolding decimal format
int_text (pos n) = decimal n
int_text (negsuc n) = format ("-" ∷ decimal (suc n) ∷ [])

-- `as_i64` of a number by its text, and `as_u64`.
abbrev pub negated : Option ℕ → Option ℤ
negated none = none
negated (some zero) = none
negated (some (suc n)) = if leb (suc n) (2 ^ 63) then some (negsuc n) else none

abbrev pub below_bound : Option ℕ → Option ℤ
below_bound none = none
below_bound (some n) = if ltb n (2 ^ 63) then some (pos n) else none

abbrev pub int_of_text : String → Option String → Option ℤ
int_of_text text (some digits) = negated (parse_u64 digits)
int_of_text text none = below_bound (parse_u64 text)

unfoldable pub as_i64 : Value → Option ℤ
unfolding strip_prefix parse_u64
as_i64 (number text) = int_of_text text (strip_prefix "-" text)
as_i64 _ = none

unfoldable pub as_u64 : Value → Option ℕ
unfolding parse_u64
as_u64 (number text) = parse_u64 text
as_u64 _ = none

abbrev pub as_bool : Value → Option Bool
as_bool (bool b) = some b
as_bool _ = none

unfoldable pub collect_configs : List Config → List (String × Config) → List (String × Config)
unfolding insert
collect_configs [] m = m
collect_configs (c ∷ cs) m = collect_configs cs (insert c.name c m)

unfoldable pub new : List Config → ConfigManager
unfolding collect_configs
new cs = record { configs = collect_configs cs [] }

unfoldable pub get_config : ConfigManager → String → Option Config
get_config m name = lookup name m.configs

abbrev pub env_value : String → Option String → Option String → Result WebPipeError Value
env_value var default_value (some val) = ok (string val)
env_value var (some val) none = ok (string val)
env_value var none none = err (
    config_error
      (format ("Environment variable " ∷ var ∷ " not found and no default provided" ∷ [])))

module _ (env_var : String → Option String) where
  unfoldable pub resolve_config_value : ConfigValue → Result WebPipeError Value
  unfolding int_text format
  resolve_config_value (Program.string s) = ok (string s)
  resolve_config_value (Program.boolean b) = ok (bool b)
  resolve_config_value (Program.number n) = ok (number (int_text n))
  resolve_config_value (Program.env_var var default_value) =
      env_value var default_value (env_var var)

  -- The loop over the properties, on the fields so far.
  unfoldable pub resolve_properties : List ConfigProperty → Fields → Result WebPipeError Value
  unfolding resolve_config_value insert_field
  resolve_properties [] fields = ok (object fields)
  resolve_properties (p ∷ ps) fields = elim (resolve_config_value p.value) [
    | err e ↦ err e
    | ok value ↦ resolve_properties ps (insert_field p.key value fields)
  ]

  unfoldable pub resolve_config_as_json : ConfigManager → String → Result WebPipeError Value
  unfolding resolve_properties get_config format
  resolve_config_as_json m name = elim (get_config m name) [
    | none ↦ err (config_error (format ("Config '" ∷ name ∷ "' not found" ∷ [])))
    | some config ↦ resolve_properties config.properties end
  ]

  abbrev pub found_value :
      {A : Type 0} → String → String → String → Option A → Result WebPipeError A
  found_value kind config_name key (some a) = ok a
  found_value kind config_name key none = err (
      config_error
        (format (kind ∷ " value '" ∷ key ∷ "' not found in config '" ∷ config_name ∷ "'" ∷ [])))

  -- What the getters share: the value of a key, read as an `A`.
  unfoldable pub get_as :
      {A : Type 0}
      → String
      → (Value → Option A)
      → ConfigManager
      → String
      → String
      → Result WebPipeError A
  unfolding resolve_config_as_json get format
  get_as kind read m config_name key = elim (resolve_config_as_json m config_name) [
    | err e ↦ err e
    | ok config ↦ found_value kind config_name key (and_then (get key config) read)
  ]

  unfoldable pub get_string_value : ConfigManager → String → String → Result WebPipeError String
  unfolding get_as
  get_string_value = get_as "String" (λ v. as_str v)

  unfoldable pub get_bool_value : ConfigManager → String → String → Result WebPipeError Bool
  unfolding get_as
  get_bool_value = get_as "Boolean" (λ v. as_bool v)

  unfoldable pub get_number_value : ConfigManager → String → String → Result WebPipeError ℤ
  unfolding get_as as_i64
  get_number_value = get_as "Number" as_i64

  unfoldable pub get_graphql_endpoint : ConfigManager → Option String
  unfolding resolve_config_as_json get
  get_graphql_endpoint m = elim (resolve_config_as_json m "graphql") [
    | err _ ↦ none
    | ok config ↦ and_then (get "endpoint" config) λ v. as_str v
  ]
