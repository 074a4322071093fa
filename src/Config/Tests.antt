-- ===== src/Config/Tests.antt =====
-- The configuration of the tests of config/mod.rs.
use webpipe.Base.{String, Option, none, some, [], ◌∷◌, ◌≡◌, refl, lookup, insert}
use webpipe.Base.Text.{format, decimal, strip_prefix, parse_u64}
use webpipe.Base.Effect.{ok}
use webpipe.Json.{get, get_field, insert_field}
use webpipe.Ast.Program
use webpipe.Ast.Program.{pos, negsuc, Config, env_var}
use webpipe.Config.{
  new, collect_configs, get_config, resolve_config_value, resolve_config_as_json,
  resolve_properties, get_as, get_number_value, get_string_value, as_i64, int_text,
}

abbrev app : Config
app = record {
  name = "app";
  properties =
      record { key = "port"; value = Program.number (pos 8080) }
      ∷ record { key = "offset"; value = Program.number (negsuc 4) }
      ∷ record { key = "apiKey"; value = Program.env_var "MISSING_ENV" (some "fallback") }
      ∷ [];
}

abbrev unset : String → Option String
unset _ = none

port : get_number_value unset (new (app ∷ [])) "app" "port" ≡ ok (pos 8080)
unfolding get_number_value get_as resolve_config_as_json resolve_properties resolve_config_value
    get_config new collect_configs insert lookup insert_field get get_field as_i64 int_text decimal
    strip_prefix parse_u64 format
port = refl

offset : get_number_value unset (new (app ∷ [])) "app" "offset" ≡ ok (negsuc 4)
unfolding get_number_value get_as resolve_config_as_json resolve_properties resolve_config_value
    get_config new collect_configs insert lookup insert_field get get_field as_i64 int_text decimal
    strip_prefix parse_u64 format
offset = refl

api_key : get_string_value unset (new (app ∷ [])) "app" "apiKey" ≡ ok "fallback"
unfolding get_string_value get_as resolve_config_as_json resolve_properties resolve_config_value
    get_config new collect_configs insert lookup insert_field get get_field as_i64 int_text decimal
    strip_prefix parse_u64 format
api_key = refl
