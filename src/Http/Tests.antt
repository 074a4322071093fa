-- ===== src/Http/Tests.antt =====
-- The requests of the tests of http/request.rs.
use webpipe.Base.{String, Option, none, some, [], ◌∷◌, ◌≡◌, refl, lookup, insert}
use webpipe.Base.Text.{
  format, decimal, trim, split, strip_prefix, starts_with, parse_u64, is_whitespace,
}
use webpipe.Json.{number, string}
use webpipe.Config.{int_text}
use webpipe.Http.{
  header, parse_cookies_from_headers, parse_cookies, collect_pairs, name_and_value, parse_i64,
  string_to_number_or_string, extract_client_ip, extract_forwarded, extract_real,
}

abbrev no_floats : String → Option String
no_floats s = none

coerced_number : string_to_number_or_string no_floats "-42" ≡ number "-42"
unfolding string_to_number_or_string parse_i64 int_text strip_prefix starts_with parse_u64 decimal
    format
coerced_number = refl

coerced_text : string_to_number_or_string no_floats "4x2" ≡ string "4x2"
unfolding string_to_number_or_string parse_i64 int_text strip_prefix starts_with parse_u64 decimal
    format
coerced_text = refl

-- What stands behind a second `=` is lost.
cookies :
    parse_cookies_from_headers (("cookie", some "a=1; token=YWI=") ∷ [])
    ≡ ("a", "1") ∷ ("token", "YWI") ∷ []
unfolding parse_cookies_from_headers parse_cookies header collect_pairs name_and_value split trim
    insert is_whitespace
cookies = refl

client_ip : extract_client_ip (("x-forwarded-for", " 10.0.0.1, 10.0.0.2") ∷ []) ≡ some "10.0.0.1"
unfolding extract_client_ip extract_forwarded extract_real split trim lookup is_whitespace
client_ip = refl
