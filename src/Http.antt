-- ===== src/Http.antt =====
-- http/request.rs: the request object that a pipeline starts from. Names of headers are in small
-- letters, as the `http` crate keeps them; a header without a text value is `none`. `parse_f64` is the
-- JSON text of a finite number that `str::parse::<f64>` reads.
mod Tests
pub mod Request
use webpipe.Base.{
  ℕ, zero, suc, ◌^◌, String, Bool, Option, none, some, List, [], ◌∷◌, ◌==◌, ltb, leb, if◌then◌else◌,
  lookup, insert, and_then, or_else,
}
use webpipe.Base.Text.{trim, split, strip_prefix, starts_with, parse_u64}
use webpipe.Json.{Value, Fields, null, number, string, object, end, insert_field}
use webpipe.Ast.Program.{ℤ, pos, negsuc}
use webpipe.Config.{int_text}

-- `str::parse::<i64>`
abbrev pub negative : ℕ → Option ℤ
negative zero = some (pos 0)
negative (suc n) = if leb (suc n) (2 ^ 63) then some (negsuc n) else none

abbrev pub not_negative : ℕ → Option ℤ
not_negative n = if ltb n (2 ^ 63) then some (pos n) else none

unfoldable pub parse_i64 : String → Option ℤ
unfolding strip_prefix parse_u64 starts_with
parse_i64 s = elim (strip_prefix "-" s) [
  | some digits ↦ if starts_with digits "+" then none else and_then (parse_u64 digits) negative
  | none ↦ and_then (parse_u64 s) not_negative
]

abbrev pub first_part : List String → String
first_part [] = ""
first_part (p ∷ _) = p

abbrev pub second_part : List String → String
second_part (_ ∷ p ∷ _) = p
second_part _ = ""

-- A name and its value: the first two of the parts between `=` signs.
unfoldable pub name_and_value : String → String × String
unfolding split
name_and_value text = (first_part (split b'=' text), second_part (split b'=' text))

unfoldable pub collect_pairs :
    List (String × String) → List (String × String) → List (String × String)
unfolding insert
collect_pairs [] m = m
collect_pairs ((k, v) ∷ more) m = collect_pairs more (insert k v m)

abbrev pub trimmed_pairs : List String → List (String × String)
trimmed_pairs [] = []
trimmed_pairs (cookie ∷ more) = name_and_value (trim cookie) ∷ trimmed_pairs more

abbrev pub pairs : List String → List (String × String)
pairs [] = []
pairs (pair ∷ more) = name_and_value pair ∷ pairs more

abbrev pub Headers : Type 0
Headers = List (String × Option String)

-- `headers.get(name)`: the first value.
unfoldable pub header : String → Headers → Option String
header name [] = none
header name ((n, v) ∷ more) = if n == name then v else header name more

abbrev pub text_or_empty : Option String → String
text_or_empty none = ""
text_or_empty (some s) = s

unfoldable pub parse_cookies : String → List (String × String)
unfolding collect_pairs name_and_value split trim
parse_cookies cookies = collect_pairs (trimmed_pairs (split b';' cookies)) []

unfoldable pub parse_cookies_from_headers : Headers → List (String × String)
unfolding header parse_cookies
parse_cookies_from_headers headers = parse_cookies (text_or_empty (header "cookie" headers))

-- The header map with texts, a later header replacing an earlier one.
unfoldable pub headers_map : Headers → List (String × String) → List (String × String)
unfolding insert
headers_map [] m = m
headers_map ((n, v) ∷ more) m = headers_map more (insert n (text_or_empty v) m)

unfoldable pub extract_forwarded : Option String → Option String
unfolding split trim
extract_forwarded none = none
extract_forwarded (some xff) =
    let ip = trim (first_part (split b',' xff)) in if ip == "" then none else some ip

unfoldable pub extract_real : Option String → Option String
unfolding trim
extract_real none = none
extract_real (some xri) = if trim xri == "" then none else some (trim xri)

unfoldable pub extract_client_ip : List (String × String) → Option String
unfolding extract_forwarded extract_real lookup
extract_client_ip headers =
    or_else (extract_forwarded (lookup "x-forwarded-for" headers))
      (extract_real (lookup "x-real-ip" headers))

-- A body: whether it is empty, the JSON that `serde_json::from_slice` reads from it, and its text.
pub record Body : Type 0 where
  pub is_empty : Bool
  pub json : Option Value
  pub text : String

module _ (parse_f64 : String → Option String) where
  unfoldable pub string_to_number_or_string : String → Value
  unfolding parse_i64 int_text
  string_to_number_or_string s = elim (parse_i64 s) [
    | some i ↦ number (int_text i)
    | none ↦ elim (parse_f64 s) [ some n ↦ number n | none ↦ string s ]
  ]

  unfoldable pub coerced : List (String × String) → Fields → Fields
  unfolding string_to_number_or_string insert_field
  coerced [] obj = obj
  coerced ((k, v) ∷ more) obj = coerced more (insert_field k (string_to_number_or_string v) obj)

  unfoldable pub string_map_to_json_with_number_coercion : List (String × String) → Value
  unfolding coerced
  string_map_to_json_with_number_coercion m = object (coerced m end)

  abbrev pub or_null : Option Value → Value
  or_null none = null
  or_null (some v) = v

  unfoldable pub parse_body_from_content_type : Body → String → Value
  unfolding string_map_to_json_with_number_coercion collect_pairs name_and_value split starts_with
  parse_body_from_content_type body content_type =
      if body.is_empty
      then object end
      else if starts_with content_type "application/json"
      then or_null body.json
      else if starts_with content_type "application/x-www-form-urlencoded"
      then string_map_to_json_with_number_coercion (collect_pairs (pairs (split b'&' body.text)) [])
      else string body.text
