-- ===== src/Http/Request.antt =====
-- http/request.rs: the assembly of the request object.
use webpipe.Base.{String, Option, none, some, List, [], ◌∷◌, lookup, or_else}
use webpipe.Json.{Value, Fields, string, object, end, field, insert_field}
use webpipe.Http.{
  Headers, Body, headers_map, parse_cookies_from_headers, extract_client_ip,
  parse_body_from_content_type, string_map_to_json_with_number_coercion,
}

pub record RequestAssembly : Type 0 where
  pub method : String
  pub path : String
  pub path_params : List (String × String)
  pub query_params : List (String × String)
  pub headers : Option (List (String × String))
  pub cookies : Option (List (String × String))
  pub body : Value
  pub content_type : String
  pub ip : Option String

unfoldable pub string_fields : List (String × String) → Fields → Fields
unfolding insert_field
string_fields [] obj = obj
string_fields ((k, v) ∷ more) obj = string_fields more (insert_field k (string v) obj)

abbrev pub optional_object : Option (List (String × String)) → Value
optional_object none = object end
optional_object (some m) = object (string_fields m end)

abbrev pub with_ip : Option String → Fields → Fields
with_ip none obj = obj
with_ip (some ip_addr) obj = field "ip" (string ip_addr) obj

module _ (parse_f64 : String → Option String) where
  -- The keys are told apart, so that each insertion adds a field.
  unfoldable pub assemble_request_object : RequestAssembly → Value
  unfolding string_map_to_json_with_number_coercion string_fields
  assemble_request_object opts =
      let query = string_map_to_json_with_number_coercion parse_f64 opts.query_params in
      let params = string_map_to_json_with_number_coercion parse_f64 opts.path_params in
      object (
        field "method" (string opts.method) (
          field "path" (string opts.path) (
            with_ip opts.ip (
              field "query" query (
                field "params" params (
                  field "headers" (optional_object opts.headers) (
                    field "cookies" (optional_object opts.cookies) (
                      field "body" opts.body (
                        field "content_type" (string opts.content_type) (
                          field "originalRequest"
                            (object (
                              field "method" (string opts.method)
                                (field "params" params (field "query" query end))))
                            end))))))))))

  abbrev pub content_type_of : List (String × String) → String
  content_type_of headers = elim (lookup "content-type" headers) [
    | none ↦ "application/json"
    | some t ↦ t
  ]

  unfoldable pub build_request_from_axum_with_ip :
      String
      → Headers
      → String
      → List (String × String)
      → List (String × String)
      → Body
      → Option String
      → Value × String
  unfolding assemble_request_object headers_map parse_body_from_content_type extract_client_ip
      parse_cookies_from_headers lookup
  build_request_from_axum_with_ip method headers path path_params query_params body remote_ip =
      let texts = headers_map headers [] in
      let content_type = content_type_of texts in
      (
        assemble_request_object (record {
          method = method;
          path = path;
          path_params = path_params;
          query_params = query_params;
          headers = some texts;
          cookies = some (parse_cookies_from_headers headers);
          body = parse_body_from_content_type parse_f64 body content_type;
          content_type = content_type;
          ip = or_else (extract_client_ip texts) remote_ip;
        }),
        content_type,
      )

  unfoldable pub build_request_from_axum :
      String
      → Headers
      → String
      → List (String × String)
      → List (String × String)
      → Body
      → Value × String
  unfolding build_request_from_axum_with_ip
  build_request_from_axum method headers path path_params query_params body =
      build_request_from_axum_with_ip method headers path path_params query_params body none
