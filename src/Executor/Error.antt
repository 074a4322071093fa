-- ===== src/Executor/Error.antt =====
-- error.rs: the errors of the program, their texts and HTTP answers. What `std::io::Error` and
-- `serde_json::Error` print is their text here.
use webpipe.Base.{ℕ, String, Option, none, some, [], ◌∷◌, nat_eq, ltb, ◌==◌, if◌then◌else◌}
use webpipe.Base.Text.{format, decimal, split_once}
use webpipe.Json.{Value, number, string, object, end, field}
use webpipe.Ast.{SourceLocation}

pub data WebPipeError : Type 0 where
  located : String → WebPipeError → WebPipeError
  parse_error : String → WebPipeError
  route_not_found : String → WebPipeError
  pipeline_not_found : String → WebPipeError
  middleware_not_found : String → WebPipeError
  middleware_execution_error : String → WebPipeError
  config_error : String → WebPipeError
  database_error : String → WebPipeError
  auth_error : String → WebPipeError
  validation_error : String → WebPipeError
  template_error : String → WebPipeError
  network_error : String → WebPipeError
  cache_error : String → WebPipeError
  script_error : String → WebPipeError
  io_error : String → WebPipeError
  json_error : String → WebPipeError
  internal_error : String → WebPipeError
  bad_request : String → WebPipeError
  unauthorized : String → WebPipeError
  forbidden : String → WebPipeError
  not_found : String → WebPipeError
  method_not_allowed : String → WebPipeError
  timeout : String → WebPipeError
  rate_limit_exceeded : String → WebPipeError
  import_not_found : String → WebPipeError
  circular_import : String → WebPipeError
  duplicate_alias : String → WebPipeError
  undefined_scoped_reference : String → WebPipeError
  debugger_error : String → WebPipeError

-- The texts of the `#[error]` attributes.
unfoldable pub to_string : WebPipeError → String
unfolding format
to_string (located l source) = format ("At " ∷ l ∷ ": " ∷ to_string source ∷ [])
to_string (parse_error m) = format ("Parse error: " ∷ m ∷ [])
to_string (route_not_found m) = format ("Route not found: " ∷ m ∷ [])
to_string (pipeline_not_found m) = format ("Pipeline not found: " ∷ m ∷ [])
to_string (middleware_not_found m) = format ("Middleware not found: " ∷ m ∷ [])
to_string (middleware_execution_error m) = format ("Middleware execution failed: " ∷ m ∷ [])
to_string (config_error m) = format ("Configuration error: " ∷ m ∷ [])
to_string (database_error m) = format ("Database error: " ∷ m ∷ [])
to_string (auth_error m) = format ("Authentication error: " ∷ m ∷ [])
to_string (validation_error m) = format ("Validation error: " ∷ m ∷ [])
to_string (template_error m) = format ("Template error: " ∷ m ∷ [])
to_string (network_error m) = format ("Network error: " ∷ m ∷ [])
to_string (cache_error m) = format ("Cache error: " ∷ m ∷ [])
to_string (script_error m) = format ("Script execution error: " ∷ m ∷ [])
to_string (io_error m) = format ("IO error: " ∷ m ∷ [])
to_string (json_error m) = format ("JSON error: " ∷ m ∷ [])
to_string (internal_error m) = format ("Internal server error: " ∷ m ∷ [])
to_string (bad_request m) = format ("Bad request: " ∷ m ∷ [])
to_string (unauthorized m) = format ("Unauthorized: " ∷ m ∷ [])
to_string (forbidden m) = format ("Forbidden: " ∷ m ∷ [])
to_string (not_found m) = format ("Not found: " ∷ m ∷ [])
to_string (method_not_allowed m) = format ("Method not allowed: " ∷ m ∷ [])
to_string (timeout m) = format ("Timeout error: " ∷ m ∷ [])
to_string (rate_limit_exceeded m) = format ("Rate limit exceeded: " ∷ m ∷ [])
to_string (import_not_found m) = format ("Import not found: " ∷ m ∷ [])
to_string (circular_import m) = format ("Circular import detected: " ∷ m ∷ [])
to_string (duplicate_alias m) = format ("Duplicate import alias: " ∷ m ∷ [])
to_string (undefined_scoped_reference m) = format ("Undefined scoped reference: " ∷ m ∷ [])
to_string (debugger_error m) = format ("Debugger error: " ∷ m ∷ [])

unfoldable pub status_code : WebPipeError → ℕ
status_code (located _ source) = status_code source
status_code (parse_error _) = 400
status_code (route_not_found _) = 404
status_code (pipeline_not_found _) = 500
status_code (middleware_not_found _) = 500
status_code (middleware_execution_error _) = 500
status_code (config_error _) = 500
status_code (database_error _) = 500
status_code (auth_error _) = 401
status_code (validation_error _) = 400
status_code (template_error _) = 500
status_code (network_error _) = 502
status_code (cache_error _) = 500
status_code (script_error _) = 500
status_code (io_error _) = 500
status_code (json_error _) = 400
status_code (internal_error _) = 500
status_code (bad_request _) = 400
status_code (unauthorized _) = 401
status_code (forbidden _) = 403
status_code (not_found _) = 404
status_code (method_not_allowed _) = 405
status_code (timeout _) = 408
status_code (rate_limit_exceeded _) = 429
status_code (import_not_found _) = 500
status_code (circular_import _) = 500
status_code (duplicate_alias _) = 500
status_code (undefined_scoped_reference _) = 500
status_code (debugger_error _) = 500

unfoldable pub error_type : WebPipeError → String
error_type (located _ source) = error_type source
error_type (parse_error _) = "parse_error"
error_type (route_not_found _) = "route_not_found"
error_type (pipeline_not_found _) = "pipeline_not_found"
error_type (middleware_not_found _) = "middleware_not_found"
error_type (middleware_execution_error _) = "middleware_execution_error"
error_type (config_error _) = "config_error"
error_type (database_error _) = "database_error"
error_type (auth_error _) = "auth_error"
error_type (validation_error _) = "validation_error"
error_type (template_error _) = "template_error"
error_type (network_error _) = "network_error"
error_type (cache_error _) = "cache_error"
error_type (script_error _) = "script_error"
error_type (io_error _) = "io_error"
error_type (json_error _) = "json_error"
error_type (internal_error _) = "internal_error"
error_type (bad_request _) = "bad_request"
error_type (unauthorized _) = "unauthorized"
error_type (forbidden _) = "forbidden"
error_type (not_found _) = "not_found"
error_type (method_not_allowed _) = "method_not_allowed"
error_type (timeout _) = "timeout"
error_type (rate_limit_exceeded _) = "rate_limit_exceeded"
error_type (import_not_found _) = "import_not_found"
error_type (circular_import _) = "circular_import"
error_type (duplicate_alias _) = "duplicate_alias"
error_type (undefined_scoped_reference _) = "undefined_scoped_reference"
error_type (debugger_error _) = "debugger_error"

path_label : Option String → String → String
unfolding format
path_label none label = format ("line " ∷ label ∷ [])
path_label (some path) label =
    if path == "" then format ("line " ∷ label ∷ []) else format (path ∷ ":" ∷ label ∷ [])

-- `SourceLocation::error_label`; an `end_line` before the line counts as the line.
unfoldable pub error_label : SourceLocation → Option String
unfolding path_label decimal
error_label l =
    if nat_eq l.line 0
    then none
    else some (
        path_label l.file_path (
          if ltb l.line l.end_line
          then format (decimal l.line ∷ "-" ∷ decimal l.end_line ∷ [])
          else decimal l.line))

abbrev locate : String → WebPipeError → WebPipeError
locate l (located l' e) = located l' e
locate l e = located l e

unfoldable pub with_source_location : WebPipeError → SourceLocation → WebPipeError
with_source_location e l = elim (error_label l) [ none ↦ e | some label ↦ locate label e ]

-- The response that `into_response` builds: its status and its JSON body.
unfoldable pub into_response : WebPipeError → ℕ × Value
unfolding decimal
into_response e = (
  status_code e,
  object (
      field "error"
        (object (
          field "type" (string (error_type e)) (
            field "message" (string (to_string e))
              (field "status" (number (decimal (status_code e))) end))))
        end),
)

abbrev pub details_of : String → Option (String × String) → String
details_of message none = format ("Middleware execution failed:\n" ∷ message ∷ [])
details_of message (some (summary, payload)) =
    format ("Middleware execution failed, " ∷ summary ∷ ":\n" ∷ payload ∷ [])

unfoldable pub format_middleware_details : String → String
unfolding format split_once
format_middleware_details message = details_of message (split_once ": " message)

unfoldable pub display_pipeline_details : WebPipeError → String
unfolding format to_string format_middleware_details
display_pipeline_details (located l (middleware_execution_error m)) =
    format ("At " ∷ l ∷ "\n" ∷ format_middleware_details m ∷ [])
display_pipeline_details (located l source) = format ("At " ∷ l ∷ "\n" ∷ to_string source ∷ [])
display_pipeline_details (middleware_execution_error m) = format_middleware_details m
display_pipeline_details e = to_string e
