-- ===== src/Server/Respond.antt =====
-- server.rs: `respond_with_pipeline`, from a matched route to the response. `Library` is what the HTTP
-- library, base64 and serde_json do: which numbers are statuses, which texts may be header names and
-- values, and the texts of values. No debugger is attached, and the trace is not printed.
pub mod Laws
mod Tests
use webpipe.Base.{
  ℕ, String, Bool, Option, none, some, List, [], ◌∷◌, ◌++◌, ◌==◌, and_then, get_or, if◌then◌else◌,
}
use webpipe.Base.Text.{format, starts_with}
use webpipe.Base.Effect.{Result, ok, err}
use webpipe.Json.{
  Value, Items, Fields, string, object, nil, cons, end, field, get, insert_field, as_str, as_array,
  as_object,
}
use webpipe.Ast.{Pipeline}
use webpipe.Executor.Error.{WebPipeError, display_pipeline_details}
use webpipe.Executor.Context.{RequestContext, new_context, push, run_deferred, no_samples}
use webpipe.Executor.Env.{ExecutionEnv, Sys}
use webpipe.Executor.Nested.{Answer}
use webpipe.Executor.Run.{execute_pipeline}

pub record RoutePayload : Type 0 where
  pub pipeline : Pipeline
  pub needs_flags : Bool

pub data Body : Type 0 where
  text : String → Body
  json : Value → Body
  binary : List ℕ → Body

pub record Response : Type 0 where
  pub status : ℕ
  pub headers : List (String × String)
  pub body : Body

pub record Library : Type 0 where
  pub is_status : ℕ → Bool
  pub header_name : String → Option String
  pub header_value : String → Option String
  pub decode_base64 : String → Option (List ℕ)
  pub to_text : Value → String

-- `HeaderMap::insert`: in place of every value of the name.
unfoldable pub without_header : String → List (String × String) → List (String × String)
without_header name [] = []
without_header name ((n, v) ∷ headers) =
    let rest = without_header name headers in if n == name then rest else (n, v) ∷ rest

unfoldable pub insert_header : String → String → Response → Response
unfolding without_header
insert_header name v r = record r { headers = without_header name r.headers ++ (name, v) ∷ [] }

abbrev pub append_header : String → String → Response → Response
append_header name v r = record r { headers = r.headers ++ (name, v) ∷ [] }

abbrev pub response_of : ℕ → String → Body → Response
response_of status content_type body = record {
  status = status;
  headers = ("content-type", content_type) ∷ [];
  body = body;
}

module _ (lib : Library) where
  abbrev pub http_status : Option ℕ → ℕ
  http_status none = 200
  http_status (some code) = if lib.is_status code then code else 500

  abbrev pub html_of : Value → String
  html_of (string s) = s
  html_of result = lib.to_text result

  abbrev pub image_of : Value → Body
  image_of result =
      let encoded = get_or (as_str result) "" in
      elim (lib.decode_base64 encoded) [ none ↦ text encoded | some bytes ↦ binary bytes ]

  unfoldable pub base_response : ℕ → String → Value → Response
  unfolding starts_with
  base_response status content_type result =
      if starts_with content_type "text/html"
      then response_of status "text/html; charset=utf-8" (text (html_of result))
      else if starts_with content_type "image/svg+xml"
      then response_of status "image/svg+xml" (text (get_or (as_str result) ""))
      else if starts_with content_type "image/png"
      then response_of status "image/png" (image_of result)
      else response_of status "application/json" (json result)

  abbrev pub with_cookie : Option String → Response → Response
  with_cookie none r = r
  with_cookie (some v) r = append_header "set-cookie" v r

  -- `setCookies`: the texts that may be header values, in their order.
  unfoldable pub set_cookies : Items → Response → Response
  set_cookies nil r = r
  set_cookies (cons cookie more) r =
      set_cookies more (with_cookie (and_then (as_str cookie) lib.header_value) r)

  abbrev pub with_header : Option String → Option String → Response → Response
  with_header (some name) (some v) r = insert_header name v r
  with_header _ _ r = r

  unfoldable pub set_headers : Fields → Response → Response
  unfolding insert_header
  set_headers end r = r
  set_headers (field name v more) r =
      set_headers more (with_header (lib.header_name name) (and_then (as_str v) lib.header_value) r)

  abbrev pub cookies_of : Option Items → Response → Response
  cookies_of none r = r
  cookies_of (some cookies) r = set_cookies cookies r

  abbrev pub headers_of : Option Fields → Response → Response
  headers_of none r = r
  headers_of (some headers) r = set_headers headers r

  unfoldable pub answered : Answer → Response
  unfolding base_response set_cookies set_headers get
  answered (result, content_type, status) =
      headers_of (and_then (get "setHeaders" result) λ v. as_object v) (
        cookies_of (and_then (get "setCookies" result) λ v. as_array v)
          (base_response (http_status status) content_type result))

unfoldable pub failed : WebPipeError → Response
unfolding display_pipeline_details
failed e = response_of 500 "application/json" (
    json (
      object (
        field "error" (string "Pipeline execution failed")
          (field "details" (string (display_pipeline_details e)) end))))

-- The user that the flag pipeline found is put into the request.
abbrev pub with_user : Option Value → Value → Value
with_user (some user) (object request) = object (insert_field "user" user request)
with_user _ request = request

abbrev pub Preflight : Type 0 → Type 0
Preflight W = W × List (String × Bool) × Value

module _ {W : Type 0} where
  -- `create_request_context`
  abbrev pub create_request_context : List (String × Bool) → Value → RequestContext W
  create_request_context flags request = record (new_context W) {
    feature_flags = flags;
    request = request;
  }

  abbrev pub flags_found :
      Value → Option (Sys W × Result WebPipeError Answer) → Option (Preflight W)
  flags_found request none = none
  flags_found request (some (s, ok (result, _, _))) =
      some (s.world, s.req.feature_flags, with_user (get "user" result) request)
  flags_found request (some (s, err e)) = some (s.world, [], request)

  abbrev pub route_context : String → List (String × Bool) → Value → RequestContext W
  route_context label flags request = record (create_request_context flags request) {
    profiler = push no_samples label;
  }

  -- Deferred actions run only where the pipeline answers.
  abbrev pub finished :
      Library → Option (Sys W × Result WebPipeError Answer) → Option (W × Response)
  finished lib none = none
  finished lib (some (s, ok (result, content_type, status))) = some (
    run_deferred s.req.deferred result content_type s.world,
    answered lib (result, content_type, status),
  )
  finished lib (some (s, err e)) = some (s.world, failed e)

module _ {W : Type 0} (env : ExecutionEnv W) (fuel : ℕ) where
  -- `late` tells that the flag pipeline takes more than its 50 milliseconds, and what it has done to the
  -- world by then.
  abbrev pub resolve_flags : Option (W → W) → Option Pipeline → Value → W → Option (Preflight W)
  resolve_flags late none request w = some (w, [], request)
  resolve_flags (some cut) (some p) request w = some (cut w, [], request)
  resolve_flags none (some p) request w = flags_found request (
      execute_pipeline env fuel p request none
        (record { world = w; req = create_request_context [] request }))

  unfoldable pub preflight :
      Option (W → W) → Option Pipeline → RoutePayload → Value → W → Option (Preflight W)
  unfolding execute_pipeline get insert_field
  preflight late feature_flags payload request w =
      if payload.needs_flags
      then resolve_flags late feature_flags request w
      else some (w, [], request)

  unfoldable pub run_route : Library → String → RoutePayload → Preflight W → Option (W × Response)
  unfolding execute_pipeline push run_deferred answered failed
  run_route lib label payload (w, flags, request) = finished lib (
      execute_pipeline env fuel payload.pipeline request none
        (record { world = w; req = route_context label flags request }))

  unfoldable pub respond_with_pipeline :
      Library
      → Option (W → W)
      → Option Pipeline
      → RoutePayload
      → String
      → String
      → Value
      → W
      → Option (W × Response)
  unfolding preflight run_route format
  respond_with_pipeline lib late feature_flags payload method path request w =
      and_then (preflight late feature_flags payload request w)
        (run_route lib (format (method ∷ " " ∷ path ∷ [])) payload)
