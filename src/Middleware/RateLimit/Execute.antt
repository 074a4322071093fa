-- ===== src/Middleware/RateLimit/Execute.antt =====
-- middleware/rate_limit.rs: `execute`, on the store that all requests share and the request's context.
pub mod Served
use webpipe.Base.{ℕ, String, Bool, true, Option, none, some, [], ◌∷◌, leb, if◌then◌else◌}
use webpipe.Base.Text.{format, decimal}
use webpipe.Base.Effect.{Effect, Result, ok, err, pure, throw, lift, update, modify, ◌>>=◌, ◌>>◌}
use webpipe.Json.{Value}
use webpipe.Executor.Error.{WebPipeError, config_error, rate_limit_exceeded}
use webpipe.Executor.Context.{RequestContext, RateLimitStatus}
use webpipe.Runtime.Lru.{LruCache}
use webpipe.Runtime.RateLimit.{RateLimitEntry, Verdict, check_and_increment}
use webpipe.Middleware.RateLimit.{RateLimitConfig, parse_config, interpolate_key}

abbrev pub required : String → Option String → Result WebPipeError String
required name none = err (config_error (format ("rateLimit: " ∷ name ∷ " is required" ∷ [])))
required name (some s) = ok s

abbrev pub required_number : String → Option ℕ → Result WebPipeError ℕ
required_number name none = err (config_error (format ("rateLimit: " ∷ name ∷ " is required" ∷ [])))
required_number name (some n) = ok n

abbrev pub at_least_one : ℕ → ℕ
at_least_one n = if leb n 1 then 1 else n

abbrev pub is_enabled : RateLimitConfig → Bool
is_enabled cfg = elim cfg.enabled [ none ↦ true | some b ↦ b ]

abbrev pub status_of : String → Option String → Verdict → RateLimitStatus
status_of key scope (allowed, count, limit, retry_after) = record {
  allowed = allowed;
  current_count = count;
  limit = limit;
  retry_after_secs = retry_after;
  key = key;
  scope = scope;
}

pub exceeded : String → ℕ → Verdict → WebPipeError
unfolding format decimal
exceeded key window_secs (_, count, limit, retry_after) = rate_limit_exceeded (
    format (
      "Rate limit exceeded for key '"
      ∷ key
      ∷ "': "
      ∷ decimal count
      ∷ "/"
      ∷ decimal limit
      ∷ " requests in "
      ∷ decimal window_secs
      ∷ "s window. Retry after "
      ∷ decimal retry_after
      ∷ "s"
      ∷ []))

-- On the store and the context of the request.
abbrev pub Limited : Type 0 → Type 0 → Type 0
Limited C W = Effect (C × RequestContext W) WebPipeError (Unit {0})

module _ {C W : Type 0} where
  abbrev pub record_status : RateLimitStatus → C × RequestContext W → C × RequestContext W
  record_status status (c, ctx) =
      (c, record ctx { metadata = record ctx.metadata { rate_limit_status = some status } })

module _ {C W : Type 0} (lru : LruCache C RateLimitEntry) where
  abbrev pub checked_at :
      ℕ → String → ℕ → ℕ → Option ℕ → C × RequestContext W → (C × RequestContext W) × Verdict
  checked_at now key limit window_secs burst (c, ctx) =
      let (c', verdict) = check_and_increment lru now key limit window_secs burst c in
      ((c', ctx), verdict)

  -- From the check of the store on.
  unfoldable pub limit_key : ℕ → String → ℕ → ℕ → Option ℕ → Option String → Limited C W
  unfolding exceeded check_and_increment
  limit_key now key limit window_secs burst scope = do
    verdict ← update (checked_at now key limit window_secs burst)
    modify (record_status (status_of key scope verdict))
    if verdict.0 then pure tt else throw (exceeded key window_secs verdict)

module _ {C W : Type 0} (lru : LruCache C RateLimitEntry) (print : Value → String) where
  unfoldable pub limit_request : ℕ → RateLimitConfig → Value → Limited C W
  unfolding limit_key interpolate_key format
  limit_request now cfg input = do
    key_template ← lift (required "keyTemplate" cfg.key_template)
    limit ← lift (required_number "limit" cfg.limit)
    window_secs ← lift (required_number "window" cfg.window_secs)
    limit_key lru now (interpolate_key print key_template input) limit (at_least_one window_secs)
        cfg.burst cfg.scope

  -- The state of the pipeline is left as it is, and there is no content type.
  unfoldable pub execute : ℕ → String → Value → Limited C W
  unfolding limit_request parse_config
  execute now config input =
      if is_enabled (parse_config config)
      then limit_request now (parse_config config) input
      else pure tt
