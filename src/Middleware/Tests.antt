-- ===== src/Middleware/Tests.antt =====
-- The laws of the rate-limit middleware at a concrete configuration.
use webpipe.Base.{ℕ, String, true, some, [], ◌∷◌, ◌≡◌, refl}
use webpipe.Base.Text.{split, split_once, trim, is_whitespace, parse_u64}
use webpipe.Json.{Value, string, object, field, end}
use webpipe.Executor.Context.{new_context}
use webpipe.Runtime.Lru.Bounded.{Bounded, bounded}
use webpipe.Runtime.RateLimit.{RateLimitEntry}
use webpipe.Runtime.RateLimit.Laws.{admitted}
use webpipe.Middleware.RateLimit.{
  interpolate_key, parse_config, parse_duration, set_option, set_parts, split_all,
}
use webpipe.Middleware.RateLimit.Execute.{at_least_one, is_enabled}
use webpipe.Middleware.RateLimit.Execute.Served.{served, served-admitted}

abbrev print : Value → String
print v = ""

abbrev request : Value
request = object (field "ip" (string "10.0.0.1") end)

abbrev config : String
config = "keyTemplate: ip-{ip}, limit: 2, window: 1m"

config_enabled : is_enabled (parse_config config) ≡ true
unfolding parse_config set_parts split_all split set_option split_once trim is_whitespace
config_enabled = refl

config_template : (parse_config config).key_template ≡ some "ip-{ip}"
unfolding parse_config set_parts split_all split set_option split_once trim is_whitespace
config_template = refl

config_limit : (parse_config config).limit ≡ some 2
unfolding parse_config set_parts split_all split set_option split_once trim is_whitespace parse_u64
config_limit = refl

config_window : (parse_config config).window_secs ≡ some 60
unfolding parse_config set_parts split_all split set_option split_once trim is_whitespace parse_u64
    parse_duration
config_window = refl

abbrev no_counters : Bounded RateLimitEntry
no_counters = (10, [])

served-admitted_example :
    served bounded print (1 ∷ 2 ∷ 3 ∷ []) config request (new_context ℕ) no_counters
    ≡ admitted bounded
        (1 ∷ 2 ∷ 3 ∷ [])
        (interpolate_key print "ip-{ip}" request)
        2
        (at_least_one 60)
        (parse_config config).burst
        no_counters
served-admitted_example =
    served-admitted bounded print (1 ∷ 2 ∷ 3 ∷ []) config request (new_context ℕ) no_counters
      "ip-{ip}" 2 60 config_enabled config_template config_limit config_window
