-- ===== src/Middleware/RateLimit/Execute/Served.antt =====
-- How many requests the middleware lets pass.
use webpipe.Base.{
  ℕ, suc, String, Bool, true, false, Option, none, some, List, [], ◌∷◌, ◌≡◌, refl, if◌then◌else◌,
  ap, ◌∙◌,
}
use webpipe.Base.Effect.{Result, ok, err, ◌>>=◌, pure, throw}
use webpipe.Json.{Value}
use webpipe.Executor.Error.{WebPipeError}
use webpipe.Executor.Context.{RequestContext}
use webpipe.Runtime.Lru.{LruCache}
use webpipe.Runtime.RateLimit.{RateLimitEntry, Verdict, check_and_increment}
use webpipe.Runtime.RateLimit.Laws.{admitted}
use webpipe.Middleware.RateLimit.{parse_config, interpolate_key}
use webpipe.Middleware.RateLimit.Execute.{
  record_status, status_of, exceeded, is_enabled, execute, limit_request, limit_key, at_least_one,
}

module _ {C W : Type 0} (lru : LruCache C RateLimitEntry) (print : Value → String) where
  abbrev counted : Option ((C × RequestContext W) × Result WebPipeError (Unit {0})) → ℕ → ℕ
  counted (some (s, ok u)) n = suc n
  counted _ n = n

  abbrev store_after : C → Option ((C × RequestContext W) × Result WebPipeError (Unit {0})) → C
  store_after c (some (s, r)) = s.0
  store_after c none = c

  -- How many of the requests pass that come at these times, each with the same configuration and
  -- state and with a context of its own, the store going from one to the next.
  unfoldable pub served : List ℕ → String → Value → RequestContext W → C → ℕ
  unfolding execute
  served [] config input ctx c = 0
  served (now ∷ later) config input ctx c =
      let answer = execute lru print now config input (c, ctx) in
      let rest = served later config input ctx (store_after c answer) in counted answer rest

module _ {C W : Type 0} (lru : LruCache C RateLimitEntry) (print : Value → String) where
  pass_or_fail :
      (b : Bool) (e : WebPipeError) (s : C × RequestContext W)
      → (if b then pure tt else throw e) s ≡ some (s, (if b then ok tt else err e))
  unfolding pure throw
  pass_or_fail true e s = refl
  pass_or_fail false e s = refl

  -- A request passes if the check of its key allows it, and the store is what the check leaves.
  limit_key-check :
      (now : ℕ) (key : String) (limit window_secs : ℕ) (burst : Option ℕ) (scope : Option String)
      (c c' : C) (ctx : RequestContext W) (v : Verdict)
      → check_and_increment lru now key limit window_secs burst c ≡ (c', v)
      → limit_key lru now key limit window_secs burst scope (c, ctx)
        ≡ some (
          record_status (status_of key scope v) (c', ctx),
          (if v.0 then ok tt else err (exceeded key window_secs v)),
        )
  unfolding limit_key ◌>>=◌
  limit_key-check now key limit window_secs burst scope c c' ctx v h = rw h (
      pass_or_fail v.0 (exceeded key window_secs v)
        (record_status (status_of key scope v) (c', ctx)))

  execute-limit_key :
      (now : ℕ) (config : String) (input : Value) (s : C × RequestContext W) (template : String)
      (limit window_secs : ℕ)
      → is_enabled (parse_config config) ≡ true
      → (parse_config config).key_template ≡ some template
      → (parse_config config).limit ≡ some limit
      → (parse_config config).window_secs ≡ some window_secs
      → execute lru print now config input s
        ≡ limit_key lru now
            (interpolate_key print template input)
            limit
            (at_least_one window_secs)
            (parse_config config).burst
            (parse_config config).scope
            s
  unfolding execute limit_request ◌>>=◌
  execute-limit_key now config input s template limit window_secs enabled has_template has_limit
        has_window =
      rw (enabled, has_template, has_limit, has_window) refl

  counted_verdict :
      (b : Bool) (e : WebPipeError) (s : C × RequestContext W) (n : ℕ)
      → counted lru print (some (s, (if b then ok tt else err e))) n ≡ (if b then suc n else n)
  counted_verdict true e s n = refl
  counted_verdict false e s n = refl

  -- The middleware lets pass as many requests as the store admits for the key that the template makes
  -- of the state, with the limit and the burst of the configuration and its window, which counts as
  -- one second if it is less: if the configuration is enabled and has a template, a limit and a window.
  pub served-admitted :
      (times : List ℕ) (config : String) (input : Value) (ctx : RequestContext W) (c : C)
      (template : String) (limit window_secs : ℕ)
      → is_enabled (parse_config config) ≡ true
      → (parse_config config).key_template ≡ some template
      → (parse_config config).limit ≡ some limit
      → (parse_config config).window_secs ≡ some window_secs
      → served lru print times config input ctx c
        ≡ admitted lru times
            (interpolate_key print template input)
            limit
            (at_least_one window_secs)
            (parse_config config).burst
            c
  unfolding served admitted
  served-admitted [] config input ctx c template limit window_secs on has_t has_l has_w = refl
  served-admitted (now ∷ later) config input ctx c template limit window_secs on has_t has_l has_w =
      let key = interpolate_key print template input in
      let burst = (parse_config config).burst in
      let (c', v) = check_and_increment lru now key limit (at_least_one window_secs) burst c in
      let ran =
        execute-limit_key now config input (c, ctx) template limit window_secs on has_t has_l has_w
        ∙ limit_key-check now key limit (at_least_one window_secs) burst (parse_config config).scope
            c c' ctx v refl in
      let rest =
        served-admitted later config input ctx c' template limit window_secs on has_t has_l has_w in
      ap
        (λ q.
          counted lru print q (served lru print later config input ctx (store_after lru print c q)))
        ran
      ∙ (counted_verdict v.0 _
            (record_status (status_of key (parse_config config).scope v) (c', ctx)) _
          ∙ ap (λ n. if v.0 then suc n else n) rest)
