-- ===== src/Middleware/Cache.antt =====
-- middleware/cache.rs: its configuration, its keys, and `execute` over the cache store, the pipeline's
-- context and the request's. `print` is serde_json's text of a value, `hash_text` the text of a hash
-- of some texts in turn, as `DefaultHasher` computes it.
mod Tests
pub mod Saved
pub mod Decides
use Prim.Native.Char.{code}
use Prim.Native.String
use webpipe.Base.{
  ℕ, String, Bool, true, false, Option, none, some, List, [], ◌∷◌, ◌++◌, ◌==◌, nat_eq,
  if◌then◌else◌, and_then,
}
use webpipe.Base.Text.{format, trim, split, split_once, parse_u64}
use webpipe.Base.Effect.{ok, err}
use webpipe.Json.{Value, null, bool, number, string, object, get, get_field, as_str}
use webpipe.Config.{ConfigManager, resolve_config_as_json, as_bool, as_u64}
use webpipe.Executor.Context.{
  PipelineContext, PendingCacheSave, RequestContext, CachePolicy, CachedResponse,
}
use webpipe.Runtime.Lru.{LruCache}
use webpipe.Runtime.Cache.{
  CacheEntry, CacheStore, CacheLookup, fresh, stale, refresh, miss, lookup_response,
}
use webpipe.Middleware.RateLimit.{split_all, parse_bool}

pub record LocalCfg : Type 0 where
  pub enabled : Option Bool
  pub ttl : Option ℕ
  pub key_tpl : Option String

abbrev pub default_cfg : LocalCfg
default_cfg = record { enabled = none; ttl = none; key_tpl = none }

-- One `key: value`; `parse_bool` reads as the function of middleware/rate_limit.rs does.
unfoldable pub set_cfg : String → String → LocalCfg → LocalCfg
unfolding parse_bool parse_u64
set_cfg key val lc =
    if key == "enabled"
    then record lc { enabled = parse_bool val }
    else if key == "ttl"
    then record lc { ttl = parse_u64 val }
    else if key == "keyTemplate"
    then record lc { key_tpl = some val }
    else lc

abbrev set_cfg_part : Option (String × String) → LocalCfg → LocalCfg
set_cfg_part none lc = lc
set_cfg_part (some (k, v)) lc = set_cfg (trim k) (trim v) lc

unfoldable pub set_cfg_parts : List String → LocalCfg → LocalCfg
unfolding set_cfg split_once trim
set_cfg_parts [] lc = lc
set_cfg_parts (part ∷ parts) lc = set_cfg_parts parts (set_cfg_part (split_once ":" (trim part)) lc)

unfoldable pub parse_cfg : String → LocalCfg
unfolding set_cfg_parts split_all split
parse_cfg cfg = set_cfg_parts (split_all b',' (split 10 cfg)) default_cfg

abbrev or_null : Option Value → Value
or_null none = null
or_null (some v) = v

abbrev pub next_value : String → Value → Value
next_value seg (object fs) = or_null (get_field seg fs)
next_value seg _ = null

unfoldable pub lookup_segments : List String → Value → Value
unfolding get_field
lookup_segments [] cur = cur
lookup_segments (seg ∷ segs) cur =
    if seg == "" then lookup_segments segs cur else lookup_segments segs (next_value seg cur)

module _ (print : Value → String) where
  abbrev pub value_text : Value → String
  value_text null = ""
  value_text (bool true) = "true"
  value_text (bool false) = "false"
  value_text (number n) = n
  value_text (string s) = s
  value_text other = print other

  unfoldable pub lookup_path_string : Value → String → String
  unfolding lookup_segments split
  lookup_path_string input path = value_text (lookup_segments (split b'.' path) input)

  -- One pass over the template: outside of braces, or within them, after the text of a path. An
  -- opening brace that is never closed is kept, with what follows it.
  unfoldable pub render_from : Value → Option String → String → String
  unfolding lookup_path_string trim
  render_from input none String.[] = ""
  render_from input (some key) String.[] = String.◌++◌ "{" key
  render_from input none (String.◌∷◌ c s) =
      let outside = render_from input none s in
      let within = render_from input (some "") s in
      if nat_eq (code c) b'{' then within else String.◌∷◌ c outside
  render_from input (some key) (String.◌∷◌ c s) =
      let outside = render_from input none s in
      let within = render_from input (some (String.◌++◌ key (String.◌∷◌ c String.[]))) s in
      if nat_eq (code c) b'}'
      then String.◌++◌ (lookup_path_string input (trim key)) outside
      else within

  unfoldable pub render_key_template : String → Value → String
  unfolding render_from
  render_key_template template input = render_from input none template

  abbrev one_text : Option String → List String
  one_text none = []
  one_text (some s) = s ∷ []

  abbrev printed : Option Value → List String
  printed none = []
  printed (some v) = print v ∷ []

  abbrev str_field : String → Value → Option String
  str_field name input = and_then (get name input) λ v. as_str v

  -- What is hashed for a key without a template.
  unfoldable pub hashed_parts : String → PipelineContext → List String
  unfolding get
  hashed_parts config pipe =
      one_text pipe.current_step_id
      ++ config ∷ one_text (str_field "method" pipe.state)
      ++ one_text (str_field "path" pipe.state)
      ++ printed (get "query" pipe.state)
      ++ printed (get "params" pipe.state)

  module _ (hash_text : List String → String) where
    abbrev pub key_of : String → PipelineContext → Option String → String
    key_of config pipe (some template) = render_key_template template pipe.state
    key_of config pipe none = format ("pipeline:" ∷ hash_text (hashed_parts config pipe) ∷ [])

    unfoldable pub cache_key : String → PipelineContext → String
    unfolding render_key_template hashed_parts format parse_cfg
    cache_key config pipe = key_of config pipe (parse_cfg config).key_tpl

-- The settings of a step, with those of the program's `cache` configuration for what it leaves open.
module _ (env_var : String → Option String) (manager : ConfigManager) where
  abbrev global_setting : {A : Type 0} → String → (Value → Option A) → A → A
  global_setting name read d = elim (resolve_config_as_json env_var manager "cache") [
    | err _ ↦ d
    | ok cfg ↦ elim (and_then (get name cfg) read) [ none ↦ d | some a ↦ a ]
  ]

  abbrev or_global : {A : Type 0} → Option A → A → A
  or_global (some a) d = a
  or_global none d = d

  unfoldable pub effective_enabled : String → Bool
  unfolding parse_cfg resolve_config_as_json get
  effective_enabled config =
      or_global (parse_cfg config).enabled (global_setting "enabled" (λ v. as_bool v) true)

  unfoldable pub effective_ttl : String → ℕ
  unfolding parse_cfg resolve_config_as_json get as_u64
  effective_ttl config = or_global (parse_cfg config).ttl (global_setting "defaultTtl" as_u64 60)

-- The store that all requests share, the context of the pipeline and that of the request.
abbrev pub Cached : Type 0 → Type 0 → Type 0
Cached C W = CacheStore C × PipelineContext × RequestContext W

abbrev with_policy : {W : Type 0} → CachePolicy → RequestContext W → RequestContext W
with_policy policy ctx = record ctx {
  metadata = record ctx.metadata { cache_policy = some policy };
}

abbrev pub with_save : PendingCacheSave → PipelineContext → PipelineContext
with_save save pipe = record pipe { pending_cache_saves = pipe.pending_cache_saves ++ save ∷ [] }

abbrev pub with_hit : CachedResponse → PipelineContext → PipelineContext
with_hit response pipe = record pipe { cache_hit = some response }

unfoldable pub after_lookup : String → ℕ → CacheLookup → PipelineContext → PipelineContext
after_lookup key ttl (fresh response) pipe = with_hit response pipe
after_lookup key ttl (stale response) pipe = with_hit response pipe
after_lookup key ttl (refresh _) pipe =
    with_save (record { key = key; ttl = ttl; refreshing = true }) pipe
after_lookup key ttl miss pipe =
    with_save (record { key = key; ttl = ttl; refreshing = false }) pipe

module _ {C W : Type 0} (lru : LruCache C CacheEntry) (print : Value → String)
    (hash_text : List String → String) (env_var : String → Option String)
    (manager : ConfigManager) where
  unfoldable pub execute_enabled : ℕ → String → Cached C W → Cached C W
  unfolding cache_key effective_ttl after_lookup lookup_response parse_cfg
  execute_enabled now config (store, pipe, ctx) =
      let key = cache_key print hash_text config pipe in
      let ttl = effective_ttl env_var manager config in
      let template = (parse_cfg config).key_tpl in
      let (store', answer) = lookup_response lru now key store in
      (
        store',
        after_lookup key ttl answer pipe,
        with_policy (record { enabled = true; ttl = ttl; key_template = template }) ctx,
      )

  -- It answers `Ok` with no content type on every path.
  unfoldable pub execute : ℕ → String → Cached C W → Cached C W
  unfolding execute_enabled effective_enabled
  execute now config s =
      if effective_enabled env_var manager config then execute_enabled now config s else s
