-- ===== src/Middleware/Cache/Saved.antt =====
-- middleware/cache.rs with executor/mod.rs and runtime/context.rs: a response on its way from the end
-- of one pipeline to the cache step of a later one.
use webpipe.Base.{ℕ, String, true, Option, none, some, List, ◌≡◌}
use webpipe.Json.{Value}
use webpipe.Config.{ConfigManager}
use webpipe.Executor.Context.{PipelineContext, CachedResponse, PipelineOutput}
use webpipe.Executor.Env.{ExecutionEnv, Sys}
use webpipe.Executor.Nested.{Nested}
use webpipe.Ast.{Regular}
use webpipe.Base.Effect.{ok}
use webpipe.Runtime.Lru.{LruCache}
use webpipe.Runtime.Cache.{CacheEntry, CacheStore, put_response}
use webpipe.Middleware.Cache.{execute}

-- What is cached of an output.
abbrev pub answer_of : PipelineOutput → CachedResponse
answer_of out = record {
  body = out.state;
  content_type = out.content_type;
  status_code = out.status_code;
}

module _ {C : Type 0} (lru : LruCache C CacheEntry) where
  abbrev SameLimits : CacheStore C → CacheStore C → Type 0
  SameLimits s t = (t.max_entry_size ≡ s.max_entry_size) × (t.max_total_size ≡ s.max_total_size)

  -- The world of the executor is the store, and its service puts a response there at this time.
  abbrev pub PutsAt : (Value → ℕ) → ℕ → ExecutionEnv (CacheStore C) → Type 0
  PutsAt size done env =
      (key : String) (response : CachedResponse) (ttl : Option ℕ) (store : CacheStore C)
      → env.services.put_response key response ttl store
        ≡ put_response lru size done key response ttl store

-- A `cache` step without a condition.
abbrev pub IsCacheStep : Regular → Type 0
IsCacheStep r = (r.name ≡ "cache") × (r.config_present ≡ true) × (r.condition ≡ none)

module _ (print : Value → String) (hash_text : List String → String)
    (env_var : String → Option String) (manager : ConfigManager) {C : Type 0}
    (lru : LruCache C CacheEntry) where
  -- The service of the executor is this middleware, at one time.
  abbrev pub CachesAt : ℕ → ExecutionEnv (CacheStore C) → Type 0
  CachesAt now env =
      (args : List String) (config : String) (target : Option String) (sys : Sys (CacheStore C))
      (pipe : PipelineContext)
      → let (store', pipe', req') =
          execute lru print hash_text env_var manager now config (sys.world, pipe, sys.req) in
        env.services.call "cache" args config target (sys, pipe)
        ≡ some ((record { world = store'; req = req' }, pipe'), ok none)
