-- ===== src/Middleware/Cache/Decides.antt =====
-- middleware/cache.rs: what `execute` makes of the entry that the store holds.
use webpipe.Base.{
  ℕ, ◌-◌, ◌≤◌, ◌<◌, String, Bool, true, false, Option, none, some, [], ◌∷◌, ◌++◌, List, ◌≡◌, refl,
  ◌⊎◌, inl, inr, ltb, leb, arith, Bool-cases, Option-cases, ap,
}
use webpipe.Json.{Value}
use webpipe.Config.{ConfigManager}
use webpipe.Executor.Context.{PipelineContext, RequestContext}
use webpipe.Runtime.Lru.{LruCache, LruLaws, found}
use webpipe.Runtime.Clock.{as_secs}
use webpipe.Runtime.Cache.Lookup.{lookup_response-found, lookup_response-missing}
use webpipe.Runtime.Cache.{
  CacheEntry, CacheStore, can_take_over, looked_up, lookup_response, with_inner,
}
use webpipe.Middleware.Cache.{
  Cached, parse_cfg, cache_key, effective_enabled, effective_ttl, after_lookup, execute_enabled,
  execute,
}

module _ {C W : Type 0} (lru : LruCache C CacheEntry) (print : Value → String)
    (hash_text : List String → String) (env_var : String → Option String)
    (manager : ConfigManager) where
  execute-disabled :
      (now : ℕ) (config : String) (s : Cached C W)
      → effective_enabled env_var manager config ≡ false
      → execute lru print hash_text env_var manager now config s ≡ s
  unfolding execute
  execute-disabled now config s off = rw off refl

  pub execute-enabled :
      (now : ℕ) (config : String) (s : Cached C W)
      → effective_enabled env_var manager config ≡ true
      → execute lru print hash_text env_var manager now config s
        ≡ execute_enabled lru print hash_text env_var manager now config s
  unfolding execute
  execute-enabled now config s on = rw on refl

-- Another request is refreshing the entry, and its time for that is not over.
abbrev pub BeingRefreshed : ℕ → ℕ → CacheEntry → Type 0
BeingRefreshed now takeover e =
    (started : ℕ) × (e.refresh_started ≡ some started) × (as_secs (now - started) < takeover)

-- Nobody is, or its time is over.
abbrev pub Free : ℕ → ℕ → CacheEntry → Type 0
Free now takeover e =
    (e.refresh_started ≡ none)
    ⊎ ((started : ℕ) × (e.refresh_started ≡ some started) × (takeover ≤ as_secs (now - started)))

-- The pipeline is to stop with the response of the entry.
abbrev pub Stops : CacheEntry → PipelineContext → PipelineContext → Type 0
Stops e pipe pipe' = pipe' ≡ record pipe { cache_hit = some e.response }

-- The pipeline goes on, and what it computes is to be saved.
abbrev pub Saves : Bool → String → ℕ → PipelineContext → PipelineContext → Type 0
Saves refreshing key ttl pipe pipe' = pipe' ≡ record pipe {
  pending_cache_saves =
      pipe.pending_cache_saves ++ record { key = key; ttl = ttl; refreshing = refreshing } ∷ [];
}

-- The decision of a step for its pipeline, from the entry under its key.
pub data Decision (now takeover : ℕ) (key : String) (ttl : ℕ) (pipe pipe' : PipelineContext)
    : Option CacheEntry → Type 0 where
  no_entry : Saves false key ttl pipe pipe' → Decision now takeover key ttl pipe pipe' none
  serves_fresh :
      {e : CacheEntry}
      → now < e.fresh_until
      → Stops e pipe pipe'
      → Decision now takeover key ttl pipe pipe' (some e)
  serves_stale :
      {e : CacheEntry}
      → e.fresh_until ≤ now
      → now < e.stale_until
      → BeingRefreshed now takeover e
      → Stops e pipe pipe'
      → Decision now takeover key ttl pipe pipe' (some e)
  refreshes :
      {e : CacheEntry}
      → e.fresh_until ≤ now
      → now < e.stale_until
      → Free now takeover e
      → Saves true key ttl pipe pipe'
      → Decision now takeover key ttl pipe pipe' (some e)
  expired :
      {e : CacheEntry}
      → e.fresh_until ≤ now
      → e.stale_until ≤ now
      → Saves false key ttl pipe pipe'
      → Decision now takeover key ttl pipe pipe' (some e)

slot :
    (now takeover : ℕ) (e : CacheEntry)
    → ((can_take_over now takeover e.refresh_started ≡ true) × Free now takeover e)
      ⊎ ((can_take_over now takeover e.refresh_started ≡ false) × BeingRefreshed now takeover e)
slot now takeover e = elim (Option-cases e.refresh_started) [
  | inl nobody ↦ inl (rw nobody refl, inl nobody)
  | inr (started, mark) ↦ elim (Bool-cases (leb takeover (as_secs (now - started)))) [
    | inl over ↦ inl (rw (mark, over) refl, inr (started, mark, ground arith))
    | inr early ↦ inr (rw (mark, early) refl, (started, mark, ground arith))
  ]
]

module _ {C : Type 0} (lru : LruCache C CacheEntry) (key : String) (ttl : ℕ)
    (pipe : PipelineContext) where
  abbrev Decides : ℕ → CacheStore C → Option CacheEntry → Type 0
  Decides now s q =
      Decision now s.refresh_takeover_secs key ttl pipe
        (after_lookup key ttl (lookup_response lru now key s).1 pipe) q

  looked_up-Decision :
      (now : ℕ) (e : CacheEntry) (s : CacheStore C)
      → Decision now s.refresh_takeover_secs key ttl pipe
          (after_lookup key ttl (looked_up lru now key e s).1 pipe)
          (some e)
  unfolding looked_up after_lookup
  looked_up-Decision now e s = elim (Bool-cases (ltb now e.fresh_until)) [
    | inl young ↦ serves_fresh (ground arith) (rw young refl)
    | inr old ↦ elim (Bool-cases (ltb now e.stale_until)) [
      | inr gone ↦ expired (ground arith) (ground arith) (rw (old, gone) refl)
      | inl usable ↦ elim (slot now s.refresh_takeover_secs e) [
        | inl (may, free) ↦
            refreshes (ground arith) (ground arith) free (rw (old, usable, may) refl)
        | inr (may_not, held) ↦
            serves_stale (ground arith) (ground arith) held (rw (old, usable, may_not) refl)
      ]
    ]
  ]

  missing-Saves :
      (laws : LruLaws lru) (now : ℕ) (s : CacheStore C)
      → found lru key s.inner ≡ none
      → Saves false key ttl pipe (after_lookup key ttl (lookup_response lru now key s).1 pipe)
  unfolding after_lookup
  missing-Saves laws now s missing = rw (lookup_response-missing lru laws now key s missing) refl

  lookup_response-Decision :
      (laws : LruLaws lru) (now : ℕ) (s : CacheStore C) → Decides now s (found lru key s.inner)
  lookup_response-Decision laws now s = elim (Option-cases (found lru key s.inner)) [
    | inl missing ↦ rw missing (no_entry (missing-Saves laws now s missing))
    | inr (e, here) ↦
        rw (here, ap (λ r. r.1) (lookup_response-found lru laws now key s e here))
          (looked_up-Decision now e (with_inner lru (lru.get_mut key s.inner).0 s))
  ]

module _ (print : Value → String) (hash_text : List String → String)
    (env_var : String → Option String) (manager : ConfigManager) where
  module _ {C W : Type 0} (lru : LruCache C CacheEntry) where
    -- Where caching is enabled, the entry under the key of the request decides. One that is fresh, or
    -- stale while another request refreshes it, stops the pipeline with its response. If there is
    -- none, or its stale time is over, the pipeline goes on, and its result is to be saved under the
    -- key and for the time to live of the step; so it is where the entry is stale and nobody refreshes
    -- it, or somebody has for as long as a takeover takes, and the save is then marked as a refresh.
    -- In all cases the policy is noted for the request.
    pub execute_decides :
        (laws : LruLaws lru) (now : ℕ) (config : String) (store : CacheStore C)
        (pipe : PipelineContext) (ctx : RequestContext W)
        → effective_enabled env_var manager config ≡ true
        → let key = cache_key print hash_text config pipe in
          let ttl = effective_ttl env_var manager config in
          let (_, pipe', ctx') =
            execute lru print hash_text env_var manager now config (store, pipe, ctx) in
          Decision now store.refresh_takeover_secs key ttl pipe pipe' (found lru key store.inner)
          × (ctx'.metadata.cache_policy
              ≡ some
                  (record { enabled = true; ttl = ttl; key_template = (parse_cfg config).key_tpl }))
    unfolding execute_enabled
    execute_decides laws now config store pipe ctx on =
        rw (execute-enabled lru print hash_text env_var manager now config (store, pipe, ctx) on) (
          lookup_response-Decision lru (cache_key print hash_text config pipe)
              (effective_ttl env_var manager config) pipe laws now store,
          refl,
        )
