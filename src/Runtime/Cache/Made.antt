-- ===== src/Runtime/Cache/Made.antt =====
-- `CacheStore` of runtime/context.rs: the stores that the constructor and the operations make, in any
-- order of the operations.
use webpipe.Base.{ℕ, ◌≤◌, String, Option, [], ◌≡◌, arith}
use webpipe.Json.{Value}
use webpipe.Executor.Context.{CachedResponse}
use webpipe.Runtime.Lru.{LruCache, LruLaws}
use webpipe.Runtime.Cache.{CacheEntry, CacheStore, lookup_response, clear_refresh, put_response}
use webpipe.Runtime.Cache.Build.{
  new_with_limits, with_swr_grace, with_refresh_takeover, stats, default_max_entry_size,
  default_max_total_size, new,
}
use webpipe.Runtime.Cache.Accounts.{
  held, ReportsAtMost, lookup_response-ReportsAtMost, clear_refresh-ReportsAtMost,
  put_response-ReportsAtMost,
}
use webpipe.Runtime.Cache.Limit.{
  WithinLimit, lookup_response-WithinLimit, clear_refresh-WithinLimit, put_response-WithinLimit,
}

module _ {C : Type 0} (lru : LruCache C CacheEntry) (new_lru : ℕ → C)
    (estimate_size : Value → ℕ) where
  -- The lock orders the operations of all requests: each is a step on the store.
  pub data Step (s : CacheStore C) : CacheStore C → Type 0 where
    looks_up : (now : ℕ) (key : String) → Step s (lookup_response lru now key s).0
    clears : (key : String) → Step s (clear_refresh lru key s)
    puts :
        (now : ℕ) (key : String) (response : CachedResponse) (ttl_secs : Option ℕ)
        → Step s (put_response lru estimate_size now key response ttl_secs s)

  pub data Made : CacheStore C → Type 0 where
    built :
        (max_entries default_ttl_secs max_entry_size max_total_size : ℕ)
        → Made (new_with_limits new_lru max_entries default_ttl_secs max_entry_size max_total_size)
    graced : {s : CacheStore C} → (secs : ℕ) → Made s → Made (with_swr_grace secs s)
    taken_over : {s : CacheStore C} → (secs : ℕ) → Made s → Made (with_refresh_takeover secs s)
    stepped : {s t : CacheStore C} → Made s → Step s t → Made t

  pub new-Made :
      (max_entries default_ttl_secs : ℕ) → Made (new new_lru max_entries default_ttl_secs)
  unfolding new
  new-Made max_entries default_ttl_secs =
      built max_entries default_ttl_secs default_max_entry_size default_max_total_size

  abbrev Sound : CacheStore C → Type 0
  Sound s = ReportsAtMost lru s × WithinLimit lru s

  module _ (laws : LruLaws lru) (empty : (n : ℕ) → lru.entries (new_lru n) ≡ []) where
    Step-Sound : (s t : CacheStore C) → Step s t → Sound s → Sound t
    Step-Sound s t (looks_up now key) (held, limit) = (
      lookup_response-ReportsAtMost lru laws now key s held,
      lookup_response-WithinLimit lru now key s limit,
    )
    Step-Sound s t (clears key) (held, limit) =
        (clear_refresh-ReportsAtMost lru laws key s held, clear_refresh-WithinLimit lru key s limit)
    Step-Sound s t (puts now key response ttl_secs) (held, limit) = (
      put_response-ReportsAtMost lru laws estimate_size now key response ttl_secs s held,
      put_response-WithinLimit lru estimate_size now key response ttl_secs s limit,
    )

    Made-Sound : (s : CacheStore C) → Made s → Sound s
    unfolding new_with_limits
    Made-Sound s (built n d e t) = (omega arith, omega arith)
    Made-Sound s (graced {s = r} secs m) = Made-Sound r m
    Made-Sound s (taken_over {s = r} secs m) = Made-Sound r m
    Made-Sound s (stepped {s = r} m k) = Step-Sound r s k (Made-Sound r m)

    -- Whatever operations a store has been through since it was built, with any limits: the total size
    -- in its statistics is at most the limit there, and at most what the entries of the store take.
    pub stats-Made :
        (s : CacheStore C)
        → Made s
        → ((stats lru s).total_size_bytes ≤ (stats lru s).max_total_size)
          × ((stats lru s).total_size_bytes ≤ held lru s.inner)
    unfolding stats
    stats-Made s m = let (held, limit) = Made-Sound s m in (limit, held)
