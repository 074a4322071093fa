-- ===== src/Runtime/Cache/Refresher.antt =====
-- `CacheStore` of runtime/context.rs: who is told to refresh an entry while one request refreshes it.
use webpipe.Base.{ℕ, ◌-◌, ◌≤◌, ◌<◌, String, false, Option, some, ◌≡◌, ltb}
use webpipe.Json.{Value}
use webpipe.Executor.Context.{CachedResponse}
use webpipe.Runtime.Clock.{as_secs}
use webpipe.Runtime.Lru.{LruCache, LruLaws, found}
use webpipe.Runtime.Cache.Lookup.{marked}
use webpipe.Runtime.Cache.Survives.{Survives}
use webpipe.Runtime.Cache.{CacheEntry, CacheStore, lookup_response, clear_refresh, put_response}

module _ {C : Type 0} (lru : LruCache C CacheEntry) (estimate_size : Value → ℕ) where
  -- What other requests do to the store from one time to another, while none releases the refresh
  -- slot of the key or puts a response under it: lookups, of the key too, and anything else for other
  -- keys.
  pub data Meanwhile (key : String) (now later : ℕ) (s : CacheStore C) : CacheStore C → Type 0 where
    nothing : Meanwhile key now later s s
    asked :
        {t : CacheStore C}
        → (time : ℕ) (k : String) → now ≤ time
        → time ≤ later
        → Meanwhile key now later s t
        → Meanwhile key now later s (lookup_response lru time k t).0
    released :
        {t : CacheStore C}
        → (k : String) → ¬ (k ≡ key)
        → Meanwhile key now later s t
        → Meanwhile key now later s (clear_refresh lru k t)
    stored :
        {t : CacheStore C}
        → (time : ℕ) (k : String) (response : CachedResponse) (ttl_secs : Option ℕ) → ¬ (k ≡ key)
        → Meanwhile key now later s t
        → Meanwhile key now later s (put_response lru estimate_size time k response ttl_secs t)

module _ {C : Type 0} (lru : LruCache C CacheEntry) (laws : LruLaws lru) (estimate_size : Value → ℕ)
    (key : String) (now later : ℕ) (e : CacheEntry) (takeover : ℕ)
    (old : ltb now e.fresh_until ≡ false) (usable : later < e.stale_until)
    (before : as_secs (later - now) < takeover) where
  abbrev marked_at : CacheEntry
  marked_at = marked lru laws now e

  -- The entry is marked as being refreshed, or it was put out.
  abbrev Guarded : CacheStore C → Type 0
  Guarded s =
      Survives (some (marked_at)) (found lru key s.inner) × (s.refresh_takeover_secs ≡ takeover)
