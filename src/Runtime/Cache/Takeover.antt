-- ===== src/Runtime/Cache/Takeover.antt =====
-- `CacheStore` of runtime/context.rs: the operations keep the time for a takeover.
use webpipe.Base.{ℕ, String, Bool, true, false, Option, none, some, ◌≡◌, refl, arith, if◌then◌else◌}
use webpipe.Json.{Value}
use webpipe.Executor.Context.{CachedResponse}
use webpipe.Runtime.Lru.{LruCache}
use webpipe.Runtime.Cache.{
  CacheEntry, CacheStore, lookup_response, looked_up, looked_up_entry, clear_refresh, put_response,
  put_sized, pushed, with_inner,
}

module _ {C : Type 0} (lru : LruCache C CacheEntry) where
  -- The operations keep the settings.
  abbrev pub SameTakeover : CacheStore C → CacheStore C → Type 0
  SameTakeover s t = t.refresh_takeover_secs ≡ s.refresh_takeover_secs

  if-takeover :
      (b : Bool) (s t : CacheStore C) → SameTakeover s t → SameTakeover s (if b then s else t)
  if-takeover true s t h = refl
  if-takeover false s t h = h

  looked_up_entry-takeover :
      (now : ℕ) (key : String) (q : Option CacheEntry) (s : CacheStore C)
      → SameTakeover s (looked_up_entry lru now key q s).0
  unfolding looked_up
  looked_up_entry-takeover now key none s = refl
  looked_up_entry-takeover now key (some e) s = ground arith

  pub lookup_response-takeover :
      (now : ℕ) (key : String) (s : CacheStore C) → SameTakeover s (lookup_response lru now key s).0
  unfolding lookup_response
  lookup_response-takeover now key s =
      looked_up_entry-takeover now key (lru.get_mut key s.inner).1
        (with_inner lru (lru.get_mut key s.inner).0 s)

  pub clear_refresh-takeover :
      (key : String) (s : CacheStore C) → SameTakeover s (clear_refresh lru key s)
  unfolding clear_refresh
  clear_refresh-takeover key s = refl

  pushed-takeover :
      (key : String) (e : CacheEntry) (c : C) (size : ℕ) (room : Bool) (s : CacheStore C)
      → SameTakeover s (pushed lru key e ((c, size), room) s)
  unfolding pushed
  pushed-takeover key e c size true s = refl
  pushed-takeover key e c size false s = refl

  pub put_response-takeover :
      (estimate_size : Value → ℕ) (now : ℕ) (key : String) (response : CachedResponse)
      (ttl_secs : Option ℕ) (s : CacheStore C)
      → SameTakeover s (put_response lru estimate_size now key response ttl_secs s)
  unfolding put_response put_sized
  put_response-takeover estimate_size now key response ttl_secs s =
      if-takeover _ s _ (pushed-takeover key _ _ _ _ s)
