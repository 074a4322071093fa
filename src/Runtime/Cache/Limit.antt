-- ===== src/Runtime/Cache/Limit.antt =====
-- The size that the store reports against its limit.
use webpipe.Base.{
  ℕ, zero, suc, ◌+◌, ◌-◌, ◌≤◌, String, Bool, true, false, Option, none, some, ◌≡◌, refl, arith,
  if◌then◌else◌, length,
}
use webpipe.Json.{Value}
use webpipe.Executor.Context.{CachedResponse}
use webpipe.Runtime.Lru.{LruCache}
use webpipe.Runtime.Cache.{
  CacheEntry, CacheStore, lookup_response, looked_up, looked_up_entry, clear_refresh, evict, pushed,
  put_sized, put_response, removed_size, put_out_size,
}

module _ {C : Type 0} (lru : LruCache C CacheEntry) where
  -- The store reports no more than its limit.
  abbrev pub WithinLimit : CacheStore C → Type 0
  WithinLimit s = s.current_size ≤ s.max_total_size

  looked_up_entry-WithinLimit :
      (now : ℕ) (key : String) (q : Option CacheEntry) (s : CacheStore C)
      → WithinLimit s
      → WithinLimit (looked_up_entry lru now key q s).0
  unfolding looked_up
  looked_up_entry-WithinLimit now key none s h = h
  looked_up_entry-WithinLimit now key (some e) s h = ground arith

  pub lookup_response-WithinLimit :
      (now : ℕ) (key : String) (s : CacheStore C)
      → WithinLimit s
      → WithinLimit (lookup_response lru now key s).0
  unfolding lookup_response
  lookup_response-WithinLimit now key s h = looked_up_entry-WithinLimit now key _ _ h

  pub clear_refresh-WithinLimit :
      (key : String) (s : CacheStore C) → WithinLimit s → WithinLimit (clear_refresh lru key s)
  unfolding clear_refresh
  clear_refresh-WithinLimit key s h = h

  evict-smaller :
      (turns entry_size max_total : ℕ) (c : C) (size : ℕ)
      → (evict lru turns entry_size max_total c size).0.1 ≤ size
  unfolding evict
  evict-smaller zero entry_size max_total c size = omega arith
  evict-smaller (suc turns) entry_size max_total c size =
      let rest =
        evict-smaller turns entry_size max_total (lru.pop_lru c).0
          (size - put_out_size (lru.pop_lru c).1) in
      ground arith

  -- Where the loop says that there is room, there is.
  evict-fits :
      (turns entry_size max_total : ℕ) (c : C) (size : ℕ)
      → (evict lru turns entry_size max_total c size).1 ≡ true
      → (evict lru turns entry_size max_total c size).0.1 + entry_size ≤ max_total
  unfolding evict
  evict-fits zero entry_size max_total c size h = ground arith
  evict-fits (suc turns) entry_size max_total c size h =
      let rest =
        evict-fits turns entry_size max_total (lru.pop_lru c).0
          (size - put_out_size (lru.pop_lru c).1) in
      ground arith

  pushed-WithinLimit :
      (key : String) (e : CacheEntry) (c : C) (size : ℕ) (room : Bool) (s : CacheStore C)
      → size ≤ s.max_total_size
      → (room ≡ true → size + e.size_bytes ≤ s.max_total_size)
      → WithinLimit (pushed lru key e ((c, size), room) s)
  unfolding pushed
  pushed-WithinLimit key e c size true s h fits = let bound = fits refl in omega arith
  pushed-WithinLimit key e c size false s h fits = h

  put_sized-WithinLimit :
      (estimate_size : Value → ℕ) (now : ℕ) (key : String) (response : CachedResponse)
      (ttl size : ℕ) (s : CacheStore C)
      → WithinLimit s
      → WithinLimit (put_sized lru estimate_size now key response ttl size s)
  unfolding put_sized
  put_sized-WithinLimit estimate_size now key response ttl size s h =
      let turns = length (lru.entries s.inner) in
      let reclaimed = s.current_size - removed_size (lru.peek key s.inner) in
      let smaller = evict-smaller turns size s.max_total_size s.inner reclaimed in
      pushed-WithinLimit key _ _ _ _ s (omega arith)
        (evict-fits turns size s.max_total_size s.inner reclaimed)

  WithinLimit-if :
      (b : Bool) (s t : CacheStore C)
      → WithinLimit s
      → WithinLimit t
      → WithinLimit (if b then s else t)
  WithinLimit-if true s t hs ht = hs
  WithinLimit-if false s t hs ht = ht

  pub put_response-WithinLimit :
      (estimate_size : Value → ℕ) (now : ℕ) (key : String) (response : CachedResponse)
      (ttl_secs : Option ℕ) (s : CacheStore C)
      → WithinLimit s
      → WithinLimit (put_response lru estimate_size now key response ttl_secs s)
  unfolding put_response
  put_response-WithinLimit estimate_size now key response ttl_secs s h =
      WithinLimit-if _ _ _ h (put_sized-WithinLimit estimate_size now key response _ _ s h)
