-- ===== src/Runtime/Cache.antt =====
-- runtime/context.rs: `CacheStore`, over the cache of the `lru` crate. `now` is what the clock tells,
-- `estimate_size` the length of the JSON text of a value, which serde_json prints.
pub mod Build
pub mod Limit
pub mod Accounts
pub mod Made
pub mod Room
pub mod Lookup
pub mod Survives
pub mod Takeover
pub mod Refresher
pub mod Overwrite
use webpipe.Base.{
  ℕ, zero, suc, ◌+◌, ◌-◌, String, Bool, true, false, Option, none, some, ltb, leb, nat_eq,
  if◌then◌else◌, length, is_some, ◌||◌,
}
use webpipe.Json.{Value}
use webpipe.Executor.Context.{CachedResponse}
use webpipe.Runtime.Clock.{from_secs, as_secs, add_u64}
use webpipe.Runtime.Lru.{LruCache}

pub record CacheEntry : Type 0 where
  pub response : CachedResponse
  pub fresh_until : ℕ
  pub stale_until : ℕ
  pub refresh_started : Option ℕ
  pub size_bytes : ℕ

pub data CacheLookup : Type 0 where
  fresh stale refresh : CachedResponse → CacheLookup
  miss : CacheLookup

pub record CacheStore (C : Type 0) : Type 0 where
  pub inner : C
  pub default_ttl_secs : ℕ
  pub max_entry_size : ℕ
  pub max_total_size : ℕ
  pub swr_grace_secs : ℕ
  pub refresh_takeover_secs : ℕ
  pub current_size : ℕ

-- No refresh is under way, or the one that is has lasted too long.
abbrev pub can_take_over : ℕ → ℕ → Option ℕ → Bool
can_take_over now takeover none = true
can_take_over now takeover (some started) = leb takeover (as_secs (now - started))

-- The size of the entry that a removal took out, if it took one.
abbrev pub removed_size : Option CacheEntry → ℕ
removed_size none = 0
removed_size (some e) = e.size_bytes

abbrev pub put_out_size : Option (String × CacheEntry) → ℕ
put_out_size none = 0
put_out_size (some (_, e)) = e.size_bytes

module _ {C : Type 0} (lru : LruCache C CacheEntry) where
  abbrev pub with_inner : C → CacheStore C → CacheStore C
  with_inner c s = record s { inner = c }

  -- Past the stale window: the entry goes, and its size is reclaimed.
  abbrev pub drop_expired : String → CacheStore C → CacheStore C × CacheLookup
  drop_expired key s =
      let (c, removed) = lru.pop key s.inner in
      (record s { inner = c; current_size = s.current_size - removed_size removed }, miss)

  unfoldable pub looked_up : ℕ → String → CacheEntry → CacheStore C → CacheStore C × CacheLookup
  looked_up now key e s =
      if ltb now e.fresh_until
      then (s, fresh e.response)
      else if ltb now e.stale_until
      then (if can_take_over now s.refresh_takeover_secs e.refresh_started
          then (
            with_inner (lru.write key (record e { refresh_started = some now }) s.inner) s,
            refresh e.response,
          )
          else (s, stale e.response))
      else drop_expired key s

  abbrev pub looked_up_entry :
      ℕ → String → Option CacheEntry → CacheStore C → CacheStore C × CacheLookup
  looked_up_entry now key none s = (s, miss)
  looked_up_entry now key (some e) s = looked_up now key e s

  -- `CacheStore::lookup`
  unfoldable pub lookup_response : ℕ → String → CacheStore C → CacheStore C × CacheLookup
  unfolding looked_up
  lookup_response now key s =
      let (c, entry) = lru.get_mut key s.inner in looked_up_entry now key entry (with_inner c s)

  abbrev pub cleared : String → Option CacheEntry → C → C
  cleared key none c = c
  cleared key (some e) c = lru.write key (record e { refresh_started = none }) c

  unfoldable pub clear_refresh : String → CacheStore C → CacheStore C
  clear_refresh key s =
      let (c, entry) = lru.get_mut key s.inner in with_inner (cleared key entry c) s

  -- The loop that puts out entries until the new one fits: the cache and the current size that it
  -- leaves, and whether there is room. It takes as many turns as the cache has entries.
  unfoldable pub evict : ℕ → ℕ → ℕ → C → ℕ → (C × ℕ) × Bool
  evict zero entry_size max_total c size = ((c, size), leb (size + entry_size) max_total)
  evict (suc turns) entry_size max_total c size =
      let (c', out) = lru.pop_lru c in
      let rest = evict turns entry_size max_total c' (size - put_out_size out) in
      if leb (size + entry_size) max_total
      then ((c, size), true)
      else if is_some out
      then rest
      else ((c', size), false)

  abbrev pub new_entry : ℕ → ℕ → ℕ → ℕ → CachedResponse → CacheEntry
  new_entry now ttl grace size response = record {
    response = response;
    fresh_until = now + from_secs ttl;
    stale_until = now + from_secs (add_u64 ttl grace);
    refresh_started = none;
    size_bytes = size;
  }

  -- `push`, with the size of what it puts out subtracted and the new size added.
  unfoldable pub pushed : String → CacheEntry → (C × ℕ) × Bool → CacheStore C → CacheStore C
  pushed key e ((c, size), false) s = record s { inner = c; current_size = size }
  pushed key e ((c, size), true) s =
      let (c', out) = lru.push key e c in
      record s { inner = c'; current_size = (size - put_out_size out) + e.size_bytes }

  module _ (estimate_size : Value → ℕ) where
    -- The part of `put_response` that holds the locks.
    unfoldable pub put_sized : ℕ → String → CachedResponse → ℕ → ℕ → CacheStore C → CacheStore C
    unfolding evict pushed
    put_sized now key response ttl size s =
        pushed key (new_entry now ttl s.swr_grace_secs size response)
          (evict (length (lru.entries s.inner)) size s.max_total_size s.inner
            (s.current_size - removed_size (lru.peek key s.inner)))
          s

    abbrev pub ttl_or_default : Option ℕ → CacheStore C → ℕ
    ttl_or_default none s = s.default_ttl_secs
    ttl_or_default (some t) s = t

    unfoldable pub put_response :
        ℕ → String → CachedResponse → Option ℕ → CacheStore C → CacheStore C
    unfolding put_sized
    put_response now key response ttl_secs s =
        if nat_eq (ttl_or_default ttl_secs s) 0
          || ltb s.max_entry_size (estimate_size response.body)
        then s
        else put_sized now key response (ttl_or_default ttl_secs s) (estimate_size response.body) s
