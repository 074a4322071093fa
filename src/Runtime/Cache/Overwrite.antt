-- ===== src/Runtime/Cache/Overwrite.antt =====
-- Putting a response under a key that is there already.
use webpipe.Base.{
  ℕ, zero, suc, ◌+◌, ◌-◌, ◌≤◌, String, true, false, some, ◌≡◌, refl, ap, ◌∙◌, arith, ltb, leb,
  nat_eq, if◌then◌else◌,
}
use webpipe.Json.{Value}
use webpipe.Executor.Context.{CachedResponse}
use webpipe.Runtime.Lru.{LruCache, LruLaws, found, put_out}
use webpipe.Runtime.Cache.{
  CacheEntry, CacheStore, evict, pushed, put_sized, put_response, new_entry, removed_size,
  put_out_size,
}
use webpipe.Runtime.Cache.Accounts.{bytes, held, held-push, put_out-kept}

-- The smaller of two numbers.
abbrev pub smaller : ℕ → ℕ → ℕ
smaller a b = if leb a b then a else b

module _ {C : Type 0} (lru : LruCache C CacheEntry) where
  evict_nothing :
      (turns entry_size max_total : ℕ) (c : C) (size : ℕ)
      → leb (size + entry_size) max_total ≡ true
      → evict lru turns entry_size max_total c size ≡ ((c, size), true)
  unfolding evict
  evict_nothing zero entry_size max_total c size room = rw room
  evict_nothing (suc turns) entry_size max_total c size room = rw room

  -- A response that is put for a time, and is no larger than an entry may be, is not turned away.
  pub put_response-put_sized :
      (estimate_size : Value → ℕ) (now : ℕ) (key : String) (response : CachedResponse) (ttl : ℕ)
      (s : CacheStore C)
      → estimate_size response.body ≤ s.max_entry_size
      → put_response lru estimate_size now key response (some (suc ttl)) s
        ≡ put_sized lru estimate_size now key response (suc ttl) (estimate_size response.body) s
  unfolding put_response
  put_response-put_sized estimate_size now key response ttl s fits =
      let accepted : ltb s.max_entry_size (estimate_size response.body) ≡ false = ground arith in
      let timed : nat_eq (suc ttl) 0 ≡ false = ground arith in
      rw (put_response, timed, accepted) refl

  abbrev stored : String → CacheEntry → ℕ → CacheStore C → CacheStore C
  stored key e size s = record s {
    inner = (lru.push key e s.inner).0;
    current_size = (size - put_out_size (lru.push key e s.inner).1) + e.size_bytes;
  }

  put_sized-stored :
      (estimate_size : Value → ℕ) (now : ℕ) (key : String) (response : CachedResponse)
      (ttl size : ℕ) (s : CacheStore C)
      → leb ((s.current_size - removed_size (lru.peek key s.inner)) + size) s.max_total_size ≡ true
      → put_sized lru estimate_size now key response ttl size s
        ≡ stored key
            (new_entry lru now ttl s.swr_grace_secs size response)
            (s.current_size - removed_size (lru.peek key s.inner))
            s
  unfolding put_sized pushed
  put_sized-stored estimate_size now key response ttl size s room =
      rw (put_sized, evict_nothing _ size s.max_total_size s.inner _ room) refl

module _ {C : Type 0} (lru : LruCache C CacheEntry) (laws : LruLaws lru) where
  put_out_size-found :
      (key : String) (e old : CacheEntry) (c : C)
      → found lru key c ≡ some old
      → put_out_size (lru.push key e c).1 ≡ bytes old
  unfolding put_out
  put_out_size-found key e old c here = ground (arith, laws.push-put_out key e c)

  -- A response that replaces one under the same key while nothing has to be evicted: if the store
  -- reported what it held, it now reports less, by the size of the old entry or by all that the
  -- other entries take, whichever is smaller. The size of the old entry is subtracted twice.
  pub put_response_undercounts :
      (estimate_size : Value → ℕ) (now : ℕ) (key : String) (response : CachedResponse) (ttl : ℕ)
      (s : CacheStore C) (old : CacheEntry)
      → found lru key s.inner ≡ some old
      → s.current_size ≡ held lru s.inner
      → estimate_size response.body ≤ s.max_entry_size
      → (s.current_size - old.size_bytes) + estimate_size response.body ≤ s.max_total_size
      → (put_response lru estimate_size now key response (some (suc ttl)) s).current_size
          + smaller old.size_bytes (held lru s.inner - old.size_bytes)
        ≡ held lru (put_response lru estimate_size now key response (some (suc ttl)) s).inner
  put_response_undercounts estimate_size now key response ttl s old here accurate fits room =
      let removed : removed_size (lru.peek key s.inner) ≡ old.size_bytes =
        ap removed_size (laws.peek-found key s.inner ∙ here) in
      let e : CacheEntry =
        new_entry lru now (suc ttl) s.swr_grace_secs (estimate_size response.body) response in
      let same =
        put_response-put_sized lru estimate_size now key response ttl s fits
        ∙ put_sized-stored lru estimate_size now key response (suc ttl)
            (estimate_size response.body) s (ground arith) in
      rw same (
        ground (
          arith,
          held-push lru laws key e s.inner,
          put_out-kept lru laws key e s.inner,
          put_out_size-found key e old s.inner here,
        ))
