-- ===== src/Runtime/Cache/Accounts.antt =====
-- The size that the store reports against the sizes of the entries that it holds.
use webpipe.Base.{
  ℕ, zero, suc, ◌+◌, ◌-◌, ◌≤◌, String, Bool, true, false, Option, none, some, ◌≡◌, refl, sym, ap,
  ◌∙◌, arith, if◌then◌else◌, length, lookup,
}
use webpipe.Json.{Value}
use webpipe.Executor.Context.{CachedResponse}
use webpipe.Runtime.Lru.{LruCache, LruLaws, found, kept}
use webpipe.Runtime.Lru.Laws.{lookup-promoted}
use webpipe.Runtime.Lru.Totals.{
  total, total-without, total-promoted, total-replaced, total-all_but_last, total-kept,
}
use webpipe.Runtime.Cache.{
  CacheEntry, CacheStore, lookup_response, looked_up, looked_up_entry, clear_refresh, cleared,
  evict, pushed, put_sized, put_response, removed_size, put_out_size,
}

abbrev pub bytes : CacheEntry → ℕ
bytes e = e.size_bytes

module _ {C : Type 0} (lru : LruCache C CacheEntry) where
  -- The bytes that the entries of a cache take.
  abbrev pub held : C → ℕ
  held c = total bytes (lru.entries c)

  -- The store reports no more than it holds.
  abbrev pub ReportsAtMost : CacheStore C → Type 0
  ReportsAtMost s = s.current_size ≤ held s.inner

module _ {C : Type 0} (lru : LruCache C CacheEntry) (laws : LruLaws lru) where
  held-get_mut : (k : String) (c : C) → held lru (lru.get_mut k c).0 ≡ held lru c
  held-get_mut k c =
      ap (total bytes) (laws.get_mut-entries k c) ∙ total-promoted bytes k (lru.entries c)

  pub found-get_mut : (k j : String) (c : C) → found lru j (lru.get_mut k c).0 ≡ found lru j c
  found-get_mut k j c =
      ap (lookup j) (laws.get_mut-entries k c) ∙ lookup-promoted k j (lru.entries c)

  held-write :
      (k : String) (v w : CacheEntry) (c : C)
      → found lru k c ≡ some w
      → bytes v ≡ bytes w
      → held lru (lru.write k v c) ≡ held lru c
  held-write k v w c h same =
      ap (total bytes) (laws.write-entries k v c)
      ∙ total-replaced bytes k v w (lru.entries c) h same

  held-pop :
      (k : String) (c : C) → removed_size (lru.pop k c).1 + held lru (lru.pop k c).0 ≡ held lru c
  held-pop k c =
      ground
        (arith, laws.pop-found k c, laws.pop-entries k c, total-without bytes k (lru.entries c))

  pub held-pop_lru :
      (c : C) → put_out_size (lru.pop_lru c).1 + held lru (lru.pop_lru c).0 ≡ held lru c
  held-pop_lru c =
      ground (
        arith,
        laws.pop_lru-last c,
        laws.pop_lru-entries c,
        total-all_but_last bytes (lru.entries c),
      )

  pub held-push :
      (k : String) (e : CacheEntry) (c : C)
      → held lru (lru.push k e c).0 ≡ bytes e + total bytes (kept lru k c)
  unfolding total
  held-push k e c = ap (total bytes) (laws.push-entries k e c)

  pub put_out-kept :
      (k : String) (e : CacheEntry) (c : C)
      → put_out_size (lru.push k e c).1 + total bytes (kept lru k c) ≡ held lru c
  put_out-kept k e c = ground (arith, laws.push-put_out k e c, total-kept bytes lru k c)

  looked_up-ReportsAtMost :
      (now : ℕ) (key : String) (e : CacheEntry) (s : CacheStore C)
      → found lru key s.inner ≡ some e
      → ReportsAtMost lru s
      → ReportsAtMost lru (looked_up lru now key e s).0
  unfolding looked_up
  looked_up-ReportsAtMost now key e s here at_most = ground (
    arith,
    held-write key (record e { refresh_started = some now }) e s.inner here refl,
    held-pop key s.inner,
  )

  looked_up_entry-ReportsAtMost :
      (now : ℕ) (key : String) (q : Option CacheEntry) (s : CacheStore C)
      → found lru key s.inner ≡ q
      → ReportsAtMost lru s
      → ReportsAtMost lru (looked_up_entry lru now key q s).0
  looked_up_entry-ReportsAtMost now key none s here at_most = at_most
  looked_up_entry-ReportsAtMost now key (some e) s here at_most =
      looked_up-ReportsAtMost now key e s here at_most

  same_entry : (k : String) (c : C) → found lru k (lru.get_mut k c).0 ≡ (lru.get_mut k c).1
  same_entry k c = found-get_mut k k c ∙ sym (laws.get_mut-found k c)

  -- If the size that a store reports is at most what its entries take, it still is after a lookup.
  pub lookup_response-ReportsAtMost :
      (now : ℕ) (key : String) (s : CacheStore C)
      → ReportsAtMost lru s
      → ReportsAtMost lru (lookup_response lru now key s).0
  unfolding lookup_response
  lookup_response-ReportsAtMost now key s at_most =
      looked_up_entry-ReportsAtMost now key _ _ (same_entry key s.inner)
        (rw (held-get_mut key s.inner) at_most)

  cleared-held :
      (key : String) (q : Option CacheEntry) (c : C)
      → found lru key c ≡ q
      → held lru (cleared lru key q c) ≡ held lru c
  cleared-held key none c here = refl
  cleared-held key (some e) c here = held-write key _ e c here refl

  -- If the size that a store reports is at most what its entries take, it still is after the release
  -- of a refresh slot.
  pub clear_refresh-ReportsAtMost :
      (key : String) (s : CacheStore C)
      → ReportsAtMost lru s
      → ReportsAtMost lru (clear_refresh lru key s)
  unfolding clear_refresh
  clear_refresh-ReportsAtMost key s at_most =
      rw (cleared-held key _ _ (same_entry key s.inner), held-get_mut key s.inner) at_most

  evict-at_most :
      (turns entry_size max_total : ℕ) (c : C) (size : ℕ)
      → size ≤ held lru c
      → (evict lru turns entry_size max_total c size).0.1
        ≤ held lru (evict lru turns entry_size max_total c size).0.0
  unfolding evict
  evict-at_most zero entry_size max_total c size h = h
  evict-at_most (suc turns) entry_size max_total c size h =
      let popped = held-pop_lru c in
      let rest =
        evict-at_most turns entry_size max_total (lru.pop_lru c).0
          (size - put_out_size (lru.pop_lru c).1) (omega arith) in
      ground arith

  at_most_push :
      (key : String) (e : CacheEntry) (c : C) (size : ℕ)
      → size ≤ held lru c
      → (size - put_out_size (lru.push key e c).1) + bytes e ≤ held lru (lru.push key e c).0
  at_most_push key e c size h = omega (arith, held-push key e c, put_out-kept key e c)

  pushed-ReportsAtMost :
      (key : String) (e : CacheEntry) (c : C) (size : ℕ) (room : Bool) (s : CacheStore C)
      → size ≤ held lru c
      → ReportsAtMost lru (pushed lru key e ((c, size), room) s)
  unfolding pushed
  pushed-ReportsAtMost key e c size true s h = at_most_push key e c size h
  pushed-ReportsAtMost key e c size false s h = h

  put_sized-ReportsAtMost :
      (estimate_size : Value → ℕ) (now : ℕ) (key : String) (response : CachedResponse)
      (ttl size : ℕ) (s : CacheStore C)
      → ReportsAtMost lru s
      → ReportsAtMost lru (put_sized lru estimate_size now key response ttl size s)
  unfolding put_sized
  put_sized-ReportsAtMost estimate_size now key response ttl size s at_most =
      pushed-ReportsAtMost key _ _ _ _ s (
        evict-at_most (length (lru.entries s.inner)) size s.max_total_size s.inner
          (s.current_size - removed_size (lru.peek key s.inner)) (omega arith))

  ReportsAtMost-if :
      (b : Bool) (s t : CacheStore C)
      → ReportsAtMost lru s
      → ReportsAtMost lru t
      → ReportsAtMost lru (if b then s else t)
  ReportsAtMost-if true s t hs ht = hs
  ReportsAtMost-if false s t hs ht = ht

  -- If the size that a store reports is at most what its entries take, it still is after a response
  -- was put, accepted or not.
  pub put_response-ReportsAtMost :
      (estimate_size : Value → ℕ) (now : ℕ) (key : String) (response : CachedResponse)
      (ttl_secs : Option ℕ) (s : CacheStore C)
      → ReportsAtMost lru s
      → ReportsAtMost lru (put_response lru estimate_size now key response ttl_secs s)
  unfolding put_response
  put_response-ReportsAtMost estimate_size now key response ttl_secs s at_most =
      ReportsAtMost-if _ _ _ at_most
        (put_sized-ReportsAtMost estimate_size now key response _ _ s at_most)
