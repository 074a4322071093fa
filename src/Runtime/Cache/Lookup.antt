-- ===== src/Runtime/Cache/Lookup.antt =====
-- What a lookup answers after a response was put, and while one is being refreshed.
use webpipe.Base.{
  ℕ, suc, ◌+◌, ◌≤◌, ◌<◌, String, true, false, none, some, ◌≡◌, refl, ap, ◌∙◌, arith, ltb, lookup,
  eq_refl, Bool-cases, inl, inr,
}
use webpipe.Json.{Value}
use webpipe.Executor.Context.{CachedResponse}
use webpipe.Runtime.Clock.{from_secs}
use webpipe.Runtime.Lru.{LruCache, LruLaws, found}
use webpipe.Runtime.Lru.Laws.{lookup-replaced}
use webpipe.Runtime.Cache.{
  CacheEntry, CacheStore, fresh, refresh, miss, lookup_response, looked_up, put_response, new_entry,
  with_inner, can_take_over,
}
use webpipe.Runtime.Cache.Room.{found-put_sized}
use webpipe.Runtime.Cache.Overwrite.{put_response-put_sized}
use webpipe.Runtime.Cache.Accounts.{ReportsAtMost}

module _ {C : Type 0} (lru : LruCache C CacheEntry) (laws : LruLaws lru) where
  pub found-write :
      (k : String) (v w : CacheEntry) (c : C)
      → found lru k c ≡ some w
      → found lru k (lru.write k v c) ≡ some v
  found-write k v w c h =
      ap (lookup k) (laws.write-entries k v c)
      ∙ (lookup-replaced k k v (lru.entries c) ∙ rw (h, eq_refl k) refl)

  pub lookup_response-found :
      (now : ℕ) (key : String) (s : CacheStore C) (e : CacheEntry)
      → found lru key s.inner ≡ some e
      → lookup_response lru now key s
        ≡ looked_up lru now key e (with_inner lru (lru.get_mut key s.inner).0 s)
  unfolding lookup_response
  lookup_response-found now key s e here =
      rw (lookup_response, laws.get_mut-found key s.inner ∙ here) refl

  looked_up-fresh :
      (now : ℕ) (key : String) (e : CacheEntry) (s : CacheStore C)
      → ltb now e.fresh_until ≡ true
      → (looked_up lru now key e s).1 ≡ fresh e.response
  unfolding looked_up
  looked_up-fresh now key e s soon = rw soon

  -- A response that is put for a time, and is no larger than an entry and the store may be, is what a
  -- lookup of its key answers, as fresh, until that time is over, if the size that the store reported
  -- before was at most what it held.
  pub lookup_response-put_response :
      (estimate_size : Value → ℕ) (now later : ℕ) (key : String) (response : CachedResponse)
      (ttl : ℕ) (s : CacheStore C)
      → ReportsAtMost lru s
      → estimate_size response.body ≤ s.max_entry_size
      → estimate_size response.body ≤ s.max_total_size
      → later < now + from_secs (suc ttl)
      → (lookup_response lru later key
          (put_response lru estimate_size now key response (some (suc ttl)) s)).1
        ≡ fresh response
  lookup_response-put_response estimate_size now later key response ttl s at_most fits fits_all
        soon =
      let e : CacheEntry =
        new_entry lru now (suc ttl) s.swr_grace_secs (estimate_size response.body) response in
      let s' = put_response lru estimate_size now key response (some (suc ttl)) s in
      let here : found lru key s'.inner ≡ some e =
        ap (λ t. found lru key t.inner)
          (put_response-put_sized lru estimate_size now key response ttl s fits)
        ∙ found-put_sized lru laws estimate_size now key response (suc ttl)
            (estimate_size response.body) s at_most fits_all in
      ap (λ r. r.1) (lookup_response-found later key s' e here)
      ∙ looked_up-fresh later key e (with_inner lru (lru.get_mut key s'.inner).0 s') (ground arith)

  abbrev pub marked : ℕ → CacheEntry → CacheEntry
  marked now e = record e { refresh_started = some now }

  -- A lookup that elects a refresher has found an entry past its fresh time, and marks it.
  pub looked_up-refresh :
      (now : ℕ) (key : String) (e : CacheEntry) (s : CacheStore C) (response : CachedResponse)
      → (looked_up lru now key e s).1 ≡ refresh response
      → (ltb now e.fresh_until ≡ false)
        × (looked_up lru now key e s
            ≡ (with_inner lru (lru.write key (marked now e) s.inner) s, refresh e.response))
  unfolding looked_up
  looked_up-refresh now key e s response h = elim (Bool-cases (ltb now e.fresh_until)) [
    | inl young ↦ absurd (ground arith)
    | inr old ↦ elim (Bool-cases (ltb now e.stale_until)) [
      | inr expired ↦ absurd (ground arith)
      | inl usable ↦
          elim (Bool-cases (can_take_over now s.refresh_takeover_secs e.refresh_started)) [
            | inr taken ↦ absurd (ground arith)
            | inl free ↦ (old, rw (looked_up, old, usable, free) refl)
          ]
    ]
  ]

  pub lookup_response-missing :
      (now : ℕ) (key : String) (s : CacheStore C)
      → found lru key s.inner ≡ none
      → (lookup_response lru now key s).1 ≡ miss
  unfolding lookup_response
  lookup_response-missing now key s missing =
      rw (lookup_response, laws.get_mut-found key s.inner ∙ missing) refl
