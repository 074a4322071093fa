-- ===== src/Runtime/Cache/Room.antt =====
-- `CacheStore` of runtime/context.rs: evicting makes room, so that an entry that fits is held.
use webpipe.Base.{
  ℕ, zero, suc, ◌-◌, ◌≤◌, String, Bool, true, false, some, List, [], ◌∷◌, ◌≡◌, refl, ap, ◌∙◌, arith,
  length, lookup, eq_refl, is_some,
}
use webpipe.Json.{Value}
use webpipe.Executor.Context.{CachedResponse}
use webpipe.Runtime.Lru.{LruCache, LruLaws, found, all_but_last, last_entry}
use webpipe.Runtime.Lru.Totals.{total}
use webpipe.Runtime.Cache.{
  CacheEntry, CacheStore, evict, pushed, put_sized, new_entry, removed_size, put_out_size,
}
use webpipe.Runtime.Cache.Accounts.{bytes, held, held-pop_lru, ReportsAtMost}

length-all_but_last :
    {V : Type 0} (es : List (String × V)) (n : ℕ) → length es ≡ suc n → length (all_but_last es) ≡ n
unfolding all_but_last
length-all_but_last [] n h = absurd (omega arith)
length-all_but_last (e ∷ []) n h = omega arith
length-all_but_last (e ∷ f ∷ es) zero h = absurd (omega arith)
length-all_but_last (e ∷ f ∷ es) (suc n) h = ap suc (length-all_but_last (f ∷ es) n (omega arith))

last_entry-some :
    {V : Type 0} (es : List (String × V)) (n : ℕ)
    → length es ≡ suc n
    → is_some (last_entry es) ≡ true
unfolding last_entry
last_entry-some [] n h = absurd (omega arith)
last_entry-some (e ∷ []) n h = refl
last_entry-some (e ∷ f ∷ es) zero h = absurd (omega arith)
last_entry-some (e ∷ f ∷ es) (suc n) h = last_entry-some (f ∷ es) n (omega arith)

nothing_held :
    {V : Type 0} (size : V → ℕ) (es : List (String × V)) → length es ≡ 0 → total size es ≡ 0
unfolding total
nothing_held size [] h = refl
nothing_held size (e ∷ es) h = absurd (omega arith)

module _ {C : Type 0} (lru : LruCache C CacheEntry) (laws : LruLaws lru) where
  -- As many turns as there are entries make room for any entry that the store may hold at all.
  evict_room :
      (turns entry_size max_total : ℕ) (c : C) (size : ℕ)
      → length (lru.entries c) ≡ turns
      → size ≤ held lru c
      → entry_size ≤ max_total
      → (evict lru turns entry_size max_total c size).1 ≡ true
  unfolding evict
  evict_room zero entry_size max_total c size n at_most fits =
      let empty = nothing_held bytes (lru.entries c) n in ground arith
  evict_room (suc turns) entry_size max_total c size n at_most fits =
      let popped = held-pop_lru lru laws c in
      let shorter =
        ap length (laws.pop_lru-entries c) ∙ length-all_but_last (lru.entries c) turns n in
      let some_out = ap is_some (laws.pop_lru-last c) ∙ last_entry-some (lru.entries c) turns n in
      let rest =
        evict_room turns entry_size max_total (lru.pop_lru c).0
          (size - put_out_size (lru.pop_lru c).1) shorter (omega arith) fits in
      ground arith

  found-push : (k : String) (e : CacheEntry) (c : C) → found lru k (lru.push k e c).0 ≡ some e
  unfolding lookup
  found-push k e c = ap (lookup k) (laws.push-entries k e c) ∙ rw (eq_refl k) refl

  found-pushed :
      (key : String) (e : CacheEntry) (c : C) (size : ℕ) (room : Bool) (s : CacheStore C)
      → room ≡ true
      → found lru key (pushed lru key e ((c, size), room) s).inner ≡ some e
  unfolding pushed
  found-pushed key e c size true s h = found-push key e c
  found-pushed key e c size false s h = cc

  pub found-put_sized :
      (estimate_size : Value → ℕ) (now : ℕ) (key : String) (response : CachedResponse)
      (ttl size : ℕ) (s : CacheStore C)
      → ReportsAtMost lru s
      → size ≤ s.max_total_size
      → found lru key (put_sized lru estimate_size now key response ttl size s).inner
        ≡ some (new_entry lru now ttl s.swr_grace_secs size response)
  unfolding put_sized
  found-put_sized estimate_size now key response ttl size s at_most fits =
      found-pushed key _ _ _ _ s (
        evict_room (length (lru.entries s.inner)) size s.max_total_size s.inner
          (s.current_size - removed_size (lru.peek key s.inner)) refl (omega arith) fits)
