-- ===== src/Runtime/Cache/Survives.antt =====
-- `CacheStore` of runtime/context.rs: an operation on one key leaves the entry of another as it is, or
-- puts it out.
use webpipe.Base.{
  ℕ, zero, suc, ◌+◌, ◌-◌, String, Bool, true, false, Option, none, some, List, [], ◌∷◌, ◌≡◌, refl,
  ap, ◌∙◌, ◌⊎◌, inl, inr, ◌==◌, arith, if◌then◌else◌, length, lookup, leb, Bool-cases, Option-cases,
  is_some,
}
use webpipe.Json.{Value}
use webpipe.Executor.Context.{CachedResponse}
use webpipe.Runtime.Lru.{LruCache, LruLaws, found, has_room, kept, all_but_last}
use webpipe.Runtime.Lru.Laws.{lookup-without, lookup-replaced}
use webpipe.Runtime.Cache.Accounts.{found-get_mut}
use webpipe.Runtime.Cache.{
  CacheEntry, CacheStore, lookup_response, looked_up, looked_up_entry, clear_refresh, cleared,
  evict, pushed, put_sized, put_response, removed_size, put_out_size,
}

-- An entry that was found is found still, or none is.
abbrev pub Survives : Option CacheEntry → Option CacheEntry → Type 0
Survives q r = (r ≡ q) ⊎ (r ≡ none)

pub Survives-trans : (p q r : Option CacheEntry) → Survives p q → Survives q r → Survives p r
Survives-trans p q r h (inr gone) = inr gone
Survives-trans p q r (inl same) (inl same') = inl (same' ∙ same)
Survives-trans p q r (inr gone) (inl same') = inr (same' ∙ gone)

lookup-all_but_last :
    (k : String) (es : List (String × CacheEntry))
    → Survives (lookup k es) (lookup k (all_but_last es))
unfolding lookup all_but_last
lookup-all_but_last k [] = inl refl
lookup-all_but_last k (e ∷ []) = inr refl
lookup-all_but_last k ((j, v) ∷ f ∷ es) = elim (Bool-cases (j == k)) [
  | inl here ↦ inl (rw here refl)
  | inr later ↦ elim (lookup-all_but_last k (f ∷ es)) [
    | inl same ↦ inl (rw later same)
    | inr gone ↦ inr (rw later gone)
  ]
]

module _ {C : Type 0} (lru : LruCache C CacheEntry) (laws : LruLaws lru) (key k : String)
    (other : (k == key) ≡ false) where
  kept-Survives : (c : C) → Survives (found lru key c) (lookup key (kept lru k c))
  unfolding kept
  kept-Survives c = elim (Option-cases (found lru k c)) [
    | inr (e, here) ↦ inl (rw (kept, here) (lookup-without k key (lru.entries c) other))
    | inl absent ↦ elim (Bool-cases (has_room lru c)) [
      | inl room ↦ inl (rw (kept, absent, room) refl)
      | inr full ↦ rw (kept, absent, full) (lookup-all_but_last key (lru.entries c))
    ]
  ]

  found-push_other :
      (e : CacheEntry) (c : C) → found lru key (lru.push k e c).0 ≡ lookup key (kept lru k c)
  unfolding lookup
  found-push_other e c = ap (lookup key) (laws.push-entries k e c) ∙ rw other refl

  push-Survives :
      (e : CacheEntry) (c : C) → Survives (found lru key c) (found lru key (lru.push k e c).0)
  push-Survives e c = rw (found-push_other e c) (kept-Survives c)

  pop_lru-Survives : (c : C) → Survives (found lru key c) (found lru key (lru.pop_lru c).0)
  pop_lru-Survives c = rw (laws.pop_lru-entries c) (lookup-all_but_last key (lru.entries c))

  evict-Survives :
      (turns entry_size max_total : ℕ) (c : C) (size : ℕ)
      → Survives (found lru key c) (found lru key (evict lru turns entry_size max_total c size).0.0)
  unfolding evict
  evict-Survives zero entry_size max_total c size = inl refl
  evict-Survives (suc turns) entry_size max_total c size =
      elim (Bool-cases (leb (size + entry_size) max_total)) [
        | inl room ↦ rw room (inl refl)
        | inr full ↦ elim (Bool-cases (is_some (lru.pop_lru c).1)) [
          | inr empty ↦ rw (full, empty) (pop_lru-Survives c)
          | inl out ↦
              rw (full, out)
                (Survives-trans _ _ _ (pop_lru-Survives c) (
                  evict-Survives turns entry_size max_total (lru.pop_lru c).0
                    (size - put_out_size (lru.pop_lru c).1)))
        ]
      ]

  pushed-Survives :
      (e : CacheEntry) (c : C) (size : ℕ) (room : Bool) (s : CacheStore C)
      → Survives (found lru key c) (found lru key (pushed lru k e ((c, size), room) s).inner)
  unfolding pushed
  pushed-Survives e c size true s = push-Survives e c
  pushed-Survives e c size false s = inl refl

  found-write_other : (v : CacheEntry) (c : C) → found lru key (lru.write k v c) ≡ found lru key c
  found-write_other v c =
      ap (lookup key) (laws.write-entries k v c)
      ∙ (lookup-replaced k key v (lru.entries c) ∙ rw other refl)

  found-pop_other : (c : C) → found lru key (lru.pop k c).0 ≡ found lru key c
  found-pop_other c =
      ap (lookup key) (laws.pop-entries k c) ∙ lookup-without k key (lru.entries c) other

  -- A lookup of another key, the release of its refresh slot, and a response that is put under it.
  looked_up_entry-found :
      (now : ℕ) (q : Option CacheEntry) (s : CacheStore C)
      → found lru key (looked_up_entry lru now k q s).0.inner ≡ found lru key s.inner
  unfolding looked_up
  looked_up_entry-found now none s = refl
  looked_up_entry-found now (some e) s = ground (
    arith,
    found-write_other (record e { refresh_started = some now }) s.inner,
    found-pop_other s.inner,
  )

  pub lookup_response-found_other :
      (now : ℕ) (s : CacheStore C)
      → found lru key (lookup_response lru now k s).0.inner ≡ found lru key s.inner
  unfolding lookup_response
  lookup_response-found_other now s =
      looked_up_entry-found now _ _ ∙ found-get_mut lru laws k key s.inner

  cleared-found :
      (q : Option CacheEntry) (c : C) → found lru key (cleared lru k q c) ≡ found lru key c
  cleared-found none c = refl
  cleared-found (some e) c = found-write_other (record e { refresh_started = none }) c

  pub clear_refresh-found_other :
      (s : CacheStore C) → found lru key (clear_refresh lru k s).inner ≡ found lru key s.inner
  unfolding clear_refresh
  clear_refresh-found_other s = cleared-found _ _ ∙ found-get_mut lru laws k key s.inner

  put_sized-Survives :
      (estimate_size : Value → ℕ) (now : ℕ) (response : CachedResponse) (ttl size : ℕ)
      (s : CacheStore C)
      → Survives
          (found lru key s.inner)
          (found lru key (put_sized lru estimate_size now k response ttl size s).inner)
  unfolding put_sized
  put_sized-Survives estimate_size now response ttl size s =
      Survives-trans _ _ _
        (evict-Survives (length (lru.entries s.inner)) size s.max_total_size s.inner
          (s.current_size - removed_size (lru.peek k s.inner)))
        (pushed-Survives _ _ _ _ s)

  Survives-if :
      (b : Bool) (s t : CacheStore C)
      → Survives (found lru key s.inner) (found lru key t.inner)
      → Survives (found lru key s.inner) (found lru key (if b then s else t).inner)
  Survives-if true s t h = inl refl
  Survives-if false s t h = h

  pub put_response-Survives :
      (estimate_size : Value → ℕ) (now : ℕ) (response : CachedResponse) (ttl_secs : Option ℕ)
      (s : CacheStore C)
      → Survives
          (found lru key s.inner)
          (found lru key (put_response lru estimate_size now k response ttl_secs s).inner)
  unfolding put_response
  put_response-Survives estimate_size now response ttl_secs s =
      Survives-if _ s _ (put_sized-Survives estimate_size now response _ _ s)
