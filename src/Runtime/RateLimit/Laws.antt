-- ===== src/Runtime/RateLimit/Laws.antt =====
-- What the rate limiter admits.
use webpipe.Base.{
  ℕ, suc, ◌+◌, ◌-◌, ◌<◌, String, true, false, Option, none, some, List, [], ◌∷◌, ◌≡◌, refl, arith,
  All, ltb, leb, if◌then◌else◌, lookup, length, eq_refl, Bool-cases, inl, inr, ◌∙◌, ap,
}
use webpipe.Runtime.Clock.{from_secs}
use webpipe.Runtime.Lru.{LruCache, LruLaws, found}
use webpipe.Runtime.Lru.Laws.{lookup-promoted, lookup-replaced}
use webpipe.Runtime.RateLimit.{
  RateLimitEntry, Verdict, check_and_increment, checked, first_entry, effective_limit, has_expired,
  secs_left,
}

-- The smaller of two numbers.
abbrev pub min : ℕ → ℕ → ℕ
min a b = if leb a b then a else b

module _ {C : Type 0} (lru : LruCache C RateLimitEntry) where
  -- How many of the requests for a key are admitted, that come at these times one after another.
  unfoldable pub admitted : List ℕ → String → ℕ → ℕ → Option ℕ → C → ℕ
  unfolding check_and_increment
  admitted [] key limit window_secs burst c = 0
  admitted (now ∷ later) key limit window_secs burst c =
      let (c', verdict) = check_and_increment lru now key limit window_secs burst c in
      let rest = admitted later key limit window_secs burst c' in
      if verdict.0 then suc rest else rest

min_below : (n l c : ℕ) → ltb c l ≡ true → suc (min n (l - (c + 1))) ≡ min (suc n) (l - c)
min_below n l c h = ground arith

min_above : (n l c : ℕ) → ltb c l ≡ false → min n (l - c) ≡ min (suc n) (l - c)
min_above n l c h = ground arith

fresh_entry :
    (now : ℕ) (e : RateLimitEntry)
    → now - e.window_start < from_secs e.window_secs
    → has_expired now e ≡ false
fresh_entry now e h = ground arith

module _ {C : Type 0} (lru : LruCache C RateLimitEntry) where
  admitted_step :
      (now : ℕ) (later : List ℕ) (key : String) (limit window_secs : ℕ) (burst : Option ℕ)
      (c c' : C) (v : Verdict)
      → check_and_increment lru now key limit window_secs burst c ≡ (c', v)
      → admitted lru (now ∷ later) key limit window_secs burst c ≡ (
          if v.0
          then suc (admitted lru later key limit window_secs burst c')
          else admitted lru later key limit window_secs burst c')
  unfolding admitted
  admitted_step now later key limit window_secs burst c c' v h = rw h

  pub checked_below :
      (now : ℕ) (key : String) (limit window_secs : ℕ) (e : RateLimitEntry) (c : C)
      → has_expired now e ≡ false
      → ltb e.count limit ≡ true
      → checked lru now key limit window_secs e c ≡ (
        lru.write key (record e { count = e.count + 1 }) c,
        (true, e.count + 1, limit, secs_left now e),
      )
  unfolding checked
  checked_below now key limit window_secs e c open_window below = rw (open_window, below)

  pub checked_above :
      (now : ℕ) (key : String) (limit window_secs : ℕ) (e : RateLimitEntry) (c : C)
      → has_expired now e ≡ false
      → ltb e.count limit ≡ false
      → checked lru now key limit window_secs e c ≡ (c, (false, e.count, limit, secs_left now e))
  unfolding checked
  checked_above now key limit window_secs e c open_window above = rw (open_window, above)

module _ {C : Type 0} (lru : LruCache C RateLimitEntry) (laws : LruLaws lru) where
  found-get_mut : (k j : String) (c : C) → found lru j (lru.get_mut k c).0 ≡ found lru j c
  found-get_mut k j c =
      ap (lookup j) (laws.get_mut-entries k c) ∙ lookup-promoted k j (lru.entries c)

  pub found-write :
      (k : String) (v w : RateLimitEntry) (c : C)
      → found lru k c ≡ some w
      → found lru k (lru.write k v c) ≡ some v
  found-write k v w c h =
      ap (lookup k) (laws.write-entries k v c)
      ∙ (lookup-replaced k k v (lru.entries c) ∙ rw (h, eq_refl k) refl)

  found-push : (k : String) (v : RateLimitEntry) (c : C) → found lru k (lru.push k v c).0 ≡ some v
  unfolding lookup
  found-push k v c = ap (lookup k) (laws.push-entries k v c) ∙ rw (eq_refl k) refl

  -- What a check does to a key that has an entry, and to one that has none.
  pub check-found :
      (now : ℕ) (key : String) (limit window_secs : ℕ) (burst : Option ℕ) (c : C)
      (e : RateLimitEntry)
      → found lru key c ≡ some e
      → (c' : C) × (found lru key c' ≡ some e)
        × (check_and_increment lru now key limit window_secs burst c
            ≡ checked lru now key (effective_limit limit burst) window_secs e c')
  unfolding check_and_increment
  check-found now key limit window_secs burst c e h = (
    (lru.get_mut key c).0,
    found-get_mut key key c ∙ h,
    rw (check_and_increment, laws.get_mut-found key c ∙ h) refl,
  )

  pub check-new :
      (now : ℕ) (key : String) (limit window_secs : ℕ) (burst : Option ℕ) (c : C)
      → found lru key c ≡ none
      → (c' : C) × (found lru key c' ≡ some (first_entry lru now window_secs))
        × (check_and_increment lru now key limit window_secs burst c
            ≡ (c', (true, 1, effective_limit limit burst, window_secs)))
  unfolding check_and_increment
  check-new now key limit window_secs burst c h = (
    (lru.push key (first_entry lru now window_secs) (lru.get_mut key c).0).0,
    found-push key _ _,
    rw (check_and_increment, laws.get_mut-found key c ∙ h) refl,
  )

  -- Within the window of an entry, as many requests are admitted as its count is below the limit.
  admitted_within :
      (times : List ℕ) (key : String) (limit window_secs : ℕ) (burst : Option ℕ) (c : C)
      (e : RateLimitEntry)
      → found lru key c ≡ some e
      → All (λ t. t - e.window_start < from_secs e.window_secs) times
      → admitted lru times key limit window_secs burst c
        ≡ min (length times) (effective_limit limit burst - e.count)
  unfolding admitted
  admitted_within [] key limit window_secs burst c e h within = ground arith
  admitted_within (now ∷ later) key limit window_secs burst c e h (fresh, rest) =
      let (c', here, checks) = check-found now key limit window_secs burst c e h in
      let open_window = fresh_entry now e fresh in
      elim (Bool-cases (ltb e.count (effective_limit limit burst))) [
        | inl below ↦
            admitted_step lru now later key limit window_secs burst c _ _
              (checks ∙ checked_below lru now key _ window_secs e c' open_window below)
            ∙ (ap suc (
                  admitted_within later key limit window_secs burst _
                    (record e { count = e.count + 1 }) (found-write key _ e c' here) rest)
                ∙ min_below (length later) (effective_limit limit burst) e.count below)
        | inr above ↦
            admitted_step lru now later key limit window_secs burst c _ _
              (checks ∙ checked_above lru now key _ window_secs e c' open_window above)
            ∙ (admitted_within later key limit window_secs burst c' e here rest
                ∙ min_above (length later) (effective_limit limit burst) e.count above)
      ]

  -- A key that has no entry: of the requests that come within the window of the first one, the first
  -- is admitted, and of the others as many as there are, up to one less than the limit.
  pub admitted_in_window :
      (start : ℕ) (times : List ℕ) (key : String) (limit window_secs : ℕ) (burst : Option ℕ) (c : C)
      → found lru key c ≡ none
      → All (λ t. t - start < from_secs window_secs) times
      → admitted lru (start ∷ times) key limit window_secs burst c
        ≡ suc (min (length times) (effective_limit limit burst - 1))
  admitted_in_window start times key limit window_secs burst c h within =
      let (c', here, checks) = check-new start key limit window_secs burst c h in
      admitted_step lru start times key limit window_secs burst c _ _ checks
      ∙ ap suc (
          admitted_within times key limit window_secs burst c' (first_entry lru start window_secs)
            here within)
