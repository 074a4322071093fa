-- ===== src/Runtime/RateLimit/Counts.antt =====
-- The count that a check reports is the count that the store holds.
use webpipe.Base.{
  ℕ, ◌+◌, ◌<◌, String, true, false, Option, some, ◌≡◌, refl, sym, arith, ltb, Option-cases,
  Bool-cases, inl, inr, ap, ◌∙◌,
}
use webpipe.Runtime.Lru.{LruCache, LruLaws, found}
use webpipe.Runtime.RateLimit.{
  RateLimitEntry, Verdict, check_and_increment, checked, first_entry, get_count, has_expired,
}
use webpipe.Runtime.RateLimit.Laws.{
  check-found, check-new, found-write, checked_below, checked_above,
}

new_window :
    {C : Type 0} (lru : LruCache C RateLimitEntry) (now window_secs : ℕ)
    → 0 < window_secs
    → has_expired now (first_entry lru now window_secs) ≡ false
new_window lru now window_secs h = ground arith

module _ {C : Type 0} (lru : LruCache C RateLimitEntry) (laws : LruLaws lru) where
  -- The store holds an open window with the count that the verdict reports.
  abbrev Holds : ℕ → String → C × Verdict → Type 0
  Holds now key r =
      (e : RateLimitEntry) × (found lru key r.0 ≡ some e)
      × (has_expired now e ≡ false)
      × (e.count ≡ r.1.1)

  checked_expired :
      (now : ℕ) (key : String) (limit window_secs : ℕ) (e : RateLimitEntry) (c : C)
      → has_expired now e ≡ true
      → checked lru now key limit window_secs e c
        ≡ (lru.write key (first_entry lru now window_secs) c, (true, 1, limit, window_secs))
  unfolding checked
  checked_expired now key limit window_secs e c over = rw over

  Holds-at :
      (now : ℕ) (key : String) (c : C) (v : Verdict) (e : RateLimitEntry) (r : C × Verdict)
      → r ≡ (c, v)
      → found lru key c ≡ some e
      → has_expired now e ≡ false
      → e.count ≡ v.1
      → Holds now key r
  Holds-at now key c v e r is h still same =
      (e, ap (λ r. found lru key r.0) is ∙ h, still, same ∙ sym (ap (λ r. r.1.1) is))

  checked-Holds :
      (now : ℕ) (key : String) (limit window_secs : ℕ) (e : RateLimitEntry) (c : C)
      (r : C × Verdict)
      → 0 < window_secs
      → found lru key c ≡ some e
      → r ≡ checked lru now key limit window_secs e c
      → Holds now key r
  checked-Holds now key limit window_secs e c r some_time h is =
      elim (Bool-cases (has_expired now e)) [
        | inl over ↦
            Holds-at now key _ _ (first_entry lru now window_secs) r
              (is ∙ checked_expired now key limit window_secs e c over)
              (found-write lru laws key _ e c h) (new_window lru now window_secs some_time) refl
        | inr still ↦ elim (Bool-cases (ltb e.count limit)) [
          | inl below ↦
              Holds-at now key _ _ (record e { count = e.count + 1 }) r
                (is ∙ checked_below lru now key limit window_secs e c still below)
                (found-write lru laws key _ e c h) still refl
          | inr above ↦
              Holds-at now key _ _ e r
                (is ∙ checked_above lru now key limit window_secs e c still above) h still refl
        ]
      ]

  check-Holds :
      (now : ℕ) (key : String) (limit window_secs : ℕ) (burst : Option ℕ) (c : C)
      → 0 < window_secs
      → Holds now key (check_and_increment lru now key limit window_secs burst c)
  check-Holds now key limit window_secs burst c some_time = elim (Option-cases (found lru key c)) [
    | inl missing ↦
        let (c', here, checks) = check-new lru laws now key limit window_secs burst c missing in
        Holds-at now key _ _ (first_entry lru now window_secs) _ checks here
          (new_window lru now window_secs some_time) refl
    | inr (e, h) ↦
        let (c', here, checks) = check-found lru laws now key limit window_secs burst c e h in
        checked-Holds now key _ window_secs e c' _ some_time here checks
  ]

  -- Right after a check of a key, `get_count` tells the count that the check reported, provided that
  -- the window asked for is not empty.
  pub get_count-check_and_increment :
      (now : ℕ) (key : String) (limit window_secs : ℕ) (burst : Option ℕ) (c : C)
      → 0 < window_secs
      → (get_count lru now key (check_and_increment lru now key limit window_secs burst c).0).1
        ≡ some (check_and_increment lru now key limit window_secs burst c).1.1
  unfolding get_count
  get_count-check_and_increment now key limit window_secs burst c some_time =
      let (e, here, still, same) = check-Holds now key limit window_secs burst c some_time in
      rw (laws.get_mut-found key _ ∙ here, still, same) refl
