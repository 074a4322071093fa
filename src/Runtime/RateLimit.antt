-- ===== src/Runtime/RateLimit.antt =====
-- runtime/context.rs: `RateLimitStore`, over the cache of the `lru` crate. The store has one field,
-- the cache, so the cache is its state. `now` is what the clock tells.
pub mod Laws
pub mod Counts
use webpipe.Base.{
  ℕ, ◌+◌, ◌-◌, String, Bool, true, false, Option, none, some, ltb, leb, if◌then◌else◌, and_then,
}
use webpipe.Runtime.Clock.{from_secs, as_secs, add_u64}
use webpipe.Runtime.Lru.{LruCache}

pub record RateLimitEntry : Type 0 where
  pub count : ℕ
  pub window_start : ℕ
  pub window_secs : ℕ

-- Whether the request is allowed, the count, the limit, and the seconds until the window ends.
abbrev pub Verdict : Type 0
Verdict = Bool × ℕ × ℕ × ℕ

abbrev pub burst_or_none : Option ℕ → ℕ
burst_or_none none = 0
burst_or_none (some b) = b

-- `limit + burst.unwrap_or(0)`
abbrev pub effective_limit : ℕ → Option ℕ → ℕ
effective_limit limit burst = add_u64 limit (burst_or_none burst)

-- The counter has run for its whole window.
abbrev pub has_expired : ℕ → RateLimitEntry → Bool
has_expired now e = leb (from_secs e.window_secs) (now - e.window_start)

abbrev pub secs_left : ℕ → RateLimitEntry → ℕ
secs_left now e = as_secs (from_secs e.window_secs - (now - e.window_start))

module _ {C : Type 0} (lru : LruCache C RateLimitEntry) where
  abbrev pub first_entry : ℕ → ℕ → RateLimitEntry
  first_entry now window_secs = record { count = 1; window_start = now; window_secs = window_secs }

  -- The branches of `check_and_increment` where the key has an entry.
  unfoldable pub checked : ℕ → String → ℕ → ℕ → RateLimitEntry → C → C × Verdict
  checked now key limit window_secs e c =
      if has_expired now e
      then (lru.write key (first_entry now window_secs) c, (true, 1, limit, window_secs))
      else if ltb e.count limit
      then (
        lru.write key (record e { count = e.count + 1 }) c,
        (true, e.count + 1, limit, secs_left now e),
      )
      else (c, (false, e.count, limit, secs_left now e))

  -- The branch where it has none: `put` is a `push` whose answer is dropped.
  abbrev pub put_first : ℕ → String → ℕ → ℕ → C → C × Verdict
  put_first now key limit window_secs c =
      ((lru.push key (first_entry now window_secs) c).0, (true, 1, limit, window_secs))

  unfoldable pub check_and_increment : ℕ → String → ℕ → ℕ → Option ℕ → C → C × Verdict
  unfolding checked
  check_and_increment now key limit window_secs burst c =
      let (c', entry) = lru.get_mut key c in
      elim entry [
        | none ↦ put_first now key (effective_limit limit burst) window_secs c'
        | some e ↦ checked now key (effective_limit limit burst) window_secs e c'
      ]

  abbrev pub current_count : ℕ → RateLimitEntry → ℕ
  current_count now e = if has_expired now e then 0 else e.count

  -- `get_count`; `get` moves the entry to the front as `get_mut` does.
  unfoldable pub get_count : ℕ → String → C → C × Option ℕ
  get_count now key c =
      let (c', entry) = lru.get_mut key c in (c', and_then entry λ e. some (current_count now e))
