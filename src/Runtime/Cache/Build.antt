-- ===== src/Runtime/Cache/Build.antt =====
-- `CacheStore` of runtime/context.rs: the constructors, the settings and the statistics. `new_lru` is
-- `LruCache::new` of the `lru` crate.
use webpipe.Base.{ℕ, zero, suc, length}
use webpipe.Runtime.Lru.{LruCache}
use webpipe.Runtime.Cache.{CacheEntry, CacheStore}

pub record CacheStats : Type 0 where
  pub entry_count : ℕ
  pub total_size_bytes : ℕ
  pub max_entry_size : ℕ
  pub max_total_size : ℕ

-- A capacity of 0 is none at all.
abbrev pub capacity : ℕ → ℕ
capacity zero = 1024
capacity (suc n) = suc n

abbrev pub default_max_entry_size : ℕ
default_max_entry_size = 1048576

abbrev pub default_max_total_size : ℕ
default_max_total_size = 10485760

module _ {C : Type 0} (new_lru : ℕ → C) where
  unfoldable pub new_with_limits : ℕ → ℕ → ℕ → ℕ → CacheStore C
  new_with_limits max_entries default_ttl_secs max_entry_size max_total_size = record {
    inner = new_lru (capacity max_entries);
    default_ttl_secs = default_ttl_secs;
    max_entry_size = max_entry_size;
    max_total_size = max_total_size;
    swr_grace_secs = 30;
    refresh_takeover_secs = 30;
    current_size = 0;
  }

  unfoldable pub new : ℕ → ℕ → CacheStore C
  unfolding new_with_limits
  new max_entries default_ttl_secs =
      new_with_limits max_entries default_ttl_secs default_max_entry_size default_max_total_size

abbrev pub with_swr_grace : {C : Type 0} → ℕ → CacheStore C → CacheStore C
with_swr_grace secs s = record s { swr_grace_secs = secs }

abbrev pub with_refresh_takeover : {C : Type 0} → ℕ → CacheStore C → CacheStore C
with_refresh_takeover secs s = record s { refresh_takeover_secs = secs }

unfoldable pub stats : {C : Type 0} → LruCache C CacheEntry → CacheStore C → CacheStats
stats lru s = record {
  entry_count = length (lru.entries s.inner);
  total_size_bytes = s.current_size;
  max_entry_size = s.max_entry_size;
  max_total_size = s.max_total_size;
}
