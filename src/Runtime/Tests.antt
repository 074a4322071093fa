-- ===== src/Runtime/Tests.antt =====
-- The laws of the stores at concrete stores.
use webpipe.Base.{ℕ, suc, ◌+◌, ◌-◌, none, some, [], ◌∷◌, ◌≡◌, ◌≤◌, refl, arith, lookup}
use webpipe.Json.{Value, null}
use webpipe.Executor.Context.{CachedResponse}
use webpipe.Runtime.Clock.{from_secs}
use webpipe.Runtime.Lru.{without, promoted, put_out, kept, all_but_last, last_entry}
use webpipe.Runtime.Lru.Bounded.{Bounded, bounded, bounded_lem}
use webpipe.Runtime.Lru.Totals.{total}
use webpipe.Runtime.RateLimit.{RateLimitEntry, effective_limit}
use webpipe.Runtime.RateLimit.Laws.{admitted, admitted_in_window, min}
use webpipe.Runtime.Cache.{
  CacheEntry, CacheStore, fresh, lookup_response, looked_up, put_response, put_sized, evict, pushed,
}
use webpipe.Runtime.Cache.Accounts.{held, ReportsAtMost}
use webpipe.Runtime.Cache.Build.{new_with_limits, stats}
use webpipe.Runtime.Cache.Made.{Made, built, stepped, puts, looks_up, stats-Made}
use webpipe.Runtime.Cache.Overwrite.{put_response_undercounts, smaller}
use webpipe.Runtime.Cache.Lookup.{lookup_response-put_response}

abbrev no_counters : Bounded RateLimitEntry
no_counters = (10, [])

-- Five requests within one second, with a limit of two and a burst of one.
admitted_in_window_example :
    admitted bounded (7 ∷ 8 ∷ 9 ∷ 10 ∷ 11 ∷ []) "ip" 2 1 (some 1) no_counters
    ≡ suc (min 4 (effective_limit 2 (some 1) - 1))
unfolding lookup
admitted_in_window_example =
    admitted_in_window bounded bounded_lem 7 (8 ∷ 9 ∷ 10 ∷ 11 ∷ []) "ip" 2 1 (some 1) no_counters
      refl (omega arith, (omega arith, (omega arith, (omega arith, tt))))

abbrev response : CachedResponse
response = record { body = null; content_type = "application/json"; status_code = none }

abbrev entry : ℕ → CacheEntry
entry size = record {
  response = response;
  fresh_until = from_secs 10;
  stale_until = from_secs 40;
  refresh_started = none;
  size_bytes = size;
}

abbrev store : CacheStore (Bounded CacheEntry)
store = record {
  inner = (10, ("a", entry 4) ∷ ("b", entry 5) ∷ []);
  default_ttl_secs = 60;
  max_entry_size = 100;
  max_total_size = 1000;
  swr_grace_secs = 30;
  refresh_takeover_secs = 30;
  current_size = 9;
}

abbrev size_seven : Value → ℕ
size_seven v = 7

store_at_most : ReportsAtMost bounded store
unfolding total
store_at_most = omega arith

-- The store reports 8 bytes and holds 12.
put_response_undercounts_example :
    (put_response bounded size_seven 3 "a" response (some 60) store).current_size
      + smaller 4 (held bounded store.inner - 4)
    ≡ held bounded (put_response bounded size_seven 3 "a" response (some 60) store).inner
unfolding lookup total
put_response_undercounts_example =
    put_response_undercounts bounded bounded_lem size_seven 3 "a" response 59 store (entry 4) refl
      refl (omega arith) (omega arith)

lookup_response-put_response_example :
    (lookup_response bounded 20 "c"
      (put_response bounded size_seven 3 "c" response (some 60) store)).1
    ≡ fresh response
lookup_response-put_response_example =
    lookup_response-put_response bounded bounded_lem size_seven 3 20 "c" response 59 store
      store_at_most (omega arith) (omega arith) (omega arith)

-- Another request asks for the same page, and a third puts a page of its own.
abbrev busy : CacheStore (Bounded CacheEntry)
busy =
    put_response bounded size_seven (from_secs 16) "c" response none
      (lookup_response bounded (from_secs 16) "a"
        (lookup_response bounded (from_secs 15) "a" store).0).0

abbrev empty_lru : ℕ → Bounded CacheEntry
empty_lru cap = (cap, [])

-- There is room for two entries of 7 bytes, so that the third response puts out the first; the
-- lookup of the second drops it, since its time is long over.
abbrev used : CacheStore (Bounded CacheEntry)
used =
    let s₁ =
      put_response bounded size_seven 0 "a" response none (new_with_limits empty_lru 5 60 10 20) in
    let s₂ = put_response bounded size_seven 0 "b" response none s₁ in
    let s₃ = put_response bounded size_seven 0 "c" response none s₂ in
    (lookup_response bounded (from_secs 500) "b" s₃).0

used-Made : Made bounded empty_lru size_seven used
used-Made =
    stepped
      (stepped
        (stepped (stepped (built 5 60 10 20) (puts 0 "a" response none)) (puts 0 "b" response none))
        (puts 0 "c" response none))
      (looks_up (from_secs 500) "b")

stats-Made_example :
    ((stats bounded used).total_size_bytes ≤ (stats bounded used).max_total_size)
    × ((stats bounded used).total_size_bytes ≤ held bounded used.inner)
stats-Made_example = stats-Made bounded empty_lru size_seven bounded_lem (λ n. refl) used used-Made

-- Of the three responses one is left.
used_once : (stats bounded used).entry_count ≡ 1
unfolding stats put_response put_sized evict pushed new_with_limits lookup_response looked_up lookup
    without promoted put_out kept all_but_last last_entry
used_once = refl
