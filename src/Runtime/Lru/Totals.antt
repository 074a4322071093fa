-- ===== src/Runtime/Lru/Totals.antt =====
-- Sums over the entries of a cache.
use webpipe.Base.{
  ℕ, ◌+◌, String, Option, none, some, List, [], ◌∷◌, ◌≡◌, refl, arith, lookup, Option-cases, inl,
  inr,
}
use webpipe.Runtime.Lru.{
  LruCache, found, put_out, kept, without, promoted, replaced, all_but_last, last_entry,
}

module _ {V : Type 0} (size : V → ℕ) where
  unfoldable pub total : List (String × V) → ℕ
  total [] = 0
  total ((k, v) ∷ es) = size v + total es

  abbrev pub size_at : Option V → ℕ
  size_at none = 0
  size_at (some v) = size v

  abbrev pub size_of : Option (String × V) → ℕ
  size_of none = 0
  size_of (some (k, v)) = size v

  pub total-without :
      (k : String) (es : List (String × V))
      → size_at (lookup k es) + total (without k es) ≡ total es
  unfolding total without lookup
  total-without k [] = refl
  total-without k ((j, v) ∷ es) = ground (arith, total-without k es)

  pub total-promoted : (k : String) (es : List (String × V)) → total (promoted k es) ≡ total es
  unfolding promoted total
  total-promoted k es = elim (Option-cases (lookup k es)) [
    | inl missing ↦ ground arith
    | inr (v, here) ↦ ground (arith, total-without k es)
  ]

  pub total-replaced :
      (k : String) (v w : V) (es : List (String × V))
      → lookup k es ≡ some w
      → size v ≡ size w
      → total (replaced k v es) ≡ total es
  unfolding total replaced lookup
  total-replaced k v w [] h same = refl
  total-replaced k v w ((j, u) ∷ es) h same = ground (arith, total-replaced k v w es)

  pub total-all_but_last :
      (es : List (String × V)) → size_of (last_entry es) + total (all_but_last es) ≡ total es
  unfolding total all_but_last last_entry
  total-all_but_last [] = refl
  total-all_but_last ((k, v) ∷ []) = refl
  total-all_but_last ((k, v) ∷ (j, w) ∷ es) = ground (arith, total-all_but_last ((j, w) ∷ es))

  module _ {C : Type 0} (lru : LruCache C V) where
    -- What a `push` puts out and what it keeps make up what was there.
    pub total-kept :
        (k : String) (c : C)
        → size_of (put_out lru k c) + total (kept lru k c) ≡ total (lru.entries c)
    unfolding put_out kept
    total-kept k c = elim (Option-cases (found lru k c)) [
      | inl missing ↦ ground (arith, total-all_but_last (lru.entries c))
      | inr (v, here) ↦ ground (arith, total-without k (lru.entries c))
    ]
