-- ===== src/Runtime/Lru.antt =====
-- The cache of the `lru` crate that runtime/context.rs calls: an argument of the stores, with the
-- behaviour that the crate documents.
pub mod Laws
pub mod Bounded
pub mod Totals
use webpipe.Base.{
  ℕ, String, Bool, Option, none, some, List, [], ◌∷◌, ◌≡◌, ◌==◌, if◌then◌else◌, length, lookup, ltb,
}

module _ {V : Type 0} where
  -- Without the entry of a key.
  unfoldable pub without : String → List (String × V) → List (String × V)
  without k [] = []
  without k ((j, v) ∷ rest) = if j == k then rest else (j, v) ∷ without k rest

  -- With the entry of a key first.
  unfoldable pub promoted : String → List (String × V) → List (String × V)
  unfolding without lookup
  promoted k entries = elim (lookup k entries) [
    | none ↦ entries
    | some v ↦ (k, v) ∷ without k entries
  ]

  -- With another value in the entry of a key.
  unfoldable pub replaced : String → V → List (String × V) → List (String × V)
  replaced k v [] = []
  replaced k v ((j, w) ∷ rest) = if j == k then (j, v) ∷ rest else (j, w) ∷ replaced k v rest

  -- All entries but the last.
  unfoldable pub all_but_last : List (String × V) → List (String × V)
  all_but_last [] = []
  all_but_last (e ∷ []) = []
  all_but_last (e ∷ f ∷ rest) = e ∷ all_but_last (f ∷ rest)

  unfoldable pub last_entry : List (String × V) → Option (String × V)
  last_entry [] = none
  last_entry (e ∷ []) = some e
  last_entry (e ∷ f ∷ rest) = last_entry (f ∷ rest)

  abbrev pub at_key : String → Option V → Option (String × V)
  at_key k none = none
  at_key k (some v) = some (k, v)

-- A cache is a `C`. `get_mut` answers the value that its reference stands for, and `write` assigns
-- through that reference.
pub record LruCache (C V : Type 0) : Type 0 where
  pub peek : String → C → Option V
  pub get_mut : String → C → C × Option V
  pub write : String → V → C → C
  pub push : String → V → C → C × Option (String × V)
  pub pop : String → C → C × Option V
  pub pop_lru : C → C × Option (String × V)
  -- `iter`: all entries, the most recently used first.
  pub entries : C → List (String × V)
  pub cap : C → ℕ

-- The value of a key by the entries; what a `push` of a key puts out of a cache; and what is left.
module _ {C V : Type 0} (lru : LruCache C V) where
  abbrev pub found : String → C → Option V
  found k c = lookup k (lru.entries c)

  abbrev pub has_room : C → Bool
  has_room c = ltb (length (lru.entries c)) (lru.cap c)

  unfoldable pub put_out : String → C → Option (String × V)
  unfolding last_entry
  put_out k c = elim (found k c) [
    | some v ↦ some (k, v)
    | none ↦ if has_room c then none else last_entry (lru.entries c)
  ]

  unfoldable pub kept : String → C → List (String × V)
  unfolding without all_but_last
  kept k c = elim (found k c) [
    | some v ↦ without k (lru.entries c)
    | none ↦ if has_room c then lru.entries c else all_but_last (lru.entries c)
  ]

-- What the crate documents of each operation.
pub record LruLaws {C V : Type 0} (lru : LruCache C V) : Type 0 where
  pub peek-found : (k : String) (c : C) → lru.peek k c ≡ found lru k c
  pub get_mut-found : (k : String) (c : C) → (lru.get_mut k c).1 ≡ found lru k c
  pub get_mut-entries :
      (k : String) (c : C) → lru.entries (lru.get_mut k c).0 ≡ promoted k (lru.entries c)
  pub write-entries :
      (k : String) (v : V) (c : C) → lru.entries (lru.write k v c) ≡ replaced k v (lru.entries c)
  pub push-entries :
      (k : String) (v : V) (c : C) → lru.entries (lru.push k v c).0 ≡ (k, v) ∷ kept lru k c
  pub push-put_out : (k : String) (v : V) (c : C) → (lru.push k v c).1 ≡ put_out lru k c
  pub pop-found : (k : String) (c : C) → (lru.pop k c).1 ≡ found lru k c
  pub pop-entries : (k : String) (c : C) → lru.entries (lru.pop k c).0 ≡ without k (lru.entries c)
  pub pop_lru-last : (c : C) → (lru.pop_lru c).1 ≡ last_entry (lru.entries c)
  pub pop_lru-entries : (c : C) → lru.entries (lru.pop_lru c).0 ≡ all_but_last (lru.entries c)
