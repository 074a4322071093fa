-- ===== src/Runtime/Lru/Bounded.antt =====
-- The cache as the list of its entries beside its capacity: it behaves as the crate documents.
use webpipe.Base.{ℕ, String, none, List, ◌∷◌, refl, lookup}
use webpipe.Runtime.Lru.{
  LruCache, LruLaws, without, promoted, replaced, all_but_last, last_entry, put_out, kept,
}

abbrev pub Bounded : Type 0 → Type 0
Bounded V = ℕ × List (String × V)

module _ {V : Type 0} where
  abbrev pub observed : LruCache (Bounded V) V
  observed = record {
    peek = λ k c. lookup k c.1;
    get_mut = λ k c. ((c.0, promoted k c.1), lookup k c.1);
    write = λ k v c. (c.0, replaced k v c.1);
    push = λ k v c. (c, none);
    pop = λ k c. ((c.0, without k c.1), lookup k c.1);
    pop_lru = λ c. ((c.0, all_but_last c.1), last_entry c.1);
    entries = λ c. c.1;
    cap = λ c. c.0;
  }

  abbrev pub bounded : LruCache (Bounded V) V
  bounded = record observed {
    push = λ k v c. ((c.0, (k, v) ∷ kept observed k c), put_out observed k c);
  }

  pub bounded_lem : LruLaws bounded
  unfolding put_out kept
  bounded_lem = record {
    peek-found = λ k c. refl;
    get_mut-found = λ k c. refl;
    get_mut-entries = λ k c. refl;
    write-entries = λ k v c. refl;
    push-entries = λ k v c. refl;
    push-put_out = λ k v c. refl;
    pop-found = λ k c. refl;
    pop-entries = λ k c. refl;
    pop_lru-last = λ c. refl;
    pop_lru-entries = λ c. refl;
  }
