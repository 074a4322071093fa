-- ===== src/Loader/Invariant.antt =====
-- loader.rs: what holds of a loader between its steps, and how it changes.
use webpipe.Base.{
  ℕ, ◌+◌, ◌≤◌, ◌<◌, String, true, false, none, some, List, [], ◌∷◌, ◌++◌, ◌≡◌, refl, ◌≢◌, ◌∙◌, ◌==◌,
  ◌||◌, if◌then◌else◌, ap, length, is_some, lookup, insert, eq_iff, eq_refl, arith, lookup-insert,
}
use webpipe.Ast.Program.{Program}
use webpipe.Loader.{Files, ModuleLoader, push_path, finish, without_last}
use webpipe.Loader.Imports.{listed, Reach, Sourced, Ordered, Ordered-insert}

-- The cache is a topological order, and no file that is being loaded is cached.
pub record IsValid (files : Files) (loader : ModuleLoader) : Type 0 where
  pub ordered : Ordered files [] loader.cache
  pub disjoint : (k : String) → listed k loader.loading_stack ≡ true → lookup k loader.cache ≡ none

-- What was cached stays, and what was being loaded still is.
pub record Grows (before after : ModuleLoader) : Type 0 where
  pub cached :
      (k : String) (program : Program)
      → lookup k before.cache ≡ some program
      → lookup k after.cache ≡ some program
  pub loading :
      (k : String) → listed k before.loading_stack ≡ true → listed k after.loading_stack ≡ true

pub Grows-refl : (l : ModuleLoader) → Grows l l
Grows-refl l = record { cached = λ k p h. h; loading = λ k h. h }

pub Grows-trans : (l m n : ModuleLoader) → Grows l m → Grows m n → Grows l n
Grows-trans l m n g h = record {
  cached = λ k p e. h.cached k p (g.cached k p e);
  loading = λ k e. h.loading k (g.loading k e);
}

-- Every file on the stack reaches `k`.
abbrev pub Chained : Files → ModuleLoader → String → Type 0
Chained files l k = (p : String) → listed p l.loading_stack ≡ true → Reach files p k

pub listed-snoc :
    (k p : String) (ps : List String) → listed k (ps ++ p ∷ []) ≡ (listed k ps || (p == k))
unfolding listed
listed-snoc k p [] = ground arith
listed-snoc k p (q ∷ ps) = ground (arith, listed-snoc k p ps)

pub without_last-snoc : (p : String) (ps : List String) → without_last (ps ++ p ∷ []) ≡ ps
unfolding without_last
without_last-snoc p [] = refl
without_last-snoc p (q ∷ []) = refl
without_last-snoc p (q ∷ r ∷ ps) = ap (λ rest. q ∷ rest) (without_last-snoc p (r ∷ ps))

-- The files among `all` that are not on the stack.
abbrev pub room : List String → List String → ℕ
room [] stack = 0
room (p ∷ all) stack = (if listed p stack then 0 else 1) + room all stack

pub room-length : (all stack : List String) → room all stack ≤ length all
room-length [] stack = omega arith
room-length (p ∷ all) stack = ground (arith, room-length all stack)

room-snoc_le : (k : String) (all stack : List String) → room all (stack ++ k ∷ []) ≤ room all stack
room-snoc_le k [] stack = omega arith
room-snoc_le k (p ∷ all) stack = ground (arith, room-snoc_le k all stack, listed-snoc p k stack)

pub room-snoc :
    (k : String) (all stack : List String)
    → listed k all ≡ true
    → listed k stack ≡ false
    → room all (stack ++ k ∷ []) < room all stack
unfolding listed
room-snoc k [] stack h new = cc
room-snoc k (p ∷ all) stack h new = ground (
  arith,
  room-snoc k all stack,
  room-snoc_le k all stack,
  listed-snoc p k stack,
  eq_iff p k,
  h,
  new,
)

module _ (files : Files) where
  pub push-IsValid :
      (a : String) (l : ModuleLoader)
      → lookup a l.cache ≡ none
      → IsValid files l
      → IsValid files (push_path a l)
  push-IsValid a l new valid = record {
    ordered = valid.ordered;
    disjoint = λ k h.
        ground (arith, valid.disjoint k, listed-snoc k a l.loading_stack, eq_iff a k, h, new);
  }

  pub push-Grows : (a : String) (l : ModuleLoader) → Grows l (push_path a l)
  push-Grows a l = record {
    cached = λ k program h. h;
    loading = λ k h. ground (arith, listed-snoc k a l.loading_stack, h);
  }

  -- A new file in the cache.
  insert-apart :
      (a k : String) (program : Program) (cache : List (String × Program))
      → a ≢ k
      → lookup k (insert a program cache) ≡ lookup k cache
  insert-apart a k program cache apart =
      ground (arith, lookup-insert cache a k program, eq_iff a k, apart)

  module _ (a : String) (program : Program) (l m : ModuleLoader)
      (stack : m.loading_stack ≡ l.loading_stack ++ a ∷ []) (valid : IsValid files m) where
    on_top : listed a m.loading_stack ≡ true
    on_top = rw (stack, listed-snoc a a l.loading_stack) (ground (arith, eq_refl a))

    below_top : (k : String) → listed k l.loading_stack ≡ true → listed k m.loading_stack ≡ true
    below_top k h = rw (stack, listed-snoc k a l.loading_stack) (ground (arith, h))

    -- The file at the end of the stack is done.
    pub finish-IsValid :
        listed a l.loading_stack ≡ false
        → Sourced files (λ b. is_some (lookup b m.cache)) a program
        → IsValid files (finish a program m)
    unfolding listed
    finish-IsValid once sourced = record {
      ordered =
          Ordered-insert files a program m.cache [] (valid.disjoint a on_top) refl sourced
            valid.ordered;
      disjoint = λ k h.
          let before : listed k l.loading_stack ≡ true =
            rw (stack, without_last-snoc a l.loading_stack) at h in
          insert-apart a k program m.cache (λ e. ground (arith, e, before, once))
          ∙ valid.disjoint k (below_top k before);
    }

    pub finish-Grows : Grows l m → Grows l (finish a program m)
    finish-Grows grows = record {
      cached = λ k held h.
          let kept = grows.cached k held h in
          insert-apart a k program m.cache (λ e. cc (e, kept, valid.disjoint a on_top)) ∙ kept;
      loading = λ k h. rw (stack, without_last-snoc a l.loading_stack) h;
    }
