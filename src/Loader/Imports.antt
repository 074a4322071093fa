-- ===== src/Loader/Imports.antt =====
-- loader.rs: the graph of the files and their imports, and the order in which a loader caches them.
use mathlib.Core.List.{Memᴰ}
use webpipe.Base.{
  ℕ, suc, String, Bool, true, false, none, List, [], ◌∷◌, ◌≡◌, refl, ◌==◌, ◌||◌, if◌then◌else◌, any,
  is_some, lookup, insert, All, arith,
}
use webpipe.Base.Effect.{ok}
use webpipe.Ast.Program.{Import, Program}
use webpipe.Loader.{Files, resolve_import_path, read_program}

unfoldable pub listed : String → List String → Bool
listed path = any (λ p. p == path)

-- `k` is a file that imports the file `b`.
pub data Imports (files : Files) (k b : String) : Type 0 where
  imports :
      (program : Program) (i : Import)
      → read_program files k ≡ ok program
      → Memᴰ i program.imports
      → resolve_import_path files k i.path ≡ ok b
      → Imports files k b

pub data Reach (files : Files) (k : String) : String → Type 0 where
  direct : {b : String} → Imports files k b → Reach files k b
  further : {b c : String} → Reach files k b → Imports files b c → Reach files k c

-- The import resolves to a file that passes the test.
abbrev pub Resolved : Files → (String → Bool) → String → Import → Type 0
Resolved files known k i =
    (b : String) × (resolve_import_path files k i.path ≡ ok b) × (known b ≡ true)

-- What the file `k` holds, all of its imports known.
abbrev pub Sourced : Files → (String → Bool) → String → Program → Type 0
Sourced files known k program =
    (read_program files k ≡ ok program) × All (Resolved files known k) program.imports

-- Each file is cached once, as it reads and parses, and after all the files that it imports.
unfoldable pub Ordered : Files → List String → List (String × Program) → Type 0
Ordered files seen [] = Unit
Ordered files seen ((k, program) ∷ rest) =
    (listed k seen ≡ false)
    × Sourced files (λ b. listed b seen) k program
    × Ordered files (k ∷ seen) rest

-- Where a file stands in the cache.
unfoldable pub position : String → List (String × Program) → ℕ
position k [] = 0
position k ((j, program) ∷ rest) = if j == k then 0 else suc (position k rest)

module _ (files : Files) where
  pub All-Resolved :
      (known more : String → Bool) (k : String)
      → ((b : String) → known b ≡ true → more b ≡ true)
      → (is : List Import) → All (Resolved files known k) is
      → All (Resolved files more k) is
  All-Resolved known more k f [] h = tt
  All-Resolved known more k f (i ∷ is) ((b, e, m), rest) =
      ((b, e, f b m), All-Resolved known more k f is rest)

  -- A new file goes to the end, after all that is cached.
  pub Ordered-insert :
      (k : String) (program : Program) (m : List (String × Program)) (seen : List String)
      → lookup k m ≡ none
      → listed k seen ≡ false
      → Sourced files (λ b. listed b seen || is_some (lookup b m)) k program
      → Ordered files seen m
      → Ordered files seen (insert k program m)
  unfolding Ordered insert lookup listed
  Ordered-insert k program [] seen new fresh (read, resolved) h =
      (fresh, (read, All-Resolved _ _ k (λ b m. ground arith) program.imports resolved), tt)
  Ordered-insert k program ((j, other) ∷ m) seen new fresh (read, resolved) (once, sourced, rest) =
      put (j == k) refl λ e.
        Ordered-insert k program m (j ∷ seen) (ground (arith, e, new)) (ground (arith, e, fresh))
          (read, All-Resolved _ _ k (λ b m. ground arith) program.imports resolved) rest
    where
      put :
          (b : Bool)
          → (j == k) ≡ b
          → ((j == k) ≡ false → Ordered files (j ∷ seen) (insert k program m))
          → Ordered files seen (if b then (k, program) ∷ m else (j, other) ∷ insert k program m)
      put true e later = absurd (ground (arith, e, new))
      put false e later = (once, sourced, later e)
