-- ===== src/Loader/Laws.antt =====
-- loader.rs: `load_module`, from a loader whose state is valid.
use mathlib.Core.Path.{subst}
use webpipe.Base.{ℕ, zero, suc, String, true, some, List, ◌≡◌, refl, length, is_some, lookup, arith}
use webpipe.Base.Effect.{Result, ok, err, throw, lift, gets, diverge, ◌>>=◌}
use webpipe.Base.Effect.Outcomes.{Outcome, Outcome-lift_bind, Outcome-is_some}
use webpipe.Ast.Program.{Program}
use webpipe.Executor.Error.{WebPipeError, circular_import}
use webpipe.Loader.{
  Files, ModuleLoader, new, canonical, map_err, get_cached, format_import_cycle, load_canonical,
  load_module,
}
use webpipe.Loader.Imports.{listed, Reach, Ordered}
use webpipe.Loader.Order.{Ordered-acyclic, Reach-before}
use webpipe.Loader.Invariant.{IsValid, Chained, room-length}
use webpipe.Loader.Paths.{Finite, canonical-not_circular}
use webpipe.Loader.Left.{Cycle, Failed, Loaded, Loads}
use webpipe.Loader.Loads.{load_canonical_lem}

canonical-ok :
    (files : Files) (path a : String) → files.canonicalize path ≡ ok a → canonical files path ≡ ok a
unfolding canonical
canonical-ok files path a h = rw h refl

map_err-err :
    {A : Type 0} (f : String → WebPipeError) (q : Result String A) (m : String)
    → q ≡ err m
    → (e : WebPipeError) × (map_err f q ≡ err e)
map_err-err f q m h = (f m, rw h refl)

canonical-err :
    (files : Files) (path m : String)
    → files.canonicalize path ≡ err m
    → (e : WebPipeError) × (canonical files path ≡ err e)
unfolding canonical
canonical-err files path m h = map_err-err _ (files.canonicalize path) m h

new-Chained : (files : Files) (a : String) → Chained files new a
unfolding listed
new-Chained files a p h = cc

pub new-IsValid : (files : Files) → IsValid files new
unfolding Ordered listed
new-IsValid files = record { ordered = tt; disjoint = λ k h. cc }

module _ (files : Files) (all : List String) (finite : Finite files all) where
  load_module_lem :
      (fuel : ℕ) (path a : String) (l : ModuleLoader)
      → files.canonicalize path ≡ ok a
      → IsValid files l
      → Outcome (Loads files all fuel l a) (load_module files fuel path l)
  unfolding load_module diverge
  load_module_lem zero path a l resolves valid = omega arith
  load_module_lem (suc fuel) path a l resolves valid =
      let found = canonical-ok files path a resolves in
      Outcome-lift_bind (Loads files all (suc fuel) l a) (canonical files path) _ l
        (λ e failed. absurd (cc (found, failed)))
        λ b resolves'.
          let same : a ≡ b = cc (found, resolves') in
          subst
            (λ (c : String).
              Outcome (Loads files all (suc fuel) l a)
                (load_canonical files (load_module files fuel) c l))
            same
            (load_canonical_lem files all finite fuel (load_module files fuel)
              (load_module_lem fuel) a l (finite.canonical_again path a resolves) valid)

  loaded :
      (fuel : ℕ) (path a : String) (program : Program) (l l' : ModuleLoader)
      → files.canonicalize path ≡ ok a
      → IsValid files l
      → load_module files fuel path l ≡ some (l', ok program)
      → Loaded files l a program l'
  loaded fuel path a program l l' resolves valid e =
      subst (Outcome (Loads files all fuel l a)) e (load_module_lem fuel path a l resolves valid)

  failed :
      (fuel : ℕ) (path a : String) (e : WebPipeError) (l l' : ModuleLoader)
      → files.canonicalize path ≡ ok a
      → IsValid files l
      → load_module files fuel path l ≡ some (l', err e)
      → Failed files l a e l'
  failed fuel path a e l l' resolves valid h =
      subst (Outcome (Loads files all fuel l a)) h (load_module_lem fuel path a l resolves valid)

  unresolved :
      (fuel : ℕ) (path m : String) (l : ModuleLoader)
      → files.canonicalize path ≡ err m
      → (e : WebPipeError) × (canonical files path ≡ err e)
        × (load_module files (suc fuel) path l ≡ some (l, err e))
  unfolding load_module ◌>>=◌ lift
  unresolved fuel path m l h =
      let (e, same) = canonical-err files path m h in (e, same, rw same refl)

  -- In a file system of finitely many files, which makes a canonical path of one of them: whatever
  -- the imports between the files are, `load_module` ends, on fuel for as many calls within one
  -- another as there are files and one more. The loader is any that loads and failed loads have left.
  pub load_module_ends :
      (path : String) (l : ModuleLoader)
      → IsValid files l
      → is_some (load_module files (suc (length all)) path l) ≡ true
  load_module_ends path l valid = go (files.canonicalize path) refl
    where
      go :
          (q : Result String String)
          → files.canonicalize path ≡ q
          → is_some (load_module files (suc (length all)) path l) ≡ true
      go (err m) e = let (_, _, h) = unresolved (length all) path m l e in rw h refl
      go (ok a) e =
          Outcome-is_some (Loads files all (suc (length all)) l a) _
            (λ short. omega (arith, short, room-length all l.loading_stack))
            (load_module_lem (suc (length all)) path a l e valid)

  -- A load that succeeds leaves a loader whose cache holds the program of the file and is in the
  -- order of the imports again, each file after those that it imports, and the stack of files that
  -- are being loaded as it was.
  pub load_module-IsValid :
      (fuel : ℕ) (path a : String) (program : Program) (l l' : ModuleLoader)
      → files.canonicalize path ≡ ok a
      → IsValid files l
      → load_module files fuel path l ≡ some (l', ok program)
      → IsValid files l' × (l'.loading_stack ≡ l.loading_stack) × (lookup a l'.cache ≡ some program)
  load_module-IsValid fuel path a program l l' resolves valid e =
      let done = loaded fuel path a program l l' resolves valid e in
      (done.valid, done.stack, done.cached)

  -- Behind a load that succeeds there is no circular import: each file that the loaded one reaches by
  -- imports is in the cache, and does not reach itself.
  pub load_module-acyclic :
      (fuel : ℕ) (path a b : String) (program : Program) (l l' : ModuleLoader)
      → files.canonicalize path ≡ ok a
      → IsValid files l
      → load_module files fuel path l ≡ some (l', ok program)
      → Reach files a b
      → (is_some (lookup b l'.cache) ≡ true) × (¬ Reach files b b)
  load_module-acyclic fuel path a b program l l' resolves valid e r =
      let done = loaded fuel path a program l l' resolves valid e in
      let ordered = done.valid.ordered in
      let held = (Reach-before files l'.cache a b ordered (rw done.cached refl) r).0 in
      (held, Ordered-acyclic files l'.cache b ordered held)

  -- A new loader that answers `CircularImport` has met a file that reaches itself by imports.
  pub circular_import-Reach :
      (fuel : ℕ) (path c : String) (l' : ModuleLoader)
      → load_module files fuel path new ≡ some (l', err (circular_import c))
      → (k : String) × Reach files k k
  unfolding load_module diverge
  circular_import-Reach zero path c l' e = cc
  circular_import-Reach (suc fuel) path c l' e = go (files.canonicalize path) refl
    where
      go : (q : Result String String) → files.canonicalize path ≡ q → Cycle files
      go (err m) h =
          let (e', same, run) = unresolved fuel path m new h in
          absurd (canonical-not_circular files e' c path same (cc (run, e)))
      go (ok a) h =
          (failed (suc fuel) path a (circular_import c) new l' h (new-IsValid files) e).cycle
            (new-Chained files a) c refl

  -- A load that fails, once the path is resolved, leaves the file on the stack of files that are
  -- being loaded: whatever the error was, the next load of the file on that loader answers
  -- `CircularImport`.
  pub load_module-load_module :
      (fuel later : ℕ) (path a : String) (e : WebPipeError) (l l' : ModuleLoader)
      → files.canonicalize path ≡ ok a
      → IsValid files l
      → load_module files fuel path l ≡ some (l', err e)
      → load_module files (suc later) path l'
        ≡ some (l', err (circular_import (format_import_cycle files a l')))
  unfolding load_module canonical load_canonical get_cached ◌>>=◌ lift gets throw listed
  load_module-load_module fuel later path a e l l' resolves valid h =
      let stuck = failed fuel path a e l l' resolves valid h in
      rw (resolves, stuck.valid.disjoint a stuck.left, stuck.left) refl
