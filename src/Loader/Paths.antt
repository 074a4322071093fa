-- ===== src/Loader/Paths.antt =====
-- loader.rs: the paths and the errors that the file system gives the loader.
use webpipe.Base.{String, true, Option, none, some, List, ◌≡◌, ◌≢◌}
use webpipe.Base.Effect.{Result, ok, err}
use webpipe.Executor.Error.{WebPipeError, circular_import}
use webpipe.Loader.{
  Files, canonical, resolve_import_path, read_program, map_err, parsed, resolve_in,
}
use webpipe.Loader.Imports.{listed}

-- There are finitely many files, and the canonical path of a canonical path is that path.
pub record Finite (files : Files) (all : List String) : Type 0 where
  pub canonical_listed : (path a : String) → files.canonicalize path ≡ ok a → listed a all ≡ true
  pub canonical_again :
      (path a : String) → files.canonicalize path ≡ ok a → files.canonicalize a ≡ ok a

map_err-not_circular :
    {A : Type 0} (f : String → WebPipeError) (q : Result String A) (e : WebPipeError) (c : String)
    → ((x : String) → f x ≢ circular_import c)
    → map_err f q ≡ err e
    → e ≢ circular_import c
map_err-not_circular f (ok a) e c h q circular = cc
map_err-not_circular f (err x) e c h q circular = h x (cc)

map_err-ok :
    {A : Type 0} (f : String → WebPipeError) (q : Result String A) (a : A)
    → map_err f q ≡ ok a
    → q ≡ ok a
map_err-ok f (ok b) a h = cc
map_err-ok f (err x) a h = cc

module _ (files : Files) (e : WebPipeError) (c : String) where
  pub canonical-not_circular :
      (path : String) → canonical files path ≡ err e → e ≢ circular_import c
  unfolding canonical
  canonical-not_circular path h = map_err-not_circular _ (files.canonicalize path) e c (λ x q. cc) h

  pub resolve_import_path-not_circular :
      (a path : String) → resolve_import_path files a path ≡ err e → e ≢ circular_import c
  unfolding resolve_import_path resolve_in
  resolve_import_path-not_circular a path h = go (files.parent a) h
    where
      go : (q : Option String) → resolve_in files a path q ≡ err e → e ≢ circular_import c
      go none h circular = cc
      go (some dir) h circular =
          map_err-not_circular _ (files.canonicalize (files.join dir path)) e c (λ x q. cc) h
            circular

  parsed-not_circular :
      (a : String) (q : Result WebPipeError String)
      → (q ≡ err e → e ≢ circular_import c)
      → parsed files a q ≡ err e
      → e ≢ circular_import c
  parsed-not_circular a (ok content) read h =
      map_err-not_circular _ (files.parse_program content) e c (λ x q. cc) h
  parsed-not_circular a (err x) read h = read (cc)

  pub read_program-not_circular :
      (a : String) → read_program files a ≡ err e → e ≢ circular_import c
  unfolding read_program
  read_program-not_circular a h =
      parsed-not_circular a _
        (λ h. map_err-not_circular _ (files.read_to_string a) e c (λ x q. cc) h) h

pub resolved-canonicalize :
    (files : Files) (all : List String)
    → Finite files all
    → (a path b : String) → resolve_import_path files a path ≡ ok b
    → files.canonicalize b ≡ ok b
unfolding resolve_import_path resolve_in
resolved-canonicalize files all finite a path b h = go (files.parent a) h
  where
    go : (q : Option String) → resolve_in files a path q ≡ ok b → files.canonicalize b ≡ ok b
    go none h = cc
    go (some dir) h =
        finite.canonical_again _ b (map_err-ok _ (files.canonicalize (files.join dir path)) b h)
