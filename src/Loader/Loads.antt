-- ===== src/Loader/Loads.antt =====
-- loader.rs: each call of `load_module`, for a file system of finitely many files.
use mathlib.Core.List.{Memᴰ}
use mathlib.Core.List.Memᴰ.{head, tail}
use webpipe.Base.{
  ℕ, suc, ◌≤◌, String, Bool, true, false, Option, none, some, List, [], ◌∷◌, ◌++◌, ◌≡◌, refl, sym,
  lookup, arith,
}
use webpipe.Base.Effect.{Effect, ok, pure, throw, gets, ◌>>=◌}
use webpipe.Base.Effect.Outcomes.{
  Outcome, Outcome-bind, Outcome-lift_bind, Outcome-map, Outcome-modify_bind,
}
use webpipe.Ast.Program.{Import, Program}
use webpipe.Executor.Error.{WebPipeError}
use webpipe.Loader.{
  Files, ModuleLoader, push_path, finish, get_cached, resolve_import_path, read_program,
  load_imports, load_file, load_uncached, load_or_cached, load_canonical,
}
use webpipe.Loader.Imports.{listed, imports}
use webpipe.Loader.Invariant.{IsValid, Grows-refl, room, room-snoc, push-IsValid}
use webpipe.Loader.Paths.{
  Finite, resolved-canonicalize, resolve_import_path-not_circular, read_program-not_circular,
}
use webpipe.Loader.Left.{
  Loaded, Loads, Looped, Loops, import-Failed, later-Failed, Looped-cons, pushed-Failed, finished,
}

module _ (files : Files) where
  module _ (all : List String) (finite : Finite files all) (fuel : ℕ)
      (load : String → Effect ModuleLoader WebPipeError Program)
      (rec : (path a : String) (l : ModuleLoader)
        → files.canonicalize path ≡ ok a
        → IsValid files l
        → Outcome (Loads files all fuel l a) (load path l)) where
    load_imports_lem :
        (a : String) (program : Program) (is : List Import) (l : ModuleLoader)
        → read_program files a ≡ ok program
        → ((i : Import) → Memᴰ i is → Memᴰ i program.imports)
        → IsValid files l
        → Outcome (Loops files all fuel l a is) (load_imports files load a is l)
    unfolding load_imports pure
    load_imports_lem a program [] l read sub valid = record {
      valid = valid;
      grows = Grows-refl l;
      stack = refl;
      resolved = tt;
    }
    load_imports_lem a program (i ∷ is) l read sub valid =
        Outcome-lift_bind (Loops files all fuel l a (i ∷ is)) (resolve_import_path files a i.path) _
          l
          (λ e failed. record {
            valid = valid;
            grows = Grows-refl l;
            cycle = λ topped c circular.
                absurd (resolve_import_path-not_circular files e c a i.path failed circular);
          })
          λ b resolves.
            Outcome-bind (Loops files all fuel l a (i ∷ is)) (Loaded files l b) (load b) _ l
              (Outcome-map (Loads files all fuel l b) _ (load b l)
                (rec b b l (resolved-canonicalize files all finite a i.path b resolves) valid)
                (λ h. h)
                (λ e m failed.
                  import-Failed files l m a b e
                    (imports program i read (sub i (head refl)) resolves) failed)
                (λ p m h. h))
              λ held m first.
                Outcome-map (Loops files all fuel m a is) _ (load_imports files load a is m)
                  (load_imports_lem a program is m read (λ j h. sub j (tail h)) first.valid)
                  (λ h. rw (sym first.stack) h)
                  (λ e n failed. later-Failed files l m n a b held e first failed)
                  (λ _ n later. Looped-cons files l m n a b held i is resolves first later)

    room-snoc_fuel :
        (a : String) (l : ModuleLoader)
        → listed a all ≡ true
        → listed a l.loading_stack ≡ false
        → fuel ≤ room all (l.loading_stack ++ a ∷ [])
        → suc fuel ≤ room all l.loading_stack
    room-snoc_fuel a l known once short = omega (arith, room-snoc a all l.loading_stack known once)

    load_file_lem :
        (a : String) (l : ModuleLoader)
        → listed a all ≡ true
        → listed a l.loading_stack ≡ false
        → lookup a l.cache ≡ none
        → IsValid files l
        → Outcome (Loads files all (suc fuel) l a) (load_file files load a l)
    unfolding load_file pure
    load_file_lem a l known once new valid =
        let pushed = push_path a l in
        let valid' = push-IsValid files a l new valid in
        Outcome-modify_bind (Loads files all (suc fuel) l a) (push_path a) _ l (
          Outcome-lift_bind (Loads files all (suc fuel) l a) (read_program files a) _
            (push_path a l)
            (λ e failed. pushed-Failed files l pushed a e (record {
              valid = valid';
              grows = Grows-refl pushed;
              cycle = λ topped c circular.
                  absurd (read_program-not_circular files e c a failed circular);
            }))
            λ program read.
              Outcome-bind (Loads files all (suc fuel) l a)
                (λ _. Looped files (push_path a l) a program.imports) _ _ pushed
                (Outcome-map (Loops files all fuel pushed a program.imports) _
                  (load_imports files load a program.imports pushed)
                  (load_imports_lem a program program.imports pushed read (λ i h. h) valid')
                  (room-snoc_fuel a l known once) (λ e m failed. pushed-Failed files l m a e failed)
                  (λ _ m looped. looped))
                λ _ m looped.
                  Outcome-modify_bind (Loads files all (suc fuel) l a) (finish a program) _ m
                    (finished files l m a program read once looped))

    pub load_canonical_lem :
        (a : String) (l : ModuleLoader)
        → files.canonicalize a ≡ ok a
        → IsValid files l
        → Outcome (Loads files all (suc fuel) l a) (load_canonical files load a l)
    unfolding load_canonical get_cached gets pure throw ◌>>=◌ listed
    load_canonical_lem a l same valid = go (lookup a l.cache) refl
      where
        uncached :
            (b : Bool)
            → lookup a l.cache ≡ none
            → listed a l.loading_stack ≡ b
            → Outcome (Loads files all (suc fuel) l a) (load_uncached files load a b l)
        uncached true new looping = record {
          valid = valid;
          grows = Grows-refl l;
          left = looping;
          cycle = λ chained c circular. (a, chained a looping);
        }
        uncached false new once =
            load_file_lem a l (finite.canonical_listed a a same) once new valid

        go :
            (q : Option Program)
            → lookup a l.cache ≡ q
            → Outcome (Loads files all (suc fuel) l a) (load_or_cached files load a q l)
        go (some program) e = record {
          valid = valid;
          grows = Grows-refl l;
          stack = refl;
          cached = e;
        }
        go none e = uncached (listed a l.loading_stack) e refl
