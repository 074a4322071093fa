-- ===== src/Loader/Left.antt =====
-- loader.rs: what a call of `load_module` and the loop over the imports leave.
use mathlib.Core.Path.{subst}
use webpipe.Base.{
  ℕ, ◌≤◌, String, true, false, some, List, ◌∷◌, ◌≡◌, refl, sym, ◌∙◌, ◌⊎◌, is_some, lookup, All,
  eq_iff, eq_refl, arith, Bool-cases, inl, inr, lookup-insert_self,
}
use webpipe.Base.Effect.{ok}
use webpipe.Base.Effect.Outcomes.{Post}
use webpipe.Ast.Program.{Import, Program}
use webpipe.Executor.Error.{WebPipeError, circular_import}
use webpipe.Loader.{Files, ModuleLoader, push_path, finish, resolve_import_path, read_program}
use webpipe.Loader.Imports.{listed, Imports, Reach, direct, further, Resolved}
use webpipe.Loader.Invariant.{
  IsValid, Grows, Grows-trans, Chained, listed-snoc, room, push-Grows, finish-IsValid, finish-Grows,
  without_last-snoc,
}

module _ (files : Files) where
  abbrev pub Cycle : Type 0
  Cycle = (k : String) × Reach files k k

  -- The file `a` is on the stack that the failure leaves, and a circular import is one.
  pub record Failed (l : ModuleLoader) (a : String) (e : WebPipeError) (l' : ModuleLoader)
      : Type 0 where
    pub valid : IsValid files l'
    pub grows : Grows l l'
    pub left : listed a l'.loading_stack ≡ true
    pub cycle : Chained files l a → (c : String) → e ≡ circular_import c → Cycle

  pub record Loaded (l : ModuleLoader) (a : String) (program : Program) (l' : ModuleLoader)
      : Type 0 where
    pub valid : IsValid files l'
    pub grows : Grows l l'
    pub stack : l'.loading_stack ≡ l.loading_stack
    pub cached : lookup a l'.cache ≡ some program

  abbrev pub Loads :
      List String → ℕ → ModuleLoader → String → Post ModuleLoader WebPipeError Program
  Loads all fuel l a = record {
    short = fuel ≤ room all l.loading_stack;
    fails = Failed l a;
    answers = Loaded l a;
  }

  -- Every file on the stack is `a`, or reaches it.
  abbrev pub Topped : ModuleLoader → String → Type 0
  Topped l a = (p : String) → listed p l.loading_stack ≡ true → (p ≡ a) ⊎ Reach files p a

  -- What the loop over the imports `is` of the file `a` leaves.
  pub record Looped (l : ModuleLoader) (a : String) (is : List Import) (l' : ModuleLoader)
      : Type 0 where
    pub valid : IsValid files l'
    pub grows : Grows l l'
    pub stack : l'.loading_stack ≡ l.loading_stack
    pub resolved : All (Resolved files (λ b. is_some (lookup b l'.cache)) a) is

  pub record LoopFailed (l : ModuleLoader) (a : String) (e : WebPipeError) (l' : ModuleLoader)
      : Type 0 where
    pub valid : IsValid files l'
    pub grows : Grows l l'
    pub cycle : Topped l a → (c : String) → e ≡ circular_import c → Cycle

  abbrev pub Loops :
      List String
      → ℕ
      → ModuleLoader
      → String
      → List Import
      → Post ModuleLoader WebPipeError (Unit {0})
  Loops all fuel l a is = record {
    short = fuel ≤ room all l.loading_stack;
    fails = LoopFailed l a;
    answers = λ _. Looped l a is;
  }

  Topped-Chained :
      (l : ModuleLoader) (a b : String) → Imports files a b → Topped l a → Chained files l b
  Topped-Chained l a b i topped p h = elim (topped p h) [
    | inl e ↦ direct (subst (λ (q : String). Imports files q b) (sym e) i)
    | inr r ↦ further r i
  ]

  pub import-Failed :
      (l m : ModuleLoader) (a b : String) (e : WebPipeError)
      → Imports files a b
      → Failed l b e m
      → LoopFailed l a e m
  import-Failed l m a b e i failed = record {
    valid = failed.valid;
    grows = failed.grows;
    cycle = λ topped. failed.cycle (Topped-Chained l a b i topped);
  }

  pub later-Failed :
      (l m n : ModuleLoader) (a b : String) (held : Program) (e : WebPipeError)
      → Loaded l b held m
      → LoopFailed m a e n
      → LoopFailed l a e n
  later-Failed l m n a b held e first failed = record {
    valid = failed.valid;
    grows = Grows-trans l m n first.grows failed.grows;
    cycle = λ topped. failed.cycle (λ p h. topped p (rw first.stack at h));
  }

  pub Looped-cons :
      (l m n : ModuleLoader) (a b : String) (held : Program) (i : Import) (is : List Import)
      → resolve_import_path files a i.path ≡ ok b
      → Loaded l b held m
      → Looped m a is n
      → Looped l a (i ∷ is) n
  Looped-cons l m n a b held i is resolves first later = record {
    valid = later.valid;
    grows = Grows-trans l m n first.grows later.grows;
    stack = later.stack ∙ first.stack;
    resolved = ((b, resolves, rw (later.grows.cached b held first.cached) refl), later.resolved);
  }

  pushed-Topped : (l : ModuleLoader) (a : String) → Chained files l a → Topped (push_path a l) a
  pushed-Topped l a chained p h = elim (Bool-cases (listed p l.loading_stack)) [
    | inl below ↦ inr (chained p below)
    | inr e ↦ inl (ground (arith, e, h, listed-snoc p a l.loading_stack, eq_iff a p))
  ]

  pub pushed-Failed :
      (l m : ModuleLoader) (a : String) (e : WebPipeError)
      → LoopFailed (push_path a l) a e m
      → Failed l a e m
  pushed-Failed l m a e failed = record {
    valid = failed.valid;
    grows = Grows-trans l (push_path a l) m (push-Grows files a l) failed.grows;
    left = failed.grows.loading a (ground (arith, listed-snoc a a l.loading_stack, eq_refl a));
    cycle = λ chained. failed.cycle (pushed-Topped l a chained);
  }

  pub finished :
      (l m : ModuleLoader) (a : String) (program : Program)
      → read_program files a ≡ ok program
      → listed a l.loading_stack ≡ false
      → Looped (push_path a l) a program.imports m
      → Loaded l a program (finish a program m)
  finished l m a program read once looped = record {
    valid =
        finish-IsValid files a program l m looped.stack looped.valid once (read, looped.resolved);
    grows =
        finish-Grows files a program l m looped.stack looped.valid
          (Grows-trans l (push_path a l) m (push-Grows files a l) looped.grows);
    stack = rw (looped.stack) (without_last-snoc a l.loading_stack);
    cached = lookup-insert_self a program m.cache;
  }
