-- ===== src/Loader/Order.antt =====
-- loader.rs: the cache that a loader fills is a topological order of the files in it.
use mathlib.Core.Path.{subst}
use webpipe.Base.{
  ◌<◌, String, Bool, true, false, some, List, [], ◌∷◌, ◌≡◌, refl, ◌==◌, ◌||◌, ◌&&◌, is_some, lookup,
  All, All-Memᴰ, eq_iff, arith, ltb, Option-cases, inl, inr,
}
use webpipe.Base.Effect.{ok}
use webpipe.Ast.Program.{Import, Program}
use webpipe.Loader.{Files, resolve_import_path, read_program}
use webpipe.Loader.Imports.{
  listed, Imports, imports, Reach, direct, further, Resolved, Sourced, Ordered, position,
  All-Resolved,
}

-- What comes before the file `k` in the cache, or was listed before.
abbrev earlier : String → List String → List (String × Program) → String → Bool
earlier k seen m b = listed b seen || (is_some (lookup b m) && ltb (position b m) (position k m))

module _ (files : Files) where
  cached-Sourced :
      (k : String) (program : Program) (m : List (String × Program)) (seen : List String)
      → Ordered files seen m
      → lookup k m ≡ some program
      → Sourced files (earlier k seen m) k program
  unfolding Ordered lookup listed position
  cached-Sourced k program [] seen h e = cc
  cached-Sourced k program ((j, other) ∷ m) seen (once, (read, resolved), rest) e =
      here (j == k) refl (λ e. cached-Sourced k program m (j ∷ seen) rest e)
    where
      Here : String → Program → Type 0
      Here = Sourced files (earlier k seen ((j, other) ∷ m))

      here :
          (b : Bool)
          → (j == k) ≡ b
          → (lookup k m ≡ some program → Sourced files (earlier k (j ∷ seen) m) k program)
          → Here k program
      here true same later =
          subst (λ (p : Program). Here k p) (ground (arith, e, same))
            (subst (λ (i : String). Here i other) (ground (arith, same, eq_iff j k))
              (read, All-Resolved files _ _ j (λ b m. ground (arith, m)) other.imports resolved))
      here false differ later =
          let (read, resolved) = later (ground (arith, e, differ)) in
          (
            read,
            All-Resolved files _ _ k
                (λ b known. ground (arith, known, differ, eq_iff j b, eq_iff j k)) program.imports
                resolved,
          )

  known-target :
      (known : String → Bool) (k b : String) (i : Import)
      → Resolved files known k i
      → resolve_import_path files k i.path ≡ ok b
      → known b ≡ true
  known-target known k b i (c, resolves, h) resolves' =
      subst (λ (d : String). known d ≡ true) (cc (resolves, resolves')) h

  before_of_earlier :
      (k b : String) (m : List (String × Program))
      → earlier k [] m b ≡ true
      → (is_some (lookup b m) ≡ true) × (position b m < position k m)
  unfolding listed
  before_of_earlier k b m h = ground (arith, h)

  sourced-imports :
      (k : String) (program held : Program) (known : String → Bool)
      → read_program files k ≡ ok program
      → Sourced files known k held
      → All (Resolved files known k) program.imports
  sourced-imports k program held known read (read', resolved) =
      let same : held ≡ program = cc (read, read') in
      subst (λ (p : Program). All (Resolved files known k) p.imports) same resolved

  -- The imports of a cached file are cached before it.
  Imports-before :
      (m : List (String × Program)) (k b : String)
      → Ordered files [] m
      → is_some (lookup k m) ≡ true
      → Imports files k b
      → (is_some (lookup b m) ≡ true) × (position b m < position k m)
  Imports-before m k b h cached (imports program i read mem resolves) =
      elim (Option-cases (lookup k m)) [
        | inl e ↦ absurd (ground (arith, e, cached))
        | inr (held, e) ↦
            let sourced = cached-Sourced k held m [] h e in
            let resolved = sourced-imports k program held _ read sourced in
            before_of_earlier k b m
              (known-target _ k b i (All-Memᴰ _ i program.imports resolved mem) resolves)
      ]

  pub Reach-before :
      (m : List (String × Program)) (k b : String)
      → Ordered files [] m
      → is_some (lookup k m) ≡ true
      → Reach files k b
      → (is_some (lookup b m) ≡ true) × (position b m < position k m)
  Reach-before m k b h cached (direct i) = Imports-before m k b h cached i
  Reach-before m k b h cached (further {b = c} r i) =
      let (known, before) = Reach-before m k c h cached r in
      let (last, step) = Imports-before m c b h known i in (last, omega arith)

  -- A cached file does not reach itself.
  pub Ordered-acyclic :
      (m : List (String × Program)) (k : String)
      → Ordered files [] m
      → is_some (lookup k m) ≡ true
      → ¬ Reach files k k
  Ordered-acyclic m k h cached r = omega (arith, (Reach-before m k k h cached r).1)
