-- ===== src/Server/Runtime/Numbers.antt =====
-- server.rs: the ids that `build_runtime` counts, and the table of a registry.
use mathlib.Core.Path.{subst}
use mathlib.Core.List.{Memᴰ}
use mathlib.Core.List.Memᴰ.{head, tail}
use webpipe.Base.{
  ℕ, suc, ◌<◌, String, Bool, true, false, some, List, [], ◌∷◌, ◌≡◌, refl, sym, ap, ◌∙◌, ◌==◌,
  lookup, insert, lookup-insert, lookup-insert_self, nat_eq, if◌then◌else◌, arith, length, eq_iff,
  All,
}
use webpipe.Executor.Modules.{ModuleMetadata, lookup_id, insert_id}
use webpipe.Loader.Tree.{ModuleInfo, Registry}
use webpipe.Server.Modules.{number_paths}
use webpipe.Server.Runtime.{resolve_imports}

pub lookup_id-insert_id :
    (i j : ℕ) (m : ModuleMetadata) (ms : List (ℕ × ModuleMetadata))
    → lookup_id j (insert_id i m ms) ≡ (if nat_eq i j then some m else lookup_id j ms)
unfolding lookup_id insert_id
lookup_id-insert_id i j m [] = refl
lookup_id-insert_id i j m ((k, n) ∷ ms) = ground (arith, lookup_id-insert_id i j m ms)

-- Every id is below `k`.
abbrev pub Below : ℕ → List (ℕ × ModuleMetadata) → Type 0
Below k ms = All (λ (i, _). i < k) ms

pub length-insert_id :
    (k : ℕ) (m : ModuleMetadata) (ms : List (ℕ × ModuleMetadata))
    → Below k ms
    → length (insert_id k m ms) ≡ suc (length ms)
unfolding insert_id
length-insert_id k m [] h = refl
length-insert_id k m ((i, n) ∷ ms) (h, hs) =
    let different : nat_eq i k ≡ false = ground (arith, h) in
    rw different (ap suc (length-insert_id k m ms hs))

pub insert_id-Below :
    (k : ℕ) (m : ModuleMetadata) (ms : List (ℕ × ModuleMetadata))
    → Below k ms
    → Below (suc k) (insert_id k m ms)
unfolding insert_id
insert_id-Below k m [] h = (omega arith, tt)
insert_id-Below k m ((i, n) ∷ ms) (h, hs) =
    let different : nat_eq i k ≡ false = ground (arith, h) in
    rw different (omega (arith, h), insert_id-Below k m ms hs)

-- The metadata that `build_runtime` registers.
abbrev pub described : List (String × ℕ) → ℕ → String → ModuleInfo → ModuleMetadata
described ids i path info = record {
  id = i;
  path = path;
  import_map = resolve_imports ids info.imports;
}

-- Every id that is told is below `i` and told of one path only.
abbrev pub Distinct : ℕ → List (String × ℕ) → Type 0
Distinct i ids =
    ((p : String) (k : ℕ) → lookup p ids ≡ some k → k < i)
    × ((p q : String) (k : ℕ) → lookup p ids ≡ some k → lookup q ids ≡ some k → p ≡ q)

insert-Distinct :
    (i : ℕ) (path : String) (ids : List (String × ℕ))
    → Distinct i ids
    → Distinct (suc i) (insert path i ids)
insert-Distinct i path ids (below, once) = (below', once')
  where
    found :
        (p : String) → lookup p (insert path i ids) ≡ (if path == p then some i else lookup p ids)
    found p = lookup-insert ids path p i

    below' : (p : String) (k : ℕ) → lookup p (insert path i ids) ≡ some k → k < suc i
    below' p k h = placed (path == p) (sym (found p) ∙ h)
      where
        placed : (b : Bool) → (if b then some i else lookup p ids) ≡ some k → k < suc i
        placed true e = ground (arith, e)
        placed false e = ground (arith, below p k e)

    once' :
        (p q : String) (k : ℕ)
        → lookup p (insert path i ids) ≡ some k
        → lookup q (insert path i ids) ≡ some k
        → p ≡ q
    once' p q k h h' =
        placed (path == p) (path == q) refl refl (sym (found p) ∙ h) (sym (found q) ∙ h')
      where
        placed :
            (a b : Bool)
            → (path == p) ≡ a
            → (path == q) ≡ b
            → (if a then some i else lookup p ids) ≡ some k
            → (if b then some i else lookup q ids) ≡ some k
            → p ≡ q
        placed true true u v e e' = ground (arith, u, v, eq_iff path p, eq_iff path q)
        placed true false u v e e' = ground (arith, e, below q k e')
        placed false true u v e e' = ground (arith, e', below p k e)
        placed false false u v e e' = once p q k e e'

pub number_paths-Distinct :
    (i : ℕ) (paths : List String) (ids : List (String × ℕ))
    → Distinct i ids
    → (n : ℕ) × Distinct n (number_paths i paths ids)
unfolding number_paths
number_paths-Distinct i [] ids h = (i, h)
number_paths-Distinct i (path ∷ paths) ids h =
    number_paths-Distinct (suc i) paths (insert path i ids) (insert-Distinct i path ids h)

insert-kept :
    (p path : String) (i k : ℕ) (ids : List (String × ℕ))
    → lookup p ids ≡ some k
    → (k' : ℕ) × (lookup p (insert path i ids) ≡ some k')
insert-kept p path i k ids h = placed (path == p) (lookup-insert ids path p i)
  where
    placed :
        (b : Bool)
        → lookup p (insert path i ids) ≡ (if b then some i else lookup p ids)
        → (k' : ℕ) × (lookup p (insert path i ids) ≡ some k')
    placed true e = (i, e)
    placed false e = (k, e ∙ h)

number_paths-kept :
    (p : String) (i : ℕ) (paths : List String) (ids : List (String × ℕ)) (k : ℕ)
    → lookup p ids ≡ some k
    → (k' : ℕ) × (lookup p (number_paths i paths ids) ≡ some k')
unfolding number_paths
number_paths-kept p i [] ids k h = (k, h)
number_paths-kept p i (path ∷ paths) ids k h =
    let (k', e) = insert-kept p path i k ids h in
    number_paths-kept p (suc i) paths (insert path i ids) k' e

-- Every path gets an id.
pub number_paths-Memᴰ :
    (p : String) (i : ℕ) (paths : List String) (ids : List (String × ℕ))
    → Memᴰ p paths
    → (k : ℕ) × (lookup p (number_paths i paths ids) ≡ some k)
unfolding number_paths
number_paths-Memᴰ p i [] ids m = elim m [ ]
number_paths-Memᴰ p i (path ∷ paths) ids (head e) =
    number_paths-kept p (suc i) paths (insert path i ids) i
      (subst (λ q. lookup q (insert path i ids) ≡ some i) (sym e) (lookup-insert_self path i ids))
number_paths-Memᴰ p i (path ∷ paths) ids (tail m) =
    number_paths-Memᴰ p (suc i) paths (insert path i ids) m

abbrev pub Known : Registry → String → Type 0
Known tree p = (info : ModuleInfo) × (lookup p tree ≡ some info)
