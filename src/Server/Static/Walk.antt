-- ===== src/Server/Static/Walk.antt =====
-- server.rs: where a path leads by its names.
use Prim.Native.Char.{code}
use text.Mathlib.TextLemmas.{cons-ne-nil}
use webpipe.Base.{
  String, Bool, true, false, some, List, [], ◌∷◌, ◌++◌, ◌≡◌, refl, sym, ap, ◌∙◌, ◌==◌, any, get_or,
  if◌then◌else◌, arith, append_assoc, append-nil, eq_iff, nat_eq,
}
use webpipe.Base.Text.{starts_with, strip_prefix, trim_start_matches, split}
use webpipe.Executor.Context.{without_last}
use webpipe.Server.Static.{
  Component, root_dir, cur_dir, parent_dir, normal, PathBuf, with_component, inner_components,
  relative_components, components, join, is_parent, or_index, index_of,
}

pub some_pair : {A B : Type 0} (p q : A × B) → some p ≡ some q → (p.0 ≡ q.0) × (p.1 ≡ q.1)
some_pair p q h = (ap (λ o. (get_or o p).0) h, ap (λ o. (get_or o p).1) h)

-- Where a path leads from a folder, by its names alone: `..` leads up.
unfoldable pub walk : List String → PathBuf → List String
unfolding without_last
walk at [] = at
walk at (root_dir ∷ p) = walk [] p
walk at (cur_dir ∷ p) = walk at p
walk at (parent_dir ∷ p) = walk (without_last at) p
walk at (normal name ∷ p) = walk (at ++ name ∷ []) p

walk-append : (at : List String) (p q : PathBuf) → walk at (p ++ q) ≡ walk (walk at p) q
unfolding walk
walk-append at [] q = refl
walk-append at (root_dir ∷ p) q = walk-append [] p q
walk-append at (cur_dir ∷ p) q = walk-append at p q
walk-append at (parent_dir ∷ p) q = walk-append (without_last at) p q
walk-append at (normal name ∷ p) q = walk-append (at ++ name ∷ []) p q

abbrev pub is_root : Component → Bool
is_root root_dir = true
is_root _ = false

abbrev pub Beyond : List String → List String → Type 0
Beyond at place = (rest : List String) × (place ≡ at ++ rest)

-- Without `..` and without a root a path only leads on.
pub walk-Beyond :
    (at : List String) (q : PathBuf)
    → any is_parent q ≡ false
    → any is_root q ≡ false
    → Beyond at (walk at q)
unfolding walk
walk-Beyond at [] h k = ([], sym (append-nil at))
walk-Beyond at (root_dir ∷ q) h k = ground (arith, k)
walk-Beyond at (parent_dir ∷ q) h k = ground (arith, h)
walk-Beyond at (cur_dir ∷ q) h k = walk-Beyond at q h k
walk-Beyond at (normal name ∷ q) h k =
    let (rest, e) = walk-Beyond (at ++ name ∷ []) q h k in
    (name ∷ rest, e ∙ append_assoc at (name ∷ []) rest)

with_component-rootless :
    (part : String) (p : PathBuf)
    → any is_root p ≡ false
    → any is_root (with_component part p) ≡ false
with_component-rootless part p h = ground (arith, h)

inner_components-rootless : (parts : List String) → any is_root (inner_components parts) ≡ false
unfolding inner_components
inner_components-rootless [] = refl
inner_components-rootless (part ∷ parts) =
    with_component-rootless part (inner_components parts) (inner_components-rootless parts)

relative_components-rootless :
    (parts : List String) → any is_root (relative_components parts) ≡ false
relative_components-rootless [] = refl
relative_components-rootless (part ∷ parts) = placed (part == ".")
  where
    placed :
        (b : Bool)
        → any is_root
            (if b then cur_dir ∷ inner_components parts else inner_components (part ∷ parts))
          ≡ false
    placed true = inner_components-rootless parts
    placed false = inner_components-rootless (part ∷ parts)

components-rootless : (s : String) → starts_with s "/" ≡ false → any is_root (components s) ≡ false
unfolding components
components-rootless s h = rw h (relative_components-rootless (split b'/' s))

or_index-relative : (s : String) → starts_with (or_index (trim_start_matches b'/' s)) "/" ≡ false
unfolding trim_start_matches starts_with strip_prefix
or_index-relative String.[] = refl
or_index-relative (String.◌∷◌ c s) = placed (nat_eq (code c) b'/') refl (or_index-relative s)
  where
    placed :
        (b : Bool)
        → nat_eq (code c) b'/' ≡ b
        → starts_with (or_index (trim_start_matches b'/' s)) "/" ≡ false
        → starts_with (or_index (if b then trim_start_matches b'/' s else String.◌∷◌ c s)) "/"
          ≡ false
    placed true h later = later
    placed false h later =
        let not_empty : (String.◌∷◌ c s == "") ≡ false =
          ground (arith, eq_iff (String.◌∷◌ c s) "", cons-ne-nil c s) in
        let no_slash : nat_eq b'/' (code c) ≡ false = ground (arith, h) in
        rw (not_empty, no_slash) refl

-- What a request asks for, relative to the public folder.
abbrev pub wanted : String → PathBuf
wanted decoded = components (or_index (trim_start_matches b'/' decoded))

pub wanted-rootless : (decoded : String) → any is_root (wanted decoded) ≡ false
wanted-rootless decoded = components-rootless _ (or_index-relative decoded)

pub walk-join :
    (at : List String) (p q : PathBuf)
    → any is_root q ≡ false
    → walk at (join p q) ≡ walk (walk at p) q
unfolding join walk
walk-join at p [] h = walk-append at p []
walk-join at p (root_dir ∷ q) h = ground (arith, h)
walk-join at p (parent_dir ∷ q) h = walk-append at p (parent_dir ∷ q)
walk-join at p (normal name ∷ q) h = walk-append at p (normal name ∷ q)
walk-join at [] (cur_dir ∷ q) h = refl
walk-join at (c ∷ p) (cur_dir ∷ q) h = walk-append at (c ∷ p) q

pub Beyond-trans : (a b c : List String) → Beyond a b → Beyond b c → Beyond a c
Beyond-trans a b c (r, e) (t, f) = (r ++ t, f ∙ ap (λ l. l ++ t) e ∙ append_assoc a r t)

abbrev pub place : PathBuf → List String
place path = walk [] path

pub index_of-Beyond : (path : PathBuf) → Beyond (place path) (place (index_of path))
unfolding walk
index_of-Beyond path = ("index.html" ∷ [], walk-join [] path (normal "index.html" ∷ []) refl)
