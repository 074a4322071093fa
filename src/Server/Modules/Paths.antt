-- ===== src/Server/Modules/Paths.antt =====
-- The order of `PathBuf` on canonical paths, component by component, and sorting by it.
use Prim.Native.Char.{code}
use mathlib.Core.List.{Memᴰ}
use mathlib.Core.List.Memᴰ.{head, tail}
use webpipe.Base.{All, String, Bool, true, false, List, [], ◌∷◌, ◌==◌, ltb, nat_eq, if◌then◌else◌}
use webpipe.Base.Text.{split}

-- Texts are compared by their bytes; in UTF-8 that is the order of their characters' codes.
unfoldable pub text_le : String → String → Bool
text_le String.[] t = true
text_le (String.◌∷◌ c s) String.[] = false
text_le (String.◌∷◌ c s) (String.◌∷◌ d t) =
    let rest = text_le s t in
    if ltb (code c) (code d) then true else if nat_eq (code c) (code d) then rest else false

unfoldable pub components_le : List String → List String → Bool
unfolding text_le
components_le [] qs = true
components_le (p ∷ ps) [] = false
components_le (p ∷ ps) (q ∷ qs) =
    let rest = components_le ps qs in if p == q then rest else text_le p q

unfoldable pub path_le : String → String → Bool
unfolding components_le split
path_le p q = components_le (split b'/' p) (split b'/' q)

unfoldable pub insert_path : String → List String → List String
unfolding path_le
insert_path p [] = p ∷ []
insert_path p (q ∷ qs) = let rest = insert_path p qs in if path_le p q then p ∷ q ∷ qs else q ∷ rest

unfoldable pub sort_paths : List String → List String
unfolding insert_path
sort_paths [] = []
sort_paths (p ∷ ps) = insert_path p (sort_paths ps)

Memᴰ-insert_path : (x p : String) (qs : List String) → Memᴰ x (p ∷ qs) → Memᴰ x (insert_path p qs)
unfolding insert_path
Memᴰ-insert_path x p [] m = m
Memᴰ-insert_path x p (q ∷ qs) m = placed (path_le p q) m (λ k. Memᴰ-insert_path x p qs k)
  where
    placed :
        (b : Bool)
        → Memᴰ x (p ∷ q ∷ qs)
        → (Memᴰ x (p ∷ qs) → Memᴰ x (insert_path p qs))
        → Memᴰ x (if b then p ∷ q ∷ qs else q ∷ insert_path p qs)
    placed true m later = m
    placed false (head e) later = tail (later (head e))
    placed false (tail (head e)) later = head e
    placed false (tail (tail m)) later = tail (later (tail m))

-- Sorting loses no path.
pub Memᴰ-sort_paths : (x : String) (ps : List String) → Memᴰ x ps → Memᴰ x (sort_paths ps)
unfolding sort_paths
Memᴰ-sort_paths x [] m = elim m [ ]
Memᴰ-sort_paths x (p ∷ ps) (head e) = Memᴰ-insert_path x p (sort_paths ps) (head e)
Memᴰ-sort_paths x (p ∷ ps) (tail m) =
    Memᴰ-insert_path x p (sort_paths ps) (tail (Memᴰ-sort_paths x ps m))

All-insert_path :
    (P : String → Type 0) (p : String) (qs : List String)
    → P p
    → All P qs
    → All P (insert_path p qs)
unfolding insert_path
All-insert_path P p [] h hs = (h, tt)
All-insert_path P p (q ∷ qs) h (k, ks) = placed (path_le p q) (All-insert_path P p qs h ks)
  where
    placed :
        (b : Bool)
        → All P (insert_path p qs)
        → All P (if b then p ∷ q ∷ qs else q ∷ insert_path p qs)
    placed true later = (h, (k, ks))
    placed false later = (k, later)

pub All-sort_paths : (P : String → Type 0) (ps : List String) → All P ps → All P (sort_paths ps)
unfolding sort_paths
All-sort_paths P [] h = tt
All-sort_paths P (p ∷ ps) (h, hs) = All-insert_path P p (sort_paths ps) h (All-sort_paths P ps hs)
