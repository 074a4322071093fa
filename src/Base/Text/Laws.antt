-- ===== src/Base/Text/Laws.antt =====
-- Laws of the text operations: trimming, splitting at a separator, and joining again.
use Prim.Native.Char.{Char, code}
use Prim.Native.Nat.{ℕ}
use Prim.Native.String
use Prim.Native.String.{String, [], ◌∷◌}
use mathlib.Core.Path.{◌≡◌, refl}
use mathlib.Core.Bool.{Bool, true, not}
use mathlib.Core.Logic.{inl, inr}
use mathlib.Core.Option.{none, some}
use native.Mathlib.Omega.{arith}
use text.Mathlib.TextEquality.{eq_iff, Char-path}
use text.Mathlib.TextLemmas.{nil-append, cons-append}
use webpipe.Base.Tests.{nat_eq, Option-cases}
use webpipe.Base.Text.{
  trim, trim_start, trim_end, strip_prefix, split_once, all_chars, is_whitespace,
}

pub all_chars-append :
    (p : ℕ → Bool) (s t : String)
    → all_chars p s ≡ true
    → all_chars p t ≡ true
    → all_chars p (String.◌++◌ s t) ≡ true
unfolding all_chars
all_chars-append p [] t hs ht = rw nil-append ht
all_chars-append p (c ∷ s) t hs ht = rw cons-append (ground (arith, all_chars-append p s t))

pub all_chars_mono :
    (p q : ℕ → Bool) (s : String)
    → ((c : ℕ) → p c ≡ true → q c ≡ true)
    → all_chars p s ≡ true
    → all_chars q s ≡ true
unfolding all_chars
all_chars_mono p q [] imp h = refl
all_chars_mono p q (c ∷ s) imp h = ground (arith, imp (code c), all_chars_mono p q s imp)

abbrev pub is_solid : ℕ → Bool
is_solid c = not (is_whitespace c)

trim_end_solid : (s : String) → all_chars is_solid s ≡ true → trim_end s ≡ s
unfolding all_chars trim_end
trim_end_solid [] h = refl
trim_end_solid (c ∷ s) h = ground (arith, trim_end_solid s, eq_iff s [])

trim_start_solid : (s : String) → all_chars is_solid s ≡ true → trim_start s ≡ s
unfolding all_chars trim_start
trim_start_solid [] h = refl
trim_start_solid (c ∷ s) h = ground arith

-- A text without white space is trimmed to itself.
pub trim_solid : (s : String) → all_chars is_solid s ≡ true → trim s ≡ s
unfolding trim
trim_solid s h = rw (trim_end_solid s h) (trim_start_solid s h)

-- No separator begins inside a text that lacks the separator's first character.
abbrev pub lacks : Char → ℕ → Bool
lacks d c = not (nat_eq (code d) c)

pub split_once-lacks :
    (d : Char) (sep s : String) → all_chars (lacks d) s ≡ true → split_once (d ∷ sep) s ≡ none
unfolding all_chars split_once
split_once-lacks d sep [] h = refl
split_once-lacks d sep (c ∷ s) h = ground (arith, split_once-lacks d sep s)

pub strip_prefix-append : (sep s : String) → strip_prefix sep (String.◌++◌ sep s) ≡ some s
unfolding strip_prefix
strip_prefix-append [] s = rw nil-append
strip_prefix-append (d ∷ sep) s = rw cons-append (ground (arith, strip_prefix-append sep s))

-- A separator whose first character the text before it lacks is found behind that text.
pub split_once-append :
    (d : Char) (sep s t : String)
    → all_chars (lacks d) s ≡ true
    → split_once (d ∷ sep) (String.◌++◌ s (String.◌++◌ (d ∷ sep) t)) ≡ some (s, t)
unfolding all_chars split_once
split_once-append d sep [] t h =
    rw nil-append
      (rw cons-append (ground (arith, cons-append d sep t, strip_prefix-append (d ∷ sep) t)))
split_once-append d sep (c ∷ s) t h =
    rw (cons-append c s _) (ground (arith, split_once-append d sep s t))

strip_prefix_sound : (sep s t : String) → strip_prefix sep s ≡ some t → s ≡ String.◌++◌ sep t
unfolding strip_prefix
strip_prefix_sound [] s t h = rw nil-append (ground arith)
strip_prefix_sound (d ∷ sep) [] t h = cc
strip_prefix_sound (d ∷ sep) (c ∷ s) t h =
    ground (arith, cons-append d sep t, Char-path d c, strip_prefix_sound sep s t)

-- What is split at a separator is the two parts with the separator between them.
pub split_once_sound :
    (sep s a b : String) → split_once sep s ≡ some (a, b) → s ≡ String.◌++◌ a (String.◌++◌ sep b)
unfolding split_once
split_once_sound sep [] a b h = elim (Option-cases (strip_prefix sep [])) [
  | inl miss ↦ absurd (ground arith)
  | inr (r, hit) ↦ ground (arith, strip_prefix_sound sep [] r hit, nil-append (String.◌++◌ sep r))
]
split_once_sound sep (c ∷ s) a b h = elim (Option-cases (strip_prefix sep (c ∷ s))) [
  | inr (r, hit) ↦
      ground (arith, strip_prefix_sound sep (c ∷ s) r hit, nil-append (String.◌++◌ sep r))
  | inl miss ↦ elim (Option-cases (split_once sep s)) [
    | inl nowhere ↦ absurd (ground arith)
    | inr ((a', b'), later) ↦
        ground (arith, split_once_sound sep s a' b' later, cons-append c a' (String.◌++◌ sep b'))
  ]
]
