-- ===== src/Base/Text/Blank.antt =====
-- Texts that `trim` leaves nothing of.
use Prim.Native.Char.{Char, code}
use Prim.Native.String
use Prim.Native.String.{String, [], ◌∷◌}
use mathlib.Core.Path.{◌≡◌, refl, ap}
use mathlib.Core.Bool.{Bool, true}
use native.Mathlib.Omega.{arith}
use text.Mathlib.TextEquality.{eq_iff}
use text.Mathlib.TextLemmas.{cons-append, cons-ne-nil}
use webpipe.Base.Text.{trim, trim_start, trim_end, all_chars, is_whitespace}

abbrev is_blank : String → Bool
is_blank = all_chars is_whitespace

trim_start-blank : (s : String) → trim_start s ≡ [] → is_blank s ≡ true
unfolding trim_start all_chars
trim_start-blank [] h = refl
trim_start-blank (c ∷ s) h = ground (arith, trim_start-blank s, h, cons-ne-nil c s)

blank-trim_end : (s : String) → is_blank (trim_end s) ≡ true → is_blank s ≡ true
unfolding trim_end all_chars
blank-trim_end [] h = refl
blank-trim_end (c ∷ s) h = ground (arith, blank-trim_end s, eq_iff (trim_end s) [], h)

blank-append : (s t : String) → is_blank (String.◌++◌ s t) ≡ true → is_blank s ≡ true
unfolding all_chars
blank-append [] t h = refl
blank-append (c ∷ s) t h = ground (arith, blank-append s t, cons-append c s t, h)

trim_end-blank : (s : String) → is_blank s ≡ true → trim_end s ≡ []
unfolding trim_end all_chars
trim_end-blank [] h = refl
trim_end-blank (c ∷ s) h = ground (arith, trim_end-blank s, eq_iff (trim_end s) [], h)

-- A text that begins with what is not blank is not blank.
pub trim-append : (s t : String) → trim (String.◌++◌ s t) ≡ [] → trim s ≡ []
unfolding trim trim_start
trim-append s t h =
    let blank = blank-append s t (blank-trim_end _ (trim_start-blank _ h)) in
    ap trim_start (trim_end-blank s blank)

-- A white space before a text is trimmed.
pub trim-cons : (c : Char) (s : String) → is_whitespace (code c) ≡ true → trim (c ∷ s) ≡ trim s
unfolding trim trim_end trim_start
trim-cons c s h = ground (arith, eq_iff (trim_end s) [], h)
