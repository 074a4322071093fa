-- ===== src/Base/Text.antt =====
-- The operations of Rust's `str` that the program calls, over the native texts.
pub mod Laws
pub mod Blank
use Prim.Native.Nat.{ℕ, zero, suc, ◌+◌, ◌-◌, ◌*◌, ◌/◌, ◌%◌, ◌^◌}
use Prim.Native.Char.{Char, code}
use Prim.Native.String
use Prim.Native.String.{String, [], ◌∷◌}
use mathlib.Core.Bool.{Bool, true, false, ◌&&◌, ◌||◌}
use mathlib.Core.Option.{Option, none, some}
use mathlib.Core.List.{List}
use text.Mathlib.Text.{◌==◌}
use webpipe.Base.Tests.{if◌then◌else◌, leb, ltb, nat_eq, or_else}

abbrev between : ℕ → ℕ → ℕ → Bool
between lo hi c = leb lo c && leb c hi

-- Unicode's White_Space, which `trim` removes.
unfoldable pub is_whitespace : ℕ → Bool
is_whitespace c =
    between 9 13 c
    || nat_eq c 32
    || nat_eq c 0x85
    || nat_eq c 0xA0
    || nat_eq c 0x1680
    || between 0x2000 0x200A c
    || nat_eq c 0x2028
    || nat_eq c 0x2029
    || nat_eq c 0x202F
    || nat_eq c 0x205F
    || nat_eq c 0x3000

abbrev pub is_ascii_digit : ℕ → Bool
is_ascii_digit c = between b'0' b'9' c

abbrev pub is_ascii_alphanumeric : ℕ → Bool
is_ascii_alphanumeric c = between b'0' b'9' c || between b'A' b'Z' c || between b'a' b'z' c

-- `format!`: the pieces one after another.
unfoldable pub format : List String → String
format List.[] = []
format (List.◌∷◌ s r) = String.◌++◌ s (format r)

unfoldable pub trim_start : String → String
trim_start [] = []
trim_start (c ∷ s) = let rest = trim_start s in if is_whitespace (code c) then rest else c ∷ s

unfoldable pub trim_end : String → String
trim_end [] = []
trim_end (c ∷ s) =
    let rest = trim_end s in
    if rest == [] then (if is_whitespace (code c) then [] else c ∷ []) else c ∷ rest

unfoldable pub trim : String → String
unfolding trim_start trim_end
trim s = trim_start (trim_end s)

-- `trim_start_matches(ch)`
unfoldable pub trim_start_matches : ℕ → String → String
trim_start_matches ch [] = []
trim_start_matches ch (c ∷ s) =
    let rest = trim_start_matches ch s in if nat_eq (code c) ch then rest else c ∷ s

abbrev pub head_onto : Char → List String → List String
head_onto c List.[] = List.◌∷◌ (c ∷ []) List.[]
head_onto c (List.◌∷◌ s r) = List.◌∷◌ (c ∷ s) r

-- `split(ch)`: one part more than `ch` has occurrences.
unfoldable pub split : ℕ → String → List String
split ch [] = List.◌∷◌ [] List.[]
split ch (c ∷ s) =
    let rest = split ch s in if nat_eq (code c) ch then List.◌∷◌ [] rest else head_onto c rest

-- `split_once(sep)` and `strip_prefix(sep)`
unfoldable pub strip_prefix : String → String → Option String
strip_prefix [] s = some s
strip_prefix (d ∷ sep) [] = none
strip_prefix (d ∷ sep) (c ∷ s) = if nat_eq (code d) (code c) then strip_prefix sep s else none

abbrev pub prepend : Char → Option (String × String) → Option (String × String)
prepend c none = none
prepend c (some (a, b)) = some (c ∷ a, b)

unfoldable pub split_once : String → String → Option (String × String)
unfolding strip_prefix
split_once sep [] = elim (strip_prefix sep []) [ none ↦ none | some r ↦ some ([], r) ]
split_once sep (c ∷ s) =
    let later = split_once sep s in
    elim (strip_prefix sep (c ∷ s)) [ none ↦ prepend c later | some r ↦ some ([], r) ]

abbrev pub present : {A : Type 0} → Option A → Bool
present none = false
present (some _) = true

unfoldable pub starts_with : String → String → Bool
unfolding strip_prefix
starts_with s p = present (strip_prefix p s)

-- What stands behind the last `sep` (`rfind(sep)`).
unfoldable pub behind_last : String → String → Option String
unfolding strip_prefix
behind_last sep [] = none
behind_last sep (c ∷ s) = let later = behind_last sep s in or_else later (strip_prefix sep (c ∷ s))

unfoldable pub contains : String → String → Bool
unfolding split_once
contains s p = present (split_once p s)

-- `chars().all(p)`
unfoldable pub all_chars : (ℕ → Bool) → String → Bool
all_chars p [] = true
all_chars p (c ∷ s) = p (code c) && all_chars p s

abbrev push_digit : ℕ → ℕ → Option ℕ → Option ℕ
push_digit bound d none = none
push_digit bound d (some n) = if ltb (n * 10 + d) bound then some (n * 10 + d) else none

digits_value : ℕ → Option ℕ → String → Option ℕ
digits_value bound acc [] = acc
digits_value bound acc (c ∷ s) =
    digits_value bound
      (if is_ascii_digit (code c) then push_digit bound (code c - b'0') acc else none) s

-- `parse::<u64>()` and `parse::<usize>()` on a 64-bit machine: an optional `+`, then decimal digits,
-- and an error on an empty text or an overflow.
unfoldable pub parse_u64 : String → Option ℕ
unfolding digits_value
parse_u64 [] = none
parse_u64 (c ∷ s) =
    if nat_eq (code c) b'+'
    then (if s == [] then none else digits_value (2 ^ 64) (some 0) s)
    else digits_value (2 ^ 64) (some 0) (c ∷ s)

abbrev digit_text : ℕ → String
digit_text n =
    if nat_eq n 0
    then "0"
    else if nat_eq n 1
    then "1"
    else if nat_eq n 2
    then "2"
    else if nat_eq n 3
    then "3"
    else if nat_eq n 4
    then "4"
    else if nat_eq n 5
    then "5"
    else if nat_eq n 6
    then "6"
    else if nat_eq n 7
    then "7"
    else if nat_eq n 8
    then "8"
    else "9"

decimal_digits : ℕ → ℕ → String → String
decimal_digits zero n out = out
decimal_digits (suc f) n out =
    let shown = String.◌++◌ (digit_text (n % 10)) out in
    let rest = decimal_digits f (n / 10) shown in if ltb n 10 then shown else rest

-- `to_string()` of an unsigned number. A number has no more decimal digits than its value plus one.
unfoldable pub decimal : ℕ → String
unfolding decimal_digits
decimal n = decimal_digits (suc n) n ""
