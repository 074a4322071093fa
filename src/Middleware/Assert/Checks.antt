-- ===== src/Middleware/Assert/Checks.antt =====
-- middleware/assert.rs: what each check of a schema decides, and where its issues are.
use Prim.Native.String
use mathlib.Core.Path.{subst}
use text.Mathlib.TextLemmas.{append_assoc}
use webpipe.Base.{
  ℕ, suc, ◌≤◌, String, Bool, true, false, Option, none, some, [], ◌∷◌, ◌≡◌, refl, sym, ◌==◌, ltb,
  if◌then◌else◌, arith, eq_iff,
}
use webpipe.Base.Text.{format, decimal}
use webpipe.Json.{Value, Items, Fields, null, bool, number, string, array, object, cons, nil}
use webpipe.Middleware.Validate.{char_count, is_email}
use webpipe.Middleware.Validate.Laws.{AtLeast, AtMost}
use webpipe.Middleware.Assert.{
  Checked, issue, check_min, check_max, check_string, check_email, item_path, child_path,
  check_items, check_array, check_object, missing, check_child,
}
use webpipe.Middleware.Assert.Decided.{
  TextWith, AllItems, ArrayOf, ObjectWith, Child, Under, Decided, Under-itself, Decided-Under,
  Decided-and, Decided-if, Decided-mistyped,
}

check_min-Decided :
    (path : String) (len : ℕ) (low : Option ℕ)
    → Decided (AtLeast low len) path (check_min path len low)
check_min-Decided path len none = tt
check_min-Decided path len (some n) =
    Decided-if (n ≤ len) (ltb len n) path _ (λ h le. ground (arith, h, le)) (λ h. ground (arith, h))

check_max-Decided :
    (path : String) (len : ℕ) (high : Option ℕ)
    → Decided (AtMost high len) path (check_max path len high)
check_max-Decided path len none = tt
check_max-Decided path len (some n) =
    Decided-if (len ≤ n) (ltb n len) path _ (λ h le. ground (arith, h, le)) (λ h. ground (arith, h))

abbrev pub Within : Option ℕ → Option ℕ → String → Type 0
Within min max s = AtLeast min (char_count s) × AtMost max (char_count s)

pub check_string-Decided :
    (min max : Option ℕ) (v : Value) (path : String)
    → Decided (TextWith (Within min max) v) path (check_string min max v path)
unfolding check_string
check_string-Decided min max (string s) path =
    Decided-and (AtLeast min (char_count s)) (AtMost max (char_count s)) path
      (check_min path (char_count s) min) (check_max path (char_count s) max)
      (check_min-Decided path (char_count s) min) (check_max-Decided path (char_count s) max)
check_string-Decided min max null path = Decided-mistyped path "string" null
check_string-Decided min max (bool b) path = Decided-mistyped path "string" (bool b)
check_string-Decided min max (number n) path = Decided-mistyped path "string" (number n)
check_string-Decided min max (array vs) path = Decided-mistyped path "string" (array vs)
check_string-Decided min max (object fs) path = Decided-mistyped path "string" (object fs)

abbrev pub IsEmail : String → Type 0
IsEmail s = is_email s ≡ true

pub check_email-Decided :
    (v : Value) (path : String) → Decided (TextWith IsEmail v) path (check_email v path)
unfolding check_email
check_email-Decided (string s) path = tested (is_email s) refl
  where
    unsound : String
    unsound = format ("Expected valid email at " ∷ path ∷ [])

    tested :
        (b : Bool)
        → is_email s ≡ b
        → Decided (IsEmail s) path (if b then none else issue path unsound)
    tested true h = h
    tested false h = (λ m. ground (arith, h, m), Under-itself path)
check_email-Decided null path = Decided-mistyped path "email string" null
check_email-Decided (bool b) path = Decided-mistyped path "email string" (bool b)
check_email-Decided (number n) path = Decided-mistyped path "email string" (number n)
check_email-Decided (array vs) path = Decided-mistyped path "email string" (array vs)
check_email-Decided (object fs) path = Decided-mistyped path "email string" (object fs)

item_path-Under : (path : String) (idx : ℕ) → Under path (item_path path idx)
unfolding item_path format
item_path-Under path idx = (format ("[" ∷ decimal idx ∷ "]" ∷ []), refl)

pub child_path-Under : (path name : String) → Under path (child_path path name)
unfolding child_path format
child_path-Under path name = tested (path == "$") refl
  where
    tested :
        (b : Bool)
        → (path == "$") ≡ b
        → Under path (if b then format ("$." ∷ name ∷ []) else format (path ∷ "." ∷ name ∷ []))
    tested true h =
        let root : path ≡ "$" = ground (arith, h, eq_iff path "$") in
        let at_root = append_assoc "$" "." (format (name ∷ [])) in
        (
          format ("." ∷ name ∷ []),
          subst (λ p. format ("$." ∷ name ∷ []) ≡ String.◌++◌ p (format ("." ∷ name ∷ [])))
              (sym root) at_root,
        )
    tested false h = (format ("." ∷ name ∷ []), refl)

module _ (P : Value → Type 0) (check : Value → String → Checked)
    (decided : (v : Value) (path : String) → Decided (P v) path (check v path)) where
  check_items-Decided :
      (path : String) (idx : ℕ) (vs : Items)
      → Decided (AllItems P vs) path (check_items check path idx vs)
  unfolding check_items
  check_items-Decided path idx nil = tt
  check_items-Decided path idx (cons v vs) =
      Decided-and (P v) (AllItems P vs) path (check v (item_path path idx))
        (check_items check path (suc idx) vs)
        (Decided-Under (P v) path (item_path path idx) (check v (item_path path idx))
          (item_path-Under path idx) (decided v (item_path path idx)))
        (check_items-Decided path (suc idx) vs)

  pub check_array-Decided :
      (v : Value) (path : String) → Decided (ArrayOf P v) path (check_array check v path)
  check_array-Decided (array vs) path = check_items-Decided path 0 vs
  check_array-Decided null path = Decided-mistyped path "array" null
  check_array-Decided (bool b) path = Decided-mistyped path "array" (bool b)
  check_array-Decided (number n) path = Decided-mistyped path "array" (number n)
  check_array-Decided (string s) path = Decided-mistyped path "array" (string s)
  check_array-Decided (object fs) path = Decided-mistyped path "array" (object fs)

  pub check_child-Decided :
      (optional : Bool) (found : Option Value) (path : String)
      → Decided (Child P optional found) path (check_child check optional found path)
  unfolding missing
  check_child-Decided optional (some v) path = decided v path
  check_child-Decided true none path = refl
  check_child-Decided false none path = (λ e. ground (arith, e), Under-itself path)

pub check_object-Decided :
    (P : Fields → Type 0) (check : Fields → String → Checked) (v : Value) (path : String)
    → ((obj : Fields) → Decided (P obj) path (check obj path))
    → Decided (ObjectWith P v) path (check_object check v path)
check_object-Decided P check (object fs) path decided = decided fs
check_object-Decided P check null path decided = Decided-mistyped path "object" null
check_object-Decided P check (bool b) path decided = Decided-mistyped path "object" (bool b)
check_object-Decided P check (number n) path decided = Decided-mistyped path "object" (number n)
check_object-Decided P check (string s) path decided = Decided-mistyped path "object" (string s)
check_object-Decided P check (array vs) path decided = Decided-mistyped path "object" (array vs)
