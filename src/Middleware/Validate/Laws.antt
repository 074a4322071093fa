-- ===== src/Middleware/Validate/Laws.antt =====
-- middleware/validate.rs: which bodies pass.
use webpipe.Base.{
  ℕ, ◌≤◌, String, Bool, true, false, Option, none, some, List, [], ◌∷◌, ◌≡◌, refl, ◌⊎◌, inl, inr,
  ◌==◌, ltb, if◌then◌else◌, arith, All,
}
use webpipe.Json.{Value, Fields, bool, number, string, array, object, null, get_field}
use webpipe.Executor.Resolver.{extract_error_type}
use webpipe.Middleware.Validate.{
  Rule, Kind, string_kind, email_kind, boolean_kind, number_kind, char_count, is_email, check_kind,
  make_error, check_string, check_email, check_boolean, check_number, check_rules, check_length,
  at_least, at_most, bad_email, parse_rules, execute, left_by, body_fields, too_short, too_long,
}

abbrev pub AtLeast : Option ℕ → ℕ → Type 0
AtLeast none len = Unit
AtLeast (some n) len = n ≤ len

abbrev pub AtMost : Option ℕ → ℕ → Type 0
AtMost none len = Unit
AtMost (some n) len = len ≤ n

-- What a rule asks of the value of its field.
abbrev pub MeetsKind : Rule → Kind → Option Value → Type 0
MeetsKind rule string_kind (some (string s)) =
    ((s == "") ≡ false) × AtLeast rule.min (char_count s) × AtMost rule.max (char_count s)
MeetsKind rule email_kind (some (string s)) = ((s == "") ≡ false) × (is_email s ≡ true)
MeetsKind rule boolean_kind (some (bool _)) = Unit
MeetsKind rule number_kind (some (number _)) = Unit
MeetsKind rule _ _ = ⊥

abbrev pub Meets : Fields → Rule → Type 0
Meets obj rule = MeetsKind rule rule.kind (get_field rule.field obj)

-- An error is the error of some rule.
abbrev pub IsError : Value → Type 0
IsError e = extract_error_type e ≡ some "validationError"

make_error-IsError : (name rule message : String) → IsError (make_error name rule message)
unfolding make_error extract_error_type
make_error-IsError name rule message = refl

-- A check passes exactly what its rule asks for, and fails with an error.
abbrev Decides : Type 0 → Option Value → Type 0
Decides P none = P
Decides P (some e) = (¬ P) × IsError e

Decides-map : {P Q : Type 0} (o : Option Value) → (P → Q) → (Q → P) → Decides P o → Decides Q o
Decides-map none f g h = f h
Decides-map (some e) f g (unmet, error) = (λ q. unmet (g q), error)

-- A test comes first: where it holds, the rule is not met.
Decides-if :
    (P : Type 0) (b : Bool) (e : Value) (o : Option Value)
    → (b ≡ true → ¬ P)
    → IsError e
    → (b ≡ false → Decides P o)
    → Decides P (if b then some e else o)
Decides-if P true e o unmet error later = (unmet refl, error)
Decides-if P false e o unmet error later = later refl

too_long-Decides :
    (rule : Rule) (len : ℕ) (high : Option ℕ) → Decides (AtMost high len) (too_long rule len high)
too_long-Decides rule len none = tt
too_long-Decides rule len (some n) =
    Decides-if (len ≤ n) (ltb n len) (at_most rule n) none (λ h le. ground (arith, h, le))
      (make_error-IsError rule.field _ _) (λ h. ground (arith, h))

check_length-Decides :
    (rule : Rule) (len : ℕ) (low high : Option ℕ)
    → Decides (AtLeast low len × AtMost high len) (too_short rule len low (too_long rule len high))
check_length-Decides rule len none high =
    Decides-map (too_long rule len high) (λ h. (tt, h)) (λ h. h.1) (too_long-Decides rule len high)
check_length-Decides rule len (some n) high =
    Decides-if ((n ≤ len) × AtMost high len) (ltb len n) (at_least rule n) (too_long rule len high)
      (λ h le. ground (arith, h, le.0)) (make_error-IsError rule.field _ _)
      (λ h.
        Decides-map (too_long rule len high) (λ k. (ground (arith, h), k)) (λ k. k.1)
          (too_long-Decides rule len high))

refused : (name rule message : String) → Decides ⊥ (some (make_error name rule message))
refused name rule message = (λ h. h, make_error-IsError name rule message)

check_string-Decides :
    (rule : Rule) (v : Option Value) → Decides (MeetsKind rule string_kind v) (check_string rule v)
unfolding check_string
check_string-Decides rule (some (string s)) =
    Decides-if (MeetsKind rule string_kind (some (string s))) (s == "") _
      (check_length rule (char_count s)) (λ h k. cc (h, k.0)) (make_error-IsError rule.field _ _)
      (λ h.
        Decides-map (check_length rule (char_count s)) (λ k. (h, k.0, k.1)) (λ k. (k.1, k.2))
          (check_length-Decides rule (char_count s) rule.min rule.max))
check_string-Decides rule none = refused rule.field _ _
check_string-Decides rule (some null) = refused rule.field _ _
check_string-Decides rule (some (bool b)) = refused rule.field _ _
check_string-Decides rule (some (number n)) = refused rule.field _ _
check_string-Decides rule (some (array vs)) = refused rule.field _ _
check_string-Decides rule (some (object fs)) = refused rule.field _ _

check_email-Decides :
    (rule : Rule) (v : Option Value) → Decides (MeetsKind rule email_kind v) (check_email rule v)
unfolding check_email
check_email-Decides rule none = refused rule.field _ _
check_email-Decides rule (some null) = refused rule.field _ _
check_email-Decides rule (some (bool b)) = refused rule.field _ _
check_email-Decides rule (some (number n)) = refused rule.field _ _
check_email-Decides rule (some (array vs)) = refused rule.field _ _
check_email-Decides rule (some (object fs)) = refused rule.field _ _
check_email-Decides rule (some (string s)) =
    Decides-if (MeetsKind rule email_kind (some (string s))) (s == "") _ _ (λ h k. cc (h, k.0))
      (make_error-IsError rule.field _ _) (λ h. valid (is_email s) refl h)
  where
    valid :
        (b : Bool)
        → is_email s ≡ b
        → (s == "") ≡ false
        → Decides
            (MeetsKind rule email_kind (some (string s)))
            (if b then none else some (bad_email rule))
    valid true h k = (k, h)
    valid false h k = (λ m. cc (h, m.1), make_error-IsError rule.field _ _)

check_boolean-Decides :
    (rule : Rule) (v : Option Value)
    → Decides (MeetsKind rule boolean_kind v) (check_boolean rule v)
unfolding check_boolean
check_boolean-Decides rule (some (bool b)) = tt
check_boolean-Decides rule none = refused rule.field _ _
check_boolean-Decides rule (some null) = refused rule.field _ _
check_boolean-Decides rule (some (number n)) = refused rule.field _ _
check_boolean-Decides rule (some (string s)) = refused rule.field _ _
check_boolean-Decides rule (some (array vs)) = refused rule.field _ _
check_boolean-Decides rule (some (object fs)) = refused rule.field _ _

check_number-Decides :
    (rule : Rule) (v : Option Value) → Decides (MeetsKind rule number_kind v) (check_number rule v)
unfolding check_number
check_number-Decides rule (some (number n)) = tt
check_number-Decides rule none = refused rule.field _ _
check_number-Decides rule (some null) = refused rule.field _ _
check_number-Decides rule (some (bool b)) = refused rule.field _ _
check_number-Decides rule (some (string s)) = refused rule.field _ _
check_number-Decides rule (some (array vs)) = refused rule.field _ _
check_number-Decides rule (some (object fs)) = refused rule.field _ _

check_kind-Decides :
    (rule : Rule) (kind : Kind) (v : Option Value)
    → Decides (MeetsKind rule kind v) (check_kind rule kind v)
check_kind-Decides rule string_kind v = check_string-Decides rule v
check_kind-Decides rule email_kind v = check_email-Decides rule v
check_kind-Decides rule boolean_kind v = check_boolean-Decides rule v
check_kind-Decides rule number_kind v = check_number-Decides rule v

Decides-both :
    (P Q : Type 0) (o later : Option Value)
    → Decides P o
    → Decides Q later
    → Decides (P × Q) (elim o [ none ↦ later | some e ↦ some e ])
Decides-both P Q none later h k = Decides-map later (λ q. (h, q)) (λ b. b.1) k
Decides-both P Q (some e) later (unmet, error) k = (λ b. unmet b.0, error)

check_rules-Decides :
    (rules : List Rule) (obj : Fields) → Decides (All (Meets obj) rules) (check_rules rules obj)
unfolding check_rules
check_rules-Decides [] obj = tt
check_rules-Decides (rule ∷ rules) obj =
    Decides-both (Meets obj rule) (All (Meets obj) rules)
      (check_kind rule rule.kind (get_field rule.field obj)) (check_rules rules obj)
      (check_kind-Decides rule rule.kind (get_field rule.field obj)) (check_rules-Decides rules obj)

-- A body passes exactly if each rule of the configuration is met by the value of its field, a text by
-- its length within the bounds. Then the state is left as it is; otherwise it is an error envelope of
-- type `validationError`. The body of the state is taken to be an object.
pub execute_validates :
    (config : String) (state : Value) (obj : Fields)
    → body_fields state ≡ some obj
    → (All (Meets obj) (parse_rules config) × (execute config state ≡ state))
      ⊎ ((¬ All (Meets obj) (parse_rules config)) × IsError (execute config state))
unfolding execute
execute_validates config state obj h =
    rw h (
      decided (check_rules (parse_rules config) obj) (check_rules-Decides (parse_rules config) obj))
  where
    Met : Type 0
    Met = All (Meets obj) (parse_rules config)

    decided :
        (o : Option Value)
        → Decides Met o
        → (Met × (left_by state o ≡ state)) ⊎ ((¬ Met) × IsError (left_by state o))
    decided none met = inl (met, refl)
    decided (some e) failed = inr failed
