-- ===== src/Middleware/Assert/Decided.antt =====
-- middleware/assert.rs: what it is that a check decides, and the checks of a value's kind.
use Prim.Native.String
use text.Mathlib.TextLemmas.{append-nil, append_assoc}
use webpipe.Base.{
  String, Bool, true, false, Option, none, some, ◌≡◌, refl, sym, ap, ◌∙◌, if◌then◌else◌,
}
use webpipe.Json.{Value, Items, Fields, null, bool, number, string, array, object, cons, nil}
use webpipe.Middleware.Assert.{
  Checked, issue, type_issue, and_check, check_null, check_bool, check_number,
}

-- What a schema asks of a value, by the kind of the value.
abbrev pub NullOnly : Value → Type 0
NullOnly null = Unit
NullOnly _ = ⊥

abbrev pub BoolOnly : Value → Type 0
BoolOnly (bool _) = Unit
BoolOnly _ = ⊥

abbrev pub NumberOnly : Value → Type 0
NumberOnly (number _) = Unit
NumberOnly _ = ⊥

abbrev pub TextWith : (String → Type 0) → Value → Type 0
TextWith P (string s) = P s
TextWith P _ = ⊥

abbrev pub AllItems : (Value → Type 0) → Items → Type 0
AllItems P nil = Unit
AllItems P (cons v vs) = P v × AllItems P vs

abbrev pub ArrayOf : (Value → Type 0) → Value → Type 0
ArrayOf P (array vs) = AllItems P vs
ArrayOf P _ = ⊥

abbrev pub ObjectWith : (Fields → Type 0) → Value → Type 0
ObjectWith P (object obj) = P obj
ObjectWith P _ = ⊥

abbrev pub Child : (Value → Type 0) → Bool → Option Value → Type 0
Child P optional (some v) = P v
Child P optional none = optional ≡ true

-- A path that leads on from another.
abbrev pub Under : String → String → Type 0
Under path further = (rest : String) × (further ≡ String.◌++◌ path rest)

-- A check passes exactly where `P` holds, and its issue is at or under the path.
abbrev pub Decided : Type 0 → String → Checked → Type 0
Decided P path none = P
Decided P path (some e) = (¬ P) × Under path e.path

pub Under-itself : (path : String) → Under path path
Under-itself path = ("", sym (append-nil path))

Under-further : (a b c : String) → Under a b → Under b c → Under a c
Under-further a b c (r, e) (t, f) =
    (String.◌++◌ r t, f ∙ ap (λ s. String.◌++◌ s t) e ∙ append_assoc a r t)

pub Decided-map :
    {P Q : Type 0} (path : String) (o : Checked)
    → (P → Q)
    → (Q → P)
    → Decided P path o
    → Decided Q path o
Decided-map path none f g h = f h
Decided-map path (some e) f g (unmet, at) = (λ q. unmet (g q), at)

pub Decided-Under :
    (P : Type 0) (path further : String) (o : Checked)
    → Under path further
    → Decided P further o
    → Decided P path o
Decided-Under P path further none u h = h
Decided-Under P path further (some e) u (unmet, at) =
    (unmet, Under-further path further e.path u at)

pub Decided-and :
    (P Q : Type 0) (path : String) (o later : Checked)
    → Decided P path o
    → Decided Q path later
    → Decided (P × Q) path (and_check o later)
Decided-and P Q path none later h k = Decided-map path later (λ q. (h, q)) (λ b. b.1) k
Decided-and P Q path (some e) later (unmet, at) k = (λ b. unmet b.0, at)

pub Decided-if :
    (P : Type 0) (b : Bool) (path message : String)
    → (b ≡ true → ¬ P)
    → (b ≡ false → P)
    → Decided P path (if b then issue path message else none)
Decided-if P true path message unmet met = (unmet refl, Under-itself path)
Decided-if P false path message unmet met = met refl

pub Decided-mistyped :
    (path expected : String) (v : Value) → Decided ⊥ path (type_issue path expected v)
unfolding type_issue
Decided-mistyped path expected v = (λ h. h, Under-itself path)

pub check_null-Decided : (v : Value) (path : String) → Decided (NullOnly v) path (check_null v path)
check_null-Decided null path = tt
check_null-Decided (bool b) path = Decided-mistyped path "null" (bool b)
check_null-Decided (number n) path = Decided-mistyped path "null" (number n)
check_null-Decided (string s) path = Decided-mistyped path "null" (string s)
check_null-Decided (array vs) path = Decided-mistyped path "null" (array vs)
check_null-Decided (object fs) path = Decided-mistyped path "null" (object fs)

pub check_bool-Decided : (v : Value) (path : String) → Decided (BoolOnly v) path (check_bool v path)
check_bool-Decided (bool b) path = tt
check_bool-Decided null path = Decided-mistyped path "boolean" null
check_bool-Decided (number n) path = Decided-mistyped path "boolean" (number n)
check_bool-Decided (string s) path = Decided-mistyped path "boolean" (string s)
check_bool-Decided (array vs) path = Decided-mistyped path "boolean" (array vs)
check_bool-Decided (object fs) path = Decided-mistyped path "boolean" (object fs)

pub check_number-Decided :
    (v : Value) (path : String) → Decided (NumberOnly v) path (check_number v path)
check_number-Decided (number n) path = tt
check_number-Decided null path = Decided-mistyped path "number" null
check_number-Decided (bool b) path = Decided-mistyped path "number" (bool b)
check_number-Decided (string s) path = Decided-mistyped path "number" (string s)
check_number-Decided (array vs) path = Decided-mistyped path "number" (array vs)
check_number-Decided (object fs) path = Decided-mistyped path "number" (object fs)
