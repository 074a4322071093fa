-- ===== src/Middleware/Assert/Laws.antt =====
-- middleware/assert.rs: which values conform to a schema, and where an issue is.
use mathlib.Core.Path.{subst}
use webpipe.Base.{
  String, Bool, true, false, none, some, List, [], ◌∷◌, ◌++◌, ◌≡◌, refl, ◌⊎◌, ◌↔◌, inl, inr,
  if◌then◌else◌, arith,
}
use webpipe.Base.Text.{format}
use webpipe.Json.{Value, Fields, get_field}
use webpipe.Middleware.Assert.{
  AssertSchema, unknown_schema, null_schema, bool_schema, number_schema, email_schema,
  string_schema, literal_schema, array_schema, object_schema, union_schema, ObjectFields, no_field,
  object_field, ValidationIssue, Schemas, no_schema, or_schema, Checked, issue, type_name,
  child_path, check_child, union_issue, or_check, check_literal, display_json, validate_value,
  validate_fields, validate_union,
}
use webpipe.Middleware.Assert.Decided.{
  NullOnly, BoolOnly, NumberOnly, TextWith, ArrayOf, ObjectWith, Child, Under, Decided,
  Under-itself, Decided-map, Decided-Under, Decided-and, check_null-Decided, check_bool-Decided,
  check_number-Decided,
}
use webpipe.Middleware.Assert.Checks.{
  Within, IsEmail, check_string-Decided, check_email-Decided, child_path-Under,
  check_object-Decided, check_array-Decided, check_child-Decided,
}

module _ (value_eq : Value → Value → Bool) (debug : String → String) (print : Value → String) where
  unfoldable mutual
    unfolding get_field

    pub Conforms : AssertSchema → Value → Type 0
    Conforms unknown_schema v = Unit
    Conforms null_schema v = NullOnly v
    Conforms bool_schema v = BoolOnly v
    Conforms number_schema v = NumberOnly v
    Conforms email_schema v = TextWith IsEmail v
    Conforms (string_schema min max) v = TextWith (Within min max) v
    Conforms (literal_schema expected) v = value_eq v expected ≡ true
    Conforms (array_schema item) v = ArrayOf (λ w. Conforms item w) v
    Conforms (object_schema fields) v = ObjectWith (λ obj. HasFields fields obj) v
    Conforms (union_schema options) v = ConformsToOne options v

    HasFields : ObjectFields → Fields → Type 0
    HasFields no_field obj = Unit
    HasFields (object_field name optional schema more) obj =
        Child (λ w. Conforms schema w) optional (get_field name obj) × HasFields more obj

    ConformsToOne : Schemas → Value → Type 0
    ConformsToOne no_schema v = ⊥
    ConformsToOne (or_schema option more) v = Conforms option v ⊎ ConformsToOne more v

  check_literal-Decided :
      (expected v : Value) (path : String)
      → Decided
          (value_eq v expected ≡ true)
          path
          (check_literal value_eq debug print expected v path)
  unfolding check_literal
  check_literal-Decided expected v path = tested (value_eq v expected) refl
    where
      message : String
      message = format (
          "Expected literal "
          ∷ display_json value_eq debug print expected
          ∷ " at "
          ∷ path
          ∷ ", got "
          ∷ type_name v
          ∷ [])

      tested :
          (b : Bool)
          → value_eq v expected ≡ b
          → Decided (value_eq v expected ≡ true) path (if b then none else issue path message)
      tested true h = h
      tested false h = (λ m. ground (arith, h, m), Under-itself path)

  -- A member decides the union if the rest decides it.
  Decided-or :
      (P Q : Type 0) (path : String) (messages : List String) (o : Checked)
      (later : List String → Checked)
      → Decided P path o
      → ((messages' : List String) → Decided Q path (later messages'))
      → Decided (P ⊎ Q) path (or_check messages o later)
  Decided-or P Q path messages none later h k = inl h
  Decided-or P Q path messages (some e) later (unmet, at) k =
      Decided-map path (later (messages ++ e.message ∷ [])) (λ q. inr q)
        (λ b. elim b [ inl p ↦ absurd (unmet p) | inr q ↦ q ]) (k (messages ++ e.message ∷ []))

  validate_value-Decided :
      (schema : AssertSchema) (v : Value) (path : String)
      → Decided (Conforms schema v) path (validate_value value_eq debug print schema v path)
  unfolding validate_value Conforms union_issue
  validate_value-Decided schema =
      elim schema
        as (λ s.
          (v : Value) (path : String)
          → Decided (Conforms s v) path (validate_value value_eq debug print s v path)) (λ fs.
            (obj : Fields) (path : String)
            → Decided (HasFields fs obj) path
                (validate_fields value_eq debug print fs obj path)) (λ ss.
                  (v : Value) (path : String) (messages : List String)
                  → Decided (ConformsToOne ss v) path
                      (validate_union value_eq debug print ss v path messages)) [
                        | unknown_schema ↦ λ v path. tt
                        | null_schema ↦ λ v path. check_null-Decided v path
                        | bool_schema ↦ λ v path. check_bool-Decided v path
                        | number_schema ↦ λ v path. check_number-Decided v path
                        | email_schema ↦ λ v path. check_email-Decided v path
                        | string_schema min max ↦ λ v path. check_string-Decided min max v path
                        | literal_schema expected ↦ λ v path. check_literal-Decided expected v path
                        | array_schema (item → ih) ↦ λ v path.
                            check_array-Decided (Conforms item)
                              (validate_value value_eq debug print item) ih v path
                        | object_schema (fields → ih) ↦ λ v path.
                            check_object-Decided (HasFields fields)
                              (validate_fields value_eq debug print fields) v path
                              (λ obj. ih obj path)
                        | union_schema (options → ih) ↦ λ v path. ih v path []
                        | no_field ↦ λ obj path. tt
                        | object_field name optional (schema → ih) (more → ihs) ↦ λ obj path.
                            Decided-and (Child (Conforms schema) optional (get_field name obj))
                              (HasFields more obj) path
                              (check_child (validate_value value_eq debug print schema) optional
                                (get_field name obj) (child_path path name))
                              (validate_fields value_eq debug print more obj path)
                              (Decided-Under (Child (Conforms schema) optional (get_field name obj))
                                path (child_path path name)
                                (check_child (validate_value value_eq debug print schema) optional
                                  (get_field name obj) (child_path path name))
                                (child_path-Under path name)
                                (check_child-Decided (Conforms schema)
                                  (validate_value value_eq debug print schema) ih optional
                                  (get_field name obj) (child_path path name)))
                              (ihs obj path)
                        | no_schema ↦ λ v path messages. (λ h. h, Under-itself path)
                        | or_schema (option → ih) (more → ihs) ↦ λ v path messages.
                            Decided-or (Conforms option v) (ConformsToOne more v) path messages
                              (validate_value value_eq debug print option v path)
                              (validate_union value_eq debug print more v path) (ih v path)
                              (ihs v path)
                      ]

  -- A value passes exactly if it conforms to the schema: an object has its fields, but for optional
  -- ones, every item of an array conforms, and one member of a union suffices. An issue is at the
  -- place where the check began or under it.
  pub validate_value-Conforms :
      (schema : AssertSchema) (v : Value) (path : String)
      → ((validate_value value_eq debug print schema v path ≡ none) ↔ Conforms schema v)
        × ((e : ValidationIssue)
            → validate_value value_eq debug print schema v path ≡ some e
            → Under path e.path)
  validate_value-Conforms schema v path =
      decided (validate_value value_eq debug print schema v path)
        (validate_value-Decided schema v path)
    where
      decided :
          (o : Checked)
          → Decided (Conforms schema v) path o
          → ((o ≡ none) ↔ Conforms schema v)
            × ((e : ValidationIssue) → o ≡ some e → Under path e.path)
      decided none h = (((λ e. h), (λ c. refl)), (λ e h'. cc (h')))
      decided (some found) (unmet, at) =
          (((λ e. cc (e)), (λ c. absurd (unmet c))), (λ e h'. subst (λ o. under o) h' at))
        where
          under : Checked → Type 0
          under none = Unit
          under (some e) = Under path e.path
