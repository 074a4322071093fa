-- ===== src/Server/Flags/Tested.antt =====
-- server.rs: the tests of the search for feature flags on conditions, and what they stand for.
use mathlib.Core.List.{Memᴰ}
use mathlib.Core.List.Memᴰ
use webpipe.Base.{
  String, Bool, true, false, ◌||◌, ◌&&◌, Option, none, some, List, [], ◌∷◌, ◌≡◌, refl, sym, ◌⊎◌,
  inl, inr, arith, any, ◌==◌, eq_iff,
}
use webpipe.Ast.{TagExpr, tag, and, or}
use webpipe.Server.Flags.{tag_expr_has_flag, tag_expr_has_needs_flags, condition_needs}
use webpipe.Server.Flags.Asks.{SomeTag, IsFlag, IsNeedsFlags, Asks}

-- The test says whether there is a proof.
abbrev pub Tests : Bool → Type 0 → Type 0
Tests b X = (b ≡ true → X) × (X → b ≡ true)

pub Tests-or : (b c : Bool) (X Y : Type 0) → Tests b X → Tests c Y → Tests (b || c) (X ⊎ Y)
Tests-or true c X Y (f, g) (h, k) = ((λ e. inl (f refl)), (λ e. refl))
Tests-or false c X Y (f, g) (h, k) =
    ((λ e. inr (h e)), (λ e. elim e [ inl x ↦ absurd (ground (arith, g x)) | inr y ↦ k y ]))

Tests-and : (b c : Bool) (X Y : Type 0) → Tests b X → Tests c Y → Tests (b && c) (X × Y)
Tests-and true c X Y (f, g) (h, k) = ((λ e. (f refl, h e)), (λ e. k e.1))
Tests-and false c X Y (f, g) (h, k) = ((λ e. absurd (ground arith)), (λ e. g e.0))

Tests-eq : (a b : String) → Tests (a == b) (a ≡ b)
Tests-eq a b = ((λ e. ground (arith, eq_iff a b)), (λ e. ground (arith, eq_iff a b)))

Tests-any : (a : String) (l : List String) → Tests (any (λ b. b == a) l) (Memᴰ a l)
Tests-any a [] = ((λ e. absurd (ground arith)), (λ m. absurd (Memᴰ.not-nil m)))
Tests-any a (b ∷ l) =
    let (f, g) =
      Tests-or (b == a) (any (λ c. c == a) l) (b ≡ a) (Memᴰ a l) (Tests-eq b a) (Tests-any a l) in
    (
      (λ e. elim (f e) [ inl same ↦ Memᴰ.head (sym same) | inr later ↦ Memᴰ.tail later ]),
      (λ m. g (elim (Memᴰ.cases_cons m) [ inl same ↦ inl (sym same) | inr later ↦ inr later ])),
    )

pub Tests-tag_expr_has_flag : (e : TagExpr) → Tests (tag_expr_has_flag e) (SomeTag IsFlag e)
unfolding tag_expr_has_flag SomeTag
Tests-tag_expr_has_flag (tag t) = Tests-eq t.name "flag"
Tests-tag_expr_has_flag (and left right) =
    Tests-or _ _ _ _ (Tests-tag_expr_has_flag left) (Tests-tag_expr_has_flag right)
Tests-tag_expr_has_flag (or left right) =
    Tests-or _ _ _ _ (Tests-tag_expr_has_flag left) (Tests-tag_expr_has_flag right)

Tests-tag_expr_has_needs_flags :
    (e : TagExpr) → Tests (tag_expr_has_needs_flags e) (SomeTag IsNeedsFlags e)
unfolding tag_expr_has_needs_flags SomeTag
Tests-tag_expr_has_needs_flags (tag t) =
    Tests-and _ _ _ _ (Tests-eq t.name "needs") (Tests-any "flags" t.args)
Tests-tag_expr_has_needs_flags (and left right) =
    Tests-or _ _ _ _ (Tests-tag_expr_has_needs_flags left) (Tests-tag_expr_has_needs_flags right)
Tests-tag_expr_has_needs_flags (or left right) =
    Tests-or _ _ _ _ (Tests-tag_expr_has_needs_flags left) (Tests-tag_expr_has_needs_flags right)

pub Tests-condition_needs : (c : Option TagExpr) → Tests (condition_needs c) (Asks c)
Tests-condition_needs none = ((λ e. absurd (ground arith)), (λ k. absurd k))
Tests-condition_needs (some e) =
    Tests-or _ _ _ _ (Tests-tag_expr_has_flag e) (Tests-tag_expr_has_needs_flags e)
