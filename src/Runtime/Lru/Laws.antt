-- ===== src/Runtime/Lru/Laws.antt =====
-- Finding a key among entries that an operation has reordered, changed or shortened.
use webpipe.Base.{
  String, false, some, List, [], ◌∷◌, ◌≡◌, refl, arith, ◌==◌, ◌&&◌, if◌then◌else◌, lookup, eq_iff,
  Option-cases, inl, inr, is_some,
}
use webpipe.Runtime.Lru.{without, promoted, replaced}

module _ {V : Type 0} where
  pub lookup-without :
      (k j : String) (es : List (String × V))
      → (k == j) ≡ false
      → lookup j (without k es) ≡ lookup j es
  unfolding lookup without
  lookup-without k j [] h = refl
  lookup-without k j ((i, v) ∷ es) h =
      ground (arith, lookup-without k j es h, eq_iff i k, eq_iff i j, eq_iff k j)

  pub lookup-promoted :
      (k j : String) (es : List (String × V)) → lookup j (promoted k es) ≡ lookup j es
  unfolding lookup promoted
  lookup-promoted k j es = elim (Option-cases (lookup k es)) [
    | inl missing ↦ ground arith
    | inr (v, here) ↦ ground (arith, lookup-without k j es, eq_iff k j)
  ]

  pub lookup-replaced :
      (k j : String) (v : V) (es : List (String × V))
      → lookup j (replaced k v es)
        ≡ (if k == j && is_some (lookup k es) then some v else lookup j es)
  unfolding lookup replaced
  lookup-replaced k j v [] = ground arith
  lookup-replaced k j v ((i, w) ∷ es) =
      ground (arith, lookup-replaced k j v es, eq_iff i k, eq_iff i j, eq_iff k j)
