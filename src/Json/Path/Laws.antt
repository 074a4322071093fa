-- ===== src/Json/Path/Laws.antt =====
-- Reading after writing through a path, and undoing a write.
use webpipe.Base.{
  String, ◌≡◌, refl, sym, ap, some, List, [], ◌∷◌, arith, eq_refl, inl, inr, Option-cases,
}
use webpipe.Base.Text.{parse_u64}
use webpipe.Json.{Value, array, object}
use webpipe.Json.Laws.{
  get_field-insert_field, get_item-set_item, insert_field-insert_field, set_item-set_item,
  insert_field-get_field, set_item-get_item,
}
use webpipe.Json.Path.{child, set_child, get_at, set_at, get_value, set_value, parse_path}

child-set_child :
    (root v w : Value) (part : String)
    → child root part ≡ some v
    → child (set_child root part w) part ≡ some w
unfolding child set_child
child-set_child (object fs) v w part h = simp (get_field-insert_field, eq_refl)
child-set_child (array vs) v w part h = elim (Option-cases (parse_u64 part)) [
  | inl p ↦ ground arith
  | inr (i, p) ↦ ground (arith, get_item-set_item vs i v w)
]
child-set_child _ v w part h = cc

set_child-set_child :
    (root u v w : Value) (part : String)
    → child root part ≡ some u
    → set_child (set_child root part v) part w ≡ set_child root part w
unfolding child set_child
set_child-set_child (object fs) u v w part h = rw (insert_field-insert_field part v w fs)
set_child-set_child (array vs) u v w part h = elim (Option-cases (parse_u64 part)) [
  | inl p ↦ ground arith
  | inr (i, p) ↦ ground (arith, set_item-set_item vs i v w)
]
set_child-set_child _ u v w part h = cc

set_child-child :
    (root v : Value) (part : String) → child root part ≡ some v → set_child root part v ≡ root
unfolding child set_child
set_child-child (object fs) v part h = ap object (insert_field-get_field part v fs h)
set_child-child (array vs) v part h = elim (Option-cases (parse_u64 part)) [
  | inl p ↦ ground arith
  | inr (i, p) ↦ ground (arith, set_item-get_item vs i v)
]
set_child-child _ v part h = cc

-- `root'` is `root` with `v` written at the path, where `u` stood, and writing `u` again undoes it.
abbrev pub Overwrites : Value → List String → Value → Value → Value → Type 0
Overwrites root parts u v root' =
    (set_at root parts v ≡ some root')
    × (get_at root' parts ≡ some v)
    × (set_at root' parts u ≡ some root)

set_at-Overwrites :
    (parts : List String) (root u v : Value)
    → get_at root parts ≡ some u
    → (root' : Value) × Overwrites root parts u v root'
unfolding get_at set_at
set_at-Overwrites [] root u v h = (v, (refl, refl, sym h))
set_at-Overwrites (part ∷ parts) root u v h = elim (Option-cases (child root part)) [
  | inl missing ↦ absurd (ground arith)
  | inr (c, found) ↦
      let (c', (wrote, reads, undoes)) = set_at-Overwrites parts c u v (ground arith) in
      let written = child-set_child root c c' part found in
      (
        set_child root part c',
        (
          ground arith,
          ground arith,
          ground (
            arith,
            set_child-set_child root c c' c part found,
            set_child-child root c part found,
          ),
        ),
      )
]

-- Where a path leads to a value, that place can be overwritten; the new value is then found at the
-- path, and writing the old value back gives the whole document that was there before.
pub set_value-get_value :
    (root u v : Value) (path : String)
    → get_value root path ≡ some u
    → (root' : Value) × (set_value root path v ≡ some root')
      × (get_value root' path ≡ some v)
      × (set_value root' path u ≡ some root)
unfolding get_value set_value
set_value-get_value root u v path h =
    let (root', (wrote, reads, undoes)) = set_at-Overwrites (parse_path path) root u v h in
    (root', wrote, reads, undoes)

set_at-set_at :
    (parts : List String) (root v w root' : Value)
    → set_at root parts v ≡ some root'
    → set_at root' parts w ≡ set_at root parts w
unfolding set_at
set_at-set_at [] root v w root' h = refl
set_at-set_at (part ∷ parts) root v w root' h = elim (Option-cases (child root part)) [
  | inl missing ↦ absurd (ground arith)
  | inr (c, found) ↦ elim (Option-cases (set_at c parts v)) [
    | inl stuck ↦ absurd (ground arith)
    | inr (c', wrote) ↦ overwritten c c' found wrote (set_at-set_at parts c v w c' wrote)
  ]
]
  where
    overwritten :
        (c c' : Value)
        → child root part ≡ some c
        → set_at c parts v ≡ some c'
        → set_at c' parts w ≡ set_at c parts w
        → set_at root' (part ∷ parts) w ≡ set_at root (part ∷ parts) w
    overwritten c c' found wrote later = elim (Option-cases (set_at c parts w)) [
      | inl none_there ↦ ground (arith, child-set_child root c c' part found)
      | inr (d, there) ↦
          ground (
            arith,
            child-set_child root c c' part found,
            set_child-set_child root c c' d part found,
          )
    ]

-- Of two writes at one path the second decides.
pub set_value-set_value :
    (root v w root' : Value) (path : String)
    → set_value root path v ≡ some root'
    → set_value root' path w ≡ set_value root path w
unfolding set_value
set_value-set_value root v w root' path h = set_at-set_at (parse_path path) root v w root' h
