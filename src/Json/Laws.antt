-- ===== src/Json/Laws.antt =====
-- Laws of the object and array operations.
use mathlib.Core.Path.{refl}
use webpipe.Base.{
  ℕ, zero, suc, String, ◌≡◌, ap, none, some, List, [], ◌∷◌, arith, ◌==◌, eq_iff, eq_refl,
  if◌then◌else◌,
}
use webpipe.Json.{
  Value, Items, nil, cons, Fields, end, field, items, elements, get_field, insert_field,
  remove_field, get_item, set_item,
}

pub elements-items : (vs : List Value) → elements (items vs) ≡ vs
unfolding elements items
elements-items [] = refl
elements-items (v ∷ vs) = ap (λ l. v ∷ l) (elements-items vs)

pub get_field-insert_field :
    (k j : String) (v : Value) (fs : Fields)
    → get_field j (insert_field k v fs) ≡ (if k == j then some v else get_field j fs)
unfolding get_field insert_field
get_field-insert_field k j v end = refl
get_field-insert_field k j v (field i w fs) =
    ground (arith, eq_iff k j, eq_iff i k, eq_iff i j, get_field-insert_field k j v fs)

pub get_field-remove_field :
    (k j : String) (fs : Fields)
    → get_field j (remove_field k fs) ≡ (if k == j then none else get_field j fs)
unfolding get_field remove_field
get_field-remove_field k j end = ground arith
get_field-remove_field k j (field i v fs) =
    ground (arith, get_field-remove_field k j fs, eq_iff i k, eq_iff i j, eq_iff k j)

pub get_item-set_item :
    (vs : Items) (i : ℕ) (v w : Value)
    → get_item vs i ≡ some v
    → get_item (set_item vs i w) i ≡ some w
unfolding get_item set_item
get_item-set_item nil i v w h = cc
get_item-set_item (cons u vs) zero v w h = refl
get_item-set_item (cons u vs) (suc i) v w h = get_item-set_item vs i v w h

pub set_item-set_item :
    (vs : Items) (i : ℕ) (v w : Value) → set_item (set_item vs i v) i w ≡ set_item vs i w
unfolding set_item
set_item-set_item nil i v w = refl
set_item-set_item (cons u vs) zero v w = refl
set_item-set_item (cons u vs) (suc i) v w = ap (cons u) (set_item-set_item vs i v w)

pub set_item-get_item :
    (vs : Items) (i : ℕ) (v : Value) → get_item vs i ≡ some v → set_item vs i v ≡ vs
unfolding get_item set_item
set_item-get_item nil i v h = refl
set_item-get_item (cons u vs) zero v h = ground arith
set_item-get_item (cons u vs) (suc i) v h = ap (cons u) (set_item-get_item vs i v h)

pub insert_field-insert_field :
    (k : String) (v w : Value) (fs : Fields)
    → insert_field k w (insert_field k v fs) ≡ insert_field k w fs
unfolding insert_field
insert_field-insert_field k v w end = ground (arith, eq_refl k)
insert_field-insert_field k v w (field j u fs) =
    ground (arith, eq_refl k, insert_field-insert_field k v w fs)

pub insert_field-get_field :
    (k : String) (v : Value) (fs : Fields) → get_field k fs ≡ some v → insert_field k v fs ≡ fs
unfolding get_field insert_field
insert_field-get_field k v end h = cc
insert_field-get_field k v (field j u fs) h =
    ground (arith, eq_iff j k, insert_field-get_field k v fs)

pub ruleset json_laws = (get_field-insert_field, get_field-remove_field, eq_refl)
