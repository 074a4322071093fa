-- ===== src/Json.antt =====
-- serde_json's `Value` as the program uses it, with the object and array operations that it calls.
-- A number is held as the text that it prints as: the modelled code compares and prints numbers only.
-- An object is a list of fields; no modelled code relies on their order.
pub mod Laws
mod Tests
pub mod Path
use webpipe.Base.{
  ℕ, zero, suc, String, Bool, true, false, Option, none, some, List, [], ◌∷◌, ◌==◌, if◌then◌else◌,
}

mutual
  pub data Value : Type 0 where
    null : Value
    bool : Bool → Value
    number : String → Value
    string : String → Value
    array : Items → Value
    object : Fields → Value

  pub data Items : Type 0 where
    nil : Items
    cons : Value → Items → Items

  pub data Fields : Type 0 where
    end : Fields
    field : String → Value → Fields → Fields

unfoldable pub items : List Value → Items
items [] = nil
items (v ∷ vs) = cons v (items vs)

unfoldable pub elements : Items → List Value
elements nil = []
elements (cons v vs) = v ∷ elements vs

-- `Map::get`, `Map::insert`, `Map::remove`
unfoldable pub get_field : String → Fields → Option Value
get_field k end = none
get_field k (field j v fs) = if j == k then some v else get_field k fs

unfoldable pub insert_field : String → Value → Fields → Fields
insert_field k v end = field k v end
insert_field k v (field j w fs) = if j == k then field k v fs else field j w (insert_field k v fs)

unfoldable pub remove_field : String → Fields → Fields
remove_field k end = end
remove_field k (field j v fs) =
    let rest = remove_field k fs in if j == k then rest else field j v rest

-- `contains_key`
unfoldable pub has_field : String → Fields → Bool
unfolding get_field
has_field k fs = elim (get_field k fs) [ none ↦ false | some _ ↦ true ]

-- `for (k, v) in other { map.insert(k, v) }`
unfoldable pub extend : Fields → Fields → Fields
unfolding insert_field
extend fs end = fs
extend fs (field k v more) = extend (insert_field k v fs) more

-- `Value::get` with a key, `as_object`, `as_array`, `as_str`
unfoldable pub get : String → Value → Option Value
unfolding get_field
get k (object fs) = get_field k fs
get k _ = none

abbrev pub as_object : Value → Option Fields
as_object (object fs) = some fs
as_object _ = none

abbrev pub as_array : Value → Option Items
as_array (array vs) = some vs
as_array _ = none

abbrev pub as_str : Value → Option String
as_str (string s) = some s
as_str _ = none

abbrev pub is_object : Value → Bool
is_object (object _) = true
is_object _ = false

abbrev pub first : Items → Option Value
first nil = none
first (cons v _) = some v

unfoldable pub get_item : Items → ℕ → Option Value
get_item nil i = none
get_item (cons v vs) zero = some v
get_item (cons v vs) (suc i) = get_item vs i

unfoldable pub set_item : Items → ℕ → Value → Items
set_item nil i w = nil
set_item (cons v vs) zero w = cons w vs
set_item (cons v vs) (suc i) w = cons v (set_item vs i w)
