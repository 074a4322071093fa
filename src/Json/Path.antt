-- ===== src/Json/Path.antt =====
-- runtime/json_path.rs: dotted paths into a JSON value. A `&mut` into the value is a pair: what
-- `get_value` finds at the path, and `set_value`, the value with that place overwritten.
pub mod Laws
use webpipe.Base.{String, Option, none, some, List, [], ◌∷◌, ◌==◌, if◌then◌else◌, and_then}
use webpipe.Base.Text.{trim_start_matches, split, parse_u64}
use webpipe.Json.{Value, array, object, get_field, insert_field, get_item, set_item}

non_empty : List String → List String
non_empty [] = []
non_empty (s ∷ r) = let rest = non_empty r in if s == "" then rest else s ∷ rest

unfoldable pub parse_path : String → List String
unfolding non_empty trim_start_matches split
parse_path path = non_empty (split b'.' (trim_start_matches b'.' path))

-- One round of the loop of `get_value`.
unfoldable pub child : Value → String → Option Value
unfolding get_field get_item parse_u64
child (object fs) part = get_field part fs
child (array vs) part = and_then (parse_u64 part) (get_item vs)
child _ part = none

unfoldable pub get_at : Value → List String → Option Value
unfolding child
get_at root [] = some root
get_at root (part ∷ parts) = and_then (child root part) (λ v. get_at v parts)

unfoldable pub get_value : Value → String → Option Value
unfolding get_at parse_path
get_value root path = get_at root (parse_path path)

-- The parent with one child overwritten; a child that is not there changes nothing.
unfoldable pub set_child : Value → String → Value → Value
unfolding insert_field set_item parse_u64
set_child (object fs) part v = object (insert_field part v fs)
set_child (array vs) part v = elim (parse_u64 part) [
  | none ↦ array vs
  | some i ↦ array (set_item vs i v)
]
set_child other part v = other

-- `*get_value_mut(root, path)? = v`, where every part of the path is there.
unfoldable pub set_at : Value → List String → Value → Option Value
unfolding child set_child
set_at root [] v = some v
set_at root (part ∷ parts) v =
    and_then (child root part) λ c. and_then (set_at c parts v) λ c'. some (set_child root part c')

unfoldable pub set_value : Value → String → Value → Option Value
unfolding set_at parse_path
set_value root path v = set_at root (parse_path path) v
