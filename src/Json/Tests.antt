-- ===== src/Json/Tests.antt =====
-- The laws of paths at a concrete document.
use webpipe.Base.{◌≡◌, refl, some}
use webpipe.Json.{Value, null, number, array, object, cons, nil, field, end}
use webpipe.Json.Path.{get_value, set_value, parse_path}
use webpipe.Json.Path.Laws.{set_value-get_value}

abbrev rows : Value → Value
rows v = object (field "rows" (array (cons (number "1") (cons v nil))) end)

second_row : get_value (rows (number "2")) "rows.1" ≡ some (number "2")
unfolding get_value parse_path
second_row = refl

set_value-get_value_example :
    (root' : Value) × (set_value (rows (number "2")) "rows.1" null ≡ some root')
    × (get_value root' "rows.1" ≡ some null)
    × (set_value root' "rows.1" (number "2") ≡ some (rows (number "2")))
set_value-get_value_example =
    set_value-get_value (rows (number "2")) (number "2") null "rows.1" second_row

emptied : set_value (rows (number "2")) "rows.1" null ≡ some (rows null)
unfolding set_value parse_path
emptied = refl
