-- ===== src/Executor/State/Laws.antt =====
-- What a merge and a transform do to each key of the state.
use webpipe.Base.{
  String, Bool, false, none, List, [], ◌∷◌, ◌≡◌, refl, arith, ◌==◌, eq_iff, if◌then◌else◌, or_else,
  any, Option-cases, inl, inr,
}
use webpipe.Json.{
  Value, object, Fields, field, end, get, get_field, has_field, insert_field, extend,
}
use webpipe.Json.Laws.{get_field-insert_field}
use webpipe.Executor.Context.{PipelineContext, transform, merge}
use webpipe.Executor.State.{runtime_keys, backup_keys, restore_fields, update_pipeline_state}

-- No key occurs twice, as in every serde_json map.
abbrev pub HasDistinctKeys : Fields → Type 0
HasDistinctKeys end = Unit
HasDistinctKeys (field k v fs) = (get_field k fs ≡ none) × HasDistinctKeys fs

get_field-extend :
    (j : String) (fs more : Fields)
    → HasDistinctKeys more
    → get_field j (extend fs more) ≡ or_else (get_field j more) (get_field j fs)
unfolding get_field extend
get_field-extend j fs end d = refl
get_field-extend j fs (field k v more) d = ground (
  arith,
  get_field-extend j (insert_field k v fs) more d.1,
  get_field-insert_field k j v fs,
  eq_iff k j,
)

-- A merge of two objects has each key of the incoming one with its value there, and every other key
-- as it was in the current one.
pub get-merge :
    (j : String) (ctx : PipelineContext) (current incoming : Fields) (last : Bool)
    → HasDistinctKeys incoming
    → ctx.state ≡ object current
    → get j (update_pipeline_state ctx (object incoming) merge last).state
      ≡ or_else (get_field j incoming) (get_field j current)
unfolding update_pipeline_state get
get-merge j ctx current incoming last d e = ground (arith, get_field-extend j current incoming d)

abbrev pub is_one_of : List String → String → Bool
is_one_of ks j = any (λ k. k == j) ks

get_field-restore_fields :
    (j : String) (ks : List String) (old : Value) (fs : Fields)
    → get_field j (restore_fields (backup_keys ks old) fs)
      ≡ or_else (get_field j fs) (if is_one_of ks j then get j old else none)
unfolding restore_fields backup_keys has_field
get_field-restore_fields j [] old fs = ground arith
get_field-restore_fields j (k ∷ ks) old fs = elim (Option-cases (get k old)) [
  | inl missing ↦ ground (arith, get_field-restore_fields j ks old fs, eq_iff k j)
  | inr (v, found) ↦ ground (
    arith,
    get_field-restore_fields j ks old fs,
    get_field-restore_fields j ks old (insert_field k v fs),
    get_field-insert_field k j v fs,
    eq_iff k j,
  )
]

-- A transform that is not the last step gives an object each key that the new value has, and of the
-- keys that it lacks the runtime keys only, with the values that they had before.
pub get-transform :
    (j : String) (ctx : PipelineContext) (new : Fields)
    → get j (update_pipeline_state ctx (object new) transform false).state
      ≡ or_else (get_field j new) (if is_one_of runtime_keys j then get j ctx.state else none)
unfolding update_pipeline_state get
get-transform j ctx new = get_field-restore_fields j runtime_keys ctx.state new
