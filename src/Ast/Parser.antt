-- ===== src/Ast/Parser.antt =====
-- ast/parser.rs: the parts that read a text by themselves, without the combinators of `nom`: the
-- arguments of a step and the task names of a `join` step.
mod Balanced
pub mod Args
mod Tests
use Prim.Native.Char.{Char, code}
use Prim.Native.String
use webpipe.Base.{
  ℕ, zero, suc, String, Bool, true, false, not, ◌&&◌, ◌||◌, Option, none, some, List, [], ◌∷◌, ◌==◌,
  nat_eq, if◌then◌else◌, is_empty,
}
use webpipe.Base.Text.{trim, split, starts_with}
use webpipe.Ast.Program.{ℤ, pos, negsuc}
use webpipe.Executor.Tasks.{non_empty_trimmed}

-- `parse_names` is serde_json's reading of an array of texts.
unfoldable pub parse_join_task_names :
    (String → Option (List String)) → String → Option (List String)
unfolding trim split starts_with non_empty_trimmed
parse_join_task_names parse_names config =
    let trimmed = trim config in
    let names = non_empty_trimmed (split b',' trimmed) in
    if starts_with trimmed "["
    then parse_names trimmed
    else if is_empty names
    then none
    else some names

-- What the loop over the characters of some arguments has read.
pub record ArgScan : Type 0 where
  pub current_arg : String
  pub depth : ℤ
  pub in_string : Bool
  pub escape_next : Bool

abbrev pub increment : ℤ → ℤ
increment (pos n) = pos (suc n)
increment (negsuc zero) = pos 0
increment (negsuc (suc n)) = negsuc n

abbrev pub decrement : ℤ → ℤ
decrement (pos zero) = negsuc 0
decrement (pos (suc n)) = pos n
decrement (negsuc n) = negsuc (suc n)

abbrev pub is_zero : ℤ → Bool
is_zero (pos zero) = true
is_zero _ = false

abbrev pub is_open : ℕ → Bool
is_open c = nat_eq c b'(' || nat_eq c b'[' || nat_eq c b'{'

abbrev pub is_close : ℕ → Bool
is_close c = nat_eq c b')' || nat_eq c b']' || nat_eq c b'}'

abbrev pub push_char : Char → ArgScan → ArgScan
push_char c st = record st { current_arg = String.◌++◌ st.current_arg (String.◌∷◌ c String.[]) }

-- One character: what has been read then, and whether it ended an argument.
unfoldable pub scan_char : Char → ArgScan → ArgScan × Bool
scan_char c st =
    if st.escape_next
    then (record (push_char c st) { escape_next = false }, false)
    else if nat_eq (code c) 92 && st.in_string
    then (record (push_char c st) { escape_next = true }, false)
    else if nat_eq (code c) 34
    then (record (push_char c st) { in_string = not st.in_string }, false)
    else if is_open (code c) && not st.in_string
    then (record (push_char c st) { depth = increment st.depth }, false)
    else if is_close (code c) && not st.in_string
    then (record (push_char c st) { depth = decrement st.depth }, false)
    else if nat_eq (code c) b',' && is_zero st.depth && not st.in_string
    then (record st { current_arg = "" }, true)
    else (push_char c st, false)

-- The arguments that the loop pushes from here on, and the last one after it.
unfoldable pub scan_args : ArgScan → String → List String
unfolding scan_char trim
scan_args st String.[] = if trim st.current_arg == "" then [] else trim st.current_arg ∷ []
scan_args st (String.◌∷◌ c s) =
    let (next, ended) = scan_char c st in
    let rest = scan_args next s in if ended then trim st.current_arg ∷ rest else rest

abbrev pub nothing_read : ArgScan
nothing_read = record { current_arg = ""; depth = pos 0; in_string = false; escape_next = false }

unfoldable pub split_balanced_args : String → List String
unfolding scan_args trim
split_balanced_args content = if trim content == "" then [] else scan_args nothing_read content
