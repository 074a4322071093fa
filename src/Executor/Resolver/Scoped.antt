-- ===== src/Executor/Resolver/Scoped.antt =====
-- Scoped references `namespace::name`.
use Prim.Native.Nat.{ℕ}
use Prim.Native.String
use webpipe.Base.{
  String, true, false, not, ◌&&◌, Option, none, some, ◌≡◌, refl, ◌⊎◌, arith, Bool-cases, inl, inr,
}
use webpipe.Base.Text.{trim, split_once, contains, all_chars, is_whitespace}
use webpipe.Base.Text.Laws.{
  all_chars-append, all_chars_mono, trim_solid, is_solid, lacks, split_once-append,
  split_once_sound, split_once-lacks,
}
use webpipe.Executor.Resolver.{parse_scoped_ref, is_valid_identifier_part, is_part_char, scoped}

-- The text `namespace::name`.
abbrev pub reference : String → String → String
reference namespace name = String.◌++◌ namespace (String.◌++◌ "::" name)

part_char-is_solid : (c : ℕ) → is_part_char c ≡ true → is_solid c ≡ true
unfolding is_whitespace
part_char-is_solid c h = ground arith

part_char-lacks : (c : ℕ) → is_part_char c ≡ true → lacks ":" c ≡ true
part_char-lacks c h = ground arith

part-all_chars : (s : String) → is_valid_identifier_part s ≡ true → all_chars is_part_char s ≡ true
unfolding is_valid_identifier_part all_chars
part-all_chars String.[] h = cc
part-all_chars (String.◌∷◌ c s) h = ground arith

part-solid : (s : String) → is_valid_identifier_part s ≡ true → all_chars is_solid s ≡ true
part-solid s h = all_chars_mono is_part_char is_solid s part_char-is_solid (part-all_chars s h)

part-lacks : (s : String) → is_valid_identifier_part s ≡ true → all_chars (lacks ":") s ≡ true
part-lacks s h = all_chars_mono is_part_char (lacks ":") s part_char-lacks (part-all_chars s h)

solid_colons : all_chars is_solid "::" ≡ true
unfolding all_chars is_whitespace
solid_colons = refl

contains_part : (s : String) → is_valid_identifier_part s ≡ true → contains s "::" ≡ false
unfolding contains
contains_part s h = ground (arith, split_once-lacks ":" ":" s (part-lacks s h))

-- A namespace and a name that are identifiers are read back from their reference.
pub parse_scoped_ref-reference :
    (namespace name : String)
    → is_valid_identifier_part namespace ≡ true
    → is_valid_identifier_part name ≡ true
    → parse_scoped_ref (reference namespace name) ≡ (some namespace, name)
unfolding parse_scoped_ref
parse_scoped_ref-reference namespace name hn hm =
    rw
      (
        trim_solid _ (
            all_chars-append is_solid namespace _ (part-solid namespace hn)
              (all_chars-append is_solid "::" name solid_colons (part-solid name hm))),
        split_once-append ":" ":" namespace name (part-lacks namespace hn),
      )
      (ground (arith, contains_part name hm))

abbrev IsReading : String → String → Option String → Type 0
IsReading config name namespace =
    ((namespace ≡ none) × (name ≡ config))
    ⊎ ((ns : String) × (namespace ≡ some ns)
        × (trim config ≡ reference ns name)
        × (is_valid_identifier_part ns ≡ true)
        × (is_valid_identifier_part name ≡ true))

scoped-IsReading :
    (config name : String) (namespace : Option String) (q : Option (String × String))
    → split_once "::" (trim config) ≡ q
    → scoped config q ≡ (namespace, name)
    → IsReading config name namespace
scoped-IsReading config name namespace none e h = inl (cc, cc)
scoped-IsReading config name namespace (some (a, b)) e h =
    elim (Bool-cases
      (not (contains b "::") && is_valid_identifier_part a && is_valid_identifier_part b)) [
        | inr bad ↦ inl (ground arith, ground arith)
        | inl good ↦ inr (
          a,
          ground arith,
          ground (arith, split_once_sound "::" (trim config) a b e),
          ground arith,
          ground arith,
        )
      ]

-- What is read as a scoped reference is, up to white space around it, a reference between two
-- identifiers; any other text is its own name, white space included.
pub parse_scoped_ref_sound :
    (config name : String) (namespace : Option String)
    → parse_scoped_ref config ≡ (namespace, name)
    → ((namespace ≡ none) × (name ≡ config))
      ⊎ ((ns : String) × (namespace ≡ some ns)
          × (trim config ≡ reference ns name)
          × (is_valid_identifier_part ns ≡ true)
          × (is_valid_identifier_part name ≡ true))
unfolding parse_scoped_ref
parse_scoped_ref_sound config name namespace h = scoped-IsReading config name namespace _ refl h
