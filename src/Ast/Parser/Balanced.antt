-- ===== src/Ast/Parser/Balanced.antt =====
-- ast/parser.rs: texts with balanced brackets and closed quotes, as the scan of arguments reads them.
use Prim.Native.Char.{Char, code}
use Prim.Native.String
use text.Mathlib.TextLemmas.{nil-append, cons-append, append-nil, append_assoc}
use webpipe.Base.{
  ℕ, suc, String, Bool, true, false, not, ◌&&◌, ◌||◌, ◌≡◌, refl, ap, ◌∙◌, nat_eq, arith,
}
use webpipe.Ast.Program.{pos}
use webpipe.Ast.Parser.{ArgScan, scan_char, scan_args, is_open, is_close}

abbrev pub is_plain : Bool → ℕ → Bool
is_plain commas c =
    not (nat_eq c 34) && not (is_open c) && not (is_close c) && (commas || not (nat_eq c b','))

-- From behind a quote to the next one, which closes it: a backslash with the character after it, or
-- any other character.
pub data Quoted : String → Type 0 where
  end : (q : Char) → nat_eq (code q) 34 ≡ true → Quoted (String.◌∷◌ q String.[])
  escaped :
      (b c : Char) (s : String)
      → nat_eq (code b) 92 ≡ true
      → Quoted s
      → Quoted (String.◌∷◌ b (String.◌∷◌ c s))
  within :
      (c : Char) (s : String)
      → nat_eq (code c) 92 ≡ false
      → nat_eq (code c) 34 ≡ false
      → Quoted s
      → Quoted (String.◌∷◌ c s)

-- A text whose brackets and quotes are closed, with commas within brackets and quotes only, unless
-- they may stand everywhere.
pub data Balanced : Bool → String → Type 0 where
  empty : {commas : Bool} → Balanced commas String.[]
  plain :
      {commas : Bool} (c : Char) (s : String)
      → is_plain commas (code c) ≡ true
      → Balanced commas s
      → Balanced commas (String.◌∷◌ c s)
  quoted :
      {commas : Bool} (q : Char) (s t : String)
      → nat_eq (code q) 34 ≡ true
      → Quoted s
      → Balanced commas t
      → Balanced commas (String.◌∷◌ q (String.◌++◌ s t))
  brackets :
      {commas : Bool} (o c : Char) (s t : String)
      → is_open (code o) ≡ true
      → Balanced true s
      → is_close (code c) ≡ true
      → Balanced commas t
      → Balanced commas (String.◌∷◌ o (String.◌++◌ s (String.◌∷◌ c t)))

abbrev pub at_depth : String → ℕ → Bool → ArgScan
at_depth read n in_string = record {
  current_arg = read;
  depth = pos n;
  in_string = in_string;
  escape_next = false;
}

abbrev with_char : String → Char → String
with_char read c = String.◌++◌ read (String.◌∷◌ c String.[])

scan_args-step :
    (c : Char) (s : String) (st next : ArgScan)
    → scan_char c st ≡ (next, false)
    → scan_args st (String.◌∷◌ c s) ≡ scan_args next s
unfolding scan_args
scan_args-step c s st next h = rw h refl

with_char-append :
    (read : String) (c : Char) (s : String)
    → String.◌++◌ (with_char read c) s ≡ String.◌++◌ read (String.◌∷◌ c s)
with_char-append read c s =
    append_assoc read (String.◌∷◌ c String.[]) s
    ∙ ap (λ r. String.◌++◌ read r) (cons-append c String.[] s ∙ ap (String.◌∷◌ c) (nil-append s))

module _ (read : String) (n : ℕ) (c : Char) where
  scan_plain :
      (commas : Bool)
      → is_plain commas (code c) ≡ true
      → (commas && nat_eq n 0) ≡ false
      → scan_char c (at_depth read n false) ≡ (at_depth (with_char read c) n false, false)
  unfolding scan_char
  scan_plain commas h k = ground (arith, h, k)

  scan_quote :
      (b : Bool)
      → nat_eq (code c) 34 ≡ true
      → scan_char c (at_depth read n b) ≡ (at_depth (with_char read c) n (not b), false)
  unfolding scan_char
  scan_quote b h = ground (arith, h)

  scan_open :
      is_open (code c) ≡ true
      → scan_char c (at_depth read n false) ≡ (at_depth (with_char read c) (suc n) false, false)
  unfolding scan_char
  scan_open h = ground (arith, h)

  scan_close :
      is_close (code c) ≡ true
      → scan_char c (at_depth read (suc n) false) ≡ (at_depth (with_char read c) n false, false)
  unfolding scan_char
  scan_close h = ground (arith, h)

  scan_within :
      nat_eq (code c) 92 ≡ false
      → nat_eq (code c) 34 ≡ false
      → scan_char c (at_depth read n true) ≡ (at_depth (with_char read c) n true, false)
  unfolding scan_char
  scan_within h k = ground (arith, h, k)

  scan_backslash :
      nat_eq (code c) 92 ≡ true
      → scan_char c (at_depth read n true)
        ≡ (record (at_depth (with_char read c) n true) { escape_next = true }, false)
  unfolding scan_char
  scan_backslash h = ground (arith, h)

  scan_escaped :
      scan_char c (record (at_depth read n true) { escape_next = true })
      ≡ (at_depth (with_char read c) n true, false)
  unfolding scan_char
  scan_escaped = refl

scan_args-Quoted :
    {s : String}
    → Quoted s
    → (read : String) (n : ℕ) (t : String)
    → scan_args (at_depth read n true) (String.◌++◌ s t)
      ≡ scan_args (at_depth (String.◌++◌ read s) n false) t
scan_args-Quoted (end q h) read n t =
    ap (scan_args (at_depth read n true))
      (cons-append q String.[] t ∙ ap (String.◌∷◌ q) (nil-append t))
    ∙ scan_args-step q t (at_depth read n true) _ (scan_quote read n q true h)
scan_args-Quoted (within c s h k q) read n t =
    ap (scan_args (at_depth read n true)) (cons-append c s t)
    ∙ (scan_args-step c (String.◌++◌ s t) (at_depth read n true) _ (scan_within read n c h k)
        ∙ (scan_args-Quoted q (with_char read c) n t
            ∙ ap (λ r. scan_args (at_depth r n false) t) (with_char-append read c s)))
scan_args-Quoted (escaped b c s h q) read n t =
    ap (scan_args (at_depth read n true))
      (cons-append b (String.◌∷◌ c s) t ∙ ap (String.◌∷◌ b) (cons-append c s t))
    ∙ (scan_args-step b (String.◌∷◌ c (String.◌++◌ s t)) (at_depth read n true) _
          (scan_backslash read n b h)
        ∙ (scan_args-step c (String.◌++◌ s t) _ _ (scan_escaped (with_char read b) n c)
            ∙ (scan_args-Quoted q (with_char (with_char read b) c) n t
                ∙ ap (λ r. scan_args (at_depth r n false) t)
                    (with_char-append (with_char read b) c s
                      ∙ with_char-append read b (String.◌∷◌ c s)))))

pub scan_args-Balanced :
    {commas : Bool} {s : String}
    → Balanced commas s
    → (read : String) (n : ℕ) (t : String) → (commas && nat_eq n 0) ≡ false
    → scan_args (at_depth read n false) (String.◌++◌ s t)
      ≡ scan_args (at_depth (String.◌++◌ read s) n false) t
scan_args-Balanced empty read n t k = rw (nil-append t, append-nil read) refl
scan_args-Balanced (plain {commas} c s h b) read n t k =
    ap (scan_args (at_depth read n false)) (cons-append c s t)
    ∙ (scan_args-step c (String.◌++◌ s t) (at_depth read n false) _ (scan_plain read n c commas h k)
        ∙ (scan_args-Balanced b (with_char read c) n t k
            ∙ ap (λ r. scan_args (at_depth r n false) t) (with_char-append read c s)))
scan_args-Balanced (quoted q s r h qs b) read n t k =
    ap (scan_args (at_depth read n false))
      (cons-append q (String.◌++◌ s r) t ∙ ap (String.◌∷◌ q) (append_assoc s r t))
    ∙ (scan_args-step q (String.◌++◌ s (String.◌++◌ r t)) (at_depth read n false) _
          (scan_quote read n q false h)
        ∙ (scan_args-Quoted qs (with_char read q) n (String.◌++◌ r t)
            ∙ (scan_args-Balanced b (String.◌++◌ (with_char read q) s) n t k
                ∙ ap (λ x. scan_args (at_depth x n false) t)
                    (append_assoc (with_char read q) s r
                      ∙ with_char-append read q (String.◌++◌ s r)))))
scan_args-Balanced (brackets o c s r ho bs hc b) read n t k =
    ap (scan_args (at_depth read n false)) (
      cons-append o (String.◌++◌ s (String.◌∷◌ c r)) t
      ∙ ap (String.◌∷◌ o)
          (append_assoc s (String.◌∷◌ c r) t ∙ ap (λ x. String.◌++◌ s x) (cons-append c r t)))
    ∙ (scan_args-step o (String.◌++◌ s (String.◌∷◌ c (String.◌++◌ r t))) (at_depth read n false) _
          (scan_open read n o ho)
        ∙ (scan_args-Balanced bs (with_char read o) (suc n) (String.◌∷◌ c (String.◌++◌ r t))
              (ground arith)
            ∙ (scan_args-step c (String.◌++◌ r t)
                  (at_depth (String.◌++◌ (with_char read o) s) (suc n) false) _
                  (scan_close (String.◌++◌ (with_char read o) s) n c hc)
                ∙ (scan_args-Balanced b (with_char (String.◌++◌ (with_char read o) s) c) n t k
                    ∙ ap (λ x. scan_args (at_depth x n false) t)
                        (with_char-append (String.◌++◌ (with_char read o) s) c r
                          ∙ (append_assoc (with_char read o) s (String.◌∷◌ c r)
                              ∙ with_char-append read o (String.◌++◌ s (String.◌∷◌ c r))))))))
