-- ===== src/Middleware/RateLimit/Keys.antt =====
-- How a template makes a key.
use Prim.Native.Char.{Char, code}
use Prim.Native.String
use text.Mathlib.TextLemmas.{cons-append, append-nil, append_assoc, nil-append}
use webpipe.Base.{String, true, false, none, some, ◌≡◌, sym, ap, ◌∙◌, arith, nat_eq}
use webpipe.Base.Text.{all_chars}
use webpipe.Base.Text.Laws.{lacks}
use webpipe.Json.{Value}
use webpipe.Middleware.RateLimit.{interpolate, interpolate_key, shown, resolve_path}

module _ (print : Value → String) (input : Value) where
  plain_step :
      (c : Char) (s : String)
      → nat_eq (code c) b'{' ≡ false
      → interpolate print input none (String.◌∷◌ c s)
        ≡ String.◌∷◌ c (interpolate print input none s)
  unfolding interpolate
  plain_step c s h = rw h

  open_step :
      (s : String)
      → interpolate print input none (String.◌++◌ "{" s) ≡ interpolate print input (some "") s
  unfolding interpolate
  open_step s =
      ap (interpolate print input none) (cons-append "{" "" s ∙ ap (String.◌∷◌ "{") (nil-append s))

  name_step :
      (name : String) (c : Char) (s : String)
      → nat_eq (code c) b'}' ≡ false
      → interpolate print input (some name) (String.◌∷◌ c s)
        ≡ interpolate print input (some (String.◌++◌ name (String.◌∷◌ c String.[]))) s
  unfolding interpolate
  name_step name c s h = rw h

  close_step :
      (name s : String)
      → interpolate print input (some name) (String.◌++◌ "}" s)
        ≡ String.◌++◌ (shown print (resolve_path input name)) (interpolate print input none s)
  unfolding interpolate
  close_step name s =
      ap (interpolate print input (some name))
        (cons-append "}" "" s ∙ ap (String.◌∷◌ "}") (nil-append s))

  -- A text without opening braces passes, whatever comes after it.
  passes :
      (before after : String)
      → all_chars (lacks "{") before ≡ true
      → interpolate print input none (String.◌++◌ before after)
        ≡ String.◌++◌ before (interpolate print input none after)
  unfolding all_chars
  passes String.[] after h =
      ap (interpolate print input none) (nil-append after) ∙ sym (nil-append _)
  passes (String.◌∷◌ c before) after h =
      ap (interpolate print input none) (cons-append c before after)
      ∙ (plain_step c _ (ground arith)
          ∙ (ap (String.◌∷◌ c) (passes before after (ground arith)) ∙ sym (cons-append c before _)))

  -- A text without closing braces is taken up into the name.
  names :
      (name more after : String)
      → all_chars (lacks "}") more ≡ true
      → interpolate print input (some name) (String.◌++◌ more (String.◌++◌ "}" after))
        ≡ String.◌++◌
            (shown print (resolve_path input (String.◌++◌ name more)))
            (interpolate print input none after)
  unfolding all_chars
  names name String.[] after h =
      ap (interpolate print input (some name)) (nil-append _)
      ∙ (close_step name after
          ∙ ap
              (λ n.
                String.◌++◌ (shown print (resolve_path input n))
                  (interpolate print input none after))
              (sym (append-nil name)))
  names name (String.◌∷◌ c more) after h =
      ap (interpolate print input (some name)) (cons-append c more _)
      ∙ (name_step name c _ (ground arith)
          ∙ (names (String.◌++◌ name (String.◌∷◌ c String.[])) more after (ground arith)
              ∙ ap
                  (λ n.
                    String.◌++◌ (shown print (resolve_path input n))
                      (interpolate print input none after))
                  (append_assoc name _ more
                    ∙ ap (String.◌++◌ name)
                        (cons-append c "" more ∙ ap (String.◌∷◌ c) (nil-append more)))))

  -- The first placeholder of a template is replaced by the text of the value that its name leads to,
  -- what stands before it is kept, and what follows it is treated in the same way; the replacement is
  -- not searched for placeholders.
  pub interpolate_key-placeholder :
      (before name after : String)
      → all_chars (lacks "{") before ≡ true
      → all_chars (lacks "}") name ≡ true
      → interpolate_key print
          (String.◌++◌ before (String.◌++◌ "{" (String.◌++◌ name (String.◌++◌ "}" after))))
          input
        ≡ String.◌++◌ before (
            String.◌++◌ (shown print (resolve_path input name)) (interpolate_key print after input))
  unfolding interpolate_key
  interpolate_key-placeholder before name after plain closed =
      passes before _ plain
      ∙ ap (String.◌++◌ before) (
          open_step (String.◌++◌ name (String.◌++◌ "}" after))
          ∙ (names "" name after closed
              ∙ ap
                  (λ n.
                    String.◌++◌ (shown print (resolve_path input n))
                      (interpolate print input none after))
                  (nil-append name)))

  -- A template without an opening brace is its own key.
  pub interpolate_key-plain :
      (template : String)
      → all_chars (lacks "{") template ≡ true
      → interpolate_key print template input ≡ template
  unfolding interpolate_key interpolate
  interpolate_key-plain template plain =
      ap (interpolate print input none) (sym (append-nil template))
      ∙ (passes template "" plain ∙ append-nil template)
