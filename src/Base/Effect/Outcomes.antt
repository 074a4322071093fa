-- ===== src/Base/Effect/Outcomes.antt =====
-- What a run leaves: a condition for each of its ends, its answer, its error and the lack of fuel.
use mathlib.Core.Path.{◌≡◌, refl}
use mathlib.Core.Option.{Option, none, some}
use mathlib.Core.Bool.{true}
use webpipe.Base.Tests.{is_some}
use webpipe.Base.Effect.{Effect, Result, ok, err, lift, modify, ◌>>=◌, resume}

pub record Post (S E A : Type 0) : Type 1 where
  pub short : Type 0
  pub fails : E → S → Type 0
  pub answers : A → S → Type 0

abbrev pub Outcome : {S E A : Type 0} → Post S E A → Option (S × Result E A) → Type 0
Outcome post none = post.short
Outcome post (some (s, ok a)) = post.answers a s
Outcome post (some (s, err e)) = post.fails e s

-- The same ends for a run that answers something else.
abbrev pub answering : {S E A B : Type 0} → Post S E B → (A → S → Type 0) → Post S E A
answering post P = record { short = post.short; fails = post.fails; answers = P }

module _ {S E A B : Type 0} (post : Post S E B) where
  Outcome-resume :
      (P : A → S → Type 0) (k : A → Effect S E B) (q : Option (S × Result E A))
      → Outcome (answering post P) q
      → ((a : A) (s : S) → P a s → Outcome post (k a s))
      → Outcome post (resume k q)
  Outcome-resume P k none h later = h
  Outcome-resume P k (some (s, ok a)) h later = later a s h
  Outcome-resume P k (some (s, err e)) h later = h

  pub Outcome-bind :
      (P : A → S → Type 0) (m : Effect S E A) (k : A → Effect S E B) (s : S)
      → Outcome (answering post P) (m s)
      → ((a : A) (s' : S) → P a s' → Outcome post (k a s'))
      → Outcome post ((m >>= k) s)
  unfolding ◌>>=◌
  Outcome-bind P m k s h later = Outcome-resume P k (m s) h later

  pub Outcome-lift_bind :
      (r : Result E A) (k : A → Effect S E B) (s : S)
      → ((e : E) → r ≡ err e → post.fails e s)
      → ((a : A) → r ≡ ok a → Outcome post (k a s))
      → Outcome post ((lift r >>= k) s)
  unfolding ◌>>=◌
  Outcome-lift_bind (ok a) k s failed later = later a refl
  Outcome-lift_bind (err e) k s failed later = failed e refl

module _ {S E A : Type 0} (post : Post S E A) where
  pub Outcome-modify_bind :
      (f : S → S) (k : Unit {0} → Effect S E A) (s : S)
      → Outcome post (k tt (f s))
      → Outcome post ((modify f >>= k) s)
  unfolding ◌>>=◌
  Outcome-modify_bind f k s h = h

  pub Outcome-map :
      (weaker : Post S E A) (q : Option (S × Result E A))
      → Outcome post q
      → (post.short → weaker.short)
      → ((e : E) (s : S) → post.fails e s → weaker.fails e s)
      → ((a : A) (s : S) → post.answers a s → weaker.answers a s)
      → Outcome weaker q
  Outcome-map weaker none h f g k = f h
  Outcome-map weaker (some (s, ok a)) h f g k = k a s h
  Outcome-map weaker (some (s, err e)) h f g k = g e s h

  -- A run whose lack of fuel is ruled out ends.
  pub Outcome-is_some :
      (q : Option (S × Result E A)) → ¬ post.short → Outcome post q → is_some q ≡ true
  Outcome-is_some none short h = absurd (short h)
  Outcome-is_some (some (s, r)) short h = refl
