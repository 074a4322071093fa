-- ===== src/Base/Effect/Ends.antt =====
-- Rules for computations that end: from every state that meets a condition, with an answer or an
-- error, in a state that meets it again.
use mathlib.Core.Path.{◌≡◌, refl}
use mathlib.Core.Option.{Option, none, some}
use mathlib.Core.Bool.{Bool, true, false}
use webpipe.Base.Tests.{if◌then◌else◌}
use webpipe.Base.Effect.{
  Effect, Result, ok, err, pure, throw, lift, gets, update, modify, ◌>>=◌, rescue, finally, zoom,
  zoomed, attempt, attempted, resume, rescue_from, ended,
}

-- The run has ended, in a state that meets the condition.
abbrev pub Ended : {S E A : Type 0} → (S → Type 0) → Option (S × Result E A) → Type 0
Ended P none = ⊥
Ended P (some (s, r)) = P s

pub Ended-some :
    {S E A : Type 0} (P : S → Type 0) (q : Option (S × Result E A))
    → Ended P q
    → (s : S) × (r : Result E A) × (q ≡ some (s, r))
Ended-some P none h = absurd h
Ended-some P (some (s, r)) h = (s, r, refl)

pub record Ends {S E A : Type 0} (P : S → Type 0) (m : Effect S E A) : Type 0 where
  pub at : (s : S) → P s → Ended P (m s)

module _ {S E A : Type 0} {P : S → Type 0} where
  pub Ends-pure : (a : A) → Ends P (pure {E = E} a)
  unfolding pure
  Ends-pure a = record { at = λ s h. h }

  pub Ends-throw : (e : E) → Ends P (throw {A = A} e)
  unfolding throw
  Ends-throw e = record { at = λ s h. h }

  pub Ends-lift : (q : Result E A) → Ends P (lift q)
  unfolding lift
  Ends-lift q = record { at = λ s h. h }

  pub Ends-gets : (f : S → A) → Ends P (gets {E = E} f)
  unfolding gets
  Ends-gets f = record { at = λ s h. h }

  pub Ends-update : (f : S → S × A) → ((s : S) → P s → P (f s).0) → Ends P (update {E = E} f)
  unfolding update
  Ends-update f k = record { at = k }

  pub Ends-if : (b : Bool) (m n : Effect S E A) → Ends P m → Ends P n → Ends P (if b then m else n)
  Ends-if true m n hm hn = hm
  Ends-if false m n hm hn = hn

  rescued :
      (k : E → Effect S E A)
      → ((e : E) → Ends P (k e))
      → (q : Option (S × Result E A)) → Ended P q
      → Ended P (rescue_from k q)
  rescued k later none h = h
  rescued k later (some (t, ok a)) h = h
  rescued k later (some (t, err e)) h = (later e).at t h

  pub Ends-rescue :
      (m : Effect S E A) (k : E → Effect S E A)
      → Ends P m
      → ((e : E) → Ends P (k e))
      → Ends P (rescue m k)
  unfolding rescue
  Ends-rescue m k first later = record { at = λ s h. rescued k later (m s) (first.at s h) }

  finished :
      (f : S → S)
      → ((s : S) → P s → P (f s))
      → (q : Option (S × Result E A)) → Ended P q
      → Ended P (ended f q)
  finished f keep none h = h
  finished f keep (some (t, r)) h = keep t h

  pub Ends-finally :
      (m : Effect S E A) (f : S → S) → Ends P m → ((s : S) → P s → P (f s)) → Ends P (finally m f)
  unfolding finally
  Ends-finally m f first keep = record { at = λ s h. finished f keep (m s) (first.at s h) }

module _ {S E : Type 0} {P : S → Type 0} where
  pub Ends-modify : (f : S → S) → ((s : S) → P s → P (f s)) → Ends P (modify {E = E} f)
  unfolding modify
  Ends-modify f k = record { at = k }

module _ {S E A B : Type 0} {P : S → Type 0} where
  resumed :
      (k : A → Effect S E B)
      → ((a : A) → Ends P (k a))
      → (q : Option (S × Result E A)) → Ended P q
      → Ended P (resume k q)
  resumed k later none h = h
  resumed k later (some (t, ok a)) h = (later a).at t h
  resumed k later (some (t, err e)) h = h

  pub Ends-bind :
      (m : Effect S E A) (k : A → Effect S E B)
      → Ends P m
      → ((a : A) → Ends P (k a))
      → Ends P (m >>= k)
  unfolding ◌>>=◌
  Ends-bind m k first later = record { at = λ s h. resumed k later (m s) (first.at s h) }

  -- What comes after the reading or the change of a state may rely on the answer.
  pub Ends-gets_bind :
      (f : S → A) (k : A → Effect S E B)
      → ((s : S) → P s → Ends P (k (f s)))
      → Ends P (gets f >>= k)
  unfolding ◌>>=◌
  Ends-gets_bind f k later = record { at = λ s h. (later s h).at s h }

  pub Ends-update_bind :
      (f : S → S × A) (k : A → Effect S E B)
      → ((s : S) → P s → P (f s).0 × Ends P (k (f s).1))
      → Ends P (update f >>= k)
  unfolding ◌>>=◌
  Ends-update_bind f k later = record {
    at = λ s h. let (kept, rest) = later s h in rest.at (f s).0 kept;
  }

module _ {S T E A : Type 0} where
  unzoomed :
      (P : S → Type 0) (Q : T → Type 0) (put : T → S → S) (s : S)
      → ((t : T) → Q t → P (put t s))
      → (q : Option (T × Result E A)) → Ended Q q
      → Ended P (zoomed put s q)
  unzoomed P Q put s out none h = h
  unzoomed P Q put s out (some (t, r)) h = out t h

  pub Ends-zoom :
      {P : S → Type 0} (Q : T → Type 0) (get : S → T) (put : T → S → S) (m : Effect T E A)
      → ((s : S) → P s → Q (get s))
      → ((t : T) (s : S) → P s → Q t → P (put t s))
      → Ends Q m
      → Ends P (zoom get put m)
  unfolding zoom
  Ends-zoom {P} Q get put m into out ends = record {
    at = λ s h. unzoomed P Q put s (λ t k. out t s h k) (m (get s)) (ends.at (get s) (into s h));
  }

module _ {S E A : Type 0} where
  tried :
      (F : Type 0) (P : S → Type 0) (q : Option (S × Result E A))
      → Ended P q
      → Ended P (attempted {F = F} q)
  tried F P none h = h
  tried F P (some (t, r)) h = h

  pub Ends-attempt :
      {F : Type 0} {P : S → Type 0} (m : Effect S E A) → Ends P m → Ends P (attempt {F = F} m)
  unfolding attempt
  Ends-attempt {F} {P} m ends = record { at = λ s h. tried F P (m s) (ends.at s h) }

pub ruleset ends_rules =
    (Ends-pure, Ends-throw, Ends-lift, Ends-gets, Ends-bind, Ends-rescue, Ends-if, Ends-attempt)
