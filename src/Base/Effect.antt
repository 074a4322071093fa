-- ===== src/Base/Effect.antt =====
-- Stateful code that may fail and may run without end: a computation takes the state, and answers
-- the state it leaves beside its result, an error included. `none` means that the fuel ran out.
pub mod Keeps
pub mod Laws
pub mod Ends
pub mod Outcomes
use mathlib.Core.Option.{Option, none, some}

pub data Result {ℓ} (E A : Type ℓ) : Type ℓ where
  ok : A → Result E A
  err : E → Result E A

abbrev pub Effect : Type 0 → Type 0 → Type 0 → Type 0
Effect S E A = S → Option (S × Result E A)

module _ {S E A : Type 0} where
  unfoldable pub pure : A → Effect S E A
  pure a s = some (s, ok a)

  unfoldable pub throw : E → Effect S E A
  throw e s = some (s, err e)

  -- What a computed `Result` does under `?`.
  unfoldable pub lift : Result E A → Effect S E A
  lift r s = some (s, r)

  unfoldable pub gets : (S → A) → Effect S E A
  gets f s = some (s, ok (f s))

  unfoldable pub update : (S → S × A) → Effect S E A
  update f s = let (s', a) = f s in some (s', ok a)

  unfoldable pub diverge : Effect S E A
  diverge s = none

module _ {S E : Type 0} where
  unfoldable pub modify : (S → S) → Effect S E (Unit {0})
  modify f s = some (f s, ok tt)

module _ {S E A B : Type 0} where
  abbrev pub resume : (A → Effect S E B) → Option (S × Result E A) → Option (S × Result E B)
  resume k none = none
  resume k (some (s, ok a)) = k a s
  resume k (some (s, err e)) = some (s, err e)

  infixl 5 ◌>>=◌ ◌>>◌
  -- Opening this opens the primitive computations too.
  unfoldable pub ◌>>=◌ : Effect S E A → (A → Effect S E B) → Effect S E B
  unfolding pure throw lift gets update modify diverge
  ◌>>=◌ m k s = resume k (m s)

  abbrev pub ◌>>◌ : Effect S E A → Effect S E B → Effect S E B
  m >> k = m >>= λ _. k

module _ {S E A : Type 0} where
  abbrev pub rescue_from : (E → Effect S E A) → Option (S × Result E A) → Option (S × Result E A)
  rescue_from h none = none
  rescue_from h (some (s, ok a)) = some (s, ok a)
  rescue_from h (some (s, err e)) = h e s

  -- `match m { Ok(a) => Ok(a), Err(e) => h(e) }`, in the state that `m` left.
  unfoldable pub rescue : Effect S E A → (E → Effect S E A) → Effect S E A
  rescue m h s = rescue_from h (m s)

  abbrev pub ended : (S → S) → Option (S × Result E A) → Option (S × Result E A)
  ended f none = none
  ended f (some (s, r)) = some (f s, r)

  -- `let r = m; f(); r`: `f` runs whatever `m` answers.
  unfoldable pub finally : Effect S E A → (S → S) → Effect S E A
  finally m f s = ended f (m s)

module _ {S T E A : Type 0} where
  abbrev pub zoomed : (T → S → S) → S → Option (T × Result E A) → Option (S × Result E A)
  zoomed put s none = none
  zoomed put s (some (t, r)) = some (put t s, r)

  -- Runs `m` on a part of the state, or on a state of its own that is made from it.
  unfoldable pub zoom : (S → T) → (T → S → S) → Effect T E A → Effect S E A
  zoom get put m s = zoomed put s (m (get s))

module _ {S E F A : Type 0} where
  abbrev pub attempted : Option (S × Result E A) → Option (S × Result F (Result E A))
  attempted none = none
  attempted (some (s, r)) = some (s, ok r)

  -- The result as a value: no error leaves this computation.
  unfoldable pub attempt : Effect S E A → Effect S F (Result E A)
  attempt m s = attempted (m s)
