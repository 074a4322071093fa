-- ===== src/Base/Effect/Keeps.antt =====
-- Rules for computations that keep a view of the state, however they end.
use mathlib.Core.Path.{◌≡◌, refl, ◌∙◌}
use mathlib.Core.Option.{Option, none, some}
use mathlib.Core.Bool.{Bool, true, false}
use native.Mathlib.Omega.{arith}
use webpipe.Base.Effect.{Effect, Result, ok, err, pure, throw, lift, gets, update, diverge}
use webpipe.Base.Effect.{
  ◌>>=◌, rescue, finally, zoom, zoomed, attempt, attempted, modify, resume, rescue_from, ended,
}
use webpipe.Base.Tests.{if◌then◌else◌}

-- However `m` ends, `view` of the state is what it was before.
pub record Keeps {S E A V : Type 0} (view : S → V) (m : Effect S E A) : Type 0 where
  pub at : (s s' : S) (r : Result E A) → m s ≡ some (s', r) → view s' ≡ view s

module _ {S E A V : Type 0} {view : S → V} where
  pub Keeps-pure : (a : A) → Keeps view (pure {E = E} a)
  unfolding pure
  Keeps-pure a = record { at = λ s s' r h. ground arith }

  pub Keeps-throw : (e : E) → Keeps view (throw {A = A} e)
  unfolding throw
  Keeps-throw e = record { at = λ s s' r h. ground arith }

  pub Keeps-lift : (q : Result E A) → Keeps view (lift q)
  unfolding lift
  Keeps-lift q = record { at = λ s s' r h. ground arith }

  pub Keeps-gets : (f : S → A) → Keeps view (gets {E = E} f)
  unfolding gets
  Keeps-gets f = record { at = λ s s' r h. ground arith }

  pub Keeps-diverge : Keeps view (diverge {E = E} {A = A})
  unfolding diverge
  Keeps-diverge = record { at = λ s s' r h. ground arith }

  pub Keeps-update :
      (f : S → S × A) → ((s : S) → view (f s).0 ≡ view s) → Keeps view (update {E = E} f)
  unfolding update
  Keeps-update f k = record { at = λ s s' r h. ground (arith, k s) }

module _ {S E A B V : Type 0} {view : S → V} where
  resume-Keeps :
      (k : A → Effect S E B)
      → ((a : A) → Keeps view (k a))
      → (s s' : S) (q : Option (S × Result E A)) (r : Result E B)
      → ((s₁ : S) (r₁ : Result E A) → q ≡ some (s₁, r₁) → view s₁ ≡ view s)
      → resume k q ≡ some (s', r)
      → view s' ≡ view s
  resume-Keeps k keep s s' none r first h = cc
  resume-Keeps k keep s s' (some (s₁, ok a)) r first h =
      (keep a).at s₁ s' r h ∙ first s₁ (ok a) refl
  resume-Keeps k keep s s' (some (s₁, err e)) r first h = cc (first s₁ (err e) refl)

  pub Keeps-bind :
      (m : Effect S E A) (k : A → Effect S E B)
      → Keeps view m
      → ((a : A) → Keeps view (k a))
      → Keeps view (m >>= k)
  unfolding ◌>>=◌
  Keeps-bind m k first later = record {
    at = λ s s' r h. resume-Keeps k later s s' (m s) r (λ s₁ r₁ e. first.at s s₁ r₁ e) h;
  }

module _ {S E A V : Type 0} {view : S → V} where
  rescue_from-Keeps :
      (k : E → Effect S E A)
      → ((e : E) → Keeps view (k e))
      → (s s' : S) (q : Option (S × Result E A)) (r : Result E A)
      → ((s₁ : S) (r₁ : Result E A) → q ≡ some (s₁, r₁) → view s₁ ≡ view s)
      → rescue_from k q ≡ some (s', r)
      → view s' ≡ view s
  rescue_from-Keeps k keep s s' none r first h = cc
  rescue_from-Keeps k keep s s' (some (s₁, ok a)) r first h = cc (first s₁ (ok a) refl)
  rescue_from-Keeps k keep s s' (some (s₁, err e)) r first h =
      (keep e).at s₁ s' r h ∙ first s₁ (err e) refl

  pub Keeps-rescue :
      (m : Effect S E A) (k : E → Effect S E A)
      → Keeps view m
      → ((e : E) → Keeps view (k e))
      → Keeps view (rescue m k)
  unfolding rescue
  Keeps-rescue m k first later = record {
    at = λ s s' r h. rescue_from-Keeps k later s s' (m s) r (λ s₁ r₁ e. first.at s s₁ r₁ e) h;
  }

  pub Keeps-if :
      (b : Bool) (m n : Effect S E A)
      → Keeps view m
      → Keeps view n
      → Keeps view (if b then m else n)
  Keeps-if true m n km kn = km
  Keeps-if false m n km kn = kn

module _ {S E V : Type 0} {view : S → V} where
  pub Keeps-modify : (f : S → S) → ((s : S) → view (f s) ≡ view s) → Keeps view (modify {E = E} f)
  unfolding modify
  Keeps-modify f k = record { at = λ s s' r h. ground (arith, k s) }

module _ {S T E A V : Type 0} where
  zoomed-Keeps :
      (view : S → V) (put : T → S → S) (s s' : S) (q : Option (T × Result E A)) (r : Result E A)
      → ((t : T) (r₁ : Result E A) → q ≡ some (t, r₁) → view (put t s) ≡ view s)
      → zoomed put s q ≡ some (s', r)
      → view s' ≡ view s
  zoomed-Keeps view put s s' none r kept h = cc
  zoomed-Keeps view put s s' (some (t, r₁)) r kept h = cc (kept t r₁ refl)

  -- The part that `m` runs on shows the view.
  pub Keeps-zoom :
      {view : S → V} (inner : T → V) (get : S → T) (put : T → S → S) (m : Effect T E A)
      → ((s : S) → inner (get s) ≡ view s)
      → ((t : T) (s : S) → view (put t s) ≡ inner t)
      → Keeps inner m
      → Keeps view (zoom get put m)
  unfolding zoom
  Keeps-zoom {view} inner get put m into out keep = record {
    at = λ s s' r h.
        zoomed-Keeps view put s s' (m (get s)) r
          (λ t r₁ e. out t s ∙ (keep.at (get s) t r₁ e ∙ into s)) h;
  }

  -- The part that `m` runs on does not reach the view.
  pub Keeps-zoom_frame :
      {view : S → V} (get : S → T) (put : T → S → S) (m : Effect T E A)
      → ((t : T) (s : S) → view (put t s) ≡ view s)
      → Keeps view (zoom get put m)
  unfolding zoom
  Keeps-zoom_frame {view} get put m frame = record {
    at = λ s s' r h. zoomed-Keeps view put s s' (m (get s)) r (λ t r₁ e. frame t s) h;
  }

module _ {S E A V : Type 0} {view : S → V} where
  -- A change that a later one undoes for the view, whatever lies between them.
  pub Keeps-bracket :
      (f g : S → S) (m : Effect S E A)
      → ((s t : S) → view t ≡ view (f s) → view (g t) ≡ view s)
      → Keeps view m
      → (s s' : S) (r : Result E A) → finally m g (f s) ≡ some (s', r)
      → view s' ≡ view s
  unfolding finally
  Keeps-bracket f g m undone keep s s' r h = bracket (m (f s)) refl h
    where
      bracket :
          (q : Option (S × Result E A)) → m (f s) ≡ q → ended g q ≡ some (s', r) → view s' ≡ view s
      bracket none e k = cc
      bracket (some (t, r₁)) e k = let kept = undone s t (keep.at (f s) t r₁ e) in cc

module _ {S E F A V : Type 0} {view : S → V} where
  attempted-Keeps :
      (s s' : S) (q : Option (S × Result E A)) (r : Result F (Result E A))
      → ((s₁ : S) (r₁ : Result E A) → q ≡ some (s₁, r₁) → view s₁ ≡ view s)
      → attempted q ≡ some (s', r)
      → view s' ≡ view s
  attempted-Keeps s s' none r kept h = cc
  attempted-Keeps s s' (some (s₁, r₁)) r kept h = cc (kept s₁ r₁ refl)

  pub Keeps-attempt : (m : Effect S E A) → Keeps view m → Keeps view (attempt {F = F} m)
  unfolding attempt
  Keeps-attempt m keep = record {
    at = λ s s' r h. attempted-Keeps s s' (m s) r (λ s₁ r₁ e. keep.at s s₁ r₁ e) h;
  }

pub ruleset keeps_rules = (
  Keeps-pure, Keeps-throw, Keeps-lift, Keeps-gets, Keeps-diverge, Keeps-bind, Keeps-rescue,
  Keeps-if, Keeps-attempt,
)
