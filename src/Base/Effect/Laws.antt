-- ===== src/Base/Effect/Laws.antt =====
-- What a run of two computations in a row says of each.
use webpipe.Base.{Option, none, some, ◌≡◌, refl}
use webpipe.Base.Effect.{Effect, Result, ok, err, resume, ◌>>=◌}

module _ {S E A B : Type 0} where
  resumed-ok :
      (k : A → Effect S E B) (q : Option (S × Result E A)) (s' : S) (b : B)
      → resume k q ≡ some (s', ok b)
      → (a : A) × (t : S) × (q ≡ some (t, ok a)) × (k a t ≡ some (s', ok b))
  resumed-ok k none s' b h = cc
  resumed-ok k (some (t, err e)) s' b h = cc
  resumed-ok k (some (t, ok a)) s' b h = (a, t, refl, h)

  pub >>=-ok :
      (m : Effect S E A) (k : A → Effect S E B) (s s' : S) (b : B)
      → (m >>= k) s ≡ some (s', ok b)
      → (a : A) × (t : S) × (m s ≡ some (t, ok a)) × (k a t ≡ some (s', ok b))
  unfolding ◌>>=◌
  >>=-ok m k s s' b h = resumed-ok k (m s) s' b h
