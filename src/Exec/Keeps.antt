-- ===== src/Exec/Keeps.antt =====
-- Relations between the state before and the state after an action, also one that fails: one rule
-- for each way to build an action.
use fileloft.Base.{◌≡◌, refl, Bool, true, false, if◌then◌else◌}
use fileloft.Error.{Result, ok, err}
use fileloft.Exec.{Exec, pure, lift, continue, ◌>>=◌}

-- A relation that holds of a state and itself, and of the ends of a chain.
pub record IsPreorder {W : Type 0} (R : W → W → Type 0) : Type 0 where
  pub here : (w : W) → R w w
  pub chain : (u v w : W) → R u v → R v w → R u w

pub record Keeps {W A : Type 0} (R : W → W → Type 0) (m : Exec W A) : Type 0 where
  pub at : (w : W) → R w (m w).1

module _ {W : Type 0} {R : W → W → Type 0} (p : IsPreorder R) where
  pub Keeps-lift : {A : Type 0} (r : Result A) → Keeps R (lift r)
  Keeps-lift r = record { at = λ w. p.here w }

  pub Keeps-pure : {A : Type 0} (a : A) → Keeps R (pure a)
  Keeps-pure a = record { at = λ w. p.here w }

  pub Keeps-if :
      {A : Type 0} (b : Bool) (m n : Exec W A)
      → Keeps R m
      → Keeps R n
      → Keeps R (if b then m else n)
  Keeps-if true m n km kn = km
  Keeps-if false m n km kn = kn

  continued :
      {A B : Type 0} (r : Result A) (f : A → Exec W B)
      → ((a : A) → Keeps R (f a))
      → (v w : W) → R v w
      → R v (continue r f w).1
  continued (ok a) f kf v w h = p.chain v w _ h ((kf a).at w)
  continued (err e) f kf v w h = h

  pub Keeps-bind :
      {A B : Type 0} (m : Exec W A) (f : A → Exec W B)
      → Keeps R m
      → ((a : A) → Keeps R (f a))
      → Keeps R (m >>= f)
  Keeps-bind m f km kf = record { at = λ w. continued (m w).0 f kf w (m w).1 (km.at w) }

  -- The same where the rest is kept only after some results.
  continued_with :
      {A B : Type 0} (r : Result A) (f : A → Exec W B)
      → ((a : A) → r ≡ ok a → Keeps R (f a))
      → (v w : W) → R v w
      → R v (continue r f w).1
  continued_with (ok a) f kf v w h = p.chain v w _ h ((kf a refl).at w)
  continued_with (err e) f kf v w h = h

  pub Keeps-bind_with :
      {A B : Type 0} (m : Exec W A) (f : A → Exec W B) (P : A → Type 0)
      → Keeps R m
      → ((w : W) (a : A) → (m w).0 ≡ ok a → P a)
      → ((a : A) → P a → Keeps R (f a))
      → Keeps R (m >>= f)
  Keeps-bind_with m f P km results kf = record {
    at = λ w. continued_with (m w).0 f (λ a e. kf a (results w a e)) w (m w).1 (km.at w);
  }
