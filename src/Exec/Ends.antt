-- ===== src/Exec/Ends.antt =====
-- Code that does not run out of fuel.
use go_gather.Base.{◌≡◌, refl, ◌≢◌, String}
use go_gather.Exec.{
  Err, plain, wrap, out_of_fuel, Result, ok, err, Exec, pure, raise, lift, map_err, continue, ◌>>=◌,
  wrapping,
}

pub record Ends {S A : Type 0} (m : Exec S A) : Type 0 where
  pub at : (s : S) → (m s).0 ≢ err out_of_fuel

map_err-ne :
    {A : Type 0} (message : String) (r : Result A) → map_err (wrap message) r ≢ err out_of_fuel
map_err-ne message (ok a) e = cc e
map_err-ne message (err x) e = cc e

module _ {S A : Type 0} where
  pub Ends-pure : (a : A) → Ends {S = S} (pure a)
  Ends-pure a = record { at = λ s e. cc e }

  pub Ends-plain : (message : String) → Ends {S = S} {A = A} (raise (plain message))
  Ends-plain message = record { at = λ s e. cc e }

  -- An error that is wrapped is one of the code.
  pub Ends-wrapping : (message : String) (m : Exec S A) → Ends (wrapping message m)
  unfolding wrapping
  Ends-wrapping message m = record { at = λ s. map_err-ne message (m s).0 }

  pub Ends-lift : (message : String) (r : Result A) → Ends {S = S} (lift (map_err (wrap message) r))
  Ends-lift message r = record { at = λ s. map_err-ne message r }

err_same :
    {A B : Type 0} (x : Err)
    → ◌≡◌ {A = Result B} (err x) (err out_of_fuel)
    → ◌≡◌ {A = Result A} (err x) (err out_of_fuel)
err_same x e = cc e

module _ {S A B : Type 0} where
  continue-ne :
      (r : Result A) (f : A → Exec S B) (s : S)
      → r ≢ err out_of_fuel
      → ((a : A) → r ≡ ok a → Ends (f a))
      → (continue r f s).0 ≢ err out_of_fuel
  continue-ne (ok a) f s h k = (k a refl).at s
  continue-ne (err x) f s h k = λ e. h (err_same x e)

  pub Ends-bind_value :
      (m : Exec S A) (f : A → Exec S B)
      → Ends m
      → ((s : S) (a : A) → (m s).0 ≡ ok a → Ends (f a))
      → Ends (m >>= f)
  unfolding ◌>>=◌
  Ends-bind_value m f em ef = record { at = λ s. continue-ne (m s).0 f (m s).1 (em.at s) (ef s) }

  pub Ends-bind :
      (m : Exec S A) (f : A → Exec S B) → Ends m → ((a : A) → Ends (f a)) → Ends (m >>= f)
  Ends-bind m f em ef = Ends-bind_value m f em (λ _ a _. ef a)
