-- ===== src/Exec/Keeps.antt =====
-- What code leaves behind: `P` where it returns a value, `E` where it returns an error.
use go_gather.Base.{◌≡◌, refl, Bool, true, false, String, if◌then◌else◌}
use go_gather.Exec.{
  Err, Result, ok, err, Exec, pure, raise, lift, continue, ◌>>=◌, wrapping, wrap, map_err, try,
}

abbrev pub After : {S A : Type 0} → (S → Type 0) → (S → Type 0) → Result A → S → Type 0
After P E (ok a) s = P s
After P E (err e) s = E s

-- A state that is good in both cases, whatever the result.
pub After-both :
    {S A : Type 0} (P E : S → Type 0) (r : Result A) (s : S) → (P s → E s) → P s → After P E r s
After-both P E (ok a) s weaken h = h
After-both P E (err e) s weaken h = weaken h

After-map_err :
    {S A : Type 0} (P E : S → Type 0) (f : Err → Err) (r : Result A) (s : S)
    → After P E r s
    → After P E (map_err f r) s
After-map_err P E f (ok a) s h = h
After-map_err P E f (err e) s h = h

P_of_After : {S A : Type 0} (P : S → Type 0) (r : Result A) (s : S) → After P P r s → P s
P_of_After P (ok a) s h = h
P_of_After P (err e) s h = h

pub record Keeps {S A : Type 0} (P E : S → Type 0) (m : Exec S A) : Type 0 where
  pub at : (s : S) → P s → After P E (m s).0 (m s).1

module _ {S A : Type 0} {P E : S → Type 0} where
  pub Keeps-pure : (a : A) → Keeps P E (pure a)
  Keeps-pure a = record { at = λ s h. h }

  pub Keeps-raise : ((s : S) → P s → E s) → (e : Err) → Keeps {A = A} P E (raise e)
  Keeps-raise weaken e = record { at = λ s h. weaken s h }

  pub Keeps-if :
      (b : Bool) (m n : Exec S A)
      → (b ≡ true → Keeps P E m)
      → (b ≡ false → Keeps P E n)
      → Keeps P E (if b then m else n)
  Keeps-if true m n km kn = km refl
  Keeps-if false m n km kn = kn refl

  pub Keeps-wrapping :
      (message : String) (m : Exec S A) → Keeps P E m → Keeps P E (wrapping message m)
  unfolding wrapping
  Keeps-wrapping message m k = record {
    at = λ s h. let (r, s') = m s in After-map_err P E (wrap message) r s' (k.at s h);
  }

module _ {S A B : Type 0} {P E : S → Type 0} where
  After-continue :
      (r : Result A) (f : A → Exec S B) (s : S)
      → ((a : A) → r ≡ ok a → Keeps P E (f a))
      → After P E r s
      → After P E (continue r f s).0 (continue r f s).1
  After-continue (ok a) f s k h = (k a refl).at s h
  After-continue (err e) f s k h = h

  pub Keeps-bind :
      (m : Exec S A) (f : A → Exec S B)
      → Keeps P E m
      → ((a : A) → Keeps P E (f a))
      → Keeps P E (m >>= f)
  unfolding ◌>>=◌
  Keeps-bind m f km kf = record {
    at = λ s h. let (r, s') = m s in After-continue r f s' (λ a _. kf a) (km.at s h);
  }

  -- The rest may use what the first part returned.
  pub Keeps-bind_value :
      (m : Exec S A) (f : A → Exec S B)
      → Keeps P E m
      → ((s : S) (a : A) → (m s).0 ≡ ok a → Keeps P E (f a))
      → Keeps P E (m >>= f)
  unfolding ◌>>=◌
  Keeps-bind_value m f km kf = record {
    at = λ s h. After-continue (m s).0 f (m s).1 (λ a e. kf s a e) (km.at s h);
  }

  pub Keeps-bind-lift :
      (r : Result A) (f : A → Exec S B)
      → ((s : S) → P s → E s)
      → ((a : A) → r ≡ ok a → Keeps P E (f a))
      → Keeps P E (lift r >>= f)
  unfolding ◌>>=◌
  Keeps-bind-lift (ok a) f weaken kf = kf a refl
  Keeps-bind-lift (err e) f weaken kf = Keeps-raise weaken e

module _ {S A : Type 0} {P E : S → Type 0} where
  -- The error is looked at, and the code goes on.
  pub Keeps-try : (m : Exec S A) → Keeps P P m → Keeps P E (try m)
  unfolding try
  Keeps-try m k = record { at = λ s h. let (r, s') = m s in P_of_After P r s' (k.at s h) }

module _ {S A B : Type 0} where
  ok_of_continue :
      (r : Result A) (f : A → Exec S B) (s : S) (b : B)
      → (continue r f s).0 ≡ ok b
      → (a : A) × (r ≡ ok a) × ((f a s).0 ≡ ok b)
  ok_of_continue (ok a) f s b e = (a, refl, e)
  ok_of_continue (err x) f s b e = absurd (cc e)

  -- Both parts of a sequence that returns have returned.
  pub ok_of_bind :
      (m : Exec S A) (f : A → Exec S B) (s : S) (b : B)
      → ((m >>= f) s).0 ≡ ok b
      → (a : A) × ((m s).0 ≡ ok a) × ((f a (m s).1).0 ≡ ok b)
  unfolding ◌>>=◌
  ok_of_bind m f s b e = ok_of_continue (m s).0 f (m s).1 b e

pub ok_of_map_err :
    {A : Type 0} (g : Err → Err) (r : Result A) (a : A) → map_err g r ≡ ok a → r ≡ ok a
ok_of_map_err g (ok b) a e = e
ok_of_map_err g (err x) a e = absurd (cc e)

module _ {S A : Type 0} {P E : S → Type 0} where
  pub Keeps-lift : (r : Result A) → ((s : S) → P s → E s) → Keeps P E (lift r)
  Keeps-lift (ok a) weaken = Keeps-pure a
  Keeps-lift (err e) weaken = Keeps-raise weaken e
