-- ===== src/Exec/Leads.antt =====
-- What code leads to from a state that is good in the sense of `P`: `Q` of its value, or `E` where
-- it returns an error.
use go_gather.Base.{◌≡◌, refl, Bool, true, false, String, if◌then◌else◌}
use go_gather.Exec.{
  Err, Result, ok, err, Exec, pure, raise, lift, continue, ◌>>=◌, wrapping, wrap, map_err, try,
}

abbrev pub AfterValue : {S A : Type 0} → (A → S → Type 0) → (S → Type 0) → Result A → S → Type 0
AfterValue Q E (ok a) s = Q a s
AfterValue Q E (err e) s = E s

pub record Leads {S A : Type 0} (P : S → Type 0) (Q : A → S → Type 0) (E : S → Type 0)
    (m : Exec S A) : Type 0 where
  pub at : (s : S) → P s → AfterValue Q E (m s).0 (m s).1

AfterValue-map_err :
    {S A : Type 0} (Q : A → S → Type 0) (E : S → Type 0) (f : Err → Err) (r : Result A) (s : S)
    → AfterValue Q E r s
    → AfterValue Q E (map_err f r) s
AfterValue-map_err Q E f (ok a) s h = h
AfterValue-map_err Q E f (err e) s h = h

AfterValue-with :
    {S A : Type 0} (Q : A → S → Type 0) (E : S → Type 0) (F : Type 0) (r : Result A) (s : S)
    → F
    → AfterValue Q E r s
    → AfterValue (λ a s. Q a s × F) E r s
AfterValue-with Q E F (ok a) s f h = (h, f)
AfterValue-with Q E F (err e) s f h = h

value_of_both :
    {S A : Type 0} (P : S → Type 0) (r : Result A) (s : S) → AfterValue (λ _. P) P r s → P s
value_of_both P (ok a) s h = h
value_of_both P (err e) s h = h

module _ {S A B : Type 0} (R : A → S → Type 0) (E : S → Type 0) (Q : B → S → Type 0) where
  AfterValue-continue :
      (r : Result A) (f : A → Exec S B) (s : S)
      → ((a : A) → Leads (R a) Q E (f a))
      → AfterValue R E r s
      → AfterValue Q E (continue r f s).0 (continue r f s).1
  AfterValue-continue (ok a) f s k h = (k a).at s h
  AfterValue-continue (err e) f s k h = h

module _ {S A : Type 0} {P E : S → Type 0} {Q : A → S → Type 0} where
  pub Leads-pure : (a : A) → ((s : S) → P s → Q a s) → Leads P Q E (pure a)
  Leads-pure a h = record { at = h }

  pub Leads-raise : (e : Err) → ((s : S) → P s → E s) → Leads P Q E (raise e)
  Leads-raise e h = record { at = h }

  pub Leads-if :
      (b : Bool) (m n : Exec S A) → Leads P Q E m → Leads P Q E n → Leads P Q E (if b then m else n)
  Leads-if true m n km kn = km
  Leads-if false m n km kn = kn

  pub Leads-wrapping :
      (message : String) (m : Exec S A) → Leads P Q E m → Leads P Q E (wrapping message m)
  unfolding wrapping
  Leads-wrapping message m k = record {
    at = λ s h. AfterValue-map_err Q E (wrap message) (m s).0 (m s).1 (k.at s h);
  }

  pub Leads-with : (F : Type 0) (m : Exec S A) → F → Leads P Q E m → Leads P (λ a s. Q a s × F) E m
  Leads-with F m f k = record { at = λ s h. AfterValue-with Q E F (m s).0 (m s).1 f (k.at s h) }

  -- What holds of a good state whatever the state is.
  pub Leads-fact : (F : Type 0) (m : Exec S A) → (F → Leads P Q E m) → Leads (λ s. P s × F) Q E m
  Leads-fact F m k = record { at = λ s (h, f). (k f).at s h }

module _ {S A : Type 0} {P E : S → Type 0} where
  pub Leads-lift : (r : Result A) → ((s : S) → P s → E s) → Leads P (λ _. P) E (lift r)
  Leads-lift (ok a) h = record { at = λ s p. p }
  Leads-lift (err e) h = record { at = h }

  -- The error is looked at, and the code goes on.
  pub Leads-try : (m : Exec S A) → Leads P (λ _. P) P m → Leads P (λ _. P) E (try m)
  unfolding try
  Leads-try m k = record { at = λ s h. value_of_both P (m s).0 (m s).1 (k.at s h) }

module _ {S A B : Type 0} {P E : S → Type 0} {R : A → S → Type 0} {Q : B → S → Type 0} where
  pub Leads-bind :
      (m : Exec S A) (f : A → Exec S B)
      → Leads P R E m
      → ((a : A) → Leads (R a) Q E (f a))
      → Leads P Q E (m >>= f)
  unfolding ◌>>=◌
  Leads-bind m f km kf = record {
    at = λ s h. AfterValue-continue R E Q (m s).0 f (m s).1 kf (km.at s h);
  }

module _ {S A B : Type 0} {P E : S → Type 0} {Q : B → S → Type 0} where
  -- The rest may use what a value was checked for.
  pub Leads-bind-lift :
      (r : Result A) (f : A → Exec S B)
      → ((s : S) → P s → E s)
      → ((a : A) → r ≡ ok a → Leads P Q E (f a))
      → Leads P Q E (lift r >>= f)
  unfolding ◌>>=◌
  Leads-bind-lift (ok a) f weaken kf = kf a refl
  Leads-bind-lift (err e) f weaken kf = record { at = weaken }
