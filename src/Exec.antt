-- ===== src/Exec.antt =====
-- Errors, and code that changes a state and may return an error: what it did before stays done.
pub mod Keeps
pub mod Ends
pub mod Leads
use go_gather.Base.{Bool, String, Option, none, some}

-- What a failing call to the operating system reports.
pub data Errno : Type 0 where
  not_exist exist not_dir is_dir fault : Errno

-- A Go error: an `Errno`, a message of the code, or a message that wraps an error by `%w`. The
-- values that a message formats (paths, sizes) are left out.
pub data Err : Type 0 where
  errno : Errno → Err
  plain : String → Err
  wrap : String → Err → Err
  -- No error of the code: a loop of the model has used up its rounds.
  out_of_fuel : Err
  -- The code panics.
  panic : Err

pub data Result (A : Type 0) : Type 0 where
  ok : A → Result A
  err : Err → Result A

abbrev pub Exec : Type 0 → Type 0 → Type 0
Exec S A = S → Result A × S

module _ {S A : Type 0} where
  abbrev pub pure : A → Exec S A
  pure a s = (ok a, s)

  abbrev pub raise : Err → Exec S A
  raise e s = (err e, s)

  abbrev pub lift : Result A → Exec S A
  lift r s = (r, s)

module _ {S A B : Type 0} where
  abbrev pub continue : Result A → (A → Exec S B) → Exec S B
  continue (ok a) f s = f a s
  continue (err e) f s = (err e, s)

  infixl 10 ◌>>=◌ ◌>>◌
  unfoldable pub ◌>>=◌ : Exec S A → (A → Exec S B) → Exec S B
  ◌>>=◌ m f s = let (r, s') = m s in continue r f s'

  abbrev pub ◌>>◌ : Exec S A → Exec S B → Exec S B
  m >> n = m >>= λ _. n

abbrev pub map_err : {A : Type 0} → (Err → Err) → Result A → Result A
map_err f (ok a) = ok a
map_err f (err e) = err (f e)

module _ {S A : Type 0} where
  -- `if err != nil { return fmt.Errorf("...: %w", err) }`
  unfoldable pub wrapping : String → Exec S A → Exec S A
  wrapping message m s = let (r, s') = m s in (map_err (wrap message) r, s')

  -- The result as a value: the code looks at the error itself.
  unfoldable pub try : Exec S A → Exec S (Result A)
  try m s = let (r, s') = m s in (ok r, s')

abbrev pub is_ok : {A : Type 0} → Result A → Bool
is_ok (ok _) = Bool.true
is_ok (err _) = Bool.false

-- A part of the state: code on the part is code on the whole.
module _ {S T A : Type 0} (get : S → T) (put : T → S → S) where
  unfoldable pub zoom : Exec T A → Exec S A
  zoom m s = let (r, t) = m (get s) in (r, put t s)
