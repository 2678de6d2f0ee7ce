-- ===== src/Base/Text.antt =====
-- Go strings as lists of bytes, and what the code uses of the `strings` package.
use Prim.Native.Char.{code}
use Prim.Native.String.{String}
use Prim.Native.Nat.{ℕ}
use mathlib.Core.Path.{◌≡◌, refl}
use mathlib.Core.Bool.{Bool, true, false, ◌&&◌, ◌||◌}
use mathlib.Core.List.{List, [], ◌∷◌, ◌++◌}
use native.Mathlib.Omega.{arith}
use go_gather.Base.Tests.{◌==◌, if◌then◌else◌, length}

abbrev pub Text : Type 0
Text = List ℕ

-- The bytes of a literal, all of them ASCII here.
abbrev pub codes : String → Text
codes String.[] = []
codes (String.◌∷◌ c s) = code c ∷ codes s

unfoldable pub text_eq : Text → Text → Bool
text_eq [] [] = true
text_eq [] (d ∷ t) = false
text_eq (c ∷ s) [] = false
text_eq (c ∷ s) (d ∷ t) = (c == d) && text_eq s t

pub text_eq_refl : (s : Text) → text_eq s s ≡ true
unfolding text_eq
text_eq_refl [] = refl
text_eq_refl (c ∷ s) = ground (arith, text_eq_refl s)

pub text_eq→eq : (s t : Text) → text_eq s t ≡ true → s ≡ t
unfolding text_eq
text_eq→eq [] [] h = refl
text_eq→eq [] (d ∷ t) h = cc
text_eq→eq (c ∷ s) [] h = cc
text_eq→eq (c ∷ s) (d ∷ t) h = ground (arith, text_eq→eq s t)

-- `strings.HasPrefix`
unfoldable pub has_prefix : Text → Text → Bool
has_prefix s [] = true
has_prefix [] (d ∷ t) = false
has_prefix (c ∷ s) (d ∷ t) = (c == d) && has_prefix s t

-- `strings.HasSuffix`
unfoldable pub has_suffix : Text → Text → Bool
unfolding text_eq
has_suffix [] t = text_eq [] t
has_suffix (c ∷ s) t = text_eq (c ∷ s) t || has_suffix s t

-- `strings.Contains`
unfoldable pub contains : Text → Text → Bool
unfolding has_prefix
contains [] t = has_prefix [] t
contains (c ∷ s) t = has_prefix (c ∷ s) t || contains s t

unfoldable pub drop : ℕ → Text → Text
drop ℕ.zero s = s
drop (ℕ.suc n) [] = []
drop (ℕ.suc n) (c ∷ s) = drop n s

-- `strings.TrimPrefix`
unfoldable pub trim_prefix : Text → Text → Text
unfolding has_prefix drop
trim_prefix s t = if has_prefix s t then drop (length t) s else s

-- `strings.Split` on a one-byte separator.
unfoldable pub split : ℕ → Text → List Text
split sep [] = [] ∷ []
split sep (c ∷ s) = elim (split sep s) [
  | [] ↦ []
  | p ∷ ps ↦ if c == sep then [] ∷ p ∷ ps else (c ∷ p) ∷ ps
]

-- `strings.Join` with a one-byte separator.
unfoldable pub join : ℕ → List Text → Text
join sep [] = []
join sep (p ∷ []) = p
join sep (p ∷ q ∷ ps) = p ++ (sep ∷ join sep (q ∷ ps))

pub has_prefix-append : (t rest : Text) → has_prefix (t ++ rest) t ≡ true
unfolding has_prefix
has_prefix-append [] [] = refl
has_prefix-append [] (c ∷ rest) = refl
has_prefix-append (c ∷ t) rest = ground (arith, has_prefix-append t rest)

pub has_prefix→append : (s t : Text) → has_prefix s t ≡ true → (rest : Text) × (s ≡ t ++ rest)
unfolding has_prefix
has_prefix→append s [] h = (s, refl)
has_prefix→append [] (d ∷ t) h = cc
has_prefix→append (c ∷ s) (d ∷ t) h =
    let (rest, e) = has_prefix→append s t (ground arith) in (rest, ground arith)

-- `strings.TrimSuffix`
unfoldable pub trim_suffix : Text → Text → Text
unfolding text_eq
trim_suffix [] t = []
trim_suffix (c ∷ s) t = if text_eq (c ∷ s) t then [] else c ∷ trim_suffix s t

-- The first part of `strings.SplitN(s, sep, 2)`: all of it where `sep` is not there.
unfoldable pub before : Text → Text → Text
unfolding has_prefix
before sep [] = []
before sep (c ∷ s) = if has_prefix (c ∷ s) sep then [] else c ∷ before sep s

-- What comes behind the first `sep`.
unfoldable pub after : Text → Text → Text
unfolding has_prefix drop
after sep [] = []
after sep (c ∷ s) = if has_prefix (c ∷ s) sep then drop (length sep) (c ∷ s) else after sep s

-- `strings.Replace(s, old, new, 1)` for single bytes.
unfoldable pub replace_first : ℕ → ℕ → Text → Text
replace_first old new [] = []
replace_first old new (c ∷ s) = if c == old then new ∷ s else c ∷ replace_first old new s

-- The loops over prefixes, with `TrimPrefix` and with `HasPrefix`.
unfoldable pub trim_prefixes : Text → List Text → Text
unfolding trim_prefix
trim_prefixes s [] = s
trim_prefixes s (t ∷ ts) = trim_prefixes (trim_prefix s t) ts

unfoldable pub has_any_prefix : Text → List Text → Bool
unfolding has_prefix
has_any_prefix s [] = false
has_any_prefix s (t ∷ ts) = has_prefix s t || has_any_prefix s ts

unfoldable pub contains_any : Text → List Text → Bool
unfolding contains
contains_any s [] = false
contains_any s (t ∷ ts) = contains s t || contains_any s ts
