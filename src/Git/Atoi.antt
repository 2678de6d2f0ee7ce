-- ===== src/Git/Atoi.antt =====
-- `strconv.Atoi`, for an `int` of 64 bits.
use go_gather.Base.{
  ℕ, ◌+◌, ◌-◌, ◌*◌, ◌%◌, Bool, true, false, ◌&&◌, ◌==◌, leb, Option, none, some, [], ◌∷◌,
  if◌then◌else◌,
}
use go_gather.Base.Int64.{max_int, word}
use go_gather.Base.Text.{Text}
use go_gather.Exec.{plain, Result, ok, err}

-- The number of a text of digits, behind the digits of `n`.
unfoldable pub digits : ℕ → Text → Option ℕ
digits n [] = some n
digits n (c ∷ s) =
    let rest = digits (n * 10 + (c - b'0')) s in if leb b'0' c && leb c b'9' then rest else none

unfoldable pub number : Text → Option ℕ
unfolding digits
number [] = none
number (c ∷ s) = digits 0 (c ∷ s)

-- In range for the sign, as a pattern of 64 bits.
abbrev ranged : Bool → Option ℕ → Result ℕ
ranged negative none = err (plain "strconv.Atoi: invalid syntax")
ranged false (some n) =
    if leb n max_int then ok n else err (plain "strconv.Atoi: value out of range")
ranged true (some n) =
    if leb n (max_int + 1)
    then ok ((word - n) % word)
    else err (plain "strconv.Atoi: value out of range")

unfoldable pub atoi : Text → Result ℕ
unfolding number
atoi [] = ranged false none
atoi (c ∷ s) =
    if c == b'-'
    then ranged true (number s)
    else if c == b'+'
    then ranged false (number s)
    else ranged false (number (c ∷ s))
