-- ===== src/Url/Escape.antt =====
-- Percent-encoding of net/url: `unescape`, `escape` and `shouldEscape`.
use go_gather.Base.{
  ℕ, ◌+◌, ◌-◌, ◌*◌, ◌/◌, ◌%◌, Bool, true, false, not, ◌&&◌, ◌||◌, ◌==◌, leb, ltb, Option, none,
  some, [], ◌∷◌, ◌++◌, if◌then◌else◌,
}
use go_gather.Base.Text.{Text, codes}

-- The part of a URL that a text stands in.
pub data Mode : Type 0 where
  path host zone user query fragment : Mode

unfoldable pub is_alnum : ℕ → Bool
is_alnum c = (leb b'a' c && leb c b'z') || (leb b'A' c && leb c b'Z') || (leb b'0' c && leb c b'9')

unfoldable pub mem_byte : ℕ → Text → Bool
mem_byte c [] = false
mem_byte c (d ∷ s) = c == d || mem_byte c s

abbrev is_host : Mode → Bool
is_host host = true
is_host zone = true
is_host _ = false

-- The reserved characters `$&+,/:;=?@`.
abbrev reserved : Mode → ℕ → Bool
reserved path c = c == b'?'
reserved user c = c == b'@' || c == b'/' || c == b'?' || c == b':'
reserved fragment c = false
reserved _ c = true

abbrev is_fragment : Mode → Bool
is_fragment fragment = true
is_fragment _ = false

-- `shouldEscape`; 34 is the double quote.
unfoldable pub should_escape : Mode → ℕ → Bool
unfolding is_alnum mem_byte
should_escape m c =
    if is_alnum c
    then false
    else if is_host m && (mem_byte c (codes "!$&'()*+,;=:[]<>") || c == 34)
    then false
    else if mem_byte c (codes "-_.~")
    then false
    else if mem_byte c (codes "$&+,/:;=?@")
    then reserved m c
    else not (is_fragment m && mem_byte c (codes "!()*"))

-- `unhex` of a hexadecimal digit.
unfoldable pub unhex : ℕ → Option ℕ
unhex c =
    if leb b'0' c && leb c b'9'
    then some (c - b'0')
    else if leb b'a' c && leb c b'f'
    then some (c - b'a' + 10)
    else if leb b'A' c && leb c b'F'
    then some (c - b'A' + 10)
    else none

-- What is still to come of an escape.
pub data Pending : Type 0 where
  idle : Pending
  first : Pending
  second : ℕ → Pending

-- What the two digits of an escape stand for, where the mode allows it: in a host only bytes that
-- are not ASCII and the percent sign, in a zone also what a host may hold, and the space.
abbrev decoded : Mode → ℕ → ℕ → Option (Pending × Text)
decoded host hi lo =
    if ltb hi 8 && not (hi == 2 && lo == 5) then none else some (idle, (hi * 16 + lo) ∷ [])
decoded zone hi lo =
    let v = hi * 16 + lo in
    if not (hi == 2 && lo == 5) && not (v == 32) && should_escape host v
    then none
    else some (idle, v ∷ [])
decoded _ hi lo = some (idle, (hi * 16 + lo) ∷ [])

-- A byte outside of an escape.
abbrev literal : Mode → ℕ → Option (Pending × Text)
literal query c = some (idle, (if c == b'+' then 32 else c) ∷ [])
literal m c = if is_host m && ltb c 128 && should_escape m c then none else some (idle, c ∷ [])

abbrev unescape_step : Mode → Pending → ℕ → Option (Pending × Text)
unescape_step m idle c = if c == b'%' then some (first, []) else literal m c
unescape_step m first c = elim (unhex c) [ none ↦ none | some hi ↦ some (second hi, []) ]
unescape_step m (second hi) c = elim (unhex c) [ none ↦ none | some lo ↦ decoded m hi lo ]

abbrev ended : Pending → Option Text
ended idle = some []
ended _ = none

abbrev prepend : Text → Option Text → Option Text
prepend out none = none
prepend out (some s) = some (out ++ s)

unfoldable pub unescape_from : Mode → Pending → Text → Option Text
unfolding should_escape unhex
unescape_from m p [] = ended p
unescape_from m p (c ∷ s) = elim (unescape_step m p c) [
  | none ↦ none
  | some (p', out) ↦ prepend out (unescape_from m p' s)
]

-- `unescape`: none where an escape is broken or not allowed.
unfoldable pub unescape : Mode → Text → Option Text
unfolding unescape_from
unescape m s = unescape_from m idle s

abbrev upper_hex : ℕ → ℕ
upper_hex d = if ltb d 10 then b'0' + d else b'A' + (d - 10)

abbrev escape_byte : Mode → ℕ → Text
escape_byte m c =
    if should_escape m c then b'%' ∷ upper_hex (c / 16) ∷ upper_hex (c % 16) ∷ [] else c ∷ []

abbrev escape_one : Mode → ℕ → Text
escape_one query c = if c == 32 then b'+' ∷ [] else escape_byte query c
escape_one m c = escape_byte m c

-- `escape`
unfoldable pub escape : Mode → Text → Text
unfolding should_escape
escape m [] = []
escape m (c ∷ s) = escape_one m c ++ escape m s
