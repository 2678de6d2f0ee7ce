-- ===== src/Url/Parse.antt =====
-- `url.Parse` and `URL.Hostname`, as in Go 1.26.0.
use go_gather.Base.{
  ℕ, ◌+◌, Bool, true, false, not, ◌&&◌, ◌||◌, ◌==◌, leb, ltb, Option, none, some, [], ◌∷◌,
  if◌then◌else◌,
}
use go_gather.Base.Text.{Text, codes, has_prefix, contains, drop, text_eq}
use go_gather.Path.{is_empty}
use go_gather.Exec.{plain, Result, ok, err}
use go_gather.Url.Authority.{cut, cut_last, valid_optional_port, parse_authority}
use go_gather.Url.Escape.{path, fragment, is_alnum, mem_byte, unescape, escape}

pub record Url : Type 0 where
  pub scheme : Text
  pub opaque : Text
  pub user : Option (Text × Option Text)
  pub host : Text
  pub path : Text
  pub raw_path : Text
  pub omit_host : Bool
  pub force_query : Bool
  pub raw_query : Text
  pub fragment : Text
  pub raw_fragment : Text

abbrev pub or_empty : Option Text → Text
or_empty none = []
or_empty (some s) = s

unfoldable pub lower_byte : ℕ → ℕ
lower_byte c = if leb b'A' c && leb c b'Z' then c + 32 else c

-- `strings.ToLower`, for ASCII texts.
unfoldable pub to_lower : Text → Text
unfolding lower_byte
to_lower [] = []
to_lower (c ∷ s) = lower_byte c ∷ to_lower s

unfoldable pub has_control : Text → Bool
has_control [] = false
has_control (c ∷ s) = ltb c 32 || c == 127 || has_control s

abbrev is_letter : ℕ → Bool
is_letter c = (leb b'a' c && leb c b'z') || (leb b'A' c && leb c b'Z')

-- What begins a text that has a scheme.
pub data Scheme : Type 0 where
  missing : Scheme
  absent : Scheme
  found : Text → Text → Scheme

abbrev longer : ℕ → Scheme → Scheme
longer c (found s rest) = found (c ∷ s) rest
longer c r = r

-- `getScheme`, behind `started` or more characters.
unfoldable pub get_scheme : Bool → Text → Scheme
unfolding is_alnum mem_byte
get_scheme started [] = absent
get_scheme started (c ∷ s) =
    let rest = get_scheme true s in
    if is_letter c
    then longer c rest
    else if is_alnum c || mem_byte c (codes "+-.")
    then (if started then longer c rest else absent)
    else if c == b':'
    then (if started then found [] s else missing)
    else absent

abbrev empty_url : Url
empty_url = record {
  scheme = [];
  opaque = [];
  user = none;
  host = [];
  path = [];
  raw_path = [];
  omit_host = false;
  force_query = false;
  raw_query = [];
  fragment = [];
  raw_fragment = [];
}

-- `setPath`
unfoldable pub set_path : Text → Url → Option Url
unfolding unescape escape text_eq
set_path p u = elim (unescape path p) [
  | none ↦ none
  | some q ↦ some (record u { path = q; raw_path = if text_eq p (escape path q) then [] else p })
]

-- `setFragment`
unfoldable pub set_fragment : Text → Url → Option Url
unfolding unescape escape text_eq
set_fragment f u = elim (unescape fragment f) [
  | none ↦ none
  | some q ↦
      some
        (record u { fragment = q; raw_fragment = if text_eq f (escape fragment q) then [] else f })
]

-- The query that is split off, and whether it was a bare `?`.
unfoldable pub split_query : Text → Text × Text × Bool
unfolding cut
split_query rest =
    let (a, q) = cut b'?' rest in (a, or_empty q, elim q [ some [] ↦ true | _ ↦ false ])

-- The authority and what is behind it, of a text that stood behind `//`.
unfoldable pub split_authority : Text → Text × Text
unfolding cut
split_authority s = let (a, rest) = cut b'/' s in (a, elim rest [ none ↦ [] | some r ↦ b'/' ∷ r ])

abbrev in_authority : Url → Text → Option (Option (Text × Option Text) × Text) → Option Url
in_authority u rest none = none
in_authority u rest (some (who, h)) = set_path rest (record u { user = who; host = h })

-- The rest of a URL whose scheme and query are known.
unfoldable pub parse_rest : Url → Text → Option Url
unfolding is_empty has_prefix contains cut split_authority parse_authority set_path drop
parse_rest u rest =
    let has_scheme = not (is_empty u.scheme) in
    let (authority, behind) = split_authority (drop 2 rest) in
    if not (has_prefix rest (codes "/")) && has_scheme
    then some (record u { opaque = rest })
    else if not (has_prefix rest (codes "/")) && contains (cut b'/' rest).0 (codes ":")
    then none
    else if (has_scheme || not (has_prefix rest (codes "///"))) && has_prefix rest (codes "//")
    then in_authority u behind (parse_authority u.scheme authority)
    else set_path rest (record u { omit_host = has_scheme && has_prefix rest (codes "/") })

-- The URL behind a scheme.
unfoldable pub parse_behind : Text → Text → Option Url
unfolding split_query parse_rest to_lower
parse_behind scheme text =
    let (rest, raw_query, force) = split_query text in
    parse_rest
      (record empty_url { scheme = to_lower scheme; raw_query = raw_query; force_query = force })
      rest

abbrev behind_scheme : Text → Scheme → Option Url
behind_scheme text missing = none
behind_scheme text absent = parse_behind [] text
behind_scheme text (found scheme rest) = parse_behind scheme rest

-- `parse`, for a text without a fragment.
unfoldable pub parse_plain : Text → Option Url
unfolding has_control get_scheme parse_behind text_eq
parse_plain text =
    if has_control text
    then none
    else if text_eq text (codes "*")
    then some (record empty_url { path = codes "*" })
    else behind_scheme text (get_scheme false text)

abbrev with_fragment : Option Text → Option Url → Option Url
with_fragment f none = none
with_fragment none (some u) = some u
with_fragment (some f) (some u) = if is_empty f then some u else set_fragment f u

abbrev parsed : Option Url → Result Url
parsed none = err (plain "parse")
parsed (some u) = ok u

-- `url.Parse`
unfoldable pub parse_url : Text → Result Url
unfolding cut parse_plain set_fragment is_empty
parse_url text = let (u, f) = cut b'#' text in parsed (with_fragment f (parse_plain u))

-- A text in brackets without them.
unfoldable pub unbracket : Text → Text
unfolding cut_last
unbracket [] = []
unbracket (c ∷ s) =
    if c == b'[' then elim (cut_last b']' s) [ some (a, []) ↦ a | _ ↦ c ∷ s ] else c ∷ s

-- `splitHostPort`, the host of it.
unfoldable pub hostname_of : Text → Text
unfolding cut_last valid_optional_port unbracket
hostname_of h = unbracket (elim (cut_last b':' h) [
  | none ↦ h
  | some (a, port) ↦ if valid_optional_port (b':' ∷ port) then a else h
])

-- `URL.Hostname`
unfoldable pub hostname : Url → Text
unfolding hostname_of
hostname u = hostname_of u.host
