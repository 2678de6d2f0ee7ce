-- ===== src/Url/Authority.antt =====
-- The authority of a URL, as `url.Parse` of Go 1.26.0 reads it: user, host and port.
use go_gather.Base.{
  ℕ, Bool, true, not, ◌&&◌, ◌||◌, ◌==◌, leb, Option, none, some, [], ◌∷◌, ◌++◌, if◌then◌else◌,
}
use go_gather.Base.Text.{Text, codes, has_prefix, text_eq}
use go_gather.Url.Ip.{is_ipv6}
use go_gather.Url.Escape.{host, zone, user, is_alnum, mem_byte, unescape}

-- What stands before the first such byte, and behind it where there is one.
unfoldable pub cut : ℕ → Text → Text × Option Text
cut sep [] = ([], none)
cut sep (c ∷ s) = let (a, b) = cut sep s in if c == sep then ([], some s) else (c ∷ a, b)

-- The same for the last one.
unfoldable pub cut_last : ℕ → Text → Option (Text × Text)
cut_last sep [] = none
cut_last sep (c ∷ s) = elim (cut_last sep s) [
  | some (a, b) ↦ some (c ∷ a, b)
  | none ↦ if c == sep then some ([], s) else none
]

abbrev all_digits : Text → Bool
all_digits [] = true
all_digits (c ∷ s) = leb b'0' c && leb c b'9' && all_digits s

-- `validOptionalPort`
unfoldable pub valid_optional_port : Text → Bool
valid_optional_port [] = true
valid_optional_port (c ∷ s) = c == b':' && all_digits s

-- The text from its first `%25` on, with what stands before it.
unfoldable cut_zone : Text → Option (Text × Text)
unfolding has_prefix
cut_zone [] = none
cut_zone (c ∷ s) =
    if has_prefix (c ∷ s) (codes "%25")
    then some ([], c ∷ s)
    else elim (cut_zone s) [ none ↦ none | some (a, b) ↦ some (c ∷ a, b) ]

abbrev joined : Option Text → Option Text → Option Text
joined (some a) (some b) = some (a ++ b)
joined _ _ = none

-- The text in brackets without its escapes; a zone has escapes of its own.
unfoldable unescape_address : Text → Option Text
unfolding cut_zone unescape
unescape_address inner = elim (cut_zone inner) [
  | none ↦ unescape host inner
  | some (a, b) ↦ joined (unescape host a) (unescape zone b)
]

unfoldable is_address : Text → Bool
unfolding cut is_ipv6
is_address s = let (address, zone_of) = cut b'%' s in is_ipv6 address zone_of

abbrev bracketed : Option Text → Option Text → Option Text
bracketed (some address) (some port) =
    if is_address address then some (b'[' ∷ (address ++ (b']' ∷ port))) else none
bracketed _ _ = none

-- A host in brackets, which has to be an IPv6 address: `inner` stands before the last `]`, `port`
-- behind it.
unfoldable parse_bracketed : Text → Text → Option Text
unfolding valid_optional_port unescape_address unescape is_address
parse_bracketed inner port =
    if valid_optional_port port
    then bracketed (unescape_address inner) (unescape host port)
    else none

abbrev after_last : Option (Text × Text) → Option Text
after_last none = none
after_last (some (_, s)) = some s

-- The port begins behind the first colon, in the URLs of PostgreSQL behind the last one.
unfoldable port_of : Text → Text → Option Text
unfolding text_eq cut cut_last
port_of scheme s =
    if text_eq scheme (codes "postgresql") || text_eq scheme (codes "postgres")
    then after_last (cut_last b':' s)
    else (cut b':' s).1

abbrev is_port : Option Text → Bool
is_port none = true
is_port (some s) = all_digits s

-- `parseHost` of Go 1.26.0, where what stands before the last `[` is dropped.
unfoldable parse_host : Text → Text → Option Text
unfolding cut_last parse_bracketed port_of unescape
parse_host scheme s = elim (cut_last b'[' s) [
  | some (_, rest) ↦ elim (cut_last b']' rest) [
    | none ↦ none
    | some (inner, port) ↦ parse_bracketed inner port
  ]
  | none ↦ if is_port (port_of scheme s) then unescape host s else none
]

-- `validUserinfo`
unfoldable valid_userinfo : Text → Bool
unfolding is_alnum mem_byte
valid_userinfo [] = true
valid_userinfo (c ∷ s) = (is_alnum c || mem_byte c (codes "-._:~!$&'()*+,;=%@")) && valid_userinfo s

abbrev userinfo_of : Option Text → Option (Option Text) → Option (Text × Option Text)
userinfo_of (some name) (some password) = some (name, password)
userinfo_of _ _ = none

abbrev password_of : Option Text → Option (Option Text)
password_of none = some none
password_of (some p) = elim (unescape user p) [ none ↦ none | some q ↦ some (some q) ]

unfoldable parse_userinfo : Text → Option (Text × Option Text)
unfolding valid_userinfo cut unescape
parse_userinfo s =
    if not (valid_userinfo s)
    then none
    else let (name, password) = cut b':' s in
      userinfo_of (unescape user name) (password_of password)

abbrev with_user :
    Option (Text × Option Text) → Option Text → Option (Option (Text × Option Text) × Text)
with_user (some u) (some h) = some (some u, h)
with_user _ _ = none

-- `parseAuthority`
unfoldable pub parse_authority : Text → Text → Option (Option (Text × Option Text) × Text)
unfolding cut_last parse_host parse_userinfo
parse_authority scheme s = elim (cut_last b'@' s) [
  | none ↦ elim (parse_host scheme s) [ none ↦ none | some h ↦ some (none, h) ]
  | some (info, h) ↦ with_user (parse_userinfo info) (parse_host scheme h)
]
