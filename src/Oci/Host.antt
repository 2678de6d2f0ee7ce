-- ===== src/Oci/Host.antt =====
-- The host of a URI and the known registries of gather/oci/oci.go: `Matcher`, `containsOCIRegistry`,
-- `extractHost` and the rewriting of `localhost`. Texts are ASCII where case matters.
use go_gather.Base.{
  ℕ, ◌+◌, ◌-◌, Bool, true, false, not, ◌&&◌, ◌||◌, ◌==◌, leb, Option, none, some, [], ◌∷◌, ◌++◌,
  if◌then◌else◌, length,
}
use go_gather.Base.Text.{
  Text, codes, text_eq, has_prefix, has_suffix, has_any_prefix, contains, after, before, drop,
}
use go_gather.Path.{is_empty}
use go_gather.Exec.{Result, ok, err}
use go_gather.Url.Escape.{mem_byte}
use go_gather.Url.Parse.{Url, parse_url, hostname, to_lower}

abbrev host_or : Text → Result Url → Text
host_or src (ok u) = if is_empty u.host then to_lower src else to_lower (hostname u)
host_or src (err _) = to_lower src

-- The text behind the first `::`, with a scheme.
unfoldable pub with_scheme : Text → Text
unfolding contains after
with_scheme src =
    let s = if contains src (codes "::") then after (codes "::") src else src in
    if contains s (codes "://") then s else codes "oci://" ++ s

-- `extractHost`
unfoldable pub extract_host : Text → Text
unfolding with_scheme parse_url hostname to_lower is_empty
extract_host src = let s = with_scheme src in host_or s (parse_url s)

-- `(^|\.)domain$`
unfoldable pub in_domain : Text → Text → Bool
unfolding text_eq has_suffix
in_domain host domain = text_eq host domain || has_suffix host (b'.' ∷ domain)

abbrev pub is_digit : ℕ → Bool
is_digit c = leb b'0' c && leb c b'9'

-- So many digits, and the text behind them.
unfoldable pub skip_digits : ℕ → Text → Option Text
skip_digits ℕ.zero s = some s
skip_digits (ℕ.suc n) [] = none
skip_digits (ℕ.suc n) (c ∷ s) = if is_digit c then skip_digits n s else none

unfoldable pub all_region : Text → Bool
all_region [] = true
all_region (c ∷ s) = ((leb b'a' c && leb c b'z') || is_digit c || c == b'-') && all_region s

-- `^[0-9]{12}\.dkr\.ecr\.[a-z0-9-]+\.amazonaws\.com$`: the region holds no dot.
unfoldable pub is_ecr : Text → Bool
unfolding skip_digits has_prefix drop before is_empty all_region text_eq
is_ecr host = elim (skip_digits 12 host) [
  | none ↦ false
  | some s ↦
      let behind = drop (length (codes ".dkr.ecr.")) s in
      let region = before (codes ".") behind in
      has_prefix s (codes ".dkr.ecr.")
      && not (is_empty region)
      && all_region region
      && text_eq (drop (length region) behind) (codes ".amazonaws.com")
]

-- `ociRegistryPatterns`
unfoldable pub is_registry_host : Text → Bool
unfolding in_domain is_ecr text_eq
is_registry_host host =
    in_domain host (codes "azurecr.io")
    || in_domain host (codes "gcr.io")
    || text_eq host (codes "registry.gitlab.com")
    || in_domain host (codes "pkg.dev")
    || is_ecr host
    || text_eq host (codes "quay.io")
    || text_eq host (codes "::1")
    || text_eq host (codes "127.0.0.1")
    || text_eq (to_lower host) (codes "localhost")

-- `containsOCIRegistry`
unfoldable pub contains_oci_registry : Text → Bool
unfolding extract_host is_registry_host
contains_oci_registry src = is_registry_host (extract_host src)

-- `OCIGatherer.Matcher`
unfoldable pub oci_matcher : Text → Bool
unfolding has_any_prefix contains_oci_registry
oci_matcher uri =
    if has_any_prefix uri (codes "oci://" ∷ codes "oci::" ∷ [])
    then true
    else contains_oci_registry uri

-- `OciDetector` of detector/detector.go
unfoldable pub oci_detector : Text → Bool
unfolding oci_matcher
oci_detector = oci_matcher

-- What replaces a match of the pattern that begins with `front`, and how long the match is.
abbrev ended_by : Text → ℕ → Text → Option (Text × ℕ)
ended_by out n [] = some (out, n)
ended_by out n (d ∷ _) = if mem_byte d (codes ":/?#") then some (out ++ (d ∷ []), n + 1) else none

unfoldable pub match_local : Text → Text → Option (Text × ℕ)
unfolding has_prefix drop mem_byte
match_local front s =
    let whole = front ++ codes "localhost" in
    if has_prefix s whole
    then ended_by (front ++ codes "127.0.0.1") (length whole) (drop (length whole) s)
    else none

abbrev first_of : Option (Text × ℕ) → Option (Text × ℕ) → Option (Text × ℕ)
first_of (some r) _ = some r
first_of none r = r

-- `localhostHostRegexp` at one position.
unfoldable pub match_at : Bool → Text → Option (Text × ℕ)
unfolding match_local
match_at start s =
    first_of (if start then match_local [] s else none)
      (first_of (match_local (codes "://") s) (match_local (codes "::") s))

-- The text behind a position, less the characters that the last match took.
unfoldable pub replace_from : ℕ → Bool → Text → Text
unfolding match_at
replace_from skip start [] = []
replace_from (ℕ.suc k) start (c ∷ s) = replace_from k false s
replace_from ℕ.zero start (c ∷ s) = elim (match_at start (c ∷ s)) [
  | none ↦ c ∷ replace_from 0 false s
  | some (out, n) ↦ out ++ replace_from (n - 1) false s
]

-- `ReplaceAllString` by `${1}127.0.0.1${3}`; a text without a match is kept.
unfoldable pub replace_localhost : Text → Text
unfolding replace_from
replace_localhost s = replace_from 0 true s
