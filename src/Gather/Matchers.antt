-- ===== src/Gather/Matchers.antt =====
-- `Matcher` of gather/file/file.go, gather/git/git.go and gather/http/http.go, and the
-- detectors that call them.
pub mod Hosts
use go_gather.Base.{List, not, ◌&&◌, Bool, true, false, ◌||◌, [], ◌∷◌, if◌then◌else◌}
use go_gather.Base.Text.{Text, text_eq, codes, has_any_prefix, contains, contains_any, has_suffix}
use go_gather.Path.{is_empty}
use go_gather.Url.Parse.{Url, parse_url, hostname, to_lower}
use go_gather.Exec.{Result, ok, err, is_ok}
use go_gather.Os.{World, Env, stat}

-- `FileGatherer.Matcher`. A look at the file tree decides on a URI without a known prefix.
unfoldable pub file_matcher : Env → Text → World → Bool × World
unfolding has_any_prefix stat
file_matcher env uri w =
    if has_any_prefix uri
      (codes "file://" ∷ codes "file::" ∷ codes "/" ∷ codes "./" ∷ codes "../" ∷ [])
    then (true, w)
    else let (r, w') = stat env uri w in (is_ok r, w')

-- `GitGatherer.Matcher`
unfoldable pub git_matcher : Text → Bool
unfolding has_any_prefix contains contains_any has_suffix
git_matcher uri =
    if has_any_prefix uri (codes "git@" ∷ codes "git://" ∷ codes "git::" ∷ [])
    then true
    else if contains uri (codes "::")
    then false
    else contains_any uri (codes "github.com" ∷ codes "gitlab.com" ∷ codes "bitbucket.org" ∷ [])
      || has_suffix uri (codes ".git")

-- `FileDetector` of detector/detector.go
unfoldable pub file_detector : Env → Text → World → Bool × World
unfolding file_matcher
file_detector = file_matcher

-- `GitDetector`
unfoldable pub git_detector : Text → Bool
unfolding git_matcher
git_detector = git_matcher

-- The host is a vendor of git hosting, or below one.
unfoldable pub is_vendor : Text → List Text → Bool
unfolding text_eq has_suffix
is_vendor h [] = false
is_vendor h (v ∷ vs) = if text_eq h v || has_suffix h (b'.' ∷ v) then true else is_vendor h vs

unfoldable pub http_url : Url → Bool
unfolding text_eq hostname to_lower is_empty is_vendor
http_url u =
    let host = to_lower (hostname u) in
    if not (text_eq u.scheme (codes "http")) && not (text_eq u.scheme (codes "https"))
    then false
    else if is_empty host
    then false
    else not (is_vendor host (codes "github.com" ∷ codes "gitlab.com" ∷ codes "bitbucket.org" ∷ []))

abbrev pub if_parsed : Result Url → (Url → Bool) → Bool
if_parsed (ok u) f = f u
if_parsed (err _) f = false

-- `HTTPGatherer.Matcher`. The scheme of a parsed URL is in lower case.
unfoldable pub http_matcher : Text → Bool
unfolding parse_url http_url
http_matcher uri = if_parsed (parse_url uri) http_url

-- `HttpDetector`
unfoldable pub http_detector : Text → Bool
unfolding http_matcher
http_detector = http_matcher
