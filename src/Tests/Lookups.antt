-- ===== src/Tests/Lookups.antt =====
-- The registries, the magic numbers and the pinned URLs at concrete inputs.
use go_gather.Base.{◌≡◌, ◌↔◌, refl, Bool, true, false, none, some, List, [], ◌∷◌, if◌then◌else◌}
use go_gather.Base.Text.{Text, codes, has_prefix}
use go_gather.Exec.{ok}
use go_gather.Expand.Registry.{get, register, First, get-iff-First, get-register}
use go_gather.Expand.Magic.{compressed_content}
use go_gather.Gather.Format.{get_expander}
use go_gather.Gather.Matchers.{git_matcher}
use go_gather.Gather.Pinned.{oci_name, oci_pinned, git_pinned, oci_url_parse}
use go_gather.Gather.Pinned.Repin.{oci_pinned-oci_pinned}
use go_gather.Bzip2
use go_gather.Tar.Expander
use go_gather.Zip.Unzip

-- The expanders that package registry registers, by their matchers.
data Kind : Type 0 where
  bzip2 tar zip : Kind

abbrev matcher : Kind → Text → Bool
matcher bzip2 = Bzip2.matcher
matcher tar = Expander.matcher
matcher zip = Unzip.matcher

abbrev kinds : List Kind
kinds = bzip2 ∷ tar ∷ zip ∷ []

get-tar : get matcher kinds (codes "tar") ≡ some tar
unfolding get Bzip2.matcher Expander.matcher
get-tar = refl

-- The format of a `.gz` file is taken by the ZIP expander: `gzip` contains `zip`.
get_expander-gz : get_expander matcher kinds (codes "/tmp/a.gz") ≡ ok (some zip)
unfolding get_expander Bzip2.matcher Expander.matcher Unzip.matcher
get_expander-gz = refl

get-iff-First_example :
    (get matcher kinds (codes "tar") ≡ some tar) ↔ First matcher kinds (codes "tar") tar
get-iff-First_example = get-iff-First matcher kinds (codes "tar") tar

get-register_example :
    get matcher (register (bzip2 ∷ []) tar) (codes "tar")
    ≡ elim (get matcher (bzip2 ∷ []) (codes "tar")) [
      | some found ↦ some found
      | none ↦ if matcher tar (codes "tar") then some tar else none
    ]
get-register_example = get-register matcher (bzip2 ∷ []) tar (codes "tar")

-- Five bytes are enough for the magic number of xz: the rest of the buffer is zero.
compressed_content-short : compressed_content (some (0xfd ∷ 0x37 ∷ 0x7a ∷ 0x58 ∷ 0x5a ∷ [])) ≡ true
unfolding compressed_content
compressed_content-short = refl

git_matcher-magic : git_matcher (codes "http::https://github.com/a") ≡ false
unfolding git_matcher
git_matcher-magic = refl

git_pinned-scp :
    git_pinned (codes "abc") (codes "git@github.com:org/repo.git?ref=main")
    ≡ ok (codes "git::github.com/org/repo.git?ref=abc")
unfolding git_pinned
git_pinned-scp = refl

oci_url_parse-both : oci_url_parse (codes "oci::https://quay.io/r") ≡ codes "quay.io/r"
unfolding oci_url_parse
oci_url_parse-both = refl

pinned_old :
    oci_pinned (codes "sha256:1") (codes "oci://quay.io/r") ≡ ok (codes "oci::quay.io/r@sha256:1")
unfolding oci_pinned
pinned_old = refl

no_oci : has_prefix (oci_name (codes "oci://quay.io/r")) (codes "oci://") ≡ false
unfolding oci_name has_prefix
no_oci = refl

no_https : has_prefix (oci_name (codes "oci://quay.io/r")) (codes "https://") ≡ false
unfolding oci_name has_prefix
no_https = refl

oci_pinned-oci_pinned_example :
    oci_pinned (codes "sha256:2") (codes "oci::quay.io/r@sha256:1")
    ≡ oci_pinned (codes "sha256:2") (codes "oci://quay.io/r")
oci_pinned-oci_pinned_example =
    oci_pinned-oci_pinned (codes "sha256:1") (codes "sha256:2") (codes "oci://quay.io/r")
      (codes "oci::quay.io/r@sha256:1") pinned_old no_oci no_https
