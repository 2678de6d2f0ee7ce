-- ===== src/Gather/Pinned.antt =====
-- `GetPinnedURL` of the four metadata types, and `ociURLParse` of gather/oci/oci.go.
pub mod Repin
use go_gather.Base.{Bool, List, [], ◌∷◌, ◌++◌, if◌then◌else◌}
use go_gather.Base.Text.{
  Text, codes, has_prefix, trim_prefixes, before, after, contains, replace_first,
}
use go_gather.Path.{is_empty}
use go_gather.Exec.{plain, Result, ok, err}

-- `FSMetadata.GetPinnedURL`
unfoldable pub file_pinned : Text → Result Text
unfolding is_empty trim_prefixes
file_pinned u =
    if is_empty u
    then err (plain "empty file path")
    else ok (codes "file::" ++ trim_prefixes u (codes "file::" ∷ codes "file://" ∷ []))

-- `HTTPMetadata.GetPinnedURL`
unfoldable pub http_pinned : Text → Result Text
unfolding is_empty trim_prefixes
http_pinned u =
    if is_empty u
    then err (plain "empty URL")
    else ok (
        codes "http::"
        ++ trim_prefixes u (codes "http://" ∷ codes "https://" ∷ codes "http::" ∷ []))

-- `git@host:path` becomes `host/path`.
unfoldable pub scp_path : Text → Text
unfolding has_prefix before after replace_first
scp_path u =
    if has_prefix u (codes "git@")
    then replace_first b':' b'/' (before (codes "git@") (after (codes "git@") u))
    else u

-- `GitMetadata.GetPinnedURL`
unfoldable pub git_pinned : Text → Text → Result Text
unfolding is_empty trim_prefixes before scp_path
git_pinned commit u =
    if is_empty u
    then err (plain "empty URL")
    else if is_empty commit
    then err (plain "latest commit not set")
    else ok (
        codes "git::"
        ++ (before (codes "?ref=")
              (scp_path (trim_prefixes u (codes "git::" ∷ codes "git://" ∷ codes "https://" ∷ [])))
            ++ (codes "?ref=" ++ commit)))

-- What `OCIMetadata.GetPinnedURL` keeps of a URL.
unfoldable pub oci_name : Text → Text
unfolding before trim_prefixes
oci_name u =
    before (codes "@") (trim_prefixes u (codes "oci::" ∷ codes "oci://" ∷ codes "https://" ∷ []))

-- `OCIMetadata.GetPinnedURL`
unfoldable pub oci_pinned : Text → Text → Result Text
unfolding is_empty oci_name
oci_pinned digest u =
    if is_empty u
    then err (plain "empty URL")
    else if is_empty digest
    then err (plain "image digest not set")
    else ok (codes "oci::" ++ (oci_name u ++ (b'@' ∷ digest)))

-- `ociURLParse`: the second part of a split at `::`, and what is behind its `://`.
unfoldable pub oci_url_parse : Text → Text
unfolding contains before after
oci_url_parse source =
    let s =
      if contains source (codes "::")
      then before (codes "::") (after (codes "::") source)
      else source in
    if contains s (codes "://") then after (codes "://") s else s
