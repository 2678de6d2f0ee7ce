-- ===== src/Git/Source.antt =====
-- `extractKeyFromQuery` and `processUrl` of gather/git/git.go.
use go_gather.Base.{Bool, false, not, ◌&&◌, ◌||◌, ◌==◌, leb, [], ◌∷◌, ◌++◌, if◌then◌else◌}
use go_gather.Base.Text.{
  Text, codes, has_prefix, has_suffix, trim_prefix, trim_prefixes, contains, before, after,
  replace_first,
}
use go_gather.Exec.{wrap, Result, ok, err}
use go_gather.Url.Parse.{Url, parse_url}
use go_gather.Url.Print.{print_url}
use go_gather.Url.Query.{Values, query_of, get_value, delete_key, encode}

-- Some character, which is no end of line, and a slash. A character is a byte here.
abbrev any_then_slash : Text → Bool
any_then_slash (c ∷ d ∷ _) = not (c == 10) && d == b'/'
any_then_slash _ = false

abbrev starts_with_drive : Text → Bool
starts_with_drive (c ∷ d ∷ e ∷ _) =
    ((leb b'a' c && leb c b'z') || (leb b'A' c && leb c b'Z')) && d == b':' && e == b'\\'
starts_with_drive _ = false

abbrev dotted : Text → Bool
dotted (c ∷ s) = c == b'.' && any_then_slash s
dotted [] = false

-- `filePathPattern`. Its second branch is a dot, any character and a slash.
unfoldable pub is_file_path : Text → Bool
unfolding has_prefix
is_file_path s =
    has_prefix s (codes "./")
    || dotted s
    || has_prefix s (codes "/")
    || starts_with_drive s
    || has_prefix s (codes "~/")

-- The value of a key, the query without it, and the subdirectory.
pub record Extracted : Type 0 where
  pub value : Text
  pub rest : Values
  pub subdir : Text

-- `extractKeyFromQuery`
unfoldable pub extract_key : Values → Text → Text → Extracted
unfolding get_value delete_key contains before after
extract_key q key subdir =
    let value = get_value key q in
    if contains value (codes "//")
    then record {
      value = before (codes "//") value;
      rest = delete_key key q;
      subdir = after (codes "//") value;
    }
    else record { value = value; rest = delete_key key q; subdir = subdir }

-- What `processUrl` returns.
pub record Source : Type 0 where
  pub url : Text
  pub ref : Text
  pub subdir : Text
  pub depth : Text

-- `git@host:path` becomes `https://host/path`.
unfoldable pub https_of_scp : Text → Text
unfolding has_prefix trim_prefix replace_first
https_of_scp raw =
    if has_prefix raw (codes "git@")
    then codes "https://" ++ replace_first b':' b'/' (trim_prefix raw (codes "git@"))
    else raw

-- The source with the scheme that it is parsed with.
unfoldable pub with_scheme : Text → Text
unfolding https_of_scp trim_prefixes is_file_path has_prefix
with_scheme raw =
    let bare =
      trim_prefixes (https_of_scp raw) (
        codes "git://"
        ∷ codes "git::"
        ∷ codes "https://"
        ∷ codes "file://"
        ∷ codes "file::"
        ∷ []) in
    let src = if is_file_path bare then codes "file://" ++ bare else bare in
    if has_prefix src (codes "file://") then src else codes "https://" ++ src

-- The path of the repository; `.git` is put behind it, where it is not that of a file.
unfoldable pub repository_path : Text → Text → Text
unfolding contains before has_suffix has_prefix
repository_path src path =
    let p = if contains path (codes "//") then before (codes "//") path else path in
    if not (has_suffix p (codes ".git")) && not (has_prefix src (codes "file://"))
    then p ++ codes ".git"
    else p

unfoldable pub source_of : Text → Url → Source
unfolding query_of extract_key encode repository_path contains after print_url
source_of src u =
    let ref = extract_key (query_of u) (codes "ref") [] in
    let depth = extract_key ref.rest (codes "depth") ref.subdir in
    record {
      url =
          print_url (record u { raw_query = encode depth.rest; path = repository_path src u.path });
      ref = ref.value;
      subdir = if contains u.path (codes "//") then after (codes "//") u.path else depth.subdir;
      depth = depth.value;
    }

abbrev source_parsed : Text → Result Url → Result Source
source_parsed src (ok u) = ok (source_of src u)
source_parsed src (err e) = err (wrap "failed to reparse URL" e)

abbrev reparsed : Text → Result Text → Result Source
reparsed src (ok printed) = source_parsed src (parse_url printed)
reparsed src (err e) = err (wrap "failed to parse URL" e)

-- `processUrl`. `git_parse` is `Parse` of git-urls, with its result printed.
unfoldable pub process_url : (Text → Result Text) → Text → Result Source
unfolding with_scheme source_of parse_url
process_url git_parse raw = let src = with_scheme raw in reparsed src (git_parse src)
