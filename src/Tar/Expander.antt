-- ===== src/Tar/Expander.antt =====
-- `TarExpander` of expand/tar/tar.go: `Expand` and `Matcher`.
use go_gather.Base.{Bool, ◌||◌, Option, List, if◌then◌else◌}
use go_gather.Base.Text.{Text, codes, contains}
use go_gather.Helpers.{expand_path}
use go_gather.Exec.{plain, Result, ok, err, Exec, raise, lift, ◌>>=◌, wrapping, try}
use go_gather.Os.{Bytes, World, Env, stat, open_read}
use go_gather.Expand.Limits.{ExpandOptions, Limits, effective}
use go_gather.Expand.Cleanup.{deferring_removal, was_missing, expanded}
use go_gather.Tar.Untar.{Event, SeenDirs, untar}

-- The readers of the packages compress/gzip, compress/bzip2 and github.com/google/safearchive/tar,
-- over readers of an unknown type, with what the code gets from them.
pub record Codecs : Type 1 where
  pub Reader : Type 0
  pub input : Option Bytes → Reader
  pub gzip_reader : Reader → Result Reader
  pub bzip2_reader : Reader → Reader
  pub tar_events : Reader → List Event

-- The error of `os.Open` is replaced, not wrapped.
unfoldable pub opened_source : Result (Option Bytes) → Result (Option Bytes)
opened_source (ok content) = ok content
opened_source (err _) = err (plain "failed to open source file: %s")

-- `Matcher`
unfoldable pub matcher : Text → Bool
unfolding contains
matcher file_name =
    contains file_name (codes "tar")
    || contains file_name (codes "tgz")
    || contains file_name (codes "tbz2")

module _ (env : Env) (codecs : Codecs) (order : SeenDirs → SeenDirs) where
  open codecs use {Reader, input, gzip_reader, bzip2_reader, tar_events}

  unfoldable pub extract_tar_bz : Reader → Text → Limits → Exec World (Unit {0})
  unfolding untar
  extract_tar_bz r dst limits = untar env order dst limits (tar_events (bzip2_reader r))

  unfoldable pub untar_gzip : Result Reader → Text → Limits → Exec World (Unit {0})
  unfolding untar
  untar_gzip (ok r) dst limits = untar env order dst limits (tar_events r)
  untar_gzip (err e) dst limits = raise (plain "failed to create gzip reader: %s")

  unfoldable pub extract_tar_gz : Reader → Text → Limits → Exec World (Unit {0})
  unfolding untar_gzip
  extract_tar_gz r dst limits = untar_gzip (gzip_reader r) dst limits

  -- The `switch` on the name of the source.
  unfoldable pub extract : Text → Reader → Text → Limits → Exec World (Unit {0})
  unfolding extract_tar_bz extract_tar_gz untar contains
  extract src r dst limits =
      if contains src (codes "tar.gz") || contains src (codes "tgz")
      then extract_tar_gz r dst limits
      else if contains src (codes "tar.bz2") || contains src (codes "tbz2")
      then extract_tar_bz r dst limits
      else untar env order dst limits (tar_events r)

  -- The body behind the two calls of `ExpandPath`.
  unfoldable pub expand_at : ExpandOptions → Text → Text → Exec World (Unit {0})
  unfolding extract opened_source was_missing effective deferring_removal open_read stat wrapping
      try ◌>>=◌
  expand_at options src dst = do
    opened ← try (open_read env src)
    content ← lift (opened_source opened)
    seen ← try (stat env dst)
    deferring_removal env dst (was_missing seen) (
        wrapping "failed to extract tar archive"
          (extract src (input content) dst (effective options)))

  -- `Expand`
  unfoldable pub expand : ExpandOptions → Text → Text → Exec World (Unit {0})
  unfolding expand_at expanded expand_path ◌>>=◌
  expand options src dst = do
    src' ← lift (expanded "failed to expand source path" (expand_path env.home src))
    dst' ← lift (expanded "failed to expand destination path" (expand_path env.home dst))
    expand_at options src' dst'
