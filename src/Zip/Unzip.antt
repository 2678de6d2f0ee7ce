-- ===== src/Zip/Unzip.antt =====
-- `ZipExpander` of expand/zip/zip.go: `Expand`, `extractFile` and `Matcher`.
use go_gather.Base.{ℕ, Bool, not, Option, List, [], ◌∷◌, if◌then◌else◌, length}
use go_gather.Base.Int64
use go_gather.Base.Text.{Text, codes, contains}
use go_gather.Path.{join_path, dir, locate}
use go_gather.Helpers.{is_path_contained, expand_path}
use go_gather.Exec.{
  plain, wrap, Result, ok, err, Exec, pure, raise, lift, map_err, ◌>>=◌, ◌>>◌, wrapping, try,
}
use go_gather.Os.{Bytes, World, Env, stat, open_read, mkdir_all, open_trunc}
use go_gather.Expand.Limits.{ExpandOptions, Limits, effective}
use go_gather.Expand.Cleanup.{deferring_removal, was_missing, expanded}
use go_gather.Expand.Copy.{Stream, Extraction, on_disk, deferring_close, copy_bounded}

-- An entry of the central directory, as `zip.File` and its `FileInfo` show it. The size is the
-- pattern of the `int64` that `FileInfo().Size()` makes of the declared 64-bit size. `body` is what
-- `Open` returns.
pub record ZipFile : Type 0 where
  pub name : Text
  pub is_dir : Bool
  pub size : ℕ
  pub mode : ℕ
  pub body : Result Stream

-- `Matcher`
unfoldable pub matcher : Text → Bool
unfolding contains
matcher extension = contains extension (codes "zip")

module _ (env : Env) where
  -- `extractFile`, behind `f.Open`
  unfoldable pub extract_stream : Text → ℕ → Stream → ℕ → Exec Extraction (Unit {0})
  unfolding wrapping on_disk open_trunc deferring_close copy_bounded ◌>>=◌
  extract_stream path mode src max_total =
      wrapping "failed to create file %q" (on_disk (open_trunc env path mode))
      >> deferring_close
          (wrapping "failed to extract file %q" (copy_bounded max_total (locate env.cwd path) src))

  -- `extractFile`
  unfoldable pub extract_file : ZipFile → Text → ℕ → Exec Extraction (Unit {0})
  unfolding extract_stream ◌>>=◌
  extract_file f path max_total =
      lift (map_err (wrap "failed to open source file %q") f.body) >>= λ src.
      extract_stream path f.mode src max_total

-- The checks at the head of the loop.
unfoldable pub check_file : Text → Limits → ZipFile → Result (Unit {0})
unfolding Int64.lt is_path_contained join_path
check_file dst limits f =
    if Int64.lt limits.max_entry f.size
    then err (plain "zip entry %q size %d exceeds the per-entry limit of %d bytes")
    else if not (is_path_contained (join_path dst f.name) dst)
    then err (plain "illegal file path: %s")
    else ok tt

module _ (env : Env) (dst : Text) (umask : ℕ) (limits : Limits) where
  -- What is done for a file that has passed the checks.
  unfoldable pub place_file : ZipFile → Text → Exec Extraction (Unit {0})
  unfolding mkdir_all on_disk wrapping extract_file dir ◌>>=◌
  place_file f path =
      if f.is_dir
      then wrapping "failed to create directory %q" (on_disk (mkdir_all env path umask))
      else wrapping "failed to create directory %q" (on_disk (mkdir_all env (dir path) umask))
        >> extract_file env f path limits.max_total

  -- The loop over `archive.File`
  unfoldable pub unzip_loop : List ZipFile → Exec Extraction (Unit {0})
  unfolding check_file place_file join_path ◌>>=◌
  unzip_loop [] = pure tt
  unzip_loop (f ∷ files) =
      lift (check_file dst limits f) >> place_file f (join_path dst f.name) >> unzip_loop files

  -- The limit on the number of entries, before anything is extracted.
  unfoldable pub unzip_body : List ZipFile → Exec Extraction (Unit {0})
  unfolding Int64.lt unzip_loop
  unzip_body files =
      if Int64.lt limits.files (length files)
      then raise (plain "zip archive contains %d files, exceeding the limit of %d")
      else unzip_loop files

  -- The running total starts at zero.
  unfoldable pub unzip : List ZipFile → Exec World (Unit {0})
  unfolding unzip_body
  unzip files w = let (r, e) = unzip_body files (record { world = w; copied = 0 }) in (r, e.world)

-- `zip.OpenReader` of github.com/google/safearchive/zip, behind the `os.Open` that it makes.
abbrev pub ZipReader : Type 0
ZipReader = Option Bytes → Result (List ZipFile)

module _ (env : Env) (reader : ZipReader) where
  unfoldable pub open_archive : Text → Exec World (List ZipFile)
  unfolding open_read ◌>>=◌
  open_archive src = open_read env src >>= λ content. lift (reader content)

  -- The body behind the two calls of `ExpandPath`.
  unfoldable pub expand_at : ExpandOptions → Text → Text → ℕ → Exec World (Unit {0})
  unfolding open_archive wrapping effective stat try was_missing deferring_removal unzip ◌>>=◌
  expand_at options src dst umask = do
    files ← wrapping "failed to open zip file %q" (open_archive src)
    seen ← try (stat env dst)
    deferring_removal env dst (was_missing seen) (unzip env dst umask (effective options) files)

  -- `Expand`
  unfoldable pub expand : ExpandOptions → Text → Text → ℕ → Exec World (Unit {0})
  unfolding expand_at expanded expand_path ◌>>=◌
  expand options src dst umask = do
    src' ← lift (expanded "failed to expand source path" (expand_path env.home src))
    dst' ← lift (expanded "failed to expand destination path" (expand_path env.home dst))
    expand_at options src' dst' umask
