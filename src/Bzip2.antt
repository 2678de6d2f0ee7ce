-- ===== src/Bzip2.antt =====
-- `Bzip2Expander` of expand/bzip2/bzip2.go: `Expand` and `Matcher`.
pub mod Bound
pub mod Kept
use go_gather.Base.{ℕ, Bool, not, ◌&&◌, ◌||◌, Option, List, if◌then◌else◌}
use go_gather.Base.Int64
use go_gather.Base.Text.{Text, codes, contains, trim_suffix}
use go_gather.Path.{join_path, base, ext, locate}
use go_gather.Helpers.{expand_path}
use go_gather.Exec.{Exec, lift, ◌>>=◌, ◌>>◌, wrapping}
use go_gather.Os.{Bytes, World, Env, open_read, mkdir_all, close, chmod}
use go_gather.Os.Replace.{create_temp, rename, or_abandon}
use go_gather.Expand.Limits.{ExpandOptions, effective}
use go_gather.Expand.Copy.{Stream, copy_bounded}
use go_gather.Expand.Cleanup.{expanded}

-- `Matcher`
unfoldable pub matcher : Text → Bool
unfolding contains
matcher extension =
    (contains extension (codes "bz2") || contains extension (codes "bzip2"))
    && not (contains extension (codes "tar"))

-- The smaller of the limits on an entry and on the total; neither is negative.
unfoldable pub limit_of : ExpandOptions → ℕ
unfolding effective Int64.lt
limit_of options =
    let limits = effective options in
    if Int64.lt limits.max_total limits.max_entry then limits.max_total else limits.max_entry

-- `bzip2.NewReader` of compress/bzip2, as the reads that the copy makes of it.
abbrev pub Decoder : Type 0
Decoder = Option Bytes → Stream

module _ (env : Env) (decoder : Decoder) (names : List Text) where
  -- The copy into the temporary file, with a running total of its own.
  unfoldable pub decode : Text → Stream → ℕ → Exec World (Unit {0})
  unfolding copy_bounded locate
  decode tmp src limit w =
      let (r, e) = copy_bounded limit (locate env.cwd tmp) src (record { world = w; copied = 0 }) in
      (r, e.world)

  -- From the open temporary file to the finished output.
  unfoldable pub fill : Text → Text → Stream → ℕ → Exec World (Unit {0})
  unfolding or_abandon wrapping decode close chmod rename ◌>>=◌
  fill tmp path src limit =
      or_abandon env tmp Bool.true
        (wrapping "failed to decompress bzip2 file" (decode tmp src limit))
      >> or_abandon env tmp Bool.false (
          wrapping "failed to close temporary file" close
          >> wrapping "failed to set output file mode" (chmod env tmp 0o644)
          >> wrapping "failed to move decompressed file into place" (rename env tmp path))

  unfoldable pub output_path : Text → Text → Text
  unfolding join_path trim_suffix base ext
  output_path src dst = join_path dst (trim_suffix (base src) (ext src))

  -- The body behind the two calls of `ExpandPath`.
  unfoldable pub expand_at : ExpandOptions → Text → Text → ℕ → Exec World (Unit {0})
  unfolding wrapping open_read mkdir_all create_temp fill output_path limit_of ◌>>=◌
  expand_at options src dst umask = do
    content ← wrapping "failed to open bzip2 file %q" (open_read env src)
    _ ← wrapping "failed to create directory %q" (mkdir_all env dst umask)
    tmp ← wrapping "failed to create temporary file in %q" (create_temp env dst names)
    fill tmp (output_path src dst) (decoder content) (limit_of options)

  -- `Expand`
  unfoldable pub expand : ExpandOptions → Text → Text → ℕ → Exec World (Unit {0})
  unfolding expand_at expanded expand_path ◌>>=◌
  expand options src dst umask = do
    src' ← lift (expanded "failed to expand source path" (expand_path env.home src))
    dst' ← lift (expanded "failed to expand destination path" (expand_path env.home dst))
    expand_at options src' dst' umask
