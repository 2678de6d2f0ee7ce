-- ===== src/Gather/Copying.antt =====
-- `CopyFile` and `CopyReader` of internal/helpers/helpers.go.
use go_gather.Base.{ℕ, false, Option, some, [], ◌∷◌, if◌then◌else◌}
use go_gather.Base.Int64
use go_gather.Base.Text.{Text}
use go_gather.Path.{Loc, locate}
use go_gather.Exec.{fault, errno, Result, ok, err, Exec, pure, ◌>>=◌, wrapping}
use go_gather.Os.{Bytes, Node, World, Env, node_attr, stat, open_read, open_trunc, close, chmod}
use go_gather.Expand.Copy.{Stream}
use go_gather.Expand.Io.{limited, copy}

-- A deferred `Close` whose error is dropped.
unfoldable pub finally_close : {A : Type 0} → Exec World A → Exec World A
unfolding close
finally_close m w = let (r, w') = m w in (r, (close w').1)

-- What reads of the open file at a place find now. A directory cannot be read.
abbrev pub readable : Option Node → Result Bytes
readable (some (Node.file _ content)) = ok content
readable _ = err (errno fault)

unfoldable pub read_now : Loc → Exec World Bytes
read_now l w = (readable (w.tree l), w)

module _ (env : Env) where
  -- `io.Copy` between two open files. The source is read once the destination is open: where both
  -- are one file it is empty by then.
  unfoldable pub copy_open : Text → Text → Exec World Bytes
  unfolding read_now copy locate ◌>>=◌
  copy_open src dst = do
    content ← read_now (locate env.cwd src)
    _ ← copy (locate env.cwd dst) (content ∷ []) false
    pure content

  -- `CopyFile`; `os.Create` asks for mode 0666.
  unfoldable pub copy_file : Text → Text → Exec World (Unit {0})
  unfolding wrapping open_read open_trunc finally_close copy_open stat chmod ◌>>=◌
  copy_file src dst = do
    _ ← wrapping "could not open source file %q" (open_read env src)
    _ ← wrapping "could not create destination file %q" (open_trunc env dst 0o666)
    finally_close (do
      _ ← wrapping "failed to copy contents from %q to %q" (copy_open src dst)
      info ← wrapping "could not stat source file %q" (stat env src)
      wrapping "failed to chmod destination file %q" (chmod env dst (node_attr info).mode))

  -- The stream behind `io.LimitReader`, where the limit, an `int64`, is positive.
  unfoldable pub limited_source : ℕ → Stream → Stream
  unfolding Int64.lt limited
  limited_source file_size_limit src =
      if Int64.lt 0 file_size_limit then limited file_size_limit src.reads src.broken else src

  -- `CopyReader`
  unfoldable pub copy_reader : Stream → Text → ℕ → ℕ → Exec World (Unit {0})
  unfolding wrapping open_trunc finally_close limited_source copy chmod locate ◌>>=◌
  copy_reader src dst mode file_size_limit = do
    _ ← wrapping "failed to open file %q" (open_trunc env dst mode)
    let source = limited_source file_size_limit src
    finally_close (do
      _ ←
          wrapping "failed to copy to file %q"
            (copy (locate env.cwd dst) source.reads source.broken)
      wrapping "failed to set mode on file %q" (chmod env dst mode))
