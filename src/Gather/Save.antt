-- ===== src/Gather/Save.antt =====
-- `FileSaver.save` of gather/file/file.go.
pub mod Writes
use go_gather.Base.{ℕ, Bool, if◌then◌else◌, length}
use go_gather.Base.Text.{Text}
use go_gather.Exec.{Err, wrap, Result, ok, err, Exec, pure, lift, map_err, ◌>>=◌, wrapping, try}
use go_gather.Os.{World, Env, is_not_exist, open_read, open_trunc, close}
use go_gather.Os.Replace.{open_append}
use go_gather.Url.Parse.{Url, parse_url}
use go_gather.Gather.Copying.{copy_open}

-- `FSMetadata`, less its time.
pub record FsMetadata : Type 0 where
  pub path : Text
  pub size : ℕ

-- A deferred `Close`, whose error is returned where there is none yet.
abbrev pub closed : {A : Type 0} → Result A → Result (Unit {0}) → Result A
closed (ok a) (ok _) = ok a
closed (ok _) (err e) = err (wrap "failed to close destination file" e)
closed (err e) _ = err e

unfoldable pub returning_close : {A : Type 0} → Exec World A → Exec World A
unfolding close
returning_close m w = let (r, w') = m w in let (c, w'') = close w' in (closed r c, w'')

-- The error of `os.Open`.
abbrev pub open_error : Err → Err
open_error e =
    if is_not_exist e
    then wrap "source file does not exist" e
    else wrap "failed to open source file" e

module _ (env : Env) where
  unfoldable pub open_destination : Bool → Text → Exec World (Unit {0})
  unfolding open_append open_trunc
  open_destination append path =
      if append then open_append env path 0o755 else open_trunc env path 0o666

  -- `save`
  unfoldable pub save : Text → Text → Bool → Exec World FsMetadata
  unfolding parse_url open_read open_destination returning_close copy_open wrapping try ◌>>=◌
  save source destination append = do
    src_url ← lift (map_err (wrap "failed to parse source URI") (parse_url source))
    dst_url ← lift (map_err (wrap "failed to parse destination URI") (parse_url destination))
    let src = src_url.path
    let dst = dst_url.path
    opened ← try (open_read env src)
    _ ← lift (map_err open_error opened)
    _ ← wrapping "failed to create file" (open_destination append dst)
    returning_close (do
      content ← wrapping "failed to write to file" (copy_open env src dst)
      pure (record { path = dst; size = length content }))
