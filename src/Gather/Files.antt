-- ===== src/Gather/Files.antt =====
-- `FileGatherer.Gather` of gather/file/file.go, with the registered expanders behind an interface.
pub mod Writes
use go_gather.Base.{ℕ, Bool, ◌||◌, Option, none, some, List, [], ◌∷◌, if◌then◌else◌}
use go_gather.Base.Text.{Text, codes, trim_prefixes}
use go_gather.Helpers.{expand_path}
use go_gather.Exec.{
  Err, panic, wrap, Result, ok, err, Exec, pure, raise, lift, map_err, ◌>>=◌, ◌>>◌, wrapping, try,
}
use go_gather.Os.{Node, World, Env, is_not_exist, stat}
use go_gather.Expand.Magic.{is_compressed_file, is_tar_file}
use go_gather.Expand.Cleanup.{expanded}
use go_gather.Dirs.Trees.{Listing, copy_dir, directory_size}
use go_gather.Gather.Format.{get_expander}
use go_gather.Gather.Save.{FsMetadata, save}

-- The interface `Expander` of expand/expander.go.
pub record Expander : Type 0 where
  pub matcher : Text → Bool
  pub expand : Text → Text → ℕ → Exec World (Unit {0})

module _ (env : Env) (listing : Listing) (registered : List Expander) (fuel : ℕ) where
  -- The metadata of a directory.
  unfoldable pub sized : Text → Exec World FsMetadata
  unfolding directory_size ◌>>=◌
  sized dst =
      directory_size env listing fuel dst >>= λ size. pure (record { path = dst; size = size })

  -- A call of `Expand` on nil panics.
  unfoldable pub expand_with : Option Expander → Text → Text → Exec World (Unit {0})
  expand_with none src dst = raise panic
  expand_with (some e) src dst = e.expand src dst 0o755

  unfoldable pub gather_archive : Text → Text → Exec World FsMetadata
  unfolding get_expander expand_with sized ◌>>=◌
  gather_archive src dst = lift (get_expander (λ e. e.matcher) registered src) >>= λ e.
      expand_with e src dst >> sized dst

  -- A source that is no directory.
  unfoldable pub gather_file : Text → Text → Exec World FsMetadata
  unfolding is_compressed_file is_tar_file gather_archive save ◌>>=◌
  gather_file src dst = do
    compressed ← is_compressed_file env src
    tar ← is_tar_file env src
    if compressed || tar then gather_archive src dst else save env src dst Bool.false

  unfoldable pub gather_dir : Text → Text → Exec World FsMetadata
  unfolding copy_dir sized wrapping ◌>>=◌
  gather_dir src dst =
      wrapping "failed to copy directory" (copy_dir env listing fuel src dst) >> sized dst

  unfoldable pub gather_node : Text → Text → Node → Exec World FsMetadata
  unfolding gather_dir gather_file
  gather_node src dst (Node.dir _) = gather_dir src dst
  gather_node src dst (Node.file _ _) = gather_file src dst

  -- The error of `os.Stat`.
  abbrev pub stat_error : Err → Err
  stat_error e =
      if is_not_exist e
      then wrap "source file does not exist" e
      else wrap "failed to get file info" e

  -- `Gather` behind the two calls of `ExpandPath`.
  unfoldable pub gather_at : Text → Text → Exec World FsMetadata
  unfolding stat try gather_node ◌>>=◌
  gather_at src dst = try (stat env src) >>= λ seen.
      lift (map_err stat_error seen) >>= λ info. gather_node src dst info

  -- `Gather`, for a context that is not done.
  unfoldable pub gather : Text → Text → Exec World FsMetadata
  unfolding trim_prefixes expand_path expanded gather_at ◌>>=◌
  gather source destination =
      let prefixes = codes "file://" ∷ codes "file::" ∷ [] in
      lift (
        expanded "failed to expand source path"
          (expand_path env.home (trim_prefixes source prefixes)))
      >>= λ src.
          lift (
            expanded "failed to expand destination path"
              (expand_path env.home (trim_prefixes destination prefixes)))
          >>= λ dst. gather_at src dst
