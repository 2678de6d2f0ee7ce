-- ===== src/Dirs/Rooted.antt =====
-- `CopyDirConfined` of internal/helpers/copydir_confined.go.
pub mod Writes
pub mod Ends
use go_gather.Base.{ℕ, suc, Bool, true, false, List, [], ◌∷◌, if◌then◌else◌}
use go_gather.Base.Text.{Text}
use go_gather.Path.{join_path, locate}
use go_gather.Exec.{
  Err, plain, wrap, out_of_fuel, Result, Exec, pure, raise, lift, map_err, ◌>>=◌, ◌>>◌, wrapping,
}
use go_gather.Os.{World, Env, mkdir_all, open_trunc, chmod}
use go_gather.Expand.Copy.{Stream}
use go_gather.Expand.Io.{copy}
use go_gather.Gather.Copying.{finally_close}

pub data Kind : Type 0 where
  link directory other : Kind

-- What the code looks at of a `FileInfo`: the kind, and the permission bits of the mode.
pub record Info : Type 0 where
  pub kind : Kind
  pub mode : ℕ

-- An open file or directory of a root: the names that `ReadDir` returns, and what reads find.
pub record Handle : Type 0 where
  pub entries : Result (List Text)
  pub content : Stream

-- An `os.Root`: it resolves paths with their symbolic links, and refuses those that leave it. What
-- it shows does not change while it is copied.
pub record Root : Type 0 where
  pub lstat : Text → Result Info
  pub stat : Text → Result Info
  pub open_in : Text → Result Handle

module _ (env : Env) (r : Root) where
  -- `copyFileConfined`
  unfoldable pub copy_file_confined : Text → Text → ℕ → Exec World (Unit {0})
  unfolding wrapping open_trunc finally_close copy chmod locate ◌>>=◌
  copy_file_confined rel dst mode =
      lift (map_err (wrap "failed to open file %q within root") (r.open_in rel)) >>= λ src.
      wrapping "failed to create destination file %q" (open_trunc env dst mode)
      >> finally_close (
          wrapping "failed to copy contents to %q"
            (copy (locate env.cwd dst) src.content.reads src.content.broken)
          >> wrapping "failed to chmod destination file %q" (chmod env dst mode))

  -- A symbolic link whose target is known.
  unfoldable pub copy_target : Text → Text → Info → Exec World (Unit {0})
  unfolding copy_file_confined
  copy_target rel dst target = elim target.kind [
    | directory ↦ raise (plain "refusing to copy directory symlink %q")
    | _ ↦ copy_file_confined rel dst target.mode
  ]

  -- The `switch` on the kind of an entry; `recurse` copies a directory.
  unfoldable pub copy_kind :
      (Text → Text → ℕ → Exec World (Unit {0})) → Kind → Text → Text → ℕ → Exec World (Unit {0})
  unfolding copy_target copy_file_confined ◌>>=◌
  copy_kind recurse link rel dst mode =
      lift (map_err (wrap "failed to resolve symlink %q within root") (r.stat rel)) >>= λ target.
      copy_target rel dst target
  copy_kind recurse directory rel dst mode = recurse rel dst mode
  copy_kind recurse other rel dst mode = copy_file_confined rel dst mode

  -- The loop over the entries of a directory.
  unfoldable pub copy_entries :
      (Text → Text → ℕ → Exec World (Unit {0})) → Text → Text → List Text → Exec World (Unit {0})
  unfolding copy_kind join_path ◌>>=◌
  copy_entries recurse rel dst [] = pure tt
  copy_entries recurse rel dst (name ∷ names) =
      (lift (map_err (wrap "failed to lstat %q within root") (r.lstat (join_path rel name)))
        >>= λ info. copy_kind recurse info.kind (join_path rel name) (join_path dst name) info.mode)
      >> copy_entries recurse rel dst names

  -- The names in a directory, behind `Open`.
  unfoldable pub names_in : Text → Exec World (List Text)
  unfolding ◌>>=◌
  names_in rel =
      lift (map_err (wrap "failed to open directory %q within root") (r.open_in rel)) >>= λ d.
      lift (map_err (wrap "failed to read directory %q") d.entries)

  -- `copyDirConfined`, for a number of nested directories.
  unfoldable pub copy_dir_in : ℕ → Text → Text → ℕ → Exec World (Unit {0})
  unfolding wrapping mkdir_all chmod names_in copy_entries ◌>>=◌
  copy_dir_in ℕ.zero rel dst mode = raise out_of_fuel
  copy_dir_in (suc fuel) rel dst mode =
      wrapping "failed to create destination directory %q" (mkdir_all env dst mode)
      >> wrapping "failed to chmod destination directory %q" (chmod env dst mode)
      >> names_in rel
      >>= λ names. copy_entries (copy_dir_in fuel) rel dst names

  -- The top of the source must be a directory itself.
  unfoldable pub copy_top : ℕ → Kind → Text → Text → ℕ → Exec World (Unit {0})
  unfolding copy_dir_in
  copy_top fuel link rel dst mode = raise (plain "refusing to copy symlinked subdirectory %q")
  copy_top fuel directory rel dst mode = copy_dir_in fuel rel dst mode
  copy_top fuel other rel dst mode = raise (plain "source %q is not a directory")

-- `CopyDirConfined`, behind `os.OpenRoot`.
unfoldable pub copy_dir_confined : Env → ℕ → Result Root → Text → Text → Exec World (Unit {0})
unfolding copy_top ◌>>=◌
copy_dir_confined env fuel opened rel dst =
    lift (map_err (wrap "failed to open confinement root %q") opened) >>= λ r.
    lift (map_err (wrap "failed to lstat %q within root") (r.lstat rel)) >>= λ info.
    copy_top env r fuel info.kind rel dst info.mode
