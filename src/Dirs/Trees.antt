-- ===== src/Dirs/Trees.antt =====
-- `CopyDir` and `GetDirectorySize` of internal/helpers/helpers.go.
pub mod Writes
pub mod Sizes
use go_gather.Base.{
  ℕ, suc, Bool, true, false, Option, none, some, List, [], ◌∷◌, if◌then◌else◌, length,
}
use go_gather.Base.Int64
use go_gather.Base.Text.{Text}
use go_gather.Path.{clean, join_path, Loc}
use go_gather.Helpers.{expand_path}
use go_gather.Exec.{
  not_dir, errno, Err, plain, wrap, out_of_fuel, Result, ok, err, Exec, pure, raise, lift, map_err,
  ◌>>=◌, ◌>>◌, wrapping, try,
}
use go_gather.Os.{
  Node, Tree, World, Env, node_attr, is_dir_node, is_not_exist, at_path, call, look, stat,
  mkdir_all,
}
use go_gather.Gather.Copying.{copy_file}

-- The names in a directory of a tree, in the order of `os.ReadDir`.
abbrev pub Listing : Type 0
Listing = Tree → Loc → List Text

abbrev is_dir_at : Option Node → Bool
is_dir_at none = false
is_dir_at (some n) = is_dir_node n

-- The entries, and whether each is a directory.
abbrev pub with_kinds : Tree → Loc → List Text → List (Text × Bool)
with_kinds t l [] = []
with_kinds t l (n ∷ ns) = (n, is_dir_at (t (n ∷ l))) ∷ with_kinds t l ns

abbrev listed : Listing → Tree → Loc → Result Node → Result (List (Text × Bool))
listed listing t l (ok (Node.dir _)) = ok (with_kinds t l (listing t l))
listed listing t l (ok (Node.file _ _)) = err (errno not_dir)
listed listing t l (err e) = err e

module _ (env : Env) (listing : Listing) where
  -- `os.ReadDir`
  unfoldable pub read_dir : Text → Exec World (List (Text × Bool))
  unfolding at_path call look
  read_dir p = at_path env p (λ l. call (λ w. (listed listing w.tree l (look l w), w)))

  -- The destination, made where it is missing.
  unfoldable pub make_destination : Text → ℕ → Result Node → Exec World (Unit {0})
  unfolding wrapping mkdir_all
  make_destination dst mode (ok _) = pure tt
  make_destination dst mode (err e) =
      if is_not_exist e
      then wrapping "failed to create destination directory %q" (mkdir_all env dst mode)
      else raise (wrap "failed to determine if directory %q exists" e)

  -- The loop over the entries; `recurse` copies a directory.
  unfoldable pub copy_listed :
      (Text → Text → Exec World (Unit {0}))
      → Text
      → Text
      → List (Text × Bool)
      → Exec World (Unit {0})
  unfolding join_path copy_file ◌>>=◌
  copy_listed recurse src dst [] = pure tt
  copy_listed recurse src dst ((name, is_dir) ∷ entries) =
      (if is_dir
        then recurse (join_path src name) (join_path dst name)
        else copy_file env (join_path src name) (join_path dst name))
      >> copy_listed recurse src dst entries

  -- What is done for a source that is a directory, both paths cleaned.
  unfoldable pub copy_into :
      (Text → Text → Exec World (Unit {0})) → Text → Text → Node → Exec World (Unit {0})
  unfolding stat try make_destination read_dir copy_listed wrapping ◌>>=◌
  copy_into recurse src dst (Node.file _ _) = raise (plain "source %q is not a directory")
  copy_into recurse src dst (Node.dir a) =
      (try (stat env dst) >>= λ seen. make_destination dst a.mode seen)
      >> wrapping "failed to read directory contents of %q" (read_dir src)
      >>= λ entries. copy_listed recurse src dst entries

  -- `CopyDir`, for a number of nested directories.
  unfoldable pub copy_dir : ℕ → Text → Text → Exec World (Unit {0})
  unfolding clean stat wrapping copy_into ◌>>=◌
  copy_dir ℕ.zero src dst = raise out_of_fuel
  copy_dir (suc fuel) src dst =
      wrapping "error getting source directory info" (stat env (clean src)) >>= λ info.
      copy_into (copy_dir fuel) (clean src) (clean dst) info

  -- The loop of `filepath.Walk` over the names of a directory; `recurse` walks one of them.
  unfoldable pub walk_listed : (Text → Exec World ℕ) → Text → ℕ → List (Text × Bool) → Exec World ℕ
  unfolding join_path Int64.add ◌>>=◌
  walk_listed recurse p size [] = pure size
  walk_listed recurse p size ((name, _) ∷ entries) =
      recurse (join_path p name) >>= λ n. walk_listed recurse p (Int64.add size n) entries

  abbrev pub walk_node : (Text → Exec World ℕ) → Text → Node → Exec World ℕ
  walk_node recurse p (Node.dir _) = read_dir p >>= λ entries. walk_listed recurse p 0 entries
  walk_node recurse p (Node.file a content) = pure (length content)

  -- `filepath.Walk` with the function that adds up the sizes; without links `Lstat` is `Stat`.
  unfoldable pub walk_size : ℕ → Text → Exec World ℕ
  unfolding stat read_dir walk_listed ◌>>=◌
  walk_size ℕ.zero p = raise out_of_fuel
  walk_size (suc fuel) p = stat env p >>= λ n. walk_node (walk_size fuel) p n

  abbrev pub home_expanded : Option Text → Result Text
  home_expanded none =
      err (wrap "failed to expand directory path %q" (plain "could not get user home directory"))
  home_expanded (some p) = ok p

  -- `GetDirectorySize`
  unfoldable pub directory_size : ℕ → Text → Exec World ℕ
  unfolding expand_path walk_size wrapping ◌>>=◌
  directory_size fuel p = lift (home_expanded (expand_path env.home p)) >>= λ q.
      wrapping "failed to walk directory %q" (walk_size fuel q)
