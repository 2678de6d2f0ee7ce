-- ===== src/Git/Gather.antt =====
-- `GitGatherer.Gather` of gather/git/git.go, with go-git as a parameter.
use go_gather.Base.{ℕ, Bool, false, not, ◌&&◌, Option, none, some, List, [], if◌then◌else◌}
use go_gather.Base.Text.{Text, codes, text_eq}
use go_gather.Path.{is_empty, join_path}
use go_gather.Helpers.{is_path_contained}
use go_gather.Exec.{
  plain, wrap, Result, ok, err, Exec, pure, raise, lift, map_err, ◌>>=◌, ◌>>◌, wrapping,
}
use go_gather.Os.{World, Env}
use go_gather.Os.Removal.{remove_all}
use go_gather.Os.Replace.{mkdir_temp}
use go_gather.Dirs.Rooted.{Root, copy_dir_confined}
use go_gather.Git.Source.{Source, process_url}
use go_gather.Git.Atoi.{atoi}

pub record CloneOptions : Type 0 where
  pub url : Text
  pub insecure_skip_tls : Bool
  pub reference_name : Text
  pub depth : ℕ

-- What the code calls of go-git and git-urls. A clone and a checkout change the disk.
pub record GoGit : Type 1 where
  pub Repository : Type 0
  pub Worktree : Type 0
  pub Hash : Type 0
  pub parse : Text → Result Text
  pub is_hash : Text → Bool
  pub plain_clone : Text → CloneOptions → Exec World Repository
  pub resolve_revision : Repository → Text → Exec World Hash
  pub worktree : Repository → Exec World Worktree
  pub checkout : Worktree → Hash → Exec World (Unit {0})
  pub stat_file : Worktree → Text → Exec World (Unit {0})
  pub head : Repository → Exec World Text

-- What the code asks of the system: the paths that `os.MkdirTemp` tries, what `os.OpenRoot` shows of
-- a directory, and the variable GIT_SSL_NO_VERIFY.
pub record System : Type 0 where
  pub temp_names : List Text
  pub open_root : Text → World → Result Root
  pub no_verify : Option Text

-- A deferred `RemoveAll`, whose error is dropped.
unfoldable pub finally_remove : {A : Type 0} → Env → Text → Exec World A → Exec World A
unfolding remove_all
finally_remove env p m w = let (r, w') = m w in (r, (remove_all env p w').1)

module _ (env : Env) (system : System) (git : GoGit) where
  open git use {
    Repository, parse, is_hash, plain_clone, resolve_revision, worktree, checkout, stat_file, head,
  }

  abbrev is_true : Option Text → Bool
  is_true none = false
  is_true (some s) = text_eq s (codes "true")

  abbrev depth_of : Text → Result ℕ
  depth_of depth = if is_empty depth then ok 0 else atoi depth

  unfoldable pub clone_options : Source → ℕ → CloneOptions
  unfolding is_empty text_eq
  clone_options s depth = record {
    url = s.url;
    insecure_skip_tls = is_true system.no_verify;
    reference_name = if not (is_empty s.ref) && not (is_hash s.ref) then s.ref else [];
    depth = depth;
  }

  -- The checkout of a reference, where there is one.
  unfoldable pub check_out : Text → Repository → Exec World (Unit {0})
  unfolding is_empty wrapping ◌>>=◌
  check_out ref r =
      if is_empty ref
      then pure tt
      else wrapping "error resolving ref" (resolve_revision r ref) >>= λ h.
          wrapping "error getting worktree" (worktree r) >>= λ w.
          wrapping "error checking out ref" (checkout w h)

  abbrev pub missing : Result (Unit {0}) → Result (Unit {0})
  missing (ok a) = ok a
  missing (err _) = err (plain "path %s does not exist in the repository")

  unfoldable pub stat_subdir : Text → git.Worktree → Exec World (Unit {0})
  stat_subdir subdir w s = let (r, s') = stat_file w subdir s in (missing r, s')

  -- The copy of the subdirectory out of the clone in `tmp`.
  unfoldable pub copy_subdir : ℕ → Text → Text → Text → Repository → Exec World (Unit {0})
  unfolding join_path is_path_contained stat_subdir copy_dir_confined wrapping ◌>>=◌
  copy_subdir fuel tmp subdir dst r =
      if not (is_path_contained (join_path tmp subdir) tmp)
      then raise (plain "subdir %q traverses outside the repository root")
      else wrapping "error getting worktree" (worktree r) >>= λ w.
          stat_subdir subdir w
          >> wrapping "error copying directory"
              (λ s. copy_dir_confined env fuel (system.open_root tmp s) subdir dst s)

  unfoldable pub latest_commit : Repository → Exec World Text
  unfolding wrapping
  latest_commit r = wrapping "determining the HEAD reference" (head r)

  -- What is done in the temporary directory `tmp`.
  unfoldable pub gather_subdir : ℕ → Source → CloneOptions → Text → Text → Exec World Text
  unfolding check_out copy_subdir latest_commit wrapping ◌>>=◌
  gather_subdir fuel s options dst tmp = do
    r ← wrapping "error cloning repository" (plain_clone tmp options)
    _ ← check_out s.ref r
    _ ← copy_subdir fuel tmp s.subdir dst r
    latest_commit r

  unfoldable pub gather_whole : Source → CloneOptions → Text → Exec World Text
  unfolding check_out latest_commit wrapping ◌>>=◌
  gather_whole s options dst = do
    r ← wrapping "error cloning repository" (plain_clone dst options)
    _ ← check_out s.ref r
    latest_commit r

  -- Both ways; a temporary directory is removed whatever happens.
  unfoldable pub gather_source : ℕ → Source → CloneOptions → Text → Exec World Text
  unfolding is_empty gather_whole gather_subdir finally_remove mkdir_temp wrapping ◌>>=◌
  gather_source fuel s options dst =
      if is_empty s.subdir
      then gather_whole s options dst
      else wrapping "error creating temporary directory" (mkdir_temp env system.temp_names)
        >>= λ tmp. finally_remove env tmp (gather_subdir fuel s options dst tmp)

  -- `Gather`, for a context that is not done: the hash of the latest commit.
  unfoldable pub gather : ℕ → Text → Text → Exec World Text
  unfolding process_url clone_options gather_source atoi ◌>>=◌
  gather fuel src dst =
      lift (map_err (wrap "failed to process URL") (process_url parse src)) >>= λ s.
      lift (map_err (wrap "failed to parse depth") (depth_of s.depth)) >>= λ depth.
      gather_source fuel s (clone_options s depth) dst
