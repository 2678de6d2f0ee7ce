-- ===== src/Git/Safe.antt =====
-- What copying the subdirectory of a clone writes.
use go_gather.Base.{ℕ, ◌≡◌, refl, true, false, ◌⊎◌, inl, inr, Bool-cases}
use go_gather.Base.Text.{Text}
use go_gather.Path.{Loc, is_empty, locate, join_path}
use go_gather.Helpers.{is_path_contained}
use go_gather.Helpers.Climb.{ends_up, PlainlyBelow, contained-below}
use go_gather.Exec.{plain, Result, ok, err, Exec, ◌>>=◌, ◌>>◌, wrapping}
use go_gather.Exec.Keeps.{After, Keeps-bind, Keeps-wrapping}
use go_gather.Os.{World, Env, Tree, under}
use go_gather.Os.Places.{under_refl}
use go_gather.Os.Confined.{Confined, Confined-both, Confined-tree, Stays}
use go_gather.Dirs.Rooted.{Root, copy_dir_confined}
use go_gather.Dirs.Rooted.Writes.{ListsNames, copy_dir_confined-Stays}
use go_gather.Git.Gather.{GoGit, System, stat_subdir, missing, copy_subdir}

-- Asking for the worktree and for a file in it changes nothing on disk.
pub record Looks (git : GoGit) : Type 0 where
  pub worktree_tree : (r : git.Repository) (w : World) → (git.worktree r w).1.tree ≡ w.tree
  pub stat_tree : (t : git.Worktree) (p : Text) (w : World) → (git.stat_file t p w).1.tree ≡ w.tree

module _ (env : Env) (system : System) (git : GoGit) (looks : Looks git)
    (lists : (p : Text) (w : World) (r : Root) → system.open_root p w ≡ ok r → ListsNames r) where
  module _ (root : Loc) (t : Tree) where
    After-looked :
        {A : Type 0} (r : Result A) (w w' : World)
        → w'.tree ≡ w.tree
        → Confined root t w
        → After (Confined root t) (Confined root t) r w'
    After-looked (ok _) w w' e c = Confined-tree root t w w' e c
    After-looked (err _) w w' e c = Confined-tree root t w w' e c

    Stays-stat_subdir :
        (subdir : Text) (x : git.Worktree) → Stays root t (stat_subdir env system git subdir x)
    unfolding stat_subdir
    Stays-stat_subdir subdir x = record {
      at = λ w c.
          let (r, w') = git.stat_file x subdir w in
          After-looked (missing env system git r) w w' (looks.stat_tree x subdir w) c;
    }

    Stays-copied :
        (fuel : ℕ) (tmp subdir dst : Text)
        → is_empty dst ≡ false
        → under root (locate env.cwd dst) ≡ true
        → Stays root t (λ s. copy_dir_confined env fuel (system.open_root tmp s) subdir dst s)
    Stays-copied fuel tmp subdir dst full h = record {
      at = λ s c.
          (copy_dir_confined-Stays env root t fuel (system.open_root tmp s) subdir dst (lists tmp s)
              (full, h)).at
            s c;
    }

    Stays-worktree : (r : git.Repository) → Stays root t (git.worktree r)
    Stays-worktree r = record {
      at = λ w c.
          After-looked (git.worktree r w).0 w (git.worktree r w).1 (looks.worktree_tree r w) c;
    }

  refused :
      (fuel : ℕ) (tmp subdir dst : Text) (r : git.Repository) (w : World)
      → is_path_contained (join_path tmp subdir) tmp ≡ false
      → copy_subdir env system git fuel tmp subdir dst r w
        ≡ (err (plain "subdir %q traverses outside the repository root"), w)
  unfolding copy_subdir
  refused fuel tmp subdir dst r w h = rw h refl

  copied :
      (fuel : ℕ) (tmp subdir dst : Text) (r : git.Repository) (w : World)
      → is_path_contained (join_path tmp subdir) tmp ≡ true
      → is_empty dst ≡ false
      → Confined (locate env.cwd dst) w.tree (copy_subdir env system git fuel tmp subdir dst r w).1
  unfolding copy_subdir
  copied fuel tmp subdir dst r w h full =
      let root = locate env.cwd dst in
      let m : Exec World (Unit {0}) = wrapping "error getting worktree" (git.worktree r) >>= λ x.
      stat_subdir env system git subdir x
      >> wrapping "error copying directory"
          (λ s. copy_dir_confined env fuel (system.open_root tmp s) subdir dst s) in
      let k : Stays root w.tree m =
        Keeps-bind _ _ (Keeps-wrapping "error getting worktree" _ (Stays-worktree root w.tree r))
          (λ x. Keeps-bind _ _ (Stays-stat_subdir root w.tree subdir x) (λ _.
            Keeps-wrapping "error copying directory" _
              (Stays-copied root w.tree fuel tmp subdir dst full (under_refl root)))) in
      rw h
        (Confined-both root w.tree (m w).0 (m w).1 (k.at w (record { outside = λ l _. inl refl })))

-- A subdirectory is either refused, before anything changes on disk, or the path that it names in
-- the clone lies one or more plain names below the clone, and copying it changes no file and no
-- directory outside of the destination, but for missing directories on the way to it, whichever
-- calls fail and whatever links the clone holds. The temporary directory does not clean to a path
-- ending in `..`, the destination is not empty, directories list names of entries, and looking at
-- the worktree changes nothing on disk.
pub copy_subdir-Confined :
    (env : Env) (system : System) (git : GoGit) (fuel : ℕ) (tmp subdir dst : Text)
    (r : git.Repository) (w : World)
    → Looks git
    → ((p : Text) (w : World) (x : Root) → system.open_root p w ≡ ok x → ListsNames x)
    → ends_up tmp ≡ false
    → is_empty dst ≡ false
    → (copy_subdir env system git fuel tmp subdir dst r w
        ≡ (err (plain "subdir %q traverses outside the repository root"), w))
      ⊎ (PlainlyBelow (locate env.cwd tmp) (locate env.cwd (join_path tmp subdir))
          × Confined
              (locate env.cwd dst)
              w.tree
              (copy_subdir env system git fuel tmp subdir dst r w).1)
copy_subdir-Confined env system git fuel tmp subdir dst r w looks lists down full =
    elim (Bool-cases (is_path_contained (join_path tmp subdir) tmp)) [
      | inr no_way ↦ inl (refused env system git looks lists fuel tmp subdir dst r w no_way)
      | inl inside ↦ inr (
        contained-below (join_path tmp subdir) tmp env.cwd inside down,
        copied env system git looks lists fuel tmp subdir dst r w inside full,
      )
    ]
