-- ===== src/Gather/Files/Writes.antt =====
-- Where a gathered file or directory is written.
use go_gather.Base.{
  inl, ℕ, suc, ◌≡◌, refl, Bool, true, false, ◌||◌, Option, none, some, List, [], ◌∷◌, All, length,
}
use go_gather.Base.Int64
use go_gather.Base.Text.{Text}
use go_gather.Path.{is_empty, Loc, locate}
use go_gather.Helpers.{expand_path}
use go_gather.Url.Parse.{Url, parse_url}
use go_gather.Exec.{ok, Exec, pure, lift, map_err}
use go_gather.Exec.Keeps.{
  Keeps-pure, Keeps-raise, Keeps-if, Keeps-bind, Keeps-bind-lift, Keeps-wrapping, Keeps-try,
  Keeps-lift,
}
use go_gather.Os.{Node, Tree, World, Env, under}
use go_gather.Os.Places.{under_refl}
use go_gather.Os.Confined.{Confined, Stays, Stays-call, Stays-stat, Stays-open_read}
use go_gather.Expand.Magic.{
  is_compressed_file, is_tar_file, compressed_content, tar_content, or_false,
}
use go_gather.Os.Confined.{Confined-both}
use go_gather.Dirs.Trees.{Listing, walk_listed, walk_node, walk_size, home_expanded, directory_size}
use go_gather.Dirs.Trees.Writes.{ListsEntries, copy_dir-Stays, read_dir-Stays}
use go_gather.Gather.Format.{get_expander, All-get_expander}
use go_gather.Gather.Save.Writes.{Stays-save}
use go_gather.Gather.Files.{
  Expander, sized, expand_with, gather_archive, gather_file, gather_dir, gather_node, stat_error,
  gather_at,
}

module _ (env : Env) (root : Loc) (t : Tree) where
  Stays-is_compressed_file : (p : Text) → Stays root t (is_compressed_file env p)
  unfolding is_compressed_file
  Stays-is_compressed_file p =
      Keeps-bind _ _ (Keeps-wrapping _ _ (Stays-open_read root t env p)) (λ content.
        Keeps-bind _ _
          (Keeps-try _ (Stays-call root t (pure (compressed_content content)) (Keeps-pure _)))
          (λ verdict. Keeps-lift (or_false verdict) (λ _ c. c)))

  Stays-is_tar_file : (p : Text) → Stays root t (is_tar_file env p)
  unfolding is_tar_file
  Stays-is_tar_file p =
      Keeps-bind _ _ (Keeps-wrapping _ _ (Stays-open_read root t env p)) (λ content.
        Keeps-wrapping _ _ (
          Stays-call root t (lift (tar_content content))
            (Keeps-lift (tar_content content) (λ _ c. c))))

  module _ (listing : Listing) (lists : ListsEntries listing) where
    Stays-walk_listed :
        (recurse : Text → Exec World ℕ)
        → ((p : Text) → Stays root t (recurse p))
        → (p : Text) (size : ℕ) (es : List (Text × Bool))
        → Stays root t (walk_listed env listing recurse p size es)
    unfolding walk_listed
    Stays-walk_listed recurse k p size [] = Keeps-pure size
    Stays-walk_listed recurse k p size ((name, _) ∷ es) =
        Keeps-bind _ _ (k _) (λ n. Stays-walk_listed recurse k p (Int64.add size n) es)

    Stays-walk_node :
        (recurse : Text → Exec World ℕ)
        → ((p : Text) → Stays root t (recurse p))
        → (p : Text) (n : Node) → Stays root t (walk_node env listing recurse p n)
    Stays-walk_node recurse k p (Node.dir _) =
        Keeps-bind _ _ (read_dir-Stays env listing lists root t p)
          (λ es. Stays-walk_listed recurse k p 0 es)
    Stays-walk_node recurse k p (Node.file _ content) = Keeps-pure (length content)

    Stays-walk_size : (fuel : ℕ) (p : Text) → Stays root t (walk_size env listing fuel p)
    unfolding walk_size
    Stays-walk_size ℕ.zero p = Keeps-raise (λ _ c. c) _
    Stays-walk_size (suc fuel) p =
        Keeps-bind _ _ (Stays-stat root t env p)
          (λ n. Stays-walk_node (walk_size env listing fuel) (Stays-walk_size fuel) p n)

    Stays-sized :
        (registered : List Expander) (fuel : ℕ) (dst : Text)
        → Stays root t (sized env listing registered fuel dst)
    unfolding sized directory_size
    Stays-sized registered fuel dst =
        Keeps-bind _ _
          (Keeps-bind-lift (home_expanded env listing (expand_path env.home dst)) _ (λ _ c. c)
            (λ q _. Keeps-wrapping _ _ (Stays-walk_size fuel q)))
          (λ size. Keeps-pure _)

    abbrev StaysIn : Text → Expander → Type 0
    StaysIn dst e = (src : Text) (umask : ℕ) → Stays root t (e.expand src dst umask)

    module _ (registered : List Expander) (fuel : ℕ) (dst : Text) (full : is_empty dst ≡ false)
        (inside : under root (locate env.cwd dst) ≡ true) (laws : All (StaysIn dst) registered)
        (plain_path : (u : Url)
          → parse_url dst ≡ ok u
          → under root (locate env.cwd u.path) ≡ true) where
      Stays-expand_with :
          (src : Text) (o : Option Expander)
          → get_expander (λ e. e.matcher) registered src ≡ ok o
          → Stays root t (expand_with env listing registered fuel o src dst)
      unfolding expand_with
      Stays-expand_with src none found = Keeps-raise (λ _ c. c) _
      Stays-expand_with src (some e) found =
          All-get_expander (λ e. e.matcher) registered (StaysIn dst) src e laws found src 0o755

      Stays-gather_archive :
          (src : Text) → Stays root t (gather_archive env listing registered fuel src dst)
      unfolding gather_archive
      Stays-gather_archive src =
          Keeps-bind-lift (get_expander (λ e. e.matcher) registered src) _ (λ _ c. c)
            (λ o found.
              Keeps-bind _ _ (Stays-expand_with src o found) (λ _. Stays-sized registered fuel dst))

      Stays-gather_file :
          (src : Text) → Stays root t (gather_file env listing registered fuel src dst)
      unfolding gather_file
      Stays-gather_file src = Keeps-bind _ _ (Stays-is_compressed_file src) (λ compressed.
          Keeps-bind _ _ (Stays-is_tar_file src) (λ tar.
            Keeps-if (compressed || tar) _ _ (λ _. Stays-gather_archive src)
              (λ _. Stays-save env root t src dst plain_path)))

      Stays-gather_node :
          (src : Text) (n : Node) → Stays root t (gather_node env listing registered fuel src dst n)
      unfolding gather_node gather_dir
      Stays-gather_node src (Node.dir _) =
          Keeps-bind _ _
            (Keeps-wrapping "failed to copy directory" _
              (copy_dir-Stays env listing lists root t fuel src dst (full, inside)))
            (λ _. Stays-sized registered fuel dst)
      Stays-gather_node src (Node.file _ _) = Stays-gather_file src

      Stays-gather_at : (src : Text) → Stays root t (gather_at env listing registered fuel src dst)
      unfolding gather_at
      Stays-gather_at src = Keeps-bind _ _ (Keeps-try _ (Stays-stat root t env src)) (λ seen.
          Keeps-bind _ _
            (Keeps-lift (map_err (stat_error env listing registered fuel) seen) (λ _ c. c))
            (λ info. Stays-gather_node src info))

-- The law of an expander for a destination: it stays below it.
abbrev pub StaysBelow : Env → Text → Expander → Type 0
StaysBelow env dst e =
    (t : Tree) (src : Text) (umask : ℕ) → Stays (locate env.cwd dst) t (e.expand src dst umask)

-- Whatever the source is and whichever calls fail, `gather_at` changes no file and no directory
-- outside of the destination, but for missing directories on the way to it, where every registered
-- expander keeps to that law. The destination is not empty, the path that it has as a URL leads
-- below it, and directories list names of entries.
pub gather_at-Confined :
    (env : Env) (listing : Listing) (registered : List Expander) (fuel : ℕ) (src dst : Text)
    (w : World)
    → ListsEntries listing
    → All (StaysBelow env dst) registered
    → is_empty dst ≡ false
    → ((u : Url) → parse_url dst ≡ ok u → under (locate env.cwd dst) (locate env.cwd u.path) ≡ true)
    → Confined (locate env.cwd dst) w.tree (gather_at env listing registered fuel src dst w).1
gather_at-Confined env listing registered fuel src dst w lists laws full plain_path =
    let root = locate env.cwd dst in
    let m = gather_at env listing registered fuel src dst in
    Confined-both root w.tree (m w).0 (m w).1 (
      (Stays-gather_at env root w.tree listing lists registered fuel dst full (under_refl root)
          (laws_at w.tree registered laws) plain_path src).at
        w (record { outside = λ l _. inl refl }))
  where
    laws_at :
        (t : Tree) (es : List Expander)
        → All (StaysBelow env dst) es
        → All
            (λ e. (src : Text) (umask : ℕ) → Stays (locate env.cwd dst) t (e.expand src dst umask))
            es
    laws_at t [] _ = tt
    laws_at t (e ∷ es) (l, ls) = (l t, laws_at t es ls)
