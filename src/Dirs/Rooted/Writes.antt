-- ===== src/Dirs/Rooted/Writes.antt =====
-- Where the confined copy of a directory writes.
use go_gather.Base.{ℕ, suc, ◌≡◌, refl, true, false, inl, List, [], ◌∷◌, All}
use go_gather.Base.Text.{Text}
use go_gather.Path.{is_empty, join_path, Loc, locate}
use go_gather.Exec.{wrap, Result, ok, Exec, lift, map_err, ◌>>◌, wrapping}
use go_gather.Exec.Keeps.{
  Keeps-pure, Keeps-raise, Keeps-bind, Keeps-bind_value, Keeps-bind-lift, Keeps-wrapping,
  Keeps-lift, ok_of_bind, ok_of_map_err,
}
use go_gather.Os.{World, Env, Tree, under, mkdir_all, chmod}
use go_gather.Os.Places.{under_refl}
use go_gather.Os.Confined.{Confined, Stays, Stays-mkdir_all, Stays-open_trunc, Stays-chmod}
use go_gather.Dirs.Names.{EntryName, Inside, child-Inside}
use go_gather.Os.Confined.{Confined-both}
use go_gather.Dirs.Stays.{Stays-finally_close, Stays-copy}
use go_gather.Dirs.Rooted.{
  Kind, link, directory, other, Handle, Root, copy_file_confined, copy_target, copy_kind,
  copy_entries, names_in, copy_dir_in, copy_top, copy_dir_confined,
}

-- `ReadDir` returns names of entries.
abbrev pub ListsNames : Root → Type 0
ListsNames r =
    (rel : Text) (d : Handle) (names : List Text)
    → r.open_in rel ≡ ok d
    → d.entries ≡ ok names
    → All EntryName names

module _ (env : Env) (root : Loc) (t : Tree) (r : Root) (lists : ListsNames r) where
  copy_file-Stays :
      (rel dst : Text) (mode : ℕ)
      → under root (locate env.cwd dst) ≡ true
      → Stays root t (copy_file_confined env r rel dst mode)
  unfolding copy_file_confined
  copy_file-Stays rel dst mode h =
      Keeps-bind-lift (map_err (wrap "failed to open file %q within root") (r.open_in rel)) _
        (λ _ c. c)
        (λ src _. Keeps-bind _ _ (Keeps-wrapping _ _ (Stays-open_trunc root t env dst mode h)) (λ _.
          Stays-finally_close root t _ (
            Keeps-bind _ _
              (Keeps-wrapping _ _
                (Stays-copy root t (locate env.cwd dst) src.content.reads src.content.broken h))
              (λ _. Keeps-wrapping _ _ (Stays-chmod root t env dst mode h)))))

  copy_target-Stays :
      (rel dst : Text) (kind : Kind) (mode : ℕ)
      → under root (locate env.cwd dst) ≡ true
      → Stays root t (copy_target env r rel dst (record { kind = kind; mode = mode }))
  unfolding copy_target
  copy_target-Stays rel dst directory mode h = Keeps-raise (λ _ c. c) _
  copy_target-Stays rel dst link mode h = copy_file-Stays rel dst mode h
  copy_target-Stays rel dst other mode h = copy_file-Stays rel dst mode h

  -- What a copy of a directory keeps, given to the entries of the directory above it.
  abbrev Recurses : (Text → Text → ℕ → Exec World (Unit {0})) → Type 0
  Recurses recurse =
      (rel dst : Text) (mode : ℕ) → Inside env.cwd root dst → Stays root t (recurse rel dst mode)

  copy_kind-Stays :
      (recurse : Text → Text → ℕ → Exec World (Unit {0}))
      → Recurses recurse
      → (kind : Kind) (rel dst : Text) (mode : ℕ) → Inside env.cwd root dst
      → Stays root t (copy_kind env r recurse kind rel dst mode)
  unfolding copy_kind
  copy_kind-Stays recurse k link rel dst mode (_, h) =
      Keeps-bind-lift (map_err (wrap "failed to resolve symlink %q within root") (r.stat rel)) _
        (λ _ c. c) (λ target _. copy_target-Stays rel dst target.kind target.mode h)
  copy_kind-Stays recurse k directory rel dst mode i = k rel dst mode i
  copy_kind-Stays recurse k other rel dst mode (_, h) = copy_file-Stays rel dst mode h

  copy_entries-Stays :
      (recurse : Text → Text → ℕ → Exec World (Unit {0}))
      → Recurses recurse
      → (rel dst : Text) (names : List Text) → Inside env.cwd root dst
      → All EntryName names
      → Stays root t (copy_entries env r recurse rel dst names)
  unfolding copy_entries
  copy_entries-Stays recurse k rel dst [] i _ = Keeps-pure tt
  copy_entries-Stays recurse k rel dst (name ∷ names) i (e, es) =
      Keeps-bind _ _
        (Keeps-bind-lift
          (map_err (wrap "failed to lstat %q within root") (r.lstat (join_path rel name))) _
          (λ _ c. c)
          (λ info _.
            copy_kind-Stays recurse k info.kind (join_path rel name) (join_path dst name) info.mode
              (child-Inside env.cwd root dst name i e)))
        (λ _. copy_entries-Stays recurse k rel dst names i es)

  names_in-EntryName :
      (rel : Text) (w : World) (names : List Text)
      → (names_in env r rel w).0 ≡ ok names
      → All EntryName names
  unfolding names_in
  names_in-EntryName rel w names e =
      let (d, opened, listed) =
        ok_of_bind (lift (map_err (wrap "failed to open directory %q within root") (r.open_in rel)))
          (λ d. lift (map_err (wrap "failed to read directory %q") d.entries)) w names e in
      lists rel d names (ok_of_map_err _ (r.open_in rel) d opened)
        (ok_of_map_err _ d.entries names listed)

  names_in-Stays : (rel : Text) → Stays root t (names_in env r rel)
  unfolding names_in
  names_in-Stays rel =
      Keeps-bind-lift (map_err (wrap "failed to open directory %q within root") (r.open_in rel)) _
        (λ _ c. c)
        (λ d _. Keeps-lift (map_err (wrap "failed to read directory %q") d.entries) (λ _ c. c))

  copy_dir_in-Stays : (fuel : ℕ) → Recurses (copy_dir_in env r fuel)
  unfolding copy_dir_in
  copy_dir_in-Stays ℕ.zero rel dst mode i = Keeps-raise (λ _ c. c) _
  copy_dir_in-Stays (suc fuel) rel dst mode (full, h) =
      let prepare : Exec World (Unit {0}) =
        wrapping "failed to create destination directory %q" (mkdir_all env dst mode)
        >> wrapping "failed to chmod destination directory %q" (chmod env dst mode) in
      Keeps-bind_value (prepare >> names_in env r rel) _
        (Keeps-bind prepare _
          (Keeps-bind _ _ (Keeps-wrapping _ _ (Stays-mkdir_all root t env dst mode (inl h)))
            (λ _. Keeps-wrapping _ _ (Stays-chmod root t env dst mode h)))
          (λ _. names_in-Stays rel))
        (λ w names found.
          let (_, _, listed) = ok_of_bind prepare (λ _. names_in env r rel) w names found in
          copy_entries-Stays (copy_dir_in env r fuel) (copy_dir_in-Stays fuel) rel dst names
            (full, h) (names_in-EntryName rel (prepare w).1 names listed))

  copy_top-Stays :
      (fuel : ℕ) (kind : Kind) (rel dst : Text) (mode : ℕ)
      → Inside env.cwd root dst
      → Stays root t (copy_top env r fuel kind rel dst mode)
  unfolding copy_top
  copy_top-Stays fuel link rel dst mode i = Keeps-raise (λ _ c. c) _
  copy_top-Stays fuel directory rel dst mode i = copy_dir_in-Stays fuel rel dst mode i
  copy_top-Stays fuel other rel dst mode i = Keeps-raise (λ _ c. c) _

pub copy_dir_confined-Stays :
    (env : Env) (root : Loc) (t : Tree) (fuel : ℕ) (opened : Result Root) (rel dst : Text)
    → ((r : Root) → opened ≡ ok r → ListsNames r)
    → Inside env.cwd root dst
    → Stays root t (copy_dir_confined env fuel opened rel dst)
unfolding copy_dir_confined
copy_dir_confined-Stays env root t fuel opened rel dst lists i =
    Keeps-bind-lift (map_err (wrap "failed to open confinement root %q") opened) _ (λ _ c. c)
      (λ r found.
        Keeps-bind-lift (map_err (wrap "failed to lstat %q within root") (r.lstat rel)) _ (λ _ c. c)
          (λ info _.
            copy_top-Stays env root t r (lists r (ok_of_map_err _ opened r found)) fuel info.kind
              rel dst info.mode i))

-- Whatever the root shows and whichever calls fail, the confined copy changes no file and no
-- directory outside of its destination, but for missing directories on the way to it. The
-- destination is not the empty path, and directories list names of entries.
pub copy_dir_confined-Confined :
    (env : Env) (fuel : ℕ) (opened : Result Root) (rel dst : Text) (w : World)
    → ((r : Root) → opened ≡ ok r → ListsNames r)
    → is_empty dst ≡ false
    → Confined (locate env.cwd dst) w.tree (copy_dir_confined env fuel opened rel dst w).1
copy_dir_confined-Confined env fuel opened rel dst w lists full =
    let root = locate env.cwd dst in
    let m = copy_dir_confined env fuel opened rel dst in
    Confined-both root w.tree (m w).0 (m w).1 (
      (copy_dir_confined-Stays env root w.tree fuel opened rel dst lists (full, under_refl root)).at
        w (record { outside = λ l _. inl refl }))
