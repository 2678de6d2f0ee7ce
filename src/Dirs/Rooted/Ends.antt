-- ===== src/Dirs/Rooted/Ends.antt =====
-- The confined copy ends: it never follows a link to a directory, so a bound on the nesting of the
-- directories themselves bounds its recursion.
use go_gather.Base.{String, ℕ, suc, ◌≤◌, ◌<◌, ◌≡◌, refl, ◌≢◌, arith, All, List, [], ◌∷◌}
use go_gather.Base.Text.{Text}
use go_gather.Path.{join_path, locate}
use go_gather.Exec.{wrap, out_of_fuel, ok, err, Exec, lift, map_err, wrapping, ◌>>=◌, ◌>>◌}
use go_gather.Exec.Keeps.{ok_of_bind, ok_of_map_err}
use go_gather.Exec.Ends.{
  Ends, Ends-pure, Ends-plain, Ends-wrapping, Ends-lift, Ends-bind, Ends-bind_value,
}
use go_gather.Os.{World, Env, mkdir_all, open_trunc, chmod}
use go_gather.Expand.Io.{copy}
use go_gather.Gather.Copying.{finally_close}
use go_gather.Dirs.Rooted.{
  Kind, link, directory, other, Info, Handle, Root, copy_file_confined, copy_target, copy_kind,
  copy_entries, names_in, copy_dir_in, copy_top, copy_dir_confined,
}

-- An entry that is itself a directory is nested less deep than the directory that lists it.
abbrev pub Nested : Root → (Text → ℕ) → Text → Text → Type 0
Nested r depth rel name =
    (info : Info)
    → r.lstat (join_path rel name) ≡ ok info
    → info.kind ≡ directory
    → depth (join_path rel name) < depth rel

abbrev pub IsNested : Root → (Text → ℕ) → Type 0
IsNested r depth =
    (rel : Text) (d : Handle) (names : List Text)
    → r.open_in rel ≡ ok d
    → d.entries ≡ ok names
    → All (Nested r depth rel) names

Ends-finally_close : {A : Type 0} (m : Exec World A) → Ends m → Ends (finally_close m)
unfolding finally_close
Ends-finally_close m k = record { at = k.at }

module _ (env : Env) (r : Root) (depth : Text → ℕ) (nested : IsNested r depth) where
  copy_file-Ends : (rel dst : Text) (mode : ℕ) → Ends (copy_file_confined env r rel dst mode)
  unfolding copy_file_confined
  copy_file-Ends rel dst mode =
      Ends-bind _ _ (Ends-lift "failed to open file %q within root" (r.open_in rel)) (λ src.
        let message : String = "failed to copy contents to %q" in
        let copied = copy (locate env.cwd dst) src.content.reads src.content.broken in
        let chmod_message : String = "failed to chmod destination file %q" in
        Ends-bind (wrapping "failed to create destination file %q" (open_trunc env dst mode)) _
          (Ends-wrapping _ _)
          (λ _.
            Ends-finally_close
              (wrapping message copied >> wrapping chmod_message (chmod env dst mode))
              (Ends-bind (wrapping message copied) _ (Ends-wrapping message copied)
                (λ _. Ends-wrapping chmod_message (chmod env dst mode)))))

  copy_target-Ends :
      (rel dst : Text) (kind : Kind) (mode : ℕ)
      → Ends (copy_target env r rel dst (record { kind = kind; mode = mode }))
  unfolding copy_target
  copy_target-Ends rel dst directory mode = Ends-plain _
  copy_target-Ends rel dst link mode = copy_file-Ends rel dst mode
  copy_target-Ends rel dst other mode = copy_file-Ends rel dst mode

  -- Copies of directories nested less deep than the fuel end.
  abbrev EndsBelow : ℕ → (Text → Text → ℕ → Exec World (Unit {0})) → Type 0
  EndsBelow fuel recurse =
      (rel dst : Text) (mode : ℕ) → depth rel < fuel → Ends (recurse rel dst mode)

  copy_kind-Ends :
      (recurse : Text → Text → ℕ → Exec World (Unit {0})) (kind : Kind) (rel dst : Text) (mode : ℕ)
      → (kind ≡ directory → Ends (recurse rel dst mode))
      → Ends (copy_kind env r recurse kind rel dst mode)
  unfolding copy_kind
  copy_kind-Ends recurse link rel dst mode k =
      Ends-bind _ _ (Ends-lift "failed to resolve symlink %q within root" (r.stat rel))
        (λ target. copy_target-Ends rel dst target.kind target.mode)
  copy_kind-Ends recurse directory rel dst mode k = k refl
  copy_kind-Ends recurse other rel dst mode k = copy_file-Ends rel dst mode

  copy_entries-Ends :
      (fuel : ℕ) (recurse : Text → Text → ℕ → Exec World (Unit {0}))
      → EndsBelow fuel recurse
      → (rel dst : Text) (names : List Text) → depth rel ≤ fuel
      → All (Nested r depth rel) names
      → Ends (copy_entries env r recurse rel dst names)
  unfolding copy_entries
  copy_entries-Ends fuel recurse k rel dst [] h _ = Ends-pure tt
  copy_entries-Ends fuel recurse k rel dst (name ∷ names) h (n, ns) =
      let child = join_path rel name in
      Ends-bind _ _
        (Ends-bind_value _ _ (Ends-lift "failed to lstat %q within root" (r.lstat child))
          (λ w info found.
            copy_kind-Ends recurse info.kind child (join_path dst name) info.mode (λ is_dir.
              k child (join_path dst name) info.mode
                (omega (arith, n info (ok_of_map_err _ (r.lstat child) info found) is_dir)))))
        (λ _. copy_entries-Ends fuel recurse k rel dst names h ns)

  names_in-Nested :
      (rel : Text) (w : World) (names : List Text)
      → (names_in env r rel w).0 ≡ ok names
      → All (Nested r depth rel) names
  unfolding names_in
  names_in-Nested rel w names e =
      let (d, opened, listed) =
        ok_of_bind (lift (map_err (wrap "failed to open directory %q within root") (r.open_in rel)))
          (λ d. lift (map_err (wrap "failed to read directory %q") d.entries)) w names e in
      nested rel d names (ok_of_map_err _ (r.open_in rel) d opened)
        (ok_of_map_err _ d.entries names listed)

  names_in-Ends : (rel : Text) → Ends (names_in env r rel)
  unfolding names_in
  names_in-Ends rel =
      Ends-bind _ _ (Ends-lift "failed to open directory %q within root" (r.open_in rel))
        (λ d. Ends-lift "failed to read directory %q" d.entries)

  copy_dir_in-Ends : (fuel : ℕ) → EndsBelow fuel (copy_dir_in env r fuel)
  unfolding copy_dir_in
  copy_dir_in-Ends ℕ.zero rel dst mode h = absurd (omega arith)
  copy_dir_in-Ends (suc fuel) rel dst mode h =
      let prepare : Exec World (Unit {0}) =
        wrapping "failed to create destination directory %q" (mkdir_all env dst mode)
        >> wrapping "failed to chmod destination directory %q" (chmod env dst mode) in
      Ends-bind_value (prepare >> names_in env r rel) _
        (Ends-bind prepare _
          (Ends-bind (wrapping "failed to create destination directory %q" (mkdir_all env dst mode))
            _ (Ends-wrapping _ (mkdir_all env dst mode))
            (λ _. Ends-wrapping "failed to chmod destination directory %q" (chmod env dst mode)))
          (λ _. names_in-Ends rel))
        (λ w names found.
          let (_, _, listed) = ok_of_bind prepare (λ _. names_in env r rel) w names found in
          copy_entries-Ends fuel (copy_dir_in env r fuel) (copy_dir_in-Ends fuel) rel dst names
            (omega arith) (names_in-Nested rel (prepare w).1 names listed))

  copy_top-Ends :
      (fuel : ℕ) (kind : Kind) (rel dst : Text) (mode : ℕ)
      → depth rel < fuel
      → Ends (copy_top env r fuel kind rel dst mode)
  unfolding copy_top
  copy_top-Ends fuel link rel dst mode h = Ends-plain _
  copy_top-Ends fuel directory rel dst mode h = copy_dir_in-Ends fuel rel dst mode h
  copy_top-Ends fuel other rel dst mode h = Ends-plain _

copy_dir_confined-Ends :
    (env : Env) (fuel : ℕ) (r : Root) (depth : Text → ℕ) (rel dst : Text)
    → IsNested r depth
    → depth rel < fuel
    → Ends (copy_dir_confined env fuel (ok r) rel dst)
unfolding copy_dir_confined ◌>>=◌
copy_dir_confined-Ends env fuel r depth rel dst nested h =
    Ends-bind (lift (map_err (wrap "failed to lstat %q within root") (r.lstat rel)))
      (λ info. copy_top env r fuel info.kind rel dst info.mode)
      (Ends-lift "failed to lstat %q within root" (r.lstat rel))
      (λ info. copy_top-Ends env r depth nested fuel info.kind rel dst info.mode h)

-- Where the directories of the root are nested to a finite depth, the copy ends, with its result or
-- with an error of its own, whatever links there are among the entries and whichever calls fail:
-- one more round than the depth is enough.
pub copy_dir_confined-ne-out_of_fuel :
    (env : Env) (fuel : ℕ) (r : Root) (depth : Text → ℕ) (rel dst : Text) (w : World)
    → IsNested r depth
    → depth rel < fuel
    → (copy_dir_confined env fuel (ok r) rel dst w).0 ≢ err out_of_fuel
copy_dir_confined-ne-out_of_fuel env fuel r depth rel dst w nested h =
    (copy_dir_confined-Ends env fuel r depth rel dst nested h).at w
