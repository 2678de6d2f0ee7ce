-- ===== src/Dirs/Trees/Writes.antt =====
-- Where the copy of a directory writes.
use go_gather.Base.{
  ℕ, suc, ◌≡◌, refl, String, subst, Bool, true, false, inl, inr, Option, none, some, List, [], ◌∷◌,
  All,
}
use go_gather.Base.Text.{Text}
use go_gather.Path.{is_empty, clean, join_path, Loc, locate}
use go_gather.Path.Clean.{locate-clean}
use go_gather.Helpers.Containment.{clean-ne-empty}
use go_gather.Exec.{wrap, Result, ok, err, Exec, try, wrapping, ◌>>=◌, ◌>>◌}
use go_gather.Exec.Keeps.{
  Keeps-pure, Keeps-raise, Keeps-if, Keeps-bind, Keeps-bind_value, Keeps-wrapping, Keeps-try,
  ok_of_bind, ok_of_map_err,
}
use go_gather.Os.{
  reach-cases, at_reached, Node, Tree, World, Env, is_not_exist, due, call_step, call, at_path,
  look, stat, under,
}
use go_gather.Os.Places.{under_refl}
use go_gather.Os.Confined.{Confined, Stays, Stays-look, Stays-stat, Stays-mkdir_all}
use go_gather.Gather.Copying.{copy_file}
use go_gather.Dirs.Names.{EntryName, Inside, child-Inside}
use go_gather.Os.Confined.{Confined-both}
use go_gather.Dirs.Stays.{Stays-copy_file}
use go_gather.Dirs.Trees.{
  Listing, listed, with_kinds, read_dir, make_destination, copy_listed, copy_into, copy_dir,
}

-- Directories list names of entries.
abbrev pub ListsEntries : Listing → Type 0
ListsEntries listing = (t : Tree) (l : Loc) → All EntryName (listing t l)

abbrev Entries : List (Text × Bool) → Type 0
Entries = All (λ e. EntryName e.0)

Entries-with_kinds :
    (t : Tree) (l : Loc) (names : List Text) → All EntryName names → Entries (with_kinds t l names)
Entries-with_kinds t l [] _ = tt
Entries-with_kinds t l (n ∷ names) (e, es) = (e, Entries-with_kinds t l names es)

module _ (env : Env) (listing : Listing) (lists : ListsEntries listing) where
  Entries-listed :
      (t : Tree) (l : Loc) (r : Result Node) (es : List (Text × Bool))
      → listed listing t l r ≡ ok es
      → Entries es
  Entries-listed t l (ok (Node.dir _)) es e =
      subst Entries (ok_same e) (Entries-with_kinds t l (listing t l) (lists t l))
    where
      ok_same : {xs ys : List (Text × Bool)} → ok xs ≡ ok ys → xs ≡ ys
      ok_same e = cc e
  Entries-listed t l (ok (Node.file _ _)) es e = absurd (cc e)
  Entries-listed t l (err x) es e = absurd (cc e)

  Entries-call_step :
      (l : Loc) (f : Option ℕ) (w : World) (es : List (Text × Bool))
      → (call_step (λ v. (listed listing v.tree l (look l v), v)) f w).0 ≡ ok es
      → Entries es
  unfolding call_step
  Entries-call_step l none w es e = Entries-listed w.tree l (look l w) es e
  Entries-call_step l (some _) w es e = absurd (cc e)

  read_dir-Entries :
      (p : Text) (w : World) (es : List (Text × Bool))
      → (read_dir env listing p w).0 ≡ ok es
      → Entries es
  unfolding read_dir at_path at_reached call
  read_dir-Entries p w es e = elim (reach-cases w.tree env.cwd p) [
    | inl (x, lost) ↦ absurd (let y = (rw lost at e) in cc y)
    | inr there ↦ Entries-call_step (locate env.cwd p) (due w).0 (due w).1 es (rw there at e)
  ]

  wrapped-Entries :
      (message : String) (p : Text) (w : World) (es : List (Text × Bool))
      → (wrapping message (read_dir env listing p) w).0 ≡ ok es
      → Entries es
  unfolding wrapping
  wrapped-Entries message p w es e =
      read_dir-Entries p w es (ok_of_map_err (wrap message) (read_dir env listing p w).0 es e)

  module _ (root : Loc) (t : Tree) where
    pub read_dir-Stays : (p : Text) → Stays root t (read_dir env listing p)
    unfolding read_dir
    read_dir-Stays p = Stays-look root t env p (λ l w. listed listing w.tree l (look l w))

    make_destination-Stays :
        (dst : Text) (mode : ℕ) (seen : Result Node)
        → under root (locate env.cwd dst) ≡ true
        → Stays root t (make_destination env listing dst mode seen)
    unfolding make_destination
    make_destination-Stays dst mode (ok _) h = Keeps-pure tt
    make_destination-Stays dst mode (err e) h =
        Keeps-if (is_not_exist e) _ _
          (λ _. Keeps-wrapping _ _ (Stays-mkdir_all root t env dst mode (inl h)))
          (λ _. Keeps-raise (λ _ c. c) _)

    -- What a copy keeps, given to the entries of the directory above.
    abbrev pub Recurses : (Text → Text → Exec World (Unit {0})) → Type 0
    Recurses recurse = (src dst : Text) → Inside env.cwd root dst → Stays root t (recurse src dst)

    copy_listed-Stays :
        (recurse : Text → Text → Exec World (Unit {0}))
        → Recurses recurse
        → (src dst : Text) (es : List (Text × Bool)) → Inside env.cwd root dst
        → Entries es
        → Stays root t (copy_listed env listing recurse src dst es)
    unfolding copy_listed
    copy_listed-Stays recurse k src dst [] i _ = Keeps-pure tt
    copy_listed-Stays recurse k src dst ((name, is_dir) ∷ es) i (e, named) =
        let inner = child-Inside env.cwd root dst name i e in
        Keeps-bind _ _
          (Keeps-if is_dir (recurse (join_path src name) (join_path dst name))
            (copy_file env (join_path src name) (join_path dst name))
            (λ _. k (join_path src name) (join_path dst name) inner)
            (λ _. Stays-copy_file env root t (join_path src name) (join_path dst name) inner.1))
          (λ _. copy_listed-Stays recurse k src dst es i named)

    copy_into-Stays :
        (recurse : Text → Text → Exec World (Unit {0}))
        → Recurses recurse
        → (src dst : Text) (n : Node) → Inside env.cwd root dst
        → Stays root t (copy_into env listing recurse src dst n)
    unfolding copy_into
    copy_into-Stays recurse k src dst (Node.file _ _) i = Keeps-raise (λ _ c. c) _
    copy_into-Stays recurse k src dst (Node.dir a) (full, h) =
        let prepare : Exec World (Unit {0}) =
          try (stat env dst) >>= λ seen. make_destination env listing dst a.mode seen in
        let read : Exec World (List (Text × Bool)) =
          wrapping "failed to read directory contents of %q" (read_dir env listing src) in
        Keeps-bind_value (prepare >> read) _
          (Keeps-bind prepare _
            (Keeps-bind _ _ (Keeps-try _ (Stays-stat root t env dst))
              (λ seen. make_destination-Stays dst a.mode seen h))
            (λ _. Keeps-wrapping _ _ (read_dir-Stays src)))
          (λ w es found.
            let (_, _, listed) = ok_of_bind prepare (λ _. read) w es found in
            copy_listed-Stays recurse k src dst es (full, h)
              (wrapped-Entries "failed to read directory contents of %q" src (prepare w).1 es
                listed))

    pub copy_dir-Stays : (fuel : ℕ) → Recurses (copy_dir env listing fuel)
    unfolding copy_dir
    copy_dir-Stays ℕ.zero src dst i = Keeps-raise (λ _ c. c) _
    copy_dir-Stays (suc fuel) src dst (full, h) =
        Keeps-bind _ _ (Keeps-wrapping _ _ (Stays-stat root t env (clean src))) (λ info.
          copy_into-Stays (copy_dir env listing fuel) (copy_dir-Stays fuel) (clean src) (clean dst)
            info (clean-ne-empty dst, rw (locate-clean env.cwd dst) h))

-- Whatever the tree holds, however deep the copy goes and whichever calls fail, `copy_dir`
-- changes no file and no directory outside of its destination, but for missing directories on
-- the way to it. The destination is not the empty path, and directories list names of entries.
pub copy_dir-Confined :
    (env : Env) (listing : Listing) (fuel : ℕ) (src dst : Text) (w : World)
    → ListsEntries listing
    → is_empty dst ≡ false
    → Confined (locate env.cwd dst) w.tree (copy_dir env listing fuel src dst w).1
copy_dir-Confined env listing fuel src dst w lists full =
    let root = locate env.cwd dst in
    let m = copy_dir env listing fuel src dst in
    Confined-both root w.tree (m w).0 (m w).1 (
      (copy_dir-Stays env listing lists root w.tree fuel src dst (full, under_refl root)).at w
        (record { outside = λ l _. inl refl }))
