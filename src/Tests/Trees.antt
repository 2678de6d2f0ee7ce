-- ===== src/Tests/Trees.antt =====
-- Copies of directories on a small disk.
use go_gather.Base.{
  ℕ, ◌%◌, ◌≡◌, ◌≢◌, refl, ap, subst, arith, All, Bool-cases, inl, inr, sym, Option, none, some,
  List, [], ◌∷◌, if◌then◌else◌,
}
use go_gather.Base.Int64
use go_gather.Base.Text.{Text, codes, text_eq, text_eq→eq, split, has_prefix}
use go_gather.Path.{is_empty, turns_back, is_name, locate, join_path}
use go_gather.Exec.{out_of_fuel, Result, ok, err}
use go_gather.Os.{Node, file, loc_eq}
use go_gather.Os.Confined.{Confined}
use go_gather.Dirs.Names.{EntryName}
use go_gather.Dirs.Rooted.{Handle, Info, Root, link, other, copy_dir_confined}
use go_gather.Dirs.Rooted.Writes.{ListsNames, copy_dir_confined-Confined}
use go_gather.Dirs.Rooted.Ends.{Nested, IsNested, copy_dir_confined-ne-out_of_fuel}
use go_gather.Dirs.Trees.{Listing, copy_dir, directory_size}
use go_gather.Dirs.Trees.Writes.{copy_dir-Confined}
use go_gather.Dirs.Trees.Sizes.{
  Item, plain_file, folder, end, item, total, height, Shows, directory_size-total,
}
use go_gather.Base.Int64.{word}
use go_gather.Tests.Disk.{attr, disk, world, env, at, listing, root, directory_handle, file_handle}

abbrev new_file : ℕ → List ℕ → Option Node
new_file mode content = some (file (record { mode = mode; accessed = 7; modified = 7 }) content)

copy_dir_confined-link :
    at
      (codes "l" ∷ codes "out" ∷ [])
      (copy_dir_confined env 1 (ok root) (codes "d") (codes "/out") (world []))
    ≡ new_file 0o640 (6 ∷ 7 ∷ [])
unfolding copy_dir_confined
copy_dir_confined-link = refl

copy_dir-file :
    at
      (codes "f" ∷ codes "out" ∷ [])
      (copy_dir env listing 1 (codes "/d") (codes "/out") (world []))
    ≡ new_file 0o600 (1 ∷ 2 ∷ 3 ∷ [])
unfolding copy_dir
copy_dir-file = refl

-- A copy of a directory into itself does not end: the destination is an entry of the source.
abbrev nesting : Listing
nesting t l = codes "out" ∷ []

copy_dir_self :
    (copy_dir env nesting 5 (codes "/d") (codes "/d/out") (world [])).0 ≡ err out_of_fuel
unfolding copy_dir
copy_dir_self = refl

directory_size-sum : (directory_size env listing 3 (codes "/d") (world [])).0 ≡ ok 3
unfolding directory_size Int64.add loc_eq
directory_size-sum = refl

pub EntryName-f : EntryName (codes "f")
unfolding split is_name
EntryName-f = (refl, refl)

EntryName-l : EntryName (codes "l")
unfolding split is_name
EntryName-l = (refl, refl)

-- Only `d` lists entries.
entries_of_root :
    (rel : Text) (d : Handle) (names : List Text)
    → root.open_in rel ≡ ok d
    → d.entries ≡ ok names
    → (rel ≡ codes "d") × (names ≡ codes "f" ∷ codes "l" ∷ [])
entries_of_root rel d names opened listed = elim (Bool-cases (text_eq rel (codes "d"))) [
  | inl yes_d ↦
      let e : Result.ok directory_handle ≡ ok d = (rw yes_d at opened) in
      (text_eq→eq rel (codes "d") yes_d, cc (e, listed))
  | inr no_d ↦ let e : Result.ok file_handle ≡ ok d = (rw no_d at opened) in absurd (cc (e, listed))
]

pub ListsNames-root : ListsNames root
ListsNames-root rel d names opened listed =
    let (_, e) = entries_of_root rel d names opened listed in
    subst (All EntryName) (sym e) (EntryName-f, (EntryName-l, tt))

same_root : (r : Root) → Result.ok root ≡ ok r → root ≡ r
same_root r e = cc e

copy_dir_confined-Confined_example :
    Confined
      (locate env.cwd (codes "/out"))
      disk
      (copy_dir_confined env 1
        (ok root)
        (codes "d")
        (codes "/out")
        (world (none ∷ none ∷ some 0 ∷ []))).1
unfolding is_empty
copy_dir_confined-Confined_example =
    copy_dir_confined-Confined env 1 (ok root) (codes "d") (codes "/out")
      (world (none ∷ none ∷ some 0 ∷ []))
      (λ r found. subst ListsNames (same_root r found) ListsNames-root) refl

abbrev depth : Text → ℕ
depth p = if text_eq p (codes "d") then 1 else 0

kind_of : (i j : Info) → Result.ok i ≡ ok j → i.kind ≡ j.kind
kind_of i j e = let same : i ≡ j = cc e in ap (λ x. x.kind) same

Nested-f : Nested root depth (codes "d") (codes "f")
unfolding join_path text_eq
Nested-f info found is_dir =
    absurd (cc (kind_of (record { kind = other; mode = 0o644 }) info found, is_dir))

Nested-l : Nested root depth (codes "d") (codes "l")
unfolding join_path text_eq
Nested-l info found is_dir =
    absurd (cc (kind_of (record { kind = link; mode = 0o777 }) info found, is_dir))

IsNested-root : IsNested root depth
IsNested-root rel d names opened listed =
    let (same, e) = entries_of_root rel d names opened listed in
    subst (λ p. All (Nested root depth p) names) (sym same)
      (subst (All (Nested root depth (codes "d"))) (sym e) (Nested-f, (Nested-l, tt)))

copy_dir_confined-ne-out_of_fuel_example :
    (copy_dir_confined env 2
      (ok root)
      (codes "d")
      (codes "/out")
      (world (none ∷ none ∷ some 0 ∷ []))).0
    ≢ err out_of_fuel
unfolding text_eq
copy_dir_confined-ne-out_of_fuel_example =
    copy_dir_confined-ne-out_of_fuel env 2 root depth (codes "d") (codes "/out")
      (world (none ∷ none ∷ some 0 ∷ [])) IsNested-root (omega arith)

copy_dir-Confined_example :
    Confined
      (locate env.cwd (codes "/out"))
      disk
      (copy_dir env listing 1 (codes "/d") (codes "/out") (world (none ∷ none ∷ some 0 ∷ []))).1
unfolding is_empty
copy_dir-Confined_example =
    copy_dir-Confined env listing 1 (codes "/d") (codes "/out") (world (none ∷ none ∷ some 0 ∷ []))
      (λ t l. (EntryName-f, tt)) refl

abbrev small_tree : Item
small_tree = folder (item (codes "f") (plain_file (1 ∷ 2 ∷ 3 ∷ [])) end)

Shows-small_tree : Shows listing disk small_tree (locate env.cwd (codes "/d"))
unfolding Shows locate loc_eq
Shows-small_tree =
    ((attr 0o750, refl), (refl, (EntryName-f, (((attr 0o600, refl), omega arith), tt))))

directory_size-total_example :
    directory_size env listing 3 (codes "/d") (record { tree = disk; faults = []; written = 0 })
    ≡ (ok (total small_tree % word), record { tree = disk; faults = []; written = 0 })
unfolding is_empty turns_back has_prefix height
directory_size-total_example =
    directory_size-total env listing disk 0 3 (codes "/d") small_tree refl refl refl
      Shows-small_tree (omega arith)
