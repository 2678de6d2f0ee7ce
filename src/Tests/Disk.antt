-- ===== src/Tests/Disk.antt =====
-- A small disk and what lies on it, shared by the runs of copies and gatherers.
use go_gather.Base.{ℕ, Option, none, some, List, [], ◌∷◌, true, false, if◌then◌else◌}
use go_gather.Base.Text.{Text, codes, text_eq}
use go_gather.Path.{Loc}
use go_gather.Exec.{errno, not_dir, Result, ok, err}
use go_gather.Os.{Attr, Node, file, dir, Tree, World, Env, loc_eq}
use go_gather.Dirs.Rooted.{link, directory, other, Info, Handle, Root}
use go_gather.Dirs.Trees.{Listing}

abbrev pub attr : ℕ → Attr
attr mode = record { mode = mode; accessed = 1; modified = 1 }

abbrev pub loc : List Text → Loc
loc names = names

-- The root directory, in it a directory `d` with a file `f`, and a file `g`.
abbrev pub disk : Tree
disk l =
    if loc_eq l []
    then some (dir (attr 0o755))
    else if loc_eq l (codes "d" ∷ [])
    then some (dir (attr 0o750))
    else if loc_eq l (codes "f" ∷ codes "d" ∷ [])
    then some (file (attr 0o600) (1 ∷ 2 ∷ 3 ∷ []))
    else if loc_eq l (codes "g" ∷ [])
    then some (file (attr 0o644) (4 ∷ 5 ∷ []))
    else none

abbrev pub world : List (Option ℕ) → World
world faults = record { tree = disk; faults = faults; written = 0 }

abbrev pub env : Env
env = record { cwd = []; home = some (codes "/d"); masked = λ m. m; now = 7 }

abbrev pub at : {A : Type 0} → Loc → Result A × World → Option Node
at l (r, w) = w.tree l

-- Every directory lists one file; a copy only looks into `d` and its own destination.
abbrev pub listing : Listing
listing t l = codes "f" ∷ []

-- A repository with a directory `d`, in it a file `f` and a link `l` to a file.
abbrev pub root_lstat : Text → Result Info
root_lstat p =
    if text_eq p (codes "d")
    then ok (record { kind = directory; mode = 0o755 })
    else if text_eq p (codes "d/l")
    then ok (record { kind = link; mode = 0o777 })
    else ok (record { kind = other; mode = 0o644 })

abbrev pub directory_handle : Handle
directory_handle = record {
  entries = ok (codes "f" ∷ codes "l" ∷ []);
  content = record { reads = []; broken = true };
}

abbrev pub file_handle : Handle
file_handle = record {
  entries = err (errno not_dir);
  content = record { reads = (6 ∷ 7 ∷ []) ∷ []; broken = false };
}

abbrev pub root : Root
root = record {
  lstat = root_lstat;
  stat = λ p. ok (record { kind = other; mode = 0o640 });
  open_in = λ p. ok (if text_eq p (codes "d") then directory_handle else file_handle);
}
