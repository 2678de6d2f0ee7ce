-- ===== src/Tests/Transfers.antt =====
-- Copies of files, downloads and bzip2 files on a small disk.
use go_gather.Base.{
  ℕ, ◌+◌, ◌≤◌, arith, ◌≡◌, refl, true, false, Option, none, some, List, [], ◌∷◌, if◌then◌else◌,
}
use go_gather.Base.Int64
use go_gather.Base.Int64.{max_int}
use go_gather.Base.Text.{codes, text_eq}
use go_gather.Path.{Loc}
use go_gather.Exec.{Result, ok, is_ok}
use go_gather.Os.{Bytes, Attr, Node, file, Tree, World, Env, write}
use go_gather.Expand.Limits.{ExpandOptions, effective}
use go_gather.Expand.Copy.{Stream, buffer_length}
use go_gather.Gather.Copying.{copy_file, copy_reader}
use go_gather.Gather.Save.{save}
use go_gather.Bzip2
use go_gather.Bzip2.Bound.{written-decode}
use go_gather.Http.{Fetch, HttpMetadata, gather}

abbrev attr : ℕ → Attr
attr mode = record { mode = mode; accessed = 1; modified = 1 }

-- The root directory and a file `a`.
abbrev disk : Tree
disk [] = some (Node.dir (attr 0o755))
disk (n ∷ []) = if text_eq n (codes "a") then some (file (attr 0o600) (1 ∷ 2 ∷ [])) else none
disk (_ ∷ _ ∷ _) = none

abbrev world : List (Option ℕ) → World
world faults = record { tree = disk; faults = faults; written = 0 }

abbrev env : Env
env = record { cwd = []; home = none; masked = λ m. m; now = 7 }

abbrev at : {A : Type 0} → Loc → Result A × World → Option Node
at l (r, w) = w.tree l

abbrev new_file : ℕ → Bytes → Option Node
new_file mode content = some (file (record { mode = mode; accessed = 7; modified = 7 }) content)

copy_file-other :
    at (codes "b" ∷ []) (copy_file env (codes "/a") (codes "/b") (world []))
    ≡ new_file 0o600 (1 ∷ 2 ∷ [])
unfolding copy_file
copy_file-other = refl

-- A file that is copied to itself is emptied.
copy_file_self :
    at (codes "a" ∷ []) (copy_file env (codes "/a") (codes "/./a") (world []))
    ≡ some (file (attr 0o600) [])
unfolding copy_file
copy_file_self = refl

abbrev body : Stream
body = record { reads = (1 ∷ 2 ∷ 3 ∷ []) ∷ (4 ∷ []) ∷ []; broken = false }

copy_reader-cut :
    at (codes "b" ∷ []) (copy_reader env body (codes "/b") 0o644 2 (world []))
    ≡ new_file 0o644 (1 ∷ 2 ∷ [])
unfolding copy_reader
copy_reader-cut = refl

save-append :
    at (codes "b" ∷ []) (save env (codes "/a") (codes "/b") true (world []))
    ≡ new_file 0o755 (1 ∷ 2 ∷ [])
unfolding save
save-append = refl

abbrev fetch : Fetch
fetch u = ok (record { status = 200; content_length = 4; body = body })

abbrev download : ℕ → List (Option ℕ) → Result HttpMetadata × World
download max faults =
    gather env (codes ".gather-1.tmp" ∷ []) fetch max (codes "https://h/d/f.txt") (codes "/out")
      (world faults)

abbrev out_file : Loc
out_file = codes "f.txt" ∷ codes "out" ∷ []

gather-file : at out_file (download 4 []) ≡ new_file 0o666 (1 ∷ 2 ∷ 3 ∷ 4 ∷ [])
unfolding gather
gather-file = refl

gather-too_long : is_ok (download 3 []).0 ≡ false
unfolding gather
gather-too_long = refl

abbrev leftovers : Loc
leftovers = codes ".gather-1.tmp" ∷ codes "out" ∷ []

gather-removed : at leftovers (download 3 []) ≡ none
unfolding gather
gather-removed = refl

abbrev options : ExpandOptions
options = record { max_entry_size = 4; max_total_size = 0; files_limit = 0 }

bzip2-file :
    at (codes "a" ∷ codes "out" ∷ []) (
      Bzip2.expand env
        (λ _. body)
        (codes "t" ∷ [])
        options
        (codes "/a")
        (codes "/out")
        0o755
        (world []))
    ≡ new_file 0o644 (1 ∷ 2 ∷ 3 ∷ 4 ∷ [])
unfolding Bzip2.expand Int64.add write
bzip2-file = refl

abbrev decoded : World
decoded = (Bzip2.decode env (λ _. body) [] (codes "/a") body (Bzip2.limit_of options) (world [])).1

four : Bzip2.limit_of options ≡ 4
unfolding Bzip2.limit_of Int64.lt
four = refl

small : Bzip2.limit_of options + buffer_length ≤ max_int
small = omega (arith, four)

written-decode_example :
    (decoded.written ≤ 0 + (effective options).max_entry)
    × (decoded.written ≤ 0 + (effective options).max_total)
written-decode_example =
    written-decode env (λ _. body) [] (codes "/a") body options (world []) small
      (omega arith, (omega arith, tt))
