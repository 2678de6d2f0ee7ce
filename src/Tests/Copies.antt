-- ===== src/Tests/Copies.antt =====
-- The bounded copy, the limits and the download, at concrete inputs.
use go_gather.Base.{
  ◌*◌, ◌+◌, ◌≤◌, ◌<◌, ◌≡◌, ◌⊎◌, refl, true, false, not, ◌&&◌, Option, none, some, List, [], ◌∷◌,
  ◌++◌, arith, length, leb,
}
use go_gather.Base.Int64
use go_gather.Base.Int64.{max_int}
use go_gather.Base.Text.{codes}
use go_gather.Path.{Loc}
use go_gather.Exec.{ok, is_ok}
use go_gather.Os.{Attr, Node, file, Tree, World, Env, write}
use go_gather.Expand.Copy.{Stream, Extraction, concat, copy_bounded}
use go_gather.Expand.Copy.Bound.{written-copy_bounded}
use go_gather.Expand.Copy.Content.{copy_bounded-content}
use go_gather.Expand.Copy.Exact.{is_ok-copy_bounded}
use go_gather.Expand.Limits.{
  ExpandOptions, with_max_total_size, with_files_limit, effective, resolve_options,
  resolve_options-max_total, effective-InRange, Means, Limits,
}
use go_gather.Http.{bounded, is_positive, check_size, destination}
use go_gather.Http.Whole.{concat-bounded}

abbrev plain_attr : Attr
plain_attr = record { mode = 0o644; accessed = 1; modified = 1 }

abbrev place : Loc
place = codes "f" ∷ codes "out" ∷ []

-- One open file, with a byte in it.
abbrev one_file : Tree
one_file (a ∷ b ∷ []) = some (file plain_attr (9 ∷ []))
one_file _ = some (Node.dir plain_attr)

abbrev calm_world : World
calm_world = record { tree = one_file; faults = []; written = 0 }

-- The first write fails behind two bytes.
abbrev failing_world : World
failing_world = record { tree = one_file; faults = some 2 ∷ []; written = 0 }

abbrev chunks : Stream
chunks = record { reads = (1 ∷ 2 ∷ 3 ∷ []) ∷ [] ∷ (4 ∷ 5 ∷ []) ∷ []; broken = false }

abbrev begun : World → Extraction
begun w = record { world = w; copied = 1 }

short_write :
    (copy_bounded 10 place chunks (begun failing_world)).1.world.tree place
    ≡ some (file plain_attr (9 ∷ 1 ∷ 2 ∷ []))
unfolding copy_bounded Int64.lt Int64.add write
short_write = refl

written-copy_bounded_example :
    (copy_bounded 4 place chunks (begun calm_world)).1.world.written + 1 ≤ 0 + 4
written-copy_bounded_example =
    written-copy_bounded 4 place chunks (begun calm_world) (omega arith)
      (omega arith, (omega arith, (omega arith, tt))) (omega arith)

copied_all : is_ok (copy_bounded 6 place chunks (begun calm_world)).0 ≡ true
unfolding copy_bounded Int64.lt Int64.add write
copied_all = refl

copy_bounded-content_example :
    (copy_bounded 6 place chunks (begun calm_world)).1.world.tree place
    ≡ some (file plain_attr ((9 ∷ []) ++ concat chunks.reads))
copy_bounded-content_example =
    copy_bounded-content 6 place chunks (begun calm_world) plain_attr (9 ∷ []) refl copied_all

sizes : 1 + length (concat chunks.reads) ≤ max_int
unfolding concat
sizes = omega arith

is_ok-copy_bounded_example :
    is_ok (copy_bounded 5 place chunks (begun calm_world)).0
    ≡ (leb (1 + length (concat chunks.reads)) 5 && not chunks.broken)
is_ok-copy_bounded_example =
    is_ok-copy_bounded 5 place chunks (begun calm_world) (omega arith) refl (omega arith) sizes

abbrev env : Env
env = record { cwd = []; home = none; masked = λ m. m; now = 7 }

abbrev few : ExpandOptions
few = record { max_entry_size = Int64.minus_one; max_total_size = 0; files_limit = 3 }

effective-InRange_example :
    ((0 < (effective few).max_entry) × ((effective few).max_entry ≤ max_int))
    × ((0 < (effective few).max_total) × ((effective few).max_total ≤ max_int))
    × ((0 < (effective few).files) × ((effective few).files ≤ max_int))
effective-InRange_example = effective-InRange few

abbrev overrides : List (Option (ExpandOptions → ExpandOptions))
overrides = some (with_files_limit 3) ∷ none ∷ []

abbrev limited : Limits
limited = effective (resolve_options (overrides ++ (some (with_max_total_size 5) ∷ [])))

resolve_options-max_total_example :
    Means 5 (1024 * 1024 * 1024) limited.max_total
    × (limited.max_entry ≡ (effective (resolve_options overrides)).max_entry)
    × (limited.files ≡ (effective (resolve_options overrides)).files)
resolve_options-max_total_example = resolve_options-max_total overrides 5 (omega arith)

checked : check_size 5 (length (concat (bounded 5 chunks).reads)) ≡ ok tt
unfolding check_size bounded concat
checked = refl

five : length (concat chunks.reads) ≤ max_int
unfolding concat
five = omega arith

concat-bounded_example :
    (concat (bounded 5 chunks).reads ≡ concat chunks.reads)
    × ((is_positive 5 ≡ false) ⊎ (length (concat chunks.reads) ≤ 5))
concat-bounded_example = concat-bounded 5 chunks tt five (omega arith) checked

-- An empty destination leads to the root of the file system.
destination-empty : destination [] (codes "f.txt") ≡ codes "/f.txt"
unfolding destination
destination-empty = refl

destination-dir : destination (codes "out") (codes "f.txt") ≡ codes "out/f.txt"
unfolding destination
destination-dir = refl
