-- ===== src/Tests/Archives.antt =====
-- Archives on a small disk: runs, and the theorems on extraction at concrete archives.
use go_gather.Base.{
  ◌+◌, ◌≤◌, ◌≡◌, ◌≢◌, length, All, refl, Bool, true, false, Option, none, some, List, [], ◌∷◌,
  arith, subst,
}
use go_gather.Base.Int64
use go_gather.Base.Text.{Text, codes, has_prefix}
use go_gather.Path.{Loc, names_last, turns_back, locate}
use go_gather.Helpers.Climb.{ends_up}
use go_gather.Exec.{Result, ok, err, is_ok}
use go_gather.Os.{Attr, Node, file, Tree, World, Env, write}
use go_gather.Os.Confined.{Confined}
use go_gather.Expand.Limits.{Limits}
use go_gather.Expand.Cleanup.{deferring_removal}
use go_gather.Expand.Undone.{RemovedOrKept}
use go_gather.Expand.Copy.{Stream}
use go_gather.Expand.Copy.Bound.{Fits}
use go_gather.Tar.Untar.{Header, Event, entry, untar}
use go_gather.Tar.Confinement.{untar-Confined, written-untar}
use go_gather.Tar.Accepted.{AcceptedEvents, counted, untar-AcceptedEvents}
use go_gather.Tar.Removal.{deferring_removal-untar}
use go_gather.Zip.Unzip.{ZipFile, unzip}
use go_gather.Zip.Accepted.{AcceptedFile, unzip-AcceptedFile}
use go_gather.Zip.Removal.{deferring_removal-unzip}
use go_gather.Zip.Confinement.{unzip-Confined, written-unzip}

abbrev dir_attr : Attr
dir_attr = record { mode = 0o755; accessed = 1; modified = 1 }

-- Only the root directory.
abbrev bare : Tree
bare [] = some (Node.dir dir_attr)
bare (_ ∷ _) = none

abbrev calm_world : World
calm_world = record { tree = bare; faults = []; written = 0 }

-- The fifth call fails.
abbrev faulty_world : World
faulty_world = record { tree = bare; faults = none ∷ none ∷ none ∷ none ∷ some 0 ∷ []; written = 0 }

abbrev env : Env
env = record { cwd = codes "w" ∷ []; home = none; masked = λ m. m; now = 7 }

abbrev limits : Limits
limits = record { max_entry = 100; max_total = 100; files = 10 }

abbrev content : Stream
content = record { reads = (1 ∷ 2 ∷ 3 ∷ []) ∷ []; broken = false }

abbrev named : Text → Bool → Header
named name is_dir = record {
  name = name;
  typeflag = 48;
  is_dir = is_dir;
  size = 3;
  mode = 0o644;
  access_time = none;
  mod_time = some 5;
}

abbrev good_events : List Event
good_events =
    entry (named (codes "d") true) content ∷ entry (named (codes "d/f") false) content ∷ []

abbrev evil_events : List Event
evil_events = entry (named (codes "../f") false) content ∷ []

abbrev written_file : Result (Unit {0}) × World → Option Node
written_file (r, w) = w.tree (codes "f" ∷ codes "d" ∷ codes "out" ∷ [])

untar-file :
    written_file (untar env (λ s. s) (codes "/out") limits good_events calm_world)
    ≡ some (file (record { mode = 0o644; accessed = 7; modified = 5 }) (1 ∷ 2 ∷ 3 ∷ []))
unfolding untar has_prefix write
untar-file = refl

untar-traversal : is_ok (untar env (λ s. s) (codes "/out") limits evil_events calm_world).0 ≡ false
unfolding untar has_prefix write
untar-traversal = refl

untar-empty : is_ok (untar env (λ s. s) (codes "/out") limits [] calm_world).0 ≡ false
unfolding untar has_prefix write
untar-empty = refl

down : ends_up (codes "/out") ≡ false
unfolding ends_up
down = refl

untar-Confined_example :
    Confined
      (locate (codes "w" ∷ []) (codes "/out"))
      bare
      (untar env (λ s. s) (codes "/out") limits good_events faulty_world).1
untar-Confined_example =
    untar-Confined env (λ s. s) (codes "/out") limits good_events faulty_world (λ Allowed seen h. h)
      down

written-untar_example :
    (untar env (λ s. s) (codes "/out") limits good_events faulty_world).1.written ≤ 0 + 100
written-untar_example =
    written-untar env (λ s. s) (codes "/out") limits good_events faulty_world (λ Allowed seen h. h)
      (omega arith) ((omega arith, tt), ((omega arith, tt), tt))

abbrev zipped : Text → Bool → ZipFile
zipped name is_dir = record {
  name = name;
  is_dir = is_dir;
  size = 3;
  mode = 0o644;
  body = ok content;
}

abbrev zip_files : List ZipFile
zip_files = zipped (codes "d/") true ∷ zipped (codes "d/f") false ∷ []

unzip-file :
    written_file (unzip env (codes "/out") 0o755 limits zip_files calm_world)
    ≡ some (file (record { mode = 0o644; accessed = 7; modified = 7 }) (1 ∷ 2 ∷ 3 ∷ []))
unfolding unzip has_prefix Int64.add write
unzip-file = refl

unzip-Confined_example :
    Confined
      (locate (codes "w" ∷ []) (codes "/out"))
      bare
      (unzip env (codes "/out") 0o755 limits zip_files faulty_world).1
unzip-Confined_example = unzip-Confined env (codes "/out") 0o755 limits zip_files faulty_world down

abbrev FitsResult : Result Stream → Type 0
FitsResult (ok src) = Fits src.reads
FitsResult (err _) = Unit

content-Fits : (src : Stream) → ok content ≡ ok src → Fits src.reads
content-Fits src e = subst (λ (r : Result Stream). FitsResult r) e (omega arith, tt)

written-unzip_example :
    (unzip env (codes "/out") 0o755 limits zip_files faulty_world).1.written ≤ 0 + 100
written-unzip_example =
    written-unzip env (codes "/out") 0o755 limits zip_files faulty_world (omega arith)
      (content-Fits, (content-Fits, tt))

-- A directory is made before the second name is refused.
abbrev mixed_events : List Event
mixed_events =
    entry (named (codes "d") true) content ∷ entry (named (codes "../f") false) content ∷ []

abbrev mixed_files : List ZipFile
mixed_files = zipped (codes "d/") true ∷ zipped (codes "../f") false ∷ []

abbrev made : Loc
made = codes "d" ∷ codes "out" ∷ []

ends_named : names_last (codes "/out") ≡ true
unfolding names_last
ends_named = refl

straight : turns_back (codes "/out") ≡ false
unfolding turns_back
straight = refl

untar-mixed : is_ok (untar env (λ s. s) (codes "/out") limits mixed_events calm_world).0 ≡ false
unfolding untar has_prefix write
untar-mixed = refl

deferring_removal-untar_example :
    RemovedOrKept
      (locate (codes "w" ∷ []) (codes "/out"))
      bare
      (deferring_removal env
        (codes "/out")
        true
        (untar env (λ s. s) (codes "/out") limits mixed_events)
        calm_world).1.tree
      made
deferring_removal-untar_example =
    deferring_removal-untar env (λ s. s) (codes "/out") limits mixed_events calm_world
      (λ Allowed seen h. h) refl ends_named straight down untar-mixed made

unzip-mixed : is_ok (unzip env (codes "/out") 0o755 limits mixed_files calm_world).0 ≡ false
unfolding unzip has_prefix Int64.add write
unzip-mixed = refl

deferring_removal-unzip_example :
    RemovedOrKept
      (locate (codes "w" ∷ []) (codes "/out"))
      bare
      (deferring_removal env
        (codes "/out")
        true
        (unzip env (codes "/out") 0o755 limits mixed_files)
        calm_world).1.tree
      made
deferring_removal-unzip_example =
    deferring_removal-unzip env (codes "/out") 0o755 limits mixed_files calm_world refl ends_named
      straight down unzip-mixed made

untar-good : (untar env (λ s. s) (codes "/out") limits good_events calm_world).0 ≡ ok tt
unfolding untar has_prefix write
untar-good = refl

untar-AcceptedEvents_example :
    AcceptedEvents env.cwd (codes "/out") limits good_events
    × (counted good_events ≤ 10)
    × (good_events ≢ [])
untar-AcceptedEvents_example =
    untar-AcceptedEvents env (λ s. s) (codes "/out") limits good_events calm_world (omega arith)
      down untar-good

unzip-good : (unzip env (codes "/out") 0o755 limits zip_files calm_world).0 ≡ ok tt
unfolding unzip has_prefix Int64.add write
unzip-good = refl

unzip-AcceptedFile_example :
    (length zip_files ≤ 10) × All (AcceptedFile env.cwd (codes "/out") limits) zip_files
unzip-AcceptedFile_example =
    unzip-AcceptedFile env (codes "/out") 0o755 limits zip_files calm_world (omega arith)
      (omega arith) down unzip-good
