-- ===== src/Tar/Confinement.antt =====
-- Where the extraction of a tar archive writes, and how much.
use go_gather.Base.{◌+◌, ◌≤◌, ◌≡◌, refl, true, false, inl, List, [], ◌∷◌, arith}
use go_gather.Base.Int64.{max_int}
use go_gather.Base.Text.{Text}
use go_gather.Path.{locate}
use go_gather.Helpers.Climb.{ends_up}
use go_gather.Helpers.Entry.{entry-under, entry_dir-under}
use go_gather.Os.{World, Env, under}
use go_gather.Os.Confined.{Confined}
use go_gather.Expand.Limits.{Limits}
use go_gather.Expand.Copy.{buffer_length, Extraction}
use go_gather.Expand.Copy.Bound.{Fits, Bounded-of_After}
use go_gather.Expand.Invariants.{Confined-of_After, confined_rules, budget_rules}
use go_gather.Tar.Untar.{Event, entry, bad, SeenDirs, untar, untar_body}
use go_gather.Tar.Rules.{SoundEvents, AllowedDirs, untar_body-Keeps}

-- The order in which the map of directories is ranged over shows only directories of the map.
abbrev pub Shows : (SeenDirs → SeenDirs) → Type 1
Shows order =
    (Allowed : Text → Type 0) (seen : SeenDirs)
    → AllowedDirs Allowed seen
    → AllowedDirs Allowed (order seen)

pub any_events : (events : List Event) → SoundEvents (λ _. Unit) events
any_events [] = tt
any_events (entry _ _ ∷ events) = (tt, any_events events)
any_events (bad _ ∷ events) = any_events events

-- Whatever the archive holds and whichever calls fail, extracting it changes no file and no
-- directory that lies outside of the destination; outside, at most missing directories on the way
-- to the destination are made. The destination does not clean to a path that ends in `..`, and the
-- map of directories is ranged over in any order that shows only its directories.
pub untar-Confined :
    (env : Env) (order : SeenDirs → SeenDirs) (dst : Text) (limits : Limits) (events : List Event)
    (w : World)
    → Shows order
    → ends_up dst ≡ false
    → Confined (locate env.cwd dst) w.tree (untar env order dst limits events w).1
unfolding untar
untar-Confined env order dst limits events w shows down =
    let root = locate env.cwd dst in
    let start : Extraction = record { world = w; copied = 0 } in
    let keeps =
      untar_body-Keeps limits (confined_rules root w.tree env limits.max_total) dst
        (λ name inside.
          (entry-under env.cwd dst name down inside, entry_dir-under env.cwd dst name down inside))
        order (shows (λ p. under root (locate env.cwd p) ≡ true)) events (any_events events) in
    Confined-of_After root w.tree (untar_body env order dst limits events start).0
      (untar_body env order dst limits events start).1
      (keeps.at start (record { outside = λ l _. inl refl }))

-- No read of an entry delivers more than the scratch buffer holds.
abbrev pub FittingEvents : List Event → Type 0
FittingEvents = SoundEvents (λ r. Fits r.reads)

-- Whatever fails, and also where the extraction ends with an error, it puts at most `max_total`
-- bytes on disk, over all entries; the limit leaves room for one buffer below `math.MaxInt64`.
pub written-untar :
    (env : Env) (order : SeenDirs → SeenDirs) (dst : Text) (limits : Limits) (events : List Event)
    (w : World)
    → Shows order
    → limits.max_total + buffer_length ≤ max_int
    → FittingEvents events
    → (untar env order dst limits events w).1.written ≤ w.written + limits.max_total
unfolding untar
written-untar env order dst limits events w shows room fits =
    let start : Extraction = record { world = w; copied = 0 } in
    let keeps =
      untar_body-Keeps limits (budget_rules w.written 0 limits.max_total room env) dst
        (λ name inside. (tt, tt)) order (shows (λ p. Unit)) events fits in
    let bound =
      Bounded-of_After w.written 0 limits.max_total (untar_body env order dst limits events start).0
        (untar_body env order dst limits events start).1
        (keeps.at start (omega arith, omega arith)) in
    omega arith
