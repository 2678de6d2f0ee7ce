-- ===== src/Tar/Removal.antt =====
-- What a failed extraction of a tar archive leaves behind.
use go_gather.Base.{◌≡◌, true, false, [], List}
use go_gather.Base.Text.{Text}
use go_gather.Path.{Loc, names_last, turns_back, locate}
use go_gather.Helpers.Climb.{ends_up}
use go_gather.Exec.{is_ok}
use go_gather.Os.{World, Env}
use go_gather.Os.Written.{Calm}
use go_gather.Expand.Limits.{Limits}
use go_gather.Expand.Copy.{Extraction}
use go_gather.Expand.Invariants.{calm_rules, Calm-of_After}
use go_gather.Expand.Cleanup.{deferring_removal}
use go_gather.Expand.Undone.{RemovedOrKept, removed_or_kept}
use go_gather.Tar.Untar.{Event, SeenDirs, untar, untar_body}
use go_gather.Tar.Rules.{untar_body-Keeps}
use go_gather.Tar.Confinement.{Shows, any_events, untar-Confined}

untar-Calm :
    (env : Env) (order : SeenDirs → SeenDirs) (dst : Text) (limits : Limits) (events : List Event)
    (w : World)
    → Shows order
    → Calm w
    → Calm (untar env order dst limits events w).1
unfolding untar
untar-Calm env order dst limits events w shows calm =
    let start : Extraction = record { world = w; copied = 0 } in
    let keeps =
      untar_body-Keeps limits (calm_rules env limits.max_total) dst (λ name inside. (tt, tt)) order
        (shows (λ p. Unit)) events (any_events events) in
    Calm-of_After (untar_body env order dst limits events start).0
      (untar_body env order dst limits events start).1 (keeps.at start calm)

-- On a disk where nothing fails, an archive that is refused leaves nothing behind: at the
-- destination, which was missing before, and below it nothing is left, and outside of it nothing
-- has changed but for missing directories on the way to it. The destination is a path that ends in
-- a name (so it is not `out/.`), in which no `..` stands behind a name, and it does not clean to a
-- path that ends in `..`.
pub deferring_removal-untar :
    (env : Env) (order : SeenDirs → SeenDirs) (dst : Text) (limits : Limits) (events : List Event)
    (w : World)
    → Shows order
    → w.faults ≡ []
    → names_last dst ≡ true
    → turns_back dst ≡ false
    → ends_up dst ≡ false
    → is_ok (untar env order dst limits events w).0 ≡ false
    → (l : Loc)
    → RemovedOrKept
        (locate env.cwd dst)
        w.tree
        (deferring_removal env dst true (untar env order dst limits events) w).1.tree
        l
deferring_removal-untar env order dst limits events w shows calm named straight down failed l =
    let m = untar env order dst limits events in
    removed_or_kept env dst m w l named straight failed
      (untar-Calm env order dst limits events w shows calm)
      (untar-Confined env order dst limits events w shows down)
