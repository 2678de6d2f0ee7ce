-- ===== src/Zip/Removal.antt =====
-- What a failed extraction of a ZIP archive leaves behind.
use go_gather.Base.{ℕ, ◌≡◌, true, false, [], List}
use go_gather.Base.Text.{Text}
use go_gather.Path.{Loc, names_last, turns_back, locate}
use go_gather.Helpers.Climb.{ends_up}
use go_gather.Exec.{is_ok}
use go_gather.Os.{World, Env}
use go_gather.Os.Written.{Calm}
use go_gather.Expand.Limits.{Limits}
use go_gather.Expand.Copy.{Extraction}
use go_gather.Expand.Invariants.{calm_rules, Calm-of_After}
use go_gather.Expand.Cleanup.{deferring_removal}
use go_gather.Expand.Undone.{RemovedOrKept, removed_or_kept}
use go_gather.Zip.Unzip.{ZipFile, unzip, unzip_body}
use go_gather.Zip.Confinement.{any_files, unzip_body-Keeps, unzip-Confined}

unzip-Calm :
    (env : Env) (dst : Text) (umask : ℕ) (limits : Limits) (files : List ZipFile) (w : World)
    → Calm w
    → Calm (unzip env dst umask limits files w).1
unfolding unzip
unzip-Calm env dst umask limits files w calm =
    let start : Extraction = record { world = w; copied = 0 } in
    let keeps =
      unzip_body-Keeps limits (calm_rules env limits.max_total) dst umask (λ name inside. (tt, tt))
        files (any_files files) in
    Calm-of_After (unzip_body env dst umask limits files start).0
      (unzip_body env dst umask limits files start).1 (keeps.at start calm)

-- On a disk where nothing fails, an archive that is refused leaves nothing behind: at the
-- destination, which was missing before, and below it nothing is left, and outside of it nothing
-- has changed but for missing directories on the way to it. The destination is a path that ends in
-- a name (so it is not `out/.`), in which no `..` stands behind a name, and it does not clean to a
-- path that ends in `..`.
pub deferring_removal-unzip :
    (env : Env) (dst : Text) (umask : ℕ) (limits : Limits) (files : List ZipFile) (w : World)
    → w.faults ≡ []
    → names_last dst ≡ true
    → turns_back dst ≡ false
    → ends_up dst ≡ false
    → is_ok (unzip env dst umask limits files w).0 ≡ false
    → (l : Loc)
    → RemovedOrKept
        (locate env.cwd dst)
        w.tree
        (deferring_removal env dst true (unzip env dst umask limits files) w).1.tree
        l
deferring_removal-unzip env dst umask limits files w calm named straight down failed l =
    let m = unzip env dst umask limits files in
    removed_or_kept env dst m w l named straight failed
      (unzip-Calm env dst umask limits files w calm)
      (unzip-Confined env dst umask limits files w down)
