-- ===== src/Zip/Below.antt =====
-- The ZIP expander stays below its destination.
use go_gather.Base.{ℕ, ◌≡◌, refl, false, List}
use go_gather.Base.Text.{Text, codes, has_prefix}
use go_gather.Path.{locate}
use go_gather.Helpers.Climb.{ends_up}
use go_gather.Helpers.Entry.{entry-under, entry_dir-under}
use go_gather.Helpers.{expand_path}
use go_gather.Exec.{Result}
use go_gather.Exec.Keeps.{After-both, Keeps-bind, Keeps-lift, Keeps-wrapping, Keeps-try}
use go_gather.Os.{Env, Tree}
use go_gather.Os.Confined.{Confined, Stays, Stays-stat, Stays-open_read}
use go_gather.Expand.Limits.{ExpandOptions, Limits, effective}
use go_gather.Expand.Copy.{Extraction}
use go_gather.Expand.Invariants.{Confined-of_After, confined_rules}
use go_gather.Expand.Cleanup.{was_missing, expanded}
use go_gather.Expand.Below.{expand_path_plain, Stays-deferring_removal}
use go_gather.Zip.Unzip.{ZipFile, unzip, unzip_body, open_archive, expand_at, expand}
use go_gather.Zip.Confinement.{unzip_body-Keeps, any_files}
use go_gather.Os.{Bytes}
use go_gather.Base.{Option}

module _ (env : Env) (dst : Text) (down : ends_up dst ≡ false) (t : Tree) where
  Stays-unzip :
      (umask : ℕ) (limits : Limits) (files : List ZipFile)
      → Stays (locate env.cwd dst) t (unzip env dst umask limits files)
  unfolding unzip
  Stays-unzip umask limits files = record {
    at = λ w c.
        let root = locate env.cwd dst in
        let start : Extraction = record { world = w; copied = 0 } in
        let m = unzip_body env dst umask limits files start in
        let keeps =
          unzip_body-Keeps limits (confined_rules root t env limits.max_total) dst umask
            (λ name inside. (
              entry-under env.cwd dst name down inside,
              entry_dir-under env.cwd dst name down inside,
            ))
            files (any_files files) in
        After-both (Confined root t) (Confined root t) m.0 m.1.world (λ c. c)
          (Confined-of_After root t m.0 m.1 (keeps.at start c));
  }

  module _ (reader : Option Bytes → Result (List ZipFile)) where
    Stays-expand_at :
        (options : ExpandOptions) (src : Text) (umask : ℕ)
        → Stays (locate env.cwd dst) t (expand_at env reader options src dst umask)
    unfolding expand_at open_archive
    Stays-expand_at options src umask =
        Keeps-bind _ _
          (Keeps-wrapping _ _ (
            Keeps-bind _ _ (Stays-open_read (locate env.cwd dst) t env src)
              (λ content. Keeps-lift (reader content) (λ _ c. c))))
          (λ files.
            Keeps-bind _ _ (Keeps-try _ (Stays-stat (locate env.cwd dst) t env dst)) (λ seen.
              Stays-deferring_removal env (locate env.cwd dst) t dst (was_missing seen) _ refl
                (Stays-unzip umask (effective options) files)))

    -- `expand`, for a destination without a leading `~`.
    pub Stays-expand :
        (options : ExpandOptions) (src : Text) (umask : ℕ)
        → has_prefix dst (codes "~") ≡ false
        → Stays (locate env.cwd dst) t (expand env reader options src dst umask)
    unfolding expand expanded
    Stays-expand options src umask home =
        Keeps-bind _ _
          (Keeps-lift (expanded "failed to expand source path" (expand_path env.home src))
            (λ _ c. c))
          (λ src'. rw (expand_path_plain env.home dst home) (Stays-expand_at options src' umask))
