-- ===== src/Tar/Below.antt =====
-- The tar expander stays below its destination.
use go_gather.Base.{◌≡◌, refl, true, false, ◌||◌, List}
use go_gather.Base.Text.{Text, codes, contains, has_prefix}
use go_gather.Path.{locate}
use go_gather.Helpers.Climb.{ends_up}
use go_gather.Helpers.Entry.{entry-under, entry_dir-under}
use go_gather.Helpers.{expand_path}
use go_gather.Exec.{Result, ok, err}
use go_gather.Exec.Keeps.{
  After-both, Keeps-bind, Keeps-raise, Keeps-if, Keeps-lift, Keeps-wrapping, Keeps-try,
}
use go_gather.Os.{Env, Tree, under}
use go_gather.Os.Confined.{Confined, Stays, Stays-stat, Stays-open_read}
use go_gather.Expand.Limits.{ExpandOptions, Limits, effective}
use go_gather.Expand.Copy.{Extraction}
use go_gather.Expand.Invariants.{Confined-of_After, confined_rules}
use go_gather.Expand.Cleanup.{was_missing, expanded}
use go_gather.Expand.Below.{expand_path_plain, Stays-deferring_removal}
use go_gather.Tar.Untar.{Event, SeenDirs, untar, untar_body}
use go_gather.Tar.Rules.{untar_body-Keeps}
use go_gather.Tar.Confinement.{Shows, any_events}
use go_gather.Tar.Expander.{
  Codecs, opened_source, extract_tar_bz, extract_tar_gz, untar_gzip, extract, expand_at, expand,
}

module _ (env : Env) (order : SeenDirs → SeenDirs) (shows : Shows order) (dst : Text)
    (down : ends_up dst ≡ false) (t : Tree) where
  Stays-untar :
      (limits : Limits) (events : List Event)
      → Stays (locate env.cwd dst) t (untar env order dst limits events)
  unfolding untar
  Stays-untar limits events = record {
    at = λ w c.
        let root = locate env.cwd dst in
        let start : Extraction = record { world = w; copied = 0 } in
        let m = untar_body env order dst limits events start in
        let keeps =
          untar_body-Keeps limits (confined_rules root t env limits.max_total) dst
            (λ name inside. (
              entry-under env.cwd dst name down inside,
              entry_dir-under env.cwd dst name down inside,
            ))
            order (shows (λ p. under root (locate env.cwd p) ≡ true)) events (any_events events) in
        After-both (Confined root t) (Confined root t) m.0 m.1.world (λ c. c)
          (Confined-of_After root t m.0 m.1 (keeps.at start c));
  }

  module _ (codecs : Codecs) where
    open codecs use {Reader, input, gzip_reader, bzip2_reader, tar_events}

    Stays-untar_gzip :
        (r : Result Reader) (limits : Limits)
        → Stays (locate env.cwd dst) t (untar_gzip env codecs order r dst limits)
    unfolding untar_gzip
    Stays-untar_gzip (ok r) limits = Stays-untar limits (tar_events r)
    Stays-untar_gzip (err e) limits = Keeps-raise (λ _ c. c) _

    Stays-extract :
        (src : Text) (r : Reader) (limits : Limits)
        → Stays (locate env.cwd dst) t (extract env codecs order src r dst limits)
    unfolding extract extract_tar_gz extract_tar_bz
    Stays-extract src r limits =
        Keeps-if (contains src (codes "tar.gz") || contains src (codes "tgz")) _ _
          (λ _. Stays-untar_gzip (gzip_reader r) limits)
          (λ _.
            Keeps-if (contains src (codes "tar.bz2") || contains src (codes "tbz2")) _ _
              (λ _. Stays-untar limits (tar_events (bzip2_reader r)))
              (λ _. Stays-untar limits (tar_events r)))

    Stays-expand_at :
        (options : ExpandOptions) (src : Text)
        → Stays (locate env.cwd dst) t (expand_at env codecs order options src dst)
    unfolding expand_at
    Stays-expand_at options src =
        Keeps-bind _ _ (Keeps-try _ (Stays-open_read (locate env.cwd dst) t env src)) (λ opened.
          Keeps-bind _ _ (Keeps-lift (opened_source opened) (λ _ c. c)) (λ content.
            Keeps-bind _ _ (Keeps-try _ (Stays-stat (locate env.cwd dst) t env dst)) (λ seen.
              Stays-deferring_removal env (locate env.cwd dst) t dst (was_missing seen) _ refl (
                Keeps-wrapping "failed to extract tar archive" _
                  (Stays-extract src (input content) (effective options))))))

    -- `expand`, for a destination without a leading `~`.
    pub Stays-expand :
        (options : ExpandOptions) (src : Text)
        → has_prefix dst (codes "~") ≡ false
        → Stays (locate env.cwd dst) t (expand env codecs order options src dst)
    unfolding expand expanded
    Stays-expand options src home =
        Keeps-bind _ _
          (Keeps-lift (expanded "failed to expand source path" (expand_path env.home src))
            (λ _ c. c))
          (λ src'. rw (expand_path_plain env.home dst home) (Stays-expand_at options src'))
