-- ===== src/Helpers/Entry.antt =====
-- Where the entry of an archive goes: `filepath.Join(dst, name)`, once it has passed
-- `IsPathContained`, and the directory that is made for it.
use go_gather.Base.{◌≡◌, ◌≢◌, refl, ap, sym, ◌∙◌, true, false, [], ◌∷◌, ◌++◌}
use go_gather.Base.Text.{Text}
use go_gather.Path.{slash, is_empty, clean, join_path, dir, Loc, parent, locate}
use go_gather.Path.Idempotent.{clean-clean}
use go_gather.Path.Dir.{locate-dir}
use go_gather.Helpers.{is_path_contained}
use go_gather.Helpers.Climb.{ends_up, contained-below, contained_top, full_of_contained}
use go_gather.Os.{under}
use go_gather.Os.Places.{under-append}

clean-join_path : (a b : Text) → is_empty a ≡ false → clean (join_path a b) ≡ join_path a b
unfolding join_path
clean-join_path a b h = rw h (clean-clean (a ++ (slash ∷ b)))

parent-under : (rel root : Loc) → rel ≢ [] → under root (parent (rel ++ root)) ≡ true
parent-under [] root h = absurd (h refl)
parent-under (n ∷ rel) root h = under-append rel root

module _ (cwd : Loc) (dst name : Text) (down : ends_up dst ≡ false) where
  module _ (inside : is_path_contained (join_path dst name) dst ≡ true) where
    dst_full : is_empty dst ≡ false
    dst_full = full_of_contained (join_path dst name) dst inside

    pub entry-under : under (locate cwd dst) (locate cwd (join_path dst name)) ≡ true
    entry-under =
        let (rel, _, _, e) = contained-below (join_path dst name) dst cwd inside down in
        rw e (under-append rel (locate cwd dst))

    pub entry_dir-under : under (locate cwd dst) (locate cwd (dir (join_path dst name))) ≡ true
    entry_dir-under =
        let p = join_path dst name in
        let (rel, ne, _, e) = contained-below p dst cwd inside down in
        let (t, s, top, named) = contained_top p dst inside down in
        let step : locate cwd (dir p) ≡ parent (rel ++ locate cwd dst) =
          ap (λ x. locate cwd (dir x)) (sym (clean-join_path dst name dst_full))
          ∙ locate-dir cwd p t s top named
          ∙ ap parent e in
        rw step (parent-under rel (locate cwd dst) ne)
