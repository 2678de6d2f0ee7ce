-- ===== src/Dirs/Names.antt =====
-- Names of directory entries, and the places they lead to.
use go_gather.Base.{◌≡◌, ap, ◌∙◌, true, false, [], ◌∷◌, ◌++◌, arith}
use go_gather.Base.Text.{Text, split}
use go_gather.Path.{slash, is_empty, is_name, turns_back, join_path, Loc, enter, walk, locate}
use go_gather.Path.Straight.{turns_back-clean}
use go_gather.Path.Idempotent.{locate-join_path}
use go_gather.Helpers.Containment.{clean-ne-empty}
use go_gather.Os.{under}

-- The name of a directory entry: one component that is no `.` and no `..`.
abbrev pub EntryName : Text → Type 0
EntryName name = (split slash name ≡ name ∷ []) × (is_name name ≡ true)

walk_name : (l : Loc) (name : Text) → is_name name ≡ true → walk l (name ∷ []) ≡ name ∷ l
unfolding walk enter is_name
walk_name l name h = ground arith

pub join_path-ne-empty : (a b : Text) → is_empty a ≡ false → is_empty (join_path a b) ≡ false
unfolding join_path
join_path-ne-empty a b h = rw h (clean-ne-empty (a ++ (slash ∷ b)))

-- A path that is joined has no `..` behind a name.
pub turns_back-join_path : (a b : Text) → is_empty a ≡ false → turns_back (join_path a b) ≡ false
unfolding join_path
turns_back-join_path a b h = rw h (turns_back-clean (a ++ (slash ∷ b)))

under-cons : (root l : Loc) (name : Text) → under root l ≡ true → under root (name ∷ l) ≡ true
unfolding under
under-cons root l name h = ground arith

pub child-locate :
    (cwd : Loc) (dst name : Text)
    → is_empty dst ≡ false
    → EntryName name
    → locate cwd (join_path dst name) ≡ name ∷ locate cwd dst
child-locate cwd dst name full (part, named) =
    locate-join_path cwd dst name full
    ∙ ap (walk (locate cwd dst)) part
    ∙ walk_name (locate cwd dst) name named

-- A destination below `root` that is not the empty path.
abbrev pub Inside : Loc → Loc → Text → Type 0
Inside cwd root dst = (is_empty dst ≡ false) × (under root (locate cwd dst) ≡ true)

pub child-Inside :
    (cwd root : Loc) (dst name : Text)
    → Inside cwd root dst
    → EntryName name
    → Inside cwd root (join_path dst name)
child-Inside cwd root dst name (full, h) e = (
  join_path-ne-empty dst name full,
  rw (child-locate cwd dst name full e) (under-cons root (locate cwd dst) name h),
)
