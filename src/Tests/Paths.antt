-- ===== src/Tests/Paths.antt =====
-- Containment and where contained paths lead, at concrete paths.
use go_gather.Base.{◌≡◌, ◌≢◌, ◌↔◌, refl, true, false, some, [], ◌∷◌, ◌++◌}
use go_gather.Base.Text.{codes, text_eq, has_prefix}
use go_gather.Path.{Loc, is_abs, stack, clean, dot_dot, parent, join_path, locate, base, ext}
use go_gather.Path.Normal.{AllUp}
use go_gather.Helpers.{is_path_contained, expand_path}
use go_gather.Helpers.Containment.{Extends, is_path_contained-iff-Extends}
use go_gather.Helpers.Climb.{ends_up, AllNames, contained-below, contained_climbs}

clean-messy : clean (codes "/a//b/./../c/") ≡ codes "/a/c"
unfolding clean
clean-messy = refl

base-slashes : base (codes "/a/b.tar.gz//") ≡ codes "b.tar.gz"
unfolding base
base-slashes = refl

ext-double : ext (codes "/a.d/b.tar.gz") ≡ codes ".gz"
unfolding ext
ext-double = refl

contained-sibling : is_path_contained (codes "out2/x") (codes "out") ≡ false
unfolding is_path_contained text_eq clean has_prefix
contained-sibling = refl

contained_self : is_path_contained (codes "./out/") (codes "out") ≡ false
unfolding is_path_contained text_eq clean has_prefix
contained_self = refl

-- A root that cleans to `.` contains not even its own files.
contained-dot : is_path_contained (codes "a") (codes ".") ≡ false
unfolding is_path_contained text_eq clean has_prefix
contained-dot = refl

expand_path-tilde : expand_path (some (codes "/home/u")) (codes "~/x") ≡ some (codes "/home/u/x")
unfolding expand_path
expand_path-tilde = refl

-- A `~name` is taken to be below the caller's home too.
expand_path-user :
    expand_path (some (codes "/home/u")) (codes "~bob/x") ≡ some (codes "/home/u/bob/x")
unfolding expand_path
expand_path-user = refl

is_path_contained-iff-Extends_example :
    (is_path_contained (codes "/out/a/../b") (codes "/out/") ≡ true)
    ↔ Extends (codes "/out/a/../b") (codes "/out/")
is_path_contained-iff-Extends_example =
    is_path_contained-iff-Extends (codes "/out/a/../b") (codes "/out/")

abbrev work : Loc
work = codes "work" ∷ []

inside : is_path_contained (codes "out/a/../b") (codes "./out") ≡ true
unfolding is_path_contained text_eq clean has_prefix
inside = refl

down : ends_up (codes "./out") ≡ false
unfolding ends_up
down = refl

contained-below_example :
    (rel : Loc) × (rel ≢ [])
    × AllNames rel
    × (locate work (codes "out/a/../b") ≡ rel ++ locate work (codes "./out"))
contained-below_example = contained-below (codes "out/a/../b") (codes "./out") work inside down

relative : is_abs (codes "a/../..") ≡ false
unfolding is_abs
relative = refl

up_stack : stack (codes "a/../..") ≡ dot_dot ∷ []
unfolding stack
up_stack = refl

up_ne_nil : stack (codes "a/../..") ≢ []
unfolding stack
up_ne_nil = cc

all_up : AllUp (stack (codes "a/../.."))
unfolding stack
all_up = (refl, tt)

contained_climbs_example :
    (is_path_contained (join_path (codes "a/../..") dot_dot) (codes "a/../..") ≡ true)
    × (locate (codes "here" ∷ work) (join_path (codes "a/../..") dot_dot)
        ≡ parent (locate (codes "here" ∷ work) (codes "a/../..")))
contained_climbs_example =
    contained_climbs (codes "a/../..") (codes "here" ∷ work) relative up_ne_nil all_up
