-- ===== src/Helpers.antt =====
-- internal/helpers/helpers.go: the containment test and the expansion of `~`.
mod Components
pub mod Containment
pub mod Climb
pub mod Entry
use go_gather.Base.{Bool, true, false, Option, none, some, List, [], ◌∷◌, ◌++◌, if◌then◌else◌}
use go_gather.Base.Text.{Text, text_eq, has_prefix, drop}
use go_gather.Path.{slash, clean, join_path}

-- `IsPathContained`
unfoldable pub is_path_contained : Text → Text → Bool
is_path_contained path root =
    let clean_path = clean path in
    let clean_root = clean root in
    if text_eq clean_path clean_root
    then false
    else if text_eq clean_root (slash ∷ [])
    then has_prefix clean_path clean_root
    else has_prefix clean_path (clean_root ++ (slash ∷ []))

-- `ExpandPath`, for a process whose home directory is `home`: `none` where it is not known.
unfoldable pub expand_path : Option Text → Text → Option Text
unfolding has_prefix drop join_path
expand_path home path =
    if has_prefix path (b'~' ∷ [])
    then elim home [ none ↦ none | some home_dir ↦ some (join_path home_dir (drop 1 path)) ]
    else some path
