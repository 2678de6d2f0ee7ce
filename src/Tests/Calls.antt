-- ===== src/Tests/Calls.antt =====
-- Calls of package os on paths with `.` and `..` in them.
use go_gather.Base.{◌≡◌, refl, [], ◌∷◌, none, some}
use go_gather.Base.Text.{codes}
use go_gather.Exec.{not_exist, not_dir, errno, plain, ok, err}
use go_gather.Os.{open_read, loc_eq}
use go_gather.Os.Removal.{remove_all}
use go_gather.Tests.Disk.{env, world, at}

open_read_back : (open_read env (codes "/d/../g") (world [])).0 ≡ ok (some (4 ∷ 5 ∷ []))
unfolding open_read loc_eq
open_read_back = refl

open_read_missing : (open_read env (codes "/missing/../g") (world [])).0 ≡ err (errno not_exist)
unfolding open_read loc_eq
open_read_missing = refl

open_read_file : (open_read env (codes "/g/../g") (world [])).0 ≡ err (errno not_dir)
unfolding open_read loc_eq
open_read_file = refl

remove_all_below : at (codes "f" ∷ codes "d" ∷ []) (remove_all env (codes "/d/") (world [])) ≡ none
unfolding remove_all loc_eq
remove_all_below = refl

remove_all_dot :
    remove_all env (codes "/d/.") (world []) ≡ (err (plain "invalid argument"), world [])
unfolding remove_all loc_eq
remove_all_dot = refl

remove_all_missing : remove_all env (codes "/missing/../g") (world []) ≡ (ok tt, world [])
unfolding remove_all loc_eq
remove_all_missing = refl
