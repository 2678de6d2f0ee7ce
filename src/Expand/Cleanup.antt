-- ===== src/Expand/Cleanup.antt =====
-- `RemoveOnError` of expand/expander.go, run by a `defer` when the extraction is over.
use go_gather.Base.{
  ◌≡◌, Bool, true, false, Option, none, some, [], if◌then◌else◌, ◌&&◌, not, String,
}
use go_gather.Base.Text.{Text}
use go_gather.Path.{locate, names_last, turns_back}
use go_gather.Exec.{plain, wrap, Result, ok, err, Exec, is_ok}
use go_gather.Os.{World, Env, Node, is_not_exist}
use go_gather.Os.Removal.{remove_all, Removed, remove_all-Removed}

-- A path after `ExpandPath`, or the error that the expanders make of its error.
unfoldable pub expanded : String → Option Text → Result Text
expanded message none = err (wrap message (plain "could not get user home directory"))
expanded message (some p) = ok p

-- `os.IsNotExist` of the error of a look at the destination.
unfoldable pub was_missing : Result Node → Bool
was_missing (ok _) = false
was_missing (err e) = is_not_exist e

module _ (env : Env) where
  -- The error of `RemoveAll` is dropped.
  unfoldable pub remove_on_error : {A : Type 0} → Text → Bool → Result A → World → World
  remove_on_error path created r w =
      if not (is_ok r) && created then (remove_all env path w).1 else w

  -- `defer RemoveOnError(path, created, &err)` around the rest of a function.
  unfoldable pub deferring_removal : {A : Type 0} → Text → Bool → Exec World A → Exec World A
  deferring_removal path created m w = let (r, w') = m w in (r, remove_on_error path created r w')

  pub deferring_removal-Removed :
      {A : Type 0} (path : Text) (m : Exec World A) (w : World)
      → names_last path ≡ true
      → turns_back path ≡ false
      → is_ok (m w).0 ≡ false
      → (m w).1.faults ≡ []
      → Removed env (locate env.cwd path) (m w).1 (deferring_removal path true m w).1
  unfolding deferring_removal
  deferring_removal-Removed path m w named straight failed calm =
      unfold remove_on_error in rw failed (remove_all-Removed env path (m w).1 named straight calm)
