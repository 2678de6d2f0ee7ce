-- ===== src/Os/Removal.antt =====
-- `os.RemoveAll`.
use go_gather.Base.{
  ℕ, ◌≡◌, refl, true, false, not, ◌&&◌, Option, none, some, List, [], ◌∷◌, if◌then◌else◌,
}
use go_gather.Base.Text.{Text}
use go_gather.Path.{Loc, dot, is_empty, locate, turns_back, names_last, ends_with_dot}
use go_gather.Exec.{not_dir, fault, plain, errno, ok, err, Exec}
use go_gather.Os.{
  World, Env, Node, detour_of, detour_of_straight, blocked, loc_eq, under, next_due, due, call_step,
  call,
}

module _ (env : Env) where
  unfoldable pub remove_tree : Loc → Exec World (Unit {0})
  unfolding under
  remove_tree root w = (ok tt, record w { tree = λ l. if under root l then none else w.tree l })

  -- What is below a place that cannot be removed itself.
  unfoldable pub empty_step : Loc → Option Node → Exec World (Unit {0})
  unfolding under loc_eq
  empty_step root none w = (ok tt, w)
  empty_step root (some _) w = (
    err (errno fault),
    record w { tree = λ l. if under root l && not (loc_eq l root) then none else w.tree l },
  )

  -- Where a `..` leaves a place that is missing, there is nothing to remove.
  unfoldable pub remove_behind : Exec World (Unit {0}) → Option Loc → Exec World (Unit {0})
  unfolding blocked
  remove_behind m none w = m w
  remove_behind m (some left) w =
      (if blocked w.tree (dot ∷ left) then err (errno not_dir) else ok tt, w)

  unfoldable pub removing : Text → Exec World (Unit {0}) → Exec World (Unit {0})
  unfolding call remove_behind detour_of
  removing p m = call (λ w. remove_behind m (detour_of w.tree env.cwd p) w)

  -- `os.RemoveAll`. Where it fails by a failure that is due it has removed nothing. The empty path
  -- is no error, `.` and a path that ends in `/.` are refused, and of a directory that is reached
  -- by another path without a name at its end (`/`, `..`, `./`) only the content is removed.
  unfoldable pub remove_all : Text → Exec World (Unit {0})
  unfolding locate removing remove_tree empty_step names_last ends_with_dot
  remove_all p =
      let l = locate env.cwd p in
      if names_last p
      then removing p (remove_tree l)
      else if is_empty p
      then (λ w. (ok tt, w))
      else if ends_with_dot p
      then (λ w. (err (plain "invalid argument"), w))
      else removing p (λ w. empty_step l (w.tree l) w)

  abbrev pub Removed : Loc → World → World → Type 0
  Removed root w w' = (l : Loc) → w'.tree l ≡ (if under root l then none else w.tree l)

  Removed-of_next :
      (m : Exec World (Unit {0})) (root : Loc) (fs : List (Option ℕ)) (w : World)
      → fs ≡ []
      → Removed root w (m w).1
      → Removed root w (call_step m (next_due fs w).0 (next_due fs w).1).1
  unfolding next_due call_step
  Removed-of_next m root [] w e r = r
  Removed-of_next m root (f ∷ fs) w e r = absurd (cc e)

  -- A path that ends in a name and has no `..` behind a name is removed with all below it.
  pub remove_all-Removed :
      (p : Text) (w : World)
      → names_last p ≡ true
      → turns_back p ≡ false
      → w.faults ≡ []
      → Removed (locate env.cwd p) w (remove_all p w).1
  unfolding remove_all removing call due remove_behind remove_tree
  remove_all-Removed p w named straight calm =
      let none_left = detour_of_straight w.tree env.cwd p straight in
      rw named (Removed-of_next _ (locate env.cwd p) w.faults w calm (rw none_left (λ l. refl)))
