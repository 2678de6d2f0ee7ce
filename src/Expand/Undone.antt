-- ===== src/Expand/Undone.antt =====
-- Code that stays below a directory, with the deferred removal of that directory behind it.
use go_gather.Base.{◌≡◌, true, false, ◌⊎◌, inl, inr, none, Bool-cases, [], ◌∙◌}
use go_gather.Base.Text.{Text}
use go_gather.Path.{Loc, names_last, turns_back, locate}
use go_gather.Exec.{Exec, is_ok}
use go_gather.Os.{World, Env, Tree, under}
use go_gather.Os.Confined.{Confined, Kept}
use go_gather.Expand.Cleanup.{deferring_removal, deferring_removal-Removed}

-- At the place nothing is left, or the place is outside and kept.
abbrev pub RemovedOrKept : Loc → Tree → Tree → Loc → Type 0
RemovedOrKept root t t' l =
    ((under root l ≡ true) × (t' l ≡ none)) ⊎ ((under root l ≡ false) × Kept root t t' l)

Kept-same : (root : Loc) (t t' u : Tree) (l : Loc) → u l ≡ t' l → Kept root t t' l → Kept root t u l
Kept-same root t t' u l e (inl h) = inl (e ∙ h)
Kept-same root t t' u l e (inr (h, on, (a, d))) = inr (h, on, (a, e ∙ d))

pub removed_or_kept :
    {A : Type 0} (env : Env) (dst : Text) (m : Exec World A) (w : World) (l : Loc)
    → names_last dst ≡ true
    → turns_back dst ≡ false
    → is_ok (m w).0 ≡ false
    → (m w).1.faults ≡ []
    → Confined (locate env.cwd dst) w.tree (m w).1
    → RemovedOrKept (locate env.cwd dst) w.tree (deferring_removal env dst true m w).1.tree l
removed_or_kept env dst m w l named straight failed calm confined =
    let root = locate env.cwd dst in
    let gone = deferring_removal-Removed env dst m w named straight failed calm l in
    elim (Bool-cases (under root l)) [
      | inl below ↦ inl (below, (rw below at gone))
      | inr beside ↦ inr (
        beside,
        Kept-same root w.tree (m w).1.tree (deferring_removal env dst true m w).1.tree l
            (rw beside at gone) (confined.outside l beside),
      )
    ]
