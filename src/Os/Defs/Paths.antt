-- ===== src/Os/Defs/Paths.antt =====
-- Where a path leads in a tree: what a `..` leaves behind a name has to be there.
use go_gather.Base.{
  Bool, true, false, Option, none, some, List, [], ◌∷◌, if◌then◌else◌, ◌||◌, ◌&&◌, not, ◌≡◌, refl,
  ◌⊎◌, inl, inr, Bool-cases,
}
use go_gather.Base.Text.{Text, split}
use go_gather.Path.{
  Loc, slash, dot, is_empty, is_abs, is_up, is_name, enter, locate, turns, turns_back,
}
use go_gather.Exec.{not_exist, not_dir, Err, errno, Result, ok, err, Exec}
use go_gather.Os.Defs.Worlds.{dir, file, Node, Tree, World, Env}

-- A missing place below a file is reported as `not_dir`.
unfoldable pub blocked : Tree → Loc → Bool
blocked t [] = false
blocked t (n ∷ l) = elim (t l) [ some (file _ _) ↦ true | _ ↦ blocked t l ]

abbrev is_dir_at : Option Node → Bool
is_dir_at (some (dir _)) = true
is_dir_at _ = false

-- The first place that a `..` behind a name leaves and that is no directory.
unfoldable detour : Tree → Bool → Loc → List Text → Option Loc
unfolding is_up is_name enter
detour t named l [] = none
detour t named l (c ∷ cs) =
    let rest = detour t (named || is_name c) (enter l c) cs in
    if is_up c && named && not (is_dir_at (t l)) then some l else rest

unfoldable pub detour_of : Tree → Loc → Text → Option Loc
unfolding detour split is_abs
detour_of t cwd p = detour t false (if is_abs p then [] else cwd) (split slash p)

detour_of_turns :
    (t : Tree) (named : Bool) (l : Loc) (cs : List Text)
    → turns named cs ≡ false
    → detour t named l cs ≡ none
unfolding turns detour
detour_of_turns t named l [] h = refl
detour_of_turns t named l (c ∷ cs) h = elim (Bool-cases (is_up c && named)) [
  | inl turn ↦ absurd (let x = (rw turn at h) in cc x)
  | inr on ↦ rw on (detour_of_turns t (named || is_name c) (enter l c) cs (rw on at h))
]

pub detour_of_straight :
    (t : Tree) (cwd : Loc) (p : Text) → turns_back p ≡ false → detour_of t cwd p ≡ none
unfolding detour_of turns_back
detour_of_straight t cwd p h =
    detour_of_turns t false (if is_abs p then [] else cwd) (split slash p) h

-- Where a path leads: the empty path names nothing, and what a `..` leaves has to be there.
unfoldable pub reach : Tree → Loc → Text → Result Loc
unfolding locate detour_of blocked
reach t cwd p = if is_empty p then err (errno not_exist) else elim (detour_of t cwd p) [
  | none ↦ ok (locate cwd p)
  | some left ↦ err (errno (if blocked t (dot ∷ left) then not_dir else not_exist))
]

pub reach-cases :
    (t : Tree) (cwd : Loc) (p : Text)
    → ((e : Err) × (reach t cwd p ≡ err e)) ⊎ (reach t cwd p ≡ ok (locate cwd p))
unfolding reach
reach-cases t cwd p = elim (Bool-cases (is_empty p)) [
  | inl empty ↦ inl (errno not_exist, rw empty refl)
  | inr full ↦ of_detour full (detour_of t cwd p) refl
]
  where
    of_detour :
        is_empty p ≡ false
        → (o : Option Loc) → detour_of t cwd p ≡ o
        → ((e : Err) × (reach t cwd p ≡ err e)) ⊎ (reach t cwd p ≡ ok (locate cwd p))
    of_detour full none d = inr (rw (full, d) refl)
    of_detour full (some left) d =
        inl (errno (if blocked t (dot ∷ left) then not_dir else not_exist), rw (full, d) refl)

pub reach_straight :
    (t : Tree) (cwd : Loc) (p : Text)
    → is_empty p ≡ false
    → turns_back p ≡ false
    → reach t cwd p ≡ ok (locate cwd p)
unfolding reach
reach_straight t cwd p full straight = rw (full, detour_of_straight t cwd p straight) refl

unfoldable pub at_reached : {A : Type 0} → Result Loc → (Loc → Exec World A) → Exec World A
at_reached (ok l) f w = f l w
at_reached (err e) f w = (err e, w)

module _ (env : Env) where
  unfoldable pub at_path : {A : Type 0} → Text → (Loc → Exec World A) → Exec World A
  unfolding reach at_reached
  at_path p f w = at_reached (reach w.tree env.cwd p) f w
