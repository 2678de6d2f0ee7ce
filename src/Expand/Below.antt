-- ===== src/Expand/Below.antt =====
-- The deferred removal stays below the destination.
use go_gather.Base.{
  ◌≡◌, [], ◌∷◌, refl, Bool, false, not, ◌&&◌, Bool-cases, inl, inr, Option, none, some,
}
use go_gather.Base.Text.{Text, has_prefix}
use go_gather.Path.{Loc, is_empty, names_last, ends_with_dot, locate}
use go_gather.Helpers.{expand_path}
use go_gather.Exec.{Result, Exec, is_ok}
use go_gather.Exec.Keeps.{After-both}
use go_gather.Os.{detour_of, Tree, World, Env, Node, call}
use go_gather.Os.Removal.{remove_tree, empty_step, remove_behind, removing, remove_all}
use go_gather.Os.Confined.{Confined, Stays, Stays-call}
use go_gather.Os.Confined.{Confined-both}
use go_gather.Expand.Cleanup.{remove_on_error, deferring_removal}

-- A path without a leading `~` is expanded to itself.
pub expand_path_plain :
    (home : Option Text) (p : Text) → has_prefix p (b'~' ∷ []) ≡ false → expand_path home p ≡ some p
unfolding expand_path
expand_path_plain home p h = rw h refl

module _ (env : Env) (root : Loc) (t : Tree) where
  Stays-remove_tree : Stays root t (remove_tree env root)
  unfolding remove_tree
  Stays-remove_tree = record { at = λ w c. record { outside = λ l o. rw o (c.outside l o) } }

  After-empty_step :
      (o : Option Node) (w : World)
      → Confined root t w
      → Confined root t (empty_step env root o w).1
  unfolding empty_step
  After-empty_step none w c = c
  After-empty_step (some _) w c = record { outside = λ l o. rw o (c.outside l o) }

  Stays-empty_step : Stays root t (λ w. empty_step env root (w.tree root) w)
  Stays-empty_step = record {
    at = λ w c.
        let m : Exec World (Unit {0}) = λ v. empty_step env root (v.tree root) v in
        After-both (Confined root t) (Confined root t) (m w).0 (m w).1 (λ c. c)
          (After-empty_step (w.tree root) w c);
  }

  Stays-remove_behind :
      (m : Exec World (Unit {0})) (o : Option Loc)
      → Stays root t m
      → Stays root t (remove_behind env m o)
  unfolding remove_behind
  Stays-remove_behind m none k = k
  Stays-remove_behind m (some left) k = record {
    at = λ w c. After-both (Confined root t) (Confined root t) _ w (λ c. c) c;
  }

  Confined-removing :
      (p : Text) (m : Exec World (Unit {0})) (w : World)
      → Stays root t m
      → Confined root t w
      → Confined root t (removing env p m w).1
  unfolding removing
  Confined-removing p m w k c =
      let behind : Exec World (Unit {0}) =
        λ v. remove_behind env m (detour_of v.tree env.cwd p) v in
      let stays : Stays root t behind = record {
        at = λ v d. (Stays-remove_behind m (detour_of v.tree env.cwd p) k).at v d;
      } in
      Confined-both root t (call behind w).0 (call behind w).1
        ((Stays-call root t behind stays).at w c)

  Confined-remove_all :
      (p : Text) (w : World)
      → locate env.cwd p ≡ root
      → Confined root t w
      → Confined root t (remove_all env p w).1
  unfolding remove_all
  Confined-remove_all p w e c = elim (Bool-cases (names_last p)) [
    | inl named ↦ rw (named, e) (Confined-removing p _ w Stays-remove_tree c)
    | inr other ↦ elim (Bool-cases (is_empty p)) [
      | inl empty ↦ rw (other, empty) c
      | inr full ↦ elim (Bool-cases (ends_with_dot p)) [
        | inl dot ↦ rw (other, full, dot) c
        | inr ended ↦ rw (other, full, ended, e) (Confined-removing p _ w Stays-empty_step c)
      ]
    ]
  ]

  Confined-remove_on_error :
      {A : Type 0} (p : Text) (created : Bool) (r : Result A) (w : World)
      → locate env.cwd p ≡ root
      → Confined root t w
      → Confined root t (remove_on_error env p created r w)
  unfolding remove_on_error
  Confined-remove_on_error p created r w e c = elim (Bool-cases (not (is_ok r) && created)) [
    | inl failed ↦ rw failed (Confined-remove_all p w e c)
    | inr fine ↦ rw fine c
  ]

  pub Stays-deferring_removal :
      {A : Type 0} (p : Text) (created : Bool) (m : Exec World A)
      → locate env.cwd p ≡ root
      → Stays root t m
      → Stays root t (deferring_removal env p created m)
  unfolding deferring_removal
  Stays-deferring_removal p created m e k = record {
    at = λ w c.
        let r = (m w).0 in
        let h = Confined-both root t r (m w).1 (k.at w c) in
        After-both (Confined root t) (Confined root t) r (remove_on_error env p created r (m w).1)
          (λ c. c) (Confined-remove_on_error p created r (m w).1 e h);
  }
