-- ===== src/Os/Confined.antt =====
-- What code may change outside of a directory: nothing that exists. New there are at most
-- directories on the way to it.
use go_gather.Base.{
  ℕ, ◌≡◌, refl, ap, sym, subst, ◌∙◌, ◌⊎◌, inl, inr, true, false, Option, none, some, List, [], ◌∷◌,
  Bool-cases, take,
}
use go_gather.Base.Text.{Text}
use go_gather.Path.{Loc, locate}
use go_gather.Exec.{Result, ok, err, Exec}
use go_gather.Exec.Keeps.{Keeps, After, Keeps-bind}
use go_gather.Os.Defs.{
  Bytes, Attr, Node, dir, file, Tree, World, Env, loc_eq, under, update, set, next_due, due,
  call_step, call, write_step, at_path, reach-cases, at_reached, appended, look, stat, opened,
  open_read, change_step, change_attr, append_at, write, close, make_dir_step, make_dir,
  make_dirs_step, make_dirs, mkdir_all, create_step, truncate_step, truncate, set_mode, set_times,
  open_trunc, chmod, chtimes,
}
use go_gather.Os.Places.{loc_eq→eq, Comparable, Comparable-parent}

abbrev pub IsDirAt : Option Node → Type 0
IsDirAt o = (a : Attr) × (o ≡ some (dir a))

-- The place is as it was, or it was missing, lies on the way to `root`, and is a directory now.
abbrev pub Kept : Loc → Tree → Tree → Loc → Type 0
Kept root t t' l = (t' l ≡ t l) ⊎ ((t l ≡ none) × (under l root ≡ true) × IsDirAt (t' l))

pub record Confined (root : Loc) (t : Tree) (w : World) : Type 0 where
  pub outside : (l : Loc) → under root l ≡ false → Kept root t w.tree l

tree-next_due : (fs : List (Option ℕ)) (w : World) → (next_due fs w).1.tree ≡ w.tree
unfolding next_due
tree-next_due [] w = refl
tree-next_due (f ∷ fs) w = refl

pub tree-due : (w : World) → (due w).1.tree ≡ w.tree
unfolding due
tree-due w = tree-next_due w.faults w

module _ (root : Loc) (t : Tree) where
  pub Confined-both :
      {A : Type 0} (r : Result A) (w : World)
      → After (Confined root t) (Confined root t) r w
      → Confined root t w
  Confined-both (ok _) w c = c
  Confined-both (err _) w c = c

  -- A change below the root.
  Confined-update :
      (l : Loc) (v : Option Node) (w : World)
      → under root l ≡ true
      → Confined root t w
      → Confined root t (set l v w)
  unfolding update
  Confined-update l v w h c = record {
    outside = λ m o. elim (Bool-cases (loc_eq m l)) [
      | inl e ↦ absurd (cc (o, h, loc_eq→eq m l e))
      | inr ne ↦ rw ne (c.outside m o)
    ];
  }

  -- A new directory on the way to the root.
  new_dir :
      (w : World) (a : Attr) (m : Loc)
      → Kept root t w.tree m
      → w.tree m ≡ none
      → under m root ≡ true
      → (some (dir a) ≡ t m) ⊎ ((t m ≡ none) × (under m root ≡ true) × IsDirAt (some (dir a)))
  new_dir w a m (inl e) n h = inr (sym e ∙ n, h, (a, refl))
  new_dir w a m (inr (_, _, (b, d))) n h = absurd (cc (d, n))

  Confined-update_dir :
      (l : Loc) (a : Attr) (w : World)
      → w.tree l ≡ none
      → Comparable root l
      → Confined root t w
      → Confined root t (set l (some (dir a)) w)
  unfolding update
  Confined-update_dir l a w missing (inl h) c = Confined-update l (some (dir a)) w h c
  Confined-update_dir l a w missing (inr h) c = record {
    outside = λ m o. elim (Bool-cases (loc_eq m l)) [
      | inl e ↦ rw e (
          new_dir w a m (c.outside m o) (ap w.tree (loc_eq→eq m l e) ∙ missing)
            (subst (λ x. under x root ≡ true) (sym (loc_eq→eq m l e)) h))
      | inr ne ↦ rw ne (c.outside m o)
    ];
  }

  pub Confined-tree : (w w' : World) → w'.tree ≡ w.tree → Confined root t w → Confined root t w'
  Confined-tree w w' e c = record {
    outside = λ l o. subst (λ x. Kept root t x l) (sym e) (c.outside l o);
  }

  abbrev pub Stays : {A : Type 0} → Exec World A → Type 0
  Stays = Keeps (Confined root t) (Confined root t)

  After-call_step :
      {A : Type 0} (m : Exec World A) (f : Option ℕ) (w : World)
      → Stays m
      → Confined root t w
      → After (Confined root t) (Confined root t) (call_step m f w).0 (call_step m f w).1
  unfolding call_step
  After-call_step m none w k c = k.at w c
  After-call_step m (some _) w k c = c

  pub Stays-call : {A : Type 0} (m : Exec World A) → Stays m → Stays (call m)
  unfolding call
  Stays-call m k = record {
    at = λ w c. let (f, w') = due w in After-call_step m f w' k (Confined-tree w w' (tree-due w) c);
  }

  Confined-append_at :
      (l : Loc) (b : Bytes) (w : World)
      → under root l ≡ true
      → Confined root t w
      → Confined root t (append_at l b w)
  unfolding append_at
  Confined-append_at l b w h c =
      Confined-tree (set l (appended (w.tree l) b) w) (append_at l b w) refl
        (Confined-update l (appended (w.tree l) b) w h c)

  After-write_step :
      (l : Loc) (b : Bytes) (f : Option ℕ) (w : World)
      → under root l ≡ true
      → Confined root t w
      → After (Confined root t) (Confined root t) (write_step l b f w).0 (write_step l b f w).1
  unfolding write_step
  After-write_step l b none w h c = Confined-append_at l b w h c
  After-write_step l b (some k) w h c = Confined-append_at l (take k b) w h c

  pub Stays-write : (l : Loc) (b : Bytes) → under root l ≡ true → Stays (write l b)
  unfolding write
  Stays-write l b h = record {
    at = λ w c.
        let (f, w') = due w in After-write_step l b f w' h (Confined-tree w w' (tree-due w) c);
  }

  pub Stays-close : Stays close
  unfolding close
  Stays-close = Stays-call _ (record { at = λ w c. c })

  After-make_dir_step :
      (env : Env) (mode : ℕ) (l : Loc) (o : Option Node) (w : World)
      → o ≡ w.tree l
      → Comparable root l
      → Confined root t w
      → After
          (Confined root t)
          (Confined root t)
          (make_dir_step env mode l o w).0
          (make_dir_step env mode l o w).1
  unfolding make_dir_step
  After-make_dir_step env mode l none w e h c = Confined-update_dir l _ w (sym e) h c
  After-make_dir_step env mode l (some (dir _)) w e h c = c
  After-make_dir_step env mode l (some (file _ _)) w e h c = c

  Stays-make_dir :
      (env : Env) (mode : ℕ) (l : Loc) → Comparable root l → Stays (make_dir env mode l)
  unfolding make_dir
  Stays-make_dir env mode l h =
      Stays-call _ (record { at = λ w c. After-make_dir_step env mode l (w.tree l) w refl h c })

  After-make_dirs_step :
      (env : Env) (make : Exec World (Unit {0})) (o : Option Node) (w : World)
      → Stays make
      → Confined root t w
      → After
          (Confined root t)
          (Confined root t)
          (make_dirs_step env make o w).0
          (make_dirs_step env make o w).1
  unfolding make_dirs_step
  After-make_dirs_step env make (some (dir _)) w k c = c
  After-make_dirs_step env make (some (file _ _)) w k c = c
  After-make_dirs_step env make none w k c = k.at w c

  pub Stays-make_dirs :
      (env : Env) (mode : ℕ) (l : Loc) → Comparable root l → Stays (make_dirs env mode l)
  unfolding make_dirs
  Stays-make_dirs env mode [] h = record { at = λ w c. c }
  Stays-make_dirs env mode (n ∷ l) h =
      let make =
        Keeps-bind (make_dirs env mode l) (λ _. make_dir env mode (n ∷ l))
          (Stays-make_dirs env mode l (Comparable-parent root l n h))
          (λ _. Stays-make_dir env mode (n ∷ l) h) in
      record { at = λ w c. After-make_dirs_step env _ (w.tree (n ∷ l)) w make c }

  Stays-at_path :
      {A : Type 0} (env : Env) (p : Text) (f : Loc → Exec World A)
      → Stays (f (locate env.cwd p))
      → Stays (at_path env p f)
  unfolding at_path at_reached
  Stays-at_path env p f k = record {
    at = λ w c. elim (reach-cases w.tree env.cwd p) [
      | inl (x, e) ↦ rw e c
      | inr e ↦ rw e (k.at w c)
    ];
  }

  pub Stays-mkdir_all :
      (env : Env) (p : Text) (mode : ℕ)
      → Comparable root (locate env.cwd p)
      → Stays (mkdir_all env p mode)
  unfolding mkdir_all
  Stays-mkdir_all env p mode h =
      Stays-at_path env p (make_dirs env mode) (Stays-make_dirs env mode (locate env.cwd p) h)

  After-create_step :
      (env : Env) (mode : ℕ) (l : Loc) (o : Option Node) (w : World)
      → under root l ≡ true
      → Confined root t w
      → After
          (Confined root t)
          (Confined root t)
          (create_step env mode l o w).0
          (create_step env mode l o w).1
  unfolding create_step
  After-create_step env mode l (some (dir _)) w h c = Confined-update l _ w h c
  After-create_step env mode l (some (file _ _)) w h c = c
  After-create_step env mode l none w h c = c

  After-truncate_step :
      (env : Env) (mode : ℕ) (l : Loc) (o : Option Node) (w : World)
      → under root l ≡ true
      → Confined root t w
      → After
          (Confined root t)
          (Confined root t)
          (truncate_step env mode l o w).0
          (truncate_step env mode l o w).1
  unfolding truncate_step
  After-truncate_step env mode l (some (dir _)) w h c = c
  After-truncate_step env mode l (some (file a _)) w h c = Confined-update l _ w h c
  After-truncate_step env mode l none w h c = After-create_step env mode l _ w h c

  pub Stays-open_trunc :
      (env : Env) (p : Text) (mode : ℕ)
      → under root (locate env.cwd p) ≡ true
      → Stays (open_trunc env p mode)
  unfolding open_trunc
  Stays-open_trunc env p mode h =
      let l = locate env.cwd p in
      Stays-at_path env p (λ m. call (truncate env mode m))
        (Stays-call (truncate env mode l)
          (record { at = λ w c. After-truncate_step env mode l (w.tree l) w h c }))

  After-change_step :
      (f : Attr → Attr) (l : Loc) (o : Option Node) (w : World)
      → under root l ≡ true
      → Confined root t w
      → After (Confined root t) (Confined root t) (change_step f l o w).0 (change_step f l o w).1
  unfolding change_step
  After-change_step f l none w h c = c
  After-change_step f l (some n) w h c = Confined-update l _ w h c

  Stays-change_attr :
      (f : Attr → Attr) (l : Loc) → under root l ≡ true → Stays (call (change_attr f l))
  Stays-change_attr f l h =
      Stays-call (change_attr f l) (record { at = λ w c. After-change_step f l (w.tree l) w h c })

  pub Stays-chmod :
      (env : Env) (p : Text) (mode : ℕ)
      → under root (locate env.cwd p) ≡ true
      → Stays (chmod env p mode)
  unfolding chmod
  Stays-chmod env p mode h =
      Stays-at_path env p (λ l. call (change_attr (set_mode mode) l))
        (Stays-change_attr (set_mode mode) (locate env.cwd p) h)

  pub Stays-chtimes :
      (env : Env) (p : Text) (accessed modified : ℕ)
      → under root (locate env.cwd p) ≡ true
      → Stays (chtimes env p accessed modified)
  unfolding chtimes
  Stays-chtimes env p accessed modified h =
      Stays-at_path env p (λ l. call (change_attr (set_times accessed modified) l))
        (Stays-change_attr (set_times accessed modified) (locate env.cwd p) h)

  After-same :
      {A : Type 0} (r : Result A) (w : World)
      → Confined root t w
      → After (Confined root t) (Confined root t) r w
  After-same (ok a) w c = c
  After-same (err e) w c = c

  pub Stays-look :
      {A : Type 0} (env : Env) (p : Text) (f : Loc → World → Result A)
      → Stays (at_path env p (λ l. call (λ w. (f l w, w))))
  Stays-look env p f =
      Stays-at_path env p (λ l. call (λ w. (f l w, w)))
        (Stays-call (λ w. (f (locate env.cwd p) w, w))
          (record { at = λ w c. After-same (f (locate env.cwd p) w) w c }))

  pub Stays-stat : (env : Env) (p : Text) → Stays (stat env p)
  unfolding stat
  Stays-stat env p = Stays-look env p look

  pub Stays-open_read : (env : Env) (p : Text) → Stays (open_read env p)
  unfolding open_read
  Stays-open_read env p = Stays-look env p (λ l w. opened (look l w))
