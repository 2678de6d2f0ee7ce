-- ===== src/Os/Written.antt =====
-- Calls that write no bytes keep every property that the failures to come and single places of the
-- tree do not decide.
use go_gather.Base.{ℕ, ◌≡◌, refl, ◌∙◌, Option, none, some, List, [], ◌∷◌, inl, inr}
use go_gather.Base.Text.{Text}
use go_gather.Path.{Loc, locate}
use go_gather.Exec.{Result, ok, err, Exec}
use go_gather.Exec.Keeps.{Keeps, After, Keeps-bind}
use go_gather.Os.Defs.{
  Attr, Node, dir, file, set, World, Env, next_due, due, call_step, call, at_path, reach-cases,
  at_reached, look, stat, change_step, change_attr, set_mode, set_times, close, make_dir_step,
  make_dir, make_dirs_step, make_dirs, mkdir_all, create_step, truncate_step, truncate, open_trunc,
  chmod, chtimes, write_step, write, append_at,
}

written-next_due : (fs : List (Option ℕ)) (w : World) → (next_due fs w).1.written ≡ w.written
unfolding next_due
written-next_due [] w = refl
written-next_due (f ∷ fs) w = refl

pub written-due : (w : World) → (due w).1.written ≡ w.written
unfolding due
written-due w = written-next_due w.faults w

-- A property that calls without writes keep.
pub record Steady (Count : World → Type 0) : Type 0 where
  pub next : (w : World) → Count w → Count (due w).1
  pub placed : (l : Loc) (v : Option Node) (w : World) → Count w → Count (set l v w)

module _ (Count : World → Type 0) (steady : Steady Count) where
  abbrev pub Quiet : {A : Type 0} → Exec World A → Type 0
  Quiet = Keeps Count Count

  abbrev Now : {A : Type 0} → Result A → World → Type 0
  Now = After Count Count

  Now-same : {A : Type 0} (r : Result A) (w : World) → Count w → Now r w
  Now-same (ok _) w h = h
  Now-same (err _) w h = h

  Now-call_step :
      {A : Type 0} (m : Exec World A) (f : Option ℕ) (w : World)
      → Quiet m
      → Count w
      → Now (call_step m f w).0 (call_step m f w).1
  unfolding call_step
  Now-call_step m none w k h = k.at w h
  Now-call_step m (some _) w k h = h

  Quiet-call : {A : Type 0} (m : Exec World A) → Quiet m → Quiet (call m)
  unfolding call
  Quiet-call m k = record {
    at = λ w h. let (f, w') = due w in Now-call_step m f w' k (steady.next w h);
  }

  Quiet-at_path :
      {A : Type 0} (env : Env) (p : Text) (f : Loc → Exec World A)
      → Quiet (f (locate env.cwd p))
      → Quiet (at_path env p f)
  unfolding at_path at_reached
  Quiet-at_path env p f k = record {
    at = λ w h. elim (reach-cases w.tree env.cwd p) [
      | inl (x, e) ↦ rw e h
      | inr e ↦ rw e (k.at w h)
    ];
  }

  pub Quiet-stat : (env : Env) (p : Text) → Quiet (stat env p)
  unfolding stat
  Quiet-stat env p =
      Quiet-at_path env p (λ l. call (λ w. (look l w, w)))
        (Quiet-call (λ w. (look (locate env.cwd p) w, w))
          (record { at = λ w h. Now-same (look (locate env.cwd p) w) w h }))

  pub Quiet-close : Quiet close
  unfolding close
  Quiet-close = Quiet-call _ (record { at = λ w h. h })

  Now-make_dir_step :
      (env : Env) (mode : ℕ) (l : Loc) (o : Option Node) (w : World)
      → Count w
      → Now (make_dir_step env mode l o w).0 (make_dir_step env mode l o w).1
  unfolding make_dir_step
  Now-make_dir_step env mode l none w h = steady.placed _ _ w h
  Now-make_dir_step env mode l (some (dir _)) w h = h
  Now-make_dir_step env mode l (some (file _ _)) w h = h

  Quiet-make_dir : (env : Env) (mode : ℕ) (l : Loc) → Quiet (make_dir env mode l)
  unfolding make_dir
  Quiet-make_dir env mode l =
      Quiet-call _ (record { at = λ w h. Now-make_dir_step env mode l (w.tree l) w h })

  Now-make_dirs_step :
      (env : Env) (make : Exec World (Unit {0})) (o : Option Node) (w : World)
      → Quiet make
      → Count w
      → Now (make_dirs_step env make o w).0 (make_dirs_step env make o w).1
  unfolding make_dirs_step
  Now-make_dirs_step env make (some (dir _)) w k h = h
  Now-make_dirs_step env make (some (file _ _)) w k h = h
  Now-make_dirs_step env make none w k h = k.at w h

  Quiet-make_dirs : (env : Env) (mode : ℕ) (l : Loc) → Quiet (make_dirs env mode l)
  unfolding make_dirs
  Quiet-make_dirs env mode [] = record { at = λ w h. h }
  Quiet-make_dirs env mode (m ∷ l) =
      let make =
        Keeps-bind (make_dirs env mode l) (λ _. make_dir env mode (m ∷ l))
          (Quiet-make_dirs env mode l) (λ _. Quiet-make_dir env mode (m ∷ l)) in
      record { at = λ w h. Now-make_dirs_step env _ (w.tree (m ∷ l)) w make h }

  pub Quiet-mkdir_all : (env : Env) (p : Text) (mode : ℕ) → Quiet (mkdir_all env p mode)
  unfolding mkdir_all
  Quiet-mkdir_all env p mode =
      Quiet-at_path env p (make_dirs env mode) (Quiet-make_dirs env mode (locate env.cwd p))

  Now-create_step :
      (env : Env) (mode : ℕ) (l : Loc) (o : Option Node) (w : World)
      → Count w
      → Now (create_step env mode l o w).0 (create_step env mode l o w).1
  unfolding create_step
  Now-create_step env mode l (some (dir _)) w h = steady.placed _ _ w h
  Now-create_step env mode l (some (file _ _)) w h = h
  Now-create_step env mode l none w h = h

  Now-truncate_step :
      (env : Env) (mode : ℕ) (l : Loc) (o : Option Node) (w : World)
      → Count w
      → Now (truncate_step env mode l o w).0 (truncate_step env mode l o w).1
  unfolding truncate_step
  Now-truncate_step env mode l (some (dir _)) w h = h
  Now-truncate_step env mode l (some (file _ _)) w h = steady.placed _ _ w h
  Now-truncate_step env mode l none w h = Now-create_step env mode l _ w h

  pub Quiet-open_trunc : (env : Env) (p : Text) (mode : ℕ) → Quiet (open_trunc env p mode)
  unfolding open_trunc
  Quiet-open_trunc env p mode =
      let l = locate env.cwd p in
      Quiet-at_path env p (λ m. call (truncate env mode m))
        (Quiet-call (truncate env mode l)
          (record { at = λ w h. Now-truncate_step env mode l (w.tree l) w h }))

  Now-change_step :
      (f : Attr → Attr) (l : Loc) (o : Option Node) (w : World)
      → Count w
      → Now (change_step f l o w).0 (change_step f l o w).1
  unfolding change_step
  Now-change_step f l none w h = h
  Now-change_step f l (some _) w h = steady.placed _ _ w h

  Quiet-change_attr : (f : Attr → Attr) (l : Loc) → Quiet (call (change_attr f l))
  Quiet-change_attr f l =
      Quiet-call (change_attr f l) (record { at = λ w h. Now-change_step f l (w.tree l) w h })

  pub Quiet-chmod : (env : Env) (p : Text) (mode : ℕ) → Quiet (chmod env p mode)
  unfolding chmod
  Quiet-chmod env p mode =
      Quiet-at_path env p (λ l. call (change_attr (set_mode mode) l))
        (Quiet-change_attr (set_mode mode) (locate env.cwd p))

  pub Quiet-chtimes : (env : Env) (p : Text) (a m : ℕ) → Quiet (chtimes env p a m)
  unfolding chtimes
  Quiet-chtimes env p a m =
      Quiet-at_path env p (λ l. call (change_attr (set_times a m) l))
        (Quiet-change_attr (set_times a m) (locate env.cwd p))

-- The number of bytes on disk is such a property.
abbrev pub Written : ℕ → World → Type 0
Written n w = w.written ≡ n

pub Written-Steady : (n : ℕ) → Steady (Written n)
Written-Steady n = record { next = λ w h. written-due w ∙ h; placed = λ l v w h. h }

-- Nothing will fail.
abbrev pub Calm : World → Type 0
Calm w = w.faults ≡ []

Calm-next_due : (fs : List (Option ℕ)) (w : World) → fs ≡ [] → Calm w → Calm (next_due fs w).1
unfolding next_due
Calm-next_due [] w e h = h
Calm-next_due (f ∷ fs) w e h = absurd (cc e)

pub Calm-Steady : Steady Calm
unfolding due
Calm-Steady = record { next = λ w h. Calm-next_due w.faults w h h; placed = λ l v w h. h }

Calm-write_step :
    (l : Loc) (b : List ℕ) (f : Option ℕ) (w : World)
    → Calm w
    → After Calm Calm (write_step l b f w).0 (write_step l b f w).1
unfolding write_step append_at
Calm-write_step l b none w h = h
Calm-write_step l b (some k) w h = h

pub Calm-write : (l : Loc) (b : List ℕ) → Keeps Calm Calm (write l b)
unfolding write
Calm-write l b = record {
  at = λ w h. let (f, w') = due w in Calm-write_step l b f w' (Calm-Steady.next w h);
}
