-- ===== src/Os/Intact/Calls.antt =====
-- The calls on a tree that take nothing away.
use go_gather.Base.{ℕ, ◌≡◌, refl, sym, Option, none, some, [], ◌∷◌, take}
use go_gather.Base.Text.{Text}
use go_gather.Path.{Loc, locate, parent}
use go_gather.Exec.{Result, Exec}
use go_gather.Exec.Leads.{AfterValue, Leads, Leads-bind}
use go_gather.Os.Defs.{
  Bytes, Attr, Node, dir, file, Tree, World, Env, set, due, call, write_step, at_path, appended,
  append_at, look, stat, opened, open_read, change_step, change_attr, write, close, make_dir_step,
  make_dir, make_dirs_step, make_dirs, mkdir_all, create_step, set_mode, chmod,
}
use go_gather.Os.Replace.{create_new_step, create_new}
use go_gather.Os.Confined.{tree-due}
use go_gather.Os.Intact.{
  Intact, Intact-tree, Intact-set, free_before, Spares, Leads-call, Leads-at_path, AfterValue-same,
}

module _ (t : Tree) where
  Spares-look :
      {A : Type 0} (env : Env) (p : Text) (f : Loc → World → Result A)
      → Spares t (at_path env p (λ l. call (λ w. (f l w, w))))
  Spares-look env p f =
      Leads-at_path t env p (λ l. call (λ w. (f l w, w)))
        (Leads-call t (λ w. (f (locate env.cwd p) w, w))
          (record { at = λ w i. AfterValue-same t (f (locate env.cwd p) w) w i }))

  pub Spares-stat : (env : Env) (p : Text) → Spares t (stat env p)
  unfolding stat
  Spares-stat env p = Spares-look env p look

  pub Spares-open_read : (env : Env) (p : Text) → Spares t (open_read env p)
  unfolding open_read
  Spares-open_read env p = Spares-look env p (λ l w. opened (look l w))

  pub Spares-close : Spares t close
  unfolding close
  Spares-close = Leads-call t _ (record { at = λ w i. i })

  Intact-append_at :
      (l : Loc) (b : Bytes) (w : World) → t l ≡ none → Intact t w → Intact t (append_at l b w)
  unfolding append_at
  Intact-append_at l b w free i =
      Intact-tree t (set l (appended (w.tree l) b) w) (append_at l b w) refl
        (Intact-set t l (appended (w.tree l) b) w free i)

  AfterValue-write_step :
      (l : Loc) (b : Bytes) (f : Option ℕ) (w : World)
      → t l ≡ none
      → Intact t w
      → AfterValue (λ _. Intact t) (Intact t) (write_step l b f w).0 (write_step l b f w).1
  unfolding write_step
  AfterValue-write_step l b none w free i = Intact-append_at l b w free i
  AfterValue-write_step l b (some k) w free i = Intact-append_at l (take k b) w free i

  pub Spares-write : (l : Loc) (b : Bytes) → t l ≡ none → Spares t (write l b)
  unfolding write
  Spares-write l b free = record {
    at = λ w i.
        AfterValue-write_step l b (due w).0 (due w).1 free
          (Intact-tree t w (due w).1 (tree-due w) i);
  }

  AfterValue-make_dir_step :
      (env : Env) (mode : ℕ) (l : Loc) (o : Option Node) (w : World)
      → o ≡ w.tree l
      → Intact t w
      → AfterValue
          (λ _. Intact t)
          (Intact t)
          (make_dir_step env mode l o w).0
          (make_dir_step env mode l o w).1
  unfolding make_dir_step
  AfterValue-make_dir_step env mode l none w e i =
      Intact-set t l _ w (free_before t l w i (sym e)) i
  AfterValue-make_dir_step env mode l (some (dir _)) w e i = i
  AfterValue-make_dir_step env mode l (some (file _ _)) w e i = i

  Spares-make_dir : (env : Env) (mode : ℕ) (l : Loc) → Spares t (make_dir env mode l)
  unfolding make_dir
  Spares-make_dir env mode l =
      Leads-call t _
        (record { at = λ w i. AfterValue-make_dir_step env mode l (w.tree l) w refl i })

  AfterValue-make_dirs_step :
      (env : Env) (make : Exec World (Unit {0})) (o : Option Node) (w : World)
      → Spares t make
      → Intact t w
      → AfterValue
          (λ _. Intact t)
          (Intact t)
          (make_dirs_step env make o w).0
          (make_dirs_step env make o w).1
  unfolding make_dirs_step
  AfterValue-make_dirs_step env make (some (dir _)) w k i = i
  AfterValue-make_dirs_step env make (some (file _ _)) w k i = i
  AfterValue-make_dirs_step env make none w k i = k.at w i

  Spares-make_dirs : (env : Env) (mode : ℕ) (l : Loc) → Spares t (make_dirs env mode l)
  unfolding make_dirs
  Spares-make_dirs env mode [] = record { at = λ w i. i }
  Spares-make_dirs env mode (n ∷ l) =
      let make =
        Leads-bind (make_dirs env mode l) (λ _. make_dir env mode (n ∷ l))
          (Spares-make_dirs env mode l) (λ _. Spares-make_dir env mode (n ∷ l)) in
      record { at = λ w i. AfterValue-make_dirs_step env _ (w.tree (n ∷ l)) w make i }

  pub Spares-mkdir_all : (env : Env) (p : Text) (mode : ℕ) → Spares t (mkdir_all env p mode)
  unfolding mkdir_all
  Spares-mkdir_all env p mode =
      Leads-at_path t env p (make_dirs env mode) (Spares-make_dirs env mode (locate env.cwd p))

  AfterValue-change_step :
      (f : Attr → Attr) (l : Loc) (o : Option Node) (w : World)
      → t l ≡ none
      → Intact t w
      → AfterValue (λ _. Intact t) (Intact t) (change_step f l o w).0 (change_step f l o w).1
  unfolding change_step
  AfterValue-change_step f l none w free i = i
  AfterValue-change_step f l (some n) w free i = Intact-set t l _ w free i

  pub Spares-chmod :
      (env : Env) (p : Text) (mode : ℕ) → t (locate env.cwd p) ≡ none → Spares t (chmod env p mode)
  unfolding chmod
  Spares-chmod env p mode free =
      let l = locate env.cwd p in
      Leads-at_path t env p (λ m. call (change_attr (set_mode mode) m))
        (Leads-call t (change_attr (set_mode mode) l)
          (record { at = λ w i. AfterValue-change_step (set_mode mode) l (w.tree l) w free i }))

  -- A new file is where nothing was.
  abbrev pub IntactFree : Loc → World → Type 0
  IntactFree l w = Intact t w × (t l ≡ none)

  AfterValue-create_step :
      (env : Env) (mode : ℕ) (l : Loc) (o : Option Node) (w : World)
      → t l ≡ none
      → Intact t w
      → AfterValue
          (λ _. IntactFree l)
          (Intact t)
          (create_step env mode l o w).0
          (create_step env mode l o w).1
  unfolding create_step
  AfterValue-create_step env mode l (some (dir _)) w free i = (Intact-set t l _ w free i, free)
  AfterValue-create_step env mode l (some (file _ _)) w free i = i
  AfterValue-create_step env mode l none w free i = i

  AfterValue-create_new_step :
      (env : Env) (mode : ℕ) (l : Loc) (o : Option Node) (w : World)
      → o ≡ w.tree l
      → Intact t w
      → AfterValue
          (λ _. IntactFree l)
          (Intact t)
          (create_new_step env mode l o w).0
          (create_new_step env mode l o w).1
  unfolding create_new_step
  AfterValue-create_new_step env mode l (some _) w e i = i
  AfterValue-create_new_step env mode l none w e i =
      AfterValue-create_step env mode l (w.tree (parent l)) w (free_before t l w i (sym e)) i

  pub Leads-create_new :
      (env : Env) (p : Text) (mode : ℕ)
      → Leads (Intact t) (λ _. IntactFree (locate env.cwd p)) (Intact t) (create_new env p mode)
  unfolding create_new
  Leads-create_new env p mode =
      let l = locate env.cwd p in
      Leads-at_path t env p (λ m. call (λ w. create_new_step env mode m (w.tree m) w))
        (Leads-call t (λ w. create_new_step env mode l (w.tree l) w)
          (record { at = λ w i. AfterValue-create_new_step env mode l (w.tree l) w refl i }))
