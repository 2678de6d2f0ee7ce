-- ===== src/Os/Replace.antt =====
-- Temporary files, and the renaming that puts one in place.
use go_gather.Base.{ℕ, Bool, true, false, Option, none, some, List, [], ◌∷◌, ◌++◌, if◌then◌else◌}
use go_gather.Base.Text.{Text}
use go_gather.Path.{slash, Loc, parent}
use go_gather.Exec.{exist, not_exist, not_dir, is_dir, errno, Err, Result, ok, err, Exec, is_ok}
use go_gather.Os.{World, Env, Node, set, call, close, new_attr, blocked, at_path, create_step}

-- `os.IsExist`
abbrev pub is_exist : Err → Bool
is_exist (errno exist) = true
is_exist _ = false

module _ (env : Env) where
  unfoldable pub create_new_step : ℕ → Loc → Option Node → Exec World (Unit {0})
  unfolding create_step
  create_new_step mode l (some _) w = (err (errno exist), w)
  create_new_step mode l none w = create_step env mode l (w.tree (parent l)) w

  -- `os.OpenFile` with O_CREATE and O_EXCL
  unfoldable pub create_new : Text → ℕ → Exec World (Unit {0})
  unfolding at_path call create_new_step
  create_new p mode = at_path env p (λ l. call (λ w. create_new_step mode l (w.tree l) w))

  unfoldable pub append_step : ℕ → Loc → Option Node → Exec World (Unit {0})
  unfolding create_step
  append_step mode l (some (Node.dir _)) w = (err (errno is_dir), w)
  append_step mode l (some (Node.file _ _)) w = (ok tt, w)
  append_step mode l none w = create_step env mode l (w.tree (parent l)) w

  -- `os.OpenFile` with O_APPEND, O_CREATE and O_WRONLY
  unfoldable pub open_append : Text → ℕ → Exec World (Unit {0})
  unfolding at_path call append_step
  open_append p mode = at_path env p (λ l. call (λ w. append_step mode l (w.tree l) w))

  abbrev pub next_name : Text → Exec World Text → Result (Unit {0}) → Exec World Text
  next_name p again (ok _) w = (ok p, w)
  next_name p again (err e) w = if is_exist e then again w else (err e, w)

  -- `os.CreateTemp` in a directory, with the random names that it tries, as many as it gives up
  -- behind. It returns the path of the open file.
  unfoldable pub create_temp : Text → List Text → Exec World Text
  unfolding create_new
  create_temp dir [] w = (err (errno exist), w)
  create_temp dir (name ∷ names) w =
      let p = dir ++ (slash ∷ name) in
      let (r, w') = create_new p 0o600 w in next_name p (create_temp dir names) r w'

  unfoldable pub new_dir_step : ℕ → Loc → Option Node → Option Node → Exec World (Unit {0})
  unfolding blocked
  new_dir_step mode l (some _) above w = (err (errno exist), w)
  new_dir_step mode l none (some (Node.dir _)) w =
      (ok tt, set l (some (Node.dir (new_attr env mode))) w)
  new_dir_step mode l none (some (Node.file _ _)) w = (err (errno not_dir), w)
  new_dir_step mode l none none w =
      (err (errno (if blocked w.tree l then not_dir else not_exist)), w)

  -- `os.Mkdir`
  unfoldable pub mkdir : Text → ℕ → Exec World (Unit {0})
  unfolding at_path call new_dir_step
  mkdir p mode =
      at_path env p (λ l. call (λ w. new_dir_step mode l (w.tree l) (w.tree (parent l)) w))

  -- `os.MkdirTemp`, with the paths that it tries, as many as it gives up behind.
  unfoldable pub mkdir_temp : List Text → Exec World Text
  unfolding mkdir
  mkdir_temp [] w = (err (errno exist), w)
  mkdir_temp (p ∷ ps) w = let (r, w') = mkdir p 0o700 w in next_name p (mkdir_temp ps) r w'

  unfoldable pub remove_step : Loc → Option Node → Exec World (Unit {0})
  remove_step l (some (Node.file _ _)) w = (ok tt, set l none w)
  remove_step l (some (Node.dir _)) w = (err (errno is_dir), w)
  remove_step l none w = (err (errno not_exist), w)

  -- `os.Remove` of a file. The code removes no directory by it.
  unfoldable pub remove : Text → Exec World (Unit {0})
  unfolding at_path call remove_step
  remove p = at_path env p (λ l. call (λ w. remove_step l (w.tree l) w))

  unfoldable pub place_step : Loc → Loc → Node → Option Node → Option Node → Exec World (Unit {0})
  place_step old new n (some (Node.dir _)) _ w = (err (errno exist), w)
  place_step old new n _ (some (Node.dir _)) w = (ok tt, set new (some n) (set old none w))
  place_step old new n _ _ w = (err (errno not_exist), w)

  unfoldable pub rename_step : Loc → Loc → Option Node → Exec World (Unit {0})
  unfolding place_step
  rename_step old new none w = (err (errno not_exist), w)
  rename_step old new (some n) w = place_step old new n (w.tree new) (w.tree (parent new)) w

  -- `os.Rename` of a file: a directory is not replaced.
  unfoldable pub rename : Text → Text → Exec World (Unit {0})
  unfolding at_path call rename_step
  rename old new =
      at_path env old (λ l. at_path env new (λ m. call (λ w. rename_step l m (w.tree l) w)))

  abbrev pub closed_if : Bool → World → World
  closed_if true w = (close w).1
  closed_if false w = w

  -- The `defer` of a function that fills a temporary file: unless all went well it closes the file,
  -- where it is still open, and removes it.
  unfoldable pub or_abandon : {A : Type 0} → Text → Bool → Exec World A → Exec World A
  unfolding remove
  or_abandon tmp still_open m w =
      let (r, w') = m w in (r, if is_ok r then w' else (remove tmp (closed_if still_open w')).1)
