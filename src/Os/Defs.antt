-- ===== src/Os/Defs.antt =====
-- The calls of package os on files and directories.
mod Worlds
mod Paths
unfoldable pub use Worlds.*
unfoldable pub use Paths.*
use go_gather.Base.{
  ℕ, ◌+◌, Bool, true, false, Option, none, some, List, [], ◌∷◌, ◌++◌, if◌then◌else◌, length, take,
  ◌||◌, ◌&&◌, not, ◌≡◌, refl, ◌⊎◌, inl, inr, Bool-cases,
}
use go_gather.Base.Text.{Text, split, text_eq}
use go_gather.Path.{
  Loc, slash, dot, parent, is_empty, is_abs, is_up, is_name, enter, locate, turns, turns_back,
}
use go_gather.Exec.{
  not_exist, not_dir, is_dir, fault, Err, errno, Result, ok, err, Exec, ◌>>=◌, ◌>>◌,
}

unfoldable pub look : Loc → World → Result Node
unfolding blocked
look l w = elim (w.tree l) [
  | some n ↦ ok n
  | none ↦ err (errno (if blocked w.tree l then not_dir else not_exist))
]

abbrev pub opened : Result Node → Result (Option Bytes)
opened (ok (dir _)) = ok none
opened (ok (file _ c)) = ok (some c)
opened (err e) = err e

-- `os.IsNotExist`
abbrev pub is_not_exist : Err → Bool
is_not_exist (errno not_exist) = true
is_not_exist _ = false

abbrev pub is_dir_node : Node → Bool
is_dir_node (dir _) = true
is_dir_node (file _ _) = false

abbrev pub node_attr : Node → Attr
node_attr (dir a) = a
node_attr (file a _) = a

abbrev pub with_attr : (Attr → Attr) → Node → Node
with_attr f (dir a) = dir (f a)
with_attr f (file a c) = file (f a) c

abbrev pub set_mode : ℕ → Attr → Attr
set_mode mode a = record a { mode = mode }

abbrev pub set_times : ℕ → ℕ → Attr → Attr
set_times accessed modified a = record a { accessed = accessed; modified = modified }

unfoldable pub change_step : (Attr → Attr) → Loc → Option Node → Exec World (Unit {0})
unfolding update blocked
change_step f l (some n) w = (ok tt, set l (some (with_attr f n)) w)
change_step f l none w = (err (errno (if blocked w.tree l then not_dir else not_exist)), w)

abbrev pub change_attr : (Attr → Attr) → Loc → Exec World (Unit {0})
change_attr f l w = change_step f l (w.tree l) w

abbrev pub appended : Option Node → Bytes → Option Node
appended (some (file a c)) b = some (file a (c ++ b))
appended n b = n

unfoldable pub append_at : Loc → Bytes → World → World
unfolding update
append_at l b w = record w {
  tree = update w.tree l (appended (w.tree l) b);
  written = w.written + length b;
}

-- One `Write` on the open file at a place: where it fails a part of the bytes is there.
unfoldable pub write_step : Loc → Bytes → Option ℕ → Exec World (Unit {0})
unfolding append_at
write_step l b none w = (ok tt, append_at l b w)
write_step l b (some k) w = (err (errno fault), append_at l (take k b) w)

unfoldable pub write : Loc → Bytes → Exec World (Unit {0})
unfolding due write_step
write l b w = let (f, w') = due w in write_step l b f w'

-- `Close` of an open file.
unfoldable pub close : Exec World (Unit {0})
unfolding call
close = call (λ w. (ok tt, w))

module _ (env : Env) where
  abbrev pub new_attr : ℕ → Attr
  new_attr mode = record { mode = env.masked mode; accessed = env.now; modified = env.now }

  -- `os.Stat`
  unfoldable pub stat : Text → Exec World Node
  unfolding at_path call look
  stat p = at_path env p (λ l. call (λ w. (look l w, w)))

  -- `mkdir`, and the second look of `MkdirAll` at a place that is not free.
  unfoldable pub make_dir_step : ℕ → Loc → Option Node → Exec World (Unit {0})
  unfolding update
  make_dir_step mode l none w = (ok tt, set l (some (dir (new_attr mode))) w)
  make_dir_step mode l (some (dir _)) w = (ok tt, w)
  make_dir_step mode l (some (file _ _)) w = (err (errno not_dir), w)

  unfoldable pub make_dir : ℕ → Loc → Exec World (Unit {0})
  unfolding call make_dir_step
  make_dir mode l = call (λ w. make_dir_step mode l (w.tree l) w)

  -- The missing directories of a place, from the outermost in.
  unfoldable pub make_dirs_step : Exec World (Unit {0}) → Option Node → Exec World (Unit {0})
  make_dirs_step make (some (dir _)) w = (ok tt, w)
  make_dirs_step make (some (file _ _)) w = (err (errno not_dir), w)
  make_dirs_step make none w = make w

  unfoldable pub make_dirs : ℕ → Loc → Exec World (Unit {0})
  unfolding make_dir make_dirs_step ◌>>=◌
  make_dirs mode [] w = (ok tt, w)
  make_dirs mode (n ∷ l) w =
      let make = make_dirs mode l >> make_dir mode (n ∷ l) in make_dirs_step make (w.tree (n ∷ l)) w

  -- `os.MkdirAll`. Of a path in which a `..` leaves a missing directory it makes that one too; such a
  -- path is refused here.
  unfoldable pub mkdir_all : Text → ℕ → Exec World (Unit {0})
  unfolding at_path make_dirs
  mkdir_all p mode = at_path env p (make_dirs mode)

  -- A new file in the directory that should be at its parent.
  unfoldable pub create_step : ℕ → Loc → Option Node → Exec World (Unit {0})
  unfolding update blocked
  create_step mode l (some (dir _)) w = (ok tt, set l (some (file (new_attr mode) [])) w)
  create_step mode l (some (file _ _)) w = (err (errno not_dir), w)
  create_step mode l none w = (err (errno (if blocked w.tree l then not_dir else not_exist)), w)

  unfoldable pub truncate_step : ℕ → Loc → Option Node → Exec World (Unit {0})
  unfolding create_step
  truncate_step mode l (some (dir _)) w = (err (errno is_dir), w)
  truncate_step mode l (some (file a _)) w = (ok tt, set l (some (file a [])) w)
  truncate_step mode l none w = create_step mode l (w.tree (parent l)) w

  abbrev pub truncate : ℕ → Loc → Exec World (Unit {0})
  truncate mode l w = truncate_step mode l (w.tree l) w

  -- `os.OpenFile` with O_WRONLY, O_CREATE and O_TRUNC
  unfoldable pub open_trunc : Text → ℕ → Exec World (Unit {0})
  unfolding at_path call truncate_step
  open_trunc p mode = at_path env p (λ l. call (truncate mode l))

  -- `os.Open`, with what reads of it will find: `none` for a directory.
  unfoldable pub open_read : Text → Exec World (Option Bytes)
  unfolding at_path call look
  open_read p = at_path env p (λ l. call (λ w. (opened (look l w), w)))

  -- `os.Chmod`
  unfoldable pub chmod : Text → ℕ → Exec World (Unit {0})
  unfolding at_path call change_step
  chmod p mode = at_path env p (λ l. call (change_attr (set_mode mode) l))

  -- `os.Chtimes`
  unfoldable pub chtimes : Text → ℕ → ℕ → Exec World (Unit {0})
  unfolding at_path call change_step
  chtimes p accessed modified =
      at_path env p (λ l. call (change_attr (set_times accessed modified) l))
