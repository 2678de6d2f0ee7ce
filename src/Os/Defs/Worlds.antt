-- ===== src/Os/Defs/Worlds.antt =====
-- A file tree and the calls on it. A world carries the failures to come, one for each call: `none`
-- lets it pass, `some k` makes it fail, after k bytes where it is a write. Where the list ends
-- every call passes. Symbolic links are not in this tree.
use go_gather.Base.{
  ℕ, Bool, true, false, Option, none, some, List, [], ◌∷◌, if◌then◌else◌, ◌||◌, ◌&&◌,
}
use go_gather.Base.Text.{Text, text_eq}
use go_gather.Path.{Loc}
use go_gather.Exec.{fault, errno, err, Exec}

abbrev pub Bytes : Type 0
Bytes = List ℕ

pub record Attr : Type 0 where
  pub mode : ℕ
  pub accessed : ℕ
  pub modified : ℕ

pub data Node : Type 0 where
  dir : Attr → Node
  file : Attr → Bytes → Node

abbrev pub Tree : Type 0
Tree = Loc → Option Node

pub record World : Type 0 where
  pub tree : Tree
  pub faults : List (Option ℕ)
  -- The bytes that write calls have put on disk.
  pub written : ℕ

-- What the process inherits: its directory, `os.UserHomeDir`, the mode that the umask leaves of a
-- requested one, and the time.
pub record Env : Type 0 where
  pub cwd : Loc
  pub home : Option Text
  pub masked : ℕ → ℕ
  pub now : ℕ

unfoldable pub loc_eq : Loc → Loc → Bool
unfolding text_eq
loc_eq [] [] = true
loc_eq [] (_ ∷ _) = false
loc_eq (_ ∷ _) [] = false
loc_eq (a ∷ l) (b ∷ m) = text_eq a b && loc_eq l m

-- `l` is the place `root` or lies below it.
unfoldable pub under : Loc → Loc → Bool
unfolding loc_eq
under root [] = loc_eq [] root
under root (n ∷ l) = loc_eq (n ∷ l) root || under root l

unfoldable pub update : Tree → Loc → Option Node → Tree
unfolding loc_eq
update t l v m = if loc_eq m l then v else t m

abbrev pub set : Loc → Option Node → World → World
set l v w = record w { tree = update w.tree l v }

-- The failure that is due, and the world without it.
unfoldable pub next_due : List (Option ℕ) → World → Option ℕ × World
next_due [] w = (none, w)
next_due (f ∷ fs) w = (f, record w { faults = fs })

unfoldable pub due : World → Option ℕ × World
unfolding next_due
due w = next_due w.faults w

-- A call fails without effect where a failure is due.
unfoldable pub call_step : {A : Type 0} → Exec World A → Option ℕ → Exec World A
call_step m none w = m w
call_step m (some _) w = (err (errno fault), w)

unfoldable pub call : {A : Type 0} → Exec World A → Exec World A
unfolding due call_step
call m w = let (f, w') = due w in call_step m f w'
