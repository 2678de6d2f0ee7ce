-- ===== src/Path/Defs.antt =====
-- `filepath.Clean`, `Join`, `Dir`, `Base` and `Ext` on Unix, and the walk of a path's components.
use go_gather.Base.{
  ℕ, Bool, true, false, List, [], ◌∷◌, ◌++◌, reverse, ◌==◌, if◌then◌else◌, not, ◌&&◌, ◌||◌,
}
use go_gather.Base.Text.{Text, text_eq, split, join}

abbrev pub slash : ℕ
slash = b'/'

abbrev pub dot : Text
dot = b'.' ∷ []

abbrev pub dot_dot : Text
dot_dot = b'.' ∷ b'.' ∷ []

unfoldable pub is_abs : Text → Bool
is_abs [] = false
is_abs (c ∷ s) = c == slash

unfoldable pub is_empty : Text → Bool
is_empty [] = true
is_empty (c ∷ s) = false

-- A component that stands for the directory it is read in.
unfoldable pub is_void : Text → Bool
unfolding is_empty text_eq
is_void c = is_empty c || text_eq c dot

unfoldable pub is_up : Text → Bool
unfolding text_eq
is_up c = text_eq c dot_dot

unfoldable pub is_name : Text → Bool
unfolding is_void is_up
is_name c = not (is_void c) && not (is_up c)

-- The components that are kept, the last one first.
abbrev pub Stack : Type 0
Stack = List Text

-- A `..`: it drops a name, stays at the root, and is kept above other `..`.
unfoldable pub clean_up : Bool → Stack → Stack
clean_up true [] = []
clean_up false [] = dot_dot ∷ []
clean_up rooted (t ∷ s) = if is_up t then dot_dot ∷ t ∷ s else s

unfoldable pub clean_step : Bool → Stack → Text → Stack
unfolding clean_up
clean_step rooted s c = if is_void c then s else if is_up c then clean_up rooted s else c ∷ s

unfoldable pub clean_stack : Bool → Stack → List Text → Stack
unfolding clean_step
clean_stack rooted s [] = s
clean_stack rooted s (c ∷ cs) = clean_stack rooted (clean_step rooted s c) cs

unfoldable pub render : Bool → Stack → Text
unfolding join
render true s = slash ∷ join slash (reverse s)
render false [] = dot
render false (t ∷ s) = join slash (reverse (t ∷ s))

-- The stack of a path: its components once it is cleaned.
unfoldable pub stack : Text → Stack
unfolding clean_stack split is_abs is_void is_up
stack p = clean_stack (is_abs p) [] (split slash p)

-- `filepath.Clean`
unfoldable pub clean : Text → Text
unfolding render stack is_abs
clean p = render (is_abs p) (stack p)

-- `filepath.Join(a, b)`
unfoldable pub join_path : Text → Text → Text
unfolding clean is_empty
join_path a b =
    if is_empty a then (if is_empty b then [] else clean b) else clean (a ++ (slash ∷ b))

-- The text up to its last slash, that slash included.
unfoldable pub up_to_slash : Text → Text
unfolding is_empty
up_to_slash [] = []
up_to_slash (c ∷ s) =
    let rest = up_to_slash s in
    if is_empty rest then (if c == slash then c ∷ [] else []) else c ∷ rest

-- `filepath.Dir`
unfoldable pub dir : Text → Text
unfolding clean up_to_slash
dir p = clean (up_to_slash p)

unfoldable pub last_of : List Text → Text
last_of [] = []
last_of (q ∷ []) = q
last_of (q ∷ r ∷ qs) = last_of (r ∷ qs)

-- The text behind the last slash.
unfoldable pub last_part : Text → Text
unfolding last_of split
last_part p = last_of (split slash p)

-- `filepath.Ext`: from the last dot of that part on.
unfoldable pub from_last_dot : Text → Text
unfolding is_empty
from_last_dot [] = []
from_last_dot (c ∷ s) =
    let rest = from_last_dot s in if is_empty rest then (if c == b'.' then c ∷ s else []) else rest

unfoldable pub ext : Text → Text
unfolding from_last_dot last_part
ext p = from_last_dot (last_part p)

unfoldable pub trim_slashes : Text → Text
unfolding is_empty
trim_slashes [] = []
trim_slashes (c ∷ s) =
    let rest = trim_slashes s in if is_empty rest && c == slash then [] else c ∷ rest

-- `filepath.Base`
unfoldable pub base : Text → Text
unfolding is_empty trim_slashes last_part
base p =
    if is_empty p
    then dot
    else if is_empty (trim_slashes p)
    then slash ∷ []
    else last_part (trim_slashes p)

-- A place in the file system: the names that lead to it, the last one first.
abbrev pub Loc : Type 0
Loc = List Text

abbrev pub parent : Loc → Loc
parent [] = []
parent (_ ∷ l) = l

unfoldable pub enter : Loc → Text → Loc
enter l c = if is_void c then l else if is_up c then parent l else c ∷ l

unfoldable pub walk : Loc → List Text → Loc
unfolding enter
walk l [] = l
walk l (c ∷ cs) = walk (enter l c) cs

-- Where a path leads from the working directory. No symbolic links are followed.
unfoldable pub locate : Loc → Text → Loc
unfolding walk is_abs split is_void is_up
locate cwd p = walk (if is_abs p then [] else cwd) (split slash p)

-- A `..` stands behind a name; `named` says that a name came before.
unfoldable pub turns : Bool → List Text → Bool
unfolding is_up is_name
turns named [] = false
turns named (c ∷ cs) = is_up c && named || turns (named || is_name c) cs

unfoldable pub turns_back : Text → Bool
unfolding turns split
turns_back p = turns false (split slash p)

-- The path ends in a name, with or without slashes behind it.
unfoldable pub names_last : Text → Bool
unfolding is_name last_part trim_slashes
names_last p = is_name (last_part (trim_slashes p))

-- The path is `.` or ends in `/.`.
unfoldable pub ends_with_dot : Text → Bool
unfolding last_part text_eq
ends_with_dot p = text_eq (last_part p) dot
