-- ===== src/Dirs/Trees/Sizes.antt =====
-- The size of a directory is the sum of the sizes of the files in an abstract tree.
use go_gather.Base.{
  ℕ, suc, ◌+◌, ◌%◌, ◌<◌, ◌≡◌, refl, ap, sym, subst, ◌∙◌, false, some, List, [], ◌∷◌, length, arith,
  ltb, if◌then◌else◌,
}
use go_gather.Base.Int64
use go_gather.Base.Int64.{word}
use go_gather.Base.Text.{Text, has_prefix, codes}
use go_gather.Path.{is_empty, turns_back, join_path, Loc, locate}
use go_gather.Exec.{ok, Exec, continue, ◌>>=◌, wrapping}
use go_gather.Os.{
  reach_straight, at_reached, Bytes, Attr, Node, dir, file, Tree, World, Env, at_path, call, due,
  next_due, call_step, look, stat,
}
use go_gather.Expand.Below.{expand_path_plain}
use go_gather.Dirs.Names.{EntryName, child-locate, join_path-ne-empty, turns_back-join_path}
use go_gather.Dirs.Trees.{
  Listing, with_kinds, read_dir, walk_listed, walk_node, walk_size, directory_size,
}

-- What lies at a place: a file with its content, or a folder with named items.
mutual
  pub data Item : Type 0 where
    plain_file : Bytes → Item
    folder : Items → Item

  pub data Items : Type 0 where
    end : Items
    item : Text → Item → Items → Items

-- The bytes of all files, and how deep folders are nested.
unfoldable mutual
  pub total : Item → ℕ
  total (plain_file content) = length content
  total (folder items) = total_items items

  pub total_items : Items → ℕ
  total_items end = 0
  total_items (item name i items) = total i + total_items items

unfoldable mutual
  pub height : Item → ℕ
  height (plain_file content) = 0
  height (folder items) = suc (height_items items)

  pub height_items : Items → ℕ
  height_items end = 0
  height_items (item name i items) =
      let rest = height_items items in if ltb rest (height i) then height i else rest

abbrev names_of : Items → List Text
names_of end = []
names_of (item name i items) = name ∷ names_of items

-- A tree shows an item at a place.
module _ (listing : Listing) (t : Tree) where
  unfoldable mutual
    pub Shows : Item → Loc → Type 0
    Shows (plain_file content) l =
        ((a : Attr) × (t l ≡ some (file a content))) × (length content < word)
    Shows (folder items) l =
        ((a : Attr) × (t l ≡ some (dir a))) × ((listing t l ≡ names_of items) × ShowsItems items l)

    pub ShowsItems : Items → Loc → Type 0
    ShowsItems end l = Unit {0}
    ShowsItems (item name i items) l = EntryName name × (Shows i (name ∷ l) × ShowsItems items l)

bind-ok :
    {S A B : Type 0} (m : Exec S A) (f : A → Exec S B) (s s' : S) (a : A)
    → m s ≡ (ok a, s')
    → (m >>= f) s ≡ f a s'
unfolding ◌>>=◌
bind-ok m f s s' a e = ap (λ x. continue x.0 f x.1) e

add-mod : (a b : ℕ) → Int64.add (a % word) (b % word) ≡ (a + b) % word
unfolding Int64.add
add-mod a b = omega arith

module _ (env : Env) (listing : Listing) (t : Tree) (written : ℕ) where
  abbrev calm : World
  calm = record { tree = t; faults = []; written = written }

  stat-calm :
      (p : Text) (n : Node)
      → is_empty p ≡ false
      → turns_back p ≡ false
      → t (locate env.cwd p) ≡ some n
      → stat env p calm ≡ (ok n, calm)
  unfolding stat at_path at_reached call due next_due call_step look
  stat-calm p n full straight h = rw (reach_straight t env.cwd p full straight, h) refl

  read_dir-calm :
      (p : Text) (a : Attr)
      → is_empty p ≡ false
      → turns_back p ≡ false
      → t (locate env.cwd p) ≡ some (dir a)
      → read_dir env listing p calm
        ≡ (ok (with_kinds t (locate env.cwd p) (listing t (locate env.cwd p))), calm)
  unfolding read_dir at_path at_reached call due next_due call_step look
  read_dir-calm p a full straight h = rw (reach_straight t env.cwd p full straight, h) refl

  height_first :
      (name : Text) (i : Item) (items : Items) (fuel : ℕ)
      → height_items (item name i items) < fuel
      → height i < fuel
  unfolding height_items
  height_first name i items fuel h = ground arith

  height_rest :
      (name : Text) (i : Item) (items : Items) (fuel : ℕ)
      → height_items (item name i items) < fuel
      → height_items items < fuel
  unfolding height_items
  height_rest name i items fuel h = ground arith

  mutual
    unfolding walk_size walk_listed total height Shows

    walk-item :
        (i : Item) (fuel : ℕ) (p : Text)
        → height i < fuel
        → is_empty p ≡ false
        → turns_back p ≡ false
        → Shows listing t i (locate env.cwd p)
        → walk_size env listing fuel p calm ≡ (ok (total i % word), calm)
    walk-item i ℕ.zero p low full straight shown = absurd (omega arith)
    walk-item (plain_file content) (suc fuel) p low full straight ((a, e), small) =
        let less : length content ≡ length content % word = omega arith in
        bind-ok (stat env p) (λ n. walk_node env listing (walk_size env listing fuel) p n) calm calm
          (file a content) (stat-calm p (file a content) full straight e)
        ∙ ap (λ n. (ok n, calm)) less
    walk-item (folder items) (suc fuel) p low full straight ((a, e), (listed, kids)) =
        let recurse = walk_size env listing fuel in
        bind-ok (stat env p) (λ n. walk_node env listing recurse p n) calm calm (dir a)
          (stat-calm p (dir a) full straight e)
        ∙ (bind-ok (read_dir env listing p) (λ es. walk_listed env listing recurse p 0 es) calm calm
              _ (read_dir-calm p a full straight e)
            ∙ (ap
                  (λ ns.
                    walk_listed env listing recurse p 0 (with_kinds t (locate env.cwd p) ns) calm)
                  listed
                ∙ (walk-items items fuel p 0 (omega arith) full kids
                    ∙ ap (λ n. (ok (n % word), calm)) (omega arith))))

    walk-items :
        (items : Items) (fuel : ℕ) (p : Text) (s : ℕ)
        → height_items items < fuel
        → is_empty p ≡ false
        → ShowsItems listing t items (locate env.cwd p)
        → walk_listed env listing
            (walk_size env listing fuel)
            p
            (s % word)
            (with_kinds t (locate env.cwd p) (names_of items))
            calm
          ≡ (ok ((s + total_items items) % word), calm)
    walk-items end fuel p s low full shown = ap (λ n. (ok (n % word), calm)) (omega arith)
    walk-items (item name i items) fuel p s low full (named, (shown, kids)) =
        let q = join_path p name in
        let recurse = walk_size env listing fuel in
        let rest = with_kinds t (locate env.cwd p) (names_of items) in
        bind-ok (recurse q) (λ n. walk_listed env listing recurse p (Int64.add (s % word) n) rest)
          calm calm (total i % word)
          (walk-item i fuel q (height_first name i items fuel low) (join_path-ne-empty p name full)
            (turns_back-join_path p name full)
            (subst (Shows listing t i) (sym (child-locate env.cwd p name full named)) shown))
        ∙ (ap (λ n. walk_listed env listing recurse p n rest calm) (add-mod s (total i))
            ∙ (walk-items items fuel p (s + total i) (height_rest name i items fuel low) full kids
                ∙ ap (λ n. (ok (n % word), calm)) (omega arith)))

-- On a disk where nothing fails, `directory_size` of a path, which is not empty, does not begin
-- with `~` and has no `..` behind a name, returns the bytes of all files below it, as an `int64` that
-- wraps around, and changes nothing; the fuel is more than the depth of the folders, directories list the items of an abstract
-- tree that lies at the path, and no file holds 2 ^ 64 bytes.
pub directory_size-total :
    (env : Env) (listing : Listing) (t : Tree) (written fuel : ℕ) (p : Text) (i : Item)
    → is_empty p ≡ false
    → turns_back p ≡ false
    → has_prefix p (codes "~") ≡ false
    → Shows listing t i (locate env.cwd p)
    → height i < fuel
    → directory_size env listing fuel p (record { tree = t; faults = []; written = written })
      ≡ (ok (total i % word), record { tree = t; faults = []; written = written })
unfolding directory_size wrapping ◌>>=◌
directory_size-total env listing t written fuel p i full straight home shown low =
    rw
      (
        expand_path_plain env.home p home,
        walk-item env listing t written i fuel p low full straight shown,
      )
      refl
