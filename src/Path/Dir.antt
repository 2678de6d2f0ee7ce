-- ===== src/Path/Dir.antt =====
-- `filepath.Dir` of a cleaned path leads to the parent of the place that the path leads to.
use mathlib.Core.List.{reverse-cons, reverse-append, tail}
use go_gather.Base.{
  ℕ, ◌≡◌, ◌≢◌, refl, ap, sym, subst, ◌∙◌, Bool, true, false, List, [], ◌∷◌, ◌++◌, reverse, arith,
  ◌==◌, if◌then◌else◌, Bool-cases, inl, inr,
}
use go_gather.Base.Text.{Text, split}
use go_gather.Path.Defs.{
  slash, is_void, is_empty, is_name, is_abs, Stack, stack, clean, up_to_slash, dir, Loc, parent,
  enter, walk, locate,
}
use go_gather.Path.Split.{split_at_sep, split-ne-nil}
use go_gather.Path.Normal.{walk-append}
use go_gather.Path.Clean.{components, split-clean, locate-clean}

-- A text's components, and those of the text up to its last slash.
pub record Parts (p : Text) : Type 0 where
  pub before : List Text
  pub last : Text
  pub whole : split slash p ≡ before ++ (last ∷ [])
  pub cut : split slash (up_to_slash p) ≡ before ++ ([] ∷ [])

nil_of_is_empty : (p : Text) → is_empty p ≡ true → p ≡ []
unfolding is_empty
nil_of_is_empty [] h = refl
nil_of_is_empty (c ∷ p) h = cc

split_nil : split slash [] ≡ [] ∷ []
unfolding split
split_nil = refl

nil_of_split : (p : Text) → split slash p ≡ [] ∷ [] → p ≡ []
unfolding split
nil_of_split [] h = refl
nil_of_split (c ∷ p) h = absurd (ground (arith, split-ne-nil slash p))

-- A byte that is no slash goes to the first component.
split_other :
    (c : ℕ) (p q : Text) (qs : List Text)
    → (c == slash) ≡ false
    → split slash p ≡ q ∷ qs
    → split slash (c ∷ p) ≡ (c ∷ q) ∷ qs
unfolding split
split_other c p q qs ne e = rw e (rw ne)

concat-ne-nil : (xs : List Text) (x : Text) → xs ++ (x ∷ []) ≢ []
concat-ne-nil [] x = cc
concat-ne-nil (y ∷ xs) x = cc

Parts-of_slash : (p : Text) → Parts p → Parts (slash ∷ p)
unfolding up_to_slash
Parts-of_slash p h = record {
  before = [] ∷ h.before;
  last = h.last;
  whole = split_at_sep slash p ∙ ap (λ x. [] ∷ x) h.whole;
  cut = elim (Bool-cases (is_empty (up_to_slash p))) [
    | inl e ↦ rw e (
        split_at_sep slash []
        ∙ ap (λ x. [] ∷ split slash x) (sym (nil_of_is_empty (up_to_slash p) e))
        ∙ ap (λ x. [] ∷ x) h.cut)
    | inr full ↦ rw full (split_at_sep slash (up_to_slash p) ∙ ap (λ x. [] ∷ x) h.cut)
  ];
}

Parts-of_other :
    (c : ℕ) (p : Text) (before : List Text) (last : Text)
    → (c == slash) ≡ false
    → split slash p ≡ before ++ (last ∷ [])
    → split slash (up_to_slash p) ≡ before ++ ([] ∷ [])
    → Parts (c ∷ p)
unfolding up_to_slash
Parts-of_other c p [] last ne whole cut = record {
  before = [];
  last = c ∷ last;
  whole = split_other c p last [] ne whole;
  cut = let e = nil_of_split (up_to_slash p) cut in rw e (unfold is_empty split in rw ne);
}
Parts-of_other c p (q ∷ qs) last ne whole cut = record {
  before = (c ∷ q) ∷ qs;
  last = last;
  whole = split_other c p q (qs ++ (last ∷ [])) ne whole;
  cut = elim (Bool-cases (is_empty (up_to_slash p))) [
    | inl e ↦
        let none : split slash [] ≡ q ∷ (qs ++ ([] ∷ [])) =
          ap (split slash) (sym (nil_of_is_empty (up_to_slash p) e)) ∙ cut in
        absurd (concat-ne-nil qs [] (ap tail (sym none ∙ split_nil)))
    | inr full ↦ rw full (split_other c (up_to_slash p) q (qs ++ ([] ∷ [])) ne cut)
  ];
}

parts : (p : Text) → Parts p
parts [] = record {
  before = [];
  last = [];
  whole = split_nil;
  cut = unfold up_to_slash in split_nil;
}
parts (c ∷ p) = elim (Bool-cases (c == slash)) [
  | inl e ↦
      let same : c ≡ slash = ground arith in
      subst (λ x. Parts (x ∷ p)) (sym same) (Parts-of_slash p (parts p))
  | inr ne ↦ let h = parts p in Parts-of_other c p h.before h.last ne h.whole h.cut
]

is_abs-up_to_slash : (p : Text) → is_abs (up_to_slash p) ≡ is_abs p
unfolding is_abs up_to_slash
is_abs-up_to_slash [] = refl
is_abs-up_to_slash (c ∷ p) = ground arith

locate_lem :
    (cwd : Loc) (p : Text) → locate cwd p ≡ walk (if is_abs p then [] else cwd) (split slash p)
unfolding locate
locate_lem cwd p = refl

dir_lem : (p : Text) → dir p ≡ clean (up_to_slash p)
unfolding dir
dir_lem p = refl

dir_place :
    (cwd : Loc) (p : Text)
    → locate cwd (dir p)
      ≡ walk (if is_abs (up_to_slash p) then [] else cwd) (split slash (up_to_slash p))
dir_place cwd p =
    ap (locate cwd) (dir_lem p) ∙ locate-clean cwd (up_to_slash p) ∙ locate_lem cwd (up_to_slash p)

enter-name : (l : Loc) (t : Text) → is_name t ≡ true → enter l t ≡ t ∷ l
unfolding enter is_name
enter-name l t h = ground arith

walk-void : (l : Loc) → walk l ([] ∷ []) ≡ l
unfolding walk enter is_void
walk-void l = refl

walk-name : (l : Loc) (t : Text) → is_name t ≡ true → parent (walk l (t ∷ [])) ≡ l
unfolding walk
walk-name l t h = ap parent (enter-name l t h)

-- A last component that is a name: the directory is one step up.
locate-dir_of_name :
    (cwd : Loc) (p : Text) (h : Parts p)
    → is_name h.last ≡ true
    → locate cwd (dir p) ≡ parent (locate cwd p)
locate-dir_of_name cwd p h name =
    let base = if is_abs p then [] else cwd in
    locate_dir
    ∙ ap (λ r. walk (if r then [] else cwd) (split slash (up_to_slash p))) (is_abs-up_to_slash p)
    ∙ ap (walk base) h.cut
    ∙ walk-append base h.before ([] ∷ [])
    ∙ walk-void (walk base h.before)
    ∙ sym (walk-name (walk base h.before) h.last name)
    ∙ ap parent (sym (walk-append base h.before (h.last ∷ [])))
    ∙ ap (λ x. parent (walk base x)) (sym h.whole)
    ∙ sym (ap parent locate_p)
  where
    locate_dir :
        locate cwd (dir p)
        ≡ walk (if is_abs (up_to_slash p) then [] else cwd) (split slash (up_to_slash p))
    locate_dir = dir_place cwd p

    locate_p : locate cwd p ≡ walk (if is_abs p then [] else cwd) (split slash p)
    locate_p = locate_lem cwd p

last_unique : (xs ys : List Text) (a b : Text) → xs ++ (a ∷ []) ≡ ys ++ (b ∷ []) → a ≡ b
last_unique xs ys a b e =
    let turned : a ∷ reverse xs ≡ b ∷ reverse ys =
      sym (reverse-append xs (a ∷ [])) ∙ ap reverse e ∙ reverse-append ys (b ∷ []) in
    cc

components_last :
    (r : Bool) (t : Text) (s : Stack) → (ys : List Text) × (components r (t ∷ s) ≡ ys ++ (t ∷ []))
components_last true t s = ([] ∷ reverse s, ap (λ x. [] ∷ x) (reverse-cons t s))
components_last false t s = (reverse s, reverse-cons t s)

-- `filepath.Dir` of a cleaned path whose last component is a name leads one step up.
pub locate-dir :
    (cwd : Loc) (p t : Text) (s : Stack)
    → stack p ≡ t ∷ s
    → is_name t ≡ true
    → locate cwd (dir (clean p)) ≡ parent (locate cwd p)
locate-dir cwd p t s e name =
    let h = parts (clean p) in
    let (ys, whole) = components_last (is_abs p) t s in
    let same : h.last ≡ t =
      last_unique h.before ys h.last t
        (sym h.whole ∙ split-clean p ∙ ap (components (is_abs p)) e ∙ whole) in
    locate-dir_of_name cwd (clean p) h (subst (λ x. is_name x ≡ true) (sym same) name)
    ∙ ap parent (locate-clean cwd p)
