-- ===== src/Helpers/Climb.antt =====
-- Where a contained path leads: below its root, unless the root itself ends in `..`.
use go_gather.Base.{
  ◌≡◌, ◌≢◌, refl, ap, sym, subst, ◌∙◌, Bool, true, false, [], ◌∷◌, ◌++◌, arith, if◌then◌else◌, All,
  Bool-cases, inl, inr,
}
use go_gather.Base.Text.{Text, split}
use go_gather.Path.{
  slash, dot_dot, is_void, is_up, is_empty, is_name, is_abs, Stack, stack, clean_stack, clean_step,
  join_path, Loc, parent, enter, walk, locate,
}
use go_gather.Path.Normal.{IsNormal, AllUp, stack-IsNormal, place}
use go_gather.Path.Clean.{locate-stack}
use go_gather.Path.Idempotent.{
  stack-join_path, is_abs-join_path, locate-join_path, clean_up_of_AllUp,
}
use go_gather.Helpers.{is_path_contained}
use go_gather.Helpers.Containment.{Extends, is_path_contained-iff-Extends}

abbrev pub AllNames : Loc → Type 0
AllNames = All (λ c. is_name c ≡ true)

-- The place is one or more plain names below the root.
abbrev pub PlainlyBelow : Loc → Loc → Type 0
PlainlyBelow root l = (rel : Loc) × (rel ≢ []) × AllNames rel × (l ≡ rel ++ root)

unfoldable pub head_up : Stack → Bool
head_up [] = false
head_up (t ∷ _) = is_up t

-- The last component of the cleaned path is `..`.
unfoldable pub ends_up : Text → Bool
unfolding stack head_up
ends_up p = head_up (stack p)

AllUp-append_right : (xs ys : Stack) → AllUp (xs ++ ys) → AllUp ys
AllUp-append_right [] ys h = h
AllUp-append_right (x ∷ xs) ys (_, h) = AllUp-append_right xs ys h

not_up_of_AllUp : (s : Stack) → s ≢ [] → AllUp s → head_up s ≡ true
unfolding head_up
not_up_of_AllUp [] h _ = absurd (h refl)
not_up_of_AllUp (t ∷ s) h (u, _) = u

module _ (r : Bool) (s : Stack) (based : r ≡ false → s ≢ []) (down : head_up s ≡ false) where
  names_above : (rel : Stack) → IsNormal r (rel ++ s) → AllNames rel
  unfolding is_name
  names_above [] n = tt
  names_above (t ∷ rel) (v, _, up, n) = elim (Bool-cases (is_up t)) [
    | inl u ↦
        let all = AllUp-append_right rel s (up u).1 in
        absurd (cc (down, not_up_of_AllUp s (based (up u).0) all))
    | inr u ↦ (rw (v, u), names_above rel n)
  ]

place-append : (l : Loc) (rel s : Stack) → AllNames rel → place l (rel ++ s) ≡ rel ++ place l s
unfolding place enter is_name
place-append l [] s h = refl
place-append l (t ∷ rel) s (n, h) = rw (place-append l rel s h) (ground arith)

-- Where a path is contained in a root that does not clean to a path ending in `..`, it leads from
-- every working directory to a place below the root, one or more plain names away.
pub contained-below :
    (path root : Text) (cwd : Loc)
    → is_path_contained path root ≡ true
    → ends_up root ≡ false
    → (rel : Loc) × (rel ≢ []) × AllNames rel × (locate cwd path ≡ rel ++ locate cwd root)
unfolding ends_up
contained-below path root cwd h down =
    let x = (is_path_contained-iff-Extends path root).0 h in
    let normal = subst (IsNormal (is_abs path)) x.stacks (stack-IsNormal path) in
    let names =
      names_above (is_abs path) (stack root) (λ r. x.not_dot (sym x.same_base ∙ r)) down x.rel
        normal in
    let base : Bool → Loc = λ r. if r then [] else cwd in
    (
      x.rel,
      x.rel_ne_nil,
      names,
      locate-stack cwd path
          ∙ ap (λ r. place (base r) (stack path)) x.same_base
          ∙ ap (place (base (is_abs root))) x.stacks
          ∙ place-append (base (is_abs root)) x.rel (stack root) names
          ∙ ap (λ l. x.rel ++ l) (sym (locate-stack cwd root)),
    )

top_of :
    (rel s : Stack)
    → rel ≢ []
    → AllNames rel
    → (t : Text) × (u : Stack) × (rel ++ s ≡ t ∷ u) × (is_name t ≡ true)
top_of [] s h _ = absurd (h refl)
top_of (t ∷ rel) s h (n, _) = (t, rel ++ s, refl, n)

-- The last component of a contained path is a name.
pub contained_top :
    (path root : Text)
    → is_path_contained path root ≡ true
    → ends_up root ≡ false
    → (t : Text) × (s : Stack) × (stack path ≡ t ∷ s) × (is_name t ≡ true)
unfolding ends_up
contained_top path root h down =
    let x = (is_path_contained-iff-Extends path root).0 h in
    let normal = subst (IsNormal (is_abs path)) x.stacks (stack-IsNormal path) in
    let names =
      names_above (is_abs path) (stack root) (λ r. x.not_dot (sym x.same_base ∙ r)) down x.rel
        normal in
    let (t, s, e, n) = top_of x.rel (stack root) x.rel_ne_nil names in (t, s, x.stacks ∙ e, n)

-- Nothing is contained in the empty path.
pub full_of_contained :
    (path root : Text) → is_path_contained path root ≡ true → is_empty root ≡ false
unfolding is_abs stack is_empty
full_of_contained path root h =
    full_of_Extends path root ((is_path_contained-iff-Extends path root).0 h)
  where
    full_of_Extends : (p q : Text) → Extends p q → is_empty q ≡ false
    full_of_Extends p [] x = absurd (x.not_dot refl refl)
    full_of_Extends p (c ∷ q) x = refl

full_of_stack : (p : Text) → stack p ≢ [] → is_empty p ≡ false
unfolding stack is_empty
full_of_stack [] h = absurd (h refl)
full_of_stack (c ∷ p) h = refl

climb-ne-nil : ◌≢◌ {A = Stack} (dot_dot ∷ []) []
climb-ne-nil = cc

walk-dot_dot : (l : Loc) → walk l (split slash dot_dot) ≡ parent l
unfolding walk split enter is_void is_up
walk-dot_dot l = refl

clean_stack-dot_dot :
    (s : Stack) → AllUp s → clean_stack false s (split slash dot_dot) ≡ dot_dot ∷ s
unfolding clean_stack clean_step split is_void is_up
clean_stack-dot_dot s h = clean_up_of_AllUp s h

-- A relative root that cleans to `..`, `../..` and so on contains its own parent: the path that
-- joins `..` to it passes the test and leads one directory above the root.
pub contained_climbs :
    (root : Text) (cwd : Loc)
    → is_abs root ≡ false
    → stack root ≢ []
    → AllUp (stack root)
    → (is_path_contained (join_path root dot_dot) root ≡ true)
      × (locate cwd (join_path root dot_dot) ≡ parent (locate cwd root))
contained_climbs root cwd rel ne ups =
    let full : is_empty root ≡ false = full_of_stack root ne in
    let up_stack : stack (join_path root dot_dot) ≡ dot_dot ∷ stack root =
      stack-join_path root dot_dot full
      ∙ ap (λ r. clean_stack r (stack root) (split slash dot_dot)) rel
      ∙ clean_stack-dot_dot (stack root) ups in
    (
      (is_path_contained-iff-Extends (join_path root dot_dot) root).1 (record {
        same_base = is_abs-join_path root dot_dot full;
        not_dot = λ _. ne;
        rel = dot_dot ∷ [];
        rel_ne_nil = climb-ne-nil;
        stacks = up_stack;
      }),
      locate-join_path cwd root dot_dot full ∙ walk-dot_dot (locate cwd root),
    )
