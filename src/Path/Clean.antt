-- ===== src/Path/Clean.antt =====
-- Laws of `clean`: its components are the stack, and it keeps the place that a path leads to.
use mathlib.Core.List.{reverse-cons, reverse-reverse}
use go_gather.Base.{
  ◌≡◌, ◌≢◌, refl, ap, sym, subst, ◌∙◌, Bool, true, false, List, [], ◌∷◌, reverse, arith, ◌==◌,
  if◌then◌else◌, All, All-append, Bool-cases, inl, inr,
}
use go_gather.Base.Text.{Text, split, join}
use go_gather.Path.Defs.{
  slash, dot, is_void, Stack, render, clean, stack, is_abs, Loc, walk, locate,
}
use go_gather.Path.Split.{Lacks, split-join, Lacks-split, split_at_sep}
use go_gather.Path.Normal.{IsNormal, stack-IsNormal, place, walk-reverse, place-clean_stack}

-- The components of a cleaned path, as `split` finds them.
abbrev pub components : Bool → Stack → List Text
components true [] = [] ∷ [] ∷ []
components true (t ∷ s) = [] ∷ reverse (t ∷ s)
components false [] = dot ∷ []
components false (t ∷ s) = reverse (t ∷ s)

pub Lacks-of_IsNormal : (r : Bool) (s : Stack) → IsNormal r s → All (Lacks slash) s
Lacks-of_IsNormal r [] h = tt
Lacks-of_IsNormal r (t ∷ s) (_, l, _, n) = (l, Lacks-of_IsNormal r s n)

pub All-reverse : (P : Text → Type 0) (s : Stack) → All P s → All P (reverse s)
All-reverse P [] h = tt
All-reverse P (t ∷ s) (p, h) =
    rw (reverse-cons t s) (All-append P (reverse s) (t ∷ []) (All-reverse P s h) (p, tt))

-- A join of parts without separators splits into them; no parts at all into one empty part.
split-join-All : (s : List Text) → s ≢ [] → All (Lacks slash) s → split slash (join slash s) ≡ s
split-join-All [] h _ = absurd (h refl)
split-join-All (p ∷ ps) _ l = split-join slash p ps l

reverse-ne-nil : (t : Text) (s : Stack) → reverse (t ∷ s) ≢ []
reverse-ne-nil t s e = let e' = ap reverse e in cc (reverse-reverse (t ∷ s), e')

split-render : (r : Bool) (s : Stack) → IsNormal r s → split slash (render r s) ≡ components r s
unfolding render
split-render true [] h = unfold split join in refl
split-render true (t ∷ s) h =
    split_at_sep slash _
    ∙ ap (λ x. [] ∷ x)
        (split-join-All _ (reverse-ne-nil t s)
          (All-reverse (Lacks slash) (t ∷ s) (Lacks-of_IsNormal true (t ∷ s) h)))
split-render false [] h = unfold split in refl
split-render false (t ∷ s) h =
    split-join-All _ (reverse-ne-nil t s)
      (All-reverse (Lacks slash) (t ∷ s) (Lacks-of_IsNormal false (t ∷ s) h))

pub split-clean : (p : Text) → split slash (clean p) ≡ components (is_abs p) (stack p)
unfolding clean
split-clean p = split-render (is_abs p) (stack p) (stack-IsNormal p)

pub void_empty : is_void [] ≡ true
unfolding is_void
void_empty = refl

pub not_void_of_IsNormal : (r : Bool) (s : Stack) → IsNormal r s → All (λ c. is_void c ≡ false) s
not_void_of_IsNormal r [] h = tt
not_void_of_IsNormal r (t ∷ s) (v, _, _, n) = (v, not_void_of_IsNormal r s n)

-- A text whose components are those of a stack does not begin with a slash.
is_abs_of_components :
    (p : Text) (cs : List Text)
    → split slash p ≡ cs
    → All (λ c. is_void c ≡ false) cs
    → is_abs p ≡ false
unfolding is_abs
is_abs_of_components [] cs e v = refl
is_abs_of_components (c ∷ p) cs e v = elim (Bool-cases (c == slash)) [
  | inl at_slash ↦
      let c_slash : c ≡ slash = ground arith in
      let parts : cs ≡ [] ∷ split slash p =
        sym e ∙ ap (λ x. split slash (x ∷ p)) c_slash ∙ split_at_sep slash p in
      let v' = subst (All (λ x. is_void x ≡ false)) parts v in cc (void_empty, v'.0)
  | inr other ↦ other
]

is_abs-render : (r : Bool) (s : Stack) → IsNormal r s → is_abs (render r s) ≡ r
unfolding render is_abs
is_abs-render true s h = refl
is_abs-render false [] h = refl
is_abs-render false (t ∷ s) h =
    is_abs_of_components _ _ (split-render false (t ∷ s) h)
      (All-reverse (λ c. is_void c ≡ false) (t ∷ s) (not_void_of_IsNormal false (t ∷ s) h))

pub is_abs-clean : (p : Text) → is_abs (clean p) ≡ is_abs p
unfolding clean
is_abs-clean p = is_abs-render (is_abs p) (stack p) (stack-IsNormal p)

pub locate-stack :
    (cwd : Loc) (p : Text) → locate cwd p ≡ place (if is_abs p then [] else cwd) (stack p)
unfolding locate stack place
locate-stack cwd p = sym (
    place-clean_stack (if is_abs p then [] else cwd) (is_abs p) [] (split slash p)
      (Lacks-split slash p) tt (λ e. rw e))

walk-components : (l : Loc) (r : Bool) (s : Stack) → walk l (components r s) ≡ place l s
walk-components l true [] = unfold walk is_void place in refl
walk-components l true (t ∷ s) = unfold walk is_void in walk-reverse l (t ∷ s)
walk-components l false [] = unfold walk is_void place in refl
walk-components l false (t ∷ s) = walk-reverse l (t ∷ s)

-- A cleaned path leads where the path leads, from every working directory.
pub locate-clean : (cwd : Loc) (p : Text) → locate cwd (clean p) ≡ locate cwd p
locate-clean cwd p =
    unfold locate in
    rw (is_abs-clean p, split-clean p) (walk-components _ (is_abs p) (stack p))
    ∙ sym (locate-stack cwd p)
