-- ===== src/Path/Normal.antt =====
-- The stacks that `clean` builds: no empty component and no `.`, and every `..` at the bottom.
use mathlib.Core.List.{reverse-cons}
use go_gather.Base.{
  ◌≡◌, refl, ap, ◌∙◌, Bool, true, false, List, [], ◌∷◌, ◌++◌, reverse, arith, All, Bool-cases, inl,
  inr,
}
use go_gather.Base.Text.{Text, split}
use go_gather.Path.Defs.{
  slash, dot_dot, is_void, is_up, Stack, clean_up, clean_step, clean_stack, stack, is_abs, Loc,
  parent, enter, walk,
}
use go_gather.Path.Split.{Lacks, Lacks-split}

abbrev pub AllUp : Stack → Type 0
AllUp = All (λ t. is_up t ≡ true)

abbrev pub IsNormal : Bool → Stack → Type 0
IsNormal rooted [] = Unit
IsNormal rooted (t ∷ s) =
    (is_void t ≡ false)
    × Lacks slash t
    × (is_up t ≡ true → (rooted ≡ false) × AllUp s)
    × IsNormal rooted s

pub is_void_of_dot_dot : is_void dot_dot ≡ false
unfolding is_void
is_void_of_dot_dot = refl

pub is_up_of_dot_dot : is_up dot_dot ≡ true
unfolding is_up
is_up_of_dot_dot = refl

clean_up-IsNormal :
    (rooted : Bool) (s : Stack) → IsNormal rooted s → IsNormal rooted (clean_up rooted s)
unfolding clean_up
clean_up-IsNormal true [] h = tt
clean_up-IsNormal false [] h =
    unfold is_void is_up in (refl, (refl, (refl, tt)), (λ _. (refl, tt)), tt)
clean_up-IsNormal rooted (t ∷ s) (v, l, u, n) = elim (Bool-cases (is_up t)) [
  | inl e ↦
      rw e
        ((unfold is_void in refl), (refl, (refl, tt)), (λ _. ((u e).0, (e, (u e).1))), (v, l, u, n))
  | inr e ↦ rw e n
]

clean_step-IsNormal :
    (rooted : Bool) (s : Stack) (c : Text)
    → Lacks slash c
    → IsNormal rooted s
    → IsNormal rooted (clean_step rooted s c)
unfolding clean_step
clean_step-IsNormal rooted s c l h = elim (Bool-cases (is_void c)) [
  | inl v ↦ rw v h
  | inr v ↦ rw v (elim (Bool-cases (is_up c)) [
    | inl u ↦ rw u (clean_up-IsNormal rooted s h)
    | inr u ↦ rw u (v, l, (λ e. cc), h)
  ])
]

pub clean_stack-IsNormal :
    (rooted : Bool) (s : Stack) (cs : List Text)
    → All (Lacks slash) cs
    → IsNormal rooted s
    → IsNormal rooted (clean_stack rooted s cs)
unfolding clean_stack
clean_stack-IsNormal rooted s [] l h = h
clean_stack-IsNormal rooted s (c ∷ cs) (l, ls) h =
    clean_stack-IsNormal rooted (clean_step rooted s c) cs ls (clean_step-IsNormal rooted s c l h)

pub stack-IsNormal : (p : Text) → IsNormal (is_abs p) (stack p)
unfolding stack
stack-IsNormal p = clean_stack-IsNormal (is_abs p) [] (split slash p) (Lacks-split slash p) tt

-- Where a stack leads from a place.
unfoldable pub place : Loc → Stack → Loc
place l [] = l
place l (t ∷ s) = enter (place l s) t

pub walk-append : (l : Loc) (cs ds : List Text) → walk l (cs ++ ds) ≡ walk (walk l cs) ds
unfolding walk
walk-append l [] ds = refl
walk-append l (c ∷ cs) ds = walk-append (enter l c) cs ds

pub walk-reverse : (l : Loc) (s : Stack) → walk l (reverse s) ≡ place l s
unfolding place
walk-reverse l [] = unfold walk in refl
walk-reverse l (t ∷ s) = rw (reverse-cons t s, walk-append, walk-reverse l s) (unfold walk in refl)

place-clean_up :
    (l : Loc) (rooted : Bool) (s : Stack)
    → IsNormal rooted s
    → (rooted ≡ true → l ≡ [])
    → place l (clean_up rooted s) ≡ parent (place l s)
unfolding place clean_up enter
place-clean_up l true [] h at_root = rw (at_root refl)
place-clean_up l false [] h at_root = unfold is_void is_up in refl
place-clean_up l rooted (t ∷ s) (v, _, _, _) at_root = elim (Bool-cases (is_up t)) [
  | inl u ↦ ground (arith, is_void_of_dot_dot, is_up_of_dot_dot)
  | inr u ↦ rw (u, v)
]

place-clean_step :
    (l : Loc) (rooted : Bool) (s : Stack) (c : Text)
    → IsNormal rooted s
    → (rooted ≡ true → l ≡ [])
    → place l (clean_step rooted s c) ≡ enter (place l s) c
unfolding place clean_step enter
place-clean_step l rooted s c h at_root = elim (Bool-cases (is_void c)) [
  | inl v ↦ rw v
  | inr v ↦ rw v (elim (Bool-cases (is_up c)) [
    | inl u ↦ rw u (place-clean_up l rooted s h at_root)
    | inr u ↦ rw u (rw v (rw u))
  ])
]

-- Cleaning keeps the place that a path leads to.
pub place-clean_stack :
    (l : Loc) (rooted : Bool) (s : Stack) (cs : List Text)
    → All (Lacks slash) cs
    → IsNormal rooted s
    → (rooted ≡ true → l ≡ [])
    → place l (clean_stack rooted s cs) ≡ walk (place l s) cs
unfolding clean_stack walk
place-clean_stack l rooted s [] ls h at_root = refl
place-clean_stack l rooted s (c ∷ cs) (lc, ls) h at_root =
    place-clean_stack l rooted (clean_step rooted s c) cs ls (clean_step-IsNormal rooted s c lc h)
      at_root
    ∙ ap (λ x. walk x cs) (place-clean_step l rooted s c h at_root)
