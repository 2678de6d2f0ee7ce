-- ===== src/Path/Idempotent.antt =====
-- Cleaning twice is cleaning once, and what cleaning makes of a joined path.
use go_gather.Base.{
  ◌≡◌, refl, ap, sym, ◌∙◌, Bool, true, false, List, [], ◌∷◌, ◌++◌, reverse, if◌then◌else◌,
  Bool-cases, inl, inr,
}
use mathlib.Core.List.{reverse-cons}
use go_gather.Base.Text.{Text, split, text_eq→eq}
use go_gather.Path.Defs.{
  slash, dot_dot, is_void, is_up, is_empty, Stack, clean_up, clean_step, clean_stack, render, clean,
  stack, is_abs, join_path, Loc, walk, locate,
}
use go_gather.Path.Split.{split-append}
use go_gather.Path.Normal.{IsNormal, AllUp, stack-IsNormal, walk-append}
use go_gather.Path.Clean.{components, split-clean, is_abs-clean, locate-clean}

clean_stack-append :
    (r : Bool) (s : Stack) (cs ds : List Text)
    → clean_stack r s (cs ++ ds) ≡ clean_stack r (clean_stack r s cs) ds
unfolding clean_stack
clean_stack-append r s [] ds = refl
clean_stack-append r s (c ∷ cs) ds = clean_stack-append r (clean_step r s c) cs ds

dot_dot_of_is_up : (t : Text) → is_up t ≡ true → t ≡ dot_dot
unfolding is_up
dot_dot_of_is_up t h = text_eq→eq t dot_dot h

pub clean_up_of_AllUp : (s : Stack) → AllUp s → clean_up false s ≡ dot_dot ∷ s
unfolding clean_up
clean_up_of_AllUp [] h = refl
clean_up_of_AllUp (t ∷ s) (u, _) = rw u

clean_step_of_IsNormal :
    (r : Bool) (t : Text) (s : Stack) → IsNormal r (t ∷ s) → clean_step r s t ≡ t ∷ s
unfolding clean_step
clean_step_of_IsNormal r t s (v, _, up, _) = elim (Bool-cases (is_up t)) [
  | inl u ↦
      rw (v, u, (up u).0)
        (clean_up_of_AllUp s (up u).1 ∙ ap (λ x. x ∷ s) (sym (dot_dot_of_is_up t u)))
  | inr u ↦ rw (v, u)
]

clean_stack-reverse : (r : Bool) (s : Stack) → IsNormal r s → clean_stack r [] (reverse s) ≡ s
clean_stack-reverse r [] h = unfold clean_stack in refl
clean_stack-reverse r (t ∷ s) h =
    rw (reverse-cons t s, clean_stack-append, clean_stack-reverse r s h.3)
      (unfold clean_stack in clean_step_of_IsNormal r t s h)

clean_stack-components :
    (r : Bool) (s : Stack) → IsNormal r s → clean_stack r [] (components r s) ≡ s
clean_stack-components true [] h = unfold clean_stack clean_step is_void in refl
clean_stack-components true (t ∷ s) h =
    (unfold clean_stack clean_step is_void in clean_stack-reverse true (t ∷ s) h)
clean_stack-components false [] h = unfold clean_stack clean_step is_void in refl
clean_stack-components false (t ∷ s) h = clean_stack-reverse false (t ∷ s) h

stack_lem : (p : Text) → stack p ≡ clean_stack (is_abs p) [] (split slash p)
unfolding stack
stack_lem p = refl

pub clean_lem : (p : Text) → clean p ≡ render (is_abs p) (stack p)
unfolding clean
clean_lem p = refl

pub stack-clean : (p : Text) → stack (clean p) ≡ stack p
stack-clean p =
    stack_lem (clean p)
    ∙ ap (λ r. clean_stack r [] (split slash (clean p))) (is_abs-clean p)
    ∙ ap (clean_stack (is_abs p) []) (split-clean p)
    ∙ clean_stack-components (is_abs p) (stack p) (stack-IsNormal p)

pub clean-clean : (p : Text) → clean (clean p) ≡ clean p
clean-clean p =
    clean_lem (clean p)
    ∙ ap (λ r. render r (stack (clean p))) (is_abs-clean p)
    ∙ ap (render (is_abs p)) (stack-clean p)
    ∙ sym (clean_lem p)

pub is_abs-append : (a b : Text) → is_empty a ≡ false → is_abs (a ++ b) ≡ is_abs a
unfolding is_abs is_empty
is_abs-append [] b h = cc
is_abs-append (c ∷ a) b h = refl

pub stack-append :
    (a b : Text)
    → is_empty a ≡ false
    → stack (a ++ (slash ∷ b)) ≡ clean_stack (is_abs a) (stack a) (split slash b)
stack-append a b h =
    (unfold stack in
      ap (λ r. clean_stack r [] (split slash (a ++ (slash ∷ b)))) (is_abs-append a _ h)
      ∙ ap (clean_stack (is_abs a) []) (split-append slash a b)
      ∙ clean_stack-append (is_abs a) [] (split slash a) (split slash b))

pub is_abs-join_path : (a b : Text) → is_empty a ≡ false → is_abs (join_path a b) ≡ is_abs a
is_abs-join_path a b h =
    unfold join_path in rw h (is_abs-clean (a ++ (slash ∷ b)) ∙ is_abs-append a _ h)

pub stack-join_path :
    (a b : Text)
    → is_empty a ≡ false
    → stack (join_path a b) ≡ clean_stack (is_abs a) (stack a) (split slash b)
stack-join_path a b h =
    unfold join_path in rw h (stack-clean (a ++ (slash ∷ b)) ∙ stack-append a b h)

-- A joined path leads where its second part leads from its first.
pub locate-join_path :
    (cwd : Loc) (a b : Text)
    → is_empty a ≡ false
    → locate cwd (join_path a b) ≡ walk (locate cwd a) (split slash b)
locate-join_path cwd a b h =
    unfold join_path in
    rw h (
      locate-clean cwd (a ++ (slash ∷ b))
      ∙ unfold locate in
        ap (λ r. walk (if r then [] else cwd) (split slash (a ++ (slash ∷ b))))
          (is_abs-append a _ h)
        ∙ ap (walk _) (split-append slash a b)
        ∙ walk-append _ (split slash a) (split slash b))
