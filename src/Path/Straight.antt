-- ===== src/Path/Straight.antt =====
-- A cleaned path has no `..` behind a name.
use mathlib.Core.List.{reverse-cons}
use go_gather.Base.{
  ◌≡◌, refl, Bool, true, false, ◌&&◌, ◌||◌, List, [], ◌∷◌, ◌++◌, reverse, arith, Bool-cases, inl,
  inr,
}
use go_gather.Base.Text.{Text}
use go_gather.Path.Defs.{is_up, is_name, Stack, clean, stack, is_abs, turns, turns_back, is_void}
use go_gather.Path.Normal.{IsNormal, AllUp, stack-IsNormal}
use go_gather.Path.Clean.{components, split-clean, All-reverse}

abbrev has_name : List Text → Bool
has_name [] = false
has_name (c ∷ cs) = is_name c || has_name cs

turns-append_one :
    (named : Bool) (cs : List Text) (t : Text)
    → turns named cs ≡ false
    → (is_up t && (named || has_name cs)) ≡ false
    → turns named (cs ++ (t ∷ [])) ≡ false
unfolding turns
turns-append_one named [] t h e = ground arith
turns-append_one named (c ∷ cs) t h e =
    let rest = turns-append_one (named || is_name c) cs t (ground arith) (ground arith) in
    ground arith

no_name_of_AllUp : (cs : List Text) → AllUp cs → has_name cs ≡ false
unfolding is_name
no_name_of_AllUp [] h = refl
no_name_of_AllUp (c ∷ cs) (u, h) = ground (arith, no_name_of_AllUp cs h)

turns-reverse : (r : Bool) (s : Stack) → IsNormal r s → turns false (reverse s) ≡ false
turns-reverse r [] h = unfold turns in refl
turns-reverse r (t ∷ s) (v, l, up, n) = rw (reverse-cons t s) (
    turns-append_one false (reverse s) t (turns-reverse r s n) (elim (Bool-cases (is_up t)) [
      | inl u ↦ rw (u, no_name_of_AllUp (reverse s) (All-reverse _ s (up u).1)) refl
      | inr d ↦ rw d refl
    ]))

turns-components : (r : Bool) (s : Stack) → IsNormal r s → turns false (components r s) ≡ false
unfolding turns is_up is_name is_void
turns-components true [] h = refl
turns-components true (t ∷ s) h = turns-reverse true (t ∷ s) h
turns-components false [] h = refl
turns-components false (t ∷ s) h = turns-reverse false (t ∷ s) h

pub turns_back-clean : (p : Text) → turns_back (clean p) ≡ false
unfolding turns_back
turns_back-clean p = rw (split-clean p) (turns-components (is_abs p) (stack p) (stack-IsNormal p))
