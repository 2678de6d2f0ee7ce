-- ===== src/Helpers/Containment.antt =====
-- What `IsPathContained` decides: the cleaned components of the path extend those of the root.
use mathlib.Core.List.{append_assoc, append-nil}
use go_gather.Base.{
  ◌≡◌, ◌≢◌, ◌↔◌, refl, ap, sym, subst, ◌∙◌, true, false, [], ◌∷◌, ◌++◌, reverse, arith, Bool-cases,
  inl, inr, length, length-append,
}
use go_gather.Base.Text.{
  Text, split, join, text_eq, text_eq→eq, text_eq_refl, has_prefix, has_prefix→append,
}
use go_gather.Path.{slash, is_empty, is_abs, Stack, stack, clean, render}
use go_gather.Path.Split.{split-append, split-ne-nil}
use go_gather.Path.Normal.{IsNormal, stack-IsNormal}
use go_gather.Path.Clean.{components, split-clean, is_abs-clean}
use go_gather.Path.Idempotent.{stack-clean, clean_lem, is_abs-append}
use go_gather.Helpers.Components.{
  reverse-ne-nil, has_prefix-render, stacks_of_components, components-ne-void,
}
use go_gather.Helpers.{is_path_contained}

-- The components of `path` are those of `root` with more behind them. A root that cleans to `.`
-- contains nothing.
pub record Extends (path root : Text) : Type 0 where
  pub same_base : is_abs path ≡ is_abs root
  pub not_dot : is_abs root ≡ false → stack root ≢ []
  pub rel : Stack
  pub rel_ne_nil : rel ≢ []
  pub stacks : stack path ≡ rel ++ stack root

append-ne_self : (xs ys : Stack) → xs ≢ [] → xs ++ ys ≢ ys
append-ne_self [] ys h e = h refl
append-ne_self (x ∷ xs) ys h e =
    absurd (omega (arith, ap (length {A = Text}) e, length-append {0} xs ys))

-- Cleaned texts that agree have the same stack.
stack_of_clean : (p q : Text) → is_abs p ≡ is_abs q → clean p ≡ clean q → stack p ≡ stack q
stack_of_clean p q b e = sym (stack-clean p) ∙ ap stack e ∙ stack-clean q

slash_of_clean : (p : Text) → text_eq (clean p) (slash ∷ []) ≡ true → is_abs p ≡ true
slash_of_clean p h =
    sym (is_abs-clean p) ∙ ap is_abs (text_eq→eq (clean p) (slash ∷ []) h) ∙ unfold is_abs in refl

has_prefix-clean_of_Extends :
    (p q : Text)
    → Extends p q
    → text_eq (clean q) (slash ∷ []) ≡ false
    → has_prefix (clean p) (clean q ++ (slash ∷ [])) ≡ true
has_prefix-clean_of_Extends p q x h =
    let e : clean p ≡ render (is_abs q) (x.rel ++ stack q) =
      clean_lem p ∙ ap (λ r. render r (stack p)) x.same_base ∙ ap (render (is_abs q)) x.stacks in
    rw (e, clean_lem q)
      (has_prefix-render (is_abs q) x.rel (stack q) x.rel_ne_nil x.not_dot
        (subst (λ t. text_eq t (slash ∷ []) ≡ false) (clean_lem q) h))

has_prefix-slash : (p : Text) → is_abs p ≡ true → has_prefix p (slash ∷ []) ≡ true
unfolding is_abs has_prefix
has_prefix-slash [] h = cc
has_prefix-slash (c ∷ p) h = ground arith

is_abs_of_prefix : (p : Text) → has_prefix p (slash ∷ []) ≡ true → is_abs p ≡ true
unfolding is_abs has_prefix
is_abs_of_prefix [] h = cc
is_abs_of_prefix (c ∷ p) h = ground arith

contained_of_Extends : (p q : Text) → Extends p q → is_path_contained p q ≡ true
unfolding is_path_contained
contained_of_Extends p q x = elim (Bool-cases (text_eq (clean p) (clean q))) [
  | inl same ↦ absurd (
      append-ne_self x.rel (stack q) x.rel_ne_nil
        (sym x.stacks ∙ stack_of_clean p q x.same_base (text_eq→eq (clean p) (clean q) same)))
  | inr differ ↦ rw differ (elim (Bool-cases (text_eq (clean q) (slash ∷ []))) [
    | inl root ↦ rw root (
        rw (text_eq→eq (clean q) (slash ∷ []) root)
          (has_prefix-slash (clean p) (is_abs-clean p ∙ x.same_base ∙ slash_of_clean q root)))
    | inr deeper ↦ rw deeper (has_prefix-clean_of_Extends p q x deeper)
  ])
]

nil_of_is_empty : (p : Text) → is_empty p ≡ true → p ≡ []
unfolding is_empty
nil_of_is_empty [] h = refl
nil_of_is_empty (c ∷ p) h = cc

clean_of_root : (p : Text) → is_abs p ≡ true → stack p ≡ [] → clean p ≡ slash ∷ []
clean_of_root p r s =
    clean_lem p ∙ ap (λ b. render b (stack p)) r ∙ ap (render true) s ∙ unfold render join in refl

pub clean-ne-empty : (p : Text) → is_empty (clean p) ≡ false
unfolding split
clean-ne-empty p = elim (Bool-cases (is_empty (clean p))) [
  | inr ok ↦ ok
  | inl h ↦
      let void : [] ∷ [] ≡ components (is_abs p) (stack p) =
        ap (split slash) (sym (nil_of_is_empty (clean p) h)) ∙ split-clean p in
      absurd (components-ne-void (is_abs p) (stack p) (stack-IsNormal p) void)
]

Extends-of_slash :
    (p q : Text)
    → text_eq (clean p) (clean q) ≡ false
    → clean q ≡ slash ∷ []
    → has_prefix (clean p) (clean q) ≡ true
    → Extends p q
Extends-of_slash p q ne root h =
    let abs_q : is_abs q ≡ true = slash_of_clean q (rw root (text_eq_refl (slash ∷ []))) in
    let abs_p : is_abs p ≡ true =
      sym (is_abs-clean p) ∙ is_abs_of_prefix (clean p) (rw root at h) in
    let empty_q : stack q ≡ [] = sym (stack-clean q) ∙ ap stack root ∙ unfold stack in refl in
    record {
      same_base = abs_p ∙ sym abs_q;
      not_dot = λ r. absurd (cc (r, abs_q));
      rel = stack p;
      rel_ne_nil = λ e. cc (ne, clean_of_root p abs_p e, root, text_eq_refl (slash ∷ []));
      stacks = rw (empty_q, append-nil);
    }

Extends-of_deeper :
    (p q : Text)
    → has_prefix (clean p) (clean q ++ (slash ∷ [])) ≡ true
    → text_eq (clean q) (slash ∷ []) ≡ false
    → Extends p q
Extends-of_deeper p q h ne =
    let (rest, e) = has_prefix→append (clean p) (clean q ++ (slash ∷ [])) h in
    let e' : clean p ≡ clean q ++ (slash ∷ rest) = e ∙ append_assoc (clean q) (slash ∷ []) rest in
    let base : is_abs p ≡ is_abs q =
      sym (is_abs-clean p)
      ∙ ap is_abs e'
      ∙ is_abs-append (clean q) (slash ∷ rest) (clean-ne-empty q)
      ∙ is_abs-clean q in
    let parts : components (is_abs q) (stack p)
        ≡ components (is_abs q) (stack q) ++ split slash rest =
      ap (λ b. components b (stack p)) (sym base)
      ∙ sym (split-clean p)
      ∙ ap (split slash) e'
      ∙ split-append slash (clean q) rest
      ∙ ap (λ x. x ++ split slash rest) (split-clean q) in
    let found =
      stacks_of_components (split slash rest) (split-ne-nil slash rest) (is_abs q) (stack p)
        (stack q) (subst (λ b. IsNormal b (stack p)) base (stack-IsNormal p)) (stack-IsNormal q)
        (λ r n. cc (ne, clean_of_root q r n, text_eq_refl (slash ∷ []))) parts in
    record {
      same_base = base;
      not_dot = found.0;
      rel = reverse (split slash rest);
      rel_ne_nil = reverse-ne-nil (split slash rest) (split-ne-nil slash rest);
      stacks = found.1;
    }

Extends-of_contained : (p q : Text) → is_path_contained p q ≡ true → Extends p q
unfolding is_path_contained
Extends-of_contained p q h = elim (Bool-cases (text_eq (clean p) (clean q))) [
  | inl same ↦ absurd (let h' = (rw same at h) in cc h')
  | inr differ ↦ elim (Bool-cases (text_eq (clean q) (slash ∷ []))) [
    | inl root ↦
        Extends-of_slash p q differ (text_eq→eq (clean q) (slash ∷ []) root)
          (rw (differ, root) at h)
    | inr deeper ↦ Extends-of_deeper p q (rw (differ, deeper) at h) deeper
  ]
]

-- `IsPathContained(path, root)` holds exactly when the cleaned components of `path` are those of
-- `root` followed by at least one more, both are absolute or both relative, and `root` does not
-- clean to `.`.
pub is_path_contained-iff-Extends :
    (path root : Text) → (is_path_contained path root ≡ true) ↔ Extends path root
is_path_contained-iff-Extends path root =
    (Extends-of_contained path root, contained_of_Extends path root)
