-- ===== src/Helpers/Components.antt =====
-- What the components of a cleaned path say of its stack, and the other way round.
use mathlib.Core.List.{reverse-append, reverse-reverse, append_assoc, tail}
use go_gather.Base.{
  ◌≡◌, ◌≢◌, refl, ap, sym, subst, ◌∙◌, Bool, true, false, List, [], ◌∷◌, ◌++◌, reverse, All,
}
use go_gather.Base.Text.{Text, join, text_eq, text_eq_refl, has_prefix, has_prefix-append}
use go_gather.Path.{slash, dot, is_void, Stack, render}
use go_gather.Path.Split.{join-append}
use go_gather.Path.Normal.{IsNormal}
use go_gather.Path.Clean.{components, not_void_of_IsNormal, All-reverse, void_empty}

join-append_all :
    (a b : List Text)
    → a ≢ []
    → b ≢ []
    → join slash (a ++ b) ≡ join slash a ++ (slash ∷ join slash b)
join-append_all [] b h k = absurd (h refl)
join-append_all (p ∷ ps) [] h k = absurd (k refl)
join-append_all (p ∷ ps) (q ∷ qs) h k = join-append slash p ps q qs

pub reverse-ne-nil : (s : Stack) → s ≢ [] → reverse s ≢ []
reverse-ne-nil s h e = h (sym (reverse-reverse s) ∙ ap reverse e)

join-reverse :
    (rel s : Stack)
    → rel ≢ []
    → s ≢ []
    → join slash (reverse (rel ++ s)) ≡ join slash (reverse s) ++ (slash ∷ join slash (reverse rel))
join-reverse rel s h k =
    rw (reverse-append rel s)
      (join-append_all (reverse s) (reverse rel) (reverse-ne-nil s k) (reverse-ne-nil rel h))

has_prefix-join :
    (rel s : Stack)
    → rel ≢ []
    → s ≢ []
    → has_prefix (join slash (reverse (rel ++ s))) (join slash (reverse s) ++ (slash ∷ [])) ≡ true
has_prefix-join rel s h k = rw (join-reverse rel s h k) (
    subst (λ x. has_prefix x (join slash (reverse s) ++ (slash ∷ [])) ≡ true)
      (append_assoc (join slash (reverse s)) (slash ∷ []) (join slash (reverse rel)))
      (has_prefix-append (join slash (reverse s) ++ (slash ∷ [])) (join slash (reverse rel))))

pub cons-ne-nil : (t : Text) (s : Stack) → t ∷ s ≢ []
cons-ne-nil t s = cc

pub has_prefix-render :
    (r : Bool) (rel s : Stack)
    → rel ≢ []
    → (r ≡ false → s ≢ [])
    → text_eq (render r s) (slash ∷ []) ≡ false
    → has_prefix (render r (rel ++ s)) (render r s ++ (slash ∷ [])) ≡ true
unfolding render has_prefix join
has_prefix-render true rel [] h d ne = cc (text_eq_refl (slash ∷ []))
has_prefix-render true rel (t ∷ s) h d ne = has_prefix-join rel (t ∷ s) h (cons-ne-nil t s)
has_prefix-render false rel [] h d ne = absurd (d refl refl)
has_prefix-render false [] (t ∷ s) h d ne = absurd (h refl)
has_prefix-render false (u ∷ rel) (t ∷ s) h d ne =
    has_prefix-join (u ∷ rel) (t ∷ s) h (cons-ne-nil t s)

-- The first component of a stack that is not empty.
head_of :
    (cs : List Text)
    → cs ≢ []
    → All (λ c. is_void c ≡ false) cs
    → (c : Text) × (ds : List Text) × (cs ≡ c ∷ ds) × (is_void c ≡ false)
head_of [] h v = absurd (h refl)
head_of (c ∷ ds) h (v, _) = (c, ds, refl, v)

pub head_of_stack :
    (r : Bool) (t : Text) (s : Stack)
    → IsNormal r (t ∷ s)
    → (c : Text) × (ds : List Text) × (reverse (t ∷ s) ≡ c ∷ ds) × (is_void c ≡ false)
head_of_stack r t s n =
    head_of (reverse (t ∷ s)) (reverse-ne-nil (t ∷ s) (cons-ne-nil t s))
      (All-reverse (λ c. is_void c ≡ false) (t ∷ s) (not_void_of_IsNormal r (t ∷ s) n))

reverse_of_append :
    (s t : Stack) (cs : List Text) → reverse s ≡ reverse t ++ cs → s ≡ reverse cs ++ t
reverse_of_append s t cs e =
    sym (reverse-reverse s)
    ∙ ap reverse e
    ∙ reverse-append (reverse t) cs
    ∙ ap (λ x. reverse cs ++ x) (reverse-reverse t)

void_dot : is_void dot ≡ true
unfolding is_void
void_dot = refl

module _ (cs : List Text) (cs_ne : cs ≢ []) where
  pub stacks_of_components :
      (r : Bool) (s t : Stack)
      → IsNormal r s
      → IsNormal r t
      → (r ≡ true → t ≢ [])
      → components r s ≡ components r t ++ cs
      → (r ≡ false → t ≢ []) × (s ≡ reverse cs ++ t)
  stacks_of_components true s [] n m d e = absurd (d refl refl)
  stacks_of_components true [] (u ∷ t) n m d e =
      let (c, ds, q, x) = head_of_stack true u t m in
      let e' : [] ∷ [] ∷ [] ≡ [] ∷ ((c ∷ ds) ++ cs) = rw q at e in absurd (cc (x, void_empty, e'))
  stacks_of_components true (v ∷ s) (u ∷ t) n m d e =
      ((λ h. absurd (cc h)), reverse_of_append (v ∷ s) (u ∷ t) cs (ap tail e))
  stacks_of_components false [] [] n m d e = absurd (cs_ne (ap tail (sym e)))
  stacks_of_components false (v ∷ s) [] n m d e =
      let (c, ds, q, x) = head_of_stack false v s n in absurd (cc (x, void_dot, q, e))
  stacks_of_components false [] (u ∷ t) n m d e =
      let (c, ds, q, x) = head_of_stack false u t m in
      let e' : dot ∷ [] ≡ (c ∷ ds) ++ cs = rw q at e in absurd (cc (x, void_dot, e'))
  stacks_of_components false (v ∷ s) (u ∷ t) n m d e =
      ((λ _. cons-ne-nil u t), reverse_of_append (v ∷ s) (u ∷ t) cs e)

pub components-ne-void : (r : Bool) (s : Stack) → IsNormal r s → [] ∷ [] ≢ components r s
components-ne-void true [] n e = cc
components-ne-void true (t ∷ s) n e = reverse-ne-nil (t ∷ s) (cons-ne-nil t s) (ap tail (sym e))
components-ne-void false [] n e = cc
components-ne-void false (t ∷ s) n e =
    let (c, ds, q, x) = head_of_stack false t s n in cc (x, void_empty, q, e)
