-- ===== src/Os/Places.antt =====
-- Laws of places: equality, and the order `under` from a directory to what lies below it.
use go_gather.Base.{
  ◌≡◌, refl, ap, sym, subst, ◌⊎◌, inl, inr, true, [], ◌∷◌, ◌++◌, arith, Bool-cases,
}
use go_gather.Base.Text.{Text, text_eq→eq, text_eq_refl}
use go_gather.Path.{Loc, parent}
use go_gather.Os.Defs.{loc_eq, under}

pub loc_eq_refl : (l : Loc) → loc_eq l l ≡ true
unfolding loc_eq
loc_eq_refl [] = refl
loc_eq_refl (n ∷ l) = ground (arith, loc_eq_refl l, text_eq_refl n)

pub loc_eq→eq : (l m : Loc) → loc_eq l m ≡ true → l ≡ m
unfolding loc_eq
loc_eq→eq [] [] h = refl
loc_eq→eq [] (_ ∷ _) h = cc
loc_eq→eq (_ ∷ _) [] h = cc
loc_eq→eq (a ∷ l) (b ∷ m) h = ground (arith, loc_eq→eq l m, text_eq→eq a b)

pub under_refl : (l : Loc) → under l l ≡ true
unfolding under
under_refl [] = refl
under_refl (n ∷ l) = ground (arith, loc_eq_refl (n ∷ l))

pub under-append : (rel root : Loc) → under root (rel ++ root) ≡ true
unfolding under
under-append [] root = under_refl root
under-append (n ∷ rel) root = ground (arith, under-append rel root)

pub under-cons : (root l : Loc) (n : Text) → under root l ≡ true → under root (n ∷ l) ≡ true
unfolding under
under-cons root l n h = ground arith

-- What is not below a directory is not below anything under it.
pub under_trans : (a b c : Loc) → under a b ≡ true → under b c ≡ true → under a c ≡ true
unfolding under
under_trans a b [] h k = subst (λ x. under a x ≡ true) (sym (loc_eq→eq [] b k)) h
under_trans a b (n ∷ c) h k = elim (Bool-cases (loc_eq (n ∷ c) b)) [
  | inl e ↦ subst (λ x. under a x ≡ true) (sym (loc_eq→eq (n ∷ c) b e)) h
  | inr ne ↦ under-cons a c n (under_trans a b c h (rw ne at k))
]

pub under_parent : (l root : Loc) (n : Text) → under (n ∷ l) root ≡ true → under l root ≡ true
unfolding under
under_parent l [] n h = cc
under_parent l (m ∷ root) n h = elim (Bool-cases (loc_eq (m ∷ root) (n ∷ l))) [
  | inl e ↦
      let tails : root ≡ l = ap parent (loc_eq→eq (m ∷ root) (n ∷ l) e) in
      under-cons l root m (subst (λ x. under x root ≡ true) tails (under_refl root))
  | inr ne ↦ under-cons l root m (under_parent l root n (rw ne at h))
]

-- One of the two lies below the other.
abbrev pub Comparable : Loc → Loc → Type 0
Comparable root l = (under root l ≡ true) ⊎ (under l root ≡ true)

pub Comparable-parent : (root l : Loc) (n : Text) → Comparable root (n ∷ l) → Comparable root l
Comparable-parent root l n (inr h) = inr (under_parent l root n h)
Comparable-parent root l n (inl h) = elim (Bool-cases (loc_eq (n ∷ l) root)) [
  | inl e ↦
      inr
        (subst (λ x. under l x ≡ true) (loc_eq→eq (n ∷ l) root e) (under-cons l l n (under_refl l)))
  | inr ne ↦ inl (unfold under in rw ne at h)
]
