-- ===== src/Gather/Pinned/Repin.antt =====
-- Pinning a pinned OCI URL again.
use go_gather.Base.{
  ◌≡◌, refl, ap, sym, subst, ◌∙◌, false, [], ◌∷◌, ◌++◌, arith, All, Bool-cases, inl, inr, ◌==◌,
}
use go_gather.Base.Text.{Text, codes, has_prefix, trim_prefix, trim_prefixes, before, drop}
use go_gather.Path.{is_empty}
use go_gather.Exec.{ok}
use go_gather.Gather.Pinned.{oci_name, oci_pinned}

-- A text without an `@`.
abbrev NoAt : Text → Type 0
NoAt = All (λ c. (c == b'@') ≡ false)

before-NoAt : (s : Text) → NoAt (before (b'@' ∷ []) s)
unfolding before has_prefix
before-NoAt [] = tt
before-NoAt (c ∷ s) = elim (Bool-cases (c == b'@')) [
  | inl e ↦ rw e tt
  | inr e ↦ rw e (e, before-NoAt s)
]

before_NoAt : (s rest : Text) → NoAt s → before (b'@' ∷ []) (s ++ (b'@' ∷ rest)) ≡ s
unfolding before has_prefix
before_NoAt [] rest h = refl
before_NoAt (c ∷ s) rest (e, h) = rw (e, before_NoAt s rest h) refl

-- What follows an `@` does not decide on a prefix that has none.
has_prefix-at : (s rest t : Text) → NoAt t → has_prefix (s ++ (b'@' ∷ rest)) t ≡ has_prefix s t
unfolding has_prefix
has_prefix-at s rest [] h = ground arith
has_prefix-at [] rest (d ∷ t) (e, h) = ground (arith, e)
has_prefix-at (c ∷ s) rest (d ∷ t) (e, h) = rw (has_prefix-at s rest t h) refl

trim_prefix_none : (s t : Text) → has_prefix s t ≡ false → trim_prefix s t ≡ s
unfolding trim_prefix
trim_prefix_none s t h = rw h refl

trim_oci : (s : Text) → trim_prefix (codes "oci::" ++ s) (codes "oci::") ≡ s
unfolding trim_prefix has_prefix drop
trim_oci s = refl

ok-injective : (s t : Text) → ok s ≡ ok t → s ≡ t
ok-injective s t e = cc e

full_of_pinned :
    (digest u pinned : Text)
    → oci_pinned digest u ≡ ok pinned
    → (is_empty u ≡ false) × (pinned ≡ codes "oci::" ++ (oci_name u ++ (b'@' ∷ digest)))
unfolding oci_pinned
full_of_pinned digest u pinned h = elim (Bool-cases (is_empty u)) [
  | inl e ↦ absurd (let x = (rw e at h) in cc x)
  | inr e ↦ elim (Bool-cases (is_empty digest)) [
    | inl d ↦ absurd (let x = (rw (e, d) at h) in cc x)
    | inr d ↦ (e, let x = (rw (e, d) at h) in cc x)
  ]
]

oci_name_lem :
    (s : Text)
    → oci_name s
      ≡ before (b'@' ∷ []) (
          trim_prefix
            (trim_prefix (trim_prefix s (codes "oci::")) (codes "oci://"))
            (codes "https://"))
unfolding oci_name trim_prefixes
oci_name_lem s = refl

same_pinned :
    (d p q : Text)
    → is_empty p ≡ false
    → is_empty q ≡ false
    → oci_name p ≡ oci_name q
    → oci_pinned d p ≡ oci_pinned d q
unfolding oci_pinned
same_pinned d p q pf qf e = rw (pf, qf, e) refl

oci_name_again :
    (old u : Text)
    → has_prefix (oci_name u) (codes "oci://") ≡ false
    → has_prefix (oci_name u) (codes "https://") ≡ false
    → oci_name (codes "oci::" ++ (oci_name u ++ (b'@' ∷ old))) ≡ oci_name u
unfolding oci_name
oci_name_again old u a b =
    let rest = oci_name u ++ (b'@' ∷ old) in
    let a' : has_prefix rest (codes "oci://") ≡ false =
      has_prefix-at (oci_name u) old (codes "oci://")
        (refl, (refl, (refl, (refl, (refl, (refl, tt))))))
      ∙ a in
    let b' : has_prefix rest (codes "https://") ≡ false =
      has_prefix-at (oci_name u) old (codes "https://")
        (refl, (refl, (refl, (refl, (refl, (refl, (refl, (refl, tt))))))))
      ∙ b in
    oci_name_lem (codes "oci::" ++ rest)
    ∙ ap (λ s. before (b'@' ∷ []) (trim_prefix (trim_prefix s (codes "oci://")) (codes "https://")))
        (trim_oci rest)
    ∙ ap (λ s. before (b'@' ∷ []) (trim_prefix s (codes "https://")))
        (trim_prefix_none rest (codes "oci://") a')
    ∙ ap (before (b'@' ∷ [])) (trim_prefix_none rest (codes "https://") b')
    ∙ before_NoAt (oci_name u) old
        (before-NoAt (trim_prefixes u (codes "oci::" ∷ codes "oci://" ∷ codes "https://" ∷ [])))

-- A URL that is pinned to one digest and then to another is pinned to the second one only. The
-- name of the artifact does not itself begin with `oci://` or
-- `https://`, as it would where the URL has several schemes.
pub oci_pinned-oci_pinned :
    (old new u pinned : Text)
    → oci_pinned old u ≡ ok pinned
    → has_prefix (oci_name u) (codes "oci://") ≡ false
    → has_prefix (oci_name u) (codes "https://") ≡ false
    → oci_pinned new pinned ≡ oci_pinned new u
oci_pinned-oci_pinned old new u pinned h a b =
    let (full, e) = full_of_pinned old u pinned h in
    subst (λ p. oci_pinned new p ≡ oci_pinned new u) (sym e)
      (same_pinned new (codes "oci::" ++ (oci_name u ++ (b'@' ∷ old))) u (unfold is_empty in refl)
        full (oci_name_again old u a b))
