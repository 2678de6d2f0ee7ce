-- ===== src/Oci/Registries.antt =====
-- Which hosts are known registries.
use go_gather.Base.{
  ℕ, suc, ◌≡◌, ◌↔◌, refl, ap, sym, subst, ◌∙◌, ◌⊎◌, inl, inr, Bool, true, false, not, ◌&&◌, ◌||◌,
  ◌==◌, Option, none, some, [], ◌∷◌, ◌++◌, All, Bool-cases, arith, length,
}
use go_gather.Base.Text.{
  Text, codes, text_eq, text_eq_refl, text_eq→eq, has_prefix, has_prefix-append, has_prefix→append,
  before, drop,
}
use go_gather.Path.{is_empty}
use go_gather.Url.Parse.{to_lower}
use go_gather.Gather.Matchers.Hosts.{InDomain, InDomain-of_test, test_of_InDomain}
use go_gather.Oci.Host.{in_domain, is_digit, skip_digits, all_region, is_ecr, is_registry_host}

abbrev AllDigits : Text → Type 0
AllDigits = All (λ c. is_digit c ≡ true)

-- A registry of AWS: an account of twelve digits and a region.
pub record IsEcrHost (h : Text) : Type 0 where
  pub account : Text
  pub region : Text
  pub twelve : length account ≡ 12
  pub digits : AllDigits account
  pub named : is_empty region ≡ false
  pub allowed : all_region region ≡ true
  pub whole : h ≡ account ++ (codes ".dkr.ecr." ++ (region ++ codes ".amazonaws.com"))

skipped :
    (n : ℕ) (s r : Text)
    → skip_digits n s ≡ some r
    → (d : Text) × (length d ≡ n) × AllDigits d × (s ≡ d ++ r)
unfolding skip_digits
skipped ℕ.zero s r h = ([], refl, tt, cc h)
skipped (suc n) [] r h = absurd (cc h)
skipped (suc n) (c ∷ s) r h = elim (Bool-cases (is_digit c)) [
  | inr other ↦ absurd (cc (rw other at h))
  | inl digit ↦
      let (d, l, all, e) = skipped n s r (rw digit at h) in
      (c ∷ d, ap suc l, (digit, all), ap (λ x. c ∷ x) e)
]

skip_digits-append : (d r : Text) → AllDigits d → skip_digits (length d) (d ++ r) ≡ some r
unfolding skip_digits
skip_digits-append [] r _ = refl
skip_digits-append (c ∷ d) r (digit, all) = rw digit (skip_digits-append d r all)

before-drop : (sep s : Text) → before sep s ++ drop (length (before sep s)) s ≡ s
unfolding before drop
before-drop sep [] = refl
before-drop sep (c ∷ s) = elim (Bool-cases (has_prefix (c ∷ s) sep)) [
  | inl here ↦ rw here refl
  | inr later ↦ rw later (ap (λ x. c ∷ x) (before-drop sep s))
]

drop-append : (a b : Text) → drop (length a) (a ++ b) ≡ b
unfolding drop
drop-append [] b = refl
drop-append (c ∷ a) b = drop-append a b

no_dot : (c : ℕ) (s : Text) → all_region (c ∷ s) ≡ true → (c == b'.') ≡ false
unfolding all_region
no_dot c s h = grind arith

and_both : (a b : Bool) → (a && b) ≡ true → (a ≡ true) × (b ≡ true)
and_both true b h = (refl, h)
and_both false b h = absurd (cc h)

rest_allowed : (c : ℕ) (s : Text) → all_region (c ∷ s) ≡ true → all_region s ≡ true
unfolding all_region
rest_allowed c s h = (and_both _ (all_region s) h).1

-- A region holds no dot.
before-region :
    (region rest : Text)
    → all_region region ≡ true
    → before (codes ".") (region ++ (b'.' ∷ rest)) ≡ region
unfolding before has_prefix
before-region [] rest h = refl
before-region (c ∷ region) rest h =
    rw (no_dot c region h) (ap (λ x. c ∷ x) (before-region region rest (rest_allowed c region h)))

not-true : (b : Bool) → not b ≡ true → b ≡ false
not-true true h = absurd (cc h)
not-true false h = refl

IsEcrHost-of_skipped :
    (host : Text) (o : Option Text) → skip_digits 12 host ≡ o → is_ecr host ≡ true → IsEcrHost host
unfolding is_ecr
IsEcrHost-of_skipped host none e h = absurd (cc (rw (is_ecr, e) at h))
IsEcrHost-of_skipped host (some s) e h =
    let (account, twelve, digits, split) = skipped 12 host s e in
    let behind = drop (length (codes ".dkr.ecr.")) s in
    let region = before (codes ".") behind in
    let tests : (has_prefix s (codes ".dkr.ecr.")
          && not (is_empty region)
          && all_region region
          && text_eq (drop (length region) behind) (codes ".amazonaws.com"))
        ≡ true =
      (rw (is_ecr, e) at h) in
    let (three, last) =
      and_both _ (text_eq (drop (length region) behind) (codes ".amazonaws.com")) tests in
    let (two, allowed) = and_both _ (all_region region) three in
    let (first, named) = and_both (has_prefix s (codes ".dkr.ecr.")) (not (is_empty region)) two in
    let (rest, front) = has_prefix→append s (codes ".dkr.ecr.") first in
    let behind_rest : behind ≡ rest =
      ap (λ x. drop (length (codes ".dkr.ecr.")) x) front ∙ drop-append (codes ".dkr.ecr.") rest in
    let tail : drop (length region) behind ≡ codes ".amazonaws.com" =
      text_eq→eq (drop (length region) behind) (codes ".amazonaws.com") last in
    let joined : behind ≡ region ++ codes ".amazonaws.com" =
      sym (before-drop (codes ".") behind) ∙ ap (λ x. region ++ x) tail in
    record {
      account = account;
      region = region;
      twelve = twelve;
      digits = digits;
      named = not-true (is_empty region) named;
      allowed = allowed;
      whole =
          split
          ∙ ap (λ x. account ++ x)
              (front ∙ ap (λ x. codes ".dkr.ecr." ++ x) (sym behind_rest ∙ joined));
    }

is_ecr-of_skipped :
    (host region : Text)
    → skip_digits 12 host ≡ some (codes ".dkr.ecr." ++ (region ++ codes ".amazonaws.com"))
    → is_empty region ≡ false
    → all_region region ≡ true
    → is_ecr host ≡ true
unfolding is_ecr
is_ecr-of_skipped host region e named allowed =
    let tail = region ++ codes ".amazonaws.com" in
    rw
      (
        is_ecr,
        e,
        has_prefix-append (codes ".dkr.ecr.") tail,
        drop-append (codes ".dkr.ecr.") tail,
        before-region region (codes "amazonaws.com") allowed,
        named,
        allowed,
        drop-append region (codes ".amazonaws.com"),
      )
      (text_eq_refl (codes ".amazonaws.com"))

is_ecr-of_IsEcrHost : (host : Text) → IsEcrHost host → is_ecr host ≡ true
is_ecr-of_IsEcrHost host x =
    let rest = codes ".dkr.ecr." ++ (x.region ++ codes ".amazonaws.com") in
    let e : skip_digits 12 host ≡ some rest =
      ap (λ y. skip_digits 12 y) x.whole
      ∙ subst (λ n. skip_digits n (x.account ++ rest) ≡ some rest) x.twelve
          (skip_digits-append x.account rest x.digits) in
    is_ecr-of_skipped host x.region e x.named x.allowed

-- The hosts of known registries, with the names below the three domains that have them.
abbrev pub IsRegistry : Text → Type 0
IsRegistry h =
    (((((((InDomain h (codes "azurecr.io") ⊎ InDomain h (codes "gcr.io"))
                ⊎ (h ≡ codes "registry.gitlab.com"))
              ⊎ InDomain h (codes "pkg.dev"))
            ⊎ IsEcrHost h)
          ⊎ (h ≡ codes "quay.io"))
        ⊎ (h ≡ codes "::1"))
      ⊎ (h ≡ codes "127.0.0.1"))
    ⊎ (to_lower h ≡ codes "localhost")

or_iff :
    (A B : Type 0) (a b : Bool) → ((a ≡ true) ↔ A) → ((b ≡ true) ↔ B) → ((a || b) ≡ true) ↔ (A ⊎ B)
or_iff A B true b (f, g) (h, k) = (λ _. inl (f refl), λ _. refl)
or_iff A B false b (f, g) (h, k) = (λ e. inr (h e), back)
  where
    back : A ⊎ B → b ≡ true
    back (inl x) = absurd (cc (g x))
    back (inr y) = k y

in_domain_iff : (h d : Text) → (in_domain h d ≡ true) ↔ InDomain h d
unfolding in_domain
in_domain_iff h d = (InDomain-of_test h d, test_of_InDomain h d)

text_eq_iff : (s t : Text) → (text_eq s t ≡ true) ↔ (s ≡ t)
text_eq_iff s t = (text_eq→eq s t, λ e. subst (λ x. text_eq s x ≡ true) e (text_eq_refl s))

-- The host of a URI is taken for a registry exactly where it is one of the known registries, a name
-- in one of the domains azurecr.io, gcr.io and pkg.dev, a registry of AWS (an account of twelve digits
-- and a region), or the local host.
pub is_registry_host-iff-IsRegistry : (h : Text) → (is_registry_host h ≡ true) ↔ IsRegistry h
unfolding is_registry_host
is_registry_host-iff-IsRegistry h =
    let azure_gcr =
      or_iff _ _ _ _ (in_domain_iff h (codes "azurecr.io")) (in_domain_iff h (codes "gcr.io")) in
    let gitlab = or_iff _ _ _ _ azure_gcr (text_eq_iff h (codes "registry.gitlab.com")) in
    let pkg = or_iff _ _ _ _ gitlab (in_domain_iff h (codes "pkg.dev")) in
    let ecr =
      or_iff _ _ _ _ pkg (IsEcrHost-of_skipped h (skip_digits 12 h) refl, is_ecr-of_IsEcrHost h) in
    let quay = or_iff _ _ _ _ ecr (text_eq_iff h (codes "quay.io")) in
    let six = or_iff _ _ _ _ quay (text_eq_iff h (codes "::1")) in
    let four = or_iff _ _ _ _ six (text_eq_iff h (codes "127.0.0.1")) in
    or_iff _ _ _ _ four (text_eq_iff (to_lower h) (codes "localhost"))
