-- ===== src/Gather/Matchers/Hosts.antt =====
-- Which URIs the gatherer over HTTP takes.
use go_gather.Base.{
  ◌≡◌, ◌↔◌, refl, ap, sym, subst, ◌⊎◌, inl, inr, Bool, true, false, not, ◌&&◌, ◌||◌, List, [], ◌∷◌,
  ◌++◌, All, Bool-cases, arith,
}
use go_gather.Base.Text.{Text, codes, text_eq, text_eq_refl, text_eq→eq, has_suffix}
use go_gather.Path.{is_empty}
use go_gather.Url.Parse.{Url, parse_url, hostname, to_lower}
use go_gather.Exec.{Result, ok, err}
use go_gather.Gather.Matchers.{is_vendor, http_url, if_parsed, http_matcher}

-- A host is a domain or a name in it.
abbrev pub InDomain : Text → Text → Type 0
InDomain h d = (h ≡ d) ⊎ ((sub : Text) × (h ≡ sub ++ (b'.' ∷ d)))

has_suffix→append : (s t : Text) → has_suffix s t ≡ true → (front : Text) × (s ≡ front ++ t)
unfolding has_suffix
has_suffix→append [] t h = ([], sym (sym (text_eq→eq [] t h)))
has_suffix→append (c ∷ s) t h = elim (Bool-cases (text_eq (c ∷ s) t)) [
  | inl same ↦ ([], text_eq→eq (c ∷ s) t same)
  | inr differ ↦
      let (front, e) = has_suffix→append s t (rw differ at h) in (c ∷ front, ap (λ x. c ∷ x) e)
]

has_suffix-append : (front t : Text) → has_suffix (front ++ t) t ≡ true
unfolding has_suffix
has_suffix-append [] [] = refl
has_suffix-append [] (d ∷ t) = ground (arith, text_eq_refl (d ∷ t))
has_suffix-append (c ∷ front) t = ground (arith, has_suffix-append front t)

abbrev Outside : Text → List Text → Type 0
Outside h = All (λ v. ¬ (InDomain h v))

pub InDomain-of_test : (h v : Text) → (text_eq h v || has_suffix h (b'.' ∷ v)) ≡ true → InDomain h v
InDomain-of_test h v e = elim (Bool-cases (text_eq h v)) [
  | inl same ↦ inl (text_eq→eq h v same)
  | inr differ ↦ inr (has_suffix→append h (b'.' ∷ v) (rw differ at e))
]

pub test_of_InDomain : (h v : Text) → InDomain h v → (text_eq h v || has_suffix h (b'.' ∷ v)) ≡ true
test_of_InDomain h v (inl e) = rw (subst (λ x. text_eq x v ≡ true) (sym e) (text_eq_refl v)) refl
test_of_InDomain h v (inr (sub, e)) =
    let found : has_suffix h (b'.' ∷ v) ≡ true =
      subst (λ x. has_suffix x (b'.' ∷ v) ≡ true) (sym e) (has_suffix-append sub (b'.' ∷ v)) in
    elim (Bool-cases (text_eq h v)) [ inl s ↦ rw s refl | inr d ↦ rw (d, found) refl ]

Outside-of_test : (h : Text) (vs : List Text) → is_vendor h vs ≡ false → Outside h vs
unfolding is_vendor
Outside-of_test h [] e = tt
Outside-of_test h (v ∷ vs) e = elim (Bool-cases (text_eq h v || has_suffix h (b'.' ∷ v))) [
  | inl hit ↦ absurd (cc (rw hit at e))
  | inr miss ↦ (λ d. cc (miss, test_of_InDomain h v d), Outside-of_test h vs (rw miss at e))
]

test_of_Outside : (h : Text) (vs : List Text) → Outside h vs → is_vendor h vs ≡ false
unfolding is_vendor
test_of_Outside h [] o = refl
test_of_Outside h (v ∷ vs) (o, os) = elim (Bool-cases (text_eq h v || has_suffix h (b'.' ∷ v))) [
  | inl hit ↦ absurd (o (InDomain-of_test h v hit))
  | inr miss ↦ rw miss (test_of_Outside h vs os)
]

abbrev vendors : List Text
vendors = codes "github.com" ∷ codes "gitlab.com" ∷ codes "bitbucket.org" ∷ []

-- The scheme is that of HTTP, there is a host, and it is in no domain of a vendor of git hosting.
abbrev pub IsFetched : Url → Type 0
IsFetched u =
    ((u.scheme ≡ codes "http") ⊎ (u.scheme ≡ codes "https"))
    × ((is_empty (to_lower (hostname u)) ≡ false) × Outside (to_lower (hostname u)) vendors)

abbrev has_scheme : Url → Bool
has_scheme u = not (not (text_eq u.scheme (codes "http")) && not (text_eq u.scheme (codes "https")))

scheme_of_test :
    (u : Url) → has_scheme u ≡ true → (u.scheme ≡ codes "http") ⊎ (u.scheme ≡ codes "https")
scheme_of_test u h = elim (Bool-cases (text_eq u.scheme (codes "http"))) [
  | inl e ↦ inl (text_eq→eq u.scheme (codes "http") e)
  | inr e ↦ elim (Bool-cases (text_eq u.scheme (codes "https"))) [
    | inl f ↦ inr (text_eq→eq u.scheme (codes "https") f)
    | inr f ↦ absurd (cc (rw (e, f) at h))
  ]
]

test_of_scheme :
    (u : Url) → (u.scheme ≡ codes "http") ⊎ (u.scheme ≡ codes "https") → has_scheme u ≡ true
unfolding text_eq
test_of_scheme u (inl e) = rw e refl
test_of_scheme u (inr e) = rw e refl

not-true : (b : Bool) → not b ≡ true → b ≡ false
not-true true h = cc
not-true false h = refl

http_url-IsFetched : (u : Url) → http_url u ≡ true → IsFetched u
unfolding http_url
http_url-IsFetched u h =
    let host = to_lower (hostname u) in
    elim (Bool-cases
      (not (text_eq u.scheme (codes "http")) && not (text_eq u.scheme (codes "https")))) [
        | inl other ↦ absurd (cc (rw other at h))
        | inr scheme ↦ elim (Bool-cases (is_empty host)) [
          | inl empty ↦ absurd (cc (rw (scheme, empty) at h))
          | inr full ↦ (
            scheme_of_test u (rw scheme refl),
            (
              full,
              Outside-of_test host vendors
                  (not-true (is_vendor host vendors) (rw (scheme, full) at h)),
            ),
          )
        ]
      ]

IsFetched-http_url : (u : Url) → IsFetched u → http_url u ≡ true
unfolding http_url
IsFetched-http_url u (scheme, (full, outside)) =
    let tested : (not (text_eq u.scheme (codes "http")) && not (text_eq u.scheme (codes "https")))
        ≡ false =
      not-true _ (test_of_scheme u scheme) in
    rw (tested, full, test_of_Outside (to_lower (hostname u)) vendors outside) refl

-- The gatherer over HTTP takes a URI exactly where it parses as a URL with the scheme http or https
-- and a host that is neither a vendor of git hosting nor a name in the domain of one, in any case.
pub http_matcher-iff-IsFetched :
    (uri : Text) → (http_matcher uri ≡ true) ↔ ((u : Url) × (parse_url uri ≡ ok u) × IsFetched u)
unfolding http_matcher
http_matcher-iff-IsFetched uri = (taken (parse_url uri), given (parse_url uri))
  where
    taken : (r : Result Url) → if_parsed r http_url ≡ true → (u : Url) × (r ≡ ok u) × IsFetched u
    taken (ok u) h = (u, refl, http_url-IsFetched u h)
    taken (err _) h = absurd (cc h)

    given : (r : Result Url) → (u : Url) × (r ≡ ok u) × IsFetched u → if_parsed r http_url ≡ true
    given r (u, e, f) = rw e (IsFetched-http_url u f)
