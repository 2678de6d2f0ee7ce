-- ===== src/Expand/Registry.antt =====
-- The registry of expanders of expand/expander.go: `RegisterExpander` and `GetExpander`, over any
-- type of entries with a matcher. The registry of gatherers in gather/gatherer.go is the same code.
use go_gather.Base.{
  ◌≡◌, ◌↔◌, refl, ap, subst, ◌∙◌, Bool, true, false, Option, none, some, List, [], ◌∷◌, ◌++◌,
  if◌then◌else◌, All, Bool-cases, inl, inr,
}
use mathlib.Core.Option.{some-injective}
use go_gather.Base.Text.{Text}

module _ {E : Type 0} (matcher : E → Text → Bool) where
  -- `GetExpander`, and `GetGatherer` with its error for `none`.
  unfoldable pub get : List E → Text → Option E
  get [] key = none
  get (e ∷ es) key = if matcher e key then some e else get es key

  -- The entries before the one that is found do not match; none of them where none is found.
  abbrev pub Passed : List E → Text → Type 0
  Passed before key = All (λ e. matcher e key ≡ false) before

  pub record First (es : List E) (key : Text) (e : E) : Type 0 where
    pub before : List E
    pub after : List E
    pub order : es ≡ before ++ (e ∷ after)
    pub passed : Passed before key
    pub matches : matcher e key ≡ true

-- `RegisterExpander`, `RegisterGatherer`
unfoldable pub register {ℓ} : {E : Type ℓ} → List E → E → List E
register es e = es ++ (e ∷ [])

module _ {E : Type 0} (matcher : E → Text → Bool) where
  First-of_get :
      (es : List E) (key : Text) (e : E) → get matcher es key ≡ some e → First matcher es key e
  unfolding get
  First-of_get [] key e h = absurd (cc h)
  First-of_get (x ∷ es) key e h = elim (Bool-cases (matcher x key)) [
    | inl hit ↦
        let same : x ≡ e = some-injective x e (rw hit at h) in
        record {
          before = [];
          after = es;
          order = ap (λ y. y ∷ es) same;
          passed = tt;
          matches = subst (λ y. matcher y key ≡ true) same hit;
        }
    | inr miss ↦
        let f = First-of_get es key e (rw miss at h) in
        record {
          before = x ∷ f.before;
          after = f.after;
          order = ap (λ y. x ∷ y) f.order;
          passed = (miss, f.passed);
          matches = f.matches;
        }
  ]

  get_of_order :
      (before after : List E) (key : Text) (e : E)
      → Passed matcher before key
      → matcher e key ≡ true
      → get matcher (before ++ (e ∷ after)) key ≡ some e
  unfolding get
  get_of_order [] after key e _ h = rw h
  get_of_order (x ∷ before) after key e (miss, p) h = rw miss (get_of_order before after key e p h)

  -- A lookup finds an entry exactly where that entry matches and no entry registered before it does.
  pub get-iff-First :
      (es : List E) (key : Text) (e : E) → (get matcher es key ≡ some e) ↔ First matcher es key e
  get-iff-First es key e = (
    First-of_get es key e,
    λ f.
        ap (λ x. get matcher x key) f.order
        ∙ get_of_order f.before f.after key e f.passed f.matches,
  )

  -- Registering an entry changes no lookup that found something, and is found where nothing was
  -- and it matches.
  pub get-register :
      (es : List E) (e : E) (key : Text)
      → get matcher (register es e) key ≡ elim (get matcher es key) [
        | some found ↦ some found
        | none ↦ if matcher e key then some e else none
      ]
  unfolding get register
  get-register [] e key = refl
  get-register (x ∷ es) e key = elim (Bool-cases (matcher x key)) [
    | inl hit ↦ rw (hit, get)
    | inr miss ↦ rw (miss, get) (get-register es e key)
  ]

-- What holds of all entries holds of the one that is found.
pub All-get :
    {E : Type 0} (matcher : E → Text → Bool) (Q : E → Type 0) (es : List E) (key : Text) (e : E)
    → All Q es
    → get matcher es key ≡ some e
    → Q e
unfolding get
All-get matcher Q [] key e _ h = absurd (cc h)
All-get matcher Q (x ∷ es) key e (q, qs) h = elim (Bool-cases (matcher x key)) [
  | inl hit ↦ subst Q (some-injective x e (rw hit at h)) q
  | inr miss ↦ All-get matcher Q es key e qs (rw miss at h)
]
