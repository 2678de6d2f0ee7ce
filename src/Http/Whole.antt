-- ===== src/Http/Whole.antt =====
-- The bound on a response's body never cuts it silently.
use go_gather.Base.{
  ℕ, zero, suc, ◌+◌, ◌-◌, ◌≤◌, ◌<◌, ◌≡◌, ◌⊎◌, refl, ap, sym, ◌∙◌, Bool, true, false, List, [], ◌∷◌,
  ◌++◌, arith, Bool-cases, inl, inr, length, take, ltb→ge, length-take-le, subst,
}
use go_gather.Base.Int64
use go_gather.Base.Int64.{max_int, word}
use go_gather.Exec.{ok}
use go_gather.Os.{Bytes}
use go_gather.Expand.Copy.{Stream, concat}
use go_gather.Expand.Io.{limited}
use go_gather.Http.{bounded, is_positive, check_size}

take_all : (n : ℕ) (b : Bytes) → length (take n b) < n → take n b ≡ b
take_all zero b h = absurd (omega arith)
take_all (suc n) [] h = refl
take_all (suc n) (x ∷ b) h = ap (λ y. x ∷ y) (take_all n b (omega arith))

take-append : (n : ℕ) (b c : Bytes) → take n b ++ take (n - length b) c ≡ take n (b ++ c)
take-append zero b c = let gone : 0 - length b ≡ 0 = omega arith in rw gone refl
take-append (suc n) [] c = let kept : suc n - 0 ≡ suc n = omega arith in ap (λ k. take k c) kept
take-append (suc n) (x ∷ b) c =
    let less : suc n - suc (length b) ≡ n - length b = omega arith in
    ap (λ y. x ∷ y) (ap (λ k. take n b ++ take k c) less ∙ take-append n b c)

concat-limited :
    (n : ℕ) (reads : List Bytes) (broken : Bool)
    → concat (limited n reads broken).reads ≡ take n (concat reads)
unfolding concat limited
concat-limited zero reads broken = refl
concat-limited (suc n) [] broken = refl
concat-limited (suc n) (c ∷ cs) broken =
    ap (λ y. take (suc n) c ++ y) (concat-limited (suc n - length c) cs broken)
    ∙ take-append (suc n) c (concat cs)

small_of_positive : (max : ℕ) → max < word → is_positive max ≡ true → max ≤ max_int
unfolding is_positive Int64.lt
small_of_positive max w h = ground arith

-- The check passes only within a positive limit.
le_of_check_size :
    (max size : ℕ) (u : Unit {0})
    → size ≤ max_int
    → max < word
    → is_positive max ≡ true
    → check_size max size ≡ ok u
    → size ≤ max
unfolding check_size
le_of_check_size max size u small w pos passed =
    let order = Int64.lt-eq-ltb max size (small_of_positive max w pos) small in
    elim (Bool-cases (Int64.lt max size)) [
      | inl over ↦ absurd (let e = (rw (pos, over) at passed) in cc e)
      | inr fits ↦ ltb→ge max size (sym order ∙ fits)
    ]

add-one :
    (max : ℕ)
    → max < word
    → is_positive max ≡ true
    → Int64.lt max max_int ≡ true
    → Int64.add max 1 ≡ max + 1
unfolding Int64.add Int64.lt is_positive
add-one max w h k = ground arith

module _ (max : ℕ) (body : Stream) where
  bounded_free : is_positive max ≡ false → bounded max body ≡ body
  unfolding bounded
  bounded_free h = rw h refl

  bounded_top : is_positive max ≡ true → Int64.lt max max_int ≡ false → bounded max body ≡ body
  unfolding bounded
  bounded_top h k = rw (h, k) refl

  concat-bounded_below :
      max < word
      → is_positive max ≡ true
      → Int64.lt max max_int ≡ true
      → concat (bounded max body).reads ≡ take (max + 1) (concat body.reads)
  unfolding bounded
  concat-bounded_below w h k =
      rw (h, k, add-one max w h k) (concat-limited (max + 1) body.reads body.broken)

cut_small :
    (max : ℕ) (whole part : Bytes)
    → part ≡ take (max + 1) whole
    → length whole ≤ max_int
    → length part ≤ max_int
cut_small max whole part e h =
    subst (λ x. length x ≤ max_int) (sym e) (omega (arith, length-take-le (max + 1) whole, h))

module _ (max : ℕ) (body : Stream) (u : Unit {0}) (small : length (concat body.reads) ≤ max_int)
    (w : max < word) (passed : check_size max (length (concat (bounded max body).reads)) ≡ ok u)
    (pos : is_positive max ≡ true) where
  abbrev Whole : Type 0
  Whole =
      (concat (bounded max body).reads ≡ concat body.reads)
      × ((is_positive max ≡ false) ⊎ (length (concat body.reads) ≤ max))

  whole_at_top : Int64.lt max max_int ≡ false → Whole
  whole_at_top top =
      let same : concat (bounded max body).reads ≡ concat body.reads =
        ap (λ b. concat b.reads) (bounded_top max body pos top) in
      let le =
        le_of_check_size max (length (concat body.reads)) u small w pos
          (subst (λ x. check_size max (length x) ≡ ok u) same passed) in
      (same, inr le)

  whole_below : Int64.lt max max_int ≡ true → Whole
  whole_below below =
      let cut = concat-bounded_below max body w pos below in
      let le =
        le_of_check_size max (length (concat (bounded max body).reads)) u
          (cut_small max (concat body.reads) (concat (bounded max body).reads) cut small) w pos
          passed in
      let whole =
        take_all (max + 1) (concat body.reads)
          (subst (λ x. length x < max + 1) cut (omega arith)) in
      (cut ∙ whole, inr (subst (λ x. length x ≤ max) (cut ∙ whole) le))

-- Where a body passes the check of its size behind the bound, all of it was read, and the check is
-- right: where there is a limit, the body is no longer than it. The body is shorter than 2 ^ 63
-- bytes.
pub concat-bounded :
    (max : ℕ) (body : Stream) (u : Unit {0})
    → length (concat body.reads) ≤ max_int
    → max < word
    → check_size max (length (concat (bounded max body).reads)) ≡ ok u
    → (concat (bounded max body).reads ≡ concat body.reads)
      × ((is_positive max ≡ false) ⊎ (length (concat body.reads) ≤ max))
concat-bounded max body u small w passed = elim (Bool-cases (is_positive max)) [
  | inr top ↦ (ap (λ b. concat b.reads) (bounded_free max body top), inl top)
  | inl pos ↦ elim (Bool-cases (Int64.lt max max_int)) [
    | inr top ↦ whole_at_top max body u small w passed pos top
    | inl below ↦ whole_below max body u small w passed pos below
  ]
]
