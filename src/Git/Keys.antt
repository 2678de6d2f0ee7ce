-- ===== src/Git/Keys.antt =====
-- What `extractKeyFromQuery` takes out of a query and what it leaves.
use go_gather.Base.{
  ◌≡◌, refl, sym, ap, ◌∙◌, Bool, true, false, length, [], ◌∷◌, ◌++◌, ◌⊎◌, inl, inr, Bool-cases,
  if◌then◌else◌, arith,
}
use go_gather.Base.Text.{
  Text, codes, text_eq, text_eq→eq, has_prefix, contains, before, after, drop,
}
use go_gather.Url.Query.{Values, get_value, delete_key}
use go_gather.Git.Source.{extract_key}

get_value-delete_key :
    (key other : Text) (q : Values)
    → get_value other (delete_key key q) ≡ (if text_eq key other then [] else get_value other q)
unfolding get_value delete_key
get_value-delete_key key other [] = elim (Bool-cases (text_eq key other)) [
  | inl e ↦ rw e refl
  | inr e ↦ rw e refl
]
get_value-delete_key key other ((k, v) ∷ q) = elim (Bool-cases (text_eq k key)) [
  | inl same ↦
      let e : text_eq k other ≡ text_eq key other =
        ap (λ x. text_eq x other) (text_eq→eq k key same) in
      rw (same, e) (get_value-delete_key key other q ∙ skip (text_eq key other))
  | inr differ ↦
      rw differ (
        ap (λ x. if text_eq k other then v else x) (get_value-delete_key key other q) ∙ swap differ)
]
  where
    skip :
        (b : Bool)
        → (if b then [] else get_value other q)
          ≡ (if b then [] else if b then v else get_value other q)
    skip true = refl
    skip false = refl

    swap :
        text_eq k key ≡ false
        → (if text_eq k other then v else if text_eq key other then [] else get_value other q)
          ≡ (if text_eq key other then [] else if text_eq k other then v else get_value other q)
    swap differ = elim (Bool-cases (text_eq key other)) [
      | inr e ↦ rw e refl
      | inl e ↦ rw (e, ap (λ x. text_eq k x) (sym (text_eq→eq key other e)) ∙ differ) refl
    ]

drop-prefix : (t s : Text) → has_prefix s t ≡ true → t ++ drop (length t) s ≡ s
unfolding has_prefix drop
drop-prefix [] s h = refl
drop-prefix (d ∷ t) [] h = cc
drop-prefix (d ∷ t) (c ∷ s) h = ground (arith, drop-prefix t s)

-- A text that holds a separator is what stands before it, the separator, and what comes behind.
before-after : (sep s : Text) → contains s sep ≡ true → before sep s ++ (sep ++ after sep s) ≡ s
unfolding contains before after has_prefix
before-after [] [] h = refl
before-after (d ∷ sep) [] h = absurd (cc h)
before-after sep (c ∷ s) h = elim (Bool-cases (has_prefix (c ∷ s) sep)) [
  | inl here ↦ rw here (drop-prefix sep (c ∷ s) here)
  | inr later ↦ rw later (ap (λ x. c ∷ x) (before-after sep s (rw later at h)))
]

-- The key is gone from the query and every other key keeps its value. Where the value holds `//`, the
-- value that is returned, `//` and the subdirectory put together are the value of the key; where
-- it does not, the value is returned whole and the subdirectory stays as it was.
pub extract_key-taken :
    (q : Values) (key subdir other : Text)
    → let x = extract_key q key subdir in
      (get_value other x.rest ≡ (if text_eq key other then [] else get_value other q))
      × (((contains (get_value key q) (codes "//") ≡ true)
            × (x.value ++ (codes "//" ++ x.subdir) ≡ get_value key q))
          ⊎ ((contains (get_value key q) (codes "//") ≡ false)
              × (x.value ≡ get_value key q)
              × (x.subdir ≡ subdir)))
unfolding extract_key
extract_key-taken q key subdir other = elim (Bool-cases (contains (get_value key q) (codes "//"))) [
  | inl split ↦ rw split (
    get_value-delete_key key other q,
    inl (refl, before-after (codes "//") (get_value key q) split),
  )
  | inr whole ↦ rw whole (get_value-delete_key key other q, inr (refl, refl, refl))
]
