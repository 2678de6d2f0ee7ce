-- ===== src/Path/Split.antt =====
-- Splitting and joining on a separator.
use mathlib.Core.List.{append_assoc}
use go_gather.Base.{ℕ, ◌≡◌, ◌≢◌, refl, ◌∙◌, false, List, [], ◌∷◌, ◌++◌, arith, ◌==◌, All}
use go_gather.Base.Text.{Text, split, join}

module _ (sep : ℕ) where
  abbrev pub Lacks : Text → Type 0
  Lacks = All (λ c. (c == sep) ≡ false)

  pub split-ne-nil : (s : Text) → split sep s ≢ []
  unfolding split
  split-ne-nil [] = cc
  split-ne-nil (c ∷ s) = ground (arith, split-ne-nil s)

  pub split-append : (s t : Text) → split sep (s ++ (sep ∷ t)) ≡ split sep s ++ split sep t
  unfolding split
  split-append [] t = ground (arith, split-ne-nil t)
  split-append (c ∷ s) t = ground (arith, split-append s t, split-ne-nil s, split-ne-nil t)

  pub split_at_sep : (t : Text) → split sep (sep ∷ t) ≡ [] ∷ split sep t
  split_at_sep t = split-append [] t ∙ unfold split in refl

  -- The parts of a split hold no separator.
  pub Lacks-split : (s : Text) → All Lacks (split sep s)
  unfolding split
  Lacks-split [] = (tt, tt)
  Lacks-split (c ∷ s) = ground (arith, Lacks-split s)

  pub split_of_Lacks : (p : Text) → Lacks p → split sep p ≡ p ∷ []
  unfolding split
  split_of_Lacks [] h = refl
  split_of_Lacks (c ∷ p) (h, hs) = ground (arith, split_of_Lacks p hs)

  pub split-join :
      (p : Text) (ps : List Text) → All Lacks (p ∷ ps) → split sep (join sep (p ∷ ps)) ≡ p ∷ ps
  unfolding join
  split-join p [] (h, _) = split_of_Lacks p h
  split-join p (q ∷ ps) (h, hs) =
      rw (split-append p (join sep (q ∷ ps)), split_of_Lacks p h, split-join q ps hs)

  pub join-append :
      (p : Text) (ps : List Text) (q : Text) (qs : List Text)
      → join sep ((p ∷ ps) ++ (q ∷ qs)) ≡ join sep (p ∷ ps) ++ (sep ∷ join sep (q ∷ qs))
  unfolding join
  join-append p [] q qs = refl
  join-append p (r ∷ ps) q qs = rw (join-append r ps q qs) (simp append_assoc)
