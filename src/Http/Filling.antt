-- ===== src/Http/Filling.antt =====
-- The temporary file of a download holds what was read.
use go_gather.Base.{
  ℕ, ◌≡◌, refl, ap, sym, subst, ◌∙◌, inl, inr, Bool, true, false, Option, none, some, List, [], ◌∷◌,
  ◌++◌, length, ◌==◌, if◌then◌else◌, arith,
}
use go_gather.Base.Text.{Text}
use go_gather.Path.{Loc, locate}
use go_gather.Exec.{Result, ok, err, pure, try}
use go_gather.Exec.Leads.{Leads-pure, Leads-raise, Leads-wrapping, Leads-bind}
use go_gather.Os.{
  reach-cases, at_reached, Bytes, write, Node, World, Env, call_step, call, due, at_path, look,
  stat, close,
}
use go_gather.Os.Replace.{create_temp, remove, or_abandon}
use go_gather.Os.Confined.{tree-due}
use go_gather.Os.Filled.{
  Filled, Filled-stable, Anything, Fills, Fills-any, Fills-create_new, Fills-write,
}
use go_gather.Os.Filled.Renamed.{Fills-chmod}
use go_gather.Expand.Io.{copy}
use go_gather.Expand.Copy.{concat}
use go_gather.Http.{create_download_temp, keep_mode}

tree-look_step :
    (l : Loc) (f : Option ℕ) (w : World) → (call_step (λ v. (look l v, v)) f w).1.tree ≡ w.tree
unfolding call_step
tree-look_step l none w = refl
tree-look_step l (some _) w = refl

tree-stat : (env : Env) (p : Text) (w : World) → (stat env p w).1.tree ≡ w.tree
unfolding stat at_path at_reached call
tree-stat env p w = elim (reach-cases w.tree env.cwd p) [
  | inl (x, e) ↦ rw e refl
  | inr e ↦ rw e (tree-look_step (locate env.cwd p) (due w).0 (due w).1 ∙ tree-due w)
]

pub Fills-try-stat :
    (env : Env) (p : Text) (l : Loc) (c : Bytes)
    → Fills (Filled l c) (λ _. Filled l c) (try (stat env p))
unfolding try
Fills-try-stat env p l c = record {
  at = λ w h. Filled-stable l c w (stat env p w).1 (tree-stat env p w) h;
}

append_assoc : (a b c : Bytes) → (a ++ b) ++ c ≡ a ++ (b ++ c)
append_assoc [] b c = refl
append_assoc (x ∷ a) b c = ap (λ y. x ∷ y) (append_assoc a b c)

append_nil : (a : Bytes) → a ++ [] ≡ a
append_nil [] = refl
append_nil (x ∷ a) = ap (λ y. x ∷ y) (append_nil a)

nothing_of_length : (b : Bytes) → (length b == 0) ≡ true → b ≡ []
nothing_of_length [] h = refl
nothing_of_length (x ∷ b) h = absurd (ground arith)

-- Every read stands behind what the file held.
pub Fills-copy :
    (l : Loc) (c : Bytes) (reads : List Bytes) (broken : Bool)
    → Fills (Filled l c) (λ _. Filled l (c ++ concat reads)) (copy l reads broken)
unfolding copy concat
Fills-copy l c [] true = Leads-raise _ (λ _ _. tt)
Fills-copy l c [] false = Leads-pure tt (λ w h. subst (λ x. Filled l x w) (sym (append_nil c)) h)
Fills-copy l c (b ∷ reads) broken =
    subst (λ x. Fills (Filled l c) (λ _. Filled l x) (copy l (b ∷ reads) broken))
      (append_assoc c b (concat reads))
      (Leads-bind _ (λ _. copy l reads broken) (read_once (length b == 0) refl)
        (λ _. Fills-copy l (c ++ b) reads broken))
  where
    read_once :
        (nothing : Bool)
        → (length b == 0) ≡ nothing
        → Fills (Filled l c) (λ _. Filled l (c ++ b)) (if nothing then pure tt else write l b)
    read_once true e = Leads-pure tt (λ w h.
        subst (λ x. Filled l x w) (sym (ap (λ y. c ++ y) (nothing_of_length b e) ∙ append_nil c)) h)
    read_once false e = Fills-write l c b

module _ (env : Env) (names : List Text) where
  pub Fills-create_download_temp :
      (d : Text)
      → Fills Anything (λ p. Filled (locate env.cwd p) []) (create_download_temp env names d)
  unfolding create_download_temp
  Fills-create_download_temp d = Leads-bind _ _ (Fills-any (create_temp env d names)) (λ name.
      Leads-bind _ _ (Fills-any (or_abandon env name false close)) (λ _.
        Leads-bind _ _ (Fills-any (remove env name)) (λ _.
          Leads-bind _ _ (Fills-create_new env name 0o666) (λ _. Leads-pure name (λ _ h. h)))))

  pub Fills-keep_mode :
      (tmp : Text) (seen : Result Node) (c : Bytes)
      → Fills
          (Filled (locate env.cwd tmp) c)
          (λ _. Filled (locate env.cwd tmp) c)
          (keep_mode env names tmp seen)
  Fills-keep_mode tmp (ok n) c = Leads-wrapping _ _ (Fills-chmod env tmp _ c)
  Fills-keep_mode tmp (err _) c = Leads-pure tt (λ _ h. h)
