-- ===== src/Os/Intact.antt =====
-- Code that takes nothing away: all that a tree holds stays as it is, new things may appear.
pub mod Calls
pub mod Replaced
use go_gather.Base.{
  ℕ, ◌≡◌, refl, ap, sym, subst, ◌∙◌, ◌⊎◌, inl, inr, true, false, Option, none, some, List, [], ◌∷◌,
  Bool-cases, take, ◌==◌, length, Bool,
}
use go_gather.Base.Text.{Text}
use go_gather.Path.{Loc, is_empty, locate, parent}
use go_gather.Exec.{Result, ok, err, Exec, ◌>>=◌}
use go_gather.Exec.Leads.{AfterValue, Leads, Leads-pure, Leads-raise, Leads-if, Leads-bind}
use go_gather.Os.Defs.{
  Bytes, Attr, Node, dir, file, Tree, World, Env, loc_eq, update, set, due, call_step, call,
  write_step, at_path, reach-cases, at_reached, appended, append_at, look, stat, opened, open_read,
  change_step, change_attr, write, close, make_dir_step, make_dir, make_dirs_step, make_dirs,
  mkdir_all, create_step, set_mode, chmod,
}
use go_gather.Os.Replace.{create_new_step, create_new}
use go_gather.Os.Places.{loc_eq→eq}
use go_gather.Os.Confined.{tree-due}

pub record Intact (t : Tree) (w : World) : Type 0 where
  pub kept : (l : Loc) (n : Node) → t l ≡ some n → w.tree l ≡ some n

-- All but what was at one place.
pub record IntactBut (t : Tree) (l : Loc) (w : World) : Type 0 where
  pub kept : (m : Loc) (n : Node) → loc_eq m l ≡ false → t m ≡ some n → w.tree m ≡ some n

module _ (t : Tree) where
  pub Intact-tree : (w w' : World) → w'.tree ≡ w.tree → Intact t w → Intact t w'
  Intact-tree w w' e i = record { kept = λ l n h. subst (λ x. x l ≡ some n) (sym e) (i.kept l n h) }

  -- A place that is free now was free before.
  pub free_before : (l : Loc) (w : World) → Intact t w → w.tree l ≡ none → t l ≡ none
  free_before l w i free = elim (cases (t l)) [
    | inl e ↦ e
    | inr (n, e) ↦ absurd (let x = i.kept l n e in cc (x, free))
  ]
    where
      cases : (o : Option Node) → (o ≡ none) ⊎ ((n : Node) × (o ≡ some n))
      cases none = inl refl
      cases (some n) = inr (n, refl)

  pub Intact-set :
      (l : Loc) (v : Option Node) (w : World) → t l ≡ none → Intact t w → Intact t (set l v w)
  unfolding update
  Intact-set l v w free i = record {
    kept = λ m n h. elim (Bool-cases (loc_eq m l)) [
      | inl e ↦ absurd (let same = loc_eq→eq m l e in cc (same, free, h))
      | inr ne ↦ rw ne (i.kept m n h)
    ];
  }

  abbrev pub Spares : {A : Type 0} → Exec World A → Type 0
  Spares = Leads (Intact t) (λ _. Intact t) (Intact t)

  module _ {A : Type 0} {Q : A → World → Type 0} where
    AfterValue-call_step :
        (m : Exec World A) (f : Option ℕ) (w : World)
        → Leads (Intact t) Q (Intact t) m
        → Intact t w
        → AfterValue Q (Intact t) (call_step m f w).0 (call_step m f w).1
    unfolding call_step
    AfterValue-call_step m none w k i = k.at w i
    AfterValue-call_step m (some _) w k i = i

    pub Leads-call :
        (m : Exec World A)
        → Leads (Intact t) Q (Intact t) m
        → Leads (Intact t) Q (Intact t) (call m)
    unfolding call
    Leads-call m k = record {
      at = λ w i.
          AfterValue-call_step m (due w).0 (due w).1 k (Intact-tree w (due w).1 (tree-due w) i);
    }

    pub Leads-at_path :
        (env : Env) (p : Text) (f : Loc → Exec World A)
        → Leads (Intact t) Q (Intact t) (f (locate env.cwd p))
        → Leads (Intact t) Q (Intact t) (at_path env p f)
    unfolding at_path at_reached
    Leads-at_path env p f k = record {
      at = λ w i. elim (reach-cases w.tree env.cwd p) [
        | inl (x, e) ↦ rw e i
        | inr e ↦ rw e (k.at w i)
      ];
    }

  pub AfterValue-same :
      {A : Type 0} (r : Result A) (w : World)
      → Intact t w
      → AfterValue (λ _. Intact t) (Intact t) r w
  AfterValue-same (ok a) w i = i
  AfterValue-same (err e) w i = i
