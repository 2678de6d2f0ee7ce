-- ===== src/Os/Filled.antt =====
-- Code that fills one file: what the file holds where every call has returned.
pub mod Renamed
use go_gather.Base.{
  ℕ, ◌≡◌, refl, ap, sym, subst, ◌∙◌, Bool, true, false, Bool-cases, inl, inr, Option, none, some,
  List, [], ◌∷◌, ◌++◌, if◌then◌else◌,
}
use go_gather.Base.Text.{Text}
use go_gather.Path.{Loc, is_empty, locate, parent}
use go_gather.Exec.{Result, ok, err, Exec, is_ok}
use go_gather.Exec.Leads.{AfterValue, Leads}
use go_gather.Os.Defs.{
  Bytes, Attr, Node, dir, file, Tree, World, Env, loc_eq, update, set, due, call_step, call,
  write_step, at_path, reach-cases, at_reached, appended, append_at, look, stat, change_step,
  change_attr, write, close, create_step, set_mode, chmod,
}
use go_gather.Os.Replace.{
  create_new_step, create_new, place_step, rename_step, rename, remove, closed_if, or_abandon,
}
use go_gather.Os.Places.{loc_eq_refl}
use go_gather.Os.Confined.{tree-due}

abbrev pub Filled : Loc → Bytes → World → Type 0
Filled l c w = (a : Attr) × (w.tree l ≡ some (file a c))

abbrev pub Anything : World → Type 0
Anything w = Unit {0}

-- No claim on what an error leaves.
abbrev pub Fills : {A : Type 0} → (World → Type 0) → (A → World → Type 0) → Exec World A → Type 0
Fills P Q = Leads P Q Anything

AfterValue-Anything :
    {A : Type 0} (r : Result A) (w : World) → AfterValue (λ _. Anything) Anything r w
AfterValue-Anything (ok _) w = tt
AfterValue-Anything (err _) w = tt

pub Fills-any : {A : Type 0} {P : World → Type 0} (m : Exec World A) → Fills P (λ _. Anything) m
Fills-any m = record { at = λ w _. AfterValue-Anything (m w).0 (m w).1 }

module _ {A : Type 0} {Q : A → World → Type 0} where
  AfterValue-call_step :
      (P : World → Type 0) (m : Exec World A) (f : Option ℕ) (w : World)
      → Fills P Q m
      → P w
      → AfterValue Q Anything (call_step m f w).0 (call_step m f w).1
  unfolding call_step
  AfterValue-call_step P m none w k h = k.at w h
  AfterValue-call_step P m (some _) w k h = tt

  pub Fills-call :
      (P : World → Type 0) (m : Exec World A)
      → ((w w' : World) → w'.tree ≡ w.tree → P w → P w')
      → Fills P Q m
      → Fills P Q (call m)
  unfolding call
  Fills-call P m stable k = record {
    at = λ w h. AfterValue-call_step P m (due w).0 (due w).1 k (stable w (due w).1 (tree-due w) h);
  }

  pub Fills-at_path :
      (P : World → Type 0) (env : Env) (p : Text) (f : Loc → Exec World A)
      → Fills P Q (f (locate env.cwd p))
      → Fills P Q (at_path env p f)
  unfolding at_path at_reached
  Fills-at_path P env p f k = record {
    at = λ w h. elim (reach-cases w.tree env.cwd p) [
      | inl (x, e) ↦ rw e tt
      | inr e ↦ rw e (k.at w h)
    ];
  }

pub Filled-stable :
    (l : Loc) (c : Bytes) (w w' : World) → w'.tree ≡ w.tree → Filled l c w → Filled l c w'
Filled-stable l c w w' e (a, h) = (a, subst (λ t. t l ≡ some (file a c)) (sym e) h)

pub Filled-set :
    (l : Loc) (a : Attr) (c : Bytes) (w : World) → Filled l c (set l (some (file a c)) w)
unfolding update
Filled-set l a c w = (a, rw (loc_eq_refl l) refl)

AfterValue-create_step :
    (env : Env) (mode : ℕ) (l : Loc) (o : Option Node) (w : World)
    → AfterValue
        (λ _. Filled l [])
        Anything
        (create_step env mode l o w).0
        (create_step env mode l o w).1
unfolding create_step
AfterValue-create_step env mode l (some (dir _)) w = Filled-set l _ [] w
AfterValue-create_step env mode l (some (file _ _)) w = tt
AfterValue-create_step env mode l none w = tt

AfterValue-create_new_step :
    (env : Env) (mode : ℕ) (l : Loc) (o : Option Node) (w : World)
    → AfterValue
        (λ _. Filled l [])
        Anything
        (create_new_step env mode l o w).0
        (create_new_step env mode l o w).1
unfolding create_new_step
AfterValue-create_new_step env mode l none w =
    AfterValue-create_step env mode l (w.tree (parent l)) w
AfterValue-create_new_step env mode l (some _) w = tt

pub Fills-create_new :
    (env : Env) (p : Text) (mode : ℕ)
    → Fills Anything (λ _. Filled (locate env.cwd p) []) (create_new env p mode)
unfolding create_new
Fills-create_new env p mode =
    let l = locate env.cwd p in
    Fills-at_path Anything env p (λ m. call (λ w. create_new_step env mode m (w.tree m) w))
      (Fills-call Anything (λ w. create_new_step env mode l (w.tree l) w) (λ _ _ _ _. tt)
        (record { at = λ w _. AfterValue-create_new_step env mode l (w.tree l) w }))

Filled-append_at :
    (l : Loc) (c b : Bytes) (w : World) → Filled l c w → Filled l (c ++ b) (append_at l b w)
unfolding append_at update
Filled-append_at l c b w (a, h) = (a, rw (loc_eq_refl l, h) refl)

AfterValue-write_step :
    (l : Loc) (c b : Bytes) (f : Option ℕ) (w : World)
    → Filled l c w
    → AfterValue (λ _. Filled l (c ++ b)) Anything (write_step l b f w).0 (write_step l b f w).1
unfolding write_step
AfterValue-write_step l c b none w h = Filled-append_at l c b w h
AfterValue-write_step l c b (some k) w h = tt

pub Fills-write : (l : Loc) (c b : Bytes) → Fills (Filled l c) (λ _. Filled l (c ++ b)) (write l b)
unfolding write
Fills-write l c b = record {
  at = λ w h.
      AfterValue-write_step l c b (due w).0 (due w).1
        (Filled-stable l c w (due w).1 (tree-due w) h);
}

AfterValue-same :
    {A : Type 0} (l : Loc) (c : Bytes) (r : Result A) (w : World)
    → Filled l c w
    → AfterValue (λ _. Filled l c) (Filled l c) r w
AfterValue-same l c (ok _) w h = h
AfterValue-same l c (err _) w h = h

pub Fills-close : (l : Loc) (c : Bytes) → Fills (Filled l c) (λ _. Filled l c) close
unfolding close
Fills-close l c = Fills-call (Filled l c) _ (Filled-stable l c) (record { at = λ w h. h })
