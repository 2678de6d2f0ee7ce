-- ===== src/Os/Intact/Replaced.antt =====
-- A file that is filled at a new place and then renamed: where it fails nothing is lost.
use go_gather.Base.{
  ◌≡◌, Bool, Bool-cases, inl, inr, true, false, Option, none, some, List, [], ◌∷◌, ◌++◌,
  if◌then◌else◌,
}
use go_gather.Base.Text.{Text}
use go_gather.Path.{slash, Loc, locate}
use go_gather.Exec.{Result, ok, err, Exec, is_ok}
use go_gather.Exec.Leads.{AfterValue, Leads}
use go_gather.Os.Defs.{Node, dir, file, Tree, World, Env, update, set, at_path, call, close}
use go_gather.Os.Replace.{
  is_exist, next_name, create_new, create_temp, remove_step, remove, place_step, rename_step,
  rename, closed_if, or_abandon,
}
use go_gather.Os.Intact.{Intact, IntactBut, Intact-set, Spares, Leads-call, Leads-at_path}
use go_gather.Os.Intact.Calls.{IntactFree, Leads-create_new, Spares-close}

module _ (t : Tree) (env : Env) where
  AfterValue-next_name :
      (p : Text) (again : Exec World Text) (r : Result (Unit {0})) (w : World)
      → Leads (Intact t) (λ q. IntactFree t (locate env.cwd q)) (Intact t) again
      → AfterValue (λ _. IntactFree t (locate env.cwd p)) (Intact t) r w
      → AfterValue
          (λ q. IntactFree t (locate env.cwd q))
          (Intact t)
          (next_name env p again r w).0
          (next_name env p again r w).1
  AfterValue-next_name p again (ok _) w k h = h
  AfterValue-next_name p again (err e) w k h = elim (Bool-cases (is_exist e)) [
    | inl taken ↦ rw taken (k.at w h)
    | inr other ↦ rw other h
  ]

  -- The temporary file is where nothing was.
  pub Leads-create_temp :
      (d : Text) (names : List Text)
      → Leads (Intact t) (λ p. IntactFree t (locate env.cwd p)) (Intact t) (create_temp env d names)
  unfolding create_temp
  Leads-create_temp d [] = record { at = λ w i. i }
  Leads-create_temp d (name ∷ names) =
      let p = d ++ (slash ∷ name) in
      let first = create_new env p 0o600 in
      record {
        at = λ w i.
            AfterValue-next_name p (create_temp env d names) (first w).0 (first w).1
              (Leads-create_temp d names) ((Leads-create_new t env p 0o600).at w i);
      }

  AfterValue-remove_step :
      (l : Loc) (o : Option Node) (w : World)
      → t l ≡ none
      → Intact t w
      → AfterValue (λ _. Intact t) (Intact t) (remove_step env l o w).0 (remove_step env l o w).1
  unfolding remove_step
  AfterValue-remove_step l none w free i = i
  AfterValue-remove_step l (some (dir _)) w free i = i
  AfterValue-remove_step l (some (file _ _)) w free i = Intact-set t l none w free i

  pub Spares-remove : (p : Text) → t (locate env.cwd p) ≡ none → Spares t (remove env p)
  unfolding remove
  Spares-remove p free =
      let l = locate env.cwd p in
      Leads-at_path t env p (λ m. call (λ w. remove_step env m (w.tree m) w))
        (Leads-call t (λ w. remove_step env l (w.tree l) w)
          (record { at = λ w i. AfterValue-remove_step l (w.tree l) w free i }))

  IntactBut-placed :
      (old new : Loc) (n : Node) (w : World)
      → t old ≡ none
      → Intact t w
      → IntactBut t new (set new (some n) (set old none w))
  IntactBut-placed old new n w free i = record {
    kept = λ m k ne h. unfold update in rw ne ((Intact-set t old none w free i).kept m k h);
  }

  AfterValue-place_step :
      (old new : Loc) (n : Node) (o parent : Option Node) (w : World)
      → t old ≡ none
      → Intact t w
      → AfterValue
          (λ _. IntactBut t new)
          (Intact t)
          (place_step env old new n o parent w).0
          (place_step env old new n o parent w).1
  unfolding place_step
  AfterValue-place_step old new n (some (dir _)) parent w free i = i
  AfterValue-place_step old new n (some (file _ _)) none w free i = i
  AfterValue-place_step old new n (some (file _ _)) (some (file _ _)) w free i = i
  AfterValue-place_step old new n (some (file _ _)) (some (dir _)) w free i =
      IntactBut-placed old new n w free i
  AfterValue-place_step old new n none none w free i = i
  AfterValue-place_step old new n none (some (file _ _)) w free i = i
  AfterValue-place_step old new n none (some (dir _)) w free i = IntactBut-placed old new n w free i

  AfterValue-rename_step :
      (old new : Loc) (o : Option Node) (w : World)
      → t old ≡ none
      → Intact t w
      → AfterValue
          (λ _. IntactBut t new)
          (Intact t)
          (rename_step env old new o w).0
          (rename_step env old new o w).1
  unfolding rename_step
  AfterValue-rename_step old new none w free i = i
  AfterValue-rename_step old new (some n) w free i = AfterValue-place_step old new n _ _ w free i

  -- The rename takes nothing but what was at its destination.
  pub Leads-rename :
      (old new : Text)
      → t (locate env.cwd old) ≡ none
      → Leads (Intact t) (λ _. IntactBut t (locate env.cwd new)) (Intact t) (rename env old new)
  unfolding rename
  Leads-rename old new free =
      let l = locate env.cwd old in
      let m = locate env.cwd new in
      Leads-at_path t env old
        (λ x. at_path env new (λ y. call (λ w. rename_step env x y (w.tree x) w)))
        (Leads-at_path t env new (λ y. call (λ w. rename_step env l y (w.tree l) w))
          (Leads-call t (λ w. rename_step env l m (w.tree l) w)
            (record { at = λ w i. AfterValue-rename_step l m (w.tree l) w free i })))

  Intact-both :
      {A : Type 0} (r : Result A) (w : World)
      → AfterValue (λ _. Intact t) (Intact t) r w
      → Intact t w
  Intact-both (ok _) w h = h
  Intact-both (err _) w h = h

  Intact-closed_if : (b : Bool) (w : World) → Intact t w → Intact t (closed_if env b w)
  Intact-closed_if true w i = Intact-both (close w).0 (close w).1 ((Spares-close t).at w i)
  Intact-closed_if false w i = i

  Intact-abandoned :
      (p : Text) (b : Bool) (w : World)
      → t (locate env.cwd p) ≡ none
      → Intact t w
      → Intact t (remove env p (closed_if env b w)).1
  Intact-abandoned p b w free i =
      let v = closed_if env b w in
      Intact-both (remove env p v).0 (remove env p v).1
        ((Spares-remove p free).at v (Intact-closed_if b w i))

  AfterValue-abandoned :
      {A : Type 0} (Q : A → World → Type 0) (p : Text) (b : Bool) (r : Result A) (w : World)
      → t (locate env.cwd p) ≡ none
      → AfterValue Q (Intact t) r w
      → AfterValue Q (Intact t) r (if is_ok r then w else (remove env p (closed_if env b w)).1)
  AfterValue-abandoned Q p b (ok a) w free h = h
  AfterValue-abandoned Q p b (err x) w free h = Intact-abandoned p b w free h

  pub Leads-or_abandon :
      {A : Type 0} {Q : A → World → Type 0} (p : Text) (b : Bool) (m : Exec World A)
      → t (locate env.cwd p) ≡ none
      → Leads (Intact t) Q (Intact t) m
      → Leads (Intact t) Q (Intact t) (or_abandon env p b m)
  unfolding or_abandon
  Leads-or_abandon {Q = Q} p b m free k = record {
    at = λ w i. AfterValue-abandoned Q p b (m w).0 (m w).1 free (k.at w i);
  }
