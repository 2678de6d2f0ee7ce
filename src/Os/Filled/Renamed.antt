-- ===== src/Os/Filled/Renamed.antt =====
-- A filled file keeps its content when its mode changes and when it is renamed.
use go_gather.Base.{ℕ, ◌≡◌, refl, Bool, Option, none, some, if◌then◌else◌}
use go_gather.Base.Text.{Text}
use go_gather.Path.{Loc, locate}
use go_gather.Exec.{Result, ok, err, Exec, is_ok}
use go_gather.Exec.Leads.{AfterValue}
use go_gather.Os.Defs.{
  Bytes, Attr, Node, dir, file, World, Env, update, set, call, at_path, change_step, change_attr,
  set_mode, chmod,
}
use go_gather.Os.Replace.{place_step, rename_step, rename, remove, closed_if, or_abandon}
use go_gather.Os.Places.{loc_eq_refl}
use go_gather.Os.Filled.{
  Filled, Filled-stable, Filled-set, Anything, Fills, Fills-call, Fills-at_path,
}

AfterValue-change_step :
    (f : Attr → Attr) (l : Loc) (c : Bytes) (o : Option Node) (w : World)
    → o ≡ w.tree l
    → Filled l c w
    → AfterValue (λ _. Filled l c) Anything (change_step f l o w).0 (change_step f l o w).1
unfolding change_step update
AfterValue-change_step f l c none w e h = tt
AfterValue-change_step f l c (some n) w e (a, h) =
    let same : n ≡ file a c = cc (e, h) in (f a, rw (loc_eq_refl l, same) refl)

pub Fills-chmod :
    (env : Env) (p : Text) (mode : ℕ) (c : Bytes)
    → Fills (Filled (locate env.cwd p) c) (λ _. Filled (locate env.cwd p) c) (chmod env p mode)
unfolding chmod
Fills-chmod env p mode c =
    let l = locate env.cwd p in
    Fills-at_path (Filled l c) env p (λ m. call (change_attr (set_mode mode) m))
      (Fills-call (Filled l c) (change_attr (set_mode mode) l) (Filled-stable l c)
        (record { at = λ w h. AfterValue-change_step (set_mode mode) l c (w.tree l) w refl h }))

AfterValue-place_step :
    (env : Env) (old new : Loc) (a : Attr) (c : Bytes) (o above : Option Node) (w : World)
    → AfterValue
        (λ _. Filled new c)
        Anything
        (place_step env old new (file a c) o above w).0
        (place_step env old new (file a c) o above w).1
unfolding place_step
AfterValue-place_step env old new a c (some (dir _)) above w = tt
AfterValue-place_step env old new a c (some (file _ _)) none w = tt
AfterValue-place_step env old new a c (some (file _ _)) (some (file _ _)) w = tt
AfterValue-place_step env old new a c (some (file _ _)) (some (dir _)) w =
    Filled-set new a c (set old none w)
AfterValue-place_step env old new a c none none w = tt
AfterValue-place_step env old new a c none (some (file _ _)) w = tt
AfterValue-place_step env old new a c none (some (dir _)) w = Filled-set new a c (set old none w)

AfterValue-rename_step :
    (env : Env) (old new : Loc) (c : Bytes) (w : World)
    → Filled old c w
    → AfterValue
        (λ _. Filled new c)
        Anything
        (rename_step env old new (w.tree old) w).0
        (rename_step env old new (w.tree old) w).1
unfolding rename_step
AfterValue-rename_step env old new c w (a, h) = rw h (AfterValue-place_step env old new a c _ _ w)

pub Fills-rename :
    (env : Env) (old new : Text) (c : Bytes)
    → Fills
        (Filled (locate env.cwd old) c)
        (λ _. Filled (locate env.cwd new) c)
        (rename env old new)
unfolding rename
Fills-rename env old new c =
    let l = locate env.cwd old in
    let m = locate env.cwd new in
    Fills-at_path (Filled l c) env old
      (λ x. at_path env new (λ y. call (λ w. rename_step env x y (w.tree x) w)))
      (Fills-at_path (Filled l c) env new (λ y. call (λ w. rename_step env l y (w.tree l) w))
        (Fills-call (Filled l c) (λ w. rename_step env l m (w.tree l) w) (Filled-stable l c)
          (record { at = λ w h. AfterValue-rename_step env l m c w h })))

AfterValue-abandoned :
    {A : Type 0} (Q : A → World → Type 0) (r : Result A) (w v : World)
    → AfterValue Q Anything r w
    → AfterValue Q Anything r (if is_ok r then w else v)
AfterValue-abandoned Q (ok a) w v h = h
AfterValue-abandoned Q (err x) w v h = tt

pub Fills-or_abandon :
    {A : Type 0} {P : World → Type 0} {Q : A → World → Type 0} (env : Env) (p : Text) (b : Bool)
    (m : Exec World A)
    → Fills P Q m
    → Fills P Q (or_abandon env p b m)
unfolding or_abandon
Fills-or_abandon {Q = Q} env p b m k = record {
  at = λ w h.
      AfterValue-abandoned Q (m w).0 (m w).1 (remove env p (closed_if env b (m w).1)).1 (k.at w h);
}
