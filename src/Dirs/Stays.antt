-- ===== src/Dirs/Stays.antt =====
-- Copies into an open file stay where the file is.
use go_gather.Base.{◌≡◌, Bool, true, false, List, [], ◌∷◌, ◌==◌, length}
use go_gather.Base.Text.{Text}
use go_gather.Path.{Loc, locate}
use go_gather.Exec.{Result, ok, err, Exec}
use go_gather.Exec.Keeps.{
  After, Keeps-pure, Keeps-raise, Keeps-if, Keeps-bind, Keeps-wrapping, After-both,
}
use go_gather.Os.{World, Tree, Bytes, Env, node_attr, under, close}
use go_gather.Os.Confined.{
  Confined, Confined-both, Stays, Stays-write, Stays-close, Stays-stat, Stays-open_read,
  Stays-open_trunc, Stays-chmod,
}
use go_gather.Expand.Io.{copy}
use go_gather.Gather.Copying.{finally_close, copy_file, copy_open, read_now, readable}

module _ (root : Loc) (t : Tree) where
  Confined-close : (w : World) → Confined root t w → Confined root t (close w).1
  Confined-close w c = Confined-both root t (close w).0 (close w).1 ((Stays-close root t).at w c)

  After-close :
      {A : Type 0} (x : Result A) (w : World)
      → After (Confined root t) (Confined root t) x w
      → After (Confined root t) (Confined root t) x (close w).1
  After-close (ok _) w c = Confined-close w c
  After-close (err _) w c = Confined-close w c

  pub Stays-finally_close :
      {A : Type 0} (m : Exec World A) → Stays root t m → Stays root t (finally_close m)
  unfolding finally_close
  Stays-finally_close m k = record { at = λ w c. After-close (m w).0 (m w).1 (k.at w c) }

  pub Stays-copy :
      (l : Loc) (reads : List Bytes) (broken : Bool)
      → under root l ≡ true
      → Stays root t (copy l reads broken)
  unfolding copy
  Stays-copy l [] true h = Keeps-raise (λ _ c. c) _
  Stays-copy l [] false h = Keeps-pure tt
  Stays-copy l (c ∷ cs) broken h =
      Keeps-bind _ _
        (Keeps-if (length c == 0) _ _ (λ _. Keeps-pure tt) (λ _. Stays-write root t l c h))
        (λ _. Stays-copy l cs broken h)

module _ (env : Env) (root : Loc) (t : Tree) where
  pub Stays-copy_open :
      (src dst : Text)
      → under root (locate env.cwd dst) ≡ true
      → Stays root t (copy_open env src dst)
  unfolding copy_open read_now
  Stays-copy_open src dst h =
      Keeps-bind (read_now (locate env.cwd src)) _ (reads (locate env.cwd src)) (λ content.
        Keeps-bind _ _ (Stays-copy root t (locate env.cwd dst) (content ∷ []) false h)
          (λ _. Keeps-pure content))
    where
      reads : (l : Loc) → Stays root t (read_now l)
      reads l = record {
        at = λ w c.
            After-both (Confined root t) (Confined root t) (readable (w.tree l)) w (λ c. c) c;
      }

  pub Stays-copy_file :
      (src dst : Text)
      → under root (locate env.cwd dst) ≡ true
      → Stays root t (copy_file env src dst)
  unfolding copy_file
  Stays-copy_file src dst h =
      Keeps-bind _ _ (Keeps-wrapping _ _ (Stays-open_read root t env src)) (λ _.
        Keeps-bind _ _ (Keeps-wrapping _ _ (Stays-open_trunc root t env dst 0o666 h)) (λ _.
          Stays-finally_close root t _ (
            Keeps-bind _ _ (Keeps-wrapping _ _ (Stays-copy_open src dst h)) (λ _.
              Keeps-bind _ _ (Keeps-wrapping _ _ (Stays-stat root t env src)) (λ info.
                Keeps-wrapping _ _ (Stays-chmod root t env dst (node_attr info).mode h))))))
