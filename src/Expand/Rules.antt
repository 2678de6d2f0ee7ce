-- ===== src/Expand/Rules.antt =====
-- What an invariant of an extraction has to stand: the calls that the expanders of archives make.
use go_gather.Base.{ℕ, ◌≡◌, true}
use go_gather.Base.Text.{Text}
use go_gather.Path.{locate, join_path, dir}
use go_gather.Helpers.{is_path_contained}
use go_gather.Exec.{Result, ok, err, Exec}
use go_gather.Exec.Keeps.{Keeps, After}
use go_gather.Os.{Env, stat, mkdir_all, open_trunc, close, chmod, chtimes}
use go_gather.Expand.Copy.{Stream, Extraction, on_disk, close_after, deferring_close, copy_bounded}

-- `P` holds while there is no error and `E` after one, as long as only `Allowed` paths are written
-- and only `Sound` streams are copied under the limit `max`.
pub record Rules (env : Env) (max : ℕ) (Allowed : Text → Type 0) (Sound : Stream → Type 0)
    (P E : Extraction → Type 0) : Type 0 where
  pub weaken : (e : Extraction) → P e → E e
  pub stat_keeps : (p : Text) → Keeps P P (on_disk (stat env p))
  pub mkdir_keeps : (p : Text) (mode : ℕ) → Allowed p → Keeps P E (on_disk (mkdir_all env p mode))
  pub open_keeps : (p : Text) (mode : ℕ) → Allowed p → Keeps P E (on_disk (open_trunc env p mode))
  pub copy_keeps :
      (p : Text) (r : Stream)
      → Allowed p
      → Sound r
      → Keeps P E (copy_bounded max (locate env.cwd p) r)
  pub close_keeps : Keeps P E (on_disk close)
  pub close_after_error : Keeps E E (on_disk close)
  pub chmod_keeps : (p : Text) (mode : ℕ) → Allowed p → Keeps P E (on_disk (chmod env p mode))
  pub chtimes_keeps :
      (p : Text) (accessed modified : ℕ)
      → Allowed p
      → Keeps P E (on_disk (chtimes env p accessed modified))

-- A path that passes the containment test may be written, and so may its directory.
abbrev pub Admits : (Text → Type 0) → Text → Type 0
Admits Allowed dst =
    (name : Text)
    → is_path_contained (join_path dst name) dst ≡ true
    → Allowed (join_path dst name) × Allowed (dir (join_path dst name))

module _ {env : Env} {max : ℕ} {Allowed : Text → Type 0} {Sound : Stream → Type 0}
    {P E : Extraction → Type 0} (rules : Rules env max Allowed Sound P E) where
  After_error : (r : Result (Unit {0})) (e : Extraction) → After E E r e → E e
  After_error (ok _) e h = h
  After_error (err _) e h = h

  After-close_after :
      (r : Result (Unit {0})) (e : Extraction)
      → After P E r e
      → After P E (close_after r e).0 (close_after r e).1
  unfolding close_after
  After-close_after (ok _) e h = rules.close_keeps.at e h
  After-close_after (err _) e h =
      After_error (on_disk close e).0 (on_disk close e).1 (rules.close_after_error.at e h)

  pub Keeps-deferring_close :
      (m : Exec Extraction (Unit {0})) → Keeps P E m → Keeps P E (deferring_close m)
  unfolding deferring_close
  Keeps-deferring_close m k = record {
    at = λ e h. let (r, e') = m e in After-close_after r e' (k.at e h);
  }
