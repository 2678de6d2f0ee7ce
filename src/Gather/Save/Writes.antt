-- ===== src/Gather/Save/Writes.antt =====
-- Where `save` writes.
use go_gather.Base.{◌≡◌, true, false, length}
use go_gather.Base.Text.{Text}
use go_gather.Path.{Loc, locate}
use go_gather.Url.Parse.{Url, parse_url}
use go_gather.Exec.{wrap, Result, ok, err, Exec, map_err}
use go_gather.Exec.Keeps.{
  After, Keeps-pure, Keeps-bind, Keeps-bind-lift, Keeps-wrapping, Keeps-try, Keeps-lift,
  ok_of_map_err,
}
use go_gather.Os.{Tree, World, Env, under, close}
use go_gather.Os.Confined.{Confined, Stays, Stays-open_read, Stays-open_trunc, Stays-close}
use go_gather.Os.Confined.{Confined-both}
use go_gather.Dirs.Stays.{Stays-copy_open}
use go_gather.Gather.Save.{open_destination, returning_close, closed, open_error, save}

module _ (env : Env) (root : Loc) (t : Tree) where
  After-closed :
      {A : Type 0} (r : Result A) (c : Result (Unit {0})) (w : World)
      → Confined root t w
      → After (Confined root t) (Confined root t) (closed r c) w
  After-closed (ok _) (ok _) w h = h
  After-closed (ok _) (err _) w h = h
  After-closed (err _) _ w h = h

  Stays-returning_close :
      {A : Type 0} (m : Exec World A) → Stays root t m → Stays root t (returning_close m)
  unfolding returning_close
  Stays-returning_close m k = record {
    at = λ w c.
        let v = (m w).1 in
        let h = Confined-both root t (m w).0 v (k.at w c) in
        After-closed (m w).0 (close v).0 (close v).1
          (Confined-both root t (close v).0 (close v).1 ((Stays-close root t).at v h));
  }

  -- `save` writes at the path of the parsed destination.
  pub Stays-save :
      (src dst : Text)
      → ((u : Url) → parse_url dst ≡ ok u → under root (locate env.cwd u.path) ≡ true)
      → Stays root t (save env src dst false)
  unfolding save open_destination
  Stays-save src dst inside =
      Keeps-bind-lift (map_err (wrap "failed to parse source URI") (parse_url src)) _ (λ _ c. c)
        (λ src_url _.
          Keeps-bind-lift (map_err (wrap "failed to parse destination URI") (parse_url dst)) _
            (λ _ c. c)
            (λ dst_url parsed.
              let h = inside dst_url (ok_of_map_err _ (parse_url dst) dst_url parsed) in
              Keeps-bind _ _ (Keeps-try _ (Stays-open_read root t env src_url.path)) (λ opened.
                Keeps-bind _ _ (Keeps-lift (map_err open_error opened) (λ _ c. c)) (λ _.
                  Keeps-bind _ _
                    (Keeps-wrapping "failed to create file" _
                      (Stays-open_trunc root t env dst_url.path 0o666 h))
                    (λ _. Stays-returning_close _ (
                      Keeps-bind _ _
                        (Keeps-wrapping "failed to write to file" _
                          (Stays-copy_open env root t src_url.path dst_url.path h))
                        (λ content.
                          Keeps-pure (record { path = dst_url.path; size = length content }))))))))
