-- ===== src/Http/Kept.antt =====
-- A download that fails loses nothing.
use go_gather.Base.{ℕ, ◌≡◌, none, List, [], ◌∷◌, Bool, true, false, length, ◌==◌}
use go_gather.Base.Text.{Text}
use go_gather.Path.{Loc, locate, dir, base}
use go_gather.Helpers.{expand_path}
use go_gather.Url.Parse.{parse_url}
use go_gather.Exec.{Result, ok, err, wrap, map_err}
use go_gather.Exec.Leads.{
  AfterValue, Leads, Leads-pure, Leads-raise, Leads-if, Leads-wrapping, Leads-lift, Leads-try,
  Leads-bind, Leads-fact,
}
use go_gather.Os.{Bytes, Node, Tree, World, Env, close}
use go_gather.Os.Intact.{Intact, IntactBut, Spares}
use go_gather.Os.Intact.Calls.{
  IntactFree, Spares-stat, Spares-close, Spares-write, Spares-mkdir_all, Spares-chmod,
  Leads-create_new,
}
use go_gather.Os.Intact.Replaced.{Leads-create_temp, Spares-remove, Leads-rename, Leads-or_abandon}
use go_gather.Expand.Io.{copy}
use go_gather.Expand.Copy.{concat}
use go_gather.Expand.Cleanup.{expanded}
use go_gather.Http.{
  Response, Fetch, bounded, destination, check_url, check_status, check_length, check_size,
  create_download_temp, keep_mode, store, download, gather,
}

module _ (t : Tree) (env : Env) (names : List Text) where
  Spares-copy :
      (l : Loc) (reads : List Bytes) (broken : Bool) → t l ≡ none → Spares t (copy l reads broken)
  unfolding copy
  Spares-copy l [] true free = Leads-raise _ (λ _ i. i)
  Spares-copy l [] false free = Leads-pure tt (λ _ i. i)
  Spares-copy l (c ∷ cs) broken free =
      Leads-bind _ _
        (Leads-if (length c == 0) _ _ (Leads-pure tt (λ _ i. i)) (Spares-write t l c free))
        (λ _. Spares-copy l cs broken free)

  Leads-create_download_temp :
      (d : Text)
      → Leads
          (Intact t)
          (λ p. IntactFree t (locate env.cwd p))
          (Intact t)
          (create_download_temp env names d)
  unfolding create_download_temp
  Leads-create_download_temp d = Leads-bind _ _ (Leads-create_temp t env d names) (λ name.
      Leads-fact (t (locate env.cwd name) ≡ none) _ (λ free.
        Leads-bind _ _ (Leads-or_abandon t env name false close free (Spares-close t)) (λ _.
          Leads-bind _ _ (Spares-remove t env name free) (λ _.
            Leads-bind _ _ (Leads-create_new t env name 0o666) (λ _. Leads-pure name (λ _ h. h))))))

  Spares-keep_mode :
      (tmp : Text) (seen : Result Node)
      → t (locate env.cwd tmp) ≡ none
      → Spares t (keep_mode env names tmp seen)
  Spares-keep_mode tmp (ok n) free = Leads-wrapping _ _ (Spares-chmod t env tmp _ free)
  Spares-keep_mode tmp (err _) free = Leads-pure tt (λ _ i. i)

  Leads-store :
      (max : ℕ) (tmp dst : Text) (r : Response)
      → t (locate env.cwd tmp) ≡ none
      → Leads
          (Intact t)
          (λ _. IntactBut t (locate env.cwd dst))
          (Intact t)
          (store env names max tmp dst r)
  unfolding store
  Leads-store max tmp dst r free =
      Leads-bind _ _
        (Leads-or_abandon t env tmp true _ free (
          Leads-bind _ _ (Leads-lift (check_length max r) (λ _ i. i)) (λ _.
            Leads-bind _ _
              (Leads-wrapping "failed to write to destination file" _ (
                Spares-copy (locate env.cwd tmp) (bounded max r.body).reads
                  (bounded max r.body).broken free))
              (λ _.
                Leads-bind _ _
                  (Leads-lift (check_size max (length (concat (bounded max r.body).reads)))
                    (λ _ i. i))
                  (λ _.
                    Leads-bind _ _ (Leads-try _ (Spares-stat t env dst))
                      (λ seen. Spares-keep_mode tmp seen free))))))
        (λ _. Leads-or_abandon t env tmp false _ free (
          Leads-bind _ _ (Leads-wrapping "failed to close temporary file" _ (Spares-close t)) (λ _.
            Leads-wrapping "failed to move downloaded file into place" _
              (Leads-rename t env tmp dst free))))

  Leads-download :
      (max : ℕ) (dst : Text) (r : Response)
      → Leads
          (Intact t)
          (λ _. IntactBut t (locate env.cwd dst))
          (Intact t)
          (download env names max dst r)
  unfolding download
  Leads-download max dst r = Leads-bind _ _ (Leads-lift (check_status r) (λ _ i. i)) (λ _.
      Leads-bind _ _ (Leads-wrapping _ _ (Spares-mkdir_all t env (dir dst) 0o755)) (λ _.
        Leads-bind _ _ (Leads-wrapping _ _ (Leads-create_download_temp (dir dst))) (λ tmp.
          Leads-fact (t (locate env.cwd tmp) ≡ none) _ (λ free. Leads-store max tmp dst r free))))

  Leads-gather :
      (fetch : Fetch) (max : ℕ) (raw_source dst : Text)
      → Leads
          (Intact t)
          (λ m. IntactBut t (locate env.cwd m.path))
          (Intact t)
          (gather env names fetch max raw_source dst)
  unfolding gather
  Leads-gather fetch max raw_source dst =
      Leads-bind _ _
        (Leads-lift (map_err (wrap "failed to parse source URI") (parse_url raw_source)) (λ _ i. i))
        (λ src. Leads-bind _ _ (Leads-lift (check_url src) (λ _ i. i)) (λ _.
          Leads-bind _ _
            (Leads-lift (expanded "failed to expand destination path" (expand_path env.home dst))
              (λ _ i. i))
            (λ dst'.
              Leads-bind _ _
                (Leads-lift (map_err (wrap "failed to create HTTP request") (parse_url raw_source))
                  (λ _ i. i))
                (λ _.
                  Leads-bind _ _
                    (Leads-lift (map_err (wrap "failed to download from URL") (fetch raw_source))
                      (λ _ i. i))
                    (λ r.
                      Leads-bind _ _ (Leads-download max (destination dst' (base src.path)) r)
                        (λ _. Leads-pure _ (λ _ h. h)))))))

-- Whatever the server sends and whichever calls fail: where `gather` returns an error, every file
-- and directory that was there is there as it was; where it returns, so is every one but what was
-- at the path that it reports.
pub gather-Intact :
    (env : Env) (names : List Text) (fetch : Fetch) (max : ℕ) (raw_source dst : Text) (w : World)
    → AfterValue
        (λ m. IntactBut w.tree (locate env.cwd m.path))
        (Intact w.tree)
        (gather env names fetch max raw_source dst w).0
        (gather env names fetch max raw_source dst w).1
gather-Intact env names fetch max raw_source dst w =
    (Leads-gather w.tree env names fetch max raw_source dst).at w (record { kept = λ l n h. h })
