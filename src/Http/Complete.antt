-- ===== src/Http/Complete.antt =====
-- A download that returns has put the whole body in place.
use go_gather.Base.{ℕ, ◌<◌, ◌≤◌, ◌≡◌, refl, ap, subst, ◌∙◌, ◌⊎◌, true, false, List, [], length}
use go_gather.Base.Int64.{max_int, word}
use go_gather.Base.Text.{Text}
use go_gather.Path.{Loc, locate, dir, base}
use go_gather.Helpers.{expand_path}
use go_gather.Url.Parse.{parse_url}
use go_gather.Exec.{ok, wrap, map_err, wrapping}
use go_gather.Exec.Leads.{
  AfterValue, Leads-pure, Leads-wrapping, Leads-bind, Leads-bind-lift, Leads-with, Leads-fact,
}
use go_gather.Exec.Keeps.{ok_of_map_err}
use go_gather.Os.{World, Env, mkdir_all}
use go_gather.Os.Filled.{Filled, Anything, Fills, Fills-any, Fills-close}
use go_gather.Os.Filled.Renamed.{Fills-rename, Fills-or_abandon}
use go_gather.Expand.Copy.{concat}
use go_gather.Expand.Cleanup.{expanded}
use go_gather.Http.{
  Response, HttpMetadata, Fetch, bounded, is_positive, destination, check_url, check_status,
  check_length, check_size, store, download, gather,
}
use go_gather.Http.Whole.{concat-bounded}
use go_gather.Http.Filling.{Fills-try-stat, Fills-copy, Fills-create_download_temp, Fills-keep_mode}

module _ (env : Env) (names : List Text) where
  -- The body passed the check of its size.
  abbrev Passed : ℕ → Response → Type 0
  Passed max r =
      (u : Unit {0}) × (check_size max (length (concat (bounded max r.body).reads)) ≡ ok u)

  -- What is there after a download to a place.
  abbrev Placed : ℕ → Response → Loc → World → Type 0
  Placed max r l w = Filled l (concat (bounded max r.body).reads) w × Passed max r

  Fills-store :
      (max : ℕ) (tmp dst : Text) (r : Response)
      → Fills
          (Filled (locate env.cwd tmp) [])
          (λ _. Placed max r (locate env.cwd dst))
          (store env names max tmp dst r)
  unfolding store
  Fills-store max tmp dst r =
      let l = locate env.cwd tmp in
      let body = bounded max r.body in
      let content = concat body.reads in
      Leads-bind {R = λ _. Placed max r l} _ _
        (Fills-or_abandon env tmp true _ (
          Leads-bind-lift (check_length max r) _ (λ _ _. tt)
            (λ _ _.
              Leads-bind {R = λ _. Filled l content} _ _
                (Leads-wrapping "failed to write to destination file" _
                  (Fills-copy l [] body.reads body.broken))
                (λ _.
                  Leads-bind-lift (check_size max (length content)) _ (λ _ _. tt)
                    (λ u passed.
                      Leads-bind {R = λ _. Filled l content} _ _ (Fills-try-stat env dst l content)
                        (λ seen.
                          Leads-with (Passed max r) _ (u, passed)
                            (Fills-keep_mode env names tmp seen content)))))))
        (λ _. Leads-fact (Passed max r) _ (λ passed. Leads-with (Passed max r) _ passed (
          Fills-or_abandon env tmp false _ (
            Leads-bind {R = λ _. Filled l content} _ _
              (Leads-wrapping "failed to close temporary file" _ (Fills-close l content))
              (λ _.
                Leads-wrapping "failed to move downloaded file into place" _
                  (Fills-rename env tmp dst content))))))

  Fills-download :
      (max : ℕ) (dst : Text) (r : Response)
      → Fills Anything (λ _. Placed max r (locate env.cwd dst)) (download env names max dst r)
  unfolding download
  Fills-download max dst r =
      Leads-bind-lift (check_status r) _ (λ _ _. tt)
        (λ _ _.
          Leads-bind _ _
            (Fills-any
              (wrapping "failed to create destination directory" (mkdir_all env (dir dst) 0o755)))
            (λ _.
              Leads-bind _ _
                (Leads-wrapping "failed to create temporary file in %q" _
                  (Fills-create_download_temp env names (dir dst)))
                (λ tmp. Fills-store max tmp dst r)))

  abbrev Fetched : Fetch → ℕ → Text → HttpMetadata → World → Type 0
  Fetched fetch max raw m w =
      (r : Response) × (fetch raw ≡ ok r)
      × (m.size ≡ length (concat (bounded max r.body).reads))
      × Placed max r (locate env.cwd m.path) w

  Fills-gather :
      (fetch : Fetch) (max : ℕ) (raw_source dst : Text)
      → Fills Anything (Fetched fetch max raw_source) (gather env names fetch max raw_source dst)
  unfolding gather
  Fills-gather fetch max raw_source dst =
      Leads-bind-lift (map_err (wrap "failed to parse source URI") (parse_url raw_source)) _
        (λ _ _. tt)
        (λ src _.
          Leads-bind-lift (check_url src) _ (λ _ _. tt)
            (λ _ _.
              Leads-bind-lift
                (expanded "failed to expand destination path" (expand_path env.home dst)) _
                (λ _ _. tt)
                (λ dst' _.
                  Leads-bind-lift
                    (map_err (wrap "failed to create HTTP request") (parse_url raw_source)) _
                    (λ _ _. tt)
                    (λ _ _.
                      Leads-bind-lift
                        (map_err (wrap "failed to download from URL") (fetch raw_source)) _
                        (λ _ _. tt)
                        (λ r found.
                          Leads-bind _ _ (Fills-download max (destination dst' (base src.path)) r)
                            (λ _. Leads-pure _ (λ w h.
                              (r, ok_of_map_err _ (fetch raw_source) r found, refl, h))))))))

-- The whole body of the response, within the limit where there is one, in the file at the path.
abbrev pub HasBody : Env → Fetch → ℕ → Text → HttpMetadata → World → Type 0
HasBody env fetch max raw m w =
    (r : Response) × (fetch raw ≡ ok r)
    × (m.size ≡ length (concat r.body.reads))
    × ((is_positive max ≡ false) ⊎ (length (concat r.body.reads) ≤ max))
    × Filled (locate env.cwd m.path) (concat r.body.reads) w

whole_body :
    (env : Env) (names : List Text) (fetch : Fetch) (max : ℕ) (raw : Text) (m : HttpMetadata)
    (w : World)
    → max < word
    → ((r : Response) → fetch raw ≡ ok r → length (concat r.body.reads) ≤ max_int)
    → Fetched env names fetch max raw m w
    → HasBody env fetch max raw m w
whole_body env names fetch max raw m w bound small (r, found, size, (filled, (u, passed))) =
    let (same, le) = concat-bounded max r.body u (small r found) bound passed in
    (
      r,
      found,
      size ∙ ap (λ b. length b) same,
      le,
      subst (λ b. Filled (locate env.cwd m.path) b w) same filled,
    )

-- Whichever calls fail on the way: where `gather` returns, the file at the path that it reports holds
-- the whole body of the response that was fetched, and no more, the size that it reports is that of
-- the body, and the body is within the limit where there is one. Bodies are shorter than 2 ^ 63 bytes.
pub gather-HasBody :
    (env : Env) (names : List Text) (fetch : Fetch) (max : ℕ) (raw_source dst : Text) (w : World)
    (m : HttpMetadata)
    → max < word
    → ((r : Response) → fetch raw_source ≡ ok r → length (concat r.body.reads) ≤ max_int)
    → (gather env names fetch max raw_source dst w).0 ≡ ok m
    → HasBody env fetch max raw_source m (gather env names fetch max raw_source dst w).1
gather-HasBody env names fetch max raw_source dst w m bound small returned =
    let x = gather env names fetch max raw_source dst w in
    let h = (Fills-gather env names fetch max raw_source dst).at w tt in
    whole_body env names fetch max raw_source m x.1 bound small
      (subst (λ r. AfterValue (Fetched env names fetch max raw_source) Anything r x.1) returned h)
