-- ===== src/Tests/Downloads.antt =====
-- Downloads and bzip2 files on a small disk, and the theorems on them.
use go_gather.Base.{ℕ, ◌≡◌, refl, ap, arith, ◌↔◌, ◌≤◌, length, true, false, none, some, [], ◌∷◌}
use go_gather.Base.Int64
use go_gather.Base.Int64.{max_int}
use go_gather.Base.Text.{codes}
use go_gather.Path.{locate}
use go_gather.Exec.{Result, ok, err, is_ok}
use go_gather.Exec.Leads.{AfterValue}
use go_gather.Os.{chmod, World}
use go_gather.Os.Intact.{Intact, IntactBut}
use go_gather.Url.Parse.{Url, parse_url}
use go_gather.Expand.Copy.{Stream, concat}
use go_gather.Expand.Limits.{ExpandOptions}
use go_gather.Http
use go_gather.Http.Kept.{gather-Intact}
use go_gather.Http.Complete.{HasBody, gather-HasBody}
use go_gather.Gather.Matchers.{http_matcher}
use go_gather.Gather.Matchers.Hosts.{IsFetched, http_matcher-iff-IsFetched}
use go_gather.Bzip2
use go_gather.Bzip2.Kept.{expand_at-Intact}
use go_gather.Tests.Disk.{disk, world, env}

abbrev body : Stream
body = record { reads = (1 ∷ 2 ∷ 3 ∷ []) ∷ []; broken = false }

abbrev fetch : Http.Fetch
fetch u = ok (record { status = 200; content_length = 3; body = body })

-- The rename fails: the file `g` is kept.
abbrev failing : World
failing = world (none ∷ none ∷ none ∷ none ∷ none ∷ none ∷ none ∷ none ∷ some 0 ∷ [])

abbrev download : Result Http.HttpMetadata × World
download =
    Http.gather env (codes ".gather-1.tmp" ∷ []) fetch 10 (codes "https://h/x/g") (codes "/")
      failing

download-fails : is_ok download.0 ≡ false
unfolding Http.gather chmod
download-fails = refl

gather-Intact_example :
    AfterValue (λ m. IntactBut disk (locate env.cwd m.path)) (Intact disk) download.0 download.1
gather-Intact_example =
    gather-Intact env (codes ".gather-1.tmp" ∷ []) fetch 10 (codes "https://h/x/g") (codes "/")
      failing

abbrev options : ExpandOptions
options = record { max_entry_size = 2; max_total_size = 0; files_limit = 0 }

expand_at-Intact_example :
    AfterValue
      (λ _. IntactBut disk (
        locate env.cwd
          (Bzip2.output_path env (λ _. body) (codes "t" ∷ []) (codes "/g") (codes "/d"))))
      (Intact disk)
      (Bzip2.expand_at env
        (λ _. body)
        (codes "t" ∷ [])
        options
        (codes "/g")
        (codes "/d")
        0o755
        (world [])).0
      (Bzip2.expand_at env
        (λ _. body)
        (codes "t" ∷ [])
        options
        (codes "/g")
        (codes "/d")
        0o755
        (world [])).1
expand_at-Intact_example =
    expand_at-Intact env (λ _. body) (codes "t" ∷ []) options (codes "/g") (codes "/d") 0o755
      (world [])

abbrev good_download : Result Http.HttpMetadata × World
good_download =
    Http.gather env (codes ".gather-1.tmp" ∷ []) fetch 10 (codes "https://h/x/g") (codes "/")
      (world [])

abbrev reported : Http.HttpMetadata
reported = record { uri = codes "https://h/x/g"; path = codes "/g"; response_code = 200; size = 3 }

download-reported : good_download.0 ≡ ok reported
unfolding Http.gather chmod Int64.add
download-reported = refl

small_body :
    (r : Http.Response)
    → fetch (codes "https://h/x/g") ≡ ok r
    → length (concat r.body.reads) ≤ max_int
unfolding concat
small_body r e =
    let same : 3 ≡ length (concat r.body.reads) = ap body_length e in omega (arith, same)
  where
    body_length : Result Http.Response → ℕ
    body_length (ok x) = length (concat x.body.reads)
    body_length (err _) = 0

gather-HasBody_example : HasBody env fetch 10 (codes "https://h/x/g") reported good_download.1
gather-HasBody_example =
    gather-HasBody env (codes ".gather-1.tmp" ∷ []) fetch 10 (codes "https://h/x/g") (codes "/")
      (world []) reported (omega arith) small_body download-reported

http_matcher-iff-IsFetched_example :
    (http_matcher (codes "https://example.com/x") ≡ true)
    ↔ ((u : Url) × (parse_url (codes "https://example.com/x") ≡ ok u) × IsFetched u)
http_matcher-iff-IsFetched_example = http_matcher-iff-IsFetched (codes "https://example.com/x")
