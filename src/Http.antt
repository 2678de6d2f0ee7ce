-- ===== src/Http.antt =====
-- `HTTPGatherer` of gather/http/http.go: `Gather`, with the client as a parameter.
pub mod Whole
pub mod Kept
pub mod Filling
pub mod Complete
use go_gather.Base.{
  ◌%◌, ℕ, ◌+◌, ◌*◌, ◌-◌, Bool, true, false, not, ◌&&◌, ◌||◌, ◌==◌, Option, none, some, List, [],
  ◌∷◌, ◌++◌, if◌then◌else◌, length, take,
}
use go_gather.Base.Int64
use go_gather.Base.Int64.{max_int}
use go_gather.Base.Text.{Text, codes, has_suffix}
use go_gather.Path.{slash, is_empty, join_path, dir, base, ext, locate, Loc}
use go_gather.Helpers.{expand_path}
use go_gather.Url.Parse.{Url, parse_url}
use go_gather.Exec.{
  fault, errno, Err, plain, wrap, Result, ok, err, Exec, pure, raise, lift, map_err, is_ok, ◌>>=◌,
  ◌>>◌, wrapping, try,
}
use go_gather.Os.{Bytes, World, Env, Node, node_attr, stat, mkdir_all, write, close, chmod}
use go_gather.Os.Replace.{create_temp, create_new, remove, rename, or_abandon}
use go_gather.Expand.Io.{limited, copy}
use go_gather.Expand.Copy.{Stream, concat}
use go_gather.Expand.Cleanup.{expanded}

-- `DefaultMaxResponseBytes`
abbrev pub default_max_response_bytes : ℕ
default_max_response_bytes = 80 * 1024 * 1024

-- What `Gather` reads of a response. The length is the pattern of an `int64`.
pub record Response : Type 0 where
  pub status : ℕ
  pub content_length : ℕ
  pub body : Stream

-- `HTTPMetadata`, less its time.
pub record HttpMetadata : Type 0 where
  pub uri : Text
  pub path : Text
  pub response_code : ℕ
  pub size : ℕ

-- `Client.Do` for a GET of a URL.
abbrev pub Fetch : Type 0
Fetch = Text → Result Response

-- `WithMaxResponseBytes` and the options of `NewHTTPGatherer`, on the limit; a nil option is `none`.
unfoldable pub max_response_bytes : ℕ → List (Option ℕ) → ℕ
max_response_bytes n [] = n
max_response_bytes n (none ∷ opts) = max_response_bytes n opts
max_response_bytes n (some m ∷ opts) = max_response_bytes m opts

-- The limit of a gatherer made by `NewHTTPGatherer`.
unfoldable pub new_limit : List (Option ℕ) → ℕ
unfolding max_response_bytes
new_limit = max_response_bytes default_max_response_bytes

-- The number is positive, as an `int64`.
unfoldable pub is_positive : ℕ → Bool
unfolding Int64.lt
is_positive n = Int64.lt 0 n

-- The body, bounded by one byte more than the limit.
unfoldable pub bounded : ℕ → Stream → Stream
unfolding is_positive limited Int64.lt Int64.add
bounded max body =
    if is_positive max && Int64.lt max max_int
    then limited (Int64.add max 1) body.reads body.broken
    else body

-- Where the file goes. `filepath.Join` drops an empty destination: what is left is absolute.
unfoldable pub destination : Text → Text → Text
unfolding has_suffix join_path ext is_empty
destination dst name =
    if has_suffix dst (codes "/")
    then join_path dst name
    else if is_empty (ext dst)
    then join_path (if is_empty dst then codes "/" else dst ++ codes "//") name
    else dst

-- The checks of the parsed URL.
unfoldable pub check_url : Url → Result (Unit {0})
unfolding is_empty
check_url u =
    if is_empty u.scheme
    then err (plain "no source scheme provided")
    else if is_empty u.path
    then err (plain "specify a path to a file to download")
    else ok tt

unfoldable pub check_status : Response → Result (Unit {0})
check_status r = if r.status == 200 then ok tt else err (plain "received non-200 response code: %d")

-- The declared length is too large.
unfoldable pub check_length : ℕ → Response → Result (Unit {0})
unfolding is_positive Int64.lt
check_length max r =
    if is_positive max && Int64.lt max r.content_length
    then err (plain "response body size %d exceeds limit of %d bytes")
    else ok tt

-- What was read is too much.
unfoldable pub check_size : ℕ → ℕ → Result (Unit {0})
unfolding is_positive Int64.lt
check_size max size =
    if is_positive max && Int64.lt max size
    then err (plain "response body exceeds limit of %d bytes")
    else ok tt

module _ (env : Env) (names : List Text) where
  -- `createDownloadTemp`
  unfoldable pub create_download_temp : Text → Exec World Text
  unfolding create_temp or_abandon close remove create_new ◌>>=◌
  create_download_temp dir = do
    name ← create_temp env dir names
    _ ← or_abandon env name false close
    _ ← remove env name
    _ ← create_new env name 0o666
    pure name

  -- The permissions of a file that is there already, without setuid, setgid and the sticky bit.
  abbrev keep_mode : Text → Result Node → Exec World (Unit {0})
  keep_mode tmp (ok n) =
      wrapping "failed to set destination file mode" (chmod env tmp ((node_attr n).mode % 0o1000))
  keep_mode tmp (err _) = pure tt

  -- From the open temporary file to the finished download.
  unfoldable pub store : ℕ → Text → Text → Response → Exec World (Unit {0})
  unfolding or_abandon check_length bounded copy check_size concat stat try wrapping close rename
      locate ◌>>=◌
  store max tmp dst r =
      let body = bounded max r.body in
      or_abandon env tmp true (do
        _ ← lift (check_length max r)
        _ ←
            wrapping "failed to write to destination file"
              (copy (locate env.cwd tmp) body.reads body.broken)
        _ ← lift (check_size max (length (concat body.reads)))
        seen ← try (stat env dst)
        keep_mode tmp seen)
      >> or_abandon env tmp false (
          wrapping "failed to close temporary file" close
          >> wrapping "failed to move downloaded file into place" (rename env tmp dst))

  -- The download of a response to a path.
  unfoldable pub download : ℕ → Text → Response → Exec World (Unit {0})
  unfolding check_status wrapping mkdir_all dir create_download_temp store ◌>>=◌
  download max dst r = do
    _ ← lift (check_status r)
    _ ← wrapping "failed to create destination directory" (mkdir_all env (dir dst) 0o755)
    tmp ← wrapping "failed to create temporary file in %q" (create_download_temp (dir dst))
    store max tmp dst r

  -- `Gather`, for a context that is not done. The request parses the URL again.
  unfoldable pub gather : Fetch → ℕ → Text → Text → Exec World HttpMetadata
  unfolding check_url parse_url expanded expand_path destination base download bounded concat ◌>>=◌
  gather fetch max raw_source dst = do
    src ← lift (map_err (wrap "failed to parse source URI") (parse_url raw_source))
    _ ← lift (check_url src)
    dst' ← lift (expanded "failed to expand destination path" (expand_path env.home dst))
    let path = destination dst' (base src.path)
    _ ← lift (map_err (wrap "failed to create HTTP request") (parse_url raw_source))
    r ← lift (map_err (wrap "failed to download from URL") (fetch raw_source))
    _ ← download max path r
    pure (record {
      uri = raw_source;
      path = path;
      response_code = r.status;
      size = length (concat (bounded max r.body).reads);
    })
