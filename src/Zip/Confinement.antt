-- ===== src/Zip/Confinement.antt =====
-- Where the extraction of a ZIP archive writes, and how much.
use go_gather.Base.{
  ℕ, ◌+◌, ◌≤◌, ◌≡◌, refl, true, false, inl, inr, List, [], ◌∷◌, arith, All, Bool-cases, length,
}
use go_gather.Base.Int64
use go_gather.Base.Int64.{max_int}
use go_gather.Base.Text.{Text}
use go_gather.Path.{locate, join_path, dir}
use go_gather.Helpers.{is_path_contained}
use go_gather.Helpers.Climb.{ends_up}
use go_gather.Helpers.Entry.{entry-under, entry_dir-under}
use go_gather.Exec.{plain, raise, wrap, map_err, ok}
use go_gather.Exec.Keeps.{
  Keeps, Keeps-pure, Keeps-raise, Keeps-if, Keeps-bind, Keeps-bind-lift, Keeps-wrapping,
  ok_of_map_err,
}
use go_gather.Os.{World, Env}
use go_gather.Os.Confined.{Confined}
use go_gather.Expand.Limits.{Limits}
use go_gather.Expand.Copy.{buffer_length, Stream, Extraction}
use go_gather.Expand.Copy.Bound.{Fits, Bounded-of_After}
use go_gather.Expand.Rules.{Rules, Admits, Keeps-deferring_close}
use go_gather.Expand.Invariants.{Confined-of_After, confined_rules, budget_rules}
use go_gather.Zip.Unzip.{
  ZipFile, extract_stream, extract_file, check_file, place_file, unzip_loop, unzip_body, unzip,
}

-- The data of every file that opens is `Sound`.
abbrev pub SoundFiles : (Stream → Type 0) → List ZipFile → Type 0
SoundFiles Sound = All (λ f. (src : Stream) → f.body ≡ ok src → Sound src)

check_file-contained :
    (dst : Text) (limits : Limits) (f : ZipFile) (u : Unit {0})
    → check_file dst limits f ≡ ok u
    → is_path_contained (join_path dst f.name) dst ≡ true
unfolding check_file
check_file-contained dst limits f u passed = elim (Bool-cases (Int64.lt limits.max_entry f.size)) [
  | inl over ↦ absurd (let e = (rw over at passed) in cc e)
  | inr fits ↦ elim (Bool-cases (is_path_contained (join_path dst f.name) dst)) [
    | inl inside ↦ inside
    | inr outside ↦ absurd (let e = (rw (fits, outside) at passed) in cc e)
  ]
]

module _ {env : Env} (limits : Limits) {Allowed : Text → Type 0} {Sound : Stream → Type 0}
    {P E : Extraction → Type 0} (rules : Rules env limits.max_total Allowed Sound P E) (dst : Text)
    (umask : ℕ) (admits : Admits Allowed dst) where
  extract_file-Keeps :
      (f : ZipFile) (path : Text)
      → Allowed path
      → ((src : Stream) → f.body ≡ ok src → Sound src)
      → Keeps P E (extract_file env f path limits.max_total)
  unfolding extract_file extract_stream
  extract_file-Keeps f path a s =
      Keeps-bind-lift (map_err (wrap "failed to open source file %q") f.body) _ rules.weaken
        (λ src opened. Keeps-bind _ _ (Keeps-wrapping _ _ (rules.open_keeps path f.mode a)) (λ _.
          Keeps-deferring_close rules _ (
            Keeps-wrapping _ _
              (rules.copy_keeps path src a (s src (ok_of_map_err _ f.body src opened))))))

  place_file-Keeps :
      (f : ZipFile) (path : Text)
      → Allowed path
      → Allowed (dir path)
      → ((src : Stream) → f.body ≡ ok src → Sound src)
      → Keeps P E (place_file env dst umask limits f path)
  unfolding place_file
  place_file-Keeps f path a b s =
      Keeps-if f.is_dir _ _ (λ _. Keeps-wrapping _ _ (rules.mkdir_keeps path umask a))
        (λ _.
          Keeps-bind _ _ (Keeps-wrapping _ _ (rules.mkdir_keeps (dir path) umask b))
            (λ _. extract_file-Keeps f path a s))

  unzip_loop-Keeps :
      (files : List ZipFile)
      → SoundFiles Sound files
      → Keeps P E (unzip_loop env dst umask limits files)
  unfolding unzip_loop
  unzip_loop-Keeps [] s = Keeps-pure tt
  unzip_loop-Keeps (f ∷ files) (s, ss) =
      Keeps-bind _ _
        (Keeps-bind-lift (check_file dst limits f) _ rules.weaken (λ u passed.
          let (a, b) = admits f.name (check_file-contained dst limits f u passed) in
          place_file-Keeps f (join_path dst f.name) a b s))
        (λ _. unzip_loop-Keeps files ss)

  pub unzip_body-Keeps :
      (files : List ZipFile)
      → SoundFiles Sound files
      → Keeps P E (unzip_body env dst umask limits files)
  unfolding unzip_body
  unzip_body-Keeps files s =
      Keeps-if (Int64.lt limits.files (length files))
        (raise (plain "zip archive contains %d files, exceeding the limit of %d"))
        (unzip_loop env dst umask limits files)
        (λ _.
          Keeps-raise rules.weaken
            (plain "zip archive contains %d files, exceeding the limit of %d"))
        (λ _. unzip_loop-Keeps files s)

pub any_files : (files : List ZipFile) → SoundFiles (λ _. Unit) files
any_files [] = tt
any_files (f ∷ files) = ((λ _ _. tt), any_files files)

-- Whatever the archive holds and whichever calls fail, extracting it changes no file and no
-- directory that lies outside of the destination; outside, at most missing directories on the way
-- to the destination are made. The destination does not clean to a path that ends in `..`.
pub unzip-Confined :
    (env : Env) (dst : Text) (umask : ℕ) (limits : Limits) (files : List ZipFile) (w : World)
    → ends_up dst ≡ false
    → Confined (locate env.cwd dst) w.tree (unzip env dst umask limits files w).1
unfolding unzip
unzip-Confined env dst umask limits files w down =
    let root = locate env.cwd dst in
    let start : Extraction = record { world = w; copied = 0 } in
    let keeps =
      unzip_body-Keeps limits (confined_rules root w.tree env limits.max_total) dst umask
        (λ name inside.
          (entry-under env.cwd dst name down inside, entry_dir-under env.cwd dst name down inside))
        files (any_files files) in
    Confined-of_After root w.tree (unzip_body env dst umask limits files start).0
      (unzip_body env dst umask limits files start).1
      (keeps.at start (record { outside = λ l _. inl refl }))

-- Whatever fails, and also where the extraction ends with an error, it puts at most `max_total`
-- bytes on disk, over all files and whatever sizes they declare; the limit leaves room for one
-- buffer below `math.MaxInt64`, and no read delivers more than the buffer holds.
pub written-unzip :
    (env : Env) (dst : Text) (umask : ℕ) (limits : Limits) (files : List ZipFile) (w : World)
    → limits.max_total + buffer_length ≤ max_int
    → SoundFiles (λ src. Fits src.reads) files
    → (unzip env dst umask limits files w).1.written ≤ w.written + limits.max_total
unfolding unzip
written-unzip env dst umask limits files w room fits =
    let start : Extraction = record { world = w; copied = 0 } in
    let keeps =
      unzip_body-Keeps limits (budget_rules w.written 0 limits.max_total room env) dst umask
        (λ name inside. (tt, tt)) files fits in
    let bound =
      Bounded-of_After w.written 0 limits.max_total (unzip_body env dst umask limits files start).0
        (unzip_body env dst umask limits files start).1
        (keeps.at start (omega arith, omega arith)) in
    omega arith
