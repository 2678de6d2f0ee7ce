-- ===== src/Zip/Accepted.antt =====
-- What a ZIP archive that was extracted without an error must have been like.
use go_gather.Base.{
  ℕ, ◌≤◌, ◌≡◌, sym, ◌∙◌, true, false, List, [], ◌∷◌, Bool-cases, inl, inr, ltb→ge, length, All,
}
use go_gather.Base.Int64
use go_gather.Base.Int64.{max_int}
use go_gather.Base.Text.{Text}
use go_gather.Path.{Loc, join_path, locate}
use go_gather.Helpers.Climb.{ends_up, PlainlyBelow, contained-below}
use go_gather.Helpers.{is_path_contained}
use go_gather.Exec.{Exec, ok, lift, ◌>>◌}
use go_gather.Exec.Keeps.{ok_of_bind}
use go_gather.Os.{World, Env}
use go_gather.Expand.Limits.{Limits}
use go_gather.Expand.Copy.{Extraction}
use go_gather.Zip.Unzip.{ZipFile, check_file, place_file, unzip_loop, unzip_body, unzip}

-- The path is contained in the destination and leads to a place below it, and the declared size is
-- within the limit on an entry.
abbrev pub AcceptedFile : Loc → Text → Limits → ZipFile → Type 0
AcceptedFile cwd dst limits f =
    (is_path_contained (join_path dst f.name) dst ≡ true)
    × PlainlyBelow (locate cwd dst) (locate cwd (join_path dst f.name))
    × (Int64.lt limits.max_entry f.size ≡ false)

check_file-AcceptedFile :
    (cwd : Loc) (dst : Text) (limits : Limits) (f : ZipFile) (u : Unit {0})
    → ends_up dst ≡ false
    → check_file dst limits f ≡ ok u
    → AcceptedFile cwd dst limits f
unfolding check_file
check_file-AcceptedFile cwd dst limits f u down passed =
    elim (Bool-cases (Int64.lt limits.max_entry f.size)) [
      | inl over ↦ absurd (let e = (rw over at passed) in cc e)
      | inr fits ↦ elim (Bool-cases (is_path_contained (join_path dst f.name) dst)) [
        | inl inside ↦ (inside, contained-below (join_path dst f.name) dst cwd inside down, fits)
        | inr outside ↦ absurd (let e = (rw (fits, outside) at passed) in cc e)
      ]
    ]

module _ (env : Env) (dst : Text) (umask : ℕ) (limits : Limits) (down : ends_up dst ≡ false) where
  unzip_loop-AcceptedFile :
      (files : List ZipFile) (e : Extraction) (u : Unit {0})
      → (unzip_loop env dst umask limits files e).0 ≡ ok u
      → All (AcceptedFile env.cwd dst limits) files
  unfolding unzip_loop
  unzip_loop-AcceptedFile [] e u done = tt
  unzip_loop-AcceptedFile (f ∷ files) e u done =
      let step : Exec Extraction (Unit {0}) =
        lift (check_file dst limits f)
        >> place_file env dst umask limits f (join_path dst f.name) in
      let (v, first, rest) =
        ok_of_bind step (λ _. unzip_loop env dst umask limits files) e u done in
      let (x, checked, _) =
        ok_of_bind (lift (check_file dst limits f))
          (λ _. place_file env dst umask limits f (join_path dst f.name)) e v first in
      (
        check_file-AcceptedFile env.cwd dst limits f x down checked,
        unzip_loop-AcceptedFile files _ u rest,
      )

  counted_files :
      (files : List ZipFile) (e : Extraction) (u : Unit {0})
      → (unzip_body env dst umask limits files e).0 ≡ ok u
      → (Int64.lt limits.files (length files) ≡ false)
        × ((unzip_loop env dst umask limits files e).0 ≡ ok u)
  unfolding unzip_body
  counted_files files e u done = elim (Bool-cases (Int64.lt limits.files (length files))) [
    | inl over ↦ absurd (let x = (rw over at done) in cc x)
    | inr few ↦ (few, (rw few at done))
  ]

-- An archive that is extracted without an error has no more files than the limit on files. The path
-- of each of them passes the containment test and leads one or more plain names below the
-- destination, and its declared size, read as an `int64`, is within the limit on an entry. The limit
-- and the number of files are at most `math.MaxInt64`, and the destination does not clean to a path
-- that ends in `..`.
pub unzip-AcceptedFile :
    (env : Env) (dst : Text) (umask : ℕ) (limits : Limits) (files : List ZipFile) (w : World)
    → limits.files ≤ max_int
    → length files ≤ max_int
    → ends_up dst ≡ false
    → (unzip env dst umask limits files w).0 ≡ ok tt
    → (length files ≤ limits.files) × All (AcceptedFile env.cwd dst limits) files
unfolding unzip
unzip-AcceptedFile env dst umask limits files w room small down done =
    let start : Extraction = record { world = w; copied = 0 } in
    let (few, looped) = counted_files env dst umask limits down files start tt done in
    (
      ltb→ge limits.files (length files)
          (sym (Int64.lt-eq-ltb limits.files (length files) room small) ∙ few),
      unzip_loop-AcceptedFile env dst umask limits down files start tt looped,
    )
