-- ===== src/Tar/Untar.antt =====
-- `untar` and `writeTarFile` of expand/tar/tar.go.
use go_gather.Base.{
  ℕ, ◌+◌, Bool, not, ◌&&◌, ◌||◌, Option, none, some, List, [], ◌∷◌, if◌then◌else◌, ◌==◌,
}
use go_gather.Base.Int64
use go_gather.Base.Text.{Text, text_eq}
use go_gather.Path.{join_path, dir, locate}
use go_gather.Helpers.{is_path_contained}
use go_gather.Exec.{
  Err, plain, wrap, Result, ok, err, Exec, pure, raise, ◌>>=◌, ◌>>◌, lift, wrapping, try,
}
use go_gather.Os.{World, Env, Node, stat, is_not_exist, mkdir_all, open_trunc, chmod, chtimes}
use go_gather.Expand.Limits.{Limits}
use go_gather.Expand.Copy.{Stream, Extraction, on_disk, deferring_close, copy_bounded}

-- A header of the tar reader: its name and type flag, what its `FileInfo` reports, and its times,
-- `none` for the zero time. The size is the pattern of an `int64`.
pub record Header : Type 0 where
  pub name : Text
  pub typeflag : ℕ
  pub is_dir : Bool
  pub size : ℕ
  pub mode : ℕ
  pub access_time : Option ℕ
  pub mod_time : Option ℕ

-- What successive calls of `Next` of the tar reader return, with the data that reads of each entry
-- find. The end of the list is `io.EOF`.
pub data Event : Type 0 where
  entry : Header → Stream → Event
  bad : Err → Event

-- `tar.TypeXGlobalHeader` and `tar.TypeXHeader`
unfoldable pub is_extended : Header → Bool
is_extended h = h.typeflag == b'g' || h.typeflag == b'x'

abbrev pub SeenDirs : Type 0
SeenDirs = List (Text × Header)

-- `seenDirs[path] = header`
unfoldable pub remember : Text → Header → SeenDirs → SeenDirs
unfolding text_eq
remember p h [] = (p, h) ∷ []
remember p h ((q, g) ∷ seen) = if text_eq q p then (p, h) ∷ seen else (q, g) ∷ remember p h seen

abbrev pub or_now : ℕ → Option ℕ → ℕ
or_now now none = now
or_now now (some t) = t

-- `header.FileInfo().Size() > maxEntrySize` for what is no directory.
unfoldable pub too_large : ℕ → Header → Bool
unfolding Int64.lt
too_large max_entry h = not h.is_dir && Int64.lt max_entry h.size

-- The checks of an entry that counts as the file number `files`.
unfoldable pub check_entry : Text → Limits → Header → ℕ → Result (Unit {0})
unfolding Int64.lt is_path_contained join_path too_large
check_entry dst limits h files =
    if Int64.lt limits.files files
    then err (plain "tar file contains more files than the %d allowed: %d")
    else if not (is_path_contained (join_path dst h.name) dst)
    then err (plain "illegal file path: %s")
    else if too_large limits.max_entry h
    then err (plain "tar entry %q size %d exceeds the per-entry limit of %d bytes")
    else ok tt

-- `filesCount` behind a header.
unfoldable pub count_after : Header → ℕ → ℕ
unfolding is_extended Int64.add
count_after h files = if is_extended h then files else Int64.add files 1

-- `seenDirs` behind a header.
unfoldable pub seen_after : Text → Header → SeenDirs → SeenDirs
unfolding is_extended remember join_path
seen_after dst h seen =
    if not (is_extended h) && h.is_dir then remember (join_path dst h.name) h seen else seen

module _ (env : Env) where
  -- `writeTarFile`
  unfoldable pub write_tar_file : Text → ℕ → Stream → ℕ → Exec Extraction (Unit {0})
  unfolding wrapping on_disk open_trunc deferring_close copy_bounded ◌>>=◌
  write_tar_file path mode r max_total =
      wrapping "error creating file (%s)" (on_disk (open_trunc env path mode))
      >> deferring_close
          (wrapping "error extracting file (%s)" (copy_bounded max_total (locate env.cwd path) r))

  -- Other errors of the look at the directory are dropped.
  unfoldable pub make_missing : Text → Result Node → Exec Extraction (Unit {0})
  unfolding mkdir_all wrapping on_disk
  make_missing path (ok _) = pure tt
  make_missing path (err e) =
      if is_not_exist e
      then wrapping "failed to create directory (%s)" (on_disk (mkdir_all env path 0o755))
      else pure tt

  unfoldable pub ensure_dir : Text → Exec Extraction (Unit {0})
  unfolding make_missing stat try on_disk ◌>>=◌
  ensure_dir path = try (on_disk (stat env path)) >>= make_missing path

  unfoldable pub set_times : Text → Header → Exec Extraction (Unit {0})
  unfolding chtimes on_disk
  set_times path h =
      on_disk (chtimes env path (or_now env.now h.access_time) (or_now env.now h.mod_time))

  -- An entry that is no directory.
  unfoldable pub extract_file : Text → Header → Stream → ℕ → Exec Extraction (Unit {0})
  unfolding ensure_dir write_tar_file set_times on_disk wrapping dir ◌>>=◌
  extract_file path h body max_total =
      ensure_dir (dir path)
      >> write_tar_file path h.mode body max_total
      >> wrapping "failed to change file times (%s)" (set_times path h)

  -- An entry that has passed the checks.
  unfoldable pub extract_entry : Text → Header → Stream → ℕ → Exec Extraction (Unit {0})
  unfolding extract_file mkdir_all on_disk wrapping
  extract_entry path h body max_total =
      if h.is_dir
      then wrapping "failed to create directory (%s)" (on_disk (mkdir_all env path 0o755))
      else extract_file path h body max_total

  module _ (dst : Text) (limits : Limits) where
    -- One round of the loop behind `Next`; `files` counts this header already.
    unfoldable pub handle_header : Header → Stream → ℕ → Exec Extraction (Unit {0})
    unfolding is_extended check_entry extract_entry join_path ◌>>=◌
    handle_header h body files =
        if is_extended h
        then pure tt
        else lift (check_entry dst limits h files)
          >> extract_entry (join_path dst h.name) h body limits.max_total

    -- The loop. `headers` counts the headers, `files` those that are no extended headers.
    unfoldable pub untar_loop : List Event → ℕ → ℕ → SeenDirs → Exec Extraction SeenDirs
    unfolding count_after seen_after handle_header ◌>>=◌
    untar_loop [] headers files seen =
        if headers == 0 then raise (plain "tar file is empty: %s") else pure seen
    untar_loop (bad e ∷ events) headers files seen = raise (wrap "error reading tar header" e)
    untar_loop (entry h body ∷ events) headers files seen =
        let files' = count_after h files in
        handle_header h body files'
        >> untar_loop events (headers + 1) files' (seen_after dst h seen)

  -- Permissions and times of the directories, once all files are there.
  unfoldable pub adjust_dirs : SeenDirs → Exec Extraction (Unit {0})
  unfolding chmod set_times on_disk wrapping ◌>>=◌
  adjust_dirs [] = pure tt
  adjust_dirs ((path, h) ∷ seen) =
      wrapping "failed to change directory permissions (%s)" (on_disk (chmod env path h.mode))
      >> wrapping "failed to change directory times (%s)" (set_times path h)
      >> adjust_dirs seen

  -- `untar`. The code ranges over the map of directories in an order of its own: `order`.
  unfoldable pub untar_body :
      (SeenDirs → SeenDirs) → Text → Limits → List Event → Exec Extraction (Unit {0})
  unfolding untar_loop adjust_dirs ◌>>=◌
  untar_body order dst limits events =
      untar_loop dst limits events 0 0 [] >>= λ seen. adjust_dirs (order seen)

  -- The running total starts at zero.
  unfoldable pub untar : (SeenDirs → SeenDirs) → Text → Limits → List Event → Exec World (Unit {0})
  unfolding untar_body
  untar order dst limits events w =
      let (r, e) = untar_body order dst limits events (record { world = w; copied = 0 }) in
      (r, e.world)
