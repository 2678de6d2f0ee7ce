-- ===== src/Tar/Rules.antt =====
-- The extraction of a tar archive keeps every invariant that stands the calls it makes.
use go_gather.Base.{
  ℕ, zero, suc, ◌+◌, ◌≡◌, subst, arith, true, List, [], ◌∷◌, ◌==◌, Bool-cases, inl, inr, All,
}
use go_gather.Base.Int64
use go_gather.Base.Text.{Text, text_eq}
use go_gather.Path.{join_path, dir}
use go_gather.Helpers.{is_path_contained}
use go_gather.Exec.{Result, ok, err, lift}
use go_gather.Exec.Keeps.{
  Keeps, Keeps-pure, Keeps-raise, Keeps-if, Keeps-bind, Keeps-bind-lift, Keeps-wrapping, Keeps-try,
  Keeps-bind_value, ok_of_bind,
}
use go_gather.Os.{Env, Node, is_not_exist}
use go_gather.Expand.Limits.{Limits}
use go_gather.Expand.Copy.{Stream, Extraction}
use go_gather.Expand.Rules.{Rules, Admits, Keeps-deferring_close}
use go_gather.Tar.Untar.{
  Header, Event, entry, bad, SeenDirs, remember, is_extended, write_tar_file, make_missing,
  ensure_dir, set_times, extract_file, extract_entry, check_entry, count_after, seen_after,
  handle_header, untar_loop, adjust_dirs, untar_body,
}

-- The data of every entry is `Sound`.
abbrev pub SoundEvents : (Stream → Type 0) → List Event → Type 0
SoundEvents Sound [] = Unit
SoundEvents Sound (entry _ r ∷ events) = Sound r × SoundEvents Sound events
SoundEvents Sound (bad _ ∷ events) = SoundEvents Sound events

-- The paths of the directories are `Allowed`.
abbrev pub AllowedDirs : (Text → Type 0) → SeenDirs → Type 0
AllowedDirs Allowed = All (λ d. Allowed d.0)

remember-Allowed :
    (Allowed : Text → Type 0) (p : Text) (h : Header) (seen : SeenDirs)
    → Allowed p
    → AllowedDirs Allowed seen
    → AllowedDirs Allowed (remember p h seen)
unfolding remember
remember-Allowed Allowed p h [] a _ = (a, tt)
remember-Allowed Allowed p h ((q, g) ∷ seen) a (b, bs) = elim (Bool-cases (text_eq q p)) [
  | inl e ↦ rw e (a, bs)
  | inr ne ↦ rw ne (b, remember-Allowed Allowed p h seen a bs)
]

module _ {env : Env} {max : ℕ} {Allowed : Text → Type 0} {Sound : Stream → Type 0}
    {P E : Extraction → Type 0} (rules : Rules env max Allowed Sound P E) where
  write_tar_file-Keeps :
      (path : Text) (mode : ℕ) (r : Stream)
      → Allowed path
      → Sound r
      → Keeps P E (write_tar_file env path mode r max)
  unfolding write_tar_file
  write_tar_file-Keeps path mode r a s =
      Keeps-bind _ _ (Keeps-wrapping _ _ (rules.open_keeps path mode a))
        (λ _. Keeps-deferring_close rules _ (Keeps-wrapping _ _ (rules.copy_keeps path r a s)))

  make_missing-Keeps :
      (path : Text) (r : Result Node) → Allowed path → Keeps P E (make_missing env path r)
  unfolding make_missing
  make_missing-Keeps path (ok n) a = Keeps-pure tt
  make_missing-Keeps path (err e) a =
      Keeps-if (is_not_exist e) _ _ (λ _. Keeps-wrapping _ _ (rules.mkdir_keeps path 0o755 a))
        (λ _. Keeps-pure tt)

  ensure_dir-Keeps : (path : Text) → Allowed path → Keeps P E (ensure_dir env path)
  unfolding ensure_dir
  ensure_dir-Keeps path a =
      Keeps-bind _ _ (Keeps-try _ (rules.stat_keeps path)) (λ r. make_missing-Keeps path r a)

  set_times-Keeps : (path : Text) (h : Header) → Allowed path → Keeps P E (set_times env path h)
  unfolding set_times
  set_times-Keeps path h a = rules.chtimes_keeps path _ _ a

  extract_entry-Keeps :
      (path : Text) (h : Header) (r : Stream)
      → Allowed path
      → Allowed (dir path)
      → Sound r
      → Keeps P E (extract_entry env path h r max)
  unfolding extract_entry extract_file
  extract_entry-Keeps path h r a b s =
      Keeps-if h.is_dir _ _ (λ _. Keeps-wrapping _ _ (rules.mkdir_keeps path 0o755 a))
        (λ _.
          Keeps-bind _ _
            (Keeps-bind _ _ (ensure_dir-Keeps (dir path) b)
              (λ _. write_tar_file-Keeps path h.mode r a s))
            (λ _. Keeps-wrapping _ _ (set_times-Keeps path h a)))

  adjust_dirs-Keeps :
      (seen : SeenDirs) → AllowedDirs Allowed seen → Keeps P E (adjust_dirs env seen)
  unfolding adjust_dirs
  adjust_dirs-Keeps [] _ = Keeps-pure tt
  adjust_dirs-Keeps ((path, h) ∷ seen) (a, others) =
      Keeps-bind _ _
        (Keeps-bind _ _ (Keeps-wrapping _ _ (rules.chmod_keeps path h.mode a))
          (λ _. Keeps-wrapping _ _ (set_times-Keeps path h a)))
        (λ _. adjust_dirs-Keeps seen others)

module _ (dst : Text) (limits : Limits) where
  pub check_entry-contained :
      (h : Header) (files : ℕ)
      → check_entry dst limits h files ≡ ok tt
      → is_path_contained (join_path dst h.name) dst ≡ true
  unfolding check_entry
  check_entry-contained h files passed = elim (Bool-cases (Int64.lt limits.files files)) [
    | inl over ↦ absurd (let e = (rw over at passed) in cc e)
    | inr fits ↦ elim (Bool-cases (is_path_contained (join_path dst h.name) dst)) [
      | inl inside ↦ inside
      | inr outside ↦ absurd (let e = (rw (fits, outside) at passed) in cc e)
    ]
  ]

module _ {env : Env} (limits : Limits) {Allowed : Text → Type 0} {Sound : Stream → Type 0}
    {P E : Extraction → Type 0} (rules : Rules env limits.max_total Allowed Sound P E) (dst : Text)
    (admits : Admits Allowed dst) where
  passed_ok : {r : Result (Unit {0})} (u : Unit {0}) → r ≡ ok u → r ≡ ok tt
  passed_ok tt e = e

  handle_header-Keeps :
      (h : Header) (r : Stream) (files : ℕ)
      → Sound r
      → Keeps P E (handle_header env dst limits h r files)
  unfolding handle_header
  handle_header-Keeps h r files s =
      Keeps-if (is_extended h) _ _ (λ _. Keeps-pure tt)
        (λ _. Keeps-bind-lift (check_entry dst limits h files) _ rules.weaken (λ _ passed.
          let inside = check_entry-contained dst limits h files (passed_ok _ passed) in
          let (a, b) = admits h.name inside in
          extract_entry-Keeps rules (join_path dst h.name) h r a b s))

  -- The paths in the map of directories have passed the check.
  seen_after-Allowed :
      (h : Header) (r : Stream) (files : ℕ) (seen : SeenDirs) (e : Extraction)
      → (handle_header env dst limits h r files e).0 ≡ ok tt
      → AllowedDirs Allowed seen
      → AllowedDirs Allowed (seen_after dst h seen)
  unfolding handle_header seen_after
  seen_after-Allowed h r files seen e done a = elim (Bool-cases (is_extended h)) [
    | inl extended ↦ rw extended a
    | inr plain_header ↦ elim (Bool-cases h.is_dir) [
      | inr no_dir ↦ rw (plain_header, no_dir) a
      | inl at_dir ↦
          let steps =
            ok_of_bind (lift (check_entry dst limits h files))
              (λ _. extract_entry env (join_path dst h.name) h r limits.max_total) e tt
              (rw plain_header at done) in
          let inside = check_entry-contained dst limits h files (passed_ok steps.0 steps.1) in
          rw plain_header (
            simp at_dir
              (remember-Allowed Allowed (join_path dst h.name) h seen (admits h.name inside).0 a))
    ]
  ]

  untar_loop-Keeps :
      (events : List Event) (headers files : ℕ) (seen : SeenDirs)
      → SoundEvents Sound events
      → Keeps P E (untar_loop env dst limits events headers files seen)
  unfolding untar_loop
  untar_loop-Keeps [] headers files seen s =
      Keeps-if (headers == 0) _ _ (λ _. Keeps-raise rules.weaken _) (λ _. Keeps-pure seen)
  untar_loop-Keeps (bad e ∷ events) headers files seen s = Keeps-raise rules.weaken _
  untar_loop-Keeps (entry h r ∷ events) headers files seen (s, ss) =
      Keeps-bind _ _ (handle_header-Keeps h r (count_after h files) s) (λ _.
        untar_loop-Keeps events (headers + 1) (count_after h files) (seen_after dst h seen) ss)

  untar_loop-Allowed :
      (events : List Event) (headers files : ℕ) (seen found : SeenDirs) (e : Extraction)
      → (untar_loop env dst limits events headers files seen e).0 ≡ ok found
      → AllowedDirs Allowed seen
      → AllowedDirs Allowed found
  unfolding untar_loop
  untar_loop-Allowed [] zero files seen found e done a = absurd (let d = done in cc d)
  untar_loop-Allowed [] (suc n) files seen found e done a =
      let same : seen ≡ found = ground arith in subst (AllowedDirs Allowed) same a
  untar_loop-Allowed (bad x ∷ events) headers files seen found e done a =
      absurd (let d = done in cc d)
  untar_loop-Allowed (entry h r ∷ events) headers files seen found e done a =
      let steps =
        ok_of_bind (handle_header env dst limits h r (count_after h files))
          (λ _.
            untar_loop env dst limits events (headers + 1) (count_after h files)
              (seen_after dst h seen))
          e found done in
      untar_loop-Allowed events (headers + 1) (count_after h files) (seen_after dst h seen) found
        (handle_header env dst limits h r (count_after h files) e).1 steps.2
        (seen_after-Allowed h r (count_after h files) seen e (passed_ok steps.0 steps.1) a)

  -- The whole of `untar`, on a disk with a running total.
  pub untar_body-Keeps :
      (order : SeenDirs → SeenDirs)
      → ((seen : SeenDirs) → AllowedDirs Allowed seen → AllowedDirs Allowed (order seen))
      → (events : List Event) → SoundEvents Sound events
      → Keeps P E (untar_body env order dst limits events)
  unfolding untar_body
  untar_body-Keeps order ordered events s =
      Keeps-bind_value _ _ (untar_loop-Keeps events 0 0 [] s) (λ e seen done.
        adjust_dirs-Keeps rules (order seen)
          (ordered seen (untar_loop-Allowed events 0 0 [] seen e done tt)))
