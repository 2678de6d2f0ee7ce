-- ===== src/Tar/Accepted.antt =====
-- What a tar archive that was extracted without an error must have been like.
use go_gather.Base.{
  ℕ, suc, ◌+◌, ◌≤◌, ◌<◌, ◌≡◌, ◌≢◌, ◌⊎◌, refl, sym, ◌∙◌, Bool, true, false, List, [], ◌∷◌, arith,
  Bool-cases, inl, inr, ltb→ge, if◌then◌else◌,
}
use go_gather.Base.Int64
use go_gather.Base.Int64.{max_int, word}
use go_gather.Base.Text.{Text}
use go_gather.Path.{Loc, join_path, locate}
use go_gather.Helpers.Climb.{ends_up, PlainlyBelow, contained-below}
use go_gather.Helpers.{is_path_contained}
use go_gather.Exec.{ok, lift}
use go_gather.Exec.Keeps.{ok_of_bind}
use go_gather.Os.{World, Env}
use go_gather.Expand.Limits.{Limits}
use go_gather.Expand.Copy.{Stream, Extraction}
use go_gather.Tar.Untar.{
  Header, Event, entry, bad, SeenDirs, is_extended, too_large, check_entry, count_after, seen_after,
  handle_header, untar_loop, adjust_dirs, untar_body, untar,
}

-- An extended header; or one whose path is contained in the destination and leads to a place below
-- it, and that is a directory or declares a size within the limit on an entry.
abbrev pub Accepted : Loc → Text → Limits → Header → Type 0
Accepted cwd dst limits h =
    (is_extended h ≡ true)
    ⊎ ((is_path_contained (join_path dst h.name) dst ≡ true)
        × PlainlyBelow (locate cwd dst) (locate cwd (join_path dst h.name))
        × ((h.is_dir ≡ true) ⊎ (Int64.lt limits.max_entry h.size ≡ false)))

-- All events are accepted entries.
abbrev pub AcceptedEvents : Loc → Text → Limits → List Event → Type 0
AcceptedEvents cwd dst limits [] = Unit
AcceptedEvents cwd dst limits (entry h _ ∷ events) =
    Accepted cwd dst limits h × AcceptedEvents cwd dst limits events
AcceptedEvents cwd dst limits (bad _ ∷ events) = Bool.true ≡ false

-- The entries that are no extended headers.
unfoldable pub counted : List Event → ℕ
unfolding is_extended
counted [] = 0
counted (entry h _ ∷ events) = let rest = counted events in if is_extended h then rest else suc rest
counted (bad _ ∷ events) = counted events

passed_checks :
    (dst : Text) (limits : Limits) (h : Header) (files : ℕ) (u : Unit {0})
    → check_entry dst limits h files ≡ ok u
    → (Int64.lt limits.files files ≡ false)
      × (is_path_contained (join_path dst h.name) dst ≡ true)
      × (too_large limits.max_entry h ≡ false)
unfolding check_entry
passed_checks dst limits h files u passed = elim (Bool-cases (Int64.lt limits.files files)) [
  | inl over ↦ absurd (let e = (rw over at passed) in cc e)
  | inr few ↦ elim (Bool-cases (is_path_contained (join_path dst h.name) dst)) [
    | inr outside ↦ absurd (let e = (rw (few, outside) at passed) in cc e)
    | inl inside ↦ elim (Bool-cases (too_large limits.max_entry h)) [
      | inl large ↦ absurd (let e = (rw (few, inside, large) at passed) in cc e)
      | inr small ↦ (few, inside, small)
    ]
  ]
]

fits_of_not_large :
    (most : ℕ) (h : Header)
    → too_large most h ≡ false
    → (h.is_dir ≡ true) ⊎ (Int64.lt most h.size ≡ false)
unfolding too_large
fits_of_not_large most h e = elim (Bool-cases h.is_dir) [
  | inl is_dir ↦ inl is_dir
  | inr file ↦ inr (rw file at e)
]

counted_le :
    (b : Bool) (files files' rest most : ℕ)
    → files' ≡ (if b then files else suc files)
    → files' + rest ≤ most
    → files + (if b then rest else suc rest) ≤ most
counted_le true files files' rest most e h = omega (arith, e, h)
counted_le false files files' rest most e h = omega (arith, e, h)

module _ (env : Env) (dst : Text) (limits : Limits) (room : limits.files < max_int)
    (down : ends_up dst ≡ false) where
  -- One more header: it is accepted, and the count is right and within the limit.
  handled :
      (h : Header) (body : Stream) (files : ℕ) (e : Extraction) (u : Unit {0})
      → files ≤ limits.files
      → (handle_header env dst limits h body (count_after h files) e).0 ≡ ok u
      → Accepted env.cwd dst limits h
        × (count_after h files ≡ (if is_extended h then files else suc files))
        × (count_after h files ≤ limits.files)
  unfolding handle_header count_after
  handled h body files e u few done = elim (Bool-cases (is_extended h)) [
    | inl x ↦ rw x (inl refl, refl, few)
    | inr x ↦
        let next : Int64.add files 1 ≡ suc files =
          Int64.add-eq-sum files 1 (omega arith) ∙ omega arith in
        let done' = (rw (x, next) at done) in
        let (v, passed, _) = ok_of_bind (lift (check_entry dst limits h (suc files))) _ e u done' in
        let (fits, inside, small) = passed_checks dst limits h (suc files) v passed in
        let bound =
          ltb→ge limits.files (suc files)
            (sym (Int64.lt-eq-ltb limits.files (suc files) (omega arith) (omega arith)) ∙ fits) in
        rw (x, next)
          (
            inr (
              inside,
              contained-below (join_path dst h.name) dst env.cwd inside down,
              fits_of_not_large limits.max_entry h small,
            ),
            refl,
            bound,
          )
  ]

  accepted_loop :
      (events : List Event) (headers files : ℕ) (seen : SeenDirs) (e : Extraction) (s : SeenDirs)
      → files ≤ limits.files
      → (untar_loop env dst limits events headers files seen e).0 ≡ ok s
      → AcceptedEvents env.cwd dst limits events × (files + counted events ≤ limits.files)
  unfolding untar_loop counted
  accepted_loop [] headers files seen e s few done = (tt, omega arith)
  accepted_loop (bad x ∷ events) headers files seen e s few done = absurd (cc done)
  accepted_loop (entry h body ∷ events) headers files seen e s few done =
      let files' = count_after h files in
      let (u, first, rest) = ok_of_bind (handle_header env dst limits h body files') _ e s done in
      let (accepted, count, few') = handled h body files e u few first in
      let (all, sum) =
        accepted_loop events (headers + 1) files' (seen_after dst h seen) _ s few' rest in
      (
        (accepted, all),
        counted_le (is_extended h) files files' (counted events) limits.files count sum,
      )

  not_empty :
      (events : List Event) (e : Extraction) (s : SeenDirs)
      → (untar_loop env dst limits events 0 0 [] e).0 ≡ ok s
      → events ≢ []
  unfolding untar_loop
  not_empty [] e s done = absurd (cc done)
  not_empty (x ∷ events) e s done = cc

-- An archive that is extracted without an error has at least one entry and no broken header. For
-- every entry that is no extended header, the path passes the containment test and leads one or
-- more plain names below the destination, and the entry is a directory or declares a size, read as
-- an `int64`, within the limit on an entry; there are no more of these entries than the limit on
-- files. The limit on files is below `math.MaxInt64`, and the destination does not clean to a path
-- that ends in `..`.
pub untar-AcceptedEvents :
    (env : Env) (order : SeenDirs → SeenDirs) (dst : Text) (limits : Limits) (events : List Event)
    (w : World)
    → limits.files < max_int
    → ends_up dst ≡ false
    → (untar env order dst limits events w).0 ≡ ok tt
    → AcceptedEvents env.cwd dst limits events × (counted events ≤ limits.files) × (events ≢ [])
unfolding untar untar_body
untar-AcceptedEvents env order dst limits events w room down done =
    let start : Extraction = record { world = w; copied = 0 } in
    let (seen, looped, _) =
      ok_of_bind (untar_loop env dst limits events 0 0 []) (λ seen. adjust_dirs env (order seen))
        start tt done in
    let (all, few) =
      accepted_loop env dst limits room down events 0 0 [] start seen (omega arith) looped in
    (all, omega (arith, few), not_empty env dst limits room down events start seen looped)
