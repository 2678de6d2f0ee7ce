-- ===== src/Expand/Copy/Exact.antt =====
-- The bounded copy on a disk that does not fail: it succeeds exactly where the data fits.
use go_gather.Base.{
  ℕ, ◌+◌, ◌≤◌, ◌<◌, ◌≡◌, refl, ◌∙◌, ◌⊎◌, Bool, true, false, not, ◌&&◌, Option, List, [], ◌∷◌, arith,
  ◌==◌, Bool-cases, inl, inr, length, length-append, ltb, leb,
}
use go_gather.Base.Int64.{max_int, lt-eq-ltb, add-eq-sum}
use go_gather.Path.{Loc}
use go_gather.Exec.{Result, ok, err, Exec, continue, ◌>>=◌, is_ok}
use go_gather.Os.{Bytes, World, due, next_due, write_step, write}
use go_gather.Expand.Copy.{
  Stream, Extraction, concat, limit_write, write_read, copy_reads, copy_bounded,
}

abbrev Calm : Extraction → Type 0
Calm e = e.world.faults ≡ []

abbrev Wrote : Result (Unit {0}) × World → Type 0
Wrote (r, w) = (r ≡ ok tt) × (w.faults ≡ [])

Wrote-of_next :
    (l : Loc) (b : Bytes) (fs : List (Option ℕ)) (w : World)
    → fs ≡ []
    → w.faults ≡ []
    → Wrote (write_step l b (next_due fs w).0 (next_due fs w).1)
unfolding next_due write_step
Wrote-of_next l b [] w e h = (refl, h)
Wrote-of_next l b (f ∷ fs) w e h = absurd (cc e)

write_calm : (l : Loc) (b : Bytes) (w : World) → w.faults ≡ [] → Wrote (write l b w)
unfolding write due
write_calm l b w h = Wrote-of_next l b w.faults w h h

module _ (max : ℕ) (l : Loc) (small : max ≤ max_int) where
  -- A read is taken where it fits, and refused where it does not.
  abbrev Taken : Bytes → Extraction → Result (Unit {0}) → Extraction → Type 0
  Taken c e r e' =
      ((e.copied + length c ≤ max) × (r ≡ ok tt) × (e'.copied ≡ e.copied + length c) × Calm e')
      ⊎ ((max < e.copied + length c) × (is_ok r ≡ false))

  limit_write-Taken :
      (c : Bytes) (e : Extraction)
      → Calm e
      → e.copied + length c ≤ max_int
      → Taken c e (limit_write max l c e).0 (limit_write max l c e).1
  unfolding limit_write
  limit_write-Taken c e calm k =
      rw (add-eq-sum e.copied (length c) (omega arith), lt-eq-ltb max (e.copied + length c) small k)
        (elim (Bool-cases (ltb max (e.copied + length c))) [
          | inl over ↦ rw over (inr (ground arith, refl))
          | inr fits ↦
              let (done, calm') = write_calm l c e.world calm in
              rw fits (inl (ground arith, done, refl, calm'))
        ])

  write_read-Taken :
      (c : Bytes) (e : Extraction)
      → Calm e
      → e.copied ≤ max
      → e.copied + length c ≤ max_int
      → Taken c e (write_read max l c e).0 (write_read max l c e).1
  unfolding write_read
  write_read-Taken [] e calm h k = inl (omega arith, refl, omega arith, calm)
  write_read-Taken (x ∷ c) e calm h k = elim (Bool-cases (length (x ∷ c) == 0)) [
    | inl none_read ↦ absurd (ground arith)
    | inr more ↦ rw more (limit_write-Taken (x ∷ c) e calm k)
  ]

  is_ok-continue :
      (r : Result (Unit {0})) (m : Exec Extraction (Unit {0})) (e : Extraction)
      → is_ok (continue r (λ _. m) e).0 ≡ (is_ok r && is_ok (m e).0)
  is_ok-continue (ok tt) m e = refl
  is_ok-continue (err x) m e = refl

  -- Copying succeeds just where the limit is kept and the source does not break off.
  copy_reads-Calm :
      (reads : List Bytes) (broken : Bool) (e : Extraction)
      → Calm e
      → e.copied ≤ max
      → e.copied + length (concat reads) ≤ max_int
      → is_ok (copy_reads max l reads broken e).0
        ≡ (leb (e.copied + length (concat reads)) max && not broken)
  unfolding copy_reads concat ◌>>=◌
  copy_reads-Calm [] true e calm h k = ground arith
  copy_reads-Calm [] false e calm h k = ground arith
  copy_reads-Calm (c ∷ cs) broken e calm h k =
      let r = (write_read max l c e).0 in
      let e' = (write_read max l c e).1 in
      let sizes = length-append {0} c (concat cs) in
      is_ok-continue r (copy_reads max l cs broken) e'
      ∙ elim (write_read-Taken c e calm h (omega (arith, sizes))) [
        | inr (over, failed) ↦ rw failed (ground (arith, sizes))
        | inl (fits, done, total, calm') ↦
            let rest = copy_reads-Calm cs broken e' calm' (omega arith) (omega (arith, sizes)) in
            rw done (rest ∙ ground (arith, sizes))
      ]

-- On a disk where nothing fails, `CopyBounded` returns no error exactly where the total stays
-- within the limit and the source does not break off; the total and the limit are below
-- `math.MaxInt64`.
pub is_ok-copy_bounded :
    (max : ℕ) (l : Loc) (src : Stream) (e : Extraction)
    → max ≤ max_int
    → e.world.faults ≡ []
    → e.copied ≤ max
    → e.copied + length (concat src.reads) ≤ max_int
    → is_ok (copy_bounded max l src e).0
      ≡ (leb (e.copied + length (concat src.reads)) max && not src.broken)
unfolding copy_bounded
is_ok-copy_bounded max l src e small calm h k =
    copy_reads-Calm max l small src.reads src.broken e calm h k
