-- ===== src/Expand/Copy/Bound.antt =====
-- The bytes that the bounded copy puts on disk.
use go_gather.Base.{
  ℕ, ◌+◌, ◌≤◌, ◌≡◌, refl, Bool, true, false, Option, none, some, List, [], ◌∷◌, arith, ◌==◌, All,
  Bool-cases, inl, inr, length, length-take-le, ltb, ltb→ge,
}
use go_gather.Base.Int64
use go_gather.Base.Int64.{max_int, lt-eq-ltb, add-eq-sum}
use go_gather.Path.{Loc}
use go_gather.Exec.{fault, errno, Result, ok, err, pure}
use go_gather.Exec.Keeps.{Keeps, After, After-both, Keeps-bind, Keeps-pure, Keeps-raise, Keeps-if}
use go_gather.Os.{Bytes, World, next_due, due, write_step, write}
use go_gather.Expand.Copy.{
  buffer_length, Stream, Extraction, limit_write, write_read, copy_reads, copy_bounded,
}

written-next_due : (fs : List (Option ℕ)) (w : World) → (next_due fs w).1.written ≡ w.written
unfolding next_due
written-next_due [] w = refl
written-next_due (f ∷ fs) w = refl

written-write_step :
    (l : Loc) (b : Bytes) (f : Option ℕ) (w : World)
    → (write_step l b f w).1.written ≤ w.written + length b
unfolding write_step
written-write_step l b none w = omega arith
written-write_step l b (some k) w = omega (arith, length-take-le {0} k b)

-- A write call puts at most its bytes on disk, also where it fails.
pub written-write :
    (l : Loc) (b : Bytes) (w : World) → (write l b w).1.written ≤ w.written + length b
unfolding write due
written-write l b w =
    let (f, w') = next_due w.faults w in
    omega (arith, written-next_due w.faults w, written-write_step l b f w')

-- Each read fits the buffer.
abbrev pub Fits : List Bytes → Type 0
Fits = All (λ c. length c ≤ buffer_length)

module _ (start from max : ℕ) where
  -- The total has not passed the limit, and counts all that was written since
  -- `start` bytes were on disk and the total was `from`.
  abbrev pub Counted : Extraction → Type 0
  Counted e = (e.copied ≤ max) × (e.world.written + from ≤ start + e.copied)

  -- What holds after an error too.
  abbrev pub Bounded : Extraction → Type 0
  Bounded e = e.world.written + from ≤ start + max

  Bounded-of_Counted : (e : Extraction) → Counted e → Bounded e
  Bounded-of_Counted e h = omega arith

module _ (start from max : ℕ) (room : max + buffer_length ≤ max_int) where
  abbrev Pre : Extraction → Type 0
  Pre = Counted start from max

  abbrev Post : Extraction → Type 0
  Post = Bounded start from max

  limit_write-Counted :
      (l : Loc) (c : Bytes) → length c ≤ buffer_length → Keeps Pre Post (limit_write max l c)
  unfolding limit_write
  limit_write-Counted l c fits = record {
    at = λ e (small, counted).
        let total : Int64.add e.copied (length c) ≡ e.copied + length c =
          add-eq-sum e.copied (length c) (omega arith) in
        rw (total, lt-eq-ltb max (e.copied + length c) (omega arith) (omega arith))
          (elim (Bool-cases (ltb max (e.copied + length c))) [
            | inl over ↦ rw over (omega arith)
            | inr fits_in ↦ rw fits_in (
                After-both Pre Post (write l c e.world).0
                  (record { world = (write l c e.world).1; copied = e.copied + length c })
                  (λ h. omega arith)
                  (omega (arith, ltb→ge max _ fits_in), omega (arith, written-write l c e.world)))
          ]);
  }

  write_read-Counted :
      (l : Loc) (c : Bytes) → length c ≤ buffer_length → Keeps Pre Post (write_read max l c)
  unfolding write_read
  write_read-Counted l c fits =
      Keeps-if (length c == 0) (pure tt) (limit_write max l c) (λ _. Keeps-pure tt)
        (λ _. limit_write-Counted l c fits)

  copy_reads-Counted :
      (l : Loc) (reads : List Bytes) (broken : Bool)
      → Fits reads
      → Keeps Pre Post (copy_reads max l reads broken)
  unfolding copy_reads
  copy_reads-Counted l [] true h = Keeps-raise (Bounded-of_Counted start from max) (errno fault)
  copy_reads-Counted l [] false h = Keeps-pure tt
  copy_reads-Counted l (c ∷ cs) broken (h, hs) =
      Keeps-bind (write_read max l c) (λ _. copy_reads max l cs broken) (write_read-Counted l c h)
        (λ _. copy_reads-Counted l cs broken hs)

  pub copy_bounded-Counted :
      (l : Loc) (src : Stream)
      → Fits src.reads
      → Keeps (Counted start from max) (Bounded start from max) (copy_bounded max l src)
  unfolding copy_bounded
  copy_bounded-Counted l src h = copy_reads-Counted l src.reads src.broken h

pub Bounded-of_After :
    {A : Type 0} (start from max : ℕ) (r : Result A) (e : Extraction)
    → After (Counted start from max) (Bounded start from max) r e
    → e.world.written + from ≤ start + max
Bounded-of_After start from max (ok a) e h = omega arith
Bounded-of_After start from max (err x) e h = h

-- Whatever is read and whatever fails, the bounded copy puts at most `max - *copied` bytes on disk,
-- where the total has not passed the limit before, the limit leaves room for a buffer below
-- `math.MaxInt64`, and no read delivers more than the buffer holds.
pub written-copy_bounded :
    (max : ℕ) (l : Loc) (src : Stream) (e : Extraction)
    → max + buffer_length ≤ max_int
    → Fits src.reads
    → e.copied ≤ max
    → (copy_bounded max l src e).1.world.written + e.copied ≤ e.world.written + max
written-copy_bounded max l src e room fits small =
    let start = e.world.written in
    let from = e.copied in
    Bounded-of_After start from max (copy_bounded max l src e).0 (copy_bounded max l src e).1
      ((copy_bounded-Counted start from max room l src fits).at e (small, omega arith))
