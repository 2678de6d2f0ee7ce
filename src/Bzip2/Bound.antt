-- ===== src/Bzip2/Bound.antt =====
-- How much a bzip2 file puts on disk.
use go_gather.Base.{◌+◌, ◌≤◌, arith, Bool-cases, inl, inr, ltb→lt, ltb→ge, sym, ◌∙◌, List}
use go_gather.Base.Int64
use go_gather.Base.Int64.{max_int}
use go_gather.Base.Text.{Text}
use go_gather.Path.{locate}
use go_gather.Os.{World, Env}
use go_gather.Expand.Limits.{ExpandOptions, effective, effective-InRange}
use go_gather.Expand.Copy.{Stream, Extraction, buffer_length}
use go_gather.Expand.Copy.Bound.{Fits, written-copy_bounded}
use go_gather.Bzip2.{Decoder, limit_of, decode}

limit_of_le :
    (options : ExpandOptions)
    → (limit_of options ≤ (effective options).max_entry)
      × (limit_of options ≤ (effective options).max_total)
unfolding limit_of
limit_of_le options =
    let limits = effective options in
    let ((_, entry_small), (_, total_small), _) = effective-InRange options in
    let order = Int64.lt-eq-ltb limits.max_total limits.max_entry total_small entry_small in
    elim (Bool-cases (Int64.lt limits.max_total limits.max_entry)) [
      | inl less ↦
          rw less (
            omega (arith, ltb→lt limits.max_total limits.max_entry (sym order ∙ less)),
            omega arith,
          )
      | inr more ↦
          rw more (
            omega arith,
            omega (arith, ltb→ge limits.max_total limits.max_entry (sym order ∙ more)),
          )
    ]

-- Whatever the decoder delivers and whatever fails, decoding puts at most the limit on an entry and
-- at most the limit on the total on disk, where the smaller of them leaves room for a buffer below
-- `math.MaxInt64` and no read delivers more than the buffer.
pub written-decode :
    (env : Env) (decoder : Decoder) (names : List Text) (tmp : Text) (src : Stream)
    (options : ExpandOptions) (w : World)
    → limit_of options + buffer_length ≤ max_int
    → Fits src.reads
    → let after = (decode env decoder names tmp src (limit_of options) w).1 in
      (after.written ≤ w.written + (effective options).max_entry)
      × (after.written ≤ w.written + (effective options).max_total)
unfolding decode
written-decode env decoder names tmp src options w room fits =
    let start : Extraction = record { world = w; copied = 0 } in
    let bound =
      written-copy_bounded (limit_of options) (locate env.cwd tmp) src start room fits
        (omega arith) in
    let (entry_limit, total_limit) = limit_of_le options in
    (omega (arith, bound, entry_limit), omega (arith, bound, total_limit))
