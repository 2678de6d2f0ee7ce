-- ===== src/Expand/Copy.antt =====
-- `limitWriter` and `CopyBounded` of expand/expander.go, and the copy loop of `io.CopyBuffer`.
pub mod Bound
pub mod Content
pub mod Exact
use go_gather.Base.{
  ℕ, ◌+◌, ◌*◌, Bool, true, false, List, [], ◌∷◌, ◌++◌, if◌then◌else◌, ◌==◌, length,
}
use go_gather.Base.Int64
use go_gather.Path.{Loc}
use go_gather.Exec.{fault, Err, errno, plain, Result, ok, err, Exec, pure, raise, ◌>>=◌, ◌>>◌}
use go_gather.Os.{Bytes, World, write, close}

-- The length of the scratch buffer that the expanders share: no read delivers more at once.
abbrev pub buffer_length : ℕ
buffer_length = 32 * 1024

-- What is left to read from an `io.Reader`: the chunks that successive calls of `Read` deliver, and
-- whether an error or the end of the data comes behind them.
pub record Stream : Type 0 where
  pub reads : List Bytes
  pub broken : Bool

unfoldable pub concat : List Bytes → Bytes
concat [] = []
concat (c ∷ cs) = c ++ concat cs

-- The disk, with the running total that `*copied` points to.
pub record Extraction : Type 0 where
  pub world : World
  pub copied : ℕ

unfoldable pub on_disk : {A : Type 0} → Exec World A → Exec Extraction A
on_disk m e = let (r, w) = m e.world in (r, record e { world = w })

-- A `defer` that closes the file, and returns the error of `Close` where there is none yet.
unfoldable pub close_after : Result (Unit {0}) → Exec Extraction (Unit {0})
unfolding close on_disk
close_after (ok _) e = on_disk close e
close_after (err x) e = (err x, (on_disk close e).1)

unfoldable pub deferring_close : Exec Extraction (Unit {0}) → Exec Extraction (Unit {0})
unfolding close_after
deferring_close m e = let (r, e') = m e in close_after r e'

-- `limitWriter.Write` on the open file at a place.
unfoldable pub limit_write : ℕ → Loc → Bytes → Exec Extraction (Unit {0})
unfolding on_disk
limit_write max l p e =
    let e' = record e { copied = Int64.add e.copied (length p) } in
    if Int64.lt max e'.copied
    then (err (plain "extracted data exceeds size limit of %d bytes"), e')
    else on_disk (write l p) e'

-- A read of no bytes is not written.
unfoldable pub write_read : ℕ → Loc → Bytes → Exec Extraction (Unit {0})
unfolding limit_write
write_read max l c = if length c == 0 then pure tt else limit_write max l c

unfoldable pub copy_reads : ℕ → Loc → List Bytes → Bool → Exec Extraction (Unit {0})
unfolding write_read ◌>>=◌
copy_reads max l [] true = raise (errno fault)
copy_reads max l [] false = pure tt
copy_reads max l (c ∷ cs) broken = write_read max l c >> copy_reads max l cs broken

-- `CopyBounded`
unfoldable pub copy_bounded : ℕ → Loc → Stream → Exec Extraction (Unit {0})
unfolding copy_reads
copy_bounded max l src = copy_reads max l src.reads src.broken
