-- ===== src/Bzip2/Kept.antt =====
-- A decompression that fails loses nothing.
use go_gather.Base.{
  ℕ, ◌≡◌, Bool, true, false, none, List, [], ◌∷◌, length, ◌==◌, Bool-cases, inl, inr,
}
use go_gather.Base.Int64
use go_gather.Base.Text.{Text}
use go_gather.Path.{Loc, locate}
use go_gather.Exec.{Result, ok, err, Exec}
use go_gather.Exec.Leads.{
  AfterValue, Leads, Leads-pure, Leads-raise, Leads-if, Leads-wrapping, Leads-bind, Leads-fact,
}
use go_gather.Os.{Bytes, Tree, World, Env, write}
use go_gather.Os.Intact.{Intact, IntactBut, Spares}
use go_gather.Os.Intact.Calls.{
  Spares-open_read, Spares-close, Spares-write, Spares-mkdir_all, Spares-chmod,
}
use go_gather.Os.Intact.Replaced.{Leads-create_temp, Leads-rename, Leads-or_abandon}
use go_gather.Expand.Limits.{ExpandOptions}
use go_gather.Expand.Copy.{
  Stream, Extraction, limit_write, write_read, copy_reads, copy_bounded, on_disk,
}
use go_gather.Bzip2.{Decoder, decode, fill, output_path, limit_of, expand_at}

module _ (t : Tree) where
  abbrev IntactDisk : Extraction → Type 0
  IntactDisk e = Intact t e.world

  abbrev SparesDisk : Exec Extraction (Unit {0}) → Type 0
  SparesDisk = Leads IntactDisk (λ _. IntactDisk) IntactDisk

  AfterValue-on_disk :
      (r : Result (Unit {0})) (w : World) (copied : ℕ)
      → AfterValue (λ _. Intact t) (Intact t) r w
      → AfterValue (λ _. IntactDisk) IntactDisk r (record { world = w; copied = copied })
  AfterValue-on_disk (ok _) w copied h = h
  AfterValue-on_disk (err _) w copied h = h

  Spares-limit_write :
      (max : ℕ) (l : Loc) (b : Bytes) → t l ≡ none → SparesDisk (limit_write max l b)
  unfolding limit_write on_disk
  Spares-limit_write max l b free = record {
    at = λ e i. elim (Bool-cases (Int64.lt max (Int64.add e.copied (length b)))) [
      | inl over ↦ rw over i
      | inr fits ↦ rw fits (
          let r = write l b e.world in
          AfterValue-on_disk r.0 r.1 (Int64.add e.copied (length b))
            ((Spares-write t l b free).at e.world i))
    ];
  }

  Spares-copy_reads :
      (max : ℕ) (l : Loc) (reads : List Bytes) (broken : Bool)
      → t l ≡ none
      → SparesDisk (copy_reads max l reads broken)
  unfolding copy_reads write_read
  Spares-copy_reads max l [] true free = Leads-raise _ (λ _ i. i)
  Spares-copy_reads max l [] false free = Leads-pure tt (λ _ i. i)
  Spares-copy_reads max l (c ∷ cs) broken free =
      Leads-bind _ _
        (Leads-if (length c == 0) _ _ (Leads-pure tt (λ _ i. i)) (Spares-limit_write max l c free))
        (λ _. Spares-copy_reads max l cs broken free)

  AfterValue-world :
      (r : Result (Unit {0})) (e : Extraction)
      → AfterValue (λ _. IntactDisk) IntactDisk r e
      → AfterValue (λ _. Intact t) (Intact t) r e.world
  AfterValue-world (ok _) e h = h
  AfterValue-world (err _) e h = h

  module _ (env : Env) (decoder : Decoder) (names : List Text) where
    Spares-decode :
        (tmp : Text) (src : Stream) (limit : ℕ)
        → t (locate env.cwd tmp) ≡ none
        → Spares t (decode env decoder names tmp src limit)
    unfolding decode copy_bounded
    Spares-decode tmp src limit free = record {
      at = λ w i.
          let r =
            copy_reads limit (locate env.cwd tmp) src.reads src.broken
              (record { world = w; copied = 0 }) in
          AfterValue-world r.0 r.1 (
            (Spares-copy_reads limit (locate env.cwd tmp) src.reads src.broken free).at
              (record { world = w; copied = 0 }) i);
    }

    Leads-fill :
        (tmp path : Text) (src : Stream) (limit : ℕ)
        → t (locate env.cwd tmp) ≡ none
        → Leads
            (Intact t)
            (λ _. IntactBut t (locate env.cwd path))
            (Intact t)
            (fill env decoder names tmp path src limit)
    unfolding fill
    Leads-fill tmp path src limit free =
        Leads-bind _ _
          (Leads-or_abandon t env tmp true _ free
            (Leads-wrapping "failed to decompress bzip2 file" _ (Spares-decode tmp src limit free)))
          (λ _. Leads-or_abandon t env tmp false _ free (
            Leads-bind _ _
              (Leads-bind _ _ (Leads-wrapping "failed to close temporary file" _ (Spares-close t))
                (λ _.
                  Leads-wrapping "failed to set output file mode" _
                    (Spares-chmod t env tmp 0o644 free)))
              (λ _.
                Leads-wrapping "failed to move decompressed file into place" _
                  (Leads-rename t env tmp path free))))

    Leads-expand_at :
        (options : ExpandOptions) (src dst : Text) (umask : ℕ)
        → Leads
            (Intact t)
            (λ _. IntactBut t (locate env.cwd (output_path env decoder names src dst)))
            (Intact t)
            (expand_at env decoder names options src dst umask)
    unfolding expand_at
    Leads-expand_at options src dst umask =
        Leads-bind _ _ (Leads-wrapping _ _ (Spares-open_read t env src)) (λ content.
          Leads-bind _ _ (Leads-wrapping _ _ (Spares-mkdir_all t env dst umask)) (λ _.
            Leads-bind _ _ (Leads-wrapping _ _ (Leads-create_temp t env dst names)) (λ tmp.
              Leads-fact (t (locate env.cwd tmp) ≡ none) _ (λ free.
                Leads-fill tmp (output_path env decoder names src dst) (decoder content)
                  (limit_of options) free))))

-- Whatever the decoder delivers and whichever calls fail: where the body of `expand` returns an
-- error, every file and directory that was there is there as it was; where it returns, so is every
-- one but what was at the path of the output.
pub expand_at-Intact :
    (env : Env) (decoder : Decoder) (names : List Text) (options : ExpandOptions) (src dst : Text)
    (umask : ℕ) (w : World)
    → AfterValue
        (λ _. IntactBut w.tree (locate env.cwd (output_path env decoder names src dst)))
        (Intact w.tree)
        (expand_at env decoder names options src dst umask w).0
        (expand_at env decoder names options src dst umask w).1
expand_at-Intact env decoder names options src dst umask w =
    (Leads-expand_at w.tree env decoder names options src dst umask).at w
      (record { kept = λ l n h. h })
