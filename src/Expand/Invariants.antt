-- ===== src/Expand/Invariants.antt =====
-- Two invariants of every extraction: it stays below a directory, and within a budget of bytes.
use go_gather.Base.{
  ℕ, ◌+◌, ◌≤◌, ◌≡◌, refl, Bool, true, false, List, [], ◌∷◌, arith, Bool-cases, inl, inr, ◌==◌,
  length,
}
use go_gather.Base.Int64
use go_gather.Base.Int64.{max_int}
use go_gather.Path.{Loc, locate}
use go_gather.Exec.{errno, fault, Result, ok, err, Exec}
use go_gather.Exec.Keeps.{Keeps, After, Keeps-if, Keeps-pure, Keeps-raise, Keeps-bind}
use go_gather.Os.{Bytes, World, Env, Tree, under, write, stat, close}
use go_gather.Os.Confined.{
  Confined, Stays, Stays-stat, Stays-mkdir_all, Stays-open_trunc, Stays-write, Stays-close,
  Stays-chmod, Stays-chtimes,
}
use go_gather.Os.Written.{
  Written, Written-Steady, Calm, Calm-Steady, Calm-write, Quiet, Quiet-stat, Quiet-close,
  Quiet-mkdir_all, Quiet-open_trunc, Quiet-chmod, Quiet-chtimes,
}
use go_gather.Expand.Copy.{
  buffer_length, Extraction, on_disk, limit_write, write_read, copy_reads, copy_bounded,
}
use go_gather.Expand.Copy.Bound.{Fits, Counted, Bounded, copy_bounded-Counted}
use go_gather.Expand.Rules.{Rules}

-- An invariant of the disk alone.
module _ (I : World → Type 0) where
  abbrev OnDisk : Extraction → Type 0
  OnDisk e = I e.world

  abbrev StaysIn : {A : Type 0} → Exec Extraction A → Type 0
  StaysIn = Keeps OnDisk OnDisk

  After-OnDisk :
      {A : Type 0} (r : Result A) (w : World) (e : Extraction)
      → After I I r w
      → After OnDisk OnDisk r (record e { world = w })
  After-OnDisk (ok _) w e c = c
  After-OnDisk (err _) w e c = c

  StaysIn-on_disk : {A : Type 0} (m : Exec World A) → Keeps I I m → StaysIn (on_disk m)
  unfolding on_disk
  StaysIn-on_disk m k = record {
    at = λ e c. let (r, w) = m e.world in After-OnDisk r w e (k.at e.world c);
  }

  StaysIn-limit_write :
      (max : ℕ) (l : Loc) (p : Bytes) → Keeps I I (write l p) → StaysIn (limit_write max l p)
  unfolding limit_write
  StaysIn-limit_write max l p k = record {
    at = λ e c. elim (Bool-cases (Int64.lt max (Int64.add e.copied (length p)))) [
      | inl over ↦ rw over c
      | inr fits ↦ rw fits ((StaysIn-on_disk (write l p) k).at _ c)
    ];
  }

  StaysIn-copy_reads :
      (max : ℕ) (l : Loc) (reads : List Bytes) (broken : Bool)
      → ((p : Bytes) → Keeps I I (write l p))
      → StaysIn (copy_reads max l reads broken)
  unfolding copy_reads write_read
  StaysIn-copy_reads max l [] true k = Keeps-raise (λ _ c. c) (errno fault)
  StaysIn-copy_reads max l [] false k = Keeps-pure tt
  StaysIn-copy_reads max l (c ∷ cs) broken k =
      Keeps-bind _ _
        (Keeps-if (length c == 0) _ _ (λ _. Keeps-pure tt) (λ _. StaysIn-limit_write max l c (k c)))
        (λ _. StaysIn-copy_reads max l cs broken k)

module _ (root : Loc) (t : Tree) where
  abbrev pub ConfinedDisk : Extraction → Type 0
  ConfinedDisk e = Confined root t e.world

  In : {A : Type 0} (m : Exec World A) → Stays root t m → StaysIn (Confined root t) (on_disk m)
  In = StaysIn-on_disk (Confined root t)

  pub confined_rules :
      (env : Env) (max : ℕ)
      → Rules env max
          (λ p. under root (locate env.cwd p) ≡ true)
          (λ _. Unit)
          ConfinedDisk
          ConfinedDisk
  unfolding copy_bounded
  confined_rules env max = record {
    weaken = λ _ c. c;
    stat_keeps = λ p. In _ (Stays-stat root t env p);
    mkdir_keeps = λ p mode a. In _ (Stays-mkdir_all root t env p mode (inl a));
    open_keeps = λ p mode a. In _ (Stays-open_trunc root t env p mode a);
    copy_keeps = λ p r a _.
        StaysIn-copy_reads (Confined root t) max _ r.reads r.broken
          (λ b. Stays-write root t (locate env.cwd p) b a);
    close_keeps = In _ (Stays-close root t);
    close_after_error = In _ (Stays-close root t);
    chmod_keeps = λ p mode a. In _ (Stays-chmod root t env p mode a);
    chtimes_keeps = λ p x y a. In _ (Stays-chtimes root t env p x y a);
  }

abbrev pub CalmDisk : Extraction → Type 0
CalmDisk e = Calm e.world

Quietly : {A : Type 0} (m : Exec World A) → Keeps Calm Calm m → StaysIn Calm (on_disk m)
Quietly = StaysIn-on_disk Calm

-- Where nothing will fail, nothing will fail behind an extraction.
pub calm_rules :
    (env : Env) (max : ℕ) → Rules env max (λ _. Unit {0}) (λ _. Unit {0}) CalmDisk CalmDisk
unfolding copy_bounded
calm_rules env max = record {
  weaken = λ _ c. c;
  stat_keeps = λ p. Quietly _ (Quiet-stat Calm Calm-Steady env p);
  mkdir_keeps = λ p mode _. Quietly _ (Quiet-mkdir_all Calm Calm-Steady env p mode);
  open_keeps = λ p mode _. Quietly _ (Quiet-open_trunc Calm Calm-Steady env p mode);
  copy_keeps =
      λ p r _ _. StaysIn-copy_reads Calm max _ r.reads r.broken (Calm-write (locate env.cwd p));
  close_keeps = Quietly _ (Quiet-close Calm Calm-Steady);
  close_after_error = Quietly _ (Quiet-close Calm Calm-Steady);
  chmod_keeps = λ p mode _. Quietly _ (Quiet-chmod Calm Calm-Steady env p mode);
  chtimes_keeps = λ p x y _. Quietly _ (Quiet-chtimes Calm Calm-Steady env p x y);
}

pub Calm-of_After :
    {A : Type 0} (r : Result A) (e : Extraction) → After CalmDisk CalmDisk r e → Calm e.world
Calm-of_After (ok _) e c = c
Calm-of_After (err _) e c = c

pub Confined-of_After :
    {A : Type 0} (root : Loc) (t : Tree) (r : Result A) (e : Extraction)
    → After (ConfinedDisk root t) (ConfinedDisk root t) r e
    → Confined root t e.world
Confined-of_After root t (ok _) e c = c
Confined-of_After root t (err _) e c = c

-- An invariant of the two counts alone.
abbrev Stable : (Extraction → Type 0) → Type 0
Stable P =
    (e : Extraction) (w : World) → w.written ≡ e.world.written → P e → P (record e { world = w })

After-quiet :
    {A : Type 0} (P E : Extraction → Type 0)
    → Stable P
    → ((e : Extraction) → P e → E e)
    → (r : Result A) (w : World) (e : Extraction)
    → After (λ v. v.written ≡ e.world.written) (λ v. v.written ≡ e.world.written) r w
    → P e
    → After P E r (record e { world = w })
After-quiet P E stable weaken (ok _) w e q h = stable e w q h
After-quiet P E stable weaken (err _) w e q h = weaken _ (stable e w q h)

Keeps-Quiet :
    {A : Type 0} (P E : Extraction → Type 0)
    → Stable P
    → ((e : Extraction) → P e → E e)
    → (m : Exec World A) → ((n : ℕ) → Quiet (Written n) (Written-Steady n) m)
    → Keeps P E (on_disk m)
unfolding on_disk
Keeps-Quiet P E stable weaken m q = record {
  at = λ e h.
      After-quiet P E stable weaken (m e.world).0 (m e.world).1 e
        ((q e.world.written).at e.world refl) h;
}

module _ (start from max : ℕ) where
  Counted-Stable : Stable (Counted start from max)
  Counted-Stable e w q (h, k) = (h, omega arith)

  Bounded-Stable : Stable (Bounded start from max)
  Bounded-Stable e w q h = omega arith

  Bounded-of_Counted : (e : Extraction) → Counted start from max e → Bounded start from max e
  Bounded-of_Counted e h = omega arith

  Budgeted :
      {A : Type 0} (m : Exec World A)
      → ((n : ℕ) → Quiet (Written n) (Written-Steady n) m)
      → Keeps (Counted start from max) (Bounded start from max) (on_disk m)
  Budgeted =
      Keeps-Quiet (Counted start from max) (Bounded start from max) Counted-Stable
        Bounded-of_Counted

module _ (start from max : ℕ) (room : max + buffer_length ≤ max_int) where
  pub budget_rules :
      (env : Env)
      → Rules env max
          (λ _. Unit {0})
          (λ r. Fits r.reads)
          (Counted start from max)
          (Bounded start from max)
  budget_rules env = record {
    weaken = Bounded-of_Counted start from max;
    stat_keeps = λ p.
        Keeps-Quiet (Counted start from max) (Counted start from max)
          (Counted-Stable start from max) (λ _ h. h) (stat env p)
          (λ n. Quiet-stat (Written n) (Written-Steady n) env p);
    mkdir_keeps = λ p mode _.
        Budgeted start from max _ (λ n. Quiet-mkdir_all (Written n) (Written-Steady n) env p mode);
    open_keeps = λ p mode _.
        Budgeted start from max _ (λ n. Quiet-open_trunc (Written n) (Written-Steady n) env p mode);
    copy_keeps = λ p r _ fits. copy_bounded-Counted start from max room (locate env.cwd p) r fits;
    close_keeps = Budgeted start from max close (λ n. Quiet-close (Written n) (Written-Steady n));
    close_after_error =
        Keeps-Quiet (Bounded start from max) (Bounded start from max)
          (Bounded-Stable start from max) (λ _ h. h) close
          (λ n. Quiet-close (Written n) (Written-Steady n));
    chmod_keeps = λ p mode _.
        Budgeted start from max _ (λ n. Quiet-chmod (Written n) (Written-Steady n) env p mode);
    chtimes_keeps = λ p x y _.
        Budgeted start from max _ (λ n. Quiet-chtimes (Written n) (Written-Steady n) env p x y);
  }
