-- ===== src/Expand/Copy/Content.antt =====
-- What a bounded copy that returns no error has written.
use mathlib.Core.List.{append-nil, append_assoc}
use go_gather.Base.{
  ℕ, ◌≡◌, sym, ap, ◌∙◌, Bool, true, false, Option, none, some, List, [], ◌∷◌, ◌++◌, arith, ◌==◌,
  Bool-cases, inl, inr, length,
}
use go_gather.Base.Int64
use go_gather.Path.{Loc}
use go_gather.Exec.{Result, ok, err, Exec, continue, ◌>>=◌, is_ok}
use go_gather.Os.{Bytes, Attr, file, World, update, next_due, due, write_step, write, append_at}
use go_gather.Os.Places.{loc_eq_refl}
use go_gather.Expand.Copy.{
  Stream, Extraction, concat, limit_write, write_read, copy_reads, copy_bounded,
}

-- The open file at `l` holds `c`.
abbrev pub Holds : Loc → Attr → Bytes → World → Type 0
Holds l a c w = w.tree l ≡ some (file a c)

-- Where the code returns, the file holds `c`.
abbrev pub HoldsAfter : {A : Type 0} → Loc → Attr → Bytes → Result A → World → Type 0
HoldsAfter l a c (ok _) w = Holds l a c w
HoldsAfter l a c (err _) w = Unit

Holds-next_due :
    (l : Loc) (a : Attr) (c : Bytes) (fs : List (Option ℕ)) (w : World)
    → Holds l a c w
    → Holds l a c (next_due fs w).1
unfolding next_due
Holds-next_due l a c [] w h = h
Holds-next_due l a c (f ∷ fs) w h = h

HoldsAfter-write_step :
    (l : Loc) (a : Attr) (c b : Bytes) (f : Option ℕ) (w : World)
    → Holds l a c w
    → HoldsAfter l a (c ++ b) (write_step l b f w).0 (write_step l b f w).1
unfolding write_step append_at update
HoldsAfter-write_step l a c b none w h = rw (loc_eq_refl l, h)
HoldsAfter-write_step l a c b (some k) w h = tt

HoldsAfter-write :
    (l : Loc) (a : Attr) (c b : Bytes) (w : World)
    → Holds l a c w
    → HoldsAfter l a (c ++ b) (write l b w).0 (write l b w).1
unfolding write due
HoldsAfter-write l a c b w h =
    let (f, w') = next_due w.faults w in
    HoldsAfter-write_step l a c b f w' (Holds-next_due l a c w.faults w h)

HoldsAfter-limit_write :
    (max : ℕ) (l : Loc) (a : Attr) (c b : Bytes) (e : Extraction)
    → Holds l a c e.world
    → HoldsAfter l a (c ++ b) (limit_write max l b e).0 (limit_write max l b e).1.world
unfolding limit_write
HoldsAfter-limit_write max l a c b e h =
    elim (Bool-cases (Int64.lt max (Int64.add e.copied (length b)))) [
      | inl over ↦ rw over tt
      | inr fits ↦ rw fits (HoldsAfter-write l a c b e.world h)
    ]

HoldsAfter-write_read :
    (max : ℕ) (l : Loc) (a : Attr) (c b : Bytes) (e : Extraction)
    → Holds l a c e.world
    → HoldsAfter l a (c ++ b) (write_read max l b e).0 (write_read max l b e).1.world
unfolding write_read
HoldsAfter-write_read max l a c [] e h = h ∙ ap (λ x. some (file a x)) (sym (append-nil c))
HoldsAfter-write_read max l a c (x ∷ b) e h = elim (Bool-cases (length (x ∷ b) == 0)) [
  | inl none_read ↦ absurd (ground arith)
  | inr more ↦ rw more (HoldsAfter-limit_write max l a c (x ∷ b) e h)
]

module _ (max : ℕ) (l : Loc) (a : Attr) where
  HoldsAfter-continue :
      (c b : Bytes) (r : Result (Unit {0})) (next : Unit {0} → Exec Extraction (Unit {0}))
      (e : Extraction)
      → ((e : Extraction)
          → Holds l a c e.world
          → HoldsAfter l a b (next tt e).0 (next tt e).1.world)
      → HoldsAfter l a c r e.world
      → HoldsAfter l a b (continue r next e).0 (continue r next e).1.world
  HoldsAfter-continue c b (ok tt) next e k h = k e h
  HoldsAfter-continue c b (err x) next e k h = tt

  HoldsAfter-copy_reads :
      (c : Bytes) (reads : List Bytes) (broken : Bool) (e : Extraction)
      → Holds l a c e.world
      → HoldsAfter l a
          (c ++ concat reads)
          (copy_reads max l reads broken e).0
          (copy_reads max l reads broken e).1.world
  unfolding copy_reads concat ◌>>=◌
  HoldsAfter-copy_reads c [] true e h = tt
  HoldsAfter-copy_reads c [] false e h = h ∙ ap (λ x. some (file a x)) (sym (append-nil c))
  HoldsAfter-copy_reads c (b ∷ reads) broken e h = rw (← append_assoc c b (concat reads)) (
      HoldsAfter-continue (c ++ b) ((c ++ b) ++ concat reads) (write_read max l b e).0
        (λ _. copy_reads max l reads broken) (write_read max l b e).1
        (λ e' h'. HoldsAfter-copy_reads (c ++ b) reads broken e' h')
        (HoldsAfter-write_read max l a c b e h))

ok_of_HoldsAfter :
    {A : Type 0} (l : Loc) (a : Attr) (c : Bytes) (r : Result A) (w : World)
    → is_ok r ≡ true
    → HoldsAfter l a c r w
    → w.tree l ≡ some (file a c)
ok_of_HoldsAfter l a c (ok _) w _ h = h
ok_of_HoldsAfter l a c (err _) w e h = cc

-- Where the bounded copy returns no error, all that the source delivers stands behind what the
-- open file held, under any failures that the environment had in store.
pub copy_bounded-content :
    (max : ℕ) (l : Loc) (src : Stream) (e : Extraction) (a : Attr) (c : Bytes)
    → e.world.tree l ≡ some (file a c)
    → is_ok (copy_bounded max l src e).0 ≡ true
    → (copy_bounded max l src e).1.world.tree l ≡ some (file a (c ++ concat src.reads))
unfolding copy_bounded
copy_bounded-content max l src e a c h done =
    ok_of_HoldsAfter l a (c ++ concat src.reads) (copy_bounded max l src e).0
      (copy_bounded max l src e).1.world done
      (HoldsAfter-copy_reads max l a c src.reads src.broken e h)
