-- ===== src/Gather/Format.antt =====
-- `getExpander` of gather/file/file.go.
use go_gather.Base.{◌≡◌, All, Bool, Option, none, some, List, [], ◌∷◌, if◌then◌else◌}
use go_gather.Base.Text.{Text, codes, has_suffix}
use go_gather.Exec.{plain, Result, ok, err}
use go_gather.Expand.Registry.{get, All-get}

-- `orderedFormats`, with the extensions of a format behind its name.
abbrev pub ordered_formats : List (Text × List Text)
ordered_formats =
    (codes "tar", codes "tar" ∷ codes "tar.gz" ∷ codes "tgz" ∷ codes "tar.bz2" ∷ codes "tbz2" ∷ [])
    ∷ (codes "bzip2", codes "bz2" ∷ [])
    ∷ (codes "gzip", codes "gzip" ∷ codes "gz" ∷ [])
    ∷ (codes "zip", codes "zip" ∷ [])
    ∷ []

-- The inner loop.
unfoldable pub has_extension : Text → List Text → Bool
unfolding has_suffix
has_extension src [] = Bool.false
has_extension src (x ∷ xs) = if has_suffix src (b'.' ∷ x) then Bool.true else has_extension src xs

-- The format of the first extension that fits.
unfoldable pub format_of : Text → List (Text × List Text) → Option Text
unfolding has_extension
format_of src [] = none
format_of src ((format, extensions) ∷ rest) =
    if has_extension src extensions then some format else format_of src rest

module _ {E : Type 0} (matcher : E → Text → Bool) (registered : List E) where
  abbrev pub found : Option Text → Result (Option E)
  found (some format) = ok (get matcher registered format)
  found none = err (plain "compressed file found, but no expander available")

  -- `getExpander`. It returns nil without an error where no expander takes the format.
  unfoldable pub get_expander : Text → Result (Option E)
  unfolding get format_of
  get_expander src = found (format_of src ordered_formats)

  Q_of_found :
      (Q : E → Type 0) (o : Option Text) (e : E) → All Q registered → found o ≡ ok (some e) → Q e
  Q_of_found Q none e qs h = absurd (cc h)
  Q_of_found Q (some format) e qs h = All-get matcher Q registered format e qs (cc h)

  -- The expander that is returned is a registered one.
  pub All-get_expander :
      (Q : E → Type 0) (src : Text) (e : E)
      → All Q registered
      → get_expander src ≡ ok (some e)
      → Q e
  unfolding get_expander
  All-get_expander Q src e qs h = Q_of_found Q (format_of src ordered_formats) e qs h
