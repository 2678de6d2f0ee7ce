-- ===== src/Expand/Limits.antt =====
-- `ExpandOptions` of expand/expander.go and the limits that an expander enforces. Every number is
-- the bit pattern of an `int64` or an `int`.
use go_gather.Base.{
  ℕ, ◌*◌, ◌≤◌, ◌<◌, ◌≡◌, ◌⊎◌, refl, Option, none, some, List, [], ◌∷◌, ◌++◌, arith, ◌==◌,
  if◌then◌else◌,
}
use go_gather.Base.Int64
use go_gather.Base.Int64.{max_int, word}

abbrev pub default_max_entry_size : ℕ
default_max_entry_size = 500 * 1024 * 1024

abbrev pub default_max_total_size : ℕ
default_max_total_size = 1024 * 1024 * 1024

abbrev pub default_files_limit : ℕ
default_files_limit = 10000

pub record ExpandOptions : Type 0 where
  pub max_entry_size : ℕ
  pub max_total_size : ℕ
  pub files_limit : ℕ

-- `Option`, the function that overrides a field.
abbrev pub Override : Type 0
Override = ExpandOptions → ExpandOptions

unfoldable pub with_max_entry_size : ℕ → Override
with_max_entry_size n o = record o { max_entry_size = n }

unfoldable pub with_max_total_size : ℕ → Override
with_max_total_size n o = record o { max_total_size = n }

unfoldable pub with_files_limit : ℕ → Override
with_files_limit n o = record o { files_limit = n }

unfoldable pub default_expand_options : ExpandOptions
default_expand_options = record {
  max_entry_size = default_max_entry_size;
  max_total_size = default_max_total_size;
  files_limit = default_files_limit;
}

-- The loop of `ResolveOptions`; a nil option is `none`.
apply_options : ExpandOptions → List (Option Override) → ExpandOptions
apply_options o [] = o
apply_options o (none ∷ opts) = apply_options o opts
apply_options o (some f ∷ opts) = apply_options (f o) opts

unfoldable pub resolve_options : List (Option Override) → ExpandOptions
unfolding apply_options default_expand_options
resolve_options opts = apply_options default_expand_options opts

-- `effectiveSize`
unfoldable pub effective_size : ℕ → ℕ → ℕ
unfolding Int64.is_neg
effective_size v def = if Int64.is_neg v then max_int else if v == 0 then def else v

-- `effectiveCount`; an `int` has 64 bits too.
unfoldable pub effective_count : ℕ → ℕ → ℕ
unfolding Int64.is_neg
effective_count v def = if Int64.is_neg v then max_int else if v == 0 then def else v

pub record Limits : Type 0 where
  pub max_entry : ℕ
  pub max_total : ℕ
  pub files : ℕ

-- `Effective`
unfoldable pub effective : ExpandOptions → Limits
unfolding effective_size effective_count
effective o = record {
  max_entry = effective_size o.max_entry_size default_max_entry_size;
  max_total = effective_size o.max_total_size default_max_total_size;
  files = effective_count o.files_limit default_files_limit;
}

-- Every effective limit is a positive number of its type, so no expander is without a bound.
abbrev InRange : ℕ → Type 0
InRange v = (0 < v) × (v ≤ max_int)

pub effective-InRange :
    (o : ExpandOptions)
    → InRange (effective o).max_entry
      × InRange (effective o).max_total
      × InRange (effective o).files
unfolding effective
effective-InRange o = (ground arith, ground arith, ground arith)

-- The options with every limit at zero resolve to the same limits as the defaults.
abbrev zero_options : ExpandOptions
zero_options = record { max_entry_size = 0; max_total_size = 0; files_limit = 0 }

pub effective_zero_default : effective zero_options ≡ effective (resolve_options [])
unfolding effective resolve_options
effective_zero_default = refl

-- The options after a list of them: the last override of a field decides it.
apply_options-append :
    (o : ExpandOptions) (fs gs : List (Option Override))
    → apply_options o (fs ++ gs) ≡ apply_options (apply_options o fs) gs
unfolding apply_options
apply_options-append o [] gs = refl
apply_options-append o (none ∷ fs) gs = apply_options-append o fs gs
apply_options-append o (some f ∷ fs) gs = apply_options-append (f o) fs gs

-- `v` is what a configured value `n` means: the default where it is zero, `math.MaxInt64` where
-- the pattern is negative, and the value itself where it is positive.
abbrev pub Means : ℕ → ℕ → ℕ → Type 0
Means n def v =
    ((n ≡ 0) × (v ≡ def)) ⊎ ((max_int < n) × (v ≡ max_int)) ⊎ ((0 < n) × (n ≤ max_int) × (v ≡ n))

effective_size-Means : (n def : ℕ) → n < word → Means n def (effective_size n def)
unfolding effective_size
effective_size-Means n def h = ground arith

-- With a total limit given last, whatever comes before it, the total limit that an expander enforces
-- is the given number if that is positive, the default of 1 GiB if it is zero, and `math.MaxInt64`
-- if it is negative, that is if its pattern is above that; the limit on an entry and the limit on
-- files are those of the options before. The number is a pattern of 64 bits.
pub resolve_options-max_total :
    (opts : List (Option Override)) (n : ℕ)
    → n < word
    → let before = effective (resolve_options opts) in
      let after = effective (resolve_options (opts ++ (some (with_max_total_size n) ∷ []))) in
      Means n (1024 * 1024 * 1024) after.max_total
      × (after.max_entry ≡ before.max_entry)
      × (after.files ≡ before.files)
unfolding resolve_options effective
resolve_options-max_total opts n h =
    rw (apply_options-append default_expand_options opts (some (with_max_total_size n) ∷ [])) (
      unfold apply_options with_max_total_size in
      (effective_size-Means n default_max_total_size h, refl, refl))
