-- ===== src/Expand/Magic.antt =====
-- `IsCompressedFile` and `IsTarFile` of expand/expander.go.
use go_gather.Base.{
  ℕ, Bool, false, ◌||◌, Option, none, some, List, [], ◌∷◌, if◌then◌else◌, ltb, length, take,
}
use go_gather.Base.Text.{Text, codes, has_prefix, drop}
use go_gather.Exec.{Errno, Err, Result, ok, err, Exec, pure, wrapping, try, ◌>>=◌}
use go_gather.Os.{Bytes, World, Env, open_read, call}

-- `magicNumbers`. The code ranges over a map, in any order, for one that fits.
abbrev pub magic_numbers : List Bytes
magic_numbers =
    (0x1f ∷ 0x8b ∷ [])
    ∷ (0x50 ∷ 0x4b ∷ 0x03 ∷ 0x04 ∷ [])
    ∷ (0x42 ∷ 0x5a ∷ 0x68 ∷ [])
    ∷ (0xfd ∷ 0x37 ∷ 0x7a ∷ 0x58 ∷ 0x5a ∷ 0x00 ∷ [])
    ∷ (0x37 ∷ 0x7a ∷ 0xbc ∷ 0xaf ∷ 0x27 ∷ 0x1c ∷ [])
    ∷ []

unfoldable pub matches_magic : List Bytes → Bytes → Bool
unfolding has_prefix
matches_magic [] header = false
matches_magic (m ∷ ms) header = has_prefix header m || matches_magic ms header

-- `make([]byte, n)` with what `Read` puts there: the rest stays zero.
unfoldable pub read_into : ℕ → Bytes → Bytes
read_into ℕ.zero content = []
read_into (ℕ.suc n) [] = 0 ∷ read_into n []
read_into (ℕ.suc n) (b ∷ content) = b ∷ read_into n content

-- The verdict on what the file holds: `none` for a directory, whose read fails. A read that finds no
-- byte or fails counts as not compressed.
unfoldable pub compressed_content : Option Bytes → Bool
unfolding matches_magic read_into
compressed_content none = false
compressed_content (some []) = false
compressed_content (some (b ∷ content)) = matches_magic magic_numbers (read_into 10 (b ∷ content))

unfoldable pub tar_content : Option Bytes → Result Bool
unfolding drop has_prefix
tar_content none = err (Err.errno Errno.is_dir)
tar_content (some content) =
    let magic = take 6 (drop 257 content) in
    if ltb (length magic) 6 then ok false else ok (has_prefix magic (codes "ustar"))

abbrev pub or_false : Result Bool → Result Bool
or_false (ok b) = ok b
or_false (err e) = ok false

module _ (env : Env) where
  unfoldable pub is_compressed_file : Text → Exec World Bool
  unfolding wrapping open_read compressed_content ◌>>=◌ try call
  is_compressed_file path = do
    content ← wrapping "could not open file" (open_read env path)
    verdict ← try (call (pure (compressed_content content)))
    λ w. (or_false verdict, w)

  unfoldable pub is_tar_file : Text → Exec World Bool
  unfolding wrapping open_read tar_content ◌>>=◌ call
  is_tar_file path = do
    content ← wrapping "could not open file" (open_read env path)
    wrapping "could not read magic bytes" (call (λ w. (tar_content content, w)))
