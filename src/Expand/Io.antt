-- ===== src/Expand/Io.antt =====
-- `io.LimitReader` and `io.Copy`, for streams and open files.
use go_gather.Base.{ℕ, ◌-◌, ◌==◌, Bool, true, false, List, [], ◌∷◌, if◌then◌else◌, length, take}
use go_gather.Path.{Loc}
use go_gather.Exec.{fault, errno, Exec, pure, raise, ◌>>=◌, ◌>>◌}
use go_gather.Os.{Bytes, World, write}
use go_gather.Expand.Copy.{Stream}

-- `io.LimitReader`: behind so many bytes comes the end of the data.
unfoldable pub limited : ℕ → List Bytes → Bool → Stream
limited ℕ.zero reads broken = record { reads = []; broken = false }
limited (ℕ.suc n) [] broken = record { reads = []; broken = broken }
limited (ℕ.suc n) (c ∷ cs) broken =
    let rest = limited (ℕ.suc n - length c) cs broken in
    record rest { reads = take (ℕ.suc n) c ∷ rest.reads }

-- `io.Copy` to the open file at a place.
unfoldable pub copy : Loc → List Bytes → Bool → Exec World (Unit {0})
unfolding write ◌>>=◌
copy l [] true = raise (errno fault)
copy l [] false = pure tt
copy l (c ∷ cs) broken = (if length c == 0 then pure tt else write l c) >> copy l cs broken
