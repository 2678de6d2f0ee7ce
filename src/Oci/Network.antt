-- ===== src/Oci/Network.antt =====
-- internal/oci/network/network.go: `Hostname` and `IsLoopback`.
use go_gather.Base.{Bool, true, false, ◌||◌, ◌==◌, Option, none, some, List, [], ◌∷◌, if◌then◌else◌}
use go_gather.Base.Text.{Text, codes, text_eq, trim_prefix}
use go_gather.Path.{is_empty}
use go_gather.Exec.{Result, ok, err}
use go_gather.Url.Escape.{mem_byte}
use go_gather.Url.Authority.{cut, cut_last}

-- Behind the first `]`: the port alone, and no further bracket.
abbrev bracketed_host : Text → Option Text → Option Text
bracketed_host inside none = none
bracketed_host inside (some []) = none
bracketed_host inside (some (c ∷ port)) =
    if c == b':'
    then (if mem_byte b':' port || mem_byte b'[' inside || mem_byte b'[' port || mem_byte b']' port
        then none
        else some inside)
    else none

-- The host of `net.SplitHostPort`: none where it returns an error.
unfoldable pub split_host : Text → Option Text
unfolding cut cut_last mem_byte
split_host [] = none
split_host (c ∷ s) =
    if c == b'['
    then bracketed_host (cut b']' s).0 (cut b']' s).1
    else elim (cut_last b':' (c ∷ s)) [
      | none ↦ none
      | some (host, _) ↦
          if mem_byte b':' host || mem_byte b'[' (c ∷ s) || mem_byte b']' (c ∷ s)
          then none
          else some host
    ]

abbrev host_else : Text → Option Text → Text
host_else ref none = ref
host_else ref (some host) = host

-- The text before its first slash, where it does not begin with it.
unfoldable pub before_slash : Text → Text
unfolding cut is_empty
before_slash ref = let (front, rest) = cut b'/' ref in if is_empty front then ref else front

-- `Hostname`
unfoldable pub hostname : Text → Text
unfolding is_empty trim_prefix before_slash split_host
hostname ref =
    if is_empty ref
    then ref
    else let short = before_slash (trim_prefix ref (codes "oci://")) in
      host_else short (split_host short)

abbrev any_loopback : List Bool → Bool
any_loopback [] = false
any_loopback (b ∷ bs) = b || any_loopback bs

abbrev of_lookup : Result (List Bool) → Bool
of_lookup (ok ips) = any_loopback ips
of_lookup (err _) = false

-- `IsLoopback`; `lookup` is `net.LookupIP`, with `IsLoopback` of each address.
unfoldable pub is_loopback : (Text → Result (List Bool)) → Text → Bool
unfolding text_eq
is_loopback lookup host =
    if text_eq host (codes "localhost")
      || text_eq host (codes "127.0.0.1")
      || text_eq host (codes "::1")
      || text_eq host (codes "0:0:0:0:0:0:0:1")
    then true
    else of_lookup (lookup host)
