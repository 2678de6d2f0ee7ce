-- ===== src/Oci/Client.antt =====
-- `SetupClient` of internal/oci/registry/client.go.
use go_gather.Base.{Bool, true, false, not, ◌&&◌, ◌||◌, Option, some, List}
use go_gather.Base.Text.{Text}
use go_gather.Exec.{Result, ok, err}
use go_gather.Oci.Network.{hostname, is_loopback}

-- What `SetupClient` sets of a repository: `PlainHTTP`, and the client with its credentials and the
-- transport it was given.
pub record Repository (Store Transport : Type 0) : Type 0 where
  pub host : Text
  pub plain_http : Bool
  pub client : Option (Store × Transport)

-- The setting `tls` of viper, `none` where it is not set.
abbrev pub Tls : Type 0
Tls = Option Bool

abbrev force_tls : Tls → Bool
force_tls (some true) = true
force_tls _ = false

abbrev force_plain : Tls → Bool
force_plain (some false) = true
force_plain _ = false

-- The test before `PlainHTTP` is set.
unfoldable pub wants_plain : (Text → Result (List Bool)) → Tls → Text → Bool
unfolding hostname is_loopback
wants_plain lookup tls host =
    force_plain tls || (is_loopback lookup (hostname host) && not (force_tls tls))

module _ {Store Transport : Type 0} (lookup : Text → Result (List Bool)) (tls : Tls) where
  abbrev with_client :
      Transport → Repository Store Transport → Result Store → Result (Repository Store Transport)
  with_client t r (ok s) = ok (record r { client = some (s, t) })
  with_client t r (err e) = err e

  -- `SetupClient`; `store` is what `credentials.NewStoreFromDocker` returns.
  unfoldable pub setup_client :
      Result Store → Repository Store Transport → Transport → Result (Repository Store Transport)
  unfolding wants_plain
  setup_client store r t =
      with_client t (record r { plain_http = wants_plain lookup tls r.host || r.plain_http }) store
