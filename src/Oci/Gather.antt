-- ===== src/Oci/Gather.antt =====
-- `OCIGatherer.Gather` of gather/oci/oci.go, with oras-go as a parameter.
use go_gather.Base.{Bool, Option, none, some, List, if◌then◌else◌}
use go_gather.Base.Text.{Text, codes}
use go_gather.Path.{is_empty}
use go_gather.Exec.{wrap, Result, ok, err, Exec, pure, lift, map_err, ◌>>=◌, wrapping}
use go_gather.Os.{World, Env, mkdir_all}
use go_gather.Gather.Pinned.{oci_url_parse}
use go_gather.Oci.Host.{replace_localhost}
use go_gather.Oci.Client.{Repository, Tls, setup_client}

-- What the code calls of oras-go, of the credential store of Docker and of the resolver. The file
-- store and the copy into it change the disk.
pub record Oras : Type 1 where
  pub Reference : Type 0
  pub Store : Type 0
  pub Transport : Type 0
  pub FileStore : Type 0
  pub parse_reference : Text → Result Reference
  pub reference : Reference → Text
  pub with_reference : Text → Reference → Reference
  pub reference_text : Reference → Text
  pub new_repository : Text → Result (Repository Store Transport)
  pub docker_store : Result Store
  pub lookup : Text → Result (List Bool)
  pub default_transport : Transport
  pub new_file_store : Text → Exec World FileStore
  pub close_file_store : FileStore → Exec World (Unit {0})
  pub copy : Repository Store Transport → Text → FileStore → Exec World Text

-- `OCIMetadata`, less its time.
pub record OciMetadata : Type 0 where
  pub path : Text
  pub digest : Text

-- A deferred `Close`, whose error is returned where there is none yet.
abbrev closing : {A : Type 0} → Result A → Result (Unit {0}) → Result A
closing (ok a) (ok _) = ok a
closing (ok _) (err e) = err (wrap "failed to close OCI file store" e)
closing (err e) _ = err e

unfoldable pub deferring : {A : Type 0} → Exec World (Unit {0}) → Exec World A → Exec World A
deferring close m w = let (r, w') = m w in let (c, w'') = close w' in (closing r c, w'')

module _ (env : Env) (oras : Oras) (tls : Tls) where
  open oras use {
    Reference, Transport, FileStore, parse_reference, reference, with_reference, reference_text,
    new_repository, docker_store, lookup, default_transport, new_file_store, close_file_store, copy,
  }

  -- `effectiveTransport`
  abbrev effective_transport : Option Transport → Transport
  effective_transport none = default_transport
  effective_transport (some t) = t

  -- The reference without a tag or a digest is `latest`.
  unfoldable pub tagged : Text → Reference → Text
  unfolding is_empty
  tagged repo ref =
      if is_empty (reference ref)
      then reference_text (with_reference (codes "latest") ref)
      else repo

  -- `Gather`, for a context that is not done.
  unfoldable pub gather : Option Transport → Text → Text → Exec World OciMetadata
  unfolding oci_url_parse replace_localhost tagged setup_client mkdir_all deferring wrapping ◌>>=◌
  gather transport source dst = do
    let repo = oci_url_parse (replace_localhost source)
    ref ← lift (map_err (wrap "failed to parse reference") (parse_reference repo))
    let name = tagged repo ref
    src ← lift (map_err (wrap "failed to create repository client") (new_repository name))
    client ← lift (
        map_err (wrap "failed to setup repository client")
          (setup_client lookup tls docker_store src (effective_transport transport)))
    _ ← wrapping "failed to create directory" (mkdir_all env dst 0o755)
    store ← wrapping "file store" (new_file_store dst)
    deferring (close_file_store store) (do
      digest ← wrapping "pulling policy" (copy client name store)
      pure (record { path = dst; digest = digest }))
