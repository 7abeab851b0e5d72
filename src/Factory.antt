-- ===== src/Factory.antt =====
-- `_Runtime` and `_Session` of _factory.py: the life of an adapter behind the factory. The runtime's
-- attributes are a second part of the world, and a session's a third one.
pub mod Phases
pub mod Lifecycle
pub mod Laws
pub mod Refinement
pub mod Create
pub mod Created
use meridian_ociadapter.Prelude.{
  ℕ, Bool, true, false, ◌&&◌, not, List, [], ◌∷◌, String, Option, none, some, ◌<>◌, if◌then◌else◌,
}
use meridian_ociadapter.Effect.{
  Error, Result, ok, err, M, pure, raise, lift, try_except, continue, ◌>>=◌, ◌>>◌, raise_if,
  object_invalid_request, object_capability_mismatch, object_unavailable, assertion_error,
}
use meridian_ociadapter.Effect.Locals.{on_world, locals, assign}
use meridian_ociadapter.Hashing.{Bytes}
use meridian_ociadapter.Json.{Json, str, obj, Fields, end, field, append_fields, optional_field}
use meridian_ociadapter.Binding.{OciDistributionBinding, ResourceRef, same_resource}
use meridian_ociadapter.Capabilities.{CapabilityManifest, adapter_id, oci_distribution_version}
use meridian_ociadapter.ProbeReport.{OciProbeReport}
use meridian_ociadapter.Probe.{OciDistributionProbe, authenticated}
use meridian_ociadapter.Adapter.{Operation, OciDistributionAdapter}
use meridian_ociadapter.Adapter.Handlers.{Answer, execute}

-- `AdapterProbe`, `PhysicalResource`, `PhysicalVerification` and `ExecutionResult` of the spi package
pub record AdapterProbe : Type 0 where
  pub manifest : CapabilityManifest
  pub details : Fields

pub record PhysicalResource : Type 0 where
  pub resource_ref : ResourceRef
  pub resource_fingerprint : Json
  pub schema_fingerprint : Json
  pub profile : Json

pub record PhysicalVerification : Type 0 where
  pub fingerprint : String
  pub resources : List (String × String)
  pub details : Fields

pub record ExecutionResult : Type 0 where
  pub answer : Answer
  pub provenance : Fields

-- What the runtime is built on besides the package's own modules. The constructors of the spi package
-- keep their arguments.
pub record RuntimeHost (W : Type 0) : Type 0 where
  -- `tempfile.TemporaryDirectory(…)`, by its name, and its `cleanup`
  pub temporary_directory : M W String
  pub cleanup : String → M W (Unit {0})
  -- `Path.touch(mode=0o600)` and `Path.write_bytes`
  pub touch : String → M W (Unit {0})
  pub write_bytes : String → Bytes → M W (Unit {0})
  -- `OciDistributionAdapter(binding)`, where `verify_tls` is replaced by a path or not, its `close`,
  -- and the probe over its transport
  pub adapter_over : Option String → M W (OciDistributionAdapter W)
  pub close_adapter : OciDistributionAdapter W → M W (Unit {0})
  pub probe_over : OciDistributionAdapter W → OciDistributionProbe W
  -- `sha256_fingerprint`, `str(resource_ref)`, and a manifest's `fingerprint`
  pub sha256_fingerprint : Json → String
  pub text_of : ResourceRef → String
  pub fingerprint : CapabilityManifest → String

-- The arguments of the constructor, and the attributes that change.
pub record RuntimeConfig : Type 0 where
  pub binding : OciDistributionBinding
  pub tls_ca : Option Bytes

pub record Runtime (W : Type 0) : Type 0 where
  pub ca_directory : Option String
  pub adapter : Option (OciDistributionAdapter W)
  pub probe : Option AdapterProbe
  pub verified : Bool

abbrev pub fresh_runtime : {W : Type 0} → Runtime W
fresh_runtime = record { ca_directory = none; adapter = none; probe = none; verified = false }

-- `try: m finally: k`
abbrev finally : {W A : Type 0} → M W A → M W (Unit {0}) → M W A
finally m k w = let r = m w in (k >> lift r.0) r.1

module _ {W : Type 0} (config : RuntimeConfig) (host : RuntimeHost W) where
  abbrev release_ca : Option String → M (W × Runtime W) (Unit {0})
  release_ca none = pure tt
  release_ca (some d) = do on_world (host.cleanup d); assign (λ s. record s { ca_directory = none })

  abbrev release_adapter : Option (OciDistributionAdapter W) → M (W × Runtime W) (Unit {0})
  release_adapter none = pure tt
  release_adapter (some adapter) = on_world (host.close_adapter adapter)

  unfoldable pub close_runtime : M (W × Runtime W) (Unit {0})
  close_runtime = do
    s ← locals
    assign (λ x. record x { adapter = none })
    assign (λ x. record x { probe = none })
    assign (λ x. record x { verified = false })
    finally (release_adapter s.adapter) (do t ← locals; release_ca t.ca_directory)

  -- The path of the CA file, where there is one.
  abbrev prepare_ca : Option Bytes → M (W × Runtime W) (Option String)
  prepare_ca none = pure none
  prepare_ca (some ca) = do
    d ← on_world host.temporary_directory
    assign (λ s. record s { ca_directory = some d })
    on_world (host.touch (d <> "/ca.pem"))
    on_world (host.write_bytes (d <> "/ca.pem") ca)
    pure (some (d <> "/ca.pem"))

  abbrev probe_details : OciProbeReport → Fields
  probe_details report = field "authenticated" (str "true") (
      field "apiVersion" (str report.api_version) (
        field "distributionSpec" (str oci_distribution_version)
          (field "registryReleaseObservation" (str "unavailable") end)))

  -- The body of the `try` statement of `open`.
  unfoldable pub open_body : M (W × Runtime W) (Unit {0})
  open_body = do
    path ← prepare_ca config.tls_ca
    adapter ← on_world (host.adapter_over path)
    assign (λ s. record s { adapter = some adapter })
    report ← on_world (authenticated (host.probe_over adapter))
    raise_if (not report.passed) object_unavailable
    assign (λ s. record s {
      probe =
          some (record { manifest = report.capability_manifest; details = probe_details report });
    })

  abbrev open_with : Option (OciDistributionAdapter W) → M (W × Runtime W) (Unit {0})
  open_with (some adapter) = pure tt
  open_with none = try_except open_body (λ e. close_runtime >> raise e)

  unfoldable pub open_runtime : M (W × Runtime W) (Unit {0})
  open_runtime = do s ← locals; open_with s.adapter

  abbrev opened_adapter :
      Option (OciDistributionAdapter W) → Option AdapterProbe → Result (OciDistributionAdapter W)
  opened_adapter (some adapter) (some probe) = ok adapter
  opened_adapter _ _ = err object_invalid_request

  -- `_require_open`
  unfoldable pub require_open : M (W × Runtime W) (OciDistributionAdapter W)
  require_open = do s ← locals; lift (opened_adapter s.adapter s.probe)

  abbrev asserted : Option AdapterProbe → Result AdapterProbe
  asserted none = err assertion_error
  asserted (some probe) = ok probe

  unfoldable pub runtime_probe : M (W × Runtime W) AdapterProbe
  runtime_probe = do require_open; s ← locals; lift (asserted s.probe)

  abbrev single : List PhysicalResource → Result PhysicalResource
  single (resource ∷ []) =
      if not (same_resource resource.resource_ref config.binding.resource_ref)
      then err object_invalid_request
      else ok resource
  single _ = err object_invalid_request

  abbrev namespace_fingerprint : String
  namespace_fingerprint = host.sha256_fingerprint (
      obj (
        field "endpoint" (str config.binding.endpoint)
          (field "repository" (str config.binding.repository) end)))

  abbrev physical_fingerprint : PhysicalResource → String
  physical_fingerprint resource = host.sha256_fingerprint (
      obj (
        field "formatVersion" (str "meridian.oci-physical-verification.v1") (
          field "namespaceFingerprint" (str namespace_fingerprint) (
            field "resource" (str (host.text_of resource.resource_ref)) (
              field "resourceFingerprint" resource.resource_fingerprint (
                field "schemaFingerprint" resource.schema_fingerprint
                  (field "profile" resource.profile end)))))))

  abbrev physical_verification : PhysicalResource → PhysicalVerification
  physical_verification resource = record {
    fingerprint = physical_fingerprint resource;
    resources = (host.text_of resource.resource_ref, "oci:" <> physical_fingerprint resource) ∷ [];
    details = field "authenticated" (str "true") (field "resourceCount" (str "1") end);
  }

  unfoldable pub verify_physical : List PhysicalResource → M (W × Runtime W) PhysicalVerification
  verify_physical resources = do
    adapter ← require_open
    assign (λ s. record s { verified = false })
    resource ← lift (single resources)
    on_world (host.probe_over adapter).transport.ping
    on_world (adapter.transport.list_tags 1 none)
    assign (λ s. record s { verified = true })
    pure (physical_verification resource)

  -- The session that is returned is one that is not closed.
  unfoldable pub open_session : Bool → M (W × Runtime W) Bool
  open_session transactional = do
    require_open
    raise_if transactional object_capability_mismatch
    s ← locals
    raise_if (not s.verified) object_invalid_request
    pure false

  -- A session, by whether it is closed.
  unfoldable pub session_require_open : Bool → M (W × Runtime W) (OciDistributionAdapter W)
  session_require_open closed = do raise_if closed object_invalid_request; require_open

  abbrev execution_provenance : CapabilityManifest → Fields
  execution_provenance manifest = field "adapterId" (str adapter_id) (
      field "adapterVersion" (str "1.1.0") (
        field "capabilityFingerprint" (str (host.fingerprint manifest)) (
          field "engineProfile" (str manifest.engine_profile) (
            field "engineVersion" (str manifest.engine_version) (
              field "distributionSpec" (str oci_distribution_version) (
                field "registryReleaseObservation" (str "unavailable") (
                  append_fields
                    (optional_field "selectedRegistryRelease" config.binding.registry_release)
                    (optional_field "selectedRegistryImage" config.binding.registry_image))))))))

  unfoldable pub session_execute : Bool → Operation → M (W × Runtime W) ExecutionResult
  session_execute closed operation = do
    adapter ← session_require_open closed
    answer ← on_world (execute adapter operation)
    probe ← runtime_probe
    pure (record { answer = answer; provenance = execution_provenance probe.manifest })

  -- `begin`, and `commit` and `rollback`, which call it
  unfoldable pub session_begin : Bool → M (W × Runtime W) (Unit {0})
  session_begin closed = do session_require_open closed; raise object_capability_mismatch
