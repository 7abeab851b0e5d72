-- ===== src/Probe.antt =====
-- `OciDistributionProbe` of probe/__init__.py: the check of a registry, and the check that writes
-- canary manifests and removes them. The variables of the second are a second part of the world.
pub mod Seen
pub mod Laws
pub mod Recording
pub mod Accounts
pub mod Cleanup
use meridian_ociadapter.Prelude.{
  ℕ, Bool, true, false, ◌&&◌, ◌||◌, not, List, [], ◌∷◌, String, Option, none, some, ◌=ˢ◌, ◌<>◌,
  codes, take, drop, if◌then◌else◌,
}
use meridian_ociadapter.Effect.{
  Error, Result, ok, err, M, pure, lift, try_except, continue, ◌>>=◌, ◌>>◌, raise_if, value_error,
}
use meridian_ociadapter.Effect.Locals.{on_world, locals, assign}
use meridian_ociadapter.Hashing.{Bytes, Hashing}
use meridian_ociadapter.Json.{
  Json, null, bool, str, obj, Fields, end, field, get, as_obj, Codec, canonical_json,
}
use meridian_ociadapter.Naming.{object_id_hash}
use meridian_ociadapter.Cursor.{same_bytes}
use meridian_ociadapter.Binding.{OciDistributionBinding, ResourceRef}
use meridian_ociadapter.ProbeReport.{OciProbeReport}
use meridian_ociadapter.Capabilities.{
  CapabilityManifest, oci_distribution_version, configured_capability_manifest,
}
use meridian_ociadapter.Transport.Models.{
  OciDescriptor, ManifestDocument, empty_json, oci_empty_media_type,
  meridian_object_config_media_type, meridian_object_artifact_type, build_anchor_manifest,
  build_object_manifest,
}
use meridian_ociadapter.Transport.Stream.{IteratorReader, read}
use meridian_ociadapter.Transport.Interface.{Transport, registry_transport}
use meridian_ociadapter.Transport.Http.{RegistryHttpClient}
use meridian_ociadapter.Transport.Client.Manifests
use meridian_ociadapter.Transport.Client.Download
use meridian_ociadapter.Transport.Client.Download.{OpenRange}

-- The calls of a registry client that a probe makes, those of the adapter's interface among them.
pub record ProbeTransport (W : Type 0) : Type 0 where
  pub calls : Transport W
  pub ping : M W String
  pub open_blob : String → Option OpenRange → M W IteratorReader
  pub get_referrers : String → String → M W (List OciDescriptor)

abbrev pub registry_probe_transport : {W : Type 0} → RegistryHttpClient W → ProbeTransport W
registry_probe_transport self = record {
  calls = registry_transport self;
  ping = Manifests.ping self;
  open_blob = Download.open_blob self;
  get_referrers = Manifests.get_referrers self;
}

-- `OciDistributionProbe`, with the packages that it is built on.
pub record OciDistributionProbe (W : Type 0) : Type 0 where
  pub transport : ProbeTransport W
  pub binding : OciDistributionBinding
  pub hashing : Hashing
  pub codec : Codec
  -- `configured_capability_manifest(self.transport.binding)`
  pub operation_version : String
  pub canonical : ResourceRef → String
  -- `secrets.token_hex(12)`, and the text of the time
  pub token_hex : M W String
  pub now_text : M W String

-- The variables of `deep`.
pub record Canary : Type 0 where
  pub api_version : String
  pub push_pull : Bool
  pub range_read : Bool
  pub referrers : Bool
  pub deletion : Bool
  pub anchor : Option OciDescriptor
  pub version : Option OciDescriptor

abbrev pub fresh_canary : Canary
fresh_canary = record {
  api_version = "unknown";
  push_pull = false;
  range_read = false;
  referrers = false;
  deletion = false;
  anchor = none;
  version = none;
}

-- `payload_value`: each byte of the literal is its character's code.
abbrev pub payload_value : Bytes
payload_value = codes "meridian-oci-distribution-probe"

unfoldable pub has_digest : String → List OciDescriptor → Bool
has_digest d [] = false
has_digest d (x ∷ xs) = x.digest =ˢ d || has_digest d xs

module _ {W : Type 0} (self : OciDistributionProbe W) where
  abbrev pub probe_manifest : CapabilityManifest
  probe_manifest =
      configured_capability_manifest self.operation_version self.binding self.hashing self.canonical

  abbrev authenticated_report : Result String × W → Result OciProbeReport × W
  authenticated_report (ok api_version, w) = (
    ok (record {
      passed = true;
      mode = "authenticated";
      api_version = api_version;
      push_pull = false;
      range_read = false;
      referrers = false;
      deletion = false;
      capability_manifest = probe_manifest;
      failure = none;
    }),
    w,
  )
  authenticated_report (err e, w) = (
    ok (record {
      passed = false;
      mode = "authenticated";
      api_version = "unknown";
      push_pull = false;
      range_read = false;
      referrers = false;
      deletion = false;
      capability_manifest = probe_manifest;
      failure = some e;
    }),
    w,
  )

  -- The body of the `try` statement of `authenticated`.
  abbrev reach_registry : M W String
  reach_registry = do
    api_version ← self.transport.ping
    self.transport.calls.list_tags 1 none
    pure api_version

  unfoldable pub authenticated : M W OciProbeReport
  authenticated w = authenticated_report (reach_registry w)

  module _ (token : String) where
    -- The canaries are pushed.
    unfoldable pub push_canaries : M (W × Canary) (OciDescriptor × OciDescriptor × OciDescriptor)
    push_canaries = do
      api_version ← on_world self.transport.ping
      assign (λ c. record c { api_version = api_version })
      payload ←
          on_world (self.transport.calls.upload_blob_bytes payload_value "application/octet-stream")
      on_world
          (self.transport.calls.upload_blob_bytes empty_json "application/vnd.oci.empty.v1+json")
      anchor ← on_world (
          self.transport.calls.put_manifest ("m-probe-a-" <> token)
            (build_anchor_manifest self.hashing self.codec (object_id_hash self.hashing token)))
      assign (λ c. record c { anchor = some anchor })
      config ← on_world (
          self.transport.calls.upload_blob_bytes
            (canonical_json self.codec (obj (field "probe" (bool true) end)))
            meridian_object_config_media_type)
      created_at ← on_world self.now_text
      version ← on_world (
          self.transport.calls.put_manifest ("m-probe-v-" <> token) (
            build_object_manifest self.codec anchor config payload
              (object_id_hash self.hashing token) created_at "immutable"))
      assign (λ c. record c { version = some version })
      pure (payload, anchor, version)

    -- They are pulled, read by a range, and discovered.
    unfoldable pub pull_canaries :
        OciDescriptor → OciDescriptor → OciDescriptor → M (W × Canary) (Unit {0})
    pull_canaries payload anchor version = do
      pulled ← on_world (self.transport.calls.get_manifest ("m-probe-v-" <> token))
      assign (λ c. record c { push_pull = pulled.digest =ˢ version.digest })
      stream ←
          on_world
            (self.transport.open_blob payload.digest (some (record { start = 1; end = some 3 })))
      value ← lift (read none stream).0
      assign (λ c. record c { range_read = same_bytes value (take 3 (drop 1 payload_value)) })
      discovered ←
          on_world (self.transport.get_referrers anchor.digest meridian_object_artifact_type)
      assign (λ c. record c { referrers = has_digest version.digest discovered })
      raise_if (self.binding.referrers_required && not (has_digest version.digest discovered))
          value_error

  -- They are deleted, where the binding enables deletion.
  unfoldable pub remove_canaries : OciDescriptor → OciDescriptor → Bool → M (W × Canary) (Unit {0})
  remove_canaries anchor version false = pure tt
  remove_canaries anchor version true = do
    first ← on_world (self.transport.calls.delete_manifest version.digest)
    assign (λ c. record c { deletion = first })
    assign (λ c. record c { version = none })
    second ← on_world (self.transport.calls.delete_manifest anchor.digest)
    assign (λ c. record c { deletion = second && c.deletion })
    assign (λ c. record c { anchor = none })

  abbrev pub deep_passes : Canary → Bool
  deep_passes c =
      c.push_pull
      && c.range_read
      && (c.referrers || not self.binding.referrers_required)
      && (if self.binding.deletion_enabled then c.deletion else true)

  -- The body of the `try` statement of `deep`.
  unfoldable pub deep_body : String → M (W × Canary) Bool
  deep_body token = do
    pushed ← push_canaries token
    pull_canaries token pushed.0 pushed.1 pushed.2
    remove_canaries pushed.1 pushed.2 self.binding.deletion_enabled
    c ← locals
    pure (deep_passes c)

  abbrev pub deep_report : Bool → Canary → Option Error → OciProbeReport
  deep_report passed c failure = record {
    passed = passed;
    mode = "deep";
    api_version = c.api_version;
    push_pull = c.push_pull;
    range_read = c.range_read;
    referrers = c.referrers;
    deletion = c.deletion;
    capability_manifest = probe_manifest;
    failure = failure;
  }

  -- The report is made before the `finally` statement runs.
  abbrev settle_deep : Result Bool × (W × Canary) → OciProbeReport × (W × Canary)
  settle_deep (ok passed, (w, c)) = (deep_report passed c none, (w, c))
  settle_deep (err e, (w, c)) = (deep_report false c (some e), (w, c))

  -- `_delete_safely`
  unfoldable pub delete_safely : Option OciDescriptor → M W (Unit {0})
  delete_safely none = pure tt
  delete_safely (some d) =
      try_except (do _ ← self.transport.calls.delete_manifest d.digest; pure tt) (λ _. pure tt)

  abbrev clean_up : Bool → Canary → M W (Unit {0})
  clean_up false c = pure tt
  clean_up true c = do delete_safely c.version; delete_safely c.anchor

  -- The `try` statement with its `finally`.
  unfoldable pub run_deep : String → M W OciProbeReport
  run_deep token w =
      let r = settle_deep (deep_body token (w, fresh_canary)) in
      (do clean_up self.binding.deletion_enabled r.1.1; pure r.0) r.1.0

  unfoldable pub deep : M W OciProbeReport
  deep = do token ← self.token_hex; run_deep token
