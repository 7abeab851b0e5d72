-- ===== src/Tests/Life.antt =====
-- A probe of the demo registry, a runtime over it, and what the demo binding declares.
use meridian_ociadapter.Prelude.{◌≡◌, refl, true, false, [], ◌∷◌, some, codes, contains_text}
use meridian_ociadapter.Effect.{ok, pure}
use meridian_ociadapter.Effect.Outcomes.{Ends}
use meridian_ociadapter.Json.{null}
use meridian_ociadapter.Adapter.{Method, validate_operation, available_operation_contracts}
use meridian_ociadapter.Capabilities.{configured_capability_manifest}
use meridian_ociadapter.Capabilities.Laws.{IsDeclared, validate_operation-IsDeclared}
use meridian_ociadapter.Transport.Stream.{chunk, done, iterator_reader}
use meridian_ociadapter.ProbeReport.{OciProbeReport}
use meridian_ociadapter.Probe.{OciDistributionProbe, deep}
use meridian_ociadapter.Probe.Laws.{IsConsistent, deep-IsConsistent}
use meridian_ociadapter.Probe.Recording.{recording_probe}
use meridian_ociadapter.Probe.Cleanup.{IsClean, deep-IsClean}
use meridian_ociadapter.Factory.{PhysicalResource, RuntimeConfig, RuntimeHost}
use meridian_ociadapter.Factory.Phases.{verified, Stands}
use meridian_ociadapter.Factory.Refinement.{verifying, call, Moved, call-Moved}
use meridian_ociadapter.Tests.Data.{
  demo_adapter, demo_binding, demo_operation, demo_resource, demo_transport, demo_codec,
  toy_hashing,
}

abbrev demo_probe : OciDistributionProbe (Unit {0})
demo_probe = record {
  transport = record {
    calls = demo_transport;
    ping = pure "registry/2.0";
    open_blob = λ d range. pure (iterator_reader (chunk (codes "eri") done));
    get_referrers = λ d type. pure [];
  };
  binding = demo_binding;
  hashing = toy_hashing;
  codec = demo_codec;
  operation_version = "1.0.0";
  canonical = λ r. r.name;
  token_hex = pure "7";
  now_text = pure "now";
}

probe_token : (demo_probe.token_hex tt).0 ≡ ok "7"
unfolding pure
probe_token = refl

deep-IsConsistent_example :
    (r : OciProbeReport) × ((deep demo_probe tt).0 ≡ ok r) × IsConsistent demo_probe "7" r
deep-IsConsistent_example = deep-IsConsistent demo_probe tt "7" probe_token

deep-IsClean_example :
    IsClean demo_probe
      (deep (recording_probe demo_probe) (tt, record { published = []; deleted = [] })).1.1
deep-IsClean_example = deep-IsClean demo_probe tt

abbrev demo_config : RuntimeConfig
demo_config = record { binding = demo_binding; tls_ca = some (1 ∷ []) }

abbrev demo_runtime_host : RuntimeHost (Unit {0})
demo_runtime_host = record {
  temporary_directory = pure "/tmp/ca";
  cleanup = λ d. pure tt;
  touch = λ path. pure tt;
  write_bytes = λ path value. pure tt;
  adapter_over = λ path. pure demo_adapter;
  close_adapter = λ adapter. pure tt;
  probe_over = λ adapter. demo_probe;
  sha256_fingerprint = λ value. "f";
  text_of = λ r. r.name;
  fingerprint = λ manifest. "f";
}

abbrev demo_physical : PhysicalResource
demo_physical = record {
  resource_ref = demo_resource;
  resource_fingerprint = null;
  schema_fingerprint = null;
  profile = null;
}

call-Moved_example :
    Ends
      (Stands verified)
      (call demo_config demo_runtime_host (verifying (demo_physical ∷ [])))
      (λ _. Moved (verifying (demo_physical ∷ [])) verified true)
      (Moved (verifying (demo_physical ∷ [])) verified false)
call-Moved_example =
    call-Moved demo_config demo_runtime_host (verifying (demo_physical ∷ [])) verified

admits : validate_operation demo_binding demo_operation ≡ ok (some Method.get)
unfolding validate_operation available_operation_contracts
admits = refl

validate_operation-IsDeclared_example :
    IsDeclared "1.0.0" demo_binding "meridian.object.get"
    × (contains_text "meridian.object.get"
          (configured_capability_manifest "1.0.0" demo_binding toy_hashing (λ r. r.name)).available
        ≡ true)
validate_operation-IsDeclared_example =
    validate_operation-IsDeclared "1.0.0" toy_hashing (λ r. r.name) demo_binding demo_operation
      (some Method.get) admits
