-- ===== src/Capabilities.antt =====
-- descriptor/capabilities.py: what the adapter declares it can do, and what a binding makes available.
-- The records hold the arguments of the constructors of the spi package; guarantees and limits are
-- named by the constants of object_common. A pair of texts is an entry of a dict of texts.
pub mod Laws
use meridian_ociadapter.Prelude.{
  ℕ, Bool, true, false, List, [], ◌∷◌, ◌++◌, String, Option, none, some, ◌<>◌, if◌then◌else◌,
}
use meridian_ociadapter.Hashing.{Hashing, sha256_digest}
use meridian_ociadapter.Json.{
  Json, bool, num, str, obj, Fields, end, field, append_fields, optional_field,
}
use meridian_ociadapter.Binding.{OciDistributionBinding, ResourceRef}
use meridian_ociadapter.Adapter.{available_operation_contracts}

pub data Guarantee : Type 0 where
  bounded_prefix_list conditional_create digest_sha256 digest_verification : Guarantee
  exact_version_delete immutability_intent metadata_after_commit multipart : Guarantee
  range_read retention_enforcement retention_intent streaming : Guarantee

pub data Limit : Type 0 where
  max_list_page_size max_multipart_part_bytes max_multipart_parts max_object_bytes : Limit
  max_range_bytes max_user_metadata_entries : Limit

pub record OperationCapability : Type 0 where
  pub operation_contract : String
  pub versions : List String
  pub guarantees : List Guarantee
  pub limits : List (Limit × ℕ)
  pub migration_behavior : Option String
  pub cursor_behavior : Option String
  pub health_probes : List String
  pub extensions : Fields

pub record AdapterDescriptor : Type 0 where
  pub adapter_id : String
  pub adapter_contract_version : String
  pub driver : String
  pub supported_engine_versions : List (String × List String)
  pub capabilities : List OperationCapability

pub record CapabilityManifest : Type 0 where
  pub descriptor : AdapterDescriptor
  pub engine_profile : String
  pub engine_version : String
  pub available : List String
  pub extensions : Fields

-- `ADAPTER_ID`, `ADAPTER_CONTRACT_VERSION`, `ENGINE_PROFILE` and `OCI_DISTRIBUTION_VERSION`
abbrev pub adapter_id : String
adapter_id = "oci-distribution"

abbrev pub adapter_contract_version : String
adapter_contract_version = "1.0.0"

abbrev pub engine_profile : String
engine_profile = "oci-distribution"

abbrev pub oci_distribution_version : String
oci_distribution_version = "1.1.1"

abbrev common_extensions : Fields
common_extensions = field "design.hldRevision" (num 56) (
    field "design.catalogRevision" (num 70) (
      field "design.objectLldRevision" (num 12) (
        field "oci.distributionSpec" (str oci_distribution_version)
          (field "oci.imageSpec" (str "1.1.1") end))))

-- `OBJECT_OPERATION_VERSION` of object_common is a parameter.
module _ (operation_version : String) (binding : OciDistributionBinding) where
  abbrev put_guarantees : List Guarantee
  put_guarantees =
      (conditional_create ∷ digest_sha256 ∷ immutability_intent ∷ metadata_after_commit ∷ multipart
        ∷ retention_intent ∷ streaming ∷ [])
      ++ (if binding.retention_enforced then retention_enforcement ∷ [] else [])

  abbrev put_capability : OperationCapability
  put_capability = record {
    operation_contract = "meridian.object.put";
    versions = operation_version ∷ [];
    guarantees = put_guarantees;
    limits =
        (max_object_bytes, binding.max_object_bytes)
        ∷ (max_user_metadata_entries, 128)
        ∷ (max_multipart_parts, binding.max_multipart_parts)
        ∷ (max_multipart_part_bytes, binding.chunk_size)
        ∷ [];
    migration_behavior = some "logical-export-import";
    cursor_behavior = none;
    health_probes = "authenticated" ∷ "push-pull" ∷ "range" ∷ [];
    extensions = append_fields common_extensions (
        field "conditionalCreateMode" (str binding.conditional_create_mode)
          (field "retentionEnforcement" (bool binding.retention_enforced) end));
  }

  abbrev get_capability : OperationCapability
  get_capability = record {
    operation_contract = "meridian.object.get";
    versions = operation_version ∷ [];
    guarantees = digest_verification ∷ streaming ∷ [];
    limits = (max_object_bytes, binding.max_object_bytes) ∷ [];
    migration_behavior = some "logical-export-import";
    cursor_behavior = none;
    health_probes = "authenticated" ∷ "pull" ∷ [];
    extensions = common_extensions;
  }

  abbrev stat_capability : OperationCapability
  stat_capability = record {
    operation_contract = "meridian.object.stat";
    versions = operation_version ∷ [];
    guarantees = digest_verification ∷ [];
    limits = [];
    migration_behavior = none;
    cursor_behavior = none;
    health_probes = "authenticated" ∷ "pull" ∷ [];
    extensions = common_extensions;
  }

  abbrev read_range_capability : OperationCapability
  read_range_capability = record {
    operation_contract = "meridian.object.read_range";
    versions = operation_version ∷ [];
    guarantees = digest_verification ∷ range_read ∷ [];
    limits = (max_range_bytes, binding.max_range_bytes) ∷ [];
    migration_behavior = none;
    cursor_behavior = none;
    health_probes = "authenticated" ∷ "range" ∷ [];
    extensions = common_extensions;
  }

  abbrev list_capability : OperationCapability
  list_capability = record {
    operation_contract = "meridian.object.list";
    versions = operation_version ∷ [];
    guarantees = bounded_prefix_list ∷ [];
    limits = (max_list_page_size, binding.max_list_page_size) ∷ [];
    migration_behavior = none;
    cursor_behavior = some "opaque-stable";
    health_probes = "authenticated" ∷ "content-discovery" ∷ [];
    extensions = common_extensions;
  }

  abbrev delete_capability : OperationCapability
  delete_capability = record {
    operation_contract = "meridian.object.delete";
    versions = operation_version ∷ [];
    guarantees = exact_version_delete ∷ retention_intent ∷ [];
    limits = [];
    migration_behavior = some "external-policy";
    cursor_behavior = none;
    health_probes = "authenticated" ∷ "content-management" ∷ [];
    extensions = common_extensions;
  }

  unfoldable pub oci_distribution_descriptor : AdapterDescriptor
  oci_distribution_descriptor = record {
    adapter_id = adapter_id;
    adapter_contract_version = adapter_contract_version;
    driver = "httpx";
    supported_engine_versions = (engine_profile, oci_distribution_version ∷ []) ∷ [];
    capabilities =
        put_capability ∷ get_capability ∷ stat_capability ∷ read_range_capability ∷ list_capability
        ∷ delete_capability ∷ [];
  }

  -- What the source's f-string writes for a Boolean.
  abbrev bool_text : Bool → String
  bool_text true = "True"
  bool_text false = "False"

  -- `public_fingerprint` of the binding; `resource_ref.canonical` is a parameter
  unfoldable pub public_fingerprint : Hashing → (ResourceRef → String) → String
  public_fingerprint H canonical = sha256_digest H (
      H.utf8 (
        canonical binding.resource_ref
        <> "|"
        <> binding.conditional_create_mode
        <> "|"
        <> bool_text binding.deletion_enabled))

  -- `{"selectedRegistry": selected} if selected else {}`
  abbrev selected_registry : Fields → Fields
  selected_registry end = end
  selected_registry (field k v fs) = field "selectedRegistry" (obj (field k v fs)) end

  unfoldable pub configured_capability_manifest :
      Hashing → (ResourceRef → String) → CapabilityManifest
  configured_capability_manifest H canonical = record {
    descriptor = oci_distribution_descriptor;
    engine_profile = engine_profile;
    engine_version = oci_distribution_version;
    available = available_operation_contracts binding;
    extensions =
        append_fields
          (field "verification" (str "configured") (
            field "bindingFingerprint" (str (public_fingerprint H canonical))
              (field "referrersRequired" (bool binding.referrers_required) end)))
          (selected_registry (
            append_fields (optional_field "release" binding.registry_release)
              (optional_field "image" binding.registry_image)));
  }
