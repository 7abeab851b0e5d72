-- ===== src/Adapter/Commit.antt =====
-- `_commit_object` and `_ensure_anchor` of adapter.py: a verified payload is published under the exact
-- version's tag, and then under the Object's latest tag.
pub mod Laws
use meridian_ociadapter.Prelude.{
  ℕ, List, Bool, true, false, ◌||◌, not, String, Option, none, some, ltb, length, is_some,
  if◌then◌else◌,
}
use meridian_ociadapter.Effect.{
  Result, ok, err, M, pure, raise, lift, continue, ◌>>=◌, ◌>>◌, raise_if, object_invalid_request,
  conditional_conflict,
}
use meridian_ociadapter.Json.{
  append_fields, optional_field, Json, str, obj, Fields, end, field, get, is_str, as_obj,
}
use meridian_ociadapter.Naming.{anchor_tag, latest_tag, version_tag, object_id_hash}
use meridian_ociadapter.ObjectCommon.{
  ContentIdentity, ObjectReference, ObjectMetadata, ImmutabilityRequest, RetentionRequest, Datetime,
}
use meridian_ociadapter.Transport.Models.{
  OciDescriptor, descriptor, ManifestDocument, oci_manifest_media_type, oci_empty_media_type,
  empty_json, meridian_object_anchor_type, meridian_object_config_media_type, build_anchor_manifest,
  build_object_manifest,
}
use meridian_ociadapter.Transport.Stored.{StoredObject, to_bytes}
use meridian_ociadapter.Adapter.{
  Input, OciDistributionAdapter, conflict_of, require_create_available, now,
}
use meridian_ociadapter.Adapter.Resolve.{ResolvedObject, stored_for_reference}

-- The annotations name the Object by its hash.
abbrev pub names_anchor : String → Option Fields → Bool
names_anchor expected_hash none = false
names_anchor expected_hash (some annotations) =
    is_str expected_hash (get "org.meridian.object.anchor" annotations)

-- What is refused of a manifest that stands at an anchor tag.
abbrev pub anchor_incompatible : String → ManifestDocument → Bool
anchor_incompatible expected_hash document =
    not (is_str meridian_object_anchor_type (get "artifactType" document.value))
    || not (names_anchor expected_hash (as_obj (get "annotations" document.value)))

module _ {W : Type 0} (self : OciDistributionAdapter W) where
  abbrev existing_anchor : String → String → M W OciDescriptor
  existing_anchor tag expected_hash = do
    document ← self.transport.get_manifest tag
    raise_if (anchor_incompatible expected_hash document) conditional_conflict
    lift (descriptor oci_manifest_media_type document.digest (length document.body))

  abbrev new_anchor : String → String → M W OciDescriptor
  new_anchor tag expected_hash = do
    _ ← self.transport.upload_blob_bytes empty_json oci_empty_media_type
    self.transport.put_manifest tag (build_anchor_manifest self.hashing self.codec expected_hash)

  -- `_ensure_anchor`
  unfoldable pub ensure_anchor : String → M W OciDescriptor
  ensure_anchor object_id = do
    tag ← lift (anchor_tag self.hashing object_id)
    let expected_hash = object_id_hash self.hashing object_id
    exists ← self.transport.manifest_exists tag
    if exists then existing_anchor tag expected_hash else new_anchor tag expected_hash

  -- The value of the reserved provenance field.
  abbrev adapter_provenance : Fields
  adapter_provenance = field "adapterId" (str "oci-distribution") (
      field "capabilityFingerprint" (str self.capability_fingerprint) (
        field "engineProfile" (str "oci-distribution") (
          field "engineVersion" (str "1.1.1") (
            field "distributionSpec" (str "1.1.1") (
              field "registryReleaseObservation" (str "unavailable") (
                append_fields
                  (optional_field "selectedRegistryRelease" self.binding.registry_release)
                  (optional_field "selectedRegistryImage" self.binding.registry_image)))))))

  provenance_in : Option Fields → Result Fields
  provenance_in none = err object_invalid_request
  provenance_in (some value) =
      if is_some (get "meridianAdapter" value)
      then err object_invalid_request
      else ok (append_fields value (field "meridianAdapter" (obj adapter_provenance) end))

  unfoldable pub provenance_of : Json → Result Fields
  unfolding provenance_in
  provenance_of value = provenance_in (as_obj (some value))

  module _ (input : Input) (identity : ContentIdentity) (immutability : ImmutabilityRequest) where
    abbrev pub exact_reference : ObjectReference
    exact_reference = record {
      resource_ref = self.binding.resource_ref;
      object_id = input.object_id;
      digest = some identity.digest;
    }

    -- The exact version exists: it becomes the latest one again.
    unfoldable pub republish : Bool → M W ObjectMetadata
    republish create_only = do
      raise_if create_only (conflict_of self immutability.publish_once)
      existing ← stored_for_reference self exact_reference
      latest ← lift (latest_tag self.hashing input.object_id)
      _ ← self.transport.put_manifest latest existing.manifest.body
      pure existing.stored.metadata

    unfoldable pub metadata_of : M W ObjectMetadata
    metadata_of = do
      provenance ← lift (provenance_of input.provenance)
      created_at ← now self
      lift (
          self.common.object_metadata exact_reference identity input.media_type created_at.instant
            input.creation_context input.user_metadata immutability.mutability provenance)

    abbrev object_manifest : OciDescriptor → ObjectMetadata → OciDescriptor → OciDescriptor → List ℕ
    object_manifest anchor metadata config payload =
        build_object_manifest self.codec anchor config payload
          (object_id_hash self.hashing input.object_id) metadata.created_at metadata.mutability

    -- From the metadata to the two tags.
    unfoldable pub publish_metadata :
        String → Option RetentionRequest → OciDescriptor → ObjectMetadata → M W ObjectMetadata
    publish_metadata exact_tag retention anchor metadata = do
      let config_bytes =
          to_bytes self.common self.codec
            (record { metadata = metadata; immutability = immutability; retention = retention })
      raise_if (ltb self.binding.max_metadata_bytes (length config_bytes)) object_invalid_request
      config ← self.transport.upload_blob_bytes config_bytes meridian_object_config_media_type
      payload ← lift (descriptor metadata.media_type identity.digest identity.byte_length)
      let manifest = object_manifest anchor metadata config payload
      _ ← self.transport.put_manifest exact_tag manifest
      latest ← lift (latest_tag self.hashing input.object_id)
      _ ← self.transport.put_manifest latest manifest
      pure metadata

    unfoldable pub publish : String → Option RetentionRequest → M W ObjectMetadata
    publish exact_tag retention = do
      anchor ← ensure_anchor input.object_id
      metadata ← metadata_of
      publish_metadata exact_tag retention anchor metadata

    -- `_commit_object`
    unfoldable pub commit_object : Option RetentionRequest → Bool → M W ObjectMetadata
    commit_object retention create_only = do
      require_create_available self input.object_id immutability create_only
      exact_tag ← lift (version_tag self.hashing input.object_id identity.digest)
      exists ← self.transport.manifest_exists exact_tag
      if exists then republish create_only else publish exact_tag retention
