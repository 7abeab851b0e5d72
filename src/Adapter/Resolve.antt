-- ===== src/Adapter/Resolve.antt =====
-- The reading path of adapter.py: a reference is resolved to verified metadata and a payload.
pub mod Laws
use meridian_ociadapter.Prelude.{
  ℕ, Bool, true, false, ◌&&◌, ◌||◌, not, String, Option, none, some, ◌==◌, ◌=ˢ◌, if◌then◌else◌,
}
use meridian_ociadapter.Effect.{
  Result, ok, err, bind_result, translate, is_type_or_value_error, M, pure, raise, lift, continue,
  ◌>>=◌, ◌>>◌, raise_if, object_not_found, digest_mismatch,
}
use meridian_ociadapter.Naming.{anchor_tag, latest_tag, version_tag}
use meridian_ociadapter.Binding.{same_resource}
use meridian_ociadapter.ObjectCommon.{ObjectReference, ObjectMetadata}
use meridian_ociadapter.Transport.Models.{
  OciDescriptor, ManifestDocument, manifest_descriptors, differs,
}
use meridian_ociadapter.Transport.Stored.{StoredObject, from_bytes}
use meridian_ociadapter.Adapter.{OciDistributionAdapter}

pub record ResolvedObject : Type 0 where
  pub stored : StoredObject
  pub manifest : ManifestDocument
  pub payload : OciDescriptor

-- The metadata that does not describe the payload.
abbrev pub payload_differs : ObjectMetadata → OciDescriptor → Bool
payload_differs m payload =
    not (m.digest =ˢ payload.digest)
    || not (m.byte_length == payload.size)
    || not (m.media_type =ˢ payload.media_type)

module _ {W : Type 0} (self : OciDistributionAdapter W) where
  -- What follows once the manifest's config and payload are known.
  unfoldable pub stored_from_descriptors :
      ManifestDocument → OciDescriptor × OciDescriptor × OciDescriptor → M W ResolvedObject
  stored_from_descriptors document (config, payload, _) = do
    config_bytes ← self.transport.get_blob_bytes config self.binding.max_metadata_bytes
    stored ← lift (
        translate is_type_or_value_error digest_mismatch
          (from_bytes self.common self.codec config_bytes self.binding.max_metadata_bytes))
    raise_if (payload_differs stored.metadata payload) digest_mismatch
    pure (record { stored = stored; manifest = document; payload = payload })

  -- `_stored_from_manifest`
  unfoldable pub stored_from_manifest : ManifestDocument → M W ResolvedObject
  unfolding stored_from_descriptors
  stored_from_manifest document = do
    descriptors ←
        lift (translate is_type_or_value_error digest_mismatch (manifest_descriptors document))
    stored_from_descriptors document descriptors

  abbrev tag_for : String → Option String → Result String
  tag_for object_id none = latest_tag self.hashing object_id
  tag_for object_id (some digest) = version_tag self.hashing object_id digest

  -- `_stored_for_reference`
  unfoldable pub stored_for_reference : ObjectReference → M W ResolvedObject
  stored_for_reference reference = do
    tag ← lift (tag_for reference.object_id reference.digest)
    document ← self.transport.get_manifest tag
    resolved ← stored_from_manifest document
    let metadata = resolved.stored.metadata
    raise_if (not (same_resource metadata.object_ref.resource_ref self.binding.resource_ref))
        object_not_found
    raise_if (not (metadata.object_ref.object_id =ˢ reference.object_id)) object_not_found
    raise_if (differs reference.digest metadata.digest) object_not_found
    anchor_reference ← lift (anchor_tag self.hashing reference.object_id)
    anchor ← self.transport.get_manifest anchor_reference
    descriptors ← lift (manifest_descriptors resolved.manifest)
    raise_if (not (descriptors.2.digest =ˢ anchor.digest)) digest_mismatch
    pure resolved
