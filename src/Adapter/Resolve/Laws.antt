-- ===== src/Adapter/Resolve/Laws.antt =====
-- On the resolution of references in adapter.py: what is checked on the way to an object.
use meridian_ociadapter.Prelude.{
  ◌≤◌, ◌≡◌, refl, sym, ap, ◌∙◌, Bool, true, false, not, eq_iff, length, arith,
}
use meridian_ociadapter.Effect.{ok, is_type_or_value_error, digest_mismatch}
use meridian_ociadapter.Effect.Rules.{
  Ensures, Ensures-pure, Ensures-bind, Ensures-guard, Ensures-lifted, ok-injective, translate-eq-ok,
}
use meridian_ociadapter.Hashing.{Bytes, sha256_digest}
use meridian_ociadapter.Binding.{same_resource}
use meridian_ociadapter.ObjectCommon.{ObjectReference, ObjectMetadata}
use meridian_ociadapter.Transport.Models.{
  OciDescriptor, ManifestDocument, manifest_descriptors, differs,
}
use meridian_ociadapter.Transport.Client.Blobs.Laws.{same_text}
use meridian_ociadapter.Transport.Interface.{IsVerifying}
use meridian_ociadapter.Transport.Stored.{from_bytes}
use meridian_ociadapter.Adapter.{OciDistributionAdapter}
use meridian_ociadapter.Adapter.Resolve.{
  ResolvedObject, payload_differs, stored_from_descriptors, stored_from_manifest,
  stored_for_reference,
}

pub not-false : (b : Bool) → not b ≡ false → b ≡ true
not-false b h = ground arith

module _ {W : Type 0} (self : OciDistributionAdapter W) where
  -- The chain of hashes from a manifest: its config is the hash of the bytes that decode to the
  -- metadata, and the metadata describes the payload.
  pub record IsVerified (r : ResolvedObject) : Type 0 where
    pub config : OciDescriptor
    pub subject : OciDescriptor
    pub bytes : Bytes
    pub descriptors : manifest_descriptors r.manifest ≡ ok (config, r.payload, subject)
    pub config_digest : sha256_digest self.hashing bytes ≡ config.digest
    pub config_bound : length bytes ≤ self.binding.max_metadata_bytes
    pub metadata :
        from_bytes self.common self.codec bytes self.binding.max_metadata_bytes ≡ ok r.stored
    pub payload_digest : r.payload.digest ≡ r.stored.metadata.digest
    pub payload_size : r.payload.size ≡ r.stored.metadata.byte_length
    pub payload_type : r.payload.media_type ≡ r.stored.metadata.media_type

  -- What a reference resolves to: a verified object of the binding's resource with the id and, where
  -- one is given, the digest of the reference, under a manifest that is the hash of its body and whose
  -- subject is the manifest found under the Object's anchor tag.
  pub record IsResolved (reference : ObjectReference) (r : ResolvedObject) : Type 0 where
    pub verified : IsVerified r
    pub hashed : r.manifest.digest ≡ sha256_digest self.hashing r.manifest.body
    pub resource :
        same_resource r.stored.metadata.object_ref.resource_ref self.binding.resource_ref ≡ true
    pub object_id : r.stored.metadata.object_ref.object_id ≡ reference.object_id
    pub digest : differs reference.digest r.stored.metadata.digest ≡ false
    pub anchor : ManifestDocument
    pub anchor_hashed : anchor.digest ≡ sha256_digest self.hashing anchor.body
    pub anchored : verified.subject.digest ≡ anchor.digest

  payload_same :
      (m : ObjectMetadata) (p : OciDescriptor)
      → payload_differs m p ≡ false
      → (p.digest ≡ m.digest) × (p.size ≡ m.byte_length) × (p.media_type ≡ m.media_type)
  payload_same m p h = ground (arith, eq_iff m.digest p.digest, eq_iff m.media_type p.media_type)

  abbrev FromManifest : ManifestDocument → ResolvedObject → Type 0
  FromManifest document r = (r.manifest ≡ document) × IsVerified r

  module _
      (keeps : IsVerifying self.hashing self.codec self.binding.max_manifest_bytes
        self.transport) where
    stored_from_descriptors-Ensures :
        (document : ManifestDocument) (config payload subject : OciDescriptor)
        → manifest_descriptors document ≡ ok (config, payload, subject)
        → Ensures
            (stored_from_descriptors self document (config, payload, subject))
            (FromManifest document)
    unfolding stored_from_descriptors
    stored_from_descriptors-Ensures document config payload subject d =
        Ensures-bind _ _ _ (keeps.blob config self.binding.max_metadata_bytes) λ bytes m.
          Ensures-lifted _ _ λ stored e. Ensures-guard _ _ _ λ same. Ensures-pure _ (
            let (pd, ps, pt) = payload_same stored.metadata payload same in
            (
              refl,
              record {
                config = config;
                subject = subject;
                bytes = bytes;
                descriptors = d;
                config_digest = m.digest;
                config_bound = m.bounded;
                metadata = translate-eq-ok is_type_or_value_error digest_mismatch _ e;
                payload_digest = pd;
                payload_size = ps;
                payload_type = pt;
              },
            ))

    pub stored_from_manifest-Ensures :
        (document : ManifestDocument)
        → Ensures (stored_from_manifest self document) (FromManifest document)
    unfolding stored_from_manifest
    stored_from_manifest-Ensures document = Ensures-lifted _ _ λ descriptors e.
        stored_from_descriptors-Ensures document descriptors.0 descriptors.1 descriptors.2
          (translate-eq-ok is_type_or_value_error digest_mismatch (manifest_descriptors document) e)

    pub stored_for_reference-Ensures :
        (reference : ObjectReference)
        → Ensures (stored_for_reference self reference) (IsResolved reference)
    unfolding stored_for_reference
    stored_for_reference-Ensures reference = Ensures-lifted _ _ λ tag _.
        Ensures-bind _ _ _ (keeps.manifest tag) λ document named.
          Ensures-bind _ _ _ (stored_from_manifest-Ensures document) λ r (same, verified).
            Ensures-guard _ _ _ λ resource. Ensures-guard _ _ _ λ id. Ensures-guard _ _ _ λ digest.
              Ensures-lifted _ _ λ anchor_reference _.
                Ensures-bind _ _ _ (keeps.manifest anchor_reference) λ anchor anchor_named.
                  Ensures-lifted _ _ λ descriptors e. Ensures-guard _ _ _ λ subject.
                    Ensures-pure r (record {
                      verified = verified;
                      hashed = rw same named.digest;
                      resource = not-false _ resource;
                      object_id = same_text _ reference.object_id id;
                      digest = digest;
                      anchor = anchor;
                      anchor_hashed = anchor_named.digest;
                      anchored =
                          ap (λ (t : OciDescriptor × OciDescriptor × OciDescriptor). t.2.digest)
                            (ok-injective (sym verified.descriptors ∙ e))
                          ∙ same_text descriptors.2.digest anchor.digest subject;
                    })
