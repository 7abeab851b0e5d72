-- ===== src/Adapter/Commit/Laws.antt =====
-- On the metadata that `_commit_object` of adapter.py returns.
use mathlib.Core.Path.{subst}
use meridian_ociadapter.Prelude.{ℕ, ◌≡◌, refl, sym, ap, Bool, true, String, Option, eq_refl}
use meridian_ociadapter.Effect.{ok}
use meridian_ociadapter.Effect.Rules.{
  Ensures, Ensures-pure, Ensures-bind, Ensures-then, Ensures-lift, Ensures-lifted, Ensures-guard,
  Ensures-if,
}
use meridian_ociadapter.Json.{Json, Fields}
use meridian_ociadapter.ObjectCommon.{
  ObjectCommon, ContentIdentity, ObjectReference, ObjectMetadata, ImmutabilityRequest,
  RetentionRequest,
}
use meridian_ociadapter.Binding.{ResourceRef, same_resource}
use meridian_ociadapter.Transport.Models.{OciDescriptor}
use meridian_ociadapter.Transport.Client.Blobs.Laws.{same_text}
use meridian_ociadapter.Transport.Interface.{IsVerifying}
use meridian_ociadapter.Adapter.{Input, OciDistributionAdapter}
use meridian_ociadapter.Adapter.Resolve.Laws.{stored_for_reference-Ensures}
use meridian_ociadapter.Adapter.Commit.{
  exact_reference, republish, metadata_of, publish_metadata, publish, commit_object,
}

-- `ObjectMetadata(…)` keeps the reference and the identity that it is given.
abbrev pub KeepsFields : ObjectCommon → Type 0
KeepsFields O =
    (r : ObjectReference) (i : ContentIdentity) (media_type : String) (created_at : ℕ)
    (creation_context user_metadata : Json) (mutability : String) (provenance : Fields)
    (m : ObjectMetadata)
    → O.object_metadata r i media_type created_at creation_context user_metadata mutability
        provenance
      ≡ ok m
    → (m.object_ref ≡ r) × (m.digest ≡ i.digest)

same_resource_refl : (r : ResourceRef) → same_resource r r ≡ true
same_resource_refl r = rw (eq_refl r.catalog, eq_refl r.namespace, eq_refl r.name) refl

module _ {W : Type 0} (self : OciDistributionAdapter W) where
  -- The metadata is of the object and the content that were to be committed.
  pub record IsCommitted (id hash : String) (m : ObjectMetadata) : Type 0 where
    pub resource : same_resource m.object_ref.resource_ref self.binding.resource_ref ≡ true
    pub object_id : m.object_ref.object_id ≡ id
    pub digest : m.digest ≡ hash

  module _
      (keeps : IsVerifying self.hashing self.codec self.binding.max_manifest_bytes self.transport)
      (fields : KeepsFields self.common) (input : Input) (identity : ContentIdentity)
      (immutability : ImmutabilityRequest) where
    republish-Ensures :
        (create_only : Bool)
        → Ensures
            (republish self input identity immutability create_only)
            (IsCommitted input.object_id identity.digest)
    unfolding republish
    republish-Ensures create_only = Ensures-guard _ _ _ λ _.
        Ensures-bind _ _ _
          (stored_for_reference-Ensures self keeps
            (exact_reference self input identity immutability))
          λ r resolved. Ensures-lifted _ _ λ latest _. Ensures-then _ _ λ _.
            Ensures-pure r.stored.metadata (record {
              resource = resolved.resource;
              object_id = resolved.object_id;
              digest = same_text r.stored.metadata.digest identity.digest resolved.digest;
            })

    metadata_of-Ensures :
        Ensures
          (metadata_of self input identity immutability)
          (IsCommitted input.object_id identity.digest)
    unfolding metadata_of
    metadata_of-Ensures = Ensures-lifted _ _ λ provenance _. Ensures-then _ _ λ created_at.
        Ensures-lift _ λ m e.
          let (r, d) = fields _ _ _ _ _ _ _ _ m e in
          record {
            resource =
                subst
                  (λ (x : ObjectReference).
                    same_resource x.resource_ref self.binding.resource_ref ≡ true)
                  (sym r) (same_resource_refl self.binding.resource_ref);
            object_id = ap (λ (x : ObjectReference). x.object_id) r;
            digest = d;
          }

    publish_metadata-Ensures :
        (exact_tag : String) (retention : Option RetentionRequest) (anchor : OciDescriptor)
        (m : ObjectMetadata)
        → IsCommitted input.object_id identity.digest m
        → Ensures
            (publish_metadata self input identity immutability exact_tag retention anchor m)
            (IsCommitted input.object_id identity.digest)
    unfolding publish_metadata
    publish_metadata-Ensures exact_tag retention anchor m h = Ensures-guard _ _ _ λ _.
        Ensures-then _ _ λ config. Ensures-lifted _ _ λ payload _.
          Ensures-then _ _
            λ _. Ensures-lifted _ _ λ latest _. Ensures-then _ _ λ _. Ensures-pure m h

    -- A commit that returns gives metadata of the object and the content that were committed, where it
    -- publishes them and where it finds them published.
    pub commit_object-Ensures :
        (retention : Option RetentionRequest) (create_only : Bool)
        → Ensures
            (commit_object self input identity immutability retention create_only)
            (IsCommitted input.object_id identity.digest)
    unfolding commit_object publish
    commit_object-Ensures retention create_only = Ensures-then _ _ λ _.
        Ensures-lifted _ _ λ exact_tag _. Ensures-then _ _ λ exists.
          Ensures-if exists _ _ (λ _. republish-Ensures create_only)
            λ _. Ensures-then _ _ λ anchor.
              Ensures-bind _ _ _ metadata_of-Ensures
                λ m h. publish_metadata-Ensures exact_tag retention anchor m h
