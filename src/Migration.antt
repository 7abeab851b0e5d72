-- ===== src/Migration.antt =====
-- `OciLogicalMigration` of migration.py: an object leaves one binding and enters another by the
-- adapter's own operations.
pub mod Laws
use meridian_ociadapter.Prelude.{
  ℕ, Bool, true, false, not, String, Option, none, some, ◌=ˢ◌, if◌then◌else◌,
}
use meridian_ociadapter.Effect.{
  Result, ok, err, translate, is_type_or_value_error, M, pure, lift, continue, ◌>>=◌, ◌>>◌,
  raise_if, object_invalid_request,
}
use meridian_ociadapter.Json.{Json, null, str, obj, Fields, end, field}
use meridian_ociadapter.Binding.{ResourceRef, same_resource}
use meridian_ociadapter.ObjectCommon.{
  ObjectCommon, ObjectReference, ObjectMetadata, PayloadReference, ImmutabilityRequest,
  RetentionRequest,
}
use meridian_ociadapter.Adapter.{OciDistributionAdapter, Operation}
use meridian_ociadapter.Adapter.Resolve.{ResolvedObject, stored_for_reference}
use meridian_ociadapter.Adapter.Handlers.{Answer, execute}

pub record LogicalObjectExport : Type 0 where
  pub metadata : ObjectMetadata
  pub payload : PayloadReference
  pub immutability : ImmutabilityRequest
  pub retention : Option RetentionRequest

abbrev retention_value : ObjectCommon → Option RetentionRequest → Json
retention_value O none = null
retention_value O (some r) = O.retention_to_dict r

-- `to_dict`
unfoldable pub export_to_dict : ObjectCommon → LogicalObjectExport → Json
export_to_dict O self = obj (
    field "formatVersion" (str "meridian.object-logical-export.v1") (
      field "metadata" (O.metadata_to_dict self.metadata) (
        field "payload" (O.payload_to_dict self.payload) (
          field "immutability" (O.immutability_to_dict self.immutability)
            (field "retention" (retention_value O self.retention) end)))))

-- The arguments of `put` of the catalog's surface.
pub record PutExpression : Type 0 where
  pub resource : ResourceRef
  pub object_id : String
  pub payload : PayloadReference
  pub media_type : String
  pub expected_digest : String
  pub expected_length : ℕ
  pub user_metadata : Json
  pub creation_context : Json
  pub provenance : Fields
  pub immutability : ImmutabilityRequest
  pub retention : Option RetentionRequest
  pub create_only : Bool

-- What the migration uses of object_common: `parse_object_reference`, and `put` of the catalog's
-- surface with `normalize` of its provider.
pub record ObjectCatalog : Type 0 where
  pub parse_object_reference : Json → Result ObjectReference
  pub put : PutExpression → Result Operation

-- `provenance.pop(k, None)`
unfoldable pub pop_field : String → Fields → Fields
pop_field k end = end
pop_field k (field j v fs) = let rest = pop_field k fs in if j =ˢ k then rest else field j v rest

module _ {W : Type 0} (adapter : OciDistributionAdapter W) (catalog : ObjectCatalog) where
  unfoldable pub export_logical : Json → M W LogicalObjectExport
  export_logical reference = do
    parsed ← lift (
        translate is_type_or_value_error object_invalid_request
          (catalog.parse_object_reference reference))
    raise_if (not (same_resource parsed.resource_ref adapter.binding.resource_ref))
        object_invalid_request
    resolved ← stored_for_reference adapter parsed
    payload ←
        adapter.payloads.register
          (record { blob_digest = resolved.payload.digest; blob_range = none })
          (some resolved.payload.size) (some resolved.payload.digest)
    pure (record {
      metadata = resolved.stored.metadata;
      payload = payload;
      immutability = resolved.stored.immutability;
      retention = resolved.stored.retention;
    })

  abbrev pub put_expression : LogicalObjectExport → Bool → PutExpression
  put_expression exported create_only = record {
    resource = adapter.binding.resource_ref;
    object_id = exported.metadata.object_ref.object_id;
    payload = exported.payload;
    media_type = exported.metadata.media_type;
    expected_digest = exported.metadata.digest;
    expected_length = exported.metadata.byte_length;
    user_metadata = exported.metadata.user_metadata;
    creation_context = exported.metadata.creation_context;
    provenance = pop_field "meridianAdapter" exported.metadata.provenance;
    immutability = exported.immutability;
    retention = exported.retention;
    create_only = create_only;
  }

  unfoldable pub import_logical : LogicalObjectExport → Bool → M W Answer
  import_logical exported create_only = do
    operation ← lift (catalog.put (put_expression exported create_only))
    execute adapter operation
