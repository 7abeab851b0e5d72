-- ===== src/Adapter.antt =====
-- `OciDistributionAdapter` of adapter.py: the object, the operations that it accepts, and the steps
-- that its handlers share. The handlers are in the modules below.
pub mod Resolve
pub mod Upload
pub mod Commit
pub mod Put
pub mod Handlers
use meridian_ociadapter.Prelude.{
  ℕ, Bool, true, false, ◌&&◌, ◌||◌, not, List, [], ◌∷◌, ◌++◌, String, Option, none, some, ◌=ˢ◌,
  starts_with, contains_text, if◌then◌else◌,
}
use meridian_ociadapter.Effect.{
  Error, Result, ok, err, bind_result, translate, is_type_or_value_error, M, pure, raise, lift,
  try_except, continue, ◌>>=◌, ◌>>◌, raise_if, object_invalid_request, object_capability_mismatch,
  immutable_object_conflict, conditional_conflict, value_error,
}
use meridian_ociadapter.Hashing.{Bytes, Hashing}
use meridian_ociadapter.Json.{Json, obj, Fields, Codec, as_obj}
use meridian_ociadapter.Naming.{anchor_tag, latest_tag}
use meridian_ociadapter.Cursor.{CursorCodec}
use meridian_ociadapter.Binding.{OciDistributionBinding, ResourceRef, same_resource}
use meridian_ociadapter.ObjectCommon.{
  ObjectCommon, ObjectReference, ImmutabilityRequest, RetentionRequest, PayloadRegistry, Datetime,
}
use meridian_ociadapter.Transport.Models.{UploadLocation}
use meridian_ociadapter.Transport.Interface.{Transport}

-- The input of an operation: Core validates it, so each handler finds its keys with their types.
-- A cursor is given by its code points.
pub record Input : Type 0 where
  pub object_id : String
  pub payload : Json
  pub create_only : Bool
  pub immutability : Option Fields
  pub retention : Option Fields
  pub provenance : Json
  pub media_type : String
  pub creation_context : Json
  pub user_metadata : Json
  pub expected_digest : Option String
  pub expected_length : Option ℕ
  pub reference : Json
  pub range : Json
  pub prefix : String
  pub limit : ℕ
  pub cursor : Option (List ℕ)

pub record Operation : Type 0 where
  pub catalog : String
  pub operation_contract : String
  pub operation_version : String
  pub resources : List ResourceRef
  pub requirements : Json
  pub input : Input

-- The adapter, with the packages that it is built on. `capability_fingerprint` is that of the
-- manifest that the adapter declares.
pub record OciDistributionAdapter (W : Type 0) : Type 0 where
  pub binding : OciDistributionBinding
  pub transport : Transport W
  pub clock : M W Datetime
  pub payloads : PayloadRegistry W
  pub common : ObjectCommon
  pub hashing : Hashing
  pub codec : Codec
  pub cursor_json : Codec
  pub capability_fingerprint : String

-- `available_operation_contracts` of `configured_capability_manifest`
unfoldable pub available_operation_contracts : OciDistributionBinding → List String
available_operation_contracts binding =
    "meridian.object.put"
    ∷ "meridian.object.get"
    ∷ "meridian.object.stat"
    ∷ "meridian.object.read_range"
    ∷ "meridian.object.list"
    ∷ (if binding.deletion_enabled then "meridian.object.delete" ∷ [] else [])

-- `operation.resources == (binding.resource_ref,)`
abbrev is_single : ResourceRef → List ResourceRef → Bool
is_single r (s ∷ []) = same_resource s r
is_single r _ = false

-- The kinds of operation that the adapter handles. A contract's last word is its method; of the
-- available contracts each has its own handler.
pub data Method : Type 0 where
  put get stat read_range list delete : Method

abbrev method_of : String → Option Method
method_of contract =
    if contract =ˢ "meridian.object.put"
    then some put
    else if contract =ˢ "meridian.object.get"
    then some get
    else if contract =ˢ "meridian.object.stat"
    then some stat
    else if contract =ˢ "meridian.object.read_range"
    then some read_range
    else if contract =ˢ "meridian.object.list"
    then some list
    else if contract =ˢ "meridian.object.delete"
    then some delete
    else none

-- `_validate_operation`: the method's name, as the handler that `execute` finds for it
unfoldable pub validate_operation : OciDistributionBinding → Operation → Result (Option Method)
unfolding available_operation_contracts
validate_operation binding operation =
    if not (operation.catalog =ˢ "object")
      || not (starts_with operation.operation_contract "meridian.object.")
    then err object_invalid_request
    else if not (operation.operation_version =ˢ "1.0.0")
    then err object_capability_mismatch
    else if not (is_single binding.resource_ref operation.resources)
    then err object_invalid_request
    else if not (contains_text operation.operation_contract (available_operation_contracts binding))
    then err object_capability_mismatch
    else ok (method_of operation.operation_contract)

module _ {W : Type 0} (self : OciDistributionAdapter W) where
  -- `_immutability`, also of multipart/__init__.py: an absent request means immutable
  unfoldable pub immutability_of : Option Fields → Result ImmutabilityRequest
  immutability_of none = ok (record { mutability = "immutable"; publish_once = false })
  immutability_of (some value) = self.common.immutability_from_mapping value

  abbrev some_request : RetentionRequest → Option RetentionRequest
  some_request r = some r

  -- `_retention`
  unfoldable pub retention_of : Option Fields → Result (Option RetentionRequest)
  retention_of none = ok none
  retention_of (some value) =
      bind_result (self.common.retention_from_mapping value) λ r. ok (some_request r)

  unfoldable pub object_reference_for_operation : Operation → ObjectReference
  object_reference_for_operation operation = record {
    resource_ref = self.binding.resource_ref;
    object_id = operation.input.object_id;
    digest = operation.input.expected_digest;
  }

  -- The tag whose existence refuses a create, and the error.
  abbrev guarding_tag : String → Bool → Result String
  guarding_tag object_id publish_once =
      if publish_once then anchor_tag self.hashing object_id else latest_tag self.hashing object_id

  abbrev pub conflict_of : Bool → Error
  conflict_of publish_once =
      if publish_once then immutable_object_conflict else conditional_conflict

  unfoldable pub require_create_available : String → ImmutabilityRequest → Bool → M W (Unit {0})
  require_create_available object_id immutability false = pure tt
  require_create_available object_id immutability true = do
    reference ← lift (guarding_tag object_id immutability.publish_once)
    exists ← self.transport.manifest_exists reference
    raise_if exists (conflict_of immutability.publish_once)

  -- `_now`
  unfoldable pub now : M W Datetime
  now = do value ← self.clock; raise_if (not value.aware) value_error; pure value

  -- `_abort_safely`
  unfoldable pub abort_safely : UploadLocation → M W (Unit {0})
  abort_safely upload = try_except (self.transport.abort_upload upload) (λ _. pure tt)

  reference_in : Option Fields → Bool → Result ObjectReference
  reference_in none require_digest = err object_invalid_request
  reference_in (some raw) require_digest =
      bind_result
        (translate is_type_or_value_error object_invalid_request
          (self.common.parse_object_reference raw require_digest))
        (λ r.
          if not (same_resource r.resource_ref self.binding.resource_ref)
          then err object_invalid_request
          else ok r)

  -- `_reference`
  unfoldable pub reference : Input → Bool → Result ObjectReference
  unfolding reference_in
  reference input require_digest = reference_in (as_obj (some input.reference)) require_digest
