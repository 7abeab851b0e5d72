-- ===== src/ObjectCommon.antt =====
-- What the package uses of meridian_storage.object_common, a package of its own: the fields of its
-- values, and its functions as parameters.
use meridian_ociadapter.Prelude.{ℕ, Bool, String, Option}
use meridian_ociadapter.Effect.{Result, M}
use meridian_ociadapter.Json.{Json, Fields}
use meridian_ociadapter.Binding.{ResourceRef}
use meridian_ociadapter.Transport.Stream.{Chunks}

pub record ObjectReference : Type 0 where
  pub resource_ref : ResourceRef
  pub object_id : String
  pub digest : Option String

pub record ContentIdentity : Type 0 where
  pub digest : String
  pub byte_length : ℕ

pub record ObjectMetadata : Type 0 where
  pub object_ref : ObjectReference
  pub digest : String
  pub byte_length : ℕ
  pub media_type : String
  pub created_at : String
  pub creation_context : Json
  pub user_metadata : Json
  pub mutability : String
  pub provenance : Fields

pub record ImmutabilityRequest : Type 0 where
  pub mutability : String
  pub publish_once : Bool

-- `retain_until` is an instant; `detail` is whatever else a request holds.
pub record RetentionRequest : Type 0 where
  pub retain_until : Option ℕ
  pub detail : Json

pub record PayloadReference : Type 0 where
  pub payload_id : String
  pub replayable : Bool
  pub expected_length : Option ℕ
  pub expected_digest : Option String

-- A range as asked for, serialized, and a range of an object of known size.
pub record SelectedRange : Type 0 where
  pub start : ℕ
  pub end : ℕ
  pub length : ℕ

-- A `datetime`: whether it has a time zone, and its instant.
pub record Datetime : Type 0 where
  pub aware : Bool
  pub instant : ℕ

-- The states of a put that the source names, and any other.
pub data PutState : Type 0 where
  uploading verifying committed aborted : PutState
  other_state : ℕ → PutState

-- The functions and constructors. Those that may raise return a `Result`.
pub record ObjectCommon : Type 0 where
  -- `ObjectMetadata(…)`, with the creation time as an instant
  pub object_metadata :
      ObjectReference
      → ContentIdentity
      → String
      → ℕ
      → Json
      → Json
      → String
      → Fields
      → Result ObjectMetadata
  pub metadata_to_dict : ObjectMetadata → Json
  pub parse_object_metadata : Fields → Result ObjectMetadata
  pub immutability_to_dict : ImmutabilityRequest → Json
  pub immutability_from_mapping : Fields → Result ImmutabilityRequest
  pub retention_to_dict : RetentionRequest → Json
  pub retention_from_mapping : Fields → Result RetentionRequest
  -- `retention.require_delete_allowed(now=…)`
  pub require_delete_allowed : RetentionRequest → ℕ → Result (Unit {0})
  pub parse_object_reference : Fields → Bool → Result ObjectReference
  pub payload_from_mapping : Fields → Result PayloadReference
  pub payload_to_dict : PayloadReference → Json
  -- `ByteRange.from_mapping(raw).resolve(size)`, in two steps
  pub range_from_mapping : Fields → Result Fields
  pub range_resolve : Fields → ℕ → Result SelectedRange
  pub range_to_dict : SelectedRange → Json
  -- `PutStateMachine()`, `transition` and `fail`
  pub put_start : PutState
  pub put_transition : PutState → PutState → Result PutState
  pub put_fail : PutState → Bool → Result PutState
  -- `require_object_capabilities(manifest, requirements)`, for the package's own manifest
  pub require_object_capabilities : Json → Result (Unit {0})

-- A payload source over a blob of the registry, or a range of it.
pub record BlobSource : Type 0 where
  pub blob_digest : String
  pub blob_range : Option (ℕ × ℕ)

-- The payload registry over a world. Opening a payload fixes what its chunks will be, or raises.
pub record PayloadRegistry (W : Type 0) : Type 0 where
  pub register : BlobSource → Option ℕ → Option String → M W PayloadReference
  -- `payloads.open(payload)` with `iter_payload_chunks(stream, chunk_size=…)`
  pub open_chunks : PayloadReference → ℕ → M W Chunks
