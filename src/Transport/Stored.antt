-- ===== src/Transport/Stored.antt =====
-- `StoredObject` of transport/models.py: the metadata envelope in the config blob.
pub mod Laws
use meridian_ociadapter.Prelude.{
  ℕ, Bool, true, ◌&&◌, not, String, Option, none, some, ltb, ◌==◌, length, is_some, List, [], ◌∷◌,
  suc, if◌then◌else◌,
}
use meridian_ociadapter.Effect.{Result, ok, err, value_error, bind_result}
use meridian_ociadapter.Hashing.{Bytes}
use meridian_ociadapter.Json.{
  Json, null, str, obj, Fields, end, field, get, is_str, Codec, canonical_json, parse_json_object,
}
use meridian_ociadapter.ObjectCommon.{
  ObjectCommon, ObjectMetadata, ImmutabilityRequest, RetentionRequest,
}
use meridian_ociadapter.Transport.Models.{stored_metadata_format}

pub record StoredObject : Type 0 where
  pub metadata : ObjectMetadata
  pub immutability : ImmutabilityRequest
  pub retention : Option RetentionRequest

abbrev pub count_fields : Fields → ℕ
count_fields end = 0
count_fields (field k v fs) = suc (count_fields fs)

abbrev pub has_keys : List String → Fields → Bool
has_keys [] fs = true
has_keys (k ∷ ks) fs = is_some (get k fs) && has_keys ks fs

-- `set(raw) == {…}` with four names, for a dict, whose keys are distinct
abbrev pub has_stored_keys : Fields → Bool
has_stored_keys fs =
    has_keys ("formatVersion" ∷ "metadata" ∷ "immutability" ∷ "retention" ∷ []) fs
    && count_fields fs == 4

module _ (O : ObjectCommon) where
  abbrev pub retention_value : Option RetentionRequest → Json
  retention_value none = null
  retention_value (some r) = O.retention_to_dict r

  abbrev pub stored_value : StoredObject → Json
  stored_value s = obj (
      field "formatVersion" (str stored_metadata_format) (
        field "metadata" (O.metadata_to_dict s.metadata) (
          field "immutability" (O.immutability_to_dict s.immutability)
            (field "retention" (retention_value s.retention) end))))

  unfoldable pub to_bytes : Codec → StoredObject → Bytes
  to_bytes J s = canonical_json J (stored_value s)

  abbrev stored_of : Fields → Fields → Option Fields → Result StoredObject
  stored_of metadata immutability none = bind_result (O.parse_object_metadata metadata) λ m.
      bind_result (O.immutability_from_mapping immutability)
        λ i. ok (record { metadata = m; immutability = i; retention = none })
  stored_of metadata immutability (some retention) =
      bind_result (O.parse_object_metadata metadata) λ m.
        bind_result (O.immutability_from_mapping immutability) λ i.
          bind_result (O.retention_from_mapping retention)
            λ r. ok (record { metadata = m; immutability = i; retention = some r })

  -- The three values, which must be mappings, but the retention may be null.
  abbrev three_values : Option Json → Option Json → Option Json → Result StoredObject
  three_values (some (obj m)) (some (obj i)) (some null) = stored_of m i none
  three_values (some (obj m)) (some (obj i)) (some (obj r)) = stored_of m i (some r)
  three_values _ _ _ = err value_error

  abbrev decoded : Fields → Result StoredObject
  decoded raw =
      if not (has_stored_keys raw)
      then err value_error
      else if not (is_str stored_metadata_format (get "formatVersion" raw))
      then err value_error
      else three_values (get "metadata" raw) (get "immutability" raw) (get "retention" raw)

  unfoldable pub from_bytes : Codec → Bytes → ℕ → Result StoredObject
  from_bytes J value maximum_bytes =
      if ltb maximum_bytes (length value)
      then err value_error
      else bind_result (parse_json_object J value) decoded
