-- ===== src/Adapter/Handlers.antt =====
-- `execute` of adapter.py and its handlers, but `_put`.
pub mod Laws
pub mod Access
pub mod Recording
pub mod Admission
pub mod Deletion
use meridian_ociadapter.Prelude.{
  ℕ, Bool, true, false, ◌&&◌, ◌||◌, not, List, [], ◌∷◌, ◌++◌, String, Option, none, some, ltb, ◌==◌,
  length, starts_with, if◌then◌else◌,
}
use meridian_ociadapter.Effect.{
  Result, ok, err, bind_result, M, pure, raise, lift, continue, ◌>>=◌, ◌>>◌, raise_if,
  object_invalid_request, object_capability_mismatch, object_not_found,
}
use meridian_ociadapter.Json.{
  Json, null, bool, arr, obj, Items, nil, cons, Fields, end, field, as_obj,
}
use meridian_ociadapter.Naming.{version_tag_prefix}
use meridian_ociadapter.Cursor.{CursorCodec, decode, encode}
use meridian_ociadapter.ObjectCommon.{ObjectCommon, ObjectMetadata, SelectedRange, BlobSource}
use meridian_ociadapter.Retention.{require_delete_permitted}
use meridian_ociadapter.Adapter.{
  Operation, OciDistributionAdapter, Method, validate_operation, reference, now,
}
use meridian_ociadapter.Adapter.Resolve.{ResolvedObject, stored_for_reference, stored_from_manifest}
use meridian_ociadapter.Adapter.Put

-- A page of a listing: the items found, the tag scanned last, and whether the limit ended the scan.
pub record Scan : Type 0 where
  pub items : List ObjectMetadata
  pub scanned : Option String
  pub stopped_early : Bool

-- What a listing answers. The cursor is given by its code points.
pub record Listing : Type 0 where
  pub items : List ObjectMetadata
  pub cursor : Option (List ℕ)

pub data Answer : Type 0 where
  mapping : Json → Answer
  listing : Listing → Answer

module _ {W : Type 0} (self : OciDistributionAdapter W) where
  -- `_get`
  unfoldable pub get_object : Operation → M W Json
  get_object operation = do
    r ← lift (reference self operation.input false)
    resolved ← stored_for_reference self r
    payload ←
        self.payloads.register (record { blob_digest = resolved.payload.digest; blob_range = none })
          (some resolved.payload.size) (some resolved.payload.digest)
    pure (
        obj (
          field "metadata" (self.common.metadata_to_dict resolved.stored.metadata)
            (field "payload" (self.common.payload_to_dict payload) end)))

  -- `_stat`
  unfoldable pub stat_object : Operation → M W Json
  stat_object operation = do
    r ← lift (reference self operation.input false)
    resolved ← stored_for_reference self r
    pure (Put.metadata_answer self.common resolved.stored.metadata)

  unfoldable range_in : Option Fields → Result Fields
  range_in none = err object_invalid_request
  range_in (some raw) = self.common.range_from_mapping raw

  -- `_read_range`
  unfoldable pub read_range : Operation → M W Json
  unfolding range_in
  read_range operation = do
    r ← lift (reference self operation.input false)
    byte_range ← lift (range_in (as_obj (some operation.input.range)))
    resolved ← stored_for_reference self r
    selected ← lift (self.common.range_resolve byte_range resolved.payload.size)
    raise_if (ltb self.binding.max_range_bytes selected.length) object_capability_mismatch
    payload ←
        self.payloads.register
          (record {
            blob_digest = resolved.payload.digest;
            blob_range = some (selected.start, selected.end);
          })
          (some selected.length) none
    pure (
        obj (
          field "metadata" (self.common.metadata_to_dict resolved.stored.metadata) (
            field "payload" (self.common.payload_to_dict payload)
              (field "range" (self.common.range_to_dict selected) end))))

  abbrev pub cursor_of : CursorCodec
  cursor_of = record { key = self.binding.cursor_signing_key }

  abbrev some_tag : String → Option String
  some_tag s = some s

  abbrev last_of : Option (List ℕ) → Result (Option String)
  last_of none = ok none
  last_of (some value) =
      bind_result (decode self.hashing self.cursor_json cursor_of value) λ s. ok (some_tag s)

  module _ (prefix : String) (limit : ℕ) where
    abbrev pub with_item : List ObjectMetadata → ObjectMetadata → List ObjectMetadata
    with_item items m = if starts_with m.object_ref.object_id prefix then items ++ m ∷ [] else items

    abbrev pub is_version : String → Bool
    is_version tag = starts_with tag (version_tag_prefix self.hashing none)

    -- One round of the loop, for the tag of a version, with the rest of the loop.
    unfoldable pub scan_version :
        String → List ObjectMetadata → (List ObjectMetadata → M W Scan) → M W Scan
    scan_version tag items next = do
      document ← self.transport.get_manifest tag
      resolved ← stored_from_manifest self document
      let found = with_item items resolved.stored.metadata
      if length found == limit
          then pure (record { items = found; scanned = some tag; stopped_early = true })
          else next found

    -- The loop over the page's tags, with the items so far and the tag scanned last.
    unfoldable pub scan_tags : List String → List ObjectMetadata → Option String → M W Scan
    scan_tags [] items scanned =
        pure (record { items = items; scanned = scanned; stopped_early = false })
    scan_tags (tag ∷ tags) items scanned =
        if not (is_version tag)
        then scan_tags tags items (some tag)
        else scan_version tag items (λ found. scan_tags tags found (some tag))

  -- `next_cursor`
  abbrev pub next_cursor : Option String → Bool → Option (List ℕ)
  next_cursor (some tag) true = some (encode self.hashing self.cursor_json cursor_of tag)
  next_cursor _ _ = none

  -- `_list`
  unfoldable pub list_objects : Operation → M W Listing
  list_objects operation = do
    last ← lift (last_of operation.input.cursor)
    page ← self.transport.list_tags self.binding.max_scan_tags last
    s ← scan_tags operation.input.prefix operation.input.limit page.tags [] none
    pure (record {
      items = s.items;
      cursor = next_cursor s.scanned (s.stopped_early || page.has_more);
    })

  -- `_delete`
  unfoldable pub delete_object : Operation → M W Json
  delete_object operation = do
    r ← lift (reference self operation.input true)
    resolved ← stored_for_reference self r
    time ← now self
    lift (require_delete_permitted self.common resolved.stored.retention time)
    deleted ← self.transport.delete_manifest resolved.manifest.digest
    raise_if (not deleted) object_not_found
    pure (obj (field "deleted" (bool true) end))

  abbrev answer_mapping : M W Json → M W Answer
  answer_mapping m = do j ← m; pure (mapping j)

  -- `handlers.get(method)`, called
  abbrev pub handle_method : Option Method → Operation → M W Answer
  handle_method none operation = raise object_invalid_request
  handle_method (some Method.put) operation = answer_mapping (Put.put self operation)
  handle_method (some Method.get) operation = answer_mapping (get_object operation)
  handle_method (some Method.stat) operation = answer_mapping (stat_object operation)
  handle_method (some Method.read_range) operation = answer_mapping (read_range operation)
  handle_method (some Method.list) operation = do l ← list_objects operation; pure (listing l)
  handle_method (some Method.delete) operation = answer_mapping (delete_object operation)

  unfoldable pub execute : Operation → M W Answer
  execute operation = do
    method ← lift (validate_operation self.binding operation)
    lift (self.common.require_object_capabilities operation.requirements)
    handle_method method operation
