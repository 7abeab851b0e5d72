-- ===== src/Tests/Runs.antt =====
-- The adapter's handlers, run.
use meridian_ociadapter.Prelude.{
  ◌≡◌, refl, arith, ◌≤◌, false, true, [], ◌∷◌, codes, some, strip_prefix, first_chars, All,
}
use meridian_ociadapter.Effect.{ok, ◌>>=◌}
use meridian_ociadapter.Effect.Locals.{on_world, locals, assign}
use meridian_ociadapter.Naming.{
  digest_hex, tag, anchor_tag, latest_tag, version_tag, object_id_hash, version_tag_prefix,
}
use meridian_ociadapter.Json.{Json, parse_json_object, canonical_json, obj, end, field, bool, str}
use meridian_ociadapter.ObjectCommon.{ContentIdentity}
use meridian_ociadapter.Hashing.{sha256_digest}
use meridian_ociadapter.Transport.Models.{
  descriptor, descriptor_of_values, from_mapping, to_dict, parse, manifest_descriptors,
  build_anchor_manifest,
}
use meridian_ociadapter.Transport.Stored.{from_bytes, to_bytes}
use meridian_ociadapter.Cursor.{encode}
use meridian_ociadapter.Retention.{require_delete_permitted}
use meridian_ociadapter.Adapter.{
  reference, now, immutability_of, retention_of, require_create_available,
}
use meridian_ociadapter.Adapter.Commit.{
  commit_object, publish, ensure_anchor, metadata_of, provenance_of, publish_metadata,
}
use meridian_ociadapter.Adapter.Put.{put, payload_in, run_put, put_body, transition}
use meridian_ociadapter.Adapter.Put.Laws.{IsPut, put-IsPut}
use meridian_ociadapter.Adapter.Handlers.{
  Listing, get_object, delete_object, list_objects, scan_tags, scan_version, cursor_of,
}
use meridian_ociadapter.Prelude.{◌⊎◌, String}
use meridian_ociadapter.Adapter.Handlers.Recording.{recording}
use meridian_ociadapter.Adapter.Handlers.Deletion.{IsDeletable, delete_object-IsDeletable}
use meridian_ociadapter.Adapter.{validate_operation}
use meridian_ociadapter.Adapter.Handlers.{execute, mapping}
use meridian_ociadapter.Adapter.Handlers.Admission.{IsAdmitted, execute-IsAdmitted}
use meridian_ociadapter.Tests.Data.{demo_binding}
use meridian_ociadapter.Adapter.Handlers.Laws.{IsItem, list_objects-Items}
use meridian_ociadapter.Adapter.Handlers.Access.{IsDelete, delete_object-IsDelete}
use meridian_ociadapter.Adapter.Resolve.{
  ResolvedObject, stored_for_reference, stored_from_manifest, stored_from_descriptors,
}
use meridian_ociadapter.Adapter.Upload.{
  upload_payload, attempt_loop, attempt_upload, transfer, take_chunk, verify_identity,
}
use meridian_ociadapter.Adapter.Upload.Laws.{IsUploaded, upload_payload-IsUploaded}
use meridian_ociadapter.Tests.Data.{
  demo_document, demo_adapter, demo_transport-IsVerifying, demo_payload, payload_digest,
  demo_metadata, demo_retention, demo_operation, demo_common-KeepsFields, demo_codec, version_name,
  object_body, toy_hashing, payload_descriptor,
}

abbrev demo_get_answer : Json
demo_get_answer = obj (field "metadata" (obj end) (field "payload" (str "p") end))

abbrev demo_range_answer : Json
demo_range_answer =
    obj (field "metadata" (obj end) (field "payload" (str "p") (field "range" (obj end) end)))

abbrev demo_delete_answer : Json
demo_delete_answer = obj (field "deleted" (bool true) end)

abbrev demo_put_answer : Json
demo_put_answer = obj (field "metadata" (obj end) end)

abbrev demo_identity : ContentIdentity
demo_identity = record { digest = payload_digest; byte_length = 2 }

uploads : (upload_payload demo_adapter demo_payload tt).0 ≡ ok demo_identity
unfolding upload_payload attempt_loop attempt_upload transfer take_chunk verify_identity ◌>>=◌
    on_world locals assign sha256_digest
uploads = refl

upload_payload-IsUploaded_example : IsUploaded demo_adapter demo_payload demo_identity
upload_payload-IsUploaded_example =
    upload_payload-IsUploaded demo_adapter demo_payload demo_transport-IsVerifying tt demo_identity
      uploads

abbrev demo_object : ResolvedObject
demo_object = record {
  stored = record {
    metadata = demo_metadata;
    immutability = record { mutability = "immutable"; publish_once = false };
    retention = some demo_retention;
  };
  manifest = demo_document object_body;
  payload = payload_descriptor;
}

deletes : (delete_object demo_adapter demo_operation tt).0 ≡ ok demo_delete_answer
unfolding delete_object reference now require_delete_permitted stored_for_reference
    stored_from_manifest stored_from_descriptors version_tag anchor_tag tag digest_hex
    object_id_hash codes strip_prefix first_chars parse manifest_descriptors from_mapping to_dict
    descriptor descriptor_of_values from_bytes parse_json_object sha256_digest ◌>>=◌
deletes = refl

delete_object-IsDelete_example : IsDelete demo_adapter demo_operation tt demo_delete_answer
delete_object-IsDelete_example =
    delete_object-IsDelete demo_adapter demo_transport-IsVerifying demo_operation tt
      demo_delete_answer deletes

abbrev demo_listing : Listing
demo_listing = record {
  items = demo_metadata ∷ [];
  cursor = some (encode toy_hashing demo_codec (cursor_of demo_adapter) version_name);
}

lists : (list_objects demo_adapter demo_operation tt).0 ≡ ok demo_listing
unfolding list_objects scan_tags scan_version version_tag_prefix stored_for_reference
    stored_from_manifest stored_from_descriptors version_tag anchor_tag tag digest_hex
    object_id_hash codes strip_prefix first_chars parse manifest_descriptors from_mapping to_dict
    descriptor descriptor_of_values from_bytes parse_json_object sha256_digest ◌>>=◌
lists = refl

list_objects-Items_example : All (IsItem demo_adapter "do") (demo_metadata ∷ []) × (1 ≤ 1)
list_objects-Items_example =
    list_objects-Items demo_adapter demo_transport-IsVerifying demo_operation tt demo_listing
      (omega arith) lists

puts : (put demo_adapter demo_operation tt).0 ≡ ok demo_put_answer
unfolding put payload_in immutability_of retention_of require_create_available run_put put_body
    transition upload_payload attempt_loop attempt_upload transfer take_chunk verify_identity
    on_world locals assign commit_object publish ensure_anchor metadata_of provenance_of now
    publish_metadata to_bytes latest_tag canonical_json build_anchor_manifest stored_for_reference
    stored_from_manifest stored_from_descriptors version_tag anchor_tag tag digest_hex
    object_id_hash codes strip_prefix first_chars parse manifest_descriptors from_mapping to_dict
    descriptor descriptor_of_values from_bytes parse_json_object sha256_digest ◌>>=◌
puts = refl

put-IsPut_example : IsPut demo_adapter demo_operation demo_put_answer
put-IsPut_example =
    put-IsPut demo_adapter demo_transport-IsVerifying demo_common-KeepsFields demo_operation tt
      demo_put_answer puts

delete_object-IsDeletable_example :
    ((delete_object (recording demo_adapter) demo_operation (tt, [])).1.1 ≡ [])
    ⊎ ((d : String) × IsDeletable demo_adapter demo_operation tt d
        × ((delete_object (recording demo_adapter) demo_operation (tt, [])).1.1 ≡ d ∷ []))
delete_object-IsDeletable_example =
    delete_object-IsDeletable demo_adapter demo_transport-IsVerifying demo_operation tt

executes : (execute demo_adapter demo_operation tt).0 ≡ ok (mapping demo_get_answer)
unfolding execute validate_operation get_object reference stored_for_reference stored_from_manifest
    stored_from_descriptors version_tag anchor_tag tag digest_hex object_id_hash codes strip_prefix
    first_chars parse manifest_descriptors from_mapping to_dict descriptor descriptor_of_values
    from_bytes parse_json_object sha256_digest ◌>>=◌
executes = refl

execute-IsAdmitted_example : IsAdmitted demo_binding demo_operation
execute-IsAdmitted_example =
    execute-IsAdmitted demo_adapter demo_operation tt (mapping demo_get_answer) executes
