-- ===== src/Tests/Transfers.antt =====
-- An export of the demo object, and its import.
use meridian_ociadapter.Prelude.{◌≡◌, refl, some}
use meridian_ociadapter.Effect.{ok}
use meridian_ociadapter.Json.{null, field, str, end}
use meridian_ociadapter.Migration.{LogicalObjectExport, ObjectCatalog, pop_field}
use meridian_ociadapter.Tests.Data.{
  demo_reference, demo_payload, demo_metadata, demo_retention, demo_immutability, demo_operation,
}

abbrev demo_catalog : ObjectCatalog
demo_catalog = record {
  parse_object_reference = λ reference. ok demo_reference;
  put = λ expression. ok demo_operation;
}

abbrev demo_export : LogicalObjectExport
demo_export = record {
  metadata = demo_metadata;
  payload = demo_payload;
  immutability = demo_immutability;
  retention = some demo_retention;
}

-- The provenance of the adapter that an object comes from is dropped.
drops :
    pop_field "meridianAdapter" (field "a" null (field "meridianAdapter" (str "x") end))
    ≡ field "a" null end
unfolding pop_field
drops = refl
