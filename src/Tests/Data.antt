-- ===== src/Tests/Data.antt =====
-- A registry with fixed answers, and an adapter over it.
pub mod Packages
use meridian_ociadapter.Prelude.{
  ℕ, ◌+◌, refl, sym, ap, true, false, not, [], ◌∷◌, String, Option, none, some, ltb, ◌==◌, ◌=ˢ◌,
  codes, length, starts_with, not-ltb→le, ==→eq, if◌then◌else◌,
}
use meridian_ociadapter.Effect.{
  Result, json_decode_error, ok, err, M, pure, lift, ◌>>◌, raise_if, value_error,
}
use meridian_ociadapter.Effect.Rules.{ok-injective, Ensures-pure, Ensures-lift, Ensures-guard}
use meridian_ociadapter.Hashing.{Bytes, Hashing, IsSha256, sha256_digest}
use meridian_ociadapter.Json.{Fields, Json, null, str, obj, end, Codec}
use meridian_ociadapter.Binding.{OciDistributionBinding, ResourceRef}
use meridian_ociadapter.ObjectCommon.{
  ObjectCommon, ObjectReference, ObjectMetadata, PayloadReference, ImmutabilityRequest,
  RetentionRequest, SelectedRange, PutState,
}
use meridian_ociadapter.Transport.Models.{
  ManifestDocument, OciDescriptor, parse, anchor_value, object_value, oci_manifest_media_type,
  meridian_object_config_media_type,
}
use meridian_ociadapter.Transport.Client.Manifests.Laws.{parse-Names}
use meridian_ociadapter.Adapter.Resolve.Laws.{not-false}
use meridian_ociadapter.Transport.Stream.{done, chunk}
use meridian_ociadapter.Transport.Client.Manifests.{expected_digest}
use meridian_ociadapter.Transport.Client.Blobs.Laws.{same_text}
use meridian_ociadapter.Transport.Interface.{Transport, IsVerifying}
use meridian_ociadapter.Transport.Stored.{stored_value}
use meridian_ociadapter.Adapter.Commit.Laws.{KeepsFields}
use meridian_ociadapter.Adapter.{OciDistributionAdapter, Operation}
pub use Packages.*

abbrev pub anchor_descriptor : OciDescriptor
anchor_descriptor = record {
  media_type = oci_manifest_media_type;
  digest = sha256_digest toy_hashing anchor_body;
  size = 1;
}

abbrev pub config_descriptor : OciDescriptor
config_descriptor = record {
  media_type = meridian_object_config_media_type;
  digest = sha256_digest toy_hashing config_body;
  size = 1;
}

abbrev pub payload_descriptor : OciDescriptor
payload_descriptor = record { media_type = "text/plain"; digest = payload_digest; size = 2 }

abbrev no_codec : Codec
no_codec = record { dumps = λ v. []; loads = λ b. err json_decode_error }

abbrev demo_loads : ℕ → Result Json
demo_loads b =
    if b == 1
    then ok
        (object_value anchor_descriptor config_descriptor payload_descriptor "h" "now" "immutable")
    else if b == 2
    then ok (anchor_value toy_hashing no_codec "h")
    else if b == 3
    then ok (
        stored_value demo_common (record {
          metadata = demo_metadata;
          immutability = demo_immutability;
          retention = some demo_retention;
        }))
    else err json_decode_error

-- The three documents of the registry stand for themselves as one byte each.
abbrev pub demo_codec : Codec
demo_codec = record { dumps = λ v. config_body; loads = λ b. demo_loads (first_byte b) }

abbrev pub version_name : String
version_name = "m-v1-x"

abbrev body_for : String → Bytes
body_for tag = if starts_with tag "m-a1-" then anchor_body else object_body

abbrev fetch_blob : OciDescriptor → ℕ → M (Unit {0}) Bytes
fetch_blob d maximum = do
  raise_if (not (1 == d.size)) value_error
  raise_if (ltb maximum 1) value_error
  raise_if (not (sha256_digest toy_hashing config_body =ˢ d.digest)) value_error
  pure config_body

abbrev pub demo_transport : Transport (Unit {0})
demo_transport = record {
  head_blob = λ d. pure none;
  start_upload = pure (record { url = "u"; uuid = none; minimum_chunk_bytes = none; offset = 0 });
  patch_upload = λ u c. pure (record u { offset = u.offset + length c });
  finish_upload = λ u d. pure payload_descriptor;
  abort_upload = λ u. pure tt;
  upload_blob_bytes = λ b t.
      pure (record { media_type = t; digest = sha256_digest toy_hashing b; size = length b });
  get_blob_bytes = fetch_blob;
  get_manifest = λ r. lift (parse toy_hashing demo_codec (body_for r) (expected_digest r) 5000);
  manifest_exists = λ r. pure false;
  put_manifest = λ r b. pure (record {
    media_type = oci_manifest_media_type;
    digest = sha256_digest toy_hashing b;
    size = length b;
  });
  delete_manifest = λ d. pure true;
  list_tags = λ n last. pure (record { tags = "other" ∷ version_name ∷ []; has_more = true });
}

pub demo_transport-IsVerifying : IsVerifying toy_hashing demo_codec 5000 demo_transport
demo_transport-IsVerifying = record {
  blob = λ d maximum. Ensures-guard _ _ _ λ size. Ensures-guard _ _ _ λ bound.
      Ensures-guard _ _ _ λ digest. Ensures-pure config_body (record {
        size = ==→eq 1 d.size (not-false (1 == d.size) size);
        bounded = not-ltb→le maximum 1 bound;
        digest = same_text _ d.digest digest;
      });
  manifest = λ r.
      Ensures-lift (parse toy_hashing demo_codec (body_for r) (expected_digest r) 5000)
        λ doc e. parse-Names toy_hashing demo_codec (body_for r) r 5000 doc e;
  started = Ensures-pure _ refl;
  chunk = λ u c. Ensures-pure _ refl;
  stored = λ b t. Ensures-pure _ refl;
  published = λ r b. Ensures-pure _ refl;
}

abbrev pub demo_adapter : OciDistributionAdapter (Unit {0})
demo_adapter = record {
  binding = demo_binding;
  transport = demo_transport;
  clock = pure (record { aware = true; instant = 9 });
  payloads = record {
    register = λ source size digest. pure demo_payload;
    open_chunks = λ p size. pure (chunk (7 ∷ []) (chunk (8 ∷ []) done));
  };
  common = demo_common;
  hashing = toy_hashing;
  codec = demo_codec;
  cursor_json = demo_codec;
  capability_fingerprint = "f";
}

abbrev pub demo_operation : Operation
demo_operation = record {
  catalog = "object";
  operation_contract = "meridian.object.get";
  operation_version = "1.0.0";
  resources = demo_resource ∷ [];
  requirements = null;
  input = record {
    object_id = "doc";
    payload = obj end;
    create_only = true;
    immutability = none;
    retention = none;
    provenance = obj end;
    media_type = "text/plain";
    creation_context = null;
    user_metadata = null;
    expected_digest = none;
    expected_length = none;
    reference = obj end;
    range = obj end;
    prefix = "do";
    limit = 1;
    cursor = none;
  };
}

abbrev pub fields_of : Json → Fields
fields_of (obj fs) = fs
fields_of _ = end

-- The object's manifest, with any body that decodes to it.
abbrev pub demo_document : Bytes → ManifestDocument
demo_document body = record {
  body = body;
  digest = sha256_digest toy_hashing body;
  media_type = oci_manifest_media_type;
  value =
      fields_of
        (object_value anchor_descriptor config_descriptor payload_descriptor "h" "now" "immutable");
}

pub demo_common-KeepsFields : KeepsFields demo_common
demo_common-KeepsFields r i media_type created_at creation_context user_metadata mutability
      provenance m e =
    (
      ap (λ (x : ObjectMetadata). x.object_ref) (ok-injective (sym e)),
      ap (λ (x : ObjectMetadata). x.digest) (ok-injective (sym e)),
    )
