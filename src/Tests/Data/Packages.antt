-- ===== src/Tests/Data/Packages.antt =====
-- Concrete packages, a binding and the values of one object.
use meridian_ociadapter.Prelude.{
  ℕ, refl, true, false, [], ◌∷◌, String, none, some, ltb, ◌==◌, codes, if◌then◌else◌,
}
use meridian_ociadapter.Effect.{ok, err, value_error}
use meridian_ociadapter.Hashing.{Bytes, Hashing, IsSha256, sha256_digest}
use meridian_ociadapter.Json.{null, str, obj, end}
use meridian_ociadapter.Binding.{OciDistributionBinding, ResourceRef}
use meridian_ociadapter.ObjectCommon.{
  ObjectCommon, ObjectReference, ObjectMetadata, PayloadReference, ImmutabilityRequest,
  RetentionRequest, SelectedRange, PutState,
}

abbrev hex_of : ℕ → String
hex_of b =
    if b == 1
    then "1111111111111111111111111111111111111111111111111111111111111111"
    else if b == 2
    then "2222222222222222222222222222222222222222222222222222222222222222"
    else if b == 3
    then "3333333333333333333333333333333333333333333333333333333333333333"
    else "7777777777777777777777777777777777777777777777777777777777777777"

abbrev pub first_byte : Bytes → ℕ
first_byte [] = 0
first_byte (b ∷ bs) = b

-- A hash that depends on the first byte only.
abbrev pub toy_hashing : Hashing
toy_hashing = record {
  sha256_hex = λ b. hex_of (first_byte b);
  hmac_sha256 = λ key b. 1 ∷ 2 ∷ 3 ∷ [];
  utf8 = codes;
}

abbrev pub plain_hashing : Hashing
plain_hashing = record {
  sha256_hex = λ b. "0000000000000000000000000000000000000000000000000000000000000000";
  hmac_sha256 = λ key b. 1 ∷ 2 ∷ 3 ∷ [];
  utf8 = codes;
}

pub plain_hashing-IsSha256 : IsSha256 plain_hashing
unfolding codes
plain_hashing-IsSha256 = record { hex = λ b. refl; size = λ b. refl }

abbrev pub demo_resource : ResourceRef
demo_resource = record { catalog = "object"; namespace = "files"; name = "main" }

abbrev pub demo_binding : OciDistributionBinding
demo_binding = record {
  resource_ref = demo_resource;
  endpoint = "https://r.example";
  repository = "a/b";
  authorization_header = ok (some "Bearer t");
  allow_insecure_http = false;
  chunk_size = 65536;
  max_object_bytes = 1000;
  max_range_bytes = 1000;
  max_manifest_bytes = 5000;
  max_metadata_bytes = 5000;
  max_list_page_size = 10;
  max_scan_tags = 10;
  max_multipart_parts = 10;
  conditional_create_mode = "single-writer";
  deletion_enabled = true;
  retention_enforced = true;
  referrers_required = false;
  cursor_signing_key = 1 ∷ 1 ∷ 1 ∷ 1 ∷ 1 ∷ 1 ∷ 1 ∷ 1 ∷ 1 ∷ 1 ∷ 1 ∷ 1 ∷ 1 ∷ 1 ∷ 1 ∷ 1 ∷ [];
  registry_release = none;
  registry_image = none;
}

abbrev pub object_body : Bytes
object_body = 1 ∷ []

abbrev pub anchor_body : Bytes
anchor_body = 2 ∷ []

abbrev pub config_body : Bytes
config_body = 3 ∷ []

abbrev pub payload_bytes : Bytes
payload_bytes = 7 ∷ 8 ∷ []

abbrev pub payload_digest : String
payload_digest = sha256_digest toy_hashing payload_bytes

abbrev pub demo_reference : ObjectReference
demo_reference = record {
  resource_ref = demo_resource;
  object_id = "doc";
  digest = some payload_digest;
}

abbrev pub demo_metadata : ObjectMetadata
demo_metadata = record {
  object_ref = demo_reference;
  digest = payload_digest;
  byte_length = 2;
  media_type = "text/plain";
  created_at = "now";
  creation_context = null;
  user_metadata = null;
  mutability = "immutable";
  provenance = end;
}

abbrev pub demo_retention : RetentionRequest
demo_retention = record { retain_until = some 5; detail = null }

abbrev pub demo_immutability : ImmutabilityRequest
demo_immutability = record { mutability = "immutable"; publish_once = false }

abbrev pub demo_payload : PayloadReference
demo_payload = record {
  payload_id = "p";
  replayable = true;
  expected_length = some 2;
  expected_digest = none;
}

abbrev pub demo_range : SelectedRange
demo_range = record { start = 0; end = 1; length = 1 }

abbrev pub demo_common : ObjectCommon
demo_common = record {
  object_metadata = λ r i mt created cc um mu p. ok (record {
    object_ref = r;
    digest = i.digest;
    byte_length = i.byte_length;
    media_type = mt;
    created_at = "now";
    creation_context = cc;
    user_metadata = um;
    mutability = mu;
    provenance = p;
  });
  metadata_to_dict = λ m. obj end;
  parse_object_metadata = λ fs. ok demo_metadata;
  immutability_to_dict = λ i. obj end;
  immutability_from_mapping = λ fs. ok demo_immutability;
  retention_to_dict = λ r. obj end;
  retention_from_mapping = λ fs. ok demo_retention;
  require_delete_allowed = λ r now. if ltb now 5 then err value_error else ok tt;
  parse_object_reference = λ fs d. ok demo_reference;
  payload_from_mapping = λ fs. ok demo_payload;
  payload_to_dict = λ p. str p.payload_id;
  range_from_mapping = λ fs. ok fs;
  range_resolve = λ fs n. ok demo_range;
  range_to_dict = λ r. obj end;
  put_start = PutState.other_state 0;
  put_transition = λ s t. ok t;
  put_fail = λ s b. ok s;
  require_object_capabilities = λ j. ok tt;
}
