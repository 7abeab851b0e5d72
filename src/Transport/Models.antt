-- ===== src/Transport/Models.antt =====
-- transport/models.py: descriptors, manifests, upload locations and tag pages.
pub mod Laws
use meridian_ociadapter.Prelude.{
  ℕ, Bool, true, false, ◌&&◌, ◌||◌, not, List, [], ◌∷◌, String, Option, none, some, leb, ltb, ◌==◌,
  ◌=ˢ◌, codes, length, is_some, bind_option, if◌then◌else◌,
}
use meridian_ociadapter.Effect.{Result, ok, err, value_error, type_error, bind_result, fail_if}
use meridian_ociadapter.Hashing.{Bytes, Hashing, sha256_digest}
use meridian_ociadapter.Json.{
  Json, null, num, str, arr, obj, Items, nil, cons, Fields, end, field, get, is_two, is_str, as_obj,
  Codec, canonical_json, parse_json_object, bool,
}
use meridian_ociadapter.Naming.{digest_hex}

abbrev pub oci_manifest_media_type : String
oci_manifest_media_type = "application/vnd.oci.image.manifest.v1+json"

abbrev pub oci_empty_media_type : String
oci_empty_media_type = "application/vnd.oci.empty.v1+json"

abbrev pub meridian_object_artifact_type : String
meridian_object_artifact_type = "application/vnd.meridian.object.v1"

abbrev pub meridian_object_anchor_type : String
meridian_object_anchor_type = "application/vnd.meridian.object.anchor.v1"

abbrev pub meridian_object_config_media_type : String
meridian_object_config_media_type = "application/vnd.meridian.object.config.v1+json"

abbrev pub stored_metadata_format : String
stored_metadata_format = "meridian.oci.stored-object.v1"

-- `b"{}"`
abbrev pub empty_json : Bytes
empty_json = b'{' ∷ b'}' ∷ []

pub record OciDescriptor : Type 0 where
  pub media_type : String
  pub digest : String
  pub size : ℕ

-- `"/" in s`
abbrev has_slash : List ℕ → Bool
has_slash [] = false
has_slash (c ∷ cs) = c == b'/' || has_slash cs

-- `OciDescriptor(media_type, digest, size)` with the checks of `__post_init__`, on values that are
-- already two texts and an integer of at least 0
unfoldable pub descriptor : String → String → ℕ → Result OciDescriptor
descriptor media_type digest size =
    if not (has_slash (codes media_type))
    then err value_error
    else if not (is_some (digest_hex digest))
    then err value_error
    else ok (record { media_type = media_type; digest = digest; size = size })

-- The same checks in their order, on any three values: a regular expression refuses to match what is
-- no text.
unfoldable pub descriptor_of_values : Json → Json → Json → Result OciDescriptor
descriptor_of_values (str media_type) (str digest) (num size) = descriptor media_type digest size
descriptor_of_values (str media_type) (str digest) _ = err value_error
descriptor_of_values (str media_type) _ _ =
    if has_slash (codes media_type) then err type_error else err value_error
descriptor_of_values _ _ _ = err value_error

abbrev of_fields : Option Json → Option Json → Option Json → Result OciDescriptor
of_fields (some m) (some d) (some s) = descriptor_of_values m d s
of_fields _ _ _ = err value_error

unfoldable pub from_mapping : Fields → Result OciDescriptor
from_mapping value = of_fields (get "mediaType" value) (get "digest" value) (get "size" value)

unfoldable pub to_dict : OciDescriptor → Json
to_dict d = obj (
    field "mediaType" (str d.media_type)
      (field "digest" (str d.digest) (field "size" (num d.size) end)))

pub record ManifestDocument : Type 0 where
  pub body : Bytes
  pub digest : String
  pub media_type : String
  pub value : Fields

pub record UploadLocation : Type 0 where
  pub url : String
  pub uuid : Option String
  pub minimum_chunk_bytes : Option ℕ
  pub offset : ℕ

pub record TagPage : Type 0 where
  pub tags : List String
  pub has_more : Bool

-- `expected is not None and digest != expected`
abbrev pub differs : Option String → String → Bool
differs none digest = false
differs (some expected) digest = not (digest =ˢ expected)

module _ (H : Hashing) (J : Codec) where
  abbrev checked_manifest : Bytes → Fields → Result ManifestDocument
  checked_manifest body value =
      if not (is_two (get "schemaVersion" value))
      then err value_error
      else if not (is_str oci_manifest_media_type (get "mediaType" value))
      then err value_error
      else ok (record {
        body = body;
        digest = sha256_digest H body;
        media_type = oci_manifest_media_type;
        value = value;
      })

  -- `ManifestDocument.parse`
  unfoldable pub parse : Bytes → Option String → ℕ → Result ManifestDocument
  parse body expected_digest maximum_bytes =
      if ltb maximum_bytes (length body)
      then err value_error
      else if differs expected_digest (sha256_digest H body)
      then err value_error
      else bind_result (parse_json_object J body) (checked_manifest body)

  unfoldable pub empty_descriptor : OciDescriptor
  empty_descriptor = record {
    media_type = oci_empty_media_type;
    digest = sha256_digest H empty_json;
    size = length empty_json;
  }

  abbrev pub anchor_value : String → Json
  anchor_value object_hash =
      let config = to_dict empty_descriptor in
      obj (
        field "schemaVersion" (num 2) (
          field "mediaType" (str oci_manifest_media_type) (
            field "artifactType" (str meridian_object_anchor_type) (
              field "config" config (
                field "layers" (arr (cons config nil)) (
                  field "annotations"
                    (obj (
                      field "org.meridian.adapter.id" (str "oci-distribution") (
                        field "org.meridian.object.anchor" (str object_hash)
                          (field "org.meridian.object.format" (str stored_metadata_format) end))))
                    end))))))

  unfoldable pub build_anchor_manifest : String → Bytes
  build_anchor_manifest object_hash = canonical_json J (anchor_value object_hash)

abbrev pub object_value :
    OciDescriptor → OciDescriptor → OciDescriptor → String → String → String → Json
object_value anchor config payload object_hash created_at mutability = obj (
    field "schemaVersion" (num 2) (
      field "mediaType" (str oci_manifest_media_type) (
        field "artifactType" (str meridian_object_artifact_type) (
          field "config" (to_dict config) (
            field "layers" (arr (cons (to_dict payload) nil)) (
              field "subject" (to_dict anchor) (
                field "annotations"
                  (obj (
                    field "org.opencontainers.image.created" (str created_at) (
                      field "org.meridian.adapter.id" (str "oci-distribution") (
                        field "org.meridian.object.digest" (str payload.digest) (
                          field "org.meridian.object.id-sha256" (str object_hash)
                            (field "org.meridian.object.mutability" (str mutability) end))))))
                  end)))))))

module _ (J : Codec) where
  unfoldable pub build_object_manifest :
      OciDescriptor → OciDescriptor → OciDescriptor → String → String → String → Bytes
  build_object_manifest anchor config payload object_hash created_at mutability =
      canonical_json J (object_value anchor config payload object_hash created_at mutability)

-- `layers[0]` of a list with exactly one entry, which is a mapping
abbrev pub single_layer : Option Json → Option Fields
single_layer (some (arr (cons (obj fs) nil))) = some fs
single_layer _ = none

-- The three descriptors of an object manifest, decoded in the source's order.
abbrev three_descriptors :
    Option Fields
    → Option Fields
    → Option Fields
    → Result (OciDescriptor × OciDescriptor × OciDescriptor)
three_descriptors (some config) (some subject) (some layer) = bind_result (from_mapping config) λ c.
    bind_result (from_mapping layer) λ p. bind_result (from_mapping subject) λ s.
      if not (c.media_type =ˢ meridian_object_config_media_type)
      then err value_error
      else if not (s.media_type =ˢ oci_manifest_media_type)
      then err value_error
      else ok (c, p, s)
three_descriptors _ _ _ = err value_error

unfoldable pub manifest_descriptors :
    ManifestDocument → Result (OciDescriptor × OciDescriptor × OciDescriptor)
manifest_descriptors document =
    if not (is_str meridian_object_artifact_type (get "artifactType" document.value))
    then err value_error
    else three_descriptors (as_obj (get "config" document.value))
        (as_obj (get "subject" document.value)) (single_layer (get "layers" document.value))
