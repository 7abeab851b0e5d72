-- ===== src/Tests/Names.antt =====
-- Tags, cursors and limits on concrete data.
use meridian_ociadapter.Prelude.{
  ℕ, ◌≡◌, ◌≢◌, refl, arith, true, List, [], ◌∷◌, String, codes, strip_prefix, first_chars,
}
use meridian_ociadapter.Effect.{ok, err, value_error, object_invalid_request}
use meridian_ociadapter.Hashing.{Bytes}
use meridian_ociadapter.Json.{Json, Codec, sort_keys}
use meridian_ociadapter.Naming.{
  anchor_tag, latest_tag, version_tag, tag, digest_hex, object_id_hash, tag_matches,
}
use meridian_ociadapter.Naming.Tags.{version_tag_injective, tags_disjoint}
use meridian_ociadapter.Cursor.{CursorCodec, cursor_document, encode, decode, parts, read_last}
use meridian_ociadapter.Cursor.Base64.{b64, unb64}
use meridian_ociadapter.Cursor.Base64.Laws.{unb64-b64}
use meridian_ociadapter.Cursor.RoundTrip.{decode-encode, IsRefusal, decode_authentic, decode_error}
use meridian_ociadapter.Binding.{check_limits}
use meridian_ociadapter.Binding.Limits.{check_limits-IsBounded, IsBounded-check_limits}
use meridian_ociadapter.Tests.Data.{
  plain_hashing, plain_hashing-IsSha256, demo_binding, version_name,
}

abbrev zero_digest : String
zero_digest = "sha256:0000000000000000000000000000000000000000000000000000000000000000"

abbrev zero_version : String
zero_version =
    "m-v1-00000000000000000000000000000000-0000000000000000000000000000000000000000000000000000000000000000"

abbrev zero_anchor : String
zero_anchor = "m-a1-0000000000000000000000000000000000000000000000000000000000000000"

abbrev zero_latest : String
zero_latest = "m-l1-0000000000000000000000000000000000000000000000000000000000000000"

versions : version_tag plain_hashing "doc" zero_digest ≡ ok zero_version
unfolding version_tag tag digest_hex object_id_hash codes strip_prefix first_chars
versions = refl

anchors : anchor_tag plain_hashing "doc" ≡ ok zero_anchor
unfolding anchor_tag tag object_id_hash codes
anchors = refl

latests : latest_tag plain_hashing "doc" ≡ ok zero_latest
unfolding latest_tag tag object_id_hash codes
latests = refl

version_tag_injective_example :
    (zero_digest ≡ zero_digest)
    × (first_chars 32 (object_id_hash plain_hashing "doc")
        ≡ first_chars 32 (object_id_hash plain_hashing "doc"))
version_tag_injective_example =
    version_tag_injective plain_hashing plain_hashing-IsSha256 "doc" "doc" zero_digest zero_digest
      zero_version versions versions

tags_disjoint_example :
    (zero_anchor ≢ zero_latest) × (zero_anchor ≢ zero_version) × (zero_latest ≢ zero_version)
tags_disjoint_example =
    tags_disjoint plain_hashing plain_hashing-IsSha256 "doc" "doc" "doc" zero_digest zero_anchor
      zero_latest zero_version anchors latests versions

-- A codec that writes every value as one byte, and reads back the document of one cursor.
abbrev cursor_json : Codec
cursor_json = record {
  dumps = λ v. 123 ∷ [];
  loads = λ b. ok (sort_keys (cursor_document version_name));
}

abbrev cursor_key : CursorCodec
cursor_key = record { key = 1 ∷ 2 ∷ [] }

abbrev demo_cursor : List ℕ
demo_cursor = encode plain_hashing cursor_json cursor_key version_name

name_matches : tag_matches (codes version_name) ≡ true
unfolding tag_matches codes
name_matches = refl

decode-encode_example : decode plain_hashing cursor_json cursor_key demo_cursor ≡ ok version_name
decode-encode_example =
    decode-encode plain_hashing cursor_json cursor_key version_name name_matches refl
      (omega arith, tt) (omega arith, (omega arith, (omega arith, tt)))

decodes : decode plain_hashing cursor_json cursor_key demo_cursor ≡ ok version_name
decodes =
    decode-encode plain_hashing cursor_json cursor_key version_name name_matches refl
      (omega arith, tt) (omega arith, (omega arith, (omega arith, tt)))

decode_authentic_example :
    (payload : Bytes) × (parts plain_hashing cursor_json demo_cursor
      ≡ ok (codes "v1", payload, plain_hashing.hmac_sha256 cursor_key.key payload))
    × ((document : Json) × (cursor_json.loads payload ≡ ok document)
        × (read_last document ≡ ok version_name))
    × (tag_matches (codes version_name) ≡ true)
decode_authentic_example =
    decode_authentic plain_hashing cursor_json cursor_key demo_cursor version_name decodes

refused : decode plain_hashing cursor_json cursor_key (codes "v1.e30") ≡ err object_invalid_request
unfolding decode codes meridian_ociadapter.Cursor.split_dot
refused = refl

-- A codec that raises an error of its own, as for an integer with too many digits.
abbrev failing_json : Codec
failing_json = record { dumps = λ v. 123 ∷ []; loads = λ b. err value_error }

escapes :
    decode plain_hashing failing_json cursor_key
      (encode plain_hashing failing_json cursor_key version_name)
    ≡ err value_error
unfolding decode encode codes b64 unb64 meridian_ociadapter.Cursor.split_dot
    meridian_ociadapter.Cursor.same_bytes meridian_ociadapter.Cursor.Base64.rstrip_pad
    meridian_ociadapter.Cursor.Base64.urlsafe_b64encode
    meridian_ociadapter.Cursor.Base64.urlsafe_b64decode meridian_ociadapter.Cursor.Base64.a2b
    meridian_ociadapter.Cursor.Base64.move
escapes = refl

decode_error_example :
    IsRefusal plain_hashing failing_json cursor_key
      (parts plain_hashing failing_json (encode plain_hashing failing_json cursor_key version_name))
      value_error
decode_error_example =
    decode_error plain_hashing failing_json cursor_key
      (encode plain_hashing failing_json cursor_key version_name) value_error escapes

unb64-b64_example : unb64 (b64 (104 ∷ 105 ∷ [])) ≡ ok (104 ∷ 105 ∷ [])
unb64-b64_example = unb64-b64 (104 ∷ 105 ∷ []) (omega arith, (omega arith, tt))

passes : check_limits demo_binding ≡ ok tt
unfolding check_limits
passes = refl

IsBounded-check_limits_example : check_limits demo_binding ≡ ok tt
IsBounded-check_limits_example =
    IsBounded-check_limits demo_binding (check_limits-IsBounded demo_binding passes)
