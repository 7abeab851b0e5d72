-- ===== src/Cursor.antt =====
-- `CursorCodec` of _naming.py: signed maintenance cursors. A cursor is given by its code points.
pub mod Base64
pub mod RoundTrip
use meridian_ociadapter.Prelude.{
  ℕ, Bool, true, false, ◌&&◌, ◌||◌, not, List, [], ◌∷◌, ◌++◌, String, Option, none, some, leb, ltb,
  ◌==◌, ◌=ˢ◌, codes, length, if◌then◌else◌,
}
use meridian_ociadapter.Effect.{
  Result, ok, err, value_error, object_invalid_request, bind_result, translate,
  is_type_or_value_error, is_decode_error,
}
use meridian_ociadapter.Hashing.{Bytes, Hashing}
use meridian_ociadapter.Json.{Json, str, obj, Fields, end, field, get, Codec, sort_keys}
use meridian_ociadapter.Naming.{tag_matches}
use Base64.{b64, unb64}

pub record CursorCodec : Type 0 where
  pub key : Bytes

-- `__post_init__`
unfoldable pub cursor_codec : Bytes → Result CursorCodec
cursor_codec key = if ltb (length key) 16 then err value_error else ok (record { key = key })

abbrev pub cursor_document : String → Json
cursor_document last_tag =
    obj (field "formatVersion" (str "meridian.oci.cursor.v1") (field "last" (str last_tag) end))

-- What stands before the first dot and after it.
abbrev pub behind : ℕ → Option (List ℕ × List ℕ) → Option (List ℕ × List ℕ)
behind c none = none
behind c (some (a, b)) = some (c ∷ a, b)

unfoldable pub split_dot : List ℕ → Option (List ℕ × List ℕ)
split_dot [] = none
split_dot (c ∷ cs) = if c == b'.' then some ([], cs) else behind c (split_dot cs)

-- `cursor.split(".", 2)`, unpacked into three parts
abbrev pub two_parts : List ℕ → Option (List ℕ × List ℕ) → Result (List ℕ × List ℕ × List ℕ)
two_parts version none = err value_error
two_parts version (some (payload, signature)) = ok (version, payload, signature)

abbrev pub three_parts : Option (List ℕ × List ℕ) → Result (List ℕ × List ℕ × List ℕ)
three_parts none = err value_error
three_parts (some (version, rest)) = two_parts version (split_dot rest)

-- `hmac.compare_digest`
unfoldable pub same_bytes : Bytes → Bytes → Bool
same_bytes [] [] = true
same_bytes (a ∷ as_) (b ∷ bs) = a == b && same_bytes as_ bs
same_bytes _ _ = false

-- `set(value) == {"formatVersion", "last"}`, for a dict, whose keys are distinct
abbrev has_cursor_keys : Fields → Bool
has_cursor_keys (field j _ (field k _ end)) =
    (j =ˢ "formatVersion" && k =ˢ "last") || (j =ˢ "last" && k =ˢ "formatVersion")
has_cursor_keys _ = false

abbrev valid_tag : Option Json → Result String
valid_tag (some (str last)) =
    if tag_matches (codes last) then ok last else err object_invalid_request
valid_tag _ = err object_invalid_request

abbrev is_cursor_version : Option Json → Bool
is_cursor_version (some (str s)) = s =ˢ "meridian.oci.cursor.v1"
is_cursor_version _ = false

-- What is checked of the signed document.
unfoldable pub read_last : Json → Result String
read_last (obj fields) =
    if has_cursor_keys fields && is_cursor_version (get "formatVersion" fields)
    then valid_tag (get "last" fields)
    else err object_invalid_request
read_last _ = err object_invalid_request

-- Cursors are JSON with escapes for what is not ASCII, so their codec is one of its own.
module _ (H : Hashing) (J : Codec) where
  unfoldable pub encode : CursorCodec → String → List ℕ
  encode self last_tag =
      let payload = J.dumps (sort_keys (cursor_document last_tag)) in
      codes "v1" ++ b'.' ∷ b64 payload ++ b'.' ∷ b64 (H.hmac_sha256 self.key payload)

  abbrev pub decoded_parts : List ℕ × List ℕ × List ℕ → Result (List ℕ × Bytes × Bytes)
  decoded_parts (version, payload_value, signature_value) =
      bind_result (unb64 payload_value)
        λ payload. bind_result (unb64 signature_value) λ signature. ok (version, payload, signature)

  -- `version, payload_value, signature_value = …`, decoded
  abbrev pub parts : List ℕ → Result (List ℕ × Bytes × Bytes)
  parts cursor = bind_result (three_parts (split_dot cursor)) decoded_parts

  abbrev verified : CursorCodec → List ℕ × Bytes × Bytes → Result String
  verified self (version, payload, signature) =
      if same_bytes version (codes "v1") && same_bytes signature (H.hmac_sha256 self.key payload)
      then bind_result (translate is_decode_error object_invalid_request (J.loads payload))
          read_last
      else err object_invalid_request

  unfoldable pub decode : CursorCodec → List ℕ → Result String
  decode self cursor =
      bind_result (translate is_type_or_value_error object_invalid_request (parts cursor))
        (verified self)
