-- ===== src/Naming.antt =====
-- _naming.py: the private tags of a logical Object.
pub mod Tags
use meridian_ociadapter.Prelude.{
  ℕ, Bool, true, false, ◌&&◌, ◌||◌, List, [], ◌∷◌, String, Option, none, some, leb, ◌==◌, codes,
  all, length, ◌<>◌, first_chars, strip_prefix, bind_option, if◌then◌else◌,
}
use meridian_ociadapter.Effect.{Result, ok, err, value_error}
use meridian_ociadapter.Hashing.{Hashing, is_hex_char}

-- `[0-9a-f]{64}\Z`
abbrev is_hex_64 : String → Bool
is_hex_64 h = all is_hex_char (codes h) && length (codes h) == 64

abbrev captured : String → Option String
captured h = if is_hex_64 h then some h else none

-- The group of `sha256:([0-9a-f]{64})\Z`, which a full match captures.
unfoldable pub digest_hex : String → Option String
digest_hex digest = bind_option (strip_prefix "sha256:" digest) captured

-- `[A-Za-z0-9_]` and `[A-Za-z0-9._-]`
abbrev is_word_char : ℕ → Bool
is_word_char c =
    (leb b'A' c && leb c b'Z')
    || (leb b'a' c && leb c b'z')
    || (leb b'0' c && leb c b'9')
    || c == b'_'

abbrev is_tag_char : ℕ → Bool
is_tag_char c = is_word_char c || c == b'.' || c == b'-'

-- `[A-Za-z0-9_][A-Za-z0-9._-]{0,127}\Z`
unfoldable pub tag_matches : List ℕ → Bool
tag_matches [] = false
tag_matches (c ∷ cs) = is_word_char c && all is_tag_char cs && leb (length cs) 127

unfoldable pub tag : String → Result String
unfolding tag_matches
tag value = if tag_matches (codes value) then ok value else err value_error

module _ (H : Hashing) where
  unfoldable pub object_id_hash : String → String
  object_id_hash object_id = H.sha256_hex (H.utf8 object_id)

  unfoldable pub anchor_tag : String → Result String
  anchor_tag object_id = tag ("m-a1-" <> object_id_hash object_id)

  unfoldable pub latest_tag : String → Result String
  latest_tag object_id = tag ("m-l1-" <> object_id_hash object_id)

  version_of : String → Option String → Result String
  version_of object_id none = err value_error
  version_of object_id (some h) =
      tag ("m-v1-" <> first_chars 32 (object_id_hash object_id) <> "-" <> h)

  unfoldable pub version_tag : String → String → Result String
  unfolding version_of
  version_tag object_id digest = version_of object_id (digest_hex digest)

  unfoldable pub version_tag_prefix : Option String → String
  version_tag_prefix none = "m-v1-"
  version_tag_prefix (some object_id) = "m-v1-" <> first_chars 32 (object_id_hash object_id) <> "-"
