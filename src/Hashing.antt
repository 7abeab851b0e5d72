-- ===== src/Hashing.antt =====
-- The hash functions of hashlib and hmac, as parameters: the package relies only on the shape of a
-- SHA-256 digest in hexadecimal.
use meridian_ociadapter.Prelude.{
  ℕ, ◌≡◌, Bool, true, ◌&&◌, ◌||◌, List, String, leb, codes, all, length, ◌<>◌,
}

abbrev pub Bytes : Type 0
Bytes = List ℕ

-- `[0-9a-f]`
abbrev pub is_hex_char : ℕ → Bool
is_hex_char c = (leb b'0' c && leb c b'9') || (leb b'a' c && leb c b'f')

pub record Hashing : Type 0 where
  -- `hashlib.sha256(b).hexdigest()`
  pub sha256_hex : Bytes → String
  -- `hmac.new(key, b, hashlib.sha256).digest()`
  pub hmac_sha256 : Bytes → Bytes → Bytes
  -- `s.encode("utf-8")`
  pub utf8 : String → Bytes

-- A digest has 64 lower-case hexadecimal digits.
pub record IsSha256 (H : Hashing) : Type 0 where
  pub hex : (b : Bytes) → all is_hex_char (codes (H.sha256_hex b)) ≡ true
  pub size : (b : Bytes) → length (codes (H.sha256_hex b)) ≡ 64

module _ (H : Hashing) where
  -- `sha256_digest` of _json.py
  unfoldable pub sha256_digest : Bytes → String
  sha256_digest b = "sha256:" <> H.sha256_hex b
