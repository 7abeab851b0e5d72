-- ===== src/Binding.antt =====
-- `OciDistributionBinding` of descriptor/config.py: the private configuration, and the checks of its
-- numeric limits; its child modules have the other checks.
pub mod Limits
pub mod Credentials
pub mod Repository
pub mod Construct
pub mod Accepted
use meridian_ociadapter.Prelude.{
  ℕ, ◌*◌, ◌^◌, Bool, true, false, ◌&&◌, ◌||◌, not, List, String, Option, none, some, ltb, length,
  ◌=ˢ◌, if◌then◌else◌,
}
use meridian_ociadapter.Effect.{Result, ok, err, value_error, bind_result, fail_if}
use meridian_ociadapter.Hashing.{Bytes}

-- A resource of a catalog.
pub record ResourceRef : Type 0 where
  pub catalog : String
  pub namespace : String
  pub name : String

abbrev pub same_resource : ResourceRef → ResourceRef → Bool
same_resource a b = a.catalog =ˢ b.catalog && a.namespace =ˢ b.namespace && a.name =ˢ b.name

-- The fields that the data plane reads, after normalization. `authorization_header` is what the
-- credential provider answers.
pub record OciDistributionBinding : Type 0 where
  pub resource_ref : ResourceRef
  pub endpoint : String
  pub repository : String
  pub authorization_header : Result (Option String)
  pub allow_insecure_http : Bool
  pub chunk_size : ℕ
  pub max_object_bytes : ℕ
  pub max_range_bytes : ℕ
  pub max_manifest_bytes : ℕ
  pub max_metadata_bytes : ℕ
  pub max_list_page_size : ℕ
  pub max_scan_tags : ℕ
  pub max_multipart_parts : ℕ
  pub conditional_create_mode : String
  pub deletion_enabled : Bool
  pub retention_enforced : Bool
  pub referrers_required : Bool
  pub cursor_signing_key : Bytes
  pub registry_release : Option String
  pub registry_image : Option String

-- `_bounded_int`, on an integer of at least 0
unfoldable pub bounded_int : ℕ → ℕ → Option ℕ → Result (Unit {0})
bounded_int value minimum none = fail_if (ltb value minimum) value_error
bounded_int value minimum (some maximum) =
    if ltb value minimum then err value_error else fail_if (ltb maximum value) value_error

infixl 5 ◌>>◌
abbrev ◌>>◌ : Result (Unit {0}) → Result (Unit {0}) → Result (Unit {0})
a >> b = bind_result a (λ _. b)

-- `_CONDITIONAL_MODES`
abbrev pub is_mode : String → Bool
is_mode s = s =ˢ "single-writer" || s =ˢ "registry-enforced"

-- The checks of `__post_init__` on the limits, the mode and the cursor key, in their order.
unfoldable pub check_limits : OciDistributionBinding → Result (Unit {0})
unfolding bounded_int
check_limits b =
    bounded_int b.chunk_size (64 * 1024) (some (16 * 1024 * 1024))
    >> bounded_int b.max_object_bytes 1 none
    >> bounded_int b.max_range_bytes 1 none
    >> bounded_int b.max_manifest_bytes 1024 none
    >> bounded_int b.max_metadata_bytes 1024 none
    >> bounded_int b.max_list_page_size 1 (some 1000)
    >> bounded_int b.max_scan_tags b.max_list_page_size none
    >> bounded_int b.max_multipart_parts 1 (some 100_000)
    >> fail_if (not (is_mode b.conditional_create_mode)) value_error
    >> fail_if (ltb (length b.cursor_signing_key) 16) value_error
