-- ===== src/Binding/Limits.antt =====
-- On the limits of `OciDistributionBinding` in descriptor/config.py.
use meridian_ociadapter.Prelude.{◌≤◌, ◌≡◌, true, arith, length}
use meridian_ociadapter.Effect.{ok}
use meridian_ociadapter.Binding.{OciDistributionBinding, check_limits, is_mode}

pub record IsBounded (b : OciDistributionBinding) : Type 0 where
  pub chunk_least : 65536 ≤ b.chunk_size
  pub chunk_most : b.chunk_size ≤ 16777216
  pub object_least : 1 ≤ b.max_object_bytes
  pub range_least : 1 ≤ b.max_range_bytes
  pub manifest_least : 1024 ≤ b.max_manifest_bytes
  pub metadata_least : 1024 ≤ b.max_metadata_bytes
  pub page_least : 1 ≤ b.max_list_page_size
  pub page_most : b.max_list_page_size ≤ 1000
  pub scan_least : b.max_list_page_size ≤ b.max_scan_tags
  pub parts_least : 1 ≤ b.max_multipart_parts
  pub parts_most : b.max_multipart_parts ≤ 100000
  pub mode : is_mode b.conditional_create_mode ≡ true
  pub key : 16 ≤ length b.cursor_signing_key

-- A binding whose limits, mode and cursor key pass the checks has all of them within their bounds.
pub check_limits-IsBounded : (b : OciDistributionBinding) → check_limits b ≡ ok tt → IsBounded b
unfolding check_limits
check_limits-IsBounded b h = ground arith

-- A binding whose limits, mode and cursor key are all within their bounds passes the checks.
pub IsBounded-check_limits : (b : OciDistributionBinding) → IsBounded b → check_limits b ≡ ok tt
unfolding check_limits
IsBounded-check_limits b h = ground arith
