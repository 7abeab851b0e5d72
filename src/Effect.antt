-- ===== src/Effect.antt =====
-- Exceptions and effects, as the whole package uses them: the classes that the source raises or
-- catches, a result, and computations over a world that an environment owns. What was done before an
-- exception stays done, so the world comes back beside the error too.
pub mod Rules
pub mod Locals
pub mod Outcomes
use meridian_ociadapter.Prelude.{Bool, true, false, List, [], ◌∷◌, String, Option, none, some}

-- The classes of object_common, and the built-in and httpx ones that the source names. Messages and
-- the provenance mapping of an error are left out.
pub data Error : Type 0 where
  object_invalid_request object_capability_mismatch object_not_found object_unavailable : Error
  object_rate_limited object_quota_exceeded object_authentication_failed : Error
  object_authorization_failed conditional_conflict immutable_object_conflict : Error
  digest_mismatch incomplete_upload range_not_satisfiable multipart_invalid retention_denied : Error
  value_error json_decode_error unicode_decode_error type_error assertion_error : Error
  http_error : Error
  foreign : String → Error

pub data Result {ℓ} (A : Type ℓ) : Type ℓ where
  ok : A → Result A
  err : Error → Result A

-- `except (UnicodeDecodeError, json.JSONDecodeError)`
abbrev pub is_decode_error : Error → Bool
is_decode_error json_decode_error = true
is_decode_error unicode_decode_error = true
is_decode_error _ = false

-- `except (TypeError, ValueError)`; the decoding errors are subclasses of ValueError.
abbrev pub is_type_or_value_error : Error → Bool
is_type_or_value_error value_error = true
is_type_or_value_error json_decode_error = true
is_type_or_value_error unicode_decode_error = true
is_type_or_value_error type_error = true
is_type_or_value_error _ = false

-- `except (ObjectUnavailable, ObjectRateLimited)`
abbrev pub is_transient : Error → Bool
is_transient object_unavailable = true
is_transient object_rate_limited = true
is_transient _ = false

-- `except httpx.HTTPError`
abbrev pub is_http_error : Error → Bool
is_http_error http_error = true
is_http_error _ = false

-- A computation over the world `W` that returns or raises.
abbrev pub M : Type 0 → Type 0 → Type 0
M W A = W → Result A × W

module _ {W A : Type 0} where
  unfoldable pub pure : A → M W A
  pure a w = (ok a, w)

  unfoldable pub raise : Error → M W A
  raise e w = (err e, w)

  -- A call of code that has no effect and may raise.
  unfoldable pub lift : Result A → M W A
  lift r w = (r, w)

  -- `try: r except Exception as e: h(e)`
  abbrev pub handle : Result A → (Error → M W A) → M W A
  handle (ok a) h w = (ok a, w)
  handle (err e) h w = h e w

  unfoldable pub try_except : M W A → (Error → M W A) → M W A
  try_except m h w = handle (m w).0 h (m w).1

module _ {W : Type 0} where
  -- `if b: raise e`
  unfoldable pub raise_if : Bool → Error → M W (Unit {0})
  raise_if true e w = (err e, w)
  raise_if false e w = (ok tt, w)

module _ {W A B : Type 0} where
  abbrev pub continue : Result A → (A → M W B) → M W B
  continue (ok a) f w = f a w
  continue (err e) f w = (err e, w)

  infixl 5 ◌>>=◌ ◌>>◌
  -- Opening this opens the other ways to build a computation too.
  unfoldable pub ◌>>=◌ : M W A → (A → M W B) → M W B
  unfolding pure raise lift try_except raise_if
  ◌>>=◌ m f w = continue (m w).0 f (m w).1

  abbrev pub ◌>>◌ : M W A → M W B → M W B
  m >> k = m >>= λ _. k

-- The same for code without effects.
abbrev pub bind_result {ℓ κ} : {A : Type ℓ} {B : Type κ} → Result A → (A → Result B) → Result B
bind_result (ok a) f = f a
bind_result (err e) f = err e

abbrev pub fail_if : Bool → Error → Result (Unit {0})
fail_if true e = err e
fail_if false e = ok tt

-- `raise e from exc` for an exception `exc` that the test picks out.
abbrev pub translate {ℓ} : {A : Type ℓ} → (Error → Bool) → Error → Result A → Result A
translate caught e (ok a) = ok a
translate caught e (err x) = elim (caught x) [ true ↦ err e | false ↦ err x ]
