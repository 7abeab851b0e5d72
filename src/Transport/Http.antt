-- ===== src/Transport/Http.antt =====
-- What transport/client.py uses of httpx and of the standard library, as parameters; the client
-- object; and the translation of a response into an error.
use meridian_ociadapter.Prelude.{
  ℕ, suc, ◌*◌, Bool, true, false, ◌&&◌, ◌||◌, not, List, [], ◌∷◌, ◌++◌, String, Option, none, some,
  leb, ltb, ◌==◌, ◌=ˢ◌, ◌<>◌, contains_text, length, if◌then◌else◌,
}
use meridian_ociadapter.Effect.{
  Error, Result, ok, err, bind_result, fail_if, is_decode_error, object_authentication_failed,
  object_authorization_failed, object_not_found, conditional_conflict, range_not_satisfiable,
  object_rate_limited, object_quota_exceeded, digest_mismatch, incomplete_upload,
  object_invalid_request, object_unavailable,
}
use meridian_ociadapter.Hashing.{Bytes, Hashing}
use meridian_ociadapter.Json.{Json, str, arr, obj, cons, Fields, get, Codec}
use meridian_ociadapter.Binding.{OciDistributionBinding}
use meridian_ociadapter.Transport.Stream.{Chunks, done, broken, chunk}

-- `urlsplit(value)`; reading the port may raise.
pub record SplitUrl : Type 0 where
  pub scheme : String
  pub hostname : Option String
  pub username : Option String
  pub port : Result (Option ℕ)

-- urllib.parse, `httpx.URL` and the conversions between texts and numbers.
pub record Texts : Type 0 where
  pub urlsplit : String → Result SplitUrl
  pub urljoin : String → String → Result String
  -- `quote(value, safe=safe)`
  pub quote : String → String → String
  -- `str(httpx.URL(url).copy_merge_params(params))`, and `copy_add_param`
  pub copy_merge_params : String → List (String × String) → Result String
  pub copy_add_param : String → String → String → Result String
  pub isdigit : String → Bool
  pub int : String → Result ℕ
  pub str_of : ℕ → String
  -- `needle in text`
  pub is_in : String → String → Bool
  -- `text.split(";", 1)[0]`
  pub before_semicolon : String → String

pub record Request : Type 0 where
  pub method : String
  pub url : String
  pub headers : List (String × String)
  pub content : Option Bytes

-- A response before its body is read. Names of headers do not depend on their case, so a response
-- answers for a name.
pub record Response : Type 0 where
  pub status_code : ℕ
  pub header : String → Option String
  pub url : String
  pub body : Chunks

-- A response with its body.
pub record FullResponse : Type 0 where
  pub status_code : ℕ
  pub header : String → Option String
  pub content : Bytes

-- The HTTP client over a world: `build_request` and `send` with redirects followed, where
-- `http_error` is any `httpx.HTTPError`; and `sleep`, in units of 50 ms.
pub record Http (W : Type 0) : Type 0 where
  pub send : Request → W → Result Response × W
  pub sleep : ℕ → W → W

pub record RegistryHttpClient (W : Type 0) : Type 0 where
  pub binding : OciDistributionBinding
  pub http : Http W
  pub texts : Texts
  pub hashing : Hashing
  pub codec : Codec
  pub max_read_attempts : ℕ

-- `_RETRIABLE_STATUS`
abbrev pub is_retriable : ℕ → Bool
is_retriable s = s == 408 || s == 425 || s == 500 || s == 502 || s == 503 || s == 504

abbrev pub default_response_bytes : ℕ
default_response_bytes = 64 * 1024

abbrev pub status_in : ℕ → List ℕ → Bool
status_in s [] = false
status_in s (x ∷ xs) = s == x || status_in s xs

-- `errors[0]` of a list that is not empty, where it is a dict
abbrev first_error : Option Json → Option Fields
first_error (some (arr (cons (obj fs) _))) = some fs
first_error _ = none

abbrev code_text : Option Json → String
code_text (some (str code)) = code
code_text _ = "HTTP_ERROR"

abbrev code_of_error : Option Fields → String
code_of_error none = "HTTP_ERROR"
code_of_error (some fs) = code_text (get "code" fs)

abbrev code_of_json : Json → String
code_of_json (obj fs) = code_of_error (first_error (get "errors" fs))
code_of_json _ = "HTTP_ERROR"

abbrev code_of_loaded : Result Json → Result String
code_of_loaded (ok value) = ok (code_of_json value)
code_of_loaded (err e) = elim (is_decode_error e) [ true ↦ ok "HTTP_ERROR" | false ↦ err e ]

-- `_provider_code`, of a response's content
unfoldable pub provider_code : Codec → Bytes → Result String
provider_code J content = code_of_loaded (J.loads content)

-- The error that `_raise_response` raises for a status and a provider code.
abbrev status_error : ℕ → String → Error
status_error status code =
    if status == 401 || code =ˢ "UNAUTHORIZED"
    then object_authentication_failed
    else if status == 403 || code =ˢ "DENIED"
    then object_authorization_failed
    else if status == 404
        || contains_text code ("BLOB_UNKNOWN" ∷ "MANIFEST_UNKNOWN" ∷ "NAME_UNKNOWN" ∷ [])
    then object_not_found
    else if status == 409
    then conditional_conflict
    else if status == 416
    then range_not_satisfiable
    else if status == 429 || code =ˢ "TOOMANYREQUESTS"
    then object_rate_limited
    else if status == 413 || status == 507
    then object_quota_exceeded
    else if code =ˢ "DIGEST_INVALID"
    then digest_mismatch
    else if contains_text code ("BLOB_UPLOAD_INVALID" ∷ "BLOB_UPLOAD_UNKNOWN" ∷ [])
    then incomplete_upload
    else if leb 400 status && ltb status 500
    then object_invalid_request
    else object_unavailable

-- `_raise_response`, of what `_provider_code` returned or raised
unfoldable pub response_error : ℕ → Result String → Error
response_error status (ok code) = status_error status code
response_error status (err e) = e

-- `_bounded_response`, over the chunks of the body
unfoldable pub bounded_body : Chunks → Bytes → ℕ → Result Bytes
bounded_body done body maximum_bytes = ok body
bounded_body (broken e) body maximum_bytes = err e
bounded_body (chunk c rest) body maximum_bytes =
    let more = bounded_body rest (body ++ c) maximum_bytes in
    if ltb maximum_bytes (length (body ++ c)) then err object_unavailable else more

abbrev pub later : Option String → Option String → Option String
later none earlier = earlier
later (some v) earlier = some v

-- Headers as a dict: a later entry for a key replaces an earlier one.
abbrev pub header_get : String → List (String × String) → Option String
header_get k [] = none
header_get k ((j, v) ∷ hs) = later (header_get k hs) (if j =ˢ k then some v else none)

abbrev port_or_default : String → Option ℕ → ℕ
port_or_default scheme (some (suc p)) = suc p
port_or_default scheme _ = if scheme =ˢ "https" then 443 else 80

abbrev hostname_or_empty : Option String → String
hostname_or_empty none = ""
hostname_or_empty (some h) = h

abbrev equal_origins : String × String × ℕ → String × String × ℕ → Bool
equal_origins (s, h, p) (t, k, q) = s =ˢ t && h =ˢ k && p == q

-- `not parsed.hostname`
abbrev pub no_host : Option String → Bool
no_host none = true
no_host (some h) = h =ˢ ""

abbrev pub is_web : String → Bool
is_web scheme = scheme =ˢ "http" || scheme =ˢ "https"

-- `parsed.username is not None`, and `parsed.username` as a test
abbrev pub has_value : Option String → Bool
has_value none = false
has_value (some _) = true

abbrev has_text : Option String → Bool
has_text none = false
has_text (some s) = not (s =ˢ "")

module _ (texts : Texts) where
  -- `_origin`
  unfoldable pub origin : String → Result (String × String × ℕ)
  origin value = bind_result (texts.urlsplit value) λ parsed. bind_result parsed.port λ port.
      ok (parsed.scheme, hostname_or_empty parsed.hostname, port_or_default parsed.scheme port)

  -- `_origin(a) == _origin(b)`
  unfoldable pub same_origin : String → String → Result Bool
  same_origin a b = bind_result (origin a) λ x. bind_result (origin b) λ y. ok (equal_origins x y)

  -- `_require_safe_response_url`, of a response's URL; `and` is short-circuit, so the origins are
  -- compared only where HTTP is allowed at all.
  unfoldable pub require_safe_url : OciDistributionBinding → String → Result (Unit {0})
  require_safe_url binding url = bind_result (texts.urlsplit url) λ parsed.
      bind_result
        (if binding.allow_insecure_http then same_origin url binding.endpoint else ok false)
        λ allowed_http.
          fail_if
            (not (is_web parsed.scheme)
              || no_host parsed.hostname
              || has_value parsed.username
              || (parsed.scheme =ˢ "http" && not allowed_http))
            object_unavailable

  -- `not allow_insecure_http or _origin(resolved) != _origin(endpoint)`
  unfoldable pub insecure : OciDistributionBinding → String → Result Bool
  insecure binding resolved =
      if binding.allow_insecure_http
      then bind_result (same_origin resolved binding.endpoint) (λ same. ok (not same))
      else ok true

  -- `_location`
  unfoldable pub location : OciDistributionBinding → Option String → Result String
  location binding none = err object_unavailable
  location binding (some value) =
      if value =ˢ ""
      then err object_unavailable
      else bind_result (texts.urljoin (binding.endpoint <> "/") value) λ resolved.
        bind_result (texts.urlsplit resolved) λ parsed.
          if not (is_web parsed.scheme) || no_host parsed.hostname || has_text parsed.username
          then err object_unavailable
          else if parsed.scheme =ˢ "http"
          then bind_result (insecure binding resolved)
              (λ refused. if refused then err object_unavailable else ok resolved)
          else ok resolved
