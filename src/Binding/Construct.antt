-- ===== src/Binding/Construct.antt =====
-- The checks of `OciDistributionBinding.__post_init__` in descriptor/config.py besides the limits: the
-- endpoint, the repository, and the provenance labels; the types of the fields and the
-- timeout are left out. urllib.parse and `str.strip` are parameters.
use meridian_ociadapter.Prelude.{
  ℕ, Bool, true, false, ◌&&◌, ◌||◌, not, List, [], ◌∷◌, String, Option, none, some, ◌==◌, ◌=ˢ◌, ltb,
  leb, length, codes, all, is_some, if◌then◌else◌,
}
use meridian_ociadapter.Effect.{Result, ok, err, bind_result, fail_if, value_error}
use meridian_ociadapter.Hashing.{is_hex_char}
use meridian_ociadapter.Binding.{OciDistributionBinding, check_limits}
use meridian_ociadapter.Binding.Repository.{is_repository}

-- `urlsplit(value)`; reading the port may raise.
pub record EndpointUrl : Type 0 where
  pub scheme : String
  pub netloc : String
  pub path : String
  pub query : String
  pub fragment : String
  pub hostname : Option String
  pub username : Option String
  pub password : Option String
  pub port : Result (Option ℕ)

pub record UrlTexts : Type 0 where
  pub urlsplit : String → Result EndpointUrl
  -- `urlunsplit((scheme, netloc, "", "", "")).rstrip("/")`
  pub urlunsplit : String → String → String
  -- `not value.strip()`
  pub is_blank : String → Bool

abbrev pub is_empty : String → Bool
is_empty s = s =ˢ ""

abbrev pub no_host : Option String → Bool
no_host none = true
no_host (some h) = is_empty h

abbrev pub is_allowed_scheme : Bool → String → Bool
is_allowed_scheme allow_http scheme = scheme =ˢ "https" || (allow_http && scheme =ˢ "http")

-- `except ValueError` around the port; a port that was read is not used.
abbrev pub checked_port : Result (Option ℕ) → Result (Unit {0})
checked_port (ok port) = ok tt
checked_port (err e) = err e

module _ (texts : UrlTexts) where
  abbrev pub checked_endpoint : Bool → EndpointUrl → Result String
  checked_endpoint allow_http parsed =
      if not (is_allowed_scheme allow_http parsed.scheme)
      then err value_error
      else if no_host parsed.hostname || is_some parsed.username || is_some parsed.password
      then err value_error
      else if not (is_empty parsed.query)
          || not (is_empty parsed.fragment)
          || not (is_empty parsed.path || parsed.path =ˢ "/")
      then err value_error
      else ok (texts.urlunsplit parsed.scheme parsed.netloc)

  -- `_endpoint`
  unfoldable pub endpoint_of : String → Bool → Result String
  endpoint_of value allow_http =
      bind_result (texts.urlsplit value)
        λ parsed. bind_result (checked_port parsed.port) λ _. checked_endpoint allow_http parsed

  abbrev is_release : String → Bool
  is_release s =
      not (texts.is_blank s) && leb (length (codes s)) 128 && all (λ c. not (ltb c 32)) (codes s)

  -- `registry_release`
  unfoldable pub check_release : Option String → Result (Unit {0})
  check_release none = ok tt
  check_release (some s) = fail_if (not (is_release s)) value_error

abbrev is_letter_or_digit : ℕ → Bool
is_letter_or_digit c =
    (leb b'a' c && leb c b'z') || (leb b'A' c && leb c b'Z') || (leb b'0' c && leb c b'9')

-- `[a-zA-Z0-9._/:\-]`
abbrev is_image_char : ℕ → Bool
is_image_char c =
    is_letter_or_digit c || c == b'.' || c == b'_' || c == b'/' || c == b':' || c == b'-'

-- `sha256:[0-9a-f]{64}` after the sign that no other part of the expression takes
abbrev is_image_digest : List ℕ → Bool
is_image_digest (s ∷ h ∷ a ∷ two ∷ five ∷ six ∷ colon ∷ cs) =
    s == b's'
    && h == b'h'
    && a == b'a'
    && two == b'2'
    && five == b'5'
    && six == b'6'
    && colon == b':'
    && length cs == 64
    && all is_hex_char cs
is_image_digest _ = false

unfoldable image_rest : List ℕ → Bool
image_rest [] = false
image_rest (c ∷ cs) = if c == b'@' then is_image_digest cs else is_image_char c && image_rest cs

abbrev is_image_name : List ℕ → Bool
is_image_name [] = false
is_image_name (c ∷ cs) = is_letter_or_digit c && image_rest cs

-- `"://" in value`
unfoldable has_scheme : List ℕ → Bool
has_scheme (a ∷ b ∷ c ∷ cs) = (a == b':' && b == b'/' && c == b'/') || has_scheme (b ∷ c ∷ cs)
has_scheme _ = false

-- `registry_image`
unfoldable pub check_image : Option String → Result (Unit {0})
unfolding image_rest has_scheme
check_image none = ok tt
check_image (some s) =
    fail_if (ltb 512 (length (codes s)) || has_scheme (codes s) || not (is_image_name (codes s)))
      value_error

-- `__post_init__` of a binding whose resource is parsed and whose cursor key is there, given the
-- endpoint's text as it was written: the binding has the endpoint that is kept.
unfoldable pub post_init :
    UrlTexts → String → OciDistributionBinding → Result OciDistributionBinding
post_init texts endpoint b = bind_result (endpoint_of texts endpoint b.allow_insecure_http) λ kept.
    bind_result (fail_if (not (is_repository b.repository)) value_error) λ _.
      bind_result (check_limits b) λ _.
        bind_result (check_release texts b.registry_release)
          λ _. bind_result (check_image b.registry_image) λ _. ok (record b { endpoint = kept })
