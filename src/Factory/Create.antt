-- ===== src/Factory/Create.antt =====
-- `OciAdapterFactory.create` of _factory.py: from a deployment's context to the runtime's configuration.
-- A setting is JSON, so a value of the wrong type is refused as the constructor of the binding does.
use meridian_ociadapter.Prelude.{
  ℕ, ◌*◌, ◌^◌, Bool, true, false, ◌&&◌, ◌||◌, not, List, [], ◌∷◌, String, Option, none, some, ◌=ˢ◌,
  ◌==◌, is_some, contains_text, if◌then◌else◌,
}
use meridian_ociadapter.Effect.{
  Result, ok, err, bind_result, fail_if, translate, is_type_or_value_error, M, pure, lift, ◌>>=◌,
  ◌>>◌, raise_if, object_invalid_request, object_capability_mismatch, value_error, type_error,
}
use meridian_ociadapter.Hashing.{Bytes}
use meridian_ociadapter.Json.{Json, null, bool, num, str, Fields, end, field, get}
use meridian_ociadapter.Binding.{OciDistributionBinding, ResourceRef}
use meridian_ociadapter.Binding.Credentials.{
  Credentials, anonymous, basic, bearer, check_credentials, authorization_header,
}
use meridian_ociadapter.Binding.Construct.{UrlTexts, post_init}
use meridian_ociadapter.Capabilities.{
  adapter_id, adapter_contract_version, engine_profile, oci_distribution_version,
}
use meridian_ociadapter.Factory.{RuntimeConfig}

-- The fields of the context and of its binding that the factory reads. What is revealed is decoded.
pub record AdapterCreateContext : Type 0 where
  pub adapter_id : String
  pub adapter_contract : String
  pub engine_profile : String
  pub engine_version : String
  pub endpoint : Option String
  pub settings : Fields
  pub tls_mode : String
  pub physical_namespace : String
  pub operation_timeout_ms : ℕ
  pub tls_ca : Option Bytes
  pub identity : Result String
  pub credential : Result String

pub record CreateHost (W : Type 0) : Type 0 where
  pub texts : UrlTexts
  pub b64encode : String → String
  -- `ResourceRef.parse(value, catalog="object")`
  pub parse_resource : Json → Result ResourceRef
  -- `secrets.token_bytes(32)`
  pub token_bytes : M W Bytes

-- `{*_SETTINGS, "authMode"}`
abbrev known_settings : List String
known_settings =
    "resource" ∷ "registryRelease" ∷ "registryImage" ∷ "chunkSize" ∷ "maxObjectBytes"
    ∷ "maxRangeBytes" ∷ "maxManifestBytes" ∷ "maxMetadataBytes" ∷ "maxListPageSize" ∷ "maxScanTags"
    ∷ "maxMultipartParts" ∷ "conditionalCreateMode" ∷ "deletionEnabled" ∷ "retentionEnforced"
    ∷ "referrersRequired" ∷ "authMode" ∷ []

abbrev pub are_known : Fields → Bool
are_known end = true
are_known (field k v fs) = contains_text k known_settings && are_known fs

-- An integer, a Boolean, a text and a label of the settings, or the default of the binding's field.
abbrev pub int_setting : Option Json → ℕ → Result ℕ
int_setting none default_ = ok default_
int_setting (some (num n)) default_ = ok n
int_setting (some _) default_ = err value_error

abbrev pub bool_setting : Option Json → Result Bool
bool_setting none = ok false
bool_setting (some (bool b)) = ok b
bool_setting (some _) = err type_error

abbrev pub mode_setting : Option Json → Result String
mode_setting none = ok "single-writer"
mode_setting (some (str s)) = ok s
mode_setting (some _) = err value_error

abbrev pub label_setting : Option Json → Result (Option String)
label_setting none = ok none
label_setting (some null) = ok none
label_setting (some (str s)) = ok (some s)
label_setting (some _) = err value_error

abbrev pub resource_setting : Option Json → (Json → Result ResourceRef) → Result ResourceRef
resource_setting none parse = err value_error
resource_setting (some v) parse = parse v

abbrev checked_credentials : Credentials → Result Credentials
checked_credentials c = bind_result (check_credentials c) λ _. ok c

abbrev basic_of : Result String → Result String → Result Credentials
basic_of identity credential =
    bind_result identity λ u. bind_result credential λ p. checked_credentials (basic u p)

abbrev bearer_of : Result String → Result Credentials
bearer_of credential = bind_result credential λ t. checked_credentials (bearer t)

-- `settings.get("authMode", "basic")` and the credentials of the mode
unfoldable pub credentials_of : Option Json → Result String → Result String → Result Credentials
credentials_of none identity credential = basic_of identity credential
credentials_of (some (str mode)) identity credential =
    if mode =ˢ "anonymous"
    then ok anonymous
    else if mode =ˢ "basic"
    then basic_of identity credential
    else if mode =ˢ "bearer"
    then bearer_of credential
    else err value_error
credentials_of (some _) identity credential = err value_error

module _ {W : Type 0} (host : CreateHost W) (context : AdapterCreateContext) where
  abbrev pub setting : String → Option Json
  setting key = get key context.settings

  -- The fields of the binding, before its checks; the endpoint is the text that they normalize.
  unfoldable pub fields_of_binding : String → Credentials → Bytes → Result OciDistributionBinding
  fields_of_binding endpoint credentials key =
      bind_result (resource_setting (setting "resource") host.parse_resource) λ resource.
        bind_result (int_setting (setting "chunkSize") (4 * 1024 * 1024)) λ chunk_size.
          bind_result (int_setting (setting "maxObjectBytes") (5 * 1024 ^ 4)) λ max_object_bytes.
            bind_result (int_setting (setting "maxRangeBytes") (256 * 1024 * 1024))
              λ max_range_bytes.
                bind_result (int_setting (setting "maxManifestBytes") (4 * 1024 * 1024))
                  λ max_manifest_bytes.
                    bind_result (int_setting (setting "maxMetadataBytes") (512 * 1024))
                      λ max_metadata_bytes.
                        bind_result (int_setting (setting "maxListPageSize") 1000)
                          λ max_list_page_size.
                            bind_result (int_setting (setting "maxScanTags") 2000) λ max_scan_tags.
                              bind_result (int_setting (setting "maxMultipartParts") 10_000)
                                λ max_multipart_parts.
                                  bind_result (mode_setting (setting "conditionalCreateMode"))
                                    λ mode.
                                      bind_result (bool_setting (setting "deletionEnabled"))
                                        λ deletion.
                                          bind_result (bool_setting (setting "retentionEnforced"))
                                            λ retention.
                                              bind_result
                                                (bool_setting (setting "referrersRequired"))
                                                λ referrers.
                                                  bind_result
                                                    (label_setting (setting "registryRelease"))
                                                    λ release.
                                                      bind_result
                                                        (label_setting (setting "registryImage"))
                                                        λ image. ok (record {
                                                          resource_ref = resource;
                                                          endpoint = endpoint;
                                                          repository = context.physical_namespace;
                                                          authorization_header =
                                                            authorization_header host.b64encode
                                                            credentials;
                                                          allow_insecure_http =
                                                            context.tls_mode =ˢ "disabled";
                                                          chunk_size = chunk_size;
                                                          max_object_bytes = max_object_bytes;
                                                          max_range_bytes = max_range_bytes;
                                                          max_manifest_bytes = max_manifest_bytes;
                                                          max_metadata_bytes = max_metadata_bytes;
                                                          max_list_page_size = max_list_page_size;
                                                          max_scan_tags = max_scan_tags;
                                                          max_multipart_parts = max_multipart_parts;
                                                          conditional_create_mode = mode;
                                                          deletion_enabled = deletion;
                                                          retention_enforced = retention;
                                                          referrers_required = referrers;
                                                          cursor_signing_key = key;
                                                          registry_release = release;
                                                          registry_image = image;
                                                        })

  -- The body of the `try` statement.
  unfoldable pub config_of : String → Bytes → Result OciDistributionBinding
  config_of endpoint key =
      bind_result (credentials_of (setting "authMode") context.identity context.credential)
        λ credentials. bind_result (fail_if (context.operation_timeout_ms == 0) value_error) λ _.
          bind_result (fields_of_binding endpoint credentials key)
            λ b. post_init host.texts endpoint b

  abbrev pub resolved_endpoint : Option String → Result String
  resolved_endpoint none = err object_invalid_request
  resolved_endpoint (some endpoint) =
      if not (context.adapter_id =ˢ adapter_id) then err object_invalid_request else ok endpoint

  unfoldable pub create : M W RuntimeConfig
  create = do
    endpoint ← lift (resolved_endpoint context.endpoint)
    raise_if (not (context.adapter_contract =ˢ adapter_contract_version)) object_capability_mismatch
    raise_if (not (context.engine_profile =ˢ engine_profile)) object_capability_mismatch
    raise_if (not (context.engine_version =ˢ oci_distribution_version)) object_capability_mismatch
    raise_if (not (are_known context.settings) || not (is_some (setting "resource")))
        object_invalid_request
    parsed ← lift (host.texts.urlsplit endpoint)
    raise_if
        (context.tls_mode =ˢ "mutual"
          || (context.tls_mode =ˢ "disabled" && not (parsed.scheme =ˢ "http")))
        object_invalid_request
    raise_if (not (context.tls_mode =ˢ "disabled") && not (parsed.scheme =ˢ "https"))
        object_invalid_request
    raise_if (context.tls_mode =ˢ "server" && not (is_some context.tls_ca)) object_invalid_request
    key ← host.token_bytes
    config ← lift (translate is_type_or_value_error object_invalid_request (config_of endpoint key))
    pure (record { binding = config; tls_ca = context.tls_ca })
