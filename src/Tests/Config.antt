-- ===== src/Tests/Config.antt =====
-- Credentials, a private binding, and a context of the factory, on concrete data.
use meridian_ociadapter.Prelude.{
  ◌≡◌, refl, ◌*◌, ◌^◌, true, false, [], ◌∷◌, String, some, none, codes,
}
use meridian_ociadapter.Effect.{ok, err, object_invalid_request, pure, ◌>>=◌, value_error}
use meridian_ociadapter.Json.{field, str, end}
use meridian_ociadapter.Binding.{OciDistributionBinding, check_limits, bounded_int}
use meridian_ociadapter.Binding.Credentials.{
  basic, is_single_line, is_refused, check_credentials, authorization_header,
  authorization_header-single,
}
use meridian_ociadapter.Binding.Repository.{is_repository}
use meridian_ociadapter.Binding.Construct.{
  EndpointUrl, UrlTexts, endpoint_of, check_release, check_image, post_init,
}
use meridian_ociadapter.Binding.Accepted.{IsAccepted, post_init-IsAccepted}
use meridian_ociadapter.Capabilities.{adapter_contract_version}
use meridian_ociadapter.Factory.{RuntimeConfig}
use meridian_ociadapter.Factory.Create.{AdapterCreateContext, CreateHost, create}
use meridian_ociadapter.Tests.Data.{demo_binding}

-- A fixed header value is a single line.
abbrev fixed_text : String → String
fixed_text s = "QQ"

fixed_text-single : (s : String) → is_single_line (fixed_text s) ≡ true
unfolding is_single_line codes
fixed_text-single s = refl

passes : check_credentials (basic "user" "secret") ≡ ok tt
unfolding check_credentials is_refused is_single_line codes
passes = refl

answers : authorization_header fixed_text (basic "user" "secret") ≡ ok (some "Basic QQ")
unfolding authorization_header
answers = refl

authorization_header-single_example : is_single_line "Basic QQ" ≡ true
authorization_header-single_example =
    authorization_header-single fixed_text fixed_text-single (basic "user" "secret") passes
      "Basic QQ" answers

-- A password with a line break is refused.
refuses : check_credentials (basic "user" "a\nb") ≡ err value_error
unfolding check_credentials is_refused is_single_line codes
refuses = refl

abbrev demo_url : EndpointUrl
demo_url = record {
  scheme = "https";
  netloc = "r.example";
  path = "/";
  query = "";
  fragment = "";
  hostname = some "r.example";
  username = none;
  password = none;
  port = ok none;
}

abbrev demo_texts : UrlTexts
demo_texts = record {
  urlsplit = λ s. ok demo_url;
  urlunsplit = λ scheme netloc. "https://r.example";
  is_blank = λ s. false;
}

abbrev kept_binding : OciDistributionBinding
kept_binding = record demo_binding { endpoint = "https://r.example"; repository = "team/objects" }

accepts :
    post_init demo_texts "https://r.example/" (record demo_binding { repository = "team/objects" })
    ≡ ok kept_binding
unfolding post_init endpoint_of is_repository codes check_limits bounded_int check_release
    check_image
accepts = refl

post_init-IsAccepted_example :
    IsAccepted demo_texts "https://r.example/"
      (record demo_binding { repository = "team/objects" })
      kept_binding
post_init-IsAccepted_example =
    post_init-IsAccepted demo_texts "https://r.example/"
      (record demo_binding { repository = "team/objects" }) kept_binding accepts

abbrev demo_host : CreateHost (Unit {0})
demo_host = record {
  texts = demo_texts;
  b64encode = fixed_text;
  parse_resource = λ v. ok demo_binding.resource_ref;
  token_bytes = pure demo_binding.cursor_signing_key;
}

abbrev demo_context : AdapterCreateContext
demo_context = record {
  adapter_id = "oci-distribution";
  adapter_contract = adapter_contract_version;
  engine_profile = "oci-distribution";
  engine_version = "1.1.1";
  endpoint = some "https://r.example/";
  settings = field "resource" (str "a.b") (field "authMode" (str "bearer") end);
  tls_mode = "server";
  physical_namespace = "team/objects";
  operation_timeout_ms = 500;
  tls_ca = some (1 ∷ []);
  identity = err value_error;
  credential = ok "token";
}

abbrev created_binding : OciDistributionBinding
created_binding = record {
  resource_ref = demo_binding.resource_ref;
  endpoint = "https://r.example";
  repository = "team/objects";
  authorization_header = ok (some "Bearer token");
  allow_insecure_http = false;
  chunk_size = 4 * 1024 * 1024;
  max_object_bytes = 5 * 1024 ^ 4;
  max_range_bytes = 256 * 1024 * 1024;
  max_manifest_bytes = 4 * 1024 * 1024;
  max_metadata_bytes = 512 * 1024;
  max_list_page_size = 1000;
  max_scan_tags = 2000;
  max_multipart_parts = 10_000;
  conditional_create_mode = "single-writer";
  deletion_enabled = false;
  retention_enforced = false;
  referrers_required = false;
  cursor_signing_key = demo_binding.cursor_signing_key;
  registry_release = none;
  registry_image = none;
}

abbrev created_config : RuntimeConfig
created_config = record { binding = created_binding; tls_ca = some (1 ∷ []) }

-- A mutual TLS policy is refused.
refuses_mutual :
    (create demo_host (record demo_context { tls_mode = "mutual" }) tt).0
    ≡ err object_invalid_request
unfolding create ◌>>=◌
refuses_mutual = refl
