-- ===== src/Factory/Created.antt =====
-- On the contexts that `create` of _factory.py accepts.
use meridian_ociadapter.Prelude.{◌≡◌, true, false, String, some, ◌=ˢ◌, ◌⊎◌, is_some}
use meridian_ociadapter.Effect.{ok}
use meridian_ociadapter.Binding.{OciDistributionBinding}
use meridian_ociadapter.Binding.Credentials.{Credentials}
use meridian_ociadapter.Binding.Construct.{EndpointUrl}
use meridian_ociadapter.Binding.Accepted.{IsAccepted}
use meridian_ociadapter.Capabilities.{adapter_id, engine_profile}
use meridian_ociadapter.Factory.{RuntimeConfig}
use meridian_ociadapter.Factory.Create.{AdapterCreateContext, CreateHost}

module _ {W : Type 0} (host : CreateHost W) (context : AdapterCreateContext) where
  -- HTTP is allowed exactly where TLS is disabled.
  abbrev IsConfigured : String → OciDistributionBinding → Type 0
  IsConfigured endpoint c =
      (b : OciDistributionBinding) × IsAccepted host.texts endpoint b c
      × (b.allow_insecure_http ≡ (context.tls_mode =ˢ "disabled"))

  -- A configuration for a context of this adapter and engine: TLS is disabled for an HTTP endpoint only
  -- and an HTTPS one has TLS, a server policy comes with its CA, and the binding is one that is accepted.
  pub record IsCreated (c : RuntimeConfig) : Type 0 where
    pub endpoint : String
    pub given : context.endpoint ≡ some endpoint
    pub adapter : context.adapter_id ≡ "oci-distribution"
    pub profile : context.engine_profile ≡ "oci-distribution"
    pub version : context.engine_version ≡ "1.1.1"
    pub parsed : EndpointUrl
    pub split : host.texts.urlsplit endpoint ≡ ok parsed
    pub tls :
        ((context.tls_mode ≡ "disabled") × (parsed.scheme ≡ "http"))
        ⊎ ((context.tls_mode =ˢ "disabled" ≡ false) × (parsed.scheme ≡ "https"))
    pub ca : context.tls_mode ≡ "server" → is_some context.tls_ca ≡ true
    pub kept : c.tls_ca ≡ context.tls_ca
    pub configured : IsConfigured endpoint c.binding

  abbrev IsMatching : OciDistributionBinding → Type 0
  IsMatching b = b.allow_insecure_http ≡ (context.tls_mode =ˢ "disabled")
