-- ===== src/Transport/Client/Origins.antt =====
-- On credentials and addresses in transport/client.py.
use meridian_ociadapter.Prelude.{
  ◌≡◌, refl, true, false, List, ◌∷◌, ◌++◌, String, Option, none, some, arith, eq_iff, ◌⊎◌,
}
use meridian_ociadapter.Effect.{Result, ok, err, bind_result}
use meridian_ociadapter.Effect.Rules.{ok-injective}
use meridian_ociadapter.Transport.Http.{
  RegistryHttpClient, header_get, SplitUrl, no_host, same_origin, require_safe_url,
}
use meridian_ociadapter.Transport.Client.{headers, authorization_field}

module _ {W : Type 0} (self : RegistryHttpClient W) where
  own_headers :
      (r : Result (Option String)) (additional hs : List (String × String))
      → header_get "Authorization" additional ≡ none
      → bind_result (bind_result r (λ value. ok (authorization_field value))) (λ auth. ok (
          ("User-Agent", "meridian-storage-oci/1.0.0") ∷ ("Accept", "application/json") ∷ auth
          ++ additional))
        ≡ ok hs
      → r ≡ ok (header_get "Authorization" hs)
  own_headers (ok none) additional hs a h = rw (← ok-injective h, a) refl
  own_headers (ok (some v)) additional hs a h = rw (← ok-injective h, a) refl
  own_headers (err e) additional hs a h = cc

  -- With no Authorization header among the additional ones, a request to another origin than the
  -- binding's carries none.
  pub headers-foreign :
      (url : String) (additional hs : List (String × String))
      → header_get "Authorization" additional ≡ none
      → same_origin self.texts url self.binding.endpoint ≡ ok false
      → headers self url additional ≡ ok hs
      → header_get "Authorization" hs ≡ none
  unfolding headers
  headers-foreign url additional hs a s h = let e = rw s at h in rw (← ok-injective e, a) refl

  -- With no Authorization header among the additional ones, a request to the binding's own origin
  -- carries exactly what the credential provider answers, which then did not raise.
  pub headers-own :
      (url : String) (additional hs : List (String × String))
      → header_get "Authorization" additional ≡ none
      → same_origin self.texts url self.binding.endpoint ≡ ok true
      → headers self url additional ≡ ok hs
      → self.binding.authorization_header ≡ ok (header_get "Authorization" hs)
  unfolding headers
  headers-own url additional hs a s h =
      let e = rw s at h in own_headers self.binding.authorization_header additional hs a e

-- A response is accepted only from a web address with a host and no user, and either over HTTPS or,
-- where the binding allows HTTP, from the binding's own origin.
pub require_safe_url-ok :
    {W : Type 0} (self : RegistryHttpClient W) (url : String) (parsed : SplitUrl)
    → self.texts.urlsplit url ≡ ok parsed
    → require_safe_url self.texts self.binding url ≡ ok tt
    → (no_host parsed.hostname ≡ false)
      × (parsed.username ≡ none)
      × ((parsed.scheme ≡ "https")
          ⊎ ((parsed.scheme ≡ "http")
              × (self.binding.allow_insecure_http ≡ true)
              × (same_origin self.texts url self.binding.endpoint ≡ ok true)))
unfolding require_safe_url
require_safe_url-ok self url parsed p h =
    let e = rw p at h in ground (arith, eq_iff parsed.scheme "https", eq_iff parsed.scheme "http")
