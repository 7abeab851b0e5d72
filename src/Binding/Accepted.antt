-- ===== src/Binding/Accepted.antt =====
-- On the bindings that `__post_init__` of descriptor/config.py accepts.
use mathlib.Core.Path.{subst}
use meridian_ociadapter.Prelude.{
  ◌≡◌, refl, sym, ◌∙◌, Bool, true, false, ◌&&◌, ◌||◌, not, or-false, and-true, String, ◌=ˢ◌, eq_iff,
  codes, Bool-cases, ◌⊎◌, inl, inr, is_some,
}
use meridian_ociadapter.Effect.{ok, err, value_error, fail_if}
use meridian_ociadapter.Effect.Rules.{bind_result-eq-ok, ok-injective}
use meridian_ociadapter.Binding.{OciDistributionBinding, check_limits}
use meridian_ociadapter.Binding.Limits.{IsBounded, check_limits-IsBounded}
use meridian_ociadapter.Binding.Repository.{IsPlain, is_repository, is_repository-IsPlain}
use meridian_ociadapter.Binding.Construct.{
  EndpointUrl, UrlTexts, is_allowed_scheme, no_host, is_empty, checked_port, checked_endpoint,
  endpoint_of, check_release, check_image, post_init,
}

-- The endpoint was written with HTTPS or, where that is allowed, with HTTP, and names no user.
pub record IsEndpoint (texts : UrlTexts) (value : String) (allow_http : Bool) (kept : String)
    : Type 0 where
  pub parsed : EndpointUrl
  pub split : texts.urlsplit value ≡ ok parsed
  pub scheme : (parsed.scheme ≡ "https") ⊎ ((allow_http ≡ true) × (parsed.scheme ≡ "http"))
  pub hosted : no_host parsed.hostname ≡ false
  pub no_user : is_some parsed.username ≡ false
  pub no_password : is_some parsed.password ≡ false
  pub normal : kept ≡ texts.urlunsplit parsed.scheme parsed.netloc

pub record IsAccepted (texts : UrlTexts) (endpoint : String) (b c : OciDistributionBinding)
    : Type 0 where
  pub address : IsEndpoint texts endpoint b.allow_insecure_http c.endpoint
  pub repository : IsPlain true (codes c.repository)
  pub bounded : IsBounded c

fail_if-ok : (b : Bool) → fail_if (not b) value_error ≡ ok tt → b ≡ true
fail_if-ok true h = refl
fail_if-ok false h = cc

allowed :
    (allow_http : Bool) (s : String)
    → is_allowed_scheme allow_http s ≡ true
    → (s ≡ "https") ⊎ ((allow_http ≡ true) × (s ≡ "http"))
allowed allow_http s h = elim (Bool-cases (s =ˢ "https")) [
  | inl e ↦ inl ((eq_iff s "https").0 e)
  | inr e ↦
      let h' : allow_http && s =ˢ "http" ≡ true = rw e at h in
      let (a, q) = and-true allow_http (s =ˢ "http") h' in inr (a, (eq_iff s "http").0 q)
]

checked :
    (texts : UrlTexts) (value : String) (allow_http : Bool) (u : EndpointUrl) (kept : String)
    → texts.urlsplit value ≡ ok u
    → checked_endpoint texts allow_http u ≡ ok kept
    → IsEndpoint texts value allow_http kept
checked texts value allow_http u kept e h =
    elim (Bool-cases (is_allowed_scheme allow_http u.scheme)) [
      | inl p ↦ elim (Bool-cases (no_host u.hostname || is_some u.username || is_some u.password)) [
        | inl q ↦ let no : err value_error ≡ ok kept = rw (p, q) at h in cc
        | inr q ↦
            elim (Bool-cases (
              not (is_empty u.query)
              || not (is_empty u.fragment)
              || not (is_empty u.path || u.path =ˢ "/"))) [
                | inl r ↦ let no : err value_error ≡ ok kept = rw (p, q, r) at h in cc
                | inr r ↦
                    let h' : ok (texts.urlunsplit u.scheme u.netloc) ≡ ok kept =
                      rw (p, q, r) at h in
                    let (x, password) =
                      or-false (no_host u.hostname || is_some u.username) (is_some u.password) q in
                    let (host, user) = or-false (no_host u.hostname) (is_some u.username) x in
                    record {
                      parsed = u;
                      split = e;
                      scheme = allowed allow_http u.scheme p;
                      hosted = host;
                      no_user = user;
                      no_password = password;
                      normal = sym (ok-injective h');
                    }
              ]
      ]
      | inr p ↦ let no : err value_error ≡ ok kept = rw p at h in cc
    ]

same_limits :
    (b : OciDistributionBinding) (kept : String)
    → check_limits (record b { endpoint = kept }) ≡ check_limits b
unfolding check_limits
same_limits b kept = refl

-- Every binding that is accepted has an endpoint that was written with HTTPS or, where the binding
-- allows insecure HTTP, with HTTP, with a host and without a user or a password; a repository whose
-- name has plain characters only and no empty or climbing path segment; and limits, a mode and a cursor
-- key within their bounds.
pub post_init-IsAccepted :
    (texts : UrlTexts) (endpoint : String) (b c : OciDistributionBinding)
    → post_init texts endpoint b ≡ ok c
    → IsAccepted texts endpoint b c
unfolding post_init endpoint_of
post_init-IsAccepted texts endpoint b c h =
    let (kept, e, h1) = bind_result-eq-ok (endpoint_of texts endpoint b.allow_insecure_http) _ h in
    let (_, r, h2) =
      bind_result-eq-ok (fail_if (not (is_repository b.repository)) value_error) _ h1 in
    let (_, l, h3) = bind_result-eq-ok (check_limits b) _ h2 in
    let (_, _, h4) = bind_result-eq-ok (check_release texts b.registry_release) _ h3 in
    let (_, _, h5) = bind_result-eq-ok (check_image b.registry_image) _ h4 in
    let (u, s, e1) = bind_result-eq-ok (texts.urlsplit endpoint) _ e in
    let (_, _, e2) = bind_result-eq-ok (checked_port u.port) _ e1 in
    subst (IsAccepted texts endpoint b) (ok-injective h5) (record {
      address = checked texts endpoint b.allow_insecure_http u kept s e2;
      repository = is_repository-IsPlain b.repository (fail_if-ok (is_repository b.repository) r);
      bounded = check_limits-IsBounded (record b { endpoint = kept }) (same_limits b kept ∙ l);
    })
