-- ===== src/Transport/Client.antt =====
-- `RegistryHttpClient._request` of transport/client.py: one request with bounded retries.
pub mod Blobs
pub mod Download
pub mod Manifests
pub mod Answers
pub mod Counts
pub mod Origins
use meridian_ociadapter.Prelude.{
  ℕ, zero, suc, ◌+◌, ◌^◌, Bool, true, false, ◌&&◌, not, List, [], ◌∷◌, ◌++◌, String, Option, none,
  some, ◌==◌, if◌then◌else◌,
}
use meridian_ociadapter.Effect.{
  Error, Result, ok, err, is_http_error, bind_result, M, pure, raise, lift, handle, continue, ◌>>=◌,
  ◌>>◌, raise_if, object_unavailable, http_error,
}
use meridian_ociadapter.Hashing.{Bytes}
use meridian_ociadapter.Transport.Http.{
  Request, Response, FullResponse, Http, RegistryHttpClient, is_retriable, status_in, provider_code,
  response_error, bounded_body, same_origin, require_safe_url,
}

-- The arguments of one call of `_request`.
pub record Call : Type 0 where
  pub method : String
  pub url : String
  pub headers : List (String × String)
  pub content : Option Bytes
  pub expected : List ℕ
  pub retry : Bool
  pub maximum_response_bytes : ℕ

abbrev authorization_field : Option String → List (String × String)
authorization_field none = []
authorization_field (some value) = ("Authorization", value) ∷ []

module _ {W : Type 0} where
  -- `none` is an `httpx.HTTPError`, which the loop catches.
  abbrev caught : {A : Type 0} → Result A → M W (Option A)
  caught (ok a) w = (ok (some a), w)
  caught (err http_error) w = (ok none, w)
  caught (err e) w = (err e, w)

  -- A response ends the loop; without one the loop goes on.
  abbrev settled : Option FullResponse → M W FullResponse → M W FullResponse
  settled (some r) next = pure r
  settled none next = next

module _ {W : Type 0} (self : RegistryHttpClient W) where
  abbrev authorization : Bool → Result (List (String × String))
  authorization true =
      bind_result self.binding.authorization_header (λ value. ok (authorization_field value))
  authorization false = ok []

  -- `_headers`: a later entry replaces an earlier one of the same name.
  unfoldable pub headers : String → List (String × String) → Result (List (String × String))
  headers url additional = bind_result (same_origin self.texts url self.binding.endpoint) λ same.
      bind_result (authorization same) λ auth. ok (
        ("User-Agent", "meridian-storage-oci/1.0.0") ∷ ("Accept", "application/json") ∷ auth
        ++ additional)

  abbrev send : Call → Result (List (String × String)) → M W Response
  send call (err e) w = (err e, w)
  send call (ok hs) w =
      self.http.send
        (record { method = call.method; url = call.url; headers = hs; content = call.content }) w

  -- `build_request` and `send`
  unfoldable pub try_send : Call → M W (Option Response)
  try_send call w = let sent = send call (headers call.url call.headers) w in caught sent.0 sent.1

  -- What follows when the body has been read, or could not be.
  abbrev answer : Call → Response → Result Bytes → M W (Option FullResponse)
  answer call r (ok body) w =
      if status_in r.status_code call.expected
      then (
        ok (some (record { status_code = r.status_code; header = r.header; content = body })),
        w,
      )
      else (err (response_error r.status_code (provider_code self.codec body)), w)
  answer call r (err object_unavailable) w =
      if status_in r.status_code call.expected
      then (err object_unavailable, w)
      else (err (response_error r.status_code (provider_code self.codec [])), w)
  answer call r (err http_error) w = (ok none, w)
  answer call r (err e) w = (err e, w)

  abbrev received : Call → Bool → Option Response → M W (Option FullResponse)
  received call last none = pure none
  received call last (some r) = do
    lift (require_safe_url self.texts self.binding r.url)
    if is_retriable r.status_code && not last
        then pure none
        else answer call r (bounded_body r.body [] call.maximum_response_bytes)

  -- One round of the loop; `none` is a `continue`, or the `break` of the last round.
  unfoldable pub one_attempt : Call → Bool → M W (Option FullResponse)
  unfolding try_send
  one_attempt call last = do r ← try_send call; received call last r

  -- `self._sleep(0.05 * (2**attempt))`
  abbrev sleep : ℕ → M W (Unit {0})
  sleep attempt w = (ok tt, self.http.sleep (2 ^ attempt) w)

  -- `for attempt in range(attempts)`, with the rounds that are left
  unfoldable pub request_loop : Call → ℕ → ℕ → M W FullResponse
  request_loop call zero attempt = raise object_unavailable
  request_loop call (suc zero) attempt = do
    r ← one_attempt call true
    settled r (raise object_unavailable)
  request_loop call (suc (suc rest)) attempt = do
    r ← one_attempt call false
    settled r (do sleep attempt; request_loop call (suc rest) (attempt + 1))

  unfoldable pub request : Call → M W FullResponse
  unfolding request_loop
  request call = request_loop call (if call.retry then self.max_read_attempts else 1) 0
