-- ===== src/Transport/Client/Answers.antt =====
-- On the responses that `_request` of transport/client.py returns.
use mathlib.Core.Path.{subst}
use meridian_ociadapter.Prelude.{
  ℕ, zero, suc, ◌+◌, ◌≤◌, ◌≡◌, refl, Bool, true, false, ◌&&◌, not, [], ◌++◌, Option, none, some,
  length, arith, if◌then◌else◌,
}
use meridian_ociadapter.Effect.{Error, Result, ok, err, M, pure, object_unavailable, http_error}
use meridian_ociadapter.Effect.Rules.{
  Ensures, Ensures-pure, Ensures-raise, Ensures-bind, Ensures-then, Ensures-lifted, Ensures-if,
  ok-injective,
}
use meridian_ociadapter.Hashing.{Bytes}
use meridian_ociadapter.Transport.Stream.{Chunks, done, broken, chunk}
use meridian_ociadapter.Transport.Http.{
  Response, FullResponse, RegistryHttpClient, bounded_body, status_in, is_retriable,
  require_safe_url, response_error, provider_code,
}
use meridian_ociadapter.Transport.Client.{
  Call, try_send, answer, received, settled, one_attempt, sleep, request_loop, request,
}

-- What was read whole lies within the bound, counting what was read before.
bounded_body-le :
    (cs : Chunks) (b : Bytes) (maximum : ℕ) {body : Bytes}
    → length b ≤ maximum
    → bounded_body cs b maximum ≡ ok body
    → length body ≤ maximum
unfolding bounded_body
bounded_body-le done b maximum l h = ground arith
bounded_body-le (broken e) b maximum l h = cc
bounded_body-le (chunk c rest) b maximum {body} l h =
    ground (arith, bounded_body-le rest (b ++ c) maximum {body = body})

-- The response that a call may return.
pub record IsAnswer (call : Call) (r : FullResponse) : Type 0 where
  pub status : status_in r.status_code call.expected ≡ true
  pub bounded : length r.content ≤ call.maximum_response_bytes

abbrev Answers : Call → Option FullResponse → Type 0
Answers call none = Unit
Answers call (some r) = IsAnswer call r

decided :
    {W : Type 0} (call : Call) (b : Bool) (r : FullResponse) (x : Error) (w : W)
    (a : Option FullResponse)
    → (b ≡ true → IsAnswer call r)
    → (if◌then◌else◌ {A = Result (Option FullResponse) × W} b (ok (some r), w) (err x, w)).0 ≡ ok a
    → Answers call a
decided call true r x w a h e = subst (Answers call) (ok-injective e) (h refl)
decided call false r x w a h e = cc

module _ {W : Type 0} (self : RegistryHttpClient W) (call : Call) where
  answer-Ensures :
      (r : Response) (b : Result Bytes)
      → ((body : Bytes) → b ≡ ok body → length body ≤ call.maximum_response_bytes)
      → Ensures (answer self call r b) (Answers call)
  answer-Ensures r (ok body) h = record {
    at = λ w a e.
        decided call (status_in r.status_code call.expected)
          (record { status_code = r.status_code; header = r.header; content = body })
          (response_error r.status_code (provider_code self.codec body)) w a
          (λ s. record { status = s; bounded = h body refl }) e;
  }
  answer-Ensures r (err object_unavailable) h = record { at = λ w a e. ground arith }
  answer-Ensures r (err http_error) h = record { at = λ w a e. ground arith }
  answer-Ensures r (err e) h = record { at = λ w a x. ground arith }

  received-Ensures :
      (last : Bool) (o : Option Response) → Ensures (received self call last o) (Answers call)
  received-Ensures last none = Ensures-pure none tt
  received-Ensures last (some r) =
      Ensures-lifted (require_safe_url self.texts self.binding r.url) _ λ _ _.
        Ensures-if (is_retriable r.status_code && not last) (pure none) _
          (λ _. Ensures-pure none tt)
          (λ _.
            answer-Ensures r (bounded_body r.body [] call.maximum_response_bytes)
              (λ body e. bounded_body-le r.body [] call.maximum_response_bytes (omega arith) e))

  one_attempt-Ensures : (last : Bool) → Ensures (one_attempt self call last) (Answers call)
  unfolding one_attempt
  one_attempt-Ensures last = Ensures-then (try_send self call) _ (received-Ensures last)

  settled-Ensures :
      (o : Option FullResponse) (next : M W FullResponse)
      → Answers call o
      → Ensures next (IsAnswer call)
      → Ensures (settled o next) (IsAnswer call)
  settled-Ensures none next a n = n
  settled-Ensures (some r) next a n = Ensures-pure r a

  request_loop-Ensures : (n i : ℕ) → Ensures (request_loop self call n i) (IsAnswer call)
  unfolding request_loop
  request_loop-Ensures zero i = Ensures-raise object_unavailable
  request_loop-Ensures (suc zero) i =
      Ensures-bind (one_attempt self call true) _ (Answers call) (one_attempt-Ensures true)
        (λ o a. settled-Ensures o _ a (Ensures-raise object_unavailable))
  request_loop-Ensures (suc (suc n)) i =
      Ensures-bind (one_attempt self call false) _ (Answers call) (one_attempt-Ensures false)
        (λ o a.
          settled-Ensures o _ a
            (Ensures-then (sleep self i) _ (λ _. request_loop-Ensures (suc n) (i + 1))))

  pub request-Ensures : Ensures (request self call) (IsAnswer call)
  unfolding request
  request-Ensures = request_loop-Ensures (if call.retry then self.max_read_attempts else 1) 0

  -- Whenever a request returns a response, after however many attempts, its status is among those that
  -- the call expects, and its body is within the bound that the call sets.
  pub request-IsAnswer :
      (w : W) (r : FullResponse) → (request self call w).0 ≡ ok r → IsAnswer call r
  request-IsAnswer w r e = request-Ensures.at w r e
