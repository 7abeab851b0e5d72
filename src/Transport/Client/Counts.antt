-- ===== src/Transport/Client/Counts.antt =====
-- How often `_request` of transport/client.py calls `send` of the HTTP client. A call may follow
-- redirects, which are inside the HTTP client and are not counted.
use mathlib.Core.Path.{subst}
use meridian_ociadapter.Prelude.{
  ℕ, zero, suc, ◌+◌, ◌≤◌, ◌≡◌, refl, sym, Bool, true, false, ◌&&◌, not, List, [], String, Option,
  none, some, arith, if_cases, if◌then◌else◌,
}
use meridian_ociadapter.Effect.{
  Error, Result, ok, err, M, pure, raise, continue, ◌>>=◌, object_unavailable, http_error,
}
use meridian_ociadapter.Hashing.{Bytes}
use meridian_ociadapter.Transport.Http.{
  Response, FullResponse, RegistryHttpClient, bounded_body, is_retriable, require_safe_url,
}
use meridian_ociadapter.Transport.Client.{
  Call, headers, try_send, send, caught, answer, received, settled, one_attempt, sleep,
  request_loop, request,
}

-- The client over a world that also counts the calls of `send`.
abbrev pub counted : {W : Type 0} → RegistryHttpClient W → RegistryHttpClient (W × ℕ)
counted self = record {
  binding = self.binding;
  http = record {
    send = λ r (w, n). let s = self.http.send r w in (s.0, (s.1, n + 1));
    sleep = λ d (w, n). (self.http.sleep d w, n);
  };
  texts = self.texts;
  hashing = self.hashing;
  codec = self.codec;
  max_read_attempts = self.max_read_attempts;
}

continue-world :
    {W A B : Type 0} (r : Result A) (f : A → M W B) (w : W)
    → ((a : A) → (f a w).1 ≡ w)
    → (continue r f w).1 ≡ w
continue-world (ok a) f w h = h a
continue-world (err e) f w h = refl

module _ {W : Type 0} (self : RegistryHttpClient W) (call : Call) where
  caught-world : {A : Type 0} (r : Result A) (w : W) → (caught r w).1 ≡ w
  caught-world (ok a) w = refl
  caught-world (err http_error) w = refl
  caught-world (err e) w = refl

  answer-world : (r : Response) (b : Result Bytes) (w : W) → (answer self call r b w).1 ≡ w
  answer-world r (ok body) w = ground arith
  answer-world r (err object_unavailable) w = ground arith
  answer-world r (err http_error) w = refl
  answer-world r (err e) w = refl

  received-world : (last : Bool) (o : Option Response) (w : W) → (received self call last o w).1 ≡ w
  unfolding ◌>>=◌
  received-world last none w = refl
  received-world last (some r) w =
      continue-world (require_safe_url self.texts self.binding r.url) _ w λ _.
        if_cases (λ (m : M W (Option FullResponse)). (m w).1 ≡ w)
          (is_retriable r.status_code && not last) (pure none) _ (λ _. refl)
          (λ _. answer-world r (bounded_body r.body [] call.maximum_response_bytes) w)

-- A computation of the counted client that calls `send` at most `k` times.
pub record SendsAtMost {W A : Type 0} (k : ℕ) (m : M (W × ℕ) A) : Type 0 where
  pub at : (w : W) (n : ℕ) → (m (w, n)).1.1 ≤ n + k

module _ {W A B : Type 0} where
  SendsAtMost-continue :
      (j k n : ℕ) (r : Result A) (f : A → M (W × ℕ) B) (s : W × ℕ)
      → s.1 ≤ n + j
      → ((a : A) → SendsAtMost k (f a))
      → (continue r f s).1.1 ≤ n + (j + k)
  SendsAtMost-continue j k n (ok a) f (w, m) h hf = omega (arith, (hf a).at w m)
  SendsAtMost-continue j k n (err e) f (w, m) h hf = omega arith

  pub SendsAtMost-bind :
      (j k : ℕ) (m : M (W × ℕ) A) (f : A → M (W × ℕ) B)
      → SendsAtMost j m
      → ((a : A) → SendsAtMost k (f a))
      → SendsAtMost (j + k) (m >>= f)
  unfolding ◌>>=◌
  SendsAtMost-bind j k m f hm hf = record {
    at = λ w n. SendsAtMost-continue j k n (m (w, n)).0 f (m (w, n)).1 (hm.at w n) hf;
  }

SendsAtMost-weaken :
    {W A : Type 0} (j k : ℕ) {m : M (W × ℕ) A} → j ≤ k → SendsAtMost j m → SendsAtMost k m
SendsAtMost-weaken j k l h = record { at = λ w n. omega (arith, h.at w n) }

module _ {W : Type 0} (self : RegistryHttpClient W) (call : Call) where
  send-count :
      (hs : Result (List (String × String))) → SendsAtMost {W = W} 1 (send (counted self) call hs)
  send-count (ok hs) = record { at = λ w n. omega arith }
  send-count (err e) = record { at = λ w n. omega arith }

  try_send-count : SendsAtMost {W = W} 1 (try_send (counted self) call)
  unfolding try_send
  try_send-count = record {
    at = λ w n.
        let s = send (counted self) call (headers (counted self) call.url call.headers) (w, n) in
        subst (λ (x : W × ℕ). x.1 ≤ n + 1) (sym (caught-world (counted self) call s.0 s.1))
          ((send-count (headers (counted self) call.url call.headers)).at w n);
  }

  received-count :
      (last : Bool) (o : Option Response)
      → SendsAtMost {W = W} 0 (received (counted self) call last o)
  received-count last o = record {
    at = λ w n. rw (received-world (counted self) call last o (w, n)) (omega arith);
  }

  one_attempt-count : (last : Bool) → SendsAtMost {W = W} 1 (one_attempt (counted self) call last)
  unfolding one_attempt
  one_attempt-count last =
      SendsAtMost-bind 1 0 (try_send (counted self) call) _ try_send-count (received-count last)

  settled-count :
      (k : ℕ) (o : Option FullResponse) (next : M (W × ℕ) FullResponse)
      → SendsAtMost k next
      → SendsAtMost k (settled o next)
  unfolding pure
  settled-count k none next h = h
  settled-count k (some r) next h = record { at = λ w n. omega arith }

  raise-count : (e : Error) → SendsAtMost {W = W} {A = FullResponse} 0 (raise e)
  unfolding raise
  raise-count e = record { at = λ w n. omega arith }

  sleep-count : (i : ℕ) → SendsAtMost {W = W} 0 (sleep (counted self) i)
  sleep-count i = record { at = λ w n. omega arith }

  request_loop-count : (k i : ℕ) → SendsAtMost {W = W} k (request_loop (counted self) call k i)
  unfolding request_loop
  request_loop-count zero i = raise-count object_unavailable
  request_loop-count (suc zero) i =
      SendsAtMost-bind 1 0 (one_attempt (counted self) call true) _ (one_attempt-count true)
        (λ o. settled-count 0 o _ (raise-count object_unavailable))
  request_loop-count (suc (suc k)) i =
      SendsAtMost-weaken (1 + (0 + suc k)) (suc (suc k)) (omega arith) (
        SendsAtMost-bind 1 (0 + suc k) (one_attempt (counted self) call false) _
          (one_attempt-count false)
          (λ o. settled-count (0 + suc k) o _ (
            SendsAtMost-bind 0 (suc k) (sleep (counted self) i) _ (sleep-count i)
              (λ _. request_loop-count (suc k) (i + 1)))))

  pub request-SendsAtMost :
      SendsAtMost {W = W}
        (if call.retry then self.max_read_attempts else 1)
        (request (counted self) call)
  unfolding request
  request-SendsAtMost = request_loop-count (if call.retry then self.max_read_attempts else 1) 0

  -- One `_request` calls `send` of the HTTP client at most as many times as the client has read attempts
  -- where it may be retried, and at most once where it may not, whatever `send` answers and however the
  -- call ends. The redirects that one `send` follows are not counted.
  pub request-count :
      (w : W) (n : ℕ)
      → (request (counted self) call (w, n)).1.1
        ≤ n + (if call.retry then self.max_read_attempts else 1)
  request-count w n = request-SendsAtMost.at w n
