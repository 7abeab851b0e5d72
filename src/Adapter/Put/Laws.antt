-- ===== src/Adapter/Put/Laws.antt =====
-- On the answers of `_put` in adapter.py.
use meridian_ociadapter.Prelude.{◌≡◌, refl, Bool, true, false, ◌||◌, Option, some, if◌then◌else◌}
use meridian_ociadapter.Effect.{Error, Result, ok, err, M}
use meridian_ociadapter.Effect.Rules.{
  Ensures, Ensures-then, Ensures-lifted, Ensures-raise, Ensures-weaken,
}
use meridian_ociadapter.Effect.Locals.{
  Triple, Triple-pure, Triple-on_world, Triple-bind, Triple-then, Triple-known,
}
use meridian_ociadapter.Json.{Json, as_obj}
use meridian_ociadapter.ObjectCommon.{
  ContentIdentity, ObjectMetadata, ImmutabilityRequest, RetentionRequest, PayloadReference,
}
use meridian_ociadapter.Transport.Interface.{IsVerifying}
use meridian_ociadapter.Adapter.{Input, Operation, OciDistributionAdapter}
use meridian_ociadapter.Adapter.Upload.Laws.{IsUploaded, upload_payload-Ensures}
use meridian_ociadapter.Adapter.Commit.Laws.{KeepsFields, IsCommitted, commit_object-Ensures}
use meridian_ociadapter.Adapter.Put.{
  Progress, is_under_way, metadata_answer, payload_in, put_body, settle_put, run_put, put,
}

module _ {W : Type 0} (self : OciDistributionAdapter W) where
  -- The answer holds the metadata of the object with the id, whose digest is the hash of all the bytes
  -- of an opening of the payload.
  pub record IsStored (input : Input) (payload : PayloadReference) (answer : Json) : Type 0 where
    pub identity : ContentIdentity
    pub uploaded : IsUploaded self payload identity
    pub metadata : ObjectMetadata
    pub committed : IsCommitted self input.object_id identity.digest metadata
    pub answered : answer ≡ metadata_answer self.common metadata

  -- The same, for the payload that the input's serialized reference is.
  pub record IsPut (operation : Operation) (answer : Json) : Type 0 where
    pub payload : PayloadReference
    pub decoded : payload_in self (as_obj (some operation.input.payload)) ≡ ok payload
    pub stored : IsStored operation.input payload answer

  failed :
      {P : Json → Type 0} (b : Bool) (m : M W Json) (x : Error) (w : W)
      → Ensures m P
      → (a : Json) → (if b then m w else (err x, w)).0 ≡ ok a
      → P a
  failed true m x w h a e = h.at w a e
  failed false m x w h a e = cc

  module _
      (keeps : IsVerifying self.hashing self.codec self.binding.max_manifest_bytes self.transport)
      (fields : KeepsFields self.common) where
    module _ (input : Input) (payload : PayloadReference) (immutability : ImmutabilityRequest)
        (retention : Option RetentionRequest) (create_only : Bool) where
      put_body-Triple :
          Triple
            (λ _. Unit)
            (put_body self input payload immutability retention create_only)
            (λ answer _. IsStored input payload answer)
      unfolding put_body
      put_body-Triple = Triple-then _ _ λ _.
          Triple-bind _ _ (λ i _. IsUploaded self payload i)
            (Triple-on_world _ _ (upload_payload-Ensures self payload keeps) λ i l u _. u)
            λ i. Triple-known λ uploaded. Triple-then _ _ λ _. Triple-then _ _ λ _.
              Triple-bind _ _ (λ m _. IsCommitted self input.object_id i.digest m)
                (Triple-on_world _ _
                  (commit_object-Ensures self keeps fields input i immutability retention
                    create_only)
                  λ m l c _. c)
                λ m. Triple-known λ committed. Triple-then _ _ λ _. Triple-pure _ λ l _. record {
                  identity = i;
                  uploaded = uploaded;
                  metadata = m;
                  committed = committed;
                  answered = refl;
                }

      settled :
          (r : Result Json × (W × Progress))
          → ((a : Json) → r.0 ≡ ok a → IsStored input payload a)
          → (a : Json)
          → (settle_put self input payload immutability retention create_only r).0 ≡ ok a
          → IsStored input payload a
      settled (ok b, (w, l)) h a e = h a e
      settled (err x, (w, l)) h a e =
          failed {P = IsStored input payload} (is_under_way l.state) _ x w
            (Ensures-then _ _ λ _. Ensures-raise x) a e

      run_put-Ensures :
          Ensures
            (run_put self input payload immutability retention create_only)
            (IsStored input payload)
      unfolding run_put
      run_put-Ensures = record { at = λ w. settled _ (put_body-Triple.at w _ tt) }

    pub put-Ensures : (operation : Operation) → Ensures (put self operation) (IsPut operation)
    unfolding put payload_in
    put-Ensures operation = Ensures-lifted _ _ λ payload decoded.
        Ensures-lifted _ _ λ immutability _. Ensures-lifted _ _ λ retention _. Ensures-then _ _ λ _.
          Ensures-weaken _
            (run_put-Ensures operation.input payload immutability retention
              (operation.input.create_only || immutability.publish_once))
            λ answer stored. record { payload = payload; decoded = decoded; stored = stored }

    -- Whenever a put answers, over a transport that keeps the client's promises and metadata that keeps
    -- the reference and identity it is built from, an opening of the payload that the input names has
    -- been read to its end, and the answer holds metadata of the binding's resource and the input's id
    -- whose digest is the hash of all the bytes read. This holds for a newly published version and for
    -- one that was published before.
    pub put-IsPut :
        (operation : Operation) (w : W) (answer : Json)
        → (put self operation w).0 ≡ ok answer
        → IsPut operation answer
    put-IsPut operation w answer e = (put-Ensures operation).at w answer e
