-- ===== src/Adapter/Put.antt =====
-- `_put` of adapter.py: the payload is uploaded and verified, then the object is committed. A state
-- machine follows the put; an error before the end fails it and is raised again.
pub mod Laws
use meridian_ociadapter.Prelude.{Bool, true, false, ◌||◌, Option, none, some, if◌then◌else◌}
use meridian_ociadapter.Effect.{
  Result, ok, err, M, pure, raise, lift, continue, ◌>>=◌, ◌>>◌, object_invalid_request,
}
use meridian_ociadapter.Effect.Locals.{on_world, locals, assign}
use meridian_ociadapter.Json.{Json, obj, Fields, end, field, as_obj}
use meridian_ociadapter.ObjectCommon.{
  ObjectCommon, ObjectMetadata, ImmutabilityRequest, RetentionRequest, PayloadReference, PutState,
  uploading, verifying, committed,
}
use meridian_ociadapter.Adapter.{
  Input, Operation, OciDistributionAdapter, immutability_of, retention_of, require_create_available,
}
use meridian_ociadapter.Adapter.Upload.{upload_payload}
use meridian_ociadapter.Adapter.Commit.{commit_object}

-- The variables that the error path reads.
pub record Progress : Type 0 where
  pub state : PutState
  pub physical_commit : Bool

-- `state.state in {PutState.UPLOADING, PutState.VERIFYING}`
abbrev pub is_under_way : PutState → Bool
is_under_way uploading = true
is_under_way verifying = true
is_under_way _ = false

abbrev pub metadata_answer : ObjectCommon → ObjectMetadata → Json
metadata_answer O m = obj (field "metadata" (O.metadata_to_dict m) end)

module _ {W : Type 0} (self : OciDistributionAdapter W) where
  unfoldable pub payload_in : Option Fields → Result PayloadReference
  payload_in none = err object_invalid_request
  payload_in (some value) = self.common.payload_from_mapping value

  -- `state.transition(target)`
  unfoldable pub transition : PutState → M (W × Progress) (Unit {0})
  transition target = do
    l ← locals
    state ← lift (self.common.put_transition l.state target)
    assign (λ x. record x { state = state })

  module _ (input : Input) (payload : PayloadReference) (immutability : ImmutabilityRequest)
      (retention : Option RetentionRequest) (create_only : Bool) where
    -- The body of the `try` statement.
    unfoldable pub put_body : M (W × Progress) Json
    put_body = do
      transition uploading
      identity ← on_world (upload_payload self payload)
      assign (λ l. record l { physical_commit = true })
      transition verifying
      result ← on_world (commit_object self input identity immutability retention create_only)
      transition committed
      pure (metadata_answer self.common result)

    -- `except Exception`
    abbrev settle_put : Result Json × (W × Progress) → Result Json × W
    settle_put (ok answer, (w, l)) = (ok answer, w)
    settle_put (err e, (w, l)) =
        if is_under_way l.state
        then (do _ ← lift (self.common.put_fail l.state l.physical_commit); raise e) w
        else (err e, w)

    unfoldable pub run_put : M W Json
    run_put w =
        settle_put (put_body (w, record { state = self.common.put_start; physical_commit = false }))

  -- `_put`
  unfoldable pub put : Operation → M W Json
  unfolding payload_in
  put operation = do
    let input = operation.input
    payload ← lift (payload_in (as_obj (some input.payload)))
    immutability ← lift (immutability_of self input.immutability)
    retention ← lift (retention_of self input.retention)
    let create_only = input.create_only || immutability.publish_once
    require_create_available self input.object_id immutability create_only
    run_put input payload immutability retention create_only
