-- ===== src/Multipart.antt =====
-- `OciMultipartManager` of multipart/__init__.py: sessions whose parts are streamed, in order, into
-- one upload, and their completion as an object. The sessions, which State has, are a second part of the
-- world. The variables of a session are one mutable object: what a part has changed stays changed where
-- the session is aborted.
pub mod WellFormed
pub mod Transfer
pub mod Calls
pub mod Checks
pub mod Parts
pub mod Runs
pub mod Outcomes
pub mod Complete
pub mod State
use meridian_ociadapter.Prelude.{
  ℕ, suc, ◌+◌, ◌*◌, Bool, true, false, ◌&&◌, ◌||◌, not, List, [], ◌∷◌, ◌++◌, String, Option, none,
  some, ltb, ◌==◌, ◌=ˢ◌, ◌<>◌, length, all, if◌then◌else◌,
}
use meridian_ociadapter.Effect.{
  Error, Result, ok, err, M, pure, raise, lift, continue, ◌>>=◌, ◌>>◌, raise_if, multipart_invalid,
  incomplete_upload,
}
use meridian_ociadapter.Effect.Locals.{on_world, locals, assign}
use meridian_ociadapter.Hashing.{Bytes, sha256_digest}
use meridian_ociadapter.Binding.{same_resource}
use meridian_ociadapter.ObjectCommon.{
  ContentIdentity, ObjectReference, ObjectMetadata, PayloadReference, PutState, uploading,
  verifying, committed, aborted, Datetime, ImmutabilityRequest, RetentionRequest,
}
use meridian_ociadapter.Transport.Models.{UploadLocation}
use meridian_ociadapter.Transport.Stream.{Chunks, done, broken, chunk}
use meridian_ociadapter.Adapter.{
  Operation, OciDistributionAdapter, Method, validate_operation, immutability_of, retention_of,
  object_reference_for_operation, require_create_available, now, abort_safely,
}
use meridian_ociadapter.Adapter.Upload.{verify_identity, length_differs, digest_differs}
use meridian_ociadapter.Adapter.Commit.{commit_object}
unfoldable pub use State.*

module _ {W : Type 0} (self : OciDistributionAdapter W) (host : MultipartHost W) where
  abbrev new_state : Operation → UploadLocation → PutState → MultipartState
  new_state operation upload machine = record {
    operation = operation;
    upload = upload;
    machine = machine;
    hashed = [];
    length = 0;
    next_part = 1;
    parts = [];
  }

  unfoldable pub begin_multipart : Operation → M (W × Sessions) MultipartSession
  begin_multipart operation = do
    method ← lift (validate_operation self.binding operation)
    raise_if (not (is_put method)) multipart_invalid
    lift (self.common.require_object_capabilities operation.requirements)
    immutability ← lift (immutability_of self operation.input.immutability)
    on_world (
        require_create_available self operation.input.object_id immutability
          (operation.input.create_only || immutability.publish_once))
    upload ← on_world self.transport.start_upload
    machine ← lift (self.common.put_transition self.common.put_start uploading)
    token ← on_world host.token_hex
    time ← on_world (now self)
    session ← lift (
        host.multipart_session ("u" <> token) (object_reference_for_operation self operation)
          self.binding.chunk_size (host.expires time))
    assign (put_session ("u" <> token) (new_state operation upload machine))
    pure session

  abbrev state_in : MultipartSession → Option MultipartState → Result MultipartState
  state_in session none = err multipart_invalid
  state_in session (some state) =
      if not
        (same_reference session.object_ref (object_reference_for_operation self state.operation))
      then err multipart_invalid
      else ok state

  -- `_state`
  unfoldable pub state_of : MultipartSession → M (W × Sessions) MultipartState
  state_of session = do
    sessions ← locals
    lift (state_in session (find session.session_id sessions))

  abbrev abort_state : Option MultipartState → M (W × Sessions) (Unit {0})
  abort_state none = pure tt
  abort_state (some state) = do
    on_world (abort_safely self state.upload)
    if is_uploading state.machine
        then (do _ ← lift (self.common.put_transition state.machine aborted); pure tt)
        else pure tt

  unfoldable pub abort_multipart : MultipartSession → M (W × Sessions) (Unit {0})
  abort_multipart session = do
    sessions ← locals
    assign (pop_session session.session_id)
    abort_state (find session.session_id sessions)

  -- `_verification_token`
  unfoldable pub verification_token : Bytes → String → ℕ → ContentIdentity → String
  verification_token key session_id part_number identity =
      "p_"
      <> host.hmac_hex key (
          session_id
          <> "|"
          <> host.str_of part_number
          <> "|"
          <> identity.digest
          <> "|"
          <> host.str_of identity.byte_length)

  module _ (session : MultipartSession) (payload : PayloadReference) where
    -- One round of the loop over the part's chunks.
    unfoldable pub take_part_chunk : Bytes → M (W × PartLoop) (Unit {0})
    take_part_chunk c = do
      assign (λ l. record l { length = l.length + length c })
      l ← locals
      raise_if (ltb session.part_size l.length) multipart_invalid
      raise_if (ltb self.binding.max_object_bytes (l.state.length + l.length)) multipart_invalid
      assign (λ x. record x { hashed = x.hashed ++ c })
      assign (λ x. record x { state = record x.state { hashed = x.state.hashed ++ c } })
      upload ← on_world (self.transport.patch_upload l.state.upload c)
      assign (λ x. record x { state = record x.state { upload = upload } })

    unfoldable pub transfer_part : Chunks → M (W × PartLoop) (Unit {0})
    transfer_part done = pure tt
    transfer_part (broken e) = raise e
    transfer_part (chunk c rest) = do take_part_chunk c; transfer_part rest

    abbrev pub part_identity : PartLoop → ContentIdentity
    part_identity l = record {
      digest = sha256_digest self.hashing l.hashed;
      byte_length = l.length;
    }

    -- The body of the `try` statement.
    unfoldable pub part_body : M (W × PartLoop) ContentIdentity
    part_body = do
      chunks ← on_world (self.payloads.open_chunks payload session.part_size)
      transfer_part chunks
      l ← locals
      raise_if (l.length == 0) multipart_invalid
      lift (verify_identity payload (part_identity l))
      pure (part_identity l)

    abbrev add_part : MultipartPart → MultipartState → MultipartState
    add_part part state = record state {
      parts = state.parts ++ part ∷ [];
      next_part = suc state.next_part;
    }

    -- After the `try` statement, with the session's variables.
    abbrev finish_part : ℕ → ContentIdentity → MultipartState → M (W × Sessions) MultipartPart
    finish_part part_number identity state = do
      let longer = record state { length = state.length + identity.byte_length }
      assign (put_session session.session_id longer)
      part ← lift (
          host.multipart_part part_number identity (
            verification_token self.binding.cursor_signing_key session.session_id part_number
              identity))
      assign (put_session session.session_id (add_part part longer))
      pure part

    -- What the body leaves of the session's variables is in the session; `except Exception` aborts it.
    abbrev settle_part :
        ℕ
        → Sessions
        → Result ContentIdentity × (W × PartLoop)
        → Result MultipartPart × (W × Sessions)
    settle_part part_number sessions (ok identity, (w, l)) =
        finish_part part_number identity l.state (w, sessions)
    settle_part part_number sessions (err e, (w, l)) =
        (do assign (put_session session.session_id l.state); abort_multipart session; raise e)
          (w, sessions)

    abbrev fresh_part : MultipartState → PartLoop
    fresh_part state = record { state = state; hashed = []; length = 0 }

    abbrev run_part : ℕ → MultipartState → M (W × Sessions) MultipartPart
    run_part part_number state (w, sessions) =
        settle_part part_number sessions (part_body (w, fresh_part state))

    unfoldable pub upload_part : ℕ → M (W × Sessions) MultipartPart
    upload_part part_number = do
      state ← state_of session
      raise_if (not (part_number == state.next_part)) multipart_invalid
      raise_if (ltb self.binding.max_multipart_parts part_number) multipart_invalid
      run_part part_number state

  abbrev pub whole_identity : MultipartState → ContentIdentity
  whole_identity state = record {
    digest = sha256_digest self.hashing state.hashed;
    byte_length = state.length;
  }

  -- The checks of a completion before anything is changed.
  unfoldable pub check_completion : MultipartState → List MultipartPart → Result (Unit {0})
  check_completion state supplied =
      if not (same_parts supplied state.parts)
      then err multipart_invalid
      else if has_small_part supplied
      then err multipart_invalid
      else host.multipart_completion supplied (whole_identity state)

  -- Where the declaration is not met, the session is aborted.
  unfoldable pub require_declared : MultipartSession → Bool → M (W × Sessions) (Unit {0})
  require_declared session false = pure tt
  require_declared session true = do abort_multipart session; raise incomplete_upload

  module _ (state : MultipartState) (immutability : ImmutabilityRequest)
      (retention : Option RetentionRequest) where
    abbrev creates_only : Bool
    creates_only = state.operation.input.create_only || immutability.publish_once

    abbrev advance : PutState → M (W × PutState) (Unit {0})
    advance target = do
      machine ← locals
      next ← lift (self.common.put_transition machine target)
      assign (λ _. next)

    -- The body of the `try` statement, over the state machine.
    unfoldable pub complete_body : M (W × PutState) ObjectMetadata
    complete_body = do
      on_world
          (require_create_available self state.operation.input.object_id immutability creates_only)
      _ ← on_world (self.transport.finish_upload state.upload (whole_identity state).digest)
      advance verifying
      metadata ← on_world (
          commit_object self state.operation.input (whole_identity state) immutability retention
            creates_only)
      advance committed
      pure metadata

    -- `except Exception`
    abbrev fail_complete : PutState → Error → M W ObjectMetadata
    fail_complete machine e =
        if is_uploading machine
        then (do
          abort_safely self state.upload
          _ ← lift (self.common.put_fail machine false)
          raise e)
        else if is_verifying machine
        then (do _ ← lift (self.common.put_fail machine true); raise e)
        else raise e

    abbrev settle_complete : Result ObjectMetadata × (W × PutState) → Result ObjectMetadata × W
    settle_complete (ok metadata, (w, machine)) = (ok metadata, w)
    settle_complete (err e, (w, machine)) = fail_complete machine e w

    -- The `try` statement; its `finally` forgets the session.
    unfoldable pub run_complete : MultipartSession → M (W × Sessions) ObjectMetadata
    run_complete session (w, sessions) =
        let r = settle_complete (complete_body (w, state.machine)) in
        (r.0, (r.1, pop_session session.session_id sessions))

  unfoldable pub complete_multipart :
      MultipartSession → List MultipartPart → M (W × Sessions) ObjectMetadata
  complete_multipart session supplied = do
    state ← state_of session
    lift (check_completion state supplied)
    require_declared session
        (digest_differs (whole_identity state).digest state.operation.input.expected_digest)
    require_declared session
        (length_differs (whole_identity state).byte_length state.operation.input.expected_length)
    immutability ← lift (immutability_of self state.operation.input.immutability)
    retention ← lift (retention_of self state.operation.input.retention)
    run_complete state immutability retention session
