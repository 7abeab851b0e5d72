-- ===== src/Adapter/Upload.antt =====
-- `_upload_payload` and `_verify_identity` of adapter.py: a payload is streamed through SHA-256 into
-- an upload session, and finalized only if it is what was declared.
pub mod Laws
use meridian_ociadapter.Prelude.{
  ℕ, zero, suc, ◌+◌, Bool, true, false, ◌&&◌, not, List, [], ◌∷◌, ◌++◌, String, Option, none, some,
  ltb, ◌==◌, ◌=ˢ◌, length, if◌then◌else◌,
}
use meridian_ociadapter.Effect.{
  Error, Result, ok, err, M, pure, raise, lift, continue, ◌>>=◌, ◌>>◌, raise_if, is_transient,
  object_invalid_request, incomplete_upload, digest_mismatch, assertion_error,
}
use meridian_ociadapter.Effect.Locals.{on_world, locals, assign}
use meridian_ociadapter.Hashing.{Bytes, sha256_digest}
use meridian_ociadapter.ObjectCommon.{ContentIdentity, PayloadReference}
use meridian_ociadapter.Transport.Models.{OciDescriptor, UploadLocation}
use meridian_ociadapter.Transport.Stream.{Chunks, done, broken, chunk}
use meridian_ociadapter.Adapter.{OciDistributionAdapter, abort_safely}

-- `expected is not None and value != expected`
abbrev pub length_differs : ℕ → Option ℕ → Bool
length_differs n none = false
length_differs n (some expected) = not (n == expected)

abbrev pub digest_differs : String → Option String → Bool
digest_differs d none = false
digest_differs d (some expected) = not (d =ˢ expected)

-- `expected is not None and length > expected`
abbrev pub exceeds : ℕ → Option ℕ → Bool
exceeds n none = false
exceeds n (some expected) = ltb expected n

-- `_verify_identity`
unfoldable pub verify_identity : PayloadReference → ContentIdentity → Result (Unit {0})
verify_identity payload identity =
    if length_differs identity.byte_length payload.expected_length
    then err incomplete_upload
    else if digest_differs identity.digest payload.expected_digest
    then err digest_mismatch
    else ok tt

-- The variables of one attempt: the upload session, what the hasher has been given, and its length.
pub record Attempt : Type 0 where
  pub upload : Option UploadLocation
  pub hashed : Bytes
  pub length : ℕ

abbrev pub fresh : Attempt
fresh = record { upload = none; hashed = []; length = 0 }

module _ {W : Type 0} (self : OciDistributionAdapter W) (payload : PayloadReference) where
  abbrev existing_blob : Option String → M W (Option OciDescriptor)
  existing_blob none = pure none
  existing_blob (some digest) = self.transport.head_blob digest

  abbrev set_upload : UploadLocation → Attempt → Attempt
  set_upload u l = record l { upload = some u }

  -- `if existing is None: upload = self.transport.start_upload()`
  abbrev begin : Option OciDescriptor → M (W × Attempt) (Unit {0})
  begin (some existing) = pure tt
  begin none = do u ← on_world self.transport.start_upload; assign (set_upload u)

  -- `if upload is not None: upload = self.transport.patch_upload(upload, chunk)`
  abbrev send_chunk : Option UploadLocation → Bytes → M (W × Attempt) (Unit {0})
  send_chunk none c = pure tt
  send_chunk (some upload) c = do
    u ← on_world (self.transport.patch_upload upload c)
    assign (set_upload u)

  -- One round of the loop over the payload's chunks.
  unfoldable pub take_chunk : Bytes → M (W × Attempt) (Unit {0})
  take_chunk c = do
    assign (λ l. record l { length = l.length + length c })
    l ← locals
    raise_if (ltb self.binding.max_object_bytes l.length) object_invalid_request
    raise_if (exceeds l.length payload.expected_length) incomplete_upload
    assign (λ x. record x { hashed = x.hashed ++ c })
    send_chunk l.upload c

  unfoldable pub transfer : Chunks → M (W × Attempt) (Unit {0})
  transfer done = pure tt
  transfer (broken e) = raise e
  transfer (chunk c rest) = do take_chunk c; transfer rest

  abbrev finalize : Option UploadLocation → ContentIdentity → M (W × Attempt) ContentIdentity
  finalize none identity = raise assertion_error
  finalize (some upload) identity = do
    _ ← on_world (self.transport.finish_upload upload identity.digest)
    pure identity

  abbrev conclude :
      Option OciDescriptor
      → Option UploadLocation
      → ContentIdentity
      → M (W × Attempt) ContentIdentity
  conclude (some existing) upload identity = do
    raise_if (not (existing.size == identity.byte_length)) digest_mismatch
    pure identity
  conclude none upload identity = finalize upload identity

  abbrev identity_of : Attempt → ContentIdentity
  identity_of l = record { digest = sha256_digest self.hashing l.hashed; byte_length = l.length }

  -- The body of the `try` statement.
  unfoldable pub attempt_upload : Option OciDescriptor → M (W × Attempt) ContentIdentity
  attempt_upload existing = do
    begin existing
    chunks ← on_world (self.payloads.open_chunks payload self.binding.chunk_size)
    transfer chunks
    l ← locals
    lift (verify_identity payload (identity_of l))
    conclude existing l.upload (identity_of l)

  abbrev abort_if : Option UploadLocation → M W (Unit {0})
  abort_if none = pure tt
  abort_if (some upload) = abort_safely self upload

  -- The `except` clauses: a transient error is raised again only in the last round.
  abbrev settle_attempt :
      Bool
      → M W ContentIdentity
      → Result ContentIdentity × (W × Attempt)
      → Result ContentIdentity × W
  settle_attempt last next (ok identity, (w, l)) = (ok identity, w)
  settle_attempt last next (err e, (w, l)) =
      (do abort_if l.upload; if is_transient e && not last then next else raise e) w

  abbrev run_attempt : Bool → M W ContentIdentity → Option OciDescriptor → M W ContentIdentity
  run_attempt last next existing w = settle_attempt last next (attempt_upload existing (w, fresh))

  -- `for attempt in range(attempts)`, with the rounds that are left
  unfoldable pub attempt_loop : ℕ → M W ContentIdentity
  attempt_loop zero = raise assertion_error
  attempt_loop (suc rest) = do
    existing ← existing_blob payload.expected_digest
    run_attempt (rest == 0) (attempt_loop rest) existing

  unfoldable pub upload_payload : M W ContentIdentity
  unfolding attempt_loop
  upload_payload = attempt_loop (if payload.replayable then 2 else 1)
