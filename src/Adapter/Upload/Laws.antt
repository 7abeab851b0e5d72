-- ===== src/Adapter/Upload/Laws.antt =====
-- On the uploads of adapter.py: what holds between two chunks, and of the identity returned.
use mathlib.Core.Path.{subst}
use meridian_ociadapter.Prelude.{
  ℕ, zero, suc, ◌+◌, ◌≤◌, ◌≡◌, refl, sym, ap, ◌∙◌, Bool, false, ◌&&◌, not, [], ◌++◌, append_assoc,
  append-nil, length-append, Option, none, some, not-ltb→le, ◌==◌, length, arith,
}
use meridian_ociadapter.Effect.{Result, ok, err, M, is_transient}
use meridian_ociadapter.Effect.Rules.{Ensures, Ensures-raise, Ensures-then, Ensures-if}
use meridian_ociadapter.Effect.Locals.{
  Triple, Triple-pure, Triple-raise, Triple-on_world, Triple-bind, Triple-lifted, Triple-guard,
  Triple-locals, Triple-assign, Triple-assign_last, Triple-frame,
}
use meridian_ociadapter.Hashing.{Bytes, sha256_digest}
use meridian_ociadapter.ObjectCommon.{ContentIdentity, PayloadReference}
use meridian_ociadapter.Transport.Models.{OciDescriptor, UploadLocation}
use meridian_ociadapter.Transport.Stream.{Chunks, done, broken, chunk}
use meridian_ociadapter.Transport.Stream.Laws.{bytes_of, Ends}
use meridian_ociadapter.Transport.Interface.{IsVerifying}
use meridian_ociadapter.Adapter.{OciDistributionAdapter}
use meridian_ociadapter.Adapter.Upload.{
  Attempt, fresh, begin, send_chunk, take_chunk, transfer, conclude, identity_of, attempt_upload,
  settle_attempt, attempt_loop, upload_payload, verify_identity, length_differs, digest_differs,
}

abbrev AtOffset : Option UploadLocation → ℕ → Type 0
AtOffset none n = Unit
AtOffset (some u) n = u.offset ≡ n

module _ {W : Type 0} (self : OciDistributionAdapter W) (payload : PayloadReference) where
  -- Between two chunks: the hasher has been given `bytes`, the length is theirs and within the limit,
  -- and the upload session, if there is one, stands at that offset.
  record Between (bytes : Bytes) (l : Attempt) : Type 0 where
    hashed : l.hashed ≡ bytes
    length : l.length ≡ length bytes
    limit : l.length ≤ self.binding.max_object_bytes
    offset : AtOffset l.upload l.length

  -- An identity that was verified: the hash and the length of all of a payload's bytes, within the
  -- binding's limit, and as the payload declares.
  pub record IsIdentity (bytes : Bytes) (i : ContentIdentity) : Type 0 where
    pub digest : i.digest ≡ sha256_digest self.hashing bytes
    pub size : i.byte_length ≡ length bytes
    pub limit : i.byte_length ≤ self.binding.max_object_bytes
    pub declared_length : length_differs i.byte_length payload.expected_length ≡ false
    pub declared_digest : digest_differs i.digest payload.expected_digest ≡ false

  abbrev Open : Chunks → Type 0
  Open chunks =
      (w : W) × ((self.payloads.open_chunks payload self.binding.chunk_size w).0 ≡ ok chunks)

  -- The identity is that of all the bytes of an opening of the payload, read to its end.
  pub record IsUploaded (i : ContentIdentity) : Type 0 where
    pub chunks : Chunks
    pub opened : Open chunks
    pub ends : Ends chunks
    pub identity : IsIdentity (bytes_of chunks) i

  pub verify_identity-ok :
      (i : ContentIdentity)
      → verify_identity payload i ≡ ok tt
      → (length_differs i.byte_length payload.expected_length ≡ false)
        × (digest_differs i.digest payload.expected_digest ≡ false)
  unfolding verify_identity
  verify_identity-ok i h = ground arith

  identified :
      (chunks : Chunks) (l : Attempt)
      → Open chunks
      → Ends chunks
      → Between (bytes_of chunks) l
      → verify_identity payload (identity_of self payload l) ≡ ok tt
      → IsUploaded (identity_of self payload l)
  identified chunks l opened ends b e =
      let (n, d) = verify_identity-ok _ e in
      record {
        chunks = chunks;
        opened = opened;
        ends = ends;
        identity = record {
          digest = ap (sha256_digest self.hashing) b.hashed;
          size = b.length;
          limit = b.limit;
          declared_length = n;
          declared_digest = d;
        };
      }

  module _
      (keeps : IsVerifying self.hashing self.codec self.binding.max_manifest_bytes
        self.transport) where
    -- After a chunk was counted and hashed, and before it is sent.
    abbrev Counted : Bytes → Bytes → Option UploadLocation → Attempt → Type 0
    Counted bytes c upload l =
        (l.hashed ≡ bytes ++ c)
        × (l.length ≡ length (bytes ++ c))
        × (l.length ≤ self.binding.max_object_bytes)
        × (l.upload ≡ upload)

    send_chunk-Triple :
        (bytes c : Bytes) (upload : Option UploadLocation)
        → AtOffset upload (length bytes)
        → Triple {W = W}
            (Counted bytes c upload)
            (send_chunk self payload upload c)
            (λ _. Between (bytes ++ c))
    send_chunk-Triple bytes c none o = Triple-pure tt λ l (h, n, m, u). record {
      hashed = h;
      length = n;
      limit = m;
      offset = subst (λ x. AtOffset x l.length) (sym u) tt;
    }
    send_chunk-Triple bytes c (some upload) o =
        Triple-bind _ _ (λ v l. (v.offset ≡ length (bytes ++ c)) × Counted bytes c (some upload) l)
          (Triple-on_world _ _ (keeps.chunk upload c)
            λ v l e k. (omega (arith, length-append {0} bytes c), k))
          λ v. Triple-assign_last _ (λ l (e, (h, n, m, u)). record {
            hashed = h;
            length = n;
            limit = m;
            offset = omega (arith, e, n);
          })

    take_chunk-Triple :
        (bytes c : Bytes)
        → Triple {W = W} (Between bytes) (take_chunk self payload c) (λ _. Between (bytes ++ c))
    unfolding take_chunk
    take_chunk-Triple bytes c =
        Triple-assign _ _
          (λ l.
            (l.hashed ≡ bytes)
            × (l.length ≡ length bytes + length c)
            × AtOffset l.upload (length bytes))
          (λ l b. (b.hashed, omega (arith, b.length), subst (AtOffset l.upload) b.length b.offset))
          (Triple-locals _ λ l (h, n, o). Triple-guard _ _ _ λ limit. Triple-guard _ _ _ λ _.
            Triple-assign _ _ (Counted bytes c l.upload)
              (λ x e. (
                ap (λ (t : Attempt). t.hashed ++ c) e ∙ ap (λ t. t ++ c) h,
                ap (λ (t : Attempt). t.length) e ∙ n ∙ sym (length-append bytes c),
                omega (arith, not-ltb→le _ _ limit, ap (λ (t : Attempt). t.length) e),
                ap (λ (t : Attempt). t.upload) e,
              ))
              (send_chunk-Triple bytes c l.upload o))

    -- The loop over the chunks: it reaches the end of a stream that ends, with all its bytes.
    transfer-Triple :
        (bytes : Bytes) (chunks : Chunks)
        → Triple {W = W}
            (Between bytes)
            (transfer self payload chunks)
            (λ _ l. Ends chunks × Between (bytes ++ bytes_of chunks) l)
    unfolding transfer
    transfer-Triple bytes done =
        Triple-pure tt λ l b. (tt, subst (λ x. Between x l) (sym (append-nil bytes)) b)
    transfer-Triple bytes (broken e) = Triple-raise e
    transfer-Triple bytes (chunk c rest) = Triple-bind _ _ _ (take_chunk-Triple bytes c) λ _.
        subst
          (λ t.
            Triple {W = W} (Between (bytes ++ c)) (transfer self payload rest)
              (λ _ l. Ends rest × Between t l))
          (append_assoc bytes c (bytes_of rest)) (transfer-Triple (bytes ++ c) rest)

    begin-Triple :
        (existing : Option OciDescriptor)
        → Triple (λ l. l ≡ fresh) (begin self payload existing) (λ _. Between [])
    begin-Triple none =
        Triple-bind _ _ (λ u l. (u.offset ≡ 0) × (l ≡ fresh))
          (Triple-on_world _ _ keeps.started λ u l e p. (e, p))
          λ u. Triple-assign_last _ λ l (e, p). record {
            hashed = ap (λ (t : Attempt). t.hashed) p;
            length = ap (λ (t : Attempt). t.length) p;
            limit = omega (arith, ap (λ (t : Attempt). t.length) p);
            offset = e ∙ sym (ap (λ (t : Attempt). t.length) p);
          }
    begin-Triple (some existing) = Triple-pure tt λ l p. record {
      hashed = ap (λ (t : Attempt). t.hashed) p;
      length = ap (λ (t : Attempt). t.length) p;
      limit = omega (arith, ap (λ (t : Attempt). t.length) p);
      offset = subst (λ (t : Attempt). AtOffset t.upload t.length) (sym p) tt;
    }

    conclude-Triple :
        (existing : Option OciDescriptor) (upload : Option UploadLocation) (i : ContentIdentity)
        (P : Attempt → Type 0)
        → IsUploaded i
        → Triple P (conclude self payload existing upload i) (λ j _. IsUploaded j)
    conclude-Triple (some d) upload i P h = Triple-guard _ _ _ λ _. Triple-pure i λ _ _. h
    conclude-Triple none none i P h = Triple-raise _
    conclude-Triple none (some u) i P h =
        Triple-bind _ _ (λ _ _. Unit)
          (Triple-on_world _ (λ _. Unit) (record { at = λ w a e. tt }) λ a l r p. tt)
          λ _. Triple-pure i λ _ _. h

    attempt_upload-Triple :
        (existing : Option OciDescriptor)
        → Triple (λ l. l ≡ fresh) (attempt_upload self payload existing) (λ i _. IsUploaded i)
    unfolding attempt_upload
    attempt_upload-Triple existing = Triple-bind _ _ _ (begin-Triple existing) λ _.
        Triple-bind _ _ (λ chunks l. Open chunks × Between [] l)
          (Triple-on_world _ Open (record { at = λ w a e. (w, e) }) λ a l o b. (o, b))
          λ chunks.
            Triple-bind _ _ (λ _ l. Open chunks × (Ends chunks × Between (bytes_of chunks) l))
              (Triple-frame (Open chunks) (transfer-Triple [] chunks))
              λ _. Triple-locals _ λ l (opened, (ends, b)). Triple-lifted _ _ λ u e.
                conclude-Triple existing l.upload (identity_of self payload l) _
                  (identified chunks l opened ends b e)

    settled_attempt :
        (last : Bool) (next : M W ContentIdentity)
        → Ensures next IsUploaded
        → (r : Result ContentIdentity × (W × Attempt))
        → ((i : ContentIdentity) → r.0 ≡ ok i → IsUploaded i)
        → (i : ContentIdentity) → (settle_attempt self payload last next r).0 ≡ ok i
        → IsUploaded i
    settled_attempt last next hn (ok j, (w, l)) h i e = h i e
    settled_attempt last next hn (err x, (w, l)) h i e =
        Ensures.at
          (Ensures-then _ _
            λ _. Ensures-if (is_transient x && not last) _ _ (λ _. hn) (λ _. Ensures-raise x))
          w i e

    -- In every round, a call that returns has verified what it uploaded.
    attempt_loop-Ensures : (n : ℕ) → Ensures (attempt_loop self payload n) IsUploaded
    unfolding attempt_loop
    attempt_loop-Ensures zero = Ensures-raise _
    attempt_loop-Ensures (suc n) = Ensures-then _ _ λ existing. record {
      at = λ w.
          settled_attempt (n == 0) (attempt_loop self payload n) (attempt_loop-Ensures n)
            (attempt_upload self payload existing (w, fresh))
            ((attempt_upload-Triple existing).at w fresh refl);
    }

    pub upload_payload-Ensures : Ensures (upload_payload self payload) IsUploaded
    unfolding upload_payload
    upload_payload-Ensures = attempt_loop-Ensures _

    -- Whenever an upload returns an identity, over a transport that keeps the client's promises, there is
    -- an opening of the payload whose chunks end without an error, and the identity is the hash and the
    -- length of all their bytes. The length is within the binding's limit, and length and digest are
    -- those that the payload declares, where it declares them.
    pub upload_payload-IsUploaded :
        (w : W) (i : ContentIdentity) → (upload_payload self payload w).0 ≡ ok i → IsUploaded i
    upload_payload-IsUploaded w i e = upload_payload-Ensures.at w i e
