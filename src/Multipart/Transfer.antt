-- ===== src/Multipart/Transfer.antt =====
-- On the loop of `upload_part` of multipart/__init__.py: what holds of the session's variables while
-- a part is sent, and what was sent when the loop is over.
use mathlib.Core.Path.{subst}
use meridian_ociadapter.Prelude.{
  ℕ, zero, suc, ◌+◌, ◌≤◌, ◌<◌, ◌≡◌, refl, sym, ap, ◌∙◌, false, [], ◌++◌, append_assoc, append-nil,
  length-append, not-ltb→le, ◌==◌, length, arith,
}
use meridian_ociadapter.Effect.Locals.{
  Triple, Triple-pure, Triple-raise, Triple-on_world, Triple-bind, Triple-lifted, Triple-guard,
  Triple-locals, Triple-assign, Triple-assign_last,
}
use meridian_ociadapter.Hashing.{Bytes, sha256_digest}
use meridian_ociadapter.ObjectCommon.{ContentIdentity, PayloadReference}
use meridian_ociadapter.Transport.Stream.{Chunks, done, broken, chunk}
use meridian_ociadapter.Transport.Stream.Laws.{bytes_of}
use meridian_ociadapter.Transport.Interface.{IsVerifying}
use meridian_ociadapter.Adapter.{OciDistributionAdapter}
use meridian_ociadapter.Multipart.{
  MultipartHost, MultipartSession, MultipartState, PartLoop, take_part_chunk, transfer_part,
  part_identity, part_body, fresh_part,
}
use meridian_ociadapter.Multipart.WellFormed.{IsSession}

module _ {W : Type 0} (self : OciDistributionAdapter W) (host : MultipartHost W)
    (session : MultipartSession) (payload : PayloadReference) (start : MultipartState) where
  -- Between two chunks of a part whose chunks so far are `bytes`.
  pub record PartBetween (bytes : Bytes) (l : PartLoop) : Type 0 where
    pub parts : l.state.parts ≡ start.parts
    pub before : l.state.length ≡ start.length
    pub next : l.state.next_part ≡ start.next_part
    pub whole : l.state.hashed ≡ start.hashed ++ bytes
    pub hashed : l.hashed ≡ bytes
    pub size : l.length ≡ length bytes
    pub limit : start.length + length bytes ≤ self.binding.max_object_bytes
    pub offset : l.state.upload.offset ≡ start.length + length bytes

  abbrev hash_chunk : Bytes → PartLoop → PartLoop
  hash_chunk c l = record l { hashed = l.hashed ++ c }

  abbrev count_chunk : Bytes → PartLoop → PartLoop
  count_chunk c l = record l { length = l.length + length c }

  abbrev hash_whole : Bytes → PartLoop → PartLoop
  hash_whole c l = record l { state = record l.state { hashed = l.state.hashed ++ c } }

  sent :
      (bytes c : Bytes) (l : PartLoop)
      → PartBetween bytes l
      → (s : MultipartState) → s.parts ≡ l.state.parts
      → s.length ≡ l.state.length
      → s.next_part ≡ l.state.next_part
      → s.hashed ≡ l.state.hashed ++ c
      → start.length + length (bytes ++ c) ≤ self.binding.max_object_bytes
      → s.upload.offset ≡ start.length + length (bytes ++ c)
      → PartBetween
          (bytes ++ c)
          (record { state = s; hashed = l.hashed ++ c; length = l.length + length c })
  sent bytes c l b s p n x h m o = record {
    parts = p ∙ b.parts;
    before = n ∙ b.before;
    next = x ∙ b.next;
    whole = h ∙ ap (λ t. t ++ c) b.whole ∙ append_assoc start.hashed bytes c;
    hashed = ap (λ t. t ++ c) b.hashed;
    size = omega (arith, b.size, length-append {0} bytes c);
    limit = m;
    offset = o;
  }

  module _
      (keeps : IsVerifying self.hashing self.codec self.binding.max_manifest_bytes
        self.transport) where
    take_part_chunk-Triple :
        (bytes c : Bytes)
        → Triple {W = W}
            (PartBetween bytes)
            (take_part_chunk self host session payload c)
            (λ _. PartBetween (bytes ++ c))
    unfolding take_part_chunk
    take_part_chunk-Triple bytes c =
        Triple-assign _ _ (λ x. (l : PartLoop) × PartBetween bytes l × (x ≡ count_chunk c l))
          (λ l b. (l, b, refl))
          (Triple-locals _ λ x (l, b, e). Triple-guard _ _ _ λ _. Triple-guard _ _ _ λ limit.
            Triple-assign _ _ (λ y. y ≡ hash_chunk c (count_chunk c l))
              (λ y p. ap (hash_chunk c) (p ∙ e))
              (Triple-assign _ _ (λ y. y ≡ hash_whole c (hash_chunk c (count_chunk c l)))
                (λ y p. ap (hash_whole c) p)
                (Triple-bind _ _
                  (λ u y.
                    (u.offset ≡ x.state.upload.offset + length c)
                    × (y ≡ hash_whole c (hash_chunk c (count_chunk c l))))
                  (Triple-on_world _ _ (keeps.chunk x.state.upload c) λ u y o p. (o, p))
                  λ u. Triple-assign_last _ λ y (o, p).
                    subst
                      (λ (y : PartLoop).
                        PartBetween (bytes ++ c)
                          (record y { state = record y.state { upload = u } }))
                      (sym p)
                      (sent bytes c l b
                        (record l.state { hashed = l.state.hashed ++ c; upload = u }) refl refl refl
                        refl
                        (omega (
                          arith,
                          length-append {0} bytes c,
                          not-ltb→le _ _ limit,
                          ap (λ (t : PartLoop). t.state.length) e,
                          ap (λ (t : PartLoop). t.length) e,
                          b.before,
                          b.size,
                        ))
                        (omega (
                          arith,
                          length-append {0} bytes c,
                          o,
                          ap (λ (t : PartLoop). t.state.upload.offset) e,
                          b.offset,
                        ))))))

    transfer_part-Triple :
        (bytes : Bytes) (chunks : Chunks)
        → Triple {W = W}
            (PartBetween bytes)
            (transfer_part self host session payload chunks)
            (λ _. PartBetween (bytes ++ bytes_of chunks))
    unfolding transfer_part
    transfer_part-Triple bytes done =
        Triple-pure tt λ l b. subst (λ x. PartBetween x l) (sym (append-nil bytes)) b
    transfer_part-Triple bytes (broken e) = Triple-raise e
    transfer_part-Triple bytes (chunk c rest) =
        Triple-bind _ _ _ (take_part_chunk-Triple bytes c) λ _.
          subst
            (λ t.
              Triple {W = W} (PartBetween (bytes ++ c))
                (transfer_part self host session payload rest) (λ _. PartBetween t))
            (append_assoc bytes c (bytes_of rest)) (transfer_part-Triple (bytes ++ c) rest)

    -- A part that was sent: its bytes are not empty, and its identity is theirs.
    pub record IsSent (i : ContentIdentity) (l : PartLoop) : Type 0 where
      pub bytes : Bytes
      pub between : PartBetween bytes l
      pub filled : 0 < length bytes
      pub identity :
          i ≡ record { digest = sha256_digest self.hashing bytes; byte_length = length bytes }

    part_filled : (n m : ℕ) → (n == 0) ≡ false → n ≡ m → 0 < m
    part_filled zero m e p = cc
    part_filled (suc n) m e p = omega (arith, p)

    whole_part :
        (bytes : Bytes) (l : PartLoop)
        → PartBetween bytes l
        → (l.length == 0) ≡ false
        → IsSent (part_identity self host session payload l) l
    whole_part bytes l b e = record {
      bytes = bytes;
      between = b;
      filled = part_filled l.length (length bytes) e b.size;
      identity = (λ i. record {
        digest = sha256_digest self.hashing (b.hashed i);
        byte_length = b.size i;
      });
    }

    fresh_between :
        IsSession self start → PartBetween [] (fresh_part self host session payload start)
    fresh_between s = record {
      parts = refl;
      before = refl;
      next = refl;
      whole = sym (append-nil start.hashed);
      hashed = refl;
      size = refl;
      limit = omega (arith, s.limit);
      offset = omega (arith, s.offset);
    }

    pub part_body-Triple :
        IsSession self start
        → Triple
            (λ l. l ≡ fresh_part self host session payload start)
            (part_body self host session payload)
            IsSent
    unfolding part_body
    part_body-Triple s =
        Triple-bind _ _ (λ _ l. PartBetween [] l)
          (Triple-on_world _ (λ _. Unit) (record { at = λ w a e. tt })
            λ a l _ p. subst (PartBetween []) (sym p) (fresh_between s))
          λ chunks. Triple-bind _ _ _ (transfer_part-Triple [] chunks) λ _. Triple-locals _ λ l b.
            Triple-guard _ _ _ λ filled. Triple-lifted _ _ λ _ _.
              Triple-pure (part_identity self host session payload l)
                λ x e. subst (IsSent _) (sym e) (whole_part _ l b filled)
