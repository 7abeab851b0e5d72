-- ===== src/Multipart/Parts.antt =====
-- On `upload_part` of multipart/__init__.py: the sessions after a call, whether
-- it returns or raises.
use mathlib.Core.Path.{subst}
use meridian_ociadapter.Prelude.{
  ℕ, ◌+◌, ◌≤◌, ◌<◌, ◌≡◌, refl, sym, ap, ◌∙◌, false, not, List, [], ◌∷◌, ◌++◌, length-append, String,
  not-ltb→le, ◌==◌, length, arith,
}
use meridian_ociadapter.Effect.{Result, ok, err}
use meridian_ociadapter.Effect.Locals.{
  Kept, Kept-pure, Kept-raise, Kept-then, Kept-bind, Kept-made, Kept-guard, Kept-assign,
}
use meridian_ociadapter.Hashing.{Bytes, sha256_digest}
use meridian_ociadapter.ObjectCommon.{ContentIdentity, PayloadReference}
use meridian_ociadapter.Transport.Interface.{IsVerifying}
use meridian_ociadapter.Adapter.{OciDistributionAdapter}
use meridian_ociadapter.Multipart.{
  MultipartHost, MultipartPart, MultipartSession, MultipartState, PartLoop, part_body, fresh_part,
  verification_token, add_part, Sessions, pop_session, run_part, upload_part, finish_part,
  settle_part, put_session,
}
use meridian_ociadapter.Multipart.WellFormed.{
  IsPart, join-append, AreParts, AreParts-append, IsSession, AreSessions, find-All, All-put_session,
  All-pop_session, put_session-put_session, pop_session-put_session,
}
use meridian_ociadapter.Multipart.Calls.{abort_multipart-Kept, state_of-Triple, state_of-Kept}
use meridian_ociadapter.Multipart.Transfer.{IsSent, part_body-Triple}

-- `MultipartPart(…)` takes the numbers, the identities and the tokens that the manager gives it.
pub record MakesParts {W : Type 0} (self : OciDistributionAdapter W) (host : MultipartHost W)
    : Type 0 where
  pub makes :
      (key : Bytes) (id : String) (n : ℕ) (bytes : Bytes) (i : ContentIdentity)
      → 0 < n
      → n ≤ self.binding.max_multipart_parts
      → 0 < length bytes
      → i ≡ record { digest = sha256_digest self.hashing bytes; byte_length = length bytes }
      → host.multipart_part n i (verification_token self host key id n i)
        ≡ ok (record {
          part_number = n;
          identity = i;
          verification = verification_token self host key id n i;
        })

pub is_next : (n m : ℕ) → not (n == m) ≡ false → n ≡ m
is_next n m h = ground arith

module _ {W : Type 0} (self : OciDistributionAdapter W) (host : MultipartHost W)
    (session : MultipartSession) (payload : PayloadReference) (start : MultipartState)
    (keeps : IsVerifying self.hashing self.codec self.binding.max_manifest_bytes
      self.transport) where
  abbrev grown : MultipartState → ContentIdentity → MultipartState
  grown s i = record s { length = s.length + i.byte_length }

  recorded :
      (bs : List Bytes) (b : Bytes) (ps : List MultipartPart) (p : MultipartPart)
      → AreParts self 1 bs start.parts
      → ps ≡ start.parts
      → IsPart self (1 + length start.parts) b p
      → AreParts self 1 (bs ++ b ∷ []) (ps ++ p ∷ [])
  recorded bs b ps p h e k =
      subst (λ qs. AreParts self 1 (bs ++ b ∷ []) (qs ++ p ∷ [])) (sym e)
        (AreParts-append self 1 bs start.parts b p h k)

  -- The session after a part was sent and recorded.
  grown-IsSession :
      (n : ℕ) (i : ContentIdentity) (l : PartLoop) (v : String)
      → IsSession self start
      → n ≡ start.next_part
      → IsSent self host session payload start keeps i l
      → IsSession self (
          add_part self host session payload
            (record { part_number = n; identity = i; verification = v })
            (grown l.state i))
  grown-IsSession n i l v s e sent =
      let b = sent.between in
      record {
        segments = s.segments ++ sent.bytes ∷ [];
        parts = recorded s.segments sent.bytes l.state.parts _ s.parts b.parts (record {
          number = omega (arith, e, s.next);
          digest = ap (λ (x : ContentIdentity). x.digest) sent.identity;
          size = ap (λ (x : ContentIdentity). x.byte_length) sent.identity;
          filled = sent.filled;
        });
        hashed =
            b.whole ∙ ap (λ t. t ++ sent.bytes) s.hashed ∙ sym (join-append s.segments sent.bytes);
        size = omega (
          arith,
          b.before,
          s.size,
          ap (λ (x : ContentIdentity). x.byte_length) sent.identity,
          ap length b.whole,
          length-append {0} start.hashed sent.bytes,
        );
        offset =
            omega (
              arith,
              b.before,
              b.offset,
              ap (λ (x : ContentIdentity). x.byte_length) sent.identity,
            );
        limit =
            omega
              (arith, b.before, b.limit, ap (λ (x : ContentIdentity). x.byte_length) sent.identity);
        next = omega (
          arith,
          b.next,
          s.next,
          ap length b.parts,
          length-append {0} l.state.parts
              (record { part_number = n; identity = i; verification = v } ∷ []),
        );
      }

  replaced :
      (old ss : Sessions) (t u : MultipartState)
      → AreSessions self old
      → ss ≡ put_session session.session_id t old
      → IsSession self u
      → AreSessions self (put_session session.session_id u ss)
  replaced old ss t u are p h =
      subst (λ x. AreSessions self (put_session session.session_id u x)) (sym p)
        (subst (AreSessions self) (sym (put_session-put_session session.session_id u t old))
          (All-put_session (IsSession self) session.session_id u old h are))

  -- Where the part was sent, it is recorded, and the sessions stay well formed.
  finish_part-Kept :
      (n : ℕ) (i : ContentIdentity) (l : PartLoop)
      → MakesParts self host
      → IsSession self start
      → n ≡ start.next_part
      → n ≤ self.binding.max_multipart_parts
      → IsSent self host session payload start keeps i l
      → Kept
          (AreSessions self)
          (finish_part self host session payload n i l.state)
          (AreSessions self)
  finish_part-Kept n i l makes s e m sent =
      Kept-assign _ _
        (λ ss.
          (old : Sessions) × AreSessions self old
          × (ss ≡ put_session session.session_id (grown l.state i) old))
        (λ ss are. (ss, are, refl))
        (Kept-made _
          (makes.makes _ _ n sent.bytes i (omega (arith, e, s.next)) m sent.filled sent.identity)
          (Kept-assign _ _ (AreSessions self)
            (λ ss (old, are, p). replaced old ss _ _ are p (grown-IsSession n i l _ s e sent))
            (Kept-pure (λ ss are. are) _)))

  settle_part-kept :
      (n : ℕ)
      → MakesParts self host
      → IsSession self start
      → n ≡ start.next_part
      → n ≤ self.binding.max_multipart_parts
      → (sessions : Sessions) → AreSessions self sessions
      → (r : Result ContentIdentity × (W × PartLoop))
      → ((i : ContentIdentity) → r.0 ≡ ok i → IsSent self host session payload start keeps i r.1.1)
      → AreSessions self (settle_part self host session payload n sessions r).1.1
  settle_part-kept n makes s e m sessions are (ok i, (w, l)) h =
      (finish_part-Kept n i l makes s e m (h i refl)).at w sessions are
  settle_part-kept n makes s e m sessions are (err x, (w, l)) h =
      Kept.at
        (Kept-assign {P = AreSessions self} _ _
          (λ ss. AreSessions self (pop_session session.session_id ss))
          (λ ss all.
            subst (AreSessions self) (sym (pop_session-put_session session.session_id l.state ss))
              (All-pop_session (IsSession self) session.session_id ss all))
          (Kept-then _ _ (abort_multipart-Kept self host session (AreSessions self))
            λ _. Kept-raise (λ ss all. all) x))
        w sessions are

  run_part-Kept :
      (n : ℕ)
      → MakesParts self host
      → IsSession self start
      → n ≡ start.next_part
      → n ≤ self.binding.max_multipart_parts
      → Kept (AreSessions self) (run_part self host session payload n start) (AreSessions self)
  run_part-Kept n makes s e m = record {
    at = λ w sessions are.
        settle_part-kept n makes s e m sessions are
          (part_body self host session payload (w, fresh_part self host session payload start))
          ((part_body-Triple self host session payload start keeps s).at w
            (fresh_part self host session payload start) refl);
  }

module _ {W : Type 0} (self : OciDistributionAdapter W) (host : MultipartHost W)
    (keeps : IsVerifying self.hashing self.codec self.binding.max_manifest_bytes self.transport)
    (makes : MakesParts self host) where
  -- A call that uploads a part keeps every session well formed, whether it returns or raises.
  pub upload_part-Kept :
      (session : MultipartSession) (payload : PayloadReference) (n : ℕ)
      → Kept (AreSessions self) (upload_part self host session payload n) (AreSessions self)
  unfolding upload_part
  upload_part-Kept session payload n =
      Kept-bind _ _ _ (state_of-Triple self host session (AreSessions self))
        (state_of-Kept self host session (AreSessions self))
        λ s.
          Kept-guard _ _ _ (λ ss (f, are). are)
            λ same.
              Kept-guard _ _ _ (λ ss (f, are). are)
                λ few. record {
                  at = λ w ss (f, are).
                      (run_part-Kept self host session payload s keeps n makes
                          (find-All (IsSession self) session.session_id ss s are f)
                          (is_next n s.next_part same) (not-ltb→le _ _ few)).at
                        w ss are;
                }
