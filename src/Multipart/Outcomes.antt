-- ===== src/Multipart/Outcomes.antt =====
-- On `upload_part` and `abort_multipart` of multipart/__init__.py: what a part that is returned leaves
-- in its session, and how a call that raises ends one.
use mathlib.Core.Path.{subst}
use meridian_ociadapter.Prelude.{
  ℕ, ◌+◌, ◌≤◌, ◌≡◌, refl, sym, ap, Bool, true, false, [], ◌∷◌, ◌++◌, String, none, some, ◌=ˢ◌,
  eq_iff, not-ltb→le, Bool-cases, ◌⊎◌, inl, inr, length, arith,
}
use meridian_ociadapter.Effect.{Error, Result, ok, err, M, continue, ◌>>=◌, ◌>>◌, raise_if, lift}
use meridian_ociadapter.Effect.Rules.{Result-cases}
use meridian_ociadapter.Effect.Locals.{
  Triple, Triple-then, Triple-raise, locals, Kept, Kept-weaken, Kept-raise, Kept-then, Kept-assign,
  assign,
}
use meridian_ociadapter.Hashing.{Bytes}
use meridian_ociadapter.ObjectCommon.{ContentIdentity, PayloadReference}
use meridian_ociadapter.Transport.Interface.{IsVerifying}
use meridian_ociadapter.Adapter.{OciDistributionAdapter}
use meridian_ociadapter.Multipart.{
  state_in, verification_token, MultipartHost, MultipartPart, MultipartSession, MultipartState,
  PartLoop, Sessions, find, pop_session, part_body, fresh_part, finish_part, settle_part,
  upload_part, abort_multipart, state_of,
}
use meridian_ociadapter.Multipart.WellFormed.{
  IsPart, IsSession, AreSessions, find-All, find-put_session, find-pop_session,
}
use meridian_ociadapter.Multipart.Transfer.{IsSent, part_body-Triple}
use meridian_ociadapter.Multipart.Calls.{abort_multipart-Kept, state_in-found}
use meridian_ociadapter.Multipart.Parts.{MakesParts, is_next}

find-pop_session-other :
    (k j : String) (ss : Sessions) → (k =ˢ j) ≡ false → find j (pop_session k ss) ≡ find j ss
unfolding pop_session
find-pop_session-other k j [] d = refl
find-pop_session-other k j ((i, t) ∷ ss) d = elim (Bool-cases (i =ˢ k)) [
  | inl e ↦
      let o : (i =ˢ j) ≡ false = subst (λ x. (x =ˢ j) ≡ false) (sym ((eq_iff i k).0 e)) d in
      rw (e, o) (find-pop_session-other k j ss d)
  | inr e ↦ elim (Bool-cases (i =ˢ j)) [
    | inl f ↦ rw (e, f) refl
    | inr f ↦ rw (e, f) (find-pop_session-other k j ss d)
  ]
]

module _ {W : Type 0} (self : OciDistributionAdapter W) (host : MultipartHost W)
    (session : MultipartSession) where
  -- Whether an abort returns or raises, the manager has no session of this id afterwards, and every
  -- session of another id is as it was.
  pub abort_multipart-sole :
      (w : W) (sessions : Sessions)
      → (find session.session_id (abort_multipart self host session (w, sessions)).1.1 ≡ none)
        × ((id : String)
            → (session.session_id =ˢ id) ≡ false
            → find id (abort_multipart self host session (w, sessions)).1.1 ≡ find id sessions)
  abort_multipart-sole w sessions = (
    (abort_multipart-Kept self host session (λ x. find session.session_id x ≡ none)).at w sessions
        (find-pop_session session.session_id sessions),
    λ id d.
        (abort_multipart-Kept self host session (λ x. find id x ≡ find id sessions)).at w sessions
          (find-pop_session-other session.session_id id sessions d),
  )

  module _
      (keeps : IsVerifying self.hashing self.codec self.binding.max_manifest_bytes self.transport)
      (makes : MakesParts self host) (payload : PayloadReference) where
    -- The part is the next one of its session, and is recorded there.
    pub record IsRecorded (n : ℕ) (before after : Sessions) (p : MultipartPart) : Type 0 where
      pub old : MultipartState
      pub new : MultipartState
      pub found : find session.session_id before ≡ some old
      pub kept : find session.session_id after ≡ some new
      pub bytes : Bytes
      pub part : IsPart self n bytes p
      pub turn : n ≡ old.next_part
      pub parts : new.parts ≡ old.parts ++ p ∷ []
      pub hashed : new.hashed ≡ old.hashed ++ bytes
      pub size : new.length ≡ old.length + length bytes

    abbrev Ended : Sessions → Sessions → Type 0
    Ended before after = (after ≡ before) ⊎ (find session.session_id after ≡ none)

    finish_part-IsRecorded :
        (n : ℕ) (s : MultipartState) (i : ContentIdentity) (l : PartLoop) (w : W)
        (before sessions : Sessions)
        → IsSession self s
        → n ≡ s.next_part
        → n ≤ self.binding.max_multipart_parts
        → find session.session_id before ≡ some s
        → IsSent self host session payload s keeps i l
        → (p : MultipartPart) × ((finish_part self host session payload n i l.state (w, sessions)).0
            ≡ ok p)
          × IsRecorded n before
              (finish_part self host session payload n i l.state (w, sessions)).1.1
              p
    unfolding ◌>>=◌ assign
    finish_part-IsRecorded n s i l w before sessions is e m f sent =
        let v =
          verification_token self host self.binding.cursor_signing_key session.session_id n i in
        let made =
          makes.makes self.binding.cursor_signing_key session.session_id n sent.bytes i
            (omega (arith, e, is.next)) m sent.filled sent.identity in
        (
          record { part_number = n; identity = i; verification = v },
          rw made refl,
          rw made (record {
            old = s;
            new = _;
            found = f;
            kept = find-put_session session.session_id _ _;
            bytes = sent.bytes;
            part = record {
              number = refl;
              digest = ap (λ (x : ContentIdentity). x.digest) sent.identity;
              size = ap (λ (x : ContentIdentity). x.byte_length) sent.identity;
              filled = sent.filled;
            };
            turn = e;
            parts =
                ap (λ ps. ps ++ record { part_number = n; identity = i; verification = v } ∷ [])
                  sent.between.parts;
            hashed = sent.between.whole;
            size = omega (
              arith,
              sent.between.before,
              ap (λ (x : ContentIdentity). x.byte_length) sent.identity,
            );
          }),
        )

    -- The part is recorded, or there is an error and the sessions are as before or without this one.
    abbrev pub Settles : ℕ → Sessions → Result MultipartPart × (W × Sessions) → Type 0
    Settles n before r =
        ((p : MultipartPart) × (r.0 ≡ ok p) × IsRecorded n before r.1.1 p)
        ⊎ ((e : Error) × (r.0 ≡ err e) × Ended before r.1.1)

    failed :
        (n : ℕ) (before : Sessions) (m : M (W × Sessions) MultipartPart) (s : W × Sessions)
        → Triple (λ _. Unit) m (λ _ _. ⊥)
        → Ended before (m s).1.1
        → Settles n before (m s)
    failed n before m s h g = elim (Result-cases (m s).0) [
      | inl (e, q) ↦ inr (e, q, g)
      | inr (a, q) ↦ absurd (h.at s.0 s.1 tt a q)
    ]

    settle_part-Settles :
        (n : ℕ) (s : MultipartState) (before sessions : Sessions)
        → IsSession self s
        → n ≡ s.next_part
        → n ≤ self.binding.max_multipart_parts
        → find session.session_id before ≡ some s
        → (r : Result ContentIdentity × (W × PartLoop))
        → ((i : ContentIdentity) → r.0 ≡ ok i → IsSent self host session payload s keeps i r.1.1)
        → Settles n before (settle_part self host session payload n sessions r)
    settle_part-Settles n s before sessions is e m f (ok i, (w, l)) h =
        inl (finish_part-IsRecorded n s i l w before sessions is e m f (h i refl))
    settle_part-Settles n s before sessions is e m f (err x, (w, l)) h =
        failed n before _ (w, sessions) (Triple-then _ _ λ _. Triple-then _ _ λ _. Triple-raise x)
          (inr (
            Kept.at
              (Kept-assign {P = λ _. Unit} _ _ (λ ss. Unit) (λ ss _. tt)
                (Kept-then _ _
                  (Kept-weaken (λ ss _. find-pop_session session.session_id ss)
                    (abort_multipart-Kept self host session
                      (λ ss. find session.session_id ss ≡ none)))
                  λ _. Kept-raise (λ ss g. g) x))
              w sessions tt))

    continue-Settles :
        {A : Type 0} (n : ℕ) (r : Result A) (f : A → M (W × Sessions) MultipartPart) (w : W)
        (ss : Sessions)
        → ((a : A) → r ≡ ok a → Settles n ss (f a (w, ss)))
        → Settles n ss (continue r f (w, ss))
    continue-Settles n (ok a) f w ss h = h a refl
    continue-Settles n (err e) f w ss h = inr (e, refl, inl refl)

    guard-Settles :
        (n : ℕ) (b : Bool) (e : Error) (k : M (W × Sessions) MultipartPart) (w : W) (ss : Sessions)
        → (b ≡ false → Settles n ss (k (w, ss)))
        → Settles n ss ((raise_if b e >> k) (w, ss))
    unfolding ◌>>=◌
    guard-Settles n true e k w ss h = inr (e, refl, inl refl)
    guard-Settles n false e k w ss h = h refl

    -- From sessions that are well formed, over a transport that keeps the client's promises and with a
    -- constructor of parts that takes what the manager gives it, a call that uploads a part ends in one
    -- of two ways. It returns a part with the number that was the session's next one and with the hash
    -- and the length of bytes that are not empty; then the session ends with this part, its hasher has
    -- been given these bytes, and its length has grown by theirs. Or it raises; then either all the
    -- sessions are as before the call, or the manager has no session of this id any more.
    pub upload_part-Settles :
        (n : ℕ) (w : W) (sessions : Sessions)
        → AreSessions self sessions
        → Settles n sessions (upload_part self host session payload n (w, sessions))
    unfolding upload_part state_of ◌>>=◌ locals lift
    upload_part-Settles n w sessions are =
        continue-Settles n (state_in self host session (find session.session_id sessions)) _ w
          sessions
          λ s e.
            let f = state_in-found self host session (find session.session_id sessions) s e in
            guard-Settles n _ _ _ w sessions λ same. guard-Settles n _ _ _ w sessions λ few.
              settle_part-Settles n s sessions sessions
                (find-All (IsSession self) session.session_id sessions s are f)
                (is_next n s.next_part same) (not-ltb→le _ _ few) f
                (part_body self host session payload (w, fresh_part self host session payload s))
                ((part_body-Triple self host session payload s keeps
                    (find-All (IsSession self) session.session_id sessions s are f)).at
                  w (fresh_part self host session payload s) refl)
