-- ===== src/Multipart/Runs.antt =====
-- The calls of a multipart manager in any order, with any change of the rest of the world between
-- them: what holds of the sessions at all times.
use meridian_ociadapter.Prelude.{ℕ, ◌≡◌, refl, Bool, true, false, List, [], Option, arith, ◌<>◌}
use meridian_ociadapter.Effect.Locals.{
  Kept, Kept-pure, Kept-raise, Kept-on_world, Kept-then, Kept-lifted, Kept-guard, Kept-assign,
  Kept-weaken, Kept-world,
}
use meridian_ociadapter.ObjectCommon.{PayloadReference, ImmutabilityRequest, RetentionRequest}
use meridian_ociadapter.Transport.Models.{UploadLocation}
use meridian_ociadapter.Transport.Interface.{IsVerifying}
use meridian_ociadapter.Adapter.{Operation, OciDistributionAdapter}
use meridian_ociadapter.Multipart.{
  MultipartHost, MultipartPart, MultipartSession, MultipartState, Sessions, begin_multipart,
  new_state, upload_part, require_declared, run_complete, complete_multipart, abort_multipart,
}
use meridian_ociadapter.Multipart.WellFormed.{
  IsSession, AreSessions, All-put_session, All-pop_session,
}
use meridian_ociadapter.Multipart.Calls.{abort_multipart-Kept, state_of-Kept}
use meridian_ociadapter.Multipart.Parts.{MakesParts, upload_part-Kept}

module _ {W : Type 0} (self : OciDistributionAdapter W) (host : MultipartHost W) where
  -- A call of the manager, whether it returns or raises, or a change of the rest of the world.
  pub data Step : W × Sessions → W × Sessions → Type 0 where
    begun :
        (operation : Operation) (s : W × Sessions)
        → Step s (begin_multipart self host operation s).1
    sent :
        (session : MultipartSession) (payload : PayloadReference) (part_number : ℕ)
        (s : W × Sessions)
        → Step s (upload_part self host session payload part_number s).1
    completed :
        (session : MultipartSession) (supplied : List MultipartPart) (s : W × Sessions)
        → Step s (complete_multipart self host session supplied s).1
    aborted :
        (session : MultipartSession) (s : W × Sessions)
        → Step s (abort_multipart self host session s).1
    elsewhere : (w v : W) (sessions : Sessions) → Step (w, sessions) (v, sessions)

  -- From a new manager, which has no session.
  pub data Reach : W × Sessions → Type 0 where
    fresh : (w : W) → Reach (w, [])
    next : {s t : W × Sessions} → Reach s → Step s t → Reach t

  module _
      (keeps : IsVerifying self.hashing self.codec self.binding.max_manifest_bytes self.transport)
      (makes : MakesParts self host) where
    new_state-IsSession :
        (operation : Operation) (upload : UploadLocation)
        → upload.offset ≡ 0
        → (machine : _) → IsSession self (new_state self host operation upload machine)
    new_state-IsSession operation upload e machine = record {
      segments = [];
      parts = tt;
      hashed = refl;
      size = refl;
      offset = e;
      limit = omega arith;
      next = refl;
    }

    begin_multipart-Kept :
        (operation : Operation)
        → Kept (AreSessions self) (begin_multipart self host operation) (AreSessions self)
    unfolding begin_multipart
    begin_multipart-Kept operation =
        Kept-lifted _ _ (λ ss i. i)
          λ method _.
            Kept-guard _ _ _ (λ ss i. i)
              λ _.
                Kept-lifted _ _ (λ ss i. i)
                  λ _ _.
                    Kept-lifted _ _ (λ ss i. i)
                      λ immutability _. Kept-then _ _ (Kept-on_world (λ ss i. i) _) λ _.
                        Kept-world _ _ _ keeps.started λ upload start.
                          Kept-lifted _ _ (λ ss i. i)
                            λ machine _. Kept-then _ _ (Kept-on_world (λ ss i. i) _) λ token.
                              Kept-then _ _ (Kept-on_world (λ ss i. i) _) λ time.
                                Kept-lifted _ _ (λ ss i. i)
                                  λ session _.
                                    Kept-assign _ _ (AreSessions self)
                                      (λ ss are.
                                        All-put_session (IsSession self) ("u" <> token) _ ss
                                          (new_state-IsSession operation upload start machine) are)
                                      (Kept-pure (λ ss i. i) session)

    abort_multipart-sessions :
        (session : MultipartSession)
        → Kept (AreSessions self) (abort_multipart self host session) (AreSessions self)
    abort_multipart-sessions session =
        Kept-weaken (λ ss are. All-pop_session (IsSession self) session.session_id ss are)
          (abort_multipart-Kept self host session (AreSessions self))

    require_declared-Kept :
        (session : MultipartSession) (differs : Bool)
        → Kept (AreSessions self) (require_declared self host session differs) (AreSessions self)
    unfolding require_declared
    require_declared-Kept session false = Kept-pure (λ ss i. i) tt
    require_declared-Kept session true =
        Kept-then _ _ (abort_multipart-sessions session) λ _. Kept-raise (λ ss i. i) _

    run_complete-Kept :
        (session : MultipartSession) (s : MultipartState) (immutability : ImmutabilityRequest)
        (retention : Option RetentionRequest)
        → Kept
            (AreSessions self)
            (run_complete self host s immutability retention session)
            (AreSessions self)
    unfolding run_complete
    run_complete-Kept session s immutability retention = record {
      at = λ w ss are. All-pop_session (IsSession self) session.session_id ss are;
    }

    complete_multipart-Kept :
        (session : MultipartSession) (supplied : List MultipartPart)
        → Kept (AreSessions self) (complete_multipart self host session supplied) (AreSessions self)
    unfolding complete_multipart
    complete_multipart-Kept session supplied =
        Kept-then _ _ (state_of-Kept self host session (AreSessions self)) λ s.
          Kept-lifted _ _ (λ ss i. i)
            λ _ _. Kept-then _ _ (require_declared-Kept session _) λ _.
              Kept-then _ _ (require_declared-Kept session _) λ _.
                Kept-lifted _ _ (λ ss i. i)
                  λ immutability _.
                    Kept-lifted _ _ (λ ss i. i)
                      λ retention _. run_complete-Kept session s immutability retention

    Step-AreSessions : {s t : W × Sessions} → Step s t → AreSessions self s.1 → AreSessions self t.1
    Step-AreSessions (begun operation s) are = (begin_multipart-Kept operation).at s.0 s.1 are
    Step-AreSessions (sent session payload n s) are =
        (upload_part-Kept self host keeps makes session payload n).at s.0 s.1 are
    Step-AreSessions (completed session supplied s) are =
        (complete_multipart-Kept session supplied).at s.0 s.1 are
    Step-AreSessions (aborted session s) are = (abort_multipart-sessions session).at s.0 s.1 are
    Step-AreSessions (elsewhere w v sessions) are = are

    -- In every state that a manager comes to by calls that return or raise, over a transport that keeps
    -- the client's promises and with a constructor of parts that takes what the manager gives it, each
    -- session has parts that are numbered from 1 without a gap, each with the hash and the length of its
    -- own bytes, which are not empty. The session's hasher has been given these bytes in the parts'
    -- order, the upload stands at their length, which is within the binding's limit, and the next number
    -- is one more than the number of parts.
    pub Reach-AreSessions : {s : W × Sessions} → Reach s → AreSessions self s.1
    Reach-AreSessions (fresh w) = tt
    Reach-AreSessions (next r st) = Step-AreSessions st (Reach-AreSessions r)
